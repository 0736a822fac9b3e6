-- ===== src/Order.antt =====
-- Texts in the order of Python, by the numbers of their characters, and a stable sort by a text, as
-- fiaas_deploy_daemon/crd/status.py sorts statuses.
use mathlib.Core.List.{append_assoc}
use fiaas_deploy_daemon.Base.{
  ℕ, suc, ◌+◌, String, ◌≡◌, refl, sym, ap, ◌∙◌, inl, inr, Bool, true, false, List, [], ◌∷◌, ◌++◌,
  arith, ltb, if◌then◌else◌, Bool-cases, length, All, All-map,
}
use Prim.Native.Char.{code}

-- `s <= t`
unfoldable pub text_le : String → String → Bool
text_le String.[] t = true
text_le (String.◌∷◌ c s) String.[] = false
text_le (String.◌∷◌ c s) (String.◌∷◌ d t) =
    let rest = text_le s t in
    if ltb (code c) (code d) then true else (if ltb (code d) (code c) then false else rest)

pub text_le_total : (s t : String) → text_le s t ≡ false → text_le t s ≡ true
unfolding text_le
text_le_total String.[] t h = cc
text_le_total (String.◌∷◌ c s) String.[] h = refl
text_le_total (String.◌∷◌ c s) (String.◌∷◌ d t) h = ground (arith, text_le_total s t)

pub text_le_trans : (s t u : String) → text_le s t ≡ true → text_le t u ≡ true → text_le s u ≡ true
unfolding text_le
text_le_trans String.[] t u h k = refl
text_le_trans (String.◌∷◌ c s) String.[] u h k = cc
text_le_trans (String.◌∷◌ c s) (String.◌∷◌ d t) String.[] h k = cc
text_le_trans (String.◌∷◌ c s) (String.◌∷◌ d t) (String.◌∷◌ e u) h k =
    ground (arith, text_le_trans s t u)

pub text_le_refl : (s : String) → text_le s s ≡ true
unfolding text_le
text_le_refl s = elim (Bool-cases (text_le s s)) [ inl le ↦ le | inr gt ↦ text_le_total s s gt ]

module _ {A : Type 0} (key : A → String) where
  insert_by : A → List A → List A
  unfolding text_le
  insert_by x [] = x ∷ []
  insert_by x (y ∷ ys) = if text_le (key x) (key y) then x ∷ y ∷ ys else y ∷ insert_by x ys

  -- `xs.sort(key=key)`
  unfoldable pub sort_by : List A → List A
  unfolding insert_by
  sort_by [] = []
  sort_by (x ∷ xs) = insert_by x (sort_by xs)

  -- Every later entry has no smaller key.
  abbrev pub IsSorted : List A → Type 0
  IsSorted [] = Unit
  IsSorted (x ∷ xs) = All (λ y. text_le (key x) (key y) ≡ true) xs × IsSorted xs

  module _ (p : A → Bool) where
    abbrev pub count_of : List A → ℕ
    count_of [] = 0
    count_of (x ∷ xs) = (if p x then 1 else 0) + count_of xs

    count_of-insert_by : (x : A) (xs : List A) → count_of (insert_by x xs) ≡ count_of (x ∷ xs)
    unfolding insert_by
    count_of-insert_by x [] = refl
    count_of-insert_by x (y ∷ ys) = elim (Bool-cases (text_le (key x) (key y))) [
      | inl le ↦ rw le refl
      | inr gt ↦ rw gt (omega (arith, count_of-insert_by x ys))
    ]

    pub count_of-sort_by : (xs : List A) → count_of (sort_by xs) ≡ count_of xs
    unfolding sort_by
    count_of-sort_by [] = refl
    count_of-sort_by (x ∷ xs) =
        omega (arith, count_of-insert_by x (sort_by xs), count_of-sort_by xs)

  length-insert_by : (x : A) (xs : List A) → length (insert_by x xs) ≡ suc (length xs)
  unfolding insert_by
  length-insert_by x [] = refl
  length-insert_by x (y ∷ ys) = elim (Bool-cases (text_le (key x) (key y))) [
    | inl le ↦ rw le refl
    | inr gt ↦ rw gt (omega (arith, length-insert_by x ys))
  ]

  pub length-sort_by : (xs : List A) → length (sort_by xs) ≡ length xs
  unfolding sort_by
  length-sort_by [] = refl
  length-sort_by (x ∷ xs) = omega (arith, length-insert_by x (sort_by xs), length-sort_by xs)

  insert_by-All : (P : A → Type 0) (x : A) (xs : List A) → P x → All P xs → All P (insert_by x xs)
  unfolding insert_by
  insert_by-All P x [] h hs = (h, tt)
  insert_by-All P x (y ∷ ys) h (k, ks) = elim (Bool-cases (text_le (key x) (key y))) [
    | inl le ↦ rw le (h, (k, ks))
    | inr gt ↦ rw gt (k, insert_by-All P x ys h ks)
  ]

  insert_by-IsSorted : (x : A) (xs : List A) → IsSorted xs → IsSorted (insert_by x xs)
  unfolding insert_by
  insert_by-IsSorted x [] h = (tt, tt)
  insert_by-IsSorted x (y ∷ ys) (below, sorted) = elim (Bool-cases (text_le (key x) (key y))) [
    | inl le ↦ rw le (
      (
        le,
        All-map (λ z. text_le (key y) (key z) ≡ true) (λ z. text_le (key x) (key z) ≡ true) ys
            (λ z h. text_le_trans (key x) (key y) (key z) le h) below,
      ),
      (below, sorted),
    )
    | inr gt ↦ rw gt (
      insert_by-All (λ z. text_le (key y) (key z) ≡ true) x ys (text_le_total (key x) (key y) gt)
          below,
      insert_by-IsSorted x ys sorted,
    )
  ]

  pub sort_by-IsSorted : (xs : List A) → IsSorted (sort_by xs)
  unfolding sort_by
  sort_by-IsSorted [] = tt
  sort_by-IsSorted (x ∷ xs) = insert_by-IsSorted x (sort_by xs) (sort_by-IsSorted xs)

  module _ {B : Type 0} (f : A → List B) where
    -- What the entries give, in a row.
    abbrev pub collect : List A → List B
    collect [] = []
    collect (x ∷ xs) = f x ++ collect xs

    pub collect-append : (xs ys : List A) → collect (xs ++ ys) ≡ collect xs ++ collect ys
    collect-append [] ys = refl
    collect-append (x ∷ xs) ys =
        ap (λ l. f x ++ l) (collect-append xs ys)
        ∙ sym (append_assoc (f x) (collect xs) (collect ys))

    -- Entries whose keys are out of order give the same either way round.
    abbrev pub Commutes : Type 0
    Commutes = (x y : A) → text_le (key x) (key y) ≡ false → f y ++ f x ≡ f x ++ f y

    collect-insert_by :
        Commutes → (x : A) (xs : List A) → collect (insert_by x xs) ≡ f x ++ collect xs
    unfolding insert_by
    collect-insert_by swap x [] = refl
    collect-insert_by swap x (y ∷ ys) = elim (Bool-cases (text_le (key x) (key y))) [
      | inl le ↦ rw le refl
      | inr gt ↦ rw gt (
          ap (λ l. f y ++ l) (collect-insert_by swap x ys)
          ∙ sym (append_assoc (f y) (f x) (collect ys))
          ∙ ap (λ l. l ++ collect ys) (swap x y gt)
          ∙ append_assoc (f x) (f y) (collect ys))
    ]

    pub collect-sort_by : Commutes → (xs : List A) → collect (sort_by xs) ≡ collect xs
    unfolding sort_by
    collect-sort_by swap [] = refl
    collect-sort_by swap (x ∷ xs) =
        collect-insert_by swap x (sort_by xs) ∙ ap (λ l. f x ++ l) (collect-sort_by swap xs)
