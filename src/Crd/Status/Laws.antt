-- ===== src/Crd/Status/Laws.antt =====
-- Theorems about the clean-up of fiaas_deploy_daemon/crd/status.py.
use fiaas_deploy_daemon.Base.{
  ℕ, suc, zero, ◌+◌, ◌-◌, ◌≤◌, ◌<◌, ◌≡◌, sym, ◌∙◌, ◌⊎◌, inl, inr, Bool, true, List, [], ◌∷◌, arith,
  leb, Bool-cases, leb→le, leb-false→lt, length, All,
}
use fiaas_deploy_daemon.Crd.Status.{ApplicationStatus, last_updated, take, old_statuses}
use fiaas_deploy_daemon.Order.{
  text_le, sort_by, IsSorted, count_of, count_of-sort_by, length-sort_by, sort_by-IsSorted,
}

-- A list in two parts, of which the second is what `take` leaves.
abbrev rest : List ApplicationStatus → ℕ → List ApplicationStatus
rest [] n = []
rest (s ∷ ss) zero = s ∷ ss
rest (s ∷ ss) (suc n) = rest ss n

count_of-take :
    (p : ApplicationStatus → Bool) (ss : List ApplicationStatus) (n : ℕ)
    → count_of last_updated p ss
      ≡ count_of last_updated p (take ss n) + count_of last_updated p (rest ss n)
count_of-take p [] n = omega arith
count_of-take p (s ∷ ss) zero = omega arith
count_of-take p (s ∷ ss) (suc n) = omega (arith, count_of-take p ss n)

length-rest : (ss : List ApplicationStatus) (n : ℕ) → length (rest ss n) ≡ length ss - n
length-rest [] n = omega arith
length-rest (s ∷ ss) zero = omega arith
length-rest (s ∷ ss) (suc n) = omega (arith, length-rest ss n)

rest-All :
    (P : ApplicationStatus → Type 0) (ss : List ApplicationStatus) (n : ℕ)
    → All P ss
    → All P (rest ss n)
rest-All P [] n h = tt
rest-All P (s ∷ ss) zero h = h
rest-All P (s ∷ ss) (suc n) (h, hs) = rest-All P ss n hs

-- The first was updated no later than the second.
abbrev pub IsNoLater : ApplicationStatus → ApplicationStatus → Type 0
IsNoLater s t = text_le (last_updated s) (last_updated t) ≡ true

take-IsNoLater :
    (ss : List ApplicationStatus) (n : ℕ)
    → IsSorted last_updated ss
    → All (λ s. All (IsNoLater s) (rest ss n)) (take ss n)
take-IsNoLater [] n h = tt
take-IsNoLater (s ∷ ss) zero h = tt
take-IsNoLater (s ∷ ss) (suc n) (h, hs) = (rest-All (IsNoLater s) ss n h, take-IsNoLater ss n hs)

-- The statuses of which a clean-up deletes those of a list and keeps the others.
abbrev pub Splits :
    List ApplicationStatus → List ApplicationStatus → List ApplicationStatus → Type 0
Splits statuses deleted kept =
    ((p : ApplicationStatus → Bool)
      → count_of last_updated p statuses
        ≡ count_of last_updated p deleted + count_of last_updated p kept)
    × All (λ s. All (IsNoLater s) kept) deleted

-- The statuses that `_cleanup` deletes are the oldest: the statuses are these and some others, each as
-- often as it was found; none that is deleted was updated later than one that is kept; and as many
-- are kept as were found, but at most ten.
pub old_statuses-Splits :
    (statuses : List ApplicationStatus)
    → (kept : List ApplicationStatus) × Splits statuses (old_statuses statuses) kept
      × (((length statuses ≤ 10) × (length kept ≡ length statuses))
          ⊎ ((10 < length statuses) × (length kept ≡ 10)))
unfolding old_statuses
old_statuses-Splits statuses =
    let sorted = sort_by last_updated statuses in
    let n = length statuses - 10 in
    let size = length-rest sorted n in
    (
      rest sorted n,
      (
        (λ p. sym (count_of-sort_by last_updated p statuses) ∙ count_of-take p sorted n),
        take-IsNoLater sorted n (sort_by-IsSorted last_updated statuses),
      ),
      elim (Bool-cases (leb (length statuses) 10)) [
        | inl few ↦
            let le = leb→le (length statuses) 10 few in
            inl (le, omega (arith, size, le, length-sort_by last_updated statuses))
        | inr many ↦
            let lt = leb-false→lt (length statuses) 10 many in
            inr (lt, omega (arith, size, lt, length-sort_by last_updated statuses))
      ],
    )
