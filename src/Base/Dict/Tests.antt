-- ===== src/Base/Dict/Tests.antt =====
-- Dicts merged at fixed entries.
use fiaas_deploy_daemon.Base.{ℕ, none, some, [], ◌∷◌, ◌≡◌, refl}
use fiaas_deploy_daemon.Base.Dict.{Dict, get, merge_dicts, NodupKeys, get-merge_two}

abbrev old : Dict ℕ
old = ("a", 1) ∷ ("b", 2) ∷ []

abbrev new : Dict ℕ
new = ("b", 3) ∷ []

old-NodupKeys : NodupKeys old
unfolding get
old-NodupKeys = (refl, (refl, tt))

new-NodupKeys : NodupKeys new
unfolding get
new-NodupKeys = (refl, tt)

second_dict :
    get (merge_dicts (old ∷ new ∷ [])) "b"
    ≡ elim (get new "b") [ none ↦ get old "b" | some v ↦ some v ]
second_dict = get-merge_two old new "b" old-NodupKeys new-NodupKeys
