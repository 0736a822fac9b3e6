-- ===== src/Crd/Status/Tests.antt =====
-- Runs of the clean-up.
use fiaas_deploy_daemon.Base.{◌≤◌, ◌<◌, String, ◌≡◌, refl, ◌⊎◌, none, List, [], ◌∷◌, map, length}
use fiaas_deploy_daemon.Crd.Status.{ApplicationStatus, old_statuses}
use fiaas_deploy_daemon.Crd.Status.Laws.{Splits, old_statuses-Splits}

abbrev status_at : String → ApplicationStatus
status_at time = record {
  name = time;
  namespace = "default";
  labels = [];
  annotations = ("fiaas/last_updated", time) ∷ [];
  result = "SUCCESS";
  logs = [];
  owner = none;
}

abbrev found : List ApplicationStatus
found =
    map status_at
      ("11" ∷ "10" ∷ "02" ∷ "03" ∷ "04" ∷ "05" ∷ "06" ∷ "07" ∷ "08" ∷ "09" ∷ "01" ∷ "12" ∷ [])

two_oldest : old_statuses found ≡ status_at "01" ∷ status_at "02" ∷ []
unfolding old_statuses
two_oldest = refl

old_statuses-Splits_example :
    (kept : List ApplicationStatus) × Splits found (old_statuses found) kept
    × (((length found ≤ 10) × (length kept ≡ length found))
        ⊎ ((10 < length found) × (length kept ≡ 10)))
old_statuses-Splits_example = old_statuses-Splits found
