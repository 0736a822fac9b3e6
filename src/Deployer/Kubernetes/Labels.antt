-- ===== src/Deployer/Kubernetes/Labels.antt =====
-- The labels of fiaas_deploy_daemon/deployer/kubernetes/adapter.py.
use text.Mathlib.TextLemmas.{cons-append}
use mathlib.Core.Path.{subst}
use fiaas_deploy_daemon.Base.{
  sym, false, String, ◌<>◌, ◌≡◌, refl, ap, ◌∙◌, inl, inr, some, List, [], ◌∷◌, arith, eq_iff,
  eq_refl, ◌==◌, if◌then◌else◌, Bool-cases, All, All-map, ok, ok-injective, raise-ne-ok,
  Result-cases,
}
use fiaas_deploy_daemon.Base.Dict.{Dict, get, insert, get-insert}
use fiaas_deploy_daemon.Deployer.Spec.{AppSpec, version}
use fiaas_deploy_daemon.Deployer.Kubernetes.Adapter.{
  make_selector, to_valid_label_value, label_for, add_labels, labels_of, make_labels, fixed_labels,
}

-- Every entry of the selector is among the labels.
abbrev pub IsSelectedBy : Dict String → Dict String → Type 0
IsSelectedBy labels = All (λ kv. get labels kv.0 ≡ some kv.1)

-- The first character of a text, as a text.
abbrev head : String → String
head String.[] = String.[]
head (String.◌∷◌ c s) = String.◌∷◌ c String.[]

module _ (lower : String → String) where
  -- Each value has a label with the prefix.
  abbrev pub HasLabels : Dict String → String → List String → Type 0
  HasLabels labels prefix = All (λ v. get labels (label_for lower prefix v) ≡ some "true")

  add_labels-keeps_true :
      (prefix : String) (d : Dict String) (vs : List String) (k : String)
      → get d k ≡ some "true"
      → get (add_labels lower prefix d vs) k ≡ some "true"
  unfolding add_labels
  add_labels-keeps_true prefix d [] k h = h
  add_labels-keeps_true prefix d (v ∷ vs) k h =
      add_labels-keeps_true prefix (insert d (label_for lower prefix v) "true") vs k
        (get-insert d (label_for lower prefix v) k "true" ∙ either)
    where
      either : (if label_for lower prefix v == k then some "true" else get d k) ≡ some "true"
      either = elim (Bool-cases (label_for lower prefix v == k)) [
        | inl same ↦ rw same refl
        | inr differs ↦ rw differs h
      ]

  add_labels-HasLabels :
      (prefix : String) (d : Dict String) (vs : List String)
      → HasLabels (add_labels lower prefix d vs) prefix vs
  unfolding add_labels
  add_labels-HasLabels prefix d [] = tt
  add_labels-HasLabels prefix d (v ∷ vs) = (
    add_labels-keeps_true prefix (insert d (label_for lower prefix v) "true") vs
        (label_for lower prefix v)
        (get-insert d (label_for lower prefix v) (label_for lower prefix v) "true"
          ∙ rw eq_refl refl),
    add_labels-HasLabels prefix (insert d (label_for lower prefix v) "true") vs,
  )

  -- A key of another first character is none of the labels' keys.
  add_labels-other :
      (prefix : String) (d : Dict String) (vs : List String) (k : String)
      → ((v : String) → head (label_for lower prefix v) ≡ "t")
      → (head k == "t") ≡ false
      → get (add_labels lower prefix d vs) k ≡ get d k
  unfolding add_labels
  add_labels-other prefix d [] k starts other = refl
  add_labels-other prefix d (v ∷ vs) k starts other =
      add_labels-other prefix (insert d (label_for lower prefix v) "true") vs k starts other
      ∙ get-insert d (label_for lower prefix v) k "true"
      ∙ elim (Bool-cases (label_for lower prefix v == k)) [
        | inl same ↦ absurd (
            differ (head k) other
              (sym (ap head ((eq_iff (label_for lower prefix v) k).0 same)) ∙ starts v))
        | inr differs ↦ rw differs refl
      ]
    where
      differ : (a : String) → (a == "t") ≡ false → a ≡ "t" → ⊥
      differ a h e = ground (arith, eq_iff a "t")

  add_labels-keeps :
      (prefix : String) (d : Dict String) (ws vs : List String) (other : String)
      → HasLabels d other ws
      → HasLabels (add_labels lower prefix d vs) other ws
  add_labels-keeps prefix d ws vs other h =
      All-map (λ w. get d (label_for lower other w) ≡ some "true")
        (λ w. get (add_labels lower prefix d vs) (label_for lower other w) ≡ some "true") ws
        (λ w e. add_labels-keeps_true prefix d vs (label_for lower other w) e) h

  -- What is under a key of another first character than the labels for teams and tags have.
  labels_of-fixed :
      (fiaas_version : String) (app_spec : AppSpec) (v k : String)
      → (head k == "t") ≡ false
      → get (labels_of lower fiaas_version app_spec v) k
        ≡ get (fixed_labels lower fiaas_version app_spec v) k
  labels_of-fixed fiaas_version app_spec v k other =
      let first = fixed_labels lower fiaas_version app_spec v in
      add_labels-other "tags.fiaas" (add_labels lower "teams.fiaas" first app_spec.teams)
        app_spec.tags k
        (λ w. ap head (cons-append "t" "ags.fiaas" ("/" <> to_valid_label_value lower w))) other
      ∙ add_labels-other "teams.fiaas" first app_spec.teams k
          (λ w. ap head (cons-append "t" "eams.fiaas" ("/" <> to_valid_label_value lower w))) other

  -- The four labels of every application, with its version.
  abbrev pub IsDescribed : String → AppSpec → Dict String → Type 0
  IsDescribed fiaas_version app_spec labels =
      (app_version : String) × (version app_spec ≡ ok app_version)
      × (get labels "app" ≡ some app_spec.name)
      × (get labels "fiaas/version" ≡ some app_version)
      × (get labels "fiaas/deployment_id" ≡ some app_spec.deployment_id)
      × (get labels "fiaas/deployed_by" ≡ some fiaas_version)

  abbrev pub IsLabelled : String → AppSpec → Dict String → Type 0
  IsLabelled fiaas_version app_spec labels =
      HasLabels labels "teams.fiaas" app_spec.teams
      × HasLabels labels "tags.fiaas" app_spec.tags
      × IsSelectedBy labels (make_selector app_spec)
      × IsDescribed fiaas_version app_spec labels

  labels_of-IsLabelled :
      (fiaas_version : String) (app_spec : AppSpec) (v : String)
      → version app_spec ≡ ok v
      → IsLabelled fiaas_version app_spec (labels_of lower fiaas_version app_spec v)
  unfolding make_selector get
  labels_of-IsLabelled fiaas_version app_spec v found =
      let first = fixed_labels lower fiaas_version app_spec v in
      let with_teams = add_labels lower "teams.fiaas" first app_spec.teams in
      let named = labels_of-fixed fiaas_version app_spec v "app" refl in
      (
        add_labels-keeps "tags.fiaas" with_teams app_spec.teams app_spec.tags "teams.fiaas"
            (add_labels-HasLabels "teams.fiaas" first app_spec.teams),
        add_labels-HasLabels "tags.fiaas" with_teams app_spec.tags,
        (named, tt),
        (
          v,
          found,
          named,
          labels_of-fixed fiaas_version app_spec v "fiaas/version" refl,
          labels_of-fixed fiaas_version app_spec v "fiaas/deployment_id" refl,
          labels_of-fixed fiaas_version app_spec v "fiaas/deployed_by" refl,
        ),
      )

  -- The labels of `_make_labels` contain, for each team and for each tag, the label that its text is
  -- made to, with the value "true"; texts that are made to the same label share it. They match the
  -- selector of `_make_selector`, and whatever the teams and tags are, the name, the version, the
  -- deployment id and the version of fiaas-deploy-daemon stand under their keys.
  pub make_labels-HasLabels :
      (fiaas_version : String) (app_spec : AppSpec) (labels : Dict String)
      → make_labels lower fiaas_version app_spec ≡ ok labels
      → HasLabels labels "teams.fiaas" app_spec.teams
        × HasLabels labels "tags.fiaas" app_spec.tags
        × IsSelectedBy labels (make_selector app_spec)
        × IsDescribed fiaas_version app_spec labels
  unfolding make_labels
  make_labels-HasLabels fiaas_version app_spec labels h = elim (Result-cases (version app_spec)) [
    | inr (e, failed) ↦ absurd (raise-ne-ok e labels (rw failed at h))
    | inl (v, found) ↦
        subst (IsLabelled fiaas_version app_spec) (ok-injective (rw found at h))
          (labels_of-IsLabelled fiaas_version app_spec v found)
  ]
