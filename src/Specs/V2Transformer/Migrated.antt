-- ===== src/Specs/V2Transformer/Migrated.antt =====
-- How a document ends in fiaas_deploy_daemon/specs/factory.py, with the transformer of
-- fiaas_deploy_daemon/specs/v2/transformer.py.
use fiaas_deploy_daemon.Base.{raise}
use fiaas_deploy_daemon.Specs.SpecFactory.{version_of}
use mathlib.Core.Path.{subst}
use fiaas_deploy_daemon.Specs.SpecFactory.Chain.{transform-Finished}
use fiaas_deploy_daemon.Specs.SpecFactory.{Transformers, transform}
use fiaas_deploy_daemon.Base.{
  arith, some, Bool, true, ◌≡◌, sym, ap, ◌∙◌, false, [], ◌∷◌, Result, ok, >>=-eq-ok, ok-injective,
}
use fiaas_deploy_daemon.Specs.V2Transformer.Version.{new_config-IsVersion3, Unversioned, IsVersion3}
use fiaas_deploy_daemon.Specs.V2Transformer.{new_config, v2_transformer}
use fiaas_deploy_daemon.Specs.SpecFactory.Exact.{transform-Reaches}
use fiaas_deploy_daemon.Specs.Value.{number?, num, Fields}
use fiaas_deploy_daemon.Specs.V2Transformer.Drafting.{
  Drafts, draft, no_drafts, flatten_drafts, flatten,
}
use fiaas_deploy_daemon.Specs.V2Transformer.Stripped.{
  NoVersion, IsCurrent, IsCurrent-version, strip_v3_defaults-IsCurrent,
}

flatten_drafts-NoVersion :
    (ds : Drafts) (fs : Fields) → Unversioned ds → flatten_drafts ds ≡ ok fs → NoVersion fs
unfolding flatten_drafts
flatten_drafts-NoVersion no_drafts fs u e = subst NoVersion (ok-injective e) tt
flatten_drafts-NoVersion (draft k d ds) fs (h, u) e =
    let (v, hv, e1) = >>=-eq-ok (flatten d) _ e in
    let (rest, hr, e2) = >>=-eq-ok (flatten_drafts ds) _ e1 in
    subst NoVersion (ok-injective e2) (h, flatten_drafts-NoVersion ds rest u hr)

flatten_drafts-IsCurrent :
    (ds : Drafts) (fs : Fields) → IsVersion3 ds → flatten_drafts ds ≡ ok fs → IsCurrent fs
unfolding flatten_drafts
flatten_drafts-IsCurrent no_drafts fs u e = absurd u
flatten_drafts-IsCurrent (draft k d ds) fs (hk, hd, u) e =
    let (v, hv, e1) = >>=-eq-ok (flatten d) _ e in
    let (rest, hr, e2) = >>=-eq-ok (flatten_drafts ds) _ e1 in
    subst IsCurrent (ok-injective e2)
      (hk, ok-injective (sym hv ∙ ap flatten hd), flatten_drafts-NoVersion ds rest u hr)

v2_transformer-IsCurrent : (c d : Fields) (s : Bool) → v2_transformer c s ≡ ok d → IsCurrent d
unfolding v2_transformer
v2_transformer-IsCurrent c d true e =
    let (drafts, hd, e1) = >>=-eq-ok (new_config c) _ e in
    let (flat, hf, e2) = >>=-eq-ok (flatten_drafts drafts) _ e1 in
    strip_v3_defaults-IsCurrent flat d
      (flatten_drafts-IsCurrent drafts flat (new_config-IsVersion3 c drafts hd) hf) e2
v2_transformer-IsCurrent c d false e =
    let (drafts, hd, e1) = >>=-eq-ok (new_config c) _ e in
    let (flat, hf, e2) = >>=-eq-ok (flatten_drafts drafts) _ e1 in
    subst IsCurrent (ok-injective e2)
      (flatten_drafts-IsCurrent drafts flat (new_config-IsVersion3 c drafts hd) hf)

-- The transformers of `SpecFactory` where the factory is that of version 3.
abbrev pub transformers : Transformers
transformers = (2, v2_transformer) ∷ []

-- An exception, or a document whose version is the number 3.
abbrev pub IsMigrated : Result Fields → Type 0
IsMigrated (ok d) = number? (version_of d) ≡ some 3
IsMigrated (raise e) = Unit

v2_transformer-version :
    (c d : Fields) (s : Bool) → v2_transformer c s ≡ ok d → version_of d ≡ num 3
v2_transformer-version c d s e = IsCurrent-version d (v2_transformer-IsCurrent c d s e)

-- `SpecFactory.transform`, with the transformer of version 2 and a factory of version 3, ends on every
-- document within four rounds, whether defaults are stripped or not: by an exception, or with a
-- document whose version is the number 3.
pub transform-IsMigrated :
    (c : Fields) (s : Bool)
    → (r : Result Fields) × (transform 3 transformers 4 c s ≡ some r) × IsMigrated r
transform-IsMigrated c s =
    let (r, e, _) =
      transform-Finished 3 transformers
        ((λ c d s e. (3, v2_transformer-version c d s e, omega arith)), tt) 4 (omega arith) c s in
    (r, e, migrated r e)
  where
    migrated : (r : Result Fields) → transform 3 transformers 4 c s ≡ some r → IsMigrated r
    migrated (raise e) h = tt
    migrated (ok d) h =
        transform-Reaches 3 transformers ((omega arith, v2_transformer-version), tt) s 4 c d h
