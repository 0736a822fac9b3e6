-- ===== src/Config.antt =====
-- fiaas_deploy_daemon/config.py: what `Configuration` makes of its arguments and of the environment.
-- The parser of the arguments is a library's. Where a function raises an exception it has no value.
pub mod HostPairs
mod Tests
use fiaas_deploy_daemon.Base.{String, Option, none, some, List, [], ◌∷◌, ◌==◌, eqb, if◌then◌else◌}
use Prim.Native.Char.{code}
use fiaas_deploy_daemon.Base.Dict.{Dict, insert}
use fiaas_deploy_daemon.Deployer.Integer.{int}
use fiaas_deploy_daemon.Deployer.Kubernetes.Deployment.Types.{IntOrText, number, text}

-- `s.split("=", 1)` of a text with that sign, which has the code 61.
unfoldable pub split_once : String → Option (String × String)
split_once String.[] = none
split_once (String.◌∷◌ c s) =
    let rest = split_once s in
    if eqb (code c) 61
    then some ("", s)
    else (elim rest [ none ↦ none | some (a, b) ↦ some (String.◌∷◌ c a, b) ])

-- One round of the loop of `_parse_ingress_host_pairs`.
abbrev pub add_pair : Dict String → String × String → Dict String
add_pair host_pairs (host1, host2) = insert (insert host_pairs host1 host2) host2 host1

abbrev pub parse_pairs : Dict String → List String → Option (Dict String)
parse_pairs host_pairs [] = some host_pairs
parse_pairs host_pairs (host_pair ∷ args) = elim (split_once host_pair) [
  | none ↦ none
  | some pair ↦ parse_pairs (add_pair host_pairs pair) args
]

-- `_parse_ingress_host_pairs`, without a value for InvalidConfigurationException
unfoldable pub parse_ingress_host_pairs : List String → Option (Dict String)
unfolding split_once insert
parse_ingress_host_pairs host_pair_args = parse_pairs [] host_pair_args

-- `KeyValue` and the two parts of a `HostRewriteRule`: exactly one sign, else ValueError
unfoldable pub key_value : String → Option (String × String)
unfolding split_once
key_value arg = elim (split_once arg) [
  | none ↦ none
  | some (key, value) ↦ elim (split_once value) [ none ↦ some (key, value) | some _ ↦ none ]
]

-- `{x.key: x.value for x in xs}` of `_parse_args`
unfoldable pub dict_of_values : List (String × String) → Dict String
unfolding insert
dict_of_values pairs = from [] pairs
  where
    from : Dict String → List (String × String) → Dict String
    from d [] = d
    from d ((k, v) ∷ pairs) = from (insert d k v) pairs

-- `_int_or_unicode`
unfoldable pub int_or_unicode : String → IntOrText
unfolding int
int_or_unicode arg = elim (int arg) [ some i ↦ number i | none ↦ text arg ]

-- A variable of the environment that is not empty.
abbrev set_in : (String → Option String) → String → Option String
set_in getenv name = elim (getenv name) [
  | none ↦ none
  | some value ↦ if value == "" then none else some value
]

abbrev first_set : Option String → Option String → Option String
first_set (some value) other = some value
first_set none other = other

-- `_resolve_env`: the image and the version that it sets.
unfoldable pub resolve_env : (String → Option String) → Option String × Option String
resolve_env getenv = (
  first_set (set_in getenv "IMAGE") (set_in getenv "FIAAS_IMAGE"),
  first_set (set_in getenv "VERSION") (set_in getenv "FIAAS_VERSION"),
)

-- `_resolve_namespace`, from the stripped text of the file, if it can be read; without a value for
-- InvalidConfigurationException. The environment is asked only if the file cannot be read.
unfoldable pub resolve_namespace : (String → Option String) → Option String → Option String
resolve_namespace getenv (some namespace) = if namespace == "" then none else some namespace
resolve_namespace getenv none = set_in getenv "NAMESPACE"
