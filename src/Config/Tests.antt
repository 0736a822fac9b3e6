-- ===== src/Config/Tests.antt =====
-- The settings of a small configuration.
use fiaas_deploy_daemon.Base.{
  String, ◌≡◌, refl, Option, none, some, List, [], ◌∷◌, map, ◌==◌, if◌then◌else◌, All,
}
use fiaas_deploy_daemon.Base.Dict.{Dict}
use fiaas_deploy_daemon.Deployer.Integer.{negsuc}
use fiaas_deploy_daemon.Deployer.Kubernetes.Deployment.Types.{number, text}
use fiaas_deploy_daemon.Config.{
  parse_ingress_host_pairs, key_value, dict_of_values, int_or_unicode, resolve_env,
  resolve_namespace,
}
use fiaas_deploy_daemon.Config.HostPairs.{
  Pair, pair_text, LeadsBothWays, parse_ingress_host_pairs-LeadsBothWays,
}

abbrev two_pairs : List Pair
two_pairs = ("a.com", "a.org") ∷ ("b.com", "b=.org") ∷ []

parse_ingress_host_pairs-LeadsBothWays_example :
    (host_pairs : Dict String) × (parse_ingress_host_pairs (map pair_text two_pairs)
      ≡ some host_pairs)
    × All (LeadsBothWays host_pairs) two_pairs
parse_ingress_host_pairs-LeadsBothWays_example =
    parse_ingress_host_pairs-LeadsBothWays two_pairs (refl, refl, refl, (refl, refl, refl, tt))

abbrev environment : String → Option String
environment name =
    if name == "IMAGE" then some "" else (if name == "FIAAS_IMAGE" then some "fdd:1" else none)

-- A file without text hides the variable of the environment.
settings_runs :
    (parse_ingress_host_pairs ("a.com" ∷ []) ≡ none)
    × (key_value "A=b" ≡ some ("A", "b"))
    × (key_value "A=b=c" ≡ none)
    × (int_or_unicode "-2" ≡ number (negsuc 1))
    × (int_or_unicode "25%" ≡ text "25%")
    × (dict_of_values (("a", "1") ∷ ("a", "2") ∷ []) ≡ ("a", "2") ∷ [])
    × (resolve_env environment ≡ (some "fdd:1", none))
    × (resolve_namespace (λ name. some "other") (some "") ≡ none)
    × (resolve_namespace (λ name. some "other") none ≡ some "other")
unfolding parse_ingress_host_pairs key_value int_or_unicode dict_of_values resolve_env
    resolve_namespace
settings_runs = (refl, refl, refl, refl, refl, refl, refl, refl, refl)
