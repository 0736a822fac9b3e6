-- ===== src/Lib.antt =====
-- fiaas-deploy-daemon deploys applications to a Kubernetes cluster from their fiaas.yml documents.
--
-- A document of any version is brought to version 3 and read over its defaults into an application's
-- specification (fiaas_deploy_daemon/specs). The deployer takes the specification from a queue,
-- creates the objects of the cluster, and puts a ready check into the scheduler, which asks it until
-- the deployment is ready or late (fiaas_deploy_daemon/deployer). Signals of the lifecycle tell the
-- rest of the program how a deployment stands.
--
-- Base.antt: the shared names. Base/Outcome.antt has Python's exceptions as the error case of Result,
--   Base/Effect.antt computations over a state that may raise, Base/Dict.antt Python's dicts and
--   `merge_dicts` of fiaas_deploy_daemon/tools.py.
-- PairDict.antt: dicts whose keys are pairs of texts. Order.antt: the order of texts and the stable
--   sort by a text.
-- Specs.antt: fiaas_deploy_daemon/specs.
--   Specs/Value.antt: the values of a parsed document. Texts are the only keys; there are no floats
--     and no negative numbers.
--   Specs/Lookup.antt: lookup.py, with `lookup[key]` as get_key, `lookup[index]` as get_index, and
--     iteration as elements and items_lookup.
--   Specs/Models.antt: models.py. Specs/Defaults.antt: the two documents of defaults.
--   Specs/V3Factory.antt: v3/factory.py, one function for each method; the methods are in
--     V3Factory/Simple.antt, V3Factory/Checks.antt and V3Factory/IngressItems.antt.
--   Specs/SpecFactory.antt: factory.py. Transformers and factories are parameters.
--   Specs/V2Transformer.antt: v2/transformer.py. V2Transformer/Drafting.antt has the dict that it builds
--     and `_flatten`, V2Transformer/Strip.antt `_strip_v3_defaults` and `_remove_intersect`.
-- Deployer.antt: fiaas_deploy_daemon/deployer.
--   Deployer/Spec.antt: the specification as the deployers read it.
--   Deployer/Ingress.antt: `IngressDeployer` of kubernetes/ingress.py: issuers in Ingress/Issuers.antt,
--     hosts in Ingress/Hosts.antt, the grouping in Ingress/Group.antt, the loop over the adapter in
--     Ingress/Create.antt; `IngressTLSDeployer` is in Ingress/Tls.antt. Ingress/Adapter.antt has what
--     ingress_networkingv1.py and ingress_v1beta1.py share, Adapter/NetworkingV1.antt and
--     Adapter/V1Beta1.antt their rules.
--   Deployer/Lifecycle.antt and Deployer/Update.antt: lifecycle.py, bookkeeper.py and deploy.py. The
--     effects are a log in the order in which they were tried.
--   Deployer/ReadyCheck.antt: kubernetes/ready_check.py. Deployer/Scheduler.antt: scheduler.py.
--     Deployer/Waiting.antt has the ready checks as tasks of the scheduler.
--   Deployer/Kubernetes.antt: kubernetes/adapter.py, autoscaler.py, pod_disruption_budget.py and
--     service.py. The calls on the cluster are the interface of Kubernetes/Api.antt, over any state.
--     Kubernetes/RoleBinding.antt: role_binding.py and owner_references.py, with a log of the writes, and
--     so Kubernetes/ServiceAccount.antt: service_account.py.
--   Deployer/Kubernetes/Deployment.antt: kubernetes/deployment. Deployment/Types.antt has the objects;
--     deployer.py is in Deployment/Env.antt (variables), Pod.antt (probes, containers, volumes),
--     Assemble.antt and Deploy.antt; datadog.py, prometheus.py and secrets.py are in Datadog.antt,
--     Prometheus.antt and Secrets.antt, and Parts.antt has their changes of a pod in place.
--   Deployer/Shlex.antt and Deployer/Integer.antt: Python's `shlex.split`, `int` and `str`.
-- Crd.antt: fiaas_deploy_daemon/crd.
--   Crd/Watcher.antt: watcher.py; its effects go to the same log as the deployer's.
--   Crd/Status.antt: status.py.
-- Bootstrap.antt: the collected statuses and the wait of fiaas_deploy_daemon/bootstrap/bootstrapper.py.
--   Bootstrap/Run.antt: its `run` and `_deploy`.
-- Config.antt: the checks and the parsers of fiaas_deploy_daemon/config.py.
-- Usage.antt: fiaas_deploy_daemon/usage_reporting/usage_reporter.py and transformer.py.
--
-- The files Laws.antt and those named for what they state hold theorems; the files Tests.antt hold
-- runs at fixed inputs.
--
-- Fuel: the loop of `SpecFactory.transform` runs on fuel, `none` meaning that it ran out, and fuel
-- above the factory's version is enough where each transformer raises the version. Iterating over a
-- lookup has one unit of fuel for each element and one for the end. `str(n)` has one for each unit of
-- n, more than its digits. The wait of the bootstrapper has a unit for each second and one more, and a
-- round takes at least a second. All other recursion is on a list, a text or a value.
--
-- The cluster, the clocks, the files, the handlers of the signals and regular expressions are
-- parameters. Not modelled: logging, the web interface, the wiring of the program, threads and
-- queues as such, and requests to other services, which are I/O; the parser of the arguments, a
-- library's; the schemas of the custom resource definitions, which are constants; and the extension
-- hook.
pub mod Base
pub mod Order
pub mod PairDict
pub mod Specs
pub mod Deployer
pub mod Crd
pub mod Bootstrap
pub mod Config
pub mod Usage
