-- ===== src/Debug/Discover.antt =====
-- `newClient` and `discoverPodURLs` of cmd/nats-debug/main.go. The switch on the kind of the workload is
-- the code of `reloadNatsPods`, word for word, and is taken from Controller/Reload.antt.
pub mod Collected
pub mod Pods
use nats_operator_experiment.Common.{
  ℕ, Str, codes, Bool, ◌||◌, not, Option, none, some, List, [], ◌∷◌, ◌++◌, str_eq, Map, put,
  if◌then◌else◌,
}
use nats_operator_experiment.Common.Int.{ℤ, pos}
use nats_operator_experiment.Common.Decimal.{format_int}
use nats_operator_experiment.Common.Console.{text}
use nats_operator_experiment.Common.Exec.{
  plain, Result, ok, err, panic, Exec, pure, raise, lift, ◌>>=◌, attempt, wrapped,
}
use nats_operator_experiment.Api.Cluster.{NatsCluster, WorkloadReference}
use nats_operator_experiment.Controller.Client.{Client, NamespacedName, Pod}
use nats_operator_experiment.Controller.Reload.{workload_selector}

-- how a client is made: ctrl.GetConfig, the kubeconfig that is read where it fails, and client.New
pub record ClientSource (W : Type 0) : Type 1 where
  pub RestConfig : Type 0
  pub get_config : Exec W RestConfig
  pub load_kubeconfig : Exec W RestConfig
  pub new_for : RestConfig → Exec W (Unit {0})

module _ {W : Type 0} (src : ClientSource W) where
  unfoldable pub config_or_kubeconfig : Result src.RestConfig → Exec W src.RestConfig
  config_or_kubeconfig (ok config) = pure config
  config_or_kubeconfig (err e) = wrapped (codes "unable to get kubeconfig") src.load_kubeconfig
  config_or_kubeconfig panic = lift panic

  unfoldable pub new_client : Exec W (Unit {0})
  new_client = do
    r ← attempt src.get_config
    config ← config_or_kubeconfig r
    wrapped (codes "creating client") (src.new_for config)

abbrev default_port : ℤ
default_port = pos 8222

abbrev pub port_or_default : Option ℤ → ℤ
port_or_default none = default_port
port_or_default (some port) = port

abbrev pub pod_url : ℤ → Pod → Str
pod_url port pod = text (codes "http://" ∷ pod.pod_ip ∷ codes ":" ∷ format_int port ∷ [])

-- a pod that the loop passes over
unfoldable pub is_passed_over : Pod → Bool
is_passed_over pod = not (str_eq pod.phase (codes "Running")) || str_eq pod.pod_ip []

unfoldable pub collect_urls : ℤ → List Pod → Map Str → Map Str
collect_urls port [] urls = urls
collect_urls port (pod ∷ rest) urls =
    collect_urls port rest
      (if is_passed_over pod then urls else put pod.name (pod_url port pod) urls)

module _ (c : Client) where
  -- `if len(urls) == 0`
  unfoldable pub some_urls : WorkloadReference → Str → Map Str → Exec c.World (Map Str)
  some_urls ref namespace [] = raise (
      plain (
        text (
          codes "no running pods found for "
          ∷ ref.kind
          ∷ codes " "
          ∷ namespace
          ∷ codes "/"
          ∷ ref.name
          ∷ [])))
  some_urls ref namespace (u ∷ urls) = pure (u ∷ urls)

  -- for a cluster with a server
  unfoldable pub workload_urls : NatsCluster → Str → WorkloadReference → Exec c.World (Map Str)
  workload_urls cluster namespace ref = do
    label_selector ← workload_selector c ref (record { name = ref.name; namespace = namespace })
    selector ←
        wrapped (codes "parsing label selector")
          (lift (c.label_selector_as_selector label_selector))
    pods ← wrapped (codes "listing pods") (c.list_pods namespace selector)
    some_urls ref namespace (collect_urls (port_or_default cluster.spec.monitoring_port) pods [])

  -- on `Spec.ServerRef`
  unfoldable pub cluster_urls :
      NatsCluster → Str → Str → Option WorkloadReference → Exec c.World (Map Str)
  cluster_urls cluster cluster_name namespace none = raise (
      plain (
        text (
          codes "NatsCluster "
          ∷ namespace
          ∷ codes "/"
          ∷ cluster_name
          ∷ codes " has no serverRef configured"
          ∷ [])))
  cluster_urls cluster cluster_name namespace (some ref) = workload_urls cluster namespace ref

  unfoldable pub discover_pod_urls : Str → Str → Exec c.World (Map Str)
  discover_pod_urls cluster_name namespace = do
    cluster ←
        wrapped (text (codes "getting NatsCluster " ∷ namespace ∷ codes "/" ∷ cluster_name ∷ []))
          (c.get_cluster (record { name = cluster_name; namespace = namespace }))
    cluster_urls cluster cluster_name namespace cluster.spec.server_ref
