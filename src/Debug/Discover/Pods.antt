-- ===== src/Debug/Discover/Pods.antt =====
-- The servers that `discoverPodURLs` finds.
use nats_operator_experiment.Common.{
  Str, ap, Option, none, some, List, [], ◌∷◌, ◌≡◌, ◌≢◌, refl, ◌∙◌, subst, Map, UniqueKeys, All,
}
use nats_operator_experiment.Common.Int.{ℤ}
use nats_operator_experiment.Common.Exec.{
  Result, ok, lift, wrapped, wrapped-ok, bind-ok, ok-injective, err-ne-ok, Gave,
}
use nats_operator_experiment.Api.Cluster.{NatsCluster, WorkloadReference}
use nats_operator_experiment.Controller.Client.{Client, Pod}
use nats_operator_experiment.Controller.Reload.{workload_selector}
use nats_operator_experiment.Debug.Discover.{
  port_or_default, collect_urls, some_urls, workload_urls, cluster_urls, discover_pod_urls,
}
use nats_operator_experiment.Debug.Discover.Collected.{
  IsServer, IsPort, port_or_default-IsPort, AllServers, collect_urls-AllServers,
  collect_urls-IsServer, collect_urls-UniqueKeys,
}

module _ (c : Client) where
  -- What was read of the cluster, and the servers that were made of it.
  pub record IsDiscovered (cluster_name namespace : Str) (urls : Map Str) : Type 0 where
    pub cluster : NatsCluster
    pub got_cluster :
        Gave (c.get_cluster (record { name = cluster_name; namespace = namespace })) cluster
    pub ref : WorkloadReference
    pub has_ref : cluster.spec.server_ref ≡ some ref
    pub labels : c.LabelSelector
    pub got_labels :
        Gave (workload_selector c ref (record { name = ref.name; namespace = namespace })) labels
    pub selector : c.Selector
    pub parsed : c.label_selector_as_selector labels ≡ ok selector
    pub pods : List Pod
    pub got_pods : Gave (c.list_pods namespace selector) pods
    pub is_found : urls ≢ []
    pub port : ℤ
    pub is_port : IsPort cluster.spec.monitoring_port port
    pub all_IsServer : All (IsServer port pods) urls
    pub all_listed : AllServers pods urls
    pub unique : UniqueKeys urls

  some_urls-ok :
      (ref : WorkloadReference) (namespace : Str) (found : Map Str) (w : c.World) {urls : Map Str}
      {w' : c.World}
      → some_urls c ref namespace found w ≡ (ok urls, w')
      → (urls ≢ []) × (found ≡ urls)
  unfolding some_urls
  some_urls-ok ref namespace [] w h = absurd (err-ne-ok h)
  some_urls-ok ref namespace (u ∷ found) w {urls} h =
      let e : u ∷ found ≡ urls = ok-injective h in ((λ n. cons-ne-nil (e ∙ n)), e)
    where
      cons-ne-nil : {x : Str × Str} {xs : Map Str} → ◌≡◌ {A = Map Str} (x ∷ xs) [] → ⊥
      cons-ne-nil k = cc

  workload_urls-IsDiscovered :
      (cluster : NatsCluster) (cluster_name namespace : Str) (ref : WorkloadReference) (w : c.World)
      {urls : Map Str} {w' : c.World}
      → Gave (c.get_cluster (record { name = cluster_name; namespace = namespace })) cluster
      → cluster.spec.server_ref ≡ some ref
      → workload_urls c cluster namespace ref w ≡ (ok urls, w')
      → IsDiscovered cluster_name namespace urls
  unfolding workload_urls
  workload_urls-IsDiscovered cluster cluster_name namespace ref w {urls} got has h =
      let (label_selector, v, h1, h2) = bind-ok (workload_selector c ref _) _ w h in
      let (selector, v', h3, h4) =
        bind-ok (wrapped _ (lift (c.label_selector_as_selector label_selector))) _ v h2 in
      let (pods, v'', h5, h6) = bind-ok (wrapped _ (c.list_pods namespace selector)) _ v' h4 in
      let port = port_or_default cluster.spec.monitoring_port in
      let (found, same) = some_urls-ok ref namespace (collect_urls port pods []) v'' h6 in
      record {
        cluster = cluster;
        got_cluster = got;
        ref = ref;
        has_ref = has;
        labels = label_selector;
        got_labels = (w, v, h1);
        selector = selector;
        parsed =
            ap (λ (x : Result c.Selector × c.World). x.0)
              (wrapped-ok _ (lift (c.label_selector_as_selector label_selector)) h3);
        pods = pods;
        got_pods = (v', v'', wrapped-ok _ (c.list_pods namespace selector) h5);
        is_found = found;
        port = port;
        is_port = port_or_default-IsPort cluster.spec.monitoring_port;
        all_IsServer =
            subst (All (IsServer port pods)) same
              (collect_urls-IsServer port pods pods [] (λ q m. m) tt);
        all_listed = subst (AllServers pods) same (collect_urls-AllServers port pods []);
        unique = subst UniqueKeys same (collect_urls-UniqueKeys port pods [] tt);
      }

  cluster_urls-IsDiscovered :
      (cluster : NatsCluster) (cluster_name namespace : Str) (ref : Option WorkloadReference)
      (w : c.World) {urls : Map Str} {w' : c.World}
      → Gave (c.get_cluster (record { name = cluster_name; namespace = namespace })) cluster
      → cluster.spec.server_ref ≡ ref
      → cluster_urls c cluster cluster_name namespace ref w ≡ (ok urls, w')
      → IsDiscovered cluster_name namespace urls
  unfolding cluster_urls
  cluster_urls-IsDiscovered cluster cluster_name namespace none w got has h = absurd (err-ne-ok h)
  cluster_urls-IsDiscovered cluster cluster_name namespace (some ref) w got has h =
      workload_urls-IsDiscovered cluster cluster_name namespace ref w got has h

  -- Whenever the discovery succeeds, it has read the cluster, which names a workload, read the labels
  -- of that workload, and listed the pods of the namespace that these select; the servers, at least one,
  -- are those of the listed pods whose phase is Running and whose address is not empty, every one of
  -- these under its name, no name twice, each at `http://<address>:<port>` with the monitoring port of
  -- the cluster, or 8222 where the cluster gives none.
  pub discover_pod_urls-IsDiscovered :
      (cluster_name namespace : Str) (w w' : c.World) (urls : Map Str)
      → discover_pod_urls c cluster_name namespace w ≡ (ok urls, w')
      → IsDiscovered cluster_name namespace urls
  unfolding discover_pod_urls
  discover_pod_urls-IsDiscovered cluster_name namespace w w' urls h =
      let (cluster, v, h1, h2) = bind-ok (wrapped _ (c.get_cluster _)) _ w h in
      cluster_urls-IsDiscovered cluster cluster_name namespace cluster.spec.server_ref v
        (w, v, wrapped-ok _ (c.get_cluster _) h1) refl h2
