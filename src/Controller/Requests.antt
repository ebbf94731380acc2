-- ===== src/Controller/Requests.antt =====
-- `mapAccountToCluster`, `mapUserToCluster` and `allClustersInNamespace` of
-- internal/controller/natscluster_controller.go: which clusters a changed account or user enqueues.
pub mod Affected
use nats_operator_experiment.Common.{Str, List, [], ◌∷◌, map, if◌then◌else◌}
use nats_operator_experiment.Common.Exec.{
  is_not_found, Result, ok, err, panic, Exec, pure, lift, ◌>>=◌, attempt,
}
use nats_operator_experiment.Api.User.{NatsUser}
use nats_operator_experiment.Api.Account.{NatsAccount}
use nats_operator_experiment.Api.Cluster.{NatsCluster}
use nats_operator_experiment.Controller.Client.{Client, NamespacedName}
use nats_operator_experiment.Controller.Users.{account_namespace_of}

-- for an object that is an account
unfoldable pub map_account_to_cluster : NatsAccount → List NamespacedName
map_account_to_cluster account =
    record { name = account.spec.cluster_ref.name; namespace = account.namespace } ∷ []

abbrev pub cluster_key : NatsCluster → NamespacedName
cluster_key x = record { name = x.name; namespace = x.namespace }

module _ (c : Client) where
  abbrev cluster_requests : Result (List NatsCluster) → Exec c.World (List NamespacedName)
  cluster_requests (ok items) = pure (map cluster_key items)
  cluster_requests (err e) = pure []
  cluster_requests panic = lift panic

  unfoldable pub all_clusters_in_namespace : Str → Exec c.World (List NamespacedName)
  all_clusters_in_namespace namespace = do
    r ← attempt (c.list_clusters namespace)
    cluster_requests r

  unfoldable pub account_requests : Str → Result NatsAccount → Exec c.World (List NamespacedName)
  account_requests account_ns (ok account) =
      pure (record { name = account.spec.cluster_ref.name; namespace = account.namespace } ∷ [])
  account_requests account_ns (err e) =
      if is_not_found e then pure [] else all_clusters_in_namespace account_ns
  account_requests account_ns panic = lift panic

  -- for an object that is a user
  unfoldable pub map_user_to_cluster : NatsUser → Exec c.World (List NamespacedName)
  map_user_to_cluster user = do
    let account_ns = account_namespace_of user
    r ←
        attempt
          (c.get_account (record { name = user.spec.account_ref.name; namespace = account_ns }))
    account_requests account_ns r
