-- ===== src/Controller/Requests/Affected.antt =====
-- Which cluster a change enqueues, and which accounts a cluster reads.
use nats_operator_experiment.Common.{true, [], ◌∷◌, str_eq_iff, ◌≡◌, ◌↔◌, ap}
use nats_operator_experiment.Api.Account.{NatsAccount}
use nats_operator_experiment.Api.Cluster.{NatsCluster}
use nats_operator_experiment.Controller.Client.{NamespacedName}
use nats_operator_experiment.Controller.Accounts.{belongs_to}
use nats_operator_experiment.Controller.Requests.{map_account_to_cluster, cluster_key}

cons_head : {a b : NamespacedName} → a ∷ [] ≡ b ∷ [] → a ≡ b
cons_head h = cc h

-- A change of an account enqueues a cluster exactly if the cluster counts the account among its own
-- and is in the same namespace, which is where the cluster lists its accounts.
pub map_account_to_cluster_iff :
    (acct : NatsAccount) (cluster : NatsCluster)
    → (map_account_to_cluster acct ≡ cluster_key cluster ∷ [])
      ↔ ((belongs_to cluster acct ≡ true) × (acct.namespace ≡ cluster.namespace))
unfolding map_account_to_cluster
map_account_to_cluster_iff acct cluster = (
  λ h. (
    (str_eq_iff acct.spec.cluster_ref.name cluster.name).1
        (ap (λ (k : NamespacedName). k.name) (cons_head h)),
    ap (λ (k : NamespacedName). k.namespace) (cons_head h),
  ),
  λ h.
      let same = (str_eq_iff acct.spec.cluster_ref.name cluster.name).0 h.0 in
      λ i. record { name = same i; namespace = h.1 i } ∷ [],
)
