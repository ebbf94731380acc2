-- ===== src/Controller/Reconcile/Settled.antt =====
-- When `Reconcile` is content: a run that asks for no further run.
use nats_operator_experiment.Common.{ℕ, Str, codes, [], ◌∷◌, Bool, false, List, ◌++◌, length, ◌≡◌}
use nats_operator_experiment.Common.Exec.{message, Gave}
use nats_operator_experiment.Nkeys.{KeySource}
use nats_operator_experiment.Api.User.{NatsUser}
use nats_operator_experiment.Api.Account.{NatsAccount}
use nats_operator_experiment.Api.Cluster.{NatsCluster}
use nats_operator_experiment.Config.Convert.{convert_to_nats_config}
use nats_operator_experiment.Config.Generate.{generate}
use nats_operator_experiment.Controller.Client.{Client, NamespacedName}
use nats_operator_experiment.Controller.Rules.{Regexp}
use nats_operator_experiment.Controller.HashHeader.{format_hash_header}
use nats_operator_experiment.Controller.Reload.{PodRuntime}
use nats_operator_experiment.Controller.Conditions.{Operator}
use nats_operator_experiment.Controller.Accounts.{
  AccountsPass, list_matching_accounts, list_all_users, reconcile_accounts_and_users,
}
use nats_operator_experiment.Controller.Reconcile.Steps.{PodsSettled}

module _ (wide : ℕ → Bool) (re : Regexp) (c : Client) (keys : KeySource c.World)
    (p : PodRuntime c.World) (op : Operator) (sha256_hex : Str → Str) where
  -- the text that the configuration of a pass renders to
  abbrev body_of : AccountsPass → Str
  body_of pass = generate wide (convert_to_nats_config pass.accounts_with_users)

  -- The object is the cluster with the counts of the pass, that hash as the last one, and a condition
  -- Ready that is True and of the cluster's generation.
  pub record Reports (cluster : NatsCluster) (pass : AccountsPass) (hash : Str)
      (written : NatsCluster) : Type 0 where
    pub same_meta : written.meta ≡ cluster.meta
    pub same_spec : written.spec ≡ cluster.spec
    pub accounts : written.status.account_count ≡ length pass.accounts
    pub users : written.status.user_count ≡ pass.total_users
    pub last_hash : written.status.last_config_hash ≡ hash
    pub text : Str
    pub ready :
        written.status.conditions
        ≡ c.set_status_condition cluster.status.conditions (record {
          type = codes "Ready";
          status = codes "True";
          reason = codes "Reconciled";
          message = text;
          observed_generation = cluster.generation;
        })

  -- What steps 5 to 9 have done with a pass: the published text is the hash header and the body, the
  -- pods are settled on that hash, and the status that was written names it.
  pub record Published (cluster : NatsCluster) (pass : AccountsPass) (body : Str)
      (key : NamespacedName) (reloaded_once : List NamespacedName) : Type 0 where
    pub config_map :
        (r : Str) × Gave
          (c.create_or_update_config_map
            (record { name = cluster.name ++ codes "-nats-config"; namespace = cluster.namespace })
            ((codes "auth.conf", format_hash_header (sha256_hex body) ++ body) ∷ [])
            cluster)
          r
    pub pods : PodsSettled c p key cluster (sha256_hex body) reloaded_once
    pub status :
        (y : NatsCluster) × (written : NatsCluster) × Gave (c.update_cluster_status written) y
        × Reports cluster pass (sha256_hex body) written
    pub all_updated : pass.status_update_failed ≡ false

  -- What a run on a cluster has done when it asks for no further run.
  pub record Settled (cluster : NatsCluster) (key : NamespacedName)
      (reloaded_once : List NamespacedName) : Type 0 where
    pub accounts : List NatsAccount
    pub users : List NatsUser
    pub pass : AccountsPass
    pub listed : Gave (list_matching_accounts c cluster) accounts
    pub listed_users : Gave (list_all_users c) users
    pub reconciled :
        Gave (reconcile_accounts_and_users wide re c keys op cluster accounts users) pass
    pub published : Published cluster pass (body_of pass) key reloaded_once
