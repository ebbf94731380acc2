-- ===== src/Controller/Reconcile.antt =====
-- `Reconcile` and `ensureConfigMap` of internal/controller/natscluster_controller.go. The state of
-- the operator process beside the world is `reloadedOnce`. The SHA-256 in hexadecimal is a parameter.
pub mod Steps
pub mod Settled
use nats_operator_experiment.Common.{
  ℕ, Str, codes, Bool, true, false, ◌&&◌, ◌||◌, not, Option, none, some, List, [], ◌∷◌, ◌++◌,
  str_eq, is_some, length, Map, if◌then◌else◌,
}
use nats_operator_experiment.Common.Decimal.{format_nat}
use nats_operator_experiment.Common.Exec.{
  Error, message, is_not_found, is_conflict, Result, ok, err, panic, Exec, pure, raise, lift, ◌>>=◌,
  ◌>>◌, attempt,
}
use nats_operator_experiment.Nkeys.{KeySource}
use nats_operator_experiment.Api.User.{NatsUser}
use nats_operator_experiment.Api.Account.{NatsAccount}
use nats_operator_experiment.Api.Cluster.{
  NatsCluster, WorkloadReference, reason_reconciled, reason_reconcile_error,
  reason_system_account_conflict,
}
use nats_operator_experiment.Config.Types.{NatsConfig}
use nats_operator_experiment.Config.Quote.{quote}
use nats_operator_experiment.Config.Convert.{AccountWithUsers, convert_to_nats_config}
use nats_operator_experiment.Config.Generate.{generate}
use nats_operator_experiment.Controller.Client.{Client, NamespacedName}
use nats_operator_experiment.Controller.Rules.{Regexp}
use nats_operator_experiment.Controller.HashHeader.{format_hash_header}
use nats_operator_experiment.Controller.Reload.{PodRuntime, reload_nats_pods}
use nats_operator_experiment.Controller.Conditions.{
  Operator, condition_true, condition_false, ready_condition, with_cluster_condition,
  set_account_condition, set_cluster_condition,
}
use nats_operator_experiment.Controller.Accounts.{
  AccountsPass, list_matching_accounts, list_all_users, reconcile_accounts_and_users,
}

-- ctrl.Result, the delay in seconds
pub record CtrlResult : Type 0 where
  pub requeue : Bool
  pub requeue_after : ℕ

abbrev pub done : CtrlResult
done = record { requeue = false; requeue_after = 0 }

abbrev pub requeue_now : CtrlResult
requeue_now = record { requeue = true; requeue_after = 0 }

abbrev pub requeue_soon : CtrlResult
requeue_soon = record { requeue = false; requeue_after = 5 }

pub record Process (W : Type 0) : Type 0 where
  pub world : W
  pub reloaded_once : List NamespacedName

-- `reloadedOnce.Load`
unfoldable pub was_reloaded : NamespacedName → List NamespacedName → Bool
was_reloaded key [] = false
was_reloaded key (k ∷ rest) =
    (str_eq k.name key.name && str_eq k.namespace key.namespace) || was_reloaded key rest

unfoldable pub needs_reload_attempt : NatsCluster → Str → Bool → Bool
needs_reload_attempt cluster hash already_reloaded =
    is_some cluster.spec.server_ref
    && (not (str_eq hash cluster.status.last_config_hash) || not already_reloaded)

unfoldable pub contains_name : Str → List Str → Bool
contains_name n [] = false
contains_name n (m ∷ rest) = str_eq n m || contains_name n rest

-- `%v` of a slice of strings
unfoldable pub joined : List Str → Str
joined [] = []
joined (s ∷ []) = s
joined (s ∷ t ∷ rest) = s ++ (codes " " ++ joined (t ∷ rest))

abbrev pub config_map_key : NatsCluster → NamespacedName
config_map_key cluster = record {
  name = cluster.name ++ codes "-nats-config";
  namespace = cluster.namespace;
}

abbrev pub config_map_data : Str → Map Str
config_map_data config_str = (codes "auth.conf", config_str) ∷ []

-- the fields of the status that step 8 sets
unfoldable pub counted_cluster : NatsCluster → ℕ → ℕ → Str → Bool → NatsCluster
counted_cluster cluster accounts users hash all_pods_in_sync = record cluster {
  status = record cluster.status {
    account_count = accounts;
    user_count = users;
    last_config_hash = if all_pods_in_sync then hash else cluster.status.last_config_hash;
  };
}

unfoldable pub reconciled_text : ℕ → ℕ → Str
reconciled_text accounts users =
    codes "Reconciled "
    ++ (format_nat accounts ++ (codes " accounts, " ++ (format_nat users ++ codes " users")))

module _ (wide : ℕ → Bool) where
  unfoldable pub conflict_text : NatsCluster → List Str → Str
  conflict_text cluster names =
      codes "multiple NatsAccounts in cluster "
      ++ (quote wide cluster.name
          ++ (codes " have spec.systemAccount=true: ["
              ++ (joined names ++ codes "] — refusing to designate any until exactly one remains")))

module _ (c : Client) where
  unfoldable pub ensure_config_map : NatsCluster → Str → Exec c.World Str
  ensure_config_map cluster config_str =
      c.create_or_update_config_map (config_map_key cluster) (config_map_data config_str) cluster

  -- on an error, the condition of the cluster is set, whatever that gives, and the error goes on
  unfoldable pub report {ℓ} : {A : Type ℓ} → NatsCluster → (Error → Str) → Result A → Exec c.World A
  report cluster describe (ok a) = pure a
  report cluster describe (err e) = do
    _ ← set_cluster_condition c cluster condition_false reason_reconcile_error (describe e)
    raise e
  report cluster describe panic = lift panic

  abbrev pub reported {ℓ} :
      {A : Type ℓ} → NatsCluster → (Error → Str) → Exec c.World A → Exec c.World A
  reported cluster describe m = do r ← attempt m; report cluster describe r

  -- one account of the loop that marks the accounts in conflict; whether an update failed
  unfoldable pub mark_conflict : List Str → Str → NatsAccount → Exec c.World Bool
  mark_conflict names text acct =
      if contains_name acct.name names
      then (do
        updated ← set_account_condition c acct condition_false reason_system_account_conflict text
        pure updated.1)
      else pure false

  unfoldable pub mark_conflicts : List Str → Str → List NatsAccount → Exec c.World Bool
  mark_conflicts names text [] = pure false
  mark_conflicts names text (acct ∷ rest) = do
    failed ← mark_conflict names text acct
    later ← mark_conflicts names text rest
    pure (failed || later)

  -- `if len(cfg.SystemAccountConflicts) > 0`
  unfoldable pub surface_conflicts :
      (ℕ → Bool) → NatsCluster → List Str → List NatsAccount → Exec c.World Bool
  surface_conflicts wide cluster [] accounts = pure false
  surface_conflicts wide cluster (name ∷ names) accounts =
      mark_conflicts (name ∷ names) (conflict_text wide cluster (name ∷ names)) accounts

  -- what to return after the update of the status
  unfoldable pub conclude : Bool → Bool → Result NatsCluster → Exec c.World CtrlResult
  conclude status_update_failed all_pods_in_sync (ok _) = pure (
      if status_update_failed
      then requeue_soon
      else if all_pods_in_sync
      then done
      else requeue_soon)
  conclude status_update_failed all_pods_in_sync (err e) =
      if is_conflict e then pure requeue_now else raise e
  conclude status_update_failed all_pods_in_sync panic = lift panic

  -- the status that step 8 writes
  unfoldable pub new_status : NatsCluster → ℕ → ℕ → Str → Bool → NatsCluster
  new_status cluster accounts users hash all_pods_in_sync =
      with_cluster_condition c (counted_cluster cluster accounts users hash all_pods_in_sync) (
        ready_condition condition_true reason_reconciled (reconciled_text accounts users)
          cluster.generation)

  unfoldable pub finish : NatsCluster → ℕ → ℕ → Str → Bool → Bool → Exec c.World CtrlResult
  finish cluster accounts users hash status_update_failed all_pods_in_sync = do
    r ← attempt (c.update_cluster_status (new_status cluster accounts users hash all_pods_in_sync))
    conclude status_update_failed all_pods_in_sync r

  -- a call that leaves the operator process as it is
  abbrev pub on_world {ℓ} : {A : Type ℓ} → Exec c.World A → Exec (Process c.World) A
  on_world m process = let (r, w) = m process.world in (r, record process { world = w })

  -- `reloadedOnce.Store`
  abbrev pub store_reloaded : NamespacedName → Exec (Process c.World) (Unit {0})
  store_reloaded key process =
      (ok tt, record process { reloaded_once = key ∷ process.reloaded_once })

  module _ (p : PodRuntime c.World) where
    -- `reloadNatsPods` reads the reference without a test
    unfoldable pub reload_cluster : NatsCluster → Str → Option WorkloadReference → Exec c.World Bool
    reload_cluster cluster hash none = lift panic
    reload_cluster cluster hash (some ref) = reload_nats_pods c p cluster ref hash

    unfoldable pub reload_pass : NamespacedName → NatsCluster → Str → Exec (Process c.World) Bool
    reload_pass key cluster hash = do
      in_sync ← on_world (
          reported cluster (λ e. codes "failed to reload NATS pods: " ++ message e)
            (reload_cluster cluster hash cluster.spec.server_ref))
      store_reloaded key
      pure in_sync

    -- step 7: `allPodsInSync`
    unfoldable pub sync_pods : NamespacedName → NatsCluster → Str → Exec (Process c.World) Bool
    sync_pods key cluster hash process =
        if needs_reload_attempt cluster hash (was_reloaded key process.reloaded_once)
        then reload_pass key cluster hash process
        else pure true process

module _ (wide : ℕ → Bool) (re : Regexp) (c : Client) (keys : KeySource c.World)
    (p : PodRuntime c.World) (op : Operator) (sha256_hex : Str → Str) where
  -- steps 5 to 9, from the rendered configuration on
  unfoldable pub publish :
      NamespacedName → NatsCluster → AccountsPass → Str → Bool → Exec (Process c.World) CtrlResult
  publish key cluster pass body conflict_update_failed = do
    let hash = sha256_hex body
    _ ←
        on_world c (
          reported c cluster message
            (ensure_config_map c cluster (format_hash_header hash ++ body)))
    all_pods_in_sync ← sync_pods c p key cluster hash
    on_world c (
        finish c cluster (length pass.accounts) pass.total_users hash
          (pass.status_update_failed || conflict_update_failed) all_pods_in_sync)

  -- steps 2 to 9
  unfoldable pub reconcile_cluster :
      NamespacedName → NatsCluster → Exec (Process c.World) CtrlResult
  reconcile_cluster key cluster = do
    accounts ← on_world c (reported c cluster message (list_matching_accounts c cluster))
    users ← on_world c (reported c cluster message (list_all_users c))
    pass ← on_world c (reconcile_accounts_and_users wide re c keys op cluster accounts users)
    let cfg = convert_to_nats_config pass.accounts_with_users
    failed ←
        on_world c (surface_conflicts c wide cluster cfg.system_account_conflicts pass.accounts)
    publish key cluster pass (generate wide cfg) failed

  -- on the result of the first read
  unfoldable pub reconcile_found :
      NamespacedName → Result NatsCluster → Exec (Process c.World) CtrlResult
  reconcile_found key (ok cluster) = reconcile_cluster key cluster
  reconcile_found key (err e) = if is_not_found e then pure done else raise e
  reconcile_found key panic = lift panic

  unfoldable pub reconcile : NamespacedName → Exec (Process c.World) CtrlResult
  reconcile key = do r ← attempt (on_world c (c.get_cluster key)); reconcile_found key r
