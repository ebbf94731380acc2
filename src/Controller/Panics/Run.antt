-- ===== src/Controller/Panics/Run.antt =====
-- Reconcile does not panic.
use nats_operator_experiment.Common.{
  ℕ, Str, Bool, true, false, Option, none, some, List, [], ◌∷◌, ◌≡◌, ◌≢◌, refl, arith, is_some,
  if◌then◌else◌,
}
use nats_operator_experiment.Common.Exec.{
  Error, is_not_found, is_conflict, Result, ok, err, panic, Exec, pure, message,
}
use nats_operator_experiment.Common.Panics.{
  NoPanic, ok-ne-panic, NoPanic-pure, NoPanic-raise, NoPanic-if, NoPanic-bind, NoPanic-attempt,
}
use nats_operator_experiment.Nkeys.{KeySource}
use nats_operator_experiment.Api.Account.{NatsAccount}
use nats_operator_experiment.Api.Cluster.{NatsCluster, WorkloadReference}
use nats_operator_experiment.Controller.Client.{Client, NamespacedName}
use nats_operator_experiment.Controller.Rules.{Regexp}
use nats_operator_experiment.Controller.Reload.{PodRuntime}
use nats_operator_experiment.Controller.Conditions.{Operator}
use nats_operator_experiment.Controller.Accounts.{
  AccountsPass, list_matching_accounts, list_all_users,
}
use nats_operator_experiment.Controller.Reconcile.{
  Process, was_reloaded, needs_reload_attempt, contains_name, ensure_config_map, report, reported,
  mark_conflict, mark_conflicts, surface_conflicts, conclude, finish, on_world, store_reloaded,
  reload_cluster, reload_pass, sync_pods, publish, reconcile_cluster, reconcile_found, reconcile,
}
use nats_operator_experiment.Controller.Panics.{
  IsCalmClient, IsCalmKeys, IsCalmRegexp, IsCalmRuntime,
}
use nats_operator_experiment.Controller.Panics.Conditions.{
  set_account_condition-NoPanic, set_cluster_condition-NoPanic,
}
use nats_operator_experiment.Controller.Panics.Users.{reconcile_accounts_and_users-NoPanic}
use nats_operator_experiment.Controller.Panics.Pods.{reload_nats_pods-NoPanic}

needs-ref :
    (cluster : NatsCluster) (hash : Str) (b : Bool)
    → needs_reload_attempt cluster hash b ≡ true
    → is_some cluster.spec.server_ref ≡ true
unfolding needs_reload_attempt
needs-ref cluster hash b h = ground arith

none-ne-some : is_some {A = WorkloadReference} none ≡ true → ⊥
none-ne-some h = cc

module _ (c : Client) (calm : IsCalmClient c) where
  report-NoPanic {ℓ} :
      {A : Type ℓ} (cluster : NatsCluster) (describe : Error → Str) (r : Result A)
      → r ≢ panic
      → NoPanic (report c cluster describe r)
  unfolding report
  report-NoPanic cluster describe (ok a) h = NoPanic-pure _
  report-NoPanic cluster describe (err e) h =
      NoPanic-bind _ _ (set_cluster_condition-NoPanic c calm cluster _ _ _) λ u. NoPanic-raise e
  report-NoPanic cluster describe panic h = absurd (h refl)

  on_world-NoPanic {ℓ} : {A : Type ℓ} (m : Exec c.World A) → NoPanic m → NoPanic (on_world c m)
  on_world-NoPanic m h = record { at = λ q. h.at q.world }

  reported-NoPanic {ℓ} :
      {A : Type ℓ} (cluster : NatsCluster) (describe : Error → Str) (m : Exec c.World A)
      → NoPanic m
      → NoPanic (on_world c (reported c cluster describe m))
  reported-NoPanic cluster describe m h = on_world-NoPanic _ (
      NoPanic-attempt m (report c cluster describe) h
        λ r w w' e k. report-NoPanic cluster describe r k)

  mark_conflicts-NoPanic :
      (names : List Str) (text : Str) (accounts : List NatsAccount)
      → NoPanic (mark_conflicts c names text accounts)
  unfolding mark_conflicts mark_conflict
  mark_conflicts-NoPanic names text [] = NoPanic-pure _
  mark_conflicts-NoPanic names text (acct ∷ rest) =
      NoPanic-bind _ _
        (NoPanic-if (contains_name acct.name names) _ _
          (NoPanic-bind _ _ (set_account_condition-NoPanic c calm acct _ _ _)
            λ updated. NoPanic-pure _)
          (NoPanic-pure _))
        λ failed. NoPanic-bind _ _ (mark_conflicts-NoPanic names text rest) λ later. NoPanic-pure _

  surface-NoPanic :
      (wide : ℕ → Bool) (cluster : NatsCluster) (names : List Str) (accounts : List NatsAccount)
      → NoPanic (surface_conflicts c wide cluster names accounts)
  unfolding surface_conflicts
  surface-NoPanic wide cluster [] accounts = NoPanic-pure _
  surface-NoPanic wide cluster (name ∷ names) accounts =
      mark_conflicts-NoPanic (name ∷ names) _ accounts

  conclude-NoPanic :
      (failed in_sync : Bool) (r : Result NatsCluster)
      → r ≢ panic
      → NoPanic (conclude c failed in_sync r)
  unfolding conclude
  conclude-NoPanic failed in_sync (ok y) h = NoPanic-pure _
  conclude-NoPanic failed in_sync (err e) h =
      NoPanic-if (is_conflict e) _ _ (NoPanic-pure _) (NoPanic-raise e)
  conclude-NoPanic failed in_sync panic h = absurd (h refl)

  finish-NoPanic :
      (cluster : NatsCluster) (accounts users : ℕ) (hash : Str) (failed in_sync : Bool)
      → NoPanic (finish c cluster accounts users hash failed in_sync)
  unfolding finish
  finish-NoPanic cluster accounts users hash failed in_sync =
      NoPanic-attempt _ (conclude c failed in_sync) (calm.update_cluster_status _)
        λ r w w' e h. conclude-NoPanic failed in_sync r h

  module _ (p : PodRuntime c.World) (calm_p : IsCalmRuntime p) where
    reload_cluster-NoPanic :
        (cluster : NatsCluster) (hash : Str) (ref : Option WorkloadReference)
        → is_some ref ≡ true
        → NoPanic (reload_cluster c p cluster hash ref)
    unfolding reload_cluster
    reload_cluster-NoPanic cluster hash none h = absurd (none-ne-some h)
    reload_cluster-NoPanic cluster hash (some ref) h =
        reload_nats_pods-NoPanic c calm p calm_p cluster ref hash

    reload_pass-NoPanic :
        (key : NamespacedName) (cluster : NatsCluster) (hash : Str)
        → is_some cluster.spec.server_ref ≡ true
        → NoPanic (reload_pass c p key cluster hash)
    unfolding reload_pass
    reload_pass-NoPanic key cluster hash h =
        NoPanic-bind _ _
          (reported-NoPanic cluster _ _
            (reload_cluster-NoPanic cluster hash cluster.spec.server_ref h))
          λ in_sync.
            NoPanic-bind (store_reloaded c key) _ (record { at = λ q. ok-ne-panic })
              λ u. NoPanic-pure in_sync

    sync_pods-NoPanic :
        (key : NamespacedName) (cluster : NatsCluster) (hash : Str)
        → NoPanic (sync_pods c p key cluster hash)
    unfolding sync_pods
    sync_pods-NoPanic key cluster hash = record {
      at = λ q.
          guarded q (needs_reload_attempt cluster hash (was_reloaded key q.reloaded_once)) refl;
    }
      where
        guarded :
            (q : Process c.World) (b : Bool)
            → needs_reload_attempt cluster hash (was_reloaded key q.reloaded_once) ≡ b
            → (if b then reload_pass c p key cluster hash q else pure true q).0 ≢ panic
        guarded q true e = (reload_pass-NoPanic key cluster hash (needs-ref cluster hash _ e)).at q
        guarded q false e = ok-ne-panic

module _ (wide : ℕ → Bool) (re : Regexp) (calm_re : IsCalmRegexp re) (c : Client)
    (calm : IsCalmClient c) (keys : KeySource c.World) (calm_keys : IsCalmKeys keys)
    (p : PodRuntime c.World) (calm_p : IsCalmRuntime p) (op : Operator)
    (sha256_hex : Str → Str) where
  publish-NoPanic :
      (key : NamespacedName) (cluster : NatsCluster) (pass : AccountsPass) (body : Str)
      (failed : Bool)
      → NoPanic (publish wide re c keys p op sha256_hex key cluster pass body failed)
  unfolding publish ensure_config_map
  publish-NoPanic key cluster pass body failed =
      NoPanic-bind _ _
        (reported-NoPanic c calm cluster message _ (calm.create_or_update_config_map _ _ cluster))
        λ u.
          NoPanic-bind _ _ (sync_pods-NoPanic c calm p calm_p key cluster (sha256_hex body))
            λ in_sync. on_world-NoPanic c calm _ (finish-NoPanic c calm cluster _ _ _ _ in_sync)

  cluster-NoPanic :
      (key : NamespacedName) (cluster : NatsCluster)
      → NoPanic (reconcile_cluster wide re c keys p op sha256_hex key cluster)
  unfolding reconcile_cluster list_matching_accounts list_all_users
  cluster-NoPanic key cluster =
      NoPanic-bind _ _
        (reported-NoPanic c calm cluster message _
          (NoPanic-bind _ _ (calm.list_accounts cluster.namespace) λ items. NoPanic-pure _))
        λ accounts.
          NoPanic-bind _ _ (reported-NoPanic c calm cluster message _ calm.list_users) λ users.
            NoPanic-bind _ _
              (on_world-NoPanic c calm _ (
                reconcile_accounts_and_users-NoPanic wide re calm_re c calm keys calm_keys op
                  cluster accounts users))
              λ pass.
                NoPanic-bind _ _
                  (on_world-NoPanic c calm _ (surface-NoPanic c calm wide cluster _ pass.accounts))
                  λ failed. publish-NoPanic key cluster pass _ failed

  found-NoPanic :
      (key : NamespacedName) (r : Result NatsCluster)
      → r ≢ panic
      → NoPanic (reconcile_found wide re c keys p op sha256_hex key r)
  unfolding reconcile_found
  found-NoPanic key (ok cluster) h = cluster-NoPanic key cluster
  found-NoPanic key (err e) h = NoPanic-if (is_not_found e) _ _ (NoPanic-pure _) (NoPanic-raise e)
  found-NoPanic key panic h = absurd (h refl)

  -- Whatever the calls answer, if none of them panics, the clock does not go back and moves on by what
  -- was slept, and every secret that is read has a map of data, then Reconcile ends with a result or an
  -- error and does not panic: in particular it never reads a reference to a workload that is not there.
  pub reconcile-NoPanic :
      (key : NamespacedName) → NoPanic (reconcile wide re c keys p op sha256_hex key)
  unfolding reconcile
  reconcile-NoPanic key =
      NoPanic-attempt _ (reconcile_found wide re c keys p op sha256_hex key)
        (on_world-NoPanic c calm _ (calm.get_cluster key)) λ r w w' e h. found-NoPanic key r h
