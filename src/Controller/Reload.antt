-- ===== src/Controller/Reload.antt =====
-- `waitForCurrentConfig` and `reloadNatsPods` of internal/controller/natscluster_controller.go. The
-- two calls of `PodReloader`, the clock and the wait are the parameter `PodRuntime`; times are in
-- milliseconds.
pub mod Waiting
pub mod Shown
pub mod Synced
pub mod Pods
use nats_operator_experiment.Common.{
  ℕ, zero, suc, ◌+◌, ◌≤◌, ◌<◌, Str, codes, str_eq, Bool, true, false, Option, none, some, List, [],
  ◌∷◌, ◌++◌, ltb, if◌then◌else◌,
}
use nats_operator_experiment.Common.Exec.{
  Error, plain, wrap, Result, ok, err, panic, Exec, pure, raise, lift, ◌>>=◌, ◌>>◌, wrapped,
}
use nats_operator_experiment.Api.Cluster.{NatsCluster, WorkloadReference}
use nats_operator_experiment.Controller.Client.{Client, NamespacedName, Pod}

pub record PodRuntime (W : Type 0) : Type 0 where
  pub is_config_current : Str → Str → Str → Exec W Bool
  pub reload_pod : Str → Str → Exec W (Unit {0})
  pub now : W → ℕ × W
  -- the select: `true` when the time has passed, `false` when the context is done first
  pub sleep : ℕ → W → Bool × W
  pub context_error : Error

abbrev pub config_sync_timeout : ℕ
config_sync_timeout = 5000

abbrev pub config_sync_poll : ℕ
config_sync_poll = 500

-- one check at the start, one after each of ten polls, and one past the deadline
abbrev pub max_checks : ℕ
max_checks = 12

-- the fuel never runs out (Waiting.antt)
abbrev pub or_panic : {W : Type 0} → W → Option (Result Bool × W) → Result Bool × W
or_panic w none = (panic, w)
or_panic w (some r) = r

module _ {W : Type 0} (p : PodRuntime W) where
  -- after the sleep; `again` is the next round
  unfoldable pub after_sleep : Bool × W → (W → Option (Result Bool × W)) → Option (Result Bool × W)
  after_sleep (true, w) again = again w
  after_sleep (false, w) again = some (err p.context_error, w)

  -- after the time was read
  unfoldable pub after_now : ℕ → ℕ × W → (W → Option (Result Bool × W)) → Option (Result Bool × W)
  after_now deadline (time, w) again =
      if ltb deadline time
      then some (ok false, w)
      else after_sleep (p.sleep config_sync_poll w) again

  -- after the check
  unfoldable pub after_check :
      ℕ → Result Bool → W → (W → Option (Result Bool × W)) → Option (Result Bool × W)
  after_check deadline (err e) w again = some (err e, w)
  after_check deadline panic w again = some (panic, w)
  after_check deadline (ok true) w again = some (ok true, w)
  after_check deadline (ok false) w again = after_now deadline (p.now w) again

  -- the loop, on fuel; `none` means that the fuel ran out
  unfoldable pub wait_loop : ℕ → Str → Str → Str → ℕ → W → Option (Result Bool × W)
  wait_loop zero namespace pod_name expected_hash deadline w = none
  wait_loop (suc f) namespace pod_name expected_hash deadline w =
      let (r, w') = p.is_config_current namespace pod_name expected_hash w in
      after_check deadline r w' (wait_loop f namespace pod_name expected_hash deadline)

  unfoldable pub wait_for_current_config : Str → Str → Str → Exec W Bool
  wait_for_current_config namespace pod_name expected_hash w =
      let (time, w') = p.now w in
      or_panic w'
        (wait_loop max_checks namespace pod_name expected_hash (time + config_sync_timeout) w')

  -- SIGHUP, to a pod that shows the expected hash
  unfoldable pub reload_if_current : Str → Str → Bool → Exec W (Unit {0})
  reload_if_current namespace pod_name true =
      wrapped (codes "reloading pod " ++ pod_name) (p.reload_pod namespace pod_name)
  reload_if_current namespace pod_name false = pure tt

  -- the rest of a round of the loop over the pods, for a running pod
  unfoldable pub reload_running : Str → Str → Str → Exec W Bool
  reload_running namespace expected_hash pod_name = do
    current ←
        wrapped (codes "checking config hash on pod " ++ pod_name)
          (wait_for_current_config namespace pod_name expected_hash)
    reload_if_current namespace pod_name current
    pure current

  -- one pod: whether it is in sync
  unfoldable pub reload_one : Str → Str → Pod → Exec W Bool
  reload_one namespace expected_hash pod =
      if str_eq pod.phase (codes "Running")
      then reload_running namespace expected_hash pod.name
      else pure false

  unfoldable pub reload_each : Str → Str → List Pod → Bool → Exec W Bool
  reload_each namespace expected_hash [] all_in_sync = pure all_in_sync
  reload_each namespace expected_hash (pod ∷ rest) all_in_sync = do
    in_sync ← reload_one namespace expected_hash pod
    reload_each namespace expected_hash rest (if in_sync then all_in_sync else false)

module _ (c : Client) where
  abbrev key_text : NamespacedName → Str
  key_text key = key.namespace ++ (codes "/" ++ key.name)

  -- the switch on the kind of the workload
  unfoldable pub workload_selector :
      WorkloadReference → NamespacedName → Exec c.World c.LabelSelector
  workload_selector ref key =
      if str_eq ref.kind (codes "Deployment")
      then wrapped (codes "getting deployment " ++ key_text key) (c.get_deployment key)
      else if str_eq ref.kind (codes "StatefulSet")
      then wrapped (codes "getting statefulset " ++ key_text key) (c.get_stateful_set key)
      else raise (plain (codes "unsupported workload kind: " ++ ref.kind))

module _ (c : Client) (p : PodRuntime c.World) where
  unfoldable pub reload_nats_pods : NatsCluster → WorkloadReference → Str → Exec c.World Bool
  reload_nats_pods cluster ref expected_hash = do
    label_selector ←
        workload_selector c ref (record { name = ref.name; namespace = cluster.namespace })
    selector ←
        wrapped (codes "parsing label selector")
          (lift (c.label_selector_as_selector label_selector))
    pods ← wrapped (codes "listing pods") (c.list_pods cluster.namespace selector)
    reload_each p cluster.namespace expected_hash pods true
