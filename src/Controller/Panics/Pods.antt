-- ===== src/Controller/Panics/Pods.antt =====
-- The reload of the pods does not panic: the wait for a pod does not run out of its fuel, and the
-- reference to the workload, which is read without a test, is there.
use nats_operator_experiment.Common.{
  ℕ, zero, suc, Str, codes, Bool, true, false, Option, none, some, List, [], ◌∷◌, ◌≢◌, refl, sym,
  ap, ◌∙◌, subst, ltb, str_eq, Bool-cases, inl, inr, if◌then◌else◌,
}
use nats_operator_experiment.Common.Exec.{Result, ok, err, panic}
use nats_operator_experiment.Common.Panics.{
  NoPanic, ok-ne-panic, err-ne-panic, NoPanic-pure, NoPanic-raise, NoPanic-lift, NoPanic-if,
  NoPanic-wrapped, NoPanic-bind,
}
use nats_operator_experiment.Api.Cluster.{NatsCluster, WorkloadReference}
use nats_operator_experiment.Controller.Client.{Client, NamespacedName, Pod}
use nats_operator_experiment.Controller.Reload.{
  PodRuntime, max_checks, after_sleep, after_now, after_check, wait_loop, wait_for_current_config,
  reload_if_current, reload_running, reload_one, reload_each, workload_selector, reload_nats_pods,
}
use nats_operator_experiment.Controller.Reload.Waiting.{wait-ends}
use nats_operator_experiment.Controller.Panics.{IsCalmClient, IsCalmRuntime}

module _ {W : Type 0} (p : PodRuntime W) (calm : IsCalmRuntime p) where
  -- what a round gives, if it gives anything, is no panic
  abbrev Calm : Option (Result Bool × W) → Type 0
  Calm none = Unit
  Calm (some r) = r.0 ≢ panic

  after_sleep-Calm :
      (r : Bool × W) (again : W → Option (Result Bool × W))
      → ((w : W) → Calm (again w))
      → Calm (after_sleep p r again)
  unfolding after_sleep
  after_sleep-Calm (true, w) again h = h w
  after_sleep-Calm (false, w) again h = err-ne-panic

  after_now-Calm :
      (deadline : ℕ) (r : ℕ × W) (again : W → Option (Result Bool × W))
      → ((w : W) → Calm (again w))
      → Calm (after_now p deadline r again)
  unfolding after_now
  after_now-Calm deadline (time, w) again h = elim (Bool-cases (ltb deadline time)) [
    | inl e ↦ rw e ok-ne-panic
    | inr e ↦ rw e (after_sleep-Calm (p.sleep 500 w) again h)
  ]

  after_check-Calm :
      (deadline : ℕ) (r : Result Bool) (w : W) (again : W → Option (Result Bool × W))
      → r ≢ panic
      → ((v : W) → Calm (again v))
      → Calm (after_check p deadline r w again)
  unfolding after_check
  after_check-Calm deadline (ok true) w again k h = ok-ne-panic
  after_check-Calm deadline (ok false) w again k h = after_now-Calm deadline (p.now w) again h
  after_check-Calm deadline (err e) w again k h = err-ne-panic
  after_check-Calm deadline panic w again k h = absurd (k refl)

  wait_loop-Calm :
      (f : ℕ) (namespace pod hash : Str) (deadline : ℕ) (w : W)
      → Calm (wait_loop p f namespace pod hash deadline w)
  unfolding wait_loop
  wait_loop-Calm zero namespace pod hash deadline w = tt
  wait_loop-Calm (suc f) namespace pod hash deadline w =
      after_check-Calm deadline _ _ _ ((calm.is_config_current namespace pod hash).at w)
        (λ v. wait_loop-Calm f namespace pod hash deadline v)

  wait-NoPanic : (namespace pod hash : Str) → NoPanic (wait_for_current_config p namespace pod hash)
  wait-NoPanic namespace pod hash = record {
    at = λ w.
        let (r, looped, waited) = wait-ends p calm.clock calm.is_clock namespace pod hash w in
        λ k.
          subst Calm looped (wait_loop-Calm max_checks namespace pod hash _ _)
            (ap (λ (x : Result Bool × W). x.0) (sym waited) ∙ k);
  }

  reload_if_current-NoPanic :
      (namespace pod : Str) (b : Bool) → NoPanic (reload_if_current p namespace pod b)
  unfolding reload_if_current
  reload_if_current-NoPanic namespace pod true = NoPanic-wrapped _ _ (calm.reload_pod namespace pod)
  reload_if_current-NoPanic namespace pod false = NoPanic-pure _

  reload_one-NoPanic :
      (namespace hash : Str) (pod : Pod) → NoPanic (reload_one p namespace hash pod)
  unfolding reload_one reload_running
  reload_one-NoPanic namespace hash pod =
      NoPanic-if (str_eq pod.phase (codes "Running")) _ _
        (NoPanic-bind _ _ (NoPanic-wrapped _ _ (wait-NoPanic namespace pod.name hash)) λ current.
          NoPanic-bind _ _ (reload_if_current-NoPanic namespace pod.name current)
            λ u. NoPanic-pure _)
        (NoPanic-pure _)

  reload_each-NoPanic :
      (namespace hash : Str) (pods : List Pod) (b : Bool)
      → NoPanic (reload_each p namespace hash pods b)
  unfolding reload_each
  reload_each-NoPanic namespace hash [] b = NoPanic-pure _
  reload_each-NoPanic namespace hash (pod ∷ rest) b =
      NoPanic-bind _ _ (reload_one-NoPanic namespace hash pod)
        λ in_sync. reload_each-NoPanic namespace hash rest (if in_sync then b else false)

module _ (c : Client) (calm : IsCalmClient c) where
  workload_selector-NoPanic :
      (ref : WorkloadReference) (key : NamespacedName) → NoPanic (workload_selector c ref key)
  unfolding workload_selector
  workload_selector-NoPanic ref key =
      NoPanic-if (str_eq ref.kind (codes "Deployment")) _ _
        (NoPanic-wrapped _ _ (calm.get_deployment key))
        (NoPanic-if (str_eq ref.kind (codes "StatefulSet")) _ _
          (NoPanic-wrapped _ _ (calm.get_stateful_set key)) (NoPanic-raise _))

  module _ (p : PodRuntime c.World) (calm_p : IsCalmRuntime p) where
    pub reload_nats_pods-NoPanic :
        (cluster : NatsCluster) (ref : WorkloadReference) (hash : Str)
        → NoPanic (reload_nats_pods c p cluster ref hash)
    unfolding reload_nats_pods
    reload_nats_pods-NoPanic cluster ref hash =
        NoPanic-bind _ _ (workload_selector-NoPanic ref _) λ label_selector.
          NoPanic-bind _ _
            (NoPanic-wrapped _ _ (NoPanic-lift _ (calm.label_selector_as_selector label_selector)))
            λ selector.
              NoPanic-bind _ _ (NoPanic-wrapped _ _ (calm.list_pods cluster.namespace selector))
                λ pods. reload_each-NoPanic p calm_p cluster.namespace hash pods true
