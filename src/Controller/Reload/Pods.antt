-- ===== src/Controller/Reload/Pods.antt =====
-- Which pods are signalled, and when the pods count as in sync.
use nats_operator_experiment.Common.{
  Str, codes, Bool, true, false, List, [], ◌∷◌, ◌≡◌, ◌≢◌, if◌then◌else◌,
}
use nats_operator_experiment.Common.Exec.{ok}
use nats_operator_experiment.Controller.Client.{Pod}
use nats_operator_experiment.Controller.Reload.{PodRuntime, wait_for_current_config}

module _ {W : Type 0} (p : PodRuntime W) (namespace hash : Str) where
  -- What a round of the loop may do to a pod, and whether the pod is in sync after it. SIGHUP is
  -- sent in the last case alone.
  pub data Round (pod : Pod) (w : W) : Bool → W → Type 0 where
    skipped : pod.phase ≢ codes "Running" → Round pod w false w
    stale :
        {v : W}
        → pod.phase ≡ codes "Running"
        → wait_for_current_config p namespace pod.name hash w ≡ (ok false, v)
        → Round pod w false v
    signalled :
        {v u : W}
        → pod.phase ≡ codes "Running"
        → wait_for_current_config p namespace pod.name hash w ≡ (ok true, v)
        → p.reload_pod namespace pod.name v ≡ (ok tt, u)
        → Round pod w true u

  -- A pass over the pods; it is in sync if every round was.
  pub data Pass : List Pod → W → Bool → W → Type 0 where
    done : {w : W} → Pass [] w true w
    next :
        {pod : Pod} {rest : List Pod} {w v u : W} {s t : Bool}
        → Round pod w s v
        → Pass rest v t u
        → Pass (pod ∷ rest) w (if s then t else false) u
