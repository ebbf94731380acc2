-- ===== src/Controller/Reload/Synced.antt =====
-- A pass over pods that come to show the hash.
use nats_operator_experiment.Common.{
  ℕ, ◌+◌, Str, codes, true, List, [], ◌∷◌, ◌≡◌, ◌∙◌, refl, str_eq,
}
use nats_operator_experiment.Common.Exec.{ok, wrapped, wrap_result}
use nats_operator_experiment.Controller.Client.{Pod}
use nats_operator_experiment.Controller.Reload.{
  PodRuntime, config_sync_timeout, wait_for_current_config, reload_if_current, reload_running,
  reload_one, reload_each,
}
use nats_operator_experiment.Controller.Reload.Waiting.{IsClock}
use nats_operator_experiment.Controller.Reload.Shown.{ComesToShow, wait-ComesToShow}

module _ {W : Type 0} (p : PodRuntime W) (namespace hash : Str) where
  -- One pod after the other: it runs, comes to show the hash before its deadline, and takes the signal.
  pub data AllShow : List Pod → W → W → Type 0 where
    none_left : (w : W) → AllShow [] w w
    shown :
        (pod : Pod) (rest : List Pod) (w w₁ w₂ w₃ : W)
        → str_eq pod.phase (codes "Running") ≡ true
        → ComesToShow p namespace pod.name hash ((p.now w).0 + config_sync_timeout) (p.now w).1 w₁
        → p.reload_pod namespace pod.name w₁ ≡ (ok tt, w₂)
        → AllShow rest w₂ w₃
        → AllShow (pod ∷ rest) w w₃

  module _ (clock : W → ℕ) (is_clock : IsClock p clock) where
    reload_one-synced :
        (pod : Pod) (w w₁ w₂ : W)
        → str_eq pod.phase (codes "Running") ≡ true
        → wait_for_current_config p namespace pod.name hash w ≡ (ok true, w₁)
        → p.reload_pod namespace pod.name w₁ ≡ (ok tt, w₂)
        → reload_one p namespace hash pod w ≡ (ok true, w₂)
    unfolding reload_one reload_running reload_if_current wrapped wrap_result
    reload_one-synced pod w w₁ w₂ running waited reloaded = rw (running, waited, reloaded) refl

    reload_each-next :
        (pod : Pod) (rest : List Pod) (w w' : W)
        → reload_one p namespace hash pod w ≡ (ok true, w')
        → reload_each p namespace hash (pod ∷ rest) true w
          ≡ reload_each p namespace hash rest true w'
    unfolding reload_each
    reload_each-next pod rest w w' e = rw e refl

    -- With a clock that never goes back and moves on by what was slept: if every pod runs, comes to show
    -- the hash before its deadline has passed and takes the signal, the pass ends with all pods in sync,
    -- in the state that the last signal leaves.
    pub reload_each-AllShow :
        (pods : List Pod) (w w' : W)
        → AllShow pods w w'
        → reload_each p namespace hash pods true w ≡ (ok true, w')
    reload_each-AllShow _ w _ (none_left _) = unfold reload_each in refl
    reload_each-AllShow _ w w' (shown pod rest _ w₁ w₂ _ running comes reloaded later) =
        reload_each-next pod rest w w₂ (
          reload_one-synced pod w w₁ w₂ running
            (wait-ComesToShow p namespace pod.name hash clock is_clock w w₁ comes) reloaded)
        ∙ reload_each-AllShow rest w₂ w' later
