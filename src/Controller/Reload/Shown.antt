-- ===== src/Controller/Reload/Shown.antt =====
-- The wait for a pod that comes to show the hash.
use nats_operator_experiment.Common.{
  ℕ, zero, suc, ◌+◌, ◌≤◌, Str, Bool, true, false, some, ◌≡◌, refl, sym, ◌∙◌, arith, ltb,
}
use nats_operator_experiment.Common.Exec.{Result, ok}
use nats_operator_experiment.Controller.Reload.{
  PodRuntime, config_sync_timeout, config_sync_poll, max_checks, after_sleep, after_now,
  after_check, wait_loop, wait_for_current_config,
}
use nats_operator_experiment.Controller.Reload.Waiting.{IsClock, wait-ends}

in_time : (deadline time : ℕ) → time ≤ deadline → ltb deadline time ≡ false
in_time deadline time le = ground arith

module _ {W : Type 0} (p : PodRuntime W) (namespace pod_name hash : Str) where
  -- From here the pod is looked at again and again, each time before the deadline has passed and with
  -- the context alive, until a look finds it current.
  pub data ComesToShow (deadline : ℕ) : W → W → Type 0 where
    shows :
        (w w' : W)
        → p.is_config_current namespace pod_name hash w ≡ (ok true, w')
        → ComesToShow deadline w w'
    polled :
        (w w₁ w₂ w₃ w' : W) (time : ℕ)
        → p.is_config_current namespace pod_name hash w ≡ (ok false, w₁)
        → p.now w₁ ≡ (time, w₂)
        → time ≤ deadline
        → p.sleep config_sync_poll w₂ ≡ (true, w₃)
        → ComesToShow deadline w₃ w'
        → ComesToShow deadline w w'

  some-eq : {a b : Result Bool × W} → some a ≡ some b → a ≡ b
  some-eq h = cc h

  loop-shows :
      (deadline f : ℕ) (w w' : W)
      → p.is_config_current namespace pod_name hash w ≡ (ok true, w')
      → wait_loop p (suc f) namespace pod_name hash deadline w ≡ some (ok true, w')
  unfolding wait_loop after_check
  loop-shows deadline f w w' e = rw e refl

  loop-polled :
      (deadline f : ℕ) (w w₁ w₂ w₃ : W) (time : ℕ)
      → p.is_config_current namespace pod_name hash w ≡ (ok false, w₁)
      → p.now w₁ ≡ (time, w₂)
      → time ≤ deadline
      → p.sleep config_sync_poll w₂ ≡ (true, w₃)
      → wait_loop p (suc f) namespace pod_name hash deadline w
        ≡ wait_loop p f namespace pod_name hash deadline w₃
  unfolding wait_loop after_check after_now after_sleep
  loop-polled deadline f w w₁ w₂ w₃ time e e₁ le e₂ = rw (e, e₁, in_time deadline time le, e₂) refl

  wait_loop-ComesToShow :
      (deadline : ℕ) (w w' : W)
      → ComesToShow deadline w w'
      → (f : ℕ) (r : Result Bool × W) → wait_loop p f namespace pod_name hash deadline w ≡ some r
      → r ≡ (ok true, w')
  wait_loop-ComesToShow deadline w w' d zero r h = unfold wait_loop in cc h
  wait_loop-ComesToShow deadline w w' (shows _ _ e) (suc f) r h =
      some-eq (sym h ∙ loop-shows deadline f w w' e)
  wait_loop-ComesToShow deadline w w' (polled _ w₁ w₂ w₃ _ time e e₁ le e₂ d) (suc f) r h =
      wait_loop-ComesToShow deadline w₃ w' d f r
        (sym (loop-polled deadline f w w₁ w₂ w₃ time e e₁ le e₂) ∙ h)

  -- With a clock that never goes back and moves on by what was slept: a pod that is looked at until it
  -- shows the hash, each look but the last one before the deadline has passed and with no error, is
  -- found to be in sync by the wait, in the state that the last look leaves.
  pub wait-ComesToShow :
      (clock : W → ℕ)
      → IsClock p clock
      → (w w' : W) → ComesToShow ((p.now w).0 + config_sync_timeout) (p.now w).1 w'
      → wait_for_current_config p namespace pod_name hash w ≡ (ok true, w')
  wait-ComesToShow clock is_clock w w' d =
      let (r, looped, waited) = wait-ends p clock is_clock namespace pod_name hash w in
      waited ∙ wait_loop-ComesToShow _ _ w' d max_checks r looped
