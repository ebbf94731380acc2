-- ===== src/Controller/Reload/Waiting.antt =====
-- The wait for a pod ends.
use nats_operator_experiment.Common.{
  ℕ, zero, suc, ◌+◌, ◌*◌, ◌≤◌, ◌<◌, Str, Bool, true, false, Option, none, some, ◌≡◌, ◌≢◌, refl, ap,
  arith, ltb, Bool-cases, inl, inr,
}
use nats_operator_experiment.Common.Exec.{Result, ok, err, panic}
use nats_operator_experiment.Controller.Reload.{
  or_panic, PodRuntime, config_sync_timeout, config_sync_poll, max_checks, after_sleep, after_now,
  after_check, wait_loop, wait_for_current_config,
}

-- What the clock and the timer of package time document: time does not go back, a reading lies
-- between the times before and after it, and a timer does not fire early.
pub record IsClock {W : Type 0} (p : PodRuntime W) (clock : W → ℕ) : Type 0 where
  pub check-le : (n m h : Str) (w : W) → clock w ≤ clock (p.is_config_current n m h w).1
  pub now_after : (w : W) → clock w ≤ (p.now w).0
  pub now_before : (w : W) → (p.now w).0 ≤ clock (p.now w).1
  pub sleep-le : (n : ℕ) (w : W) → (p.sleep n w).0 ≡ true → clock w + n ≤ clock (p.sleep n w).1

some-ne-none {ℓ} : {A : Type ℓ} {a : A} → some a ≡ none → ⊥
some-ne-none e = cc

ltb-le : (a b : ℕ) → ltb a b ≡ false → b ≤ a
ltb-le a b h = ground arith

module _ {W : Type 0} (p : PodRuntime W) (clock : W → ℕ) (is_clock : IsClock p clock) where
  after_sleep-ne-none :
      (r : Bool × W) (again : W → Option (Result Bool × W))
      → (r.0 ≡ true → again r.1 ≢ none)
      → after_sleep p r again ≢ none
  unfolding after_sleep
  after_sleep-ne-none (true, w) again h = h refl
  after_sleep-ne-none (false, w) again h = cc

  after_now-ne-none :
      (deadline : ℕ) (w : W) (again : W → Option (Result Bool × W))
      → ((v : W) → clock w + config_sync_poll ≤ clock v → clock w ≤ deadline → again v ≢ none)
      → after_now p deadline (p.now w) again ≢ none
  unfolding after_now
  after_now-ne-none deadline w again h = elim (Bool-cases (ltb deadline (p.now w).0)) [
    | inl e ↦ rw e (λ k. some-ne-none k)
    | inr e ↦ rw e (
        after_sleep-ne-none (p.sleep config_sync_poll (p.now w).1) again λ passed.
          h _
            (omega (
              arith,
              is_clock.sleep-le config_sync_poll (p.now w).1 passed,
              is_clock.now_after w,
              is_clock.now_before w,
            ))
            (omega (arith, ltb-le deadline (p.now w).0 e, is_clock.now_after w)))
  ]

  after_check-ne-none :
      (deadline : ℕ) (r : Result Bool) (w : W) (again : W → Option (Result Bool × W))
      → ((v : W) → clock w + config_sync_poll ≤ clock v → clock w ≤ deadline → again v ≢ none)
      → after_check p deadline r w again ≢ none
  unfolding after_check
  after_check-ne-none deadline (ok true) w again h = λ k. some-ne-none k
  after_check-ne-none deadline (ok false) w again h = after_now-ne-none deadline w again h
  after_check-ne-none deadline (err e) w again h = λ k. some-ne-none k
  after_check-ne-none deadline panic w again h = λ k. some-ne-none k

  -- Enough fuel: one check more than there are polls until the deadline.
  wait_loop-ne-none :
      (f : ℕ) (namespace pod_name hash : Str) (deadline : ℕ) (w : W)
      → deadline < clock w + config_sync_poll * f
      → wait_loop p (suc f) namespace pod_name hash deadline w ≢ none
  unfolding wait_loop
  wait_loop-ne-none zero namespace pod_name hash deadline w h =
      after_check-ne-none deadline _ _ _
        λ v late early. absurd (omega (arith, is_clock.check-le namespace pod_name hash w))
  wait_loop-ne-none (suc f) namespace pod_name hash deadline w h =
      after_check-ne-none deadline _ _ _ λ v late early.
        wait_loop-ne-none f namespace pod_name hash deadline v
          (omega (arith, is_clock.check-le namespace pod_name hash w))

  -- If the clock never goes back and moves on by what was slept, the wait for one pod ends by the
  -- code's own returns, after at most twelve checks: the loop does not use its fuel up, and the
  -- wait returns what the loop returns.
  pub wait-ends :
      (namespace pod_name hash : Str) (w : W)
      → (r : Result Bool × W) × (wait_loop p max_checks namespace pod_name hash
            ((p.now w).0 + config_sync_timeout)
            (p.now w).1
          ≡ some r)
        × (wait_for_current_config p namespace pod_name hash w ≡ r)
  wait-ends namespace pod_name hash w =
      ended
        (wait_loop p max_checks namespace pod_name hash ((p.now w).0 + config_sync_timeout)
          (p.now w).1)
        refl
    where
      ended :
          (o : Option (Result Bool × W))
          → wait_loop p max_checks namespace pod_name hash
              ((p.now w).0 + config_sync_timeout)
              (p.now w).1
            ≡ o
          → (r : Result Bool × W) × (wait_loop p max_checks namespace pod_name hash
                ((p.now w).0 + config_sync_timeout)
                (p.now w).1
              ≡ some r)
            × (wait_for_current_config p namespace pod_name hash w ≡ r)
      ended none e = absurd (
          wait_loop-ne-none 11 namespace pod_name hash _ _ (omega (arith, is_clock.now_before w)) e)
      ended (some r) e = (r, e, unfold wait_for_current_config in ap (or_panic (p.now w).1) e)
