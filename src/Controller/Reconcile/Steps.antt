-- ===== src/Controller/Reconcile/Steps.antt =====
-- The steps of `Reconcile`, inverted: what was done when a step gave a value.
use nats_operator_experiment.Common.{
  ℕ, Str, codes, Bool, true, false, Option, none, some, ◌++◌, ◌≡◌, refl, sym, ap, ◌∙◌, inl, inr,
  not, ◌&&◌, ◌||◌, List, [], ◌∷◌, str_eq, str_eq_iff, Mem, mem-cons_self, mem-cons_of_mem,
  Option-cases, subst, if◌then◌else◌,
}
use nats_operator_experiment.Common.Exec.{
  Error, is_conflict, Result, ok, err, panic, Exec, pure, raise, ◌>>◌, bind-ok, ok-injective,
  err-ne-ok, panic-ne-ok, message, Gave,
}
use nats_operator_experiment.Api.Cluster.{NatsCluster, WorkloadReference}
use nats_operator_experiment.Controller.Client.{Client, NamespacedName}
use nats_operator_experiment.Controller.Reload.{PodRuntime, reload_nats_pods}
use nats_operator_experiment.Controller.Conditions.{set_cluster_condition, condition_false}
use nats_operator_experiment.Api.Cluster.{reason_reconcile_error}
use nats_operator_experiment.Controller.Reconcile.{
  CtrlResult, done, requeue_soon, requeue_now, Process, was_reloaded, needs_reload_attempt, report,
  reported, conclude, new_status, finish, on_world, store_reloaded, reload_cluster, reload_pass,
  sync_pods,
}

was_reloaded-Mem :
    (key : NamespacedName) (reloaded_once : List NamespacedName)
    → was_reloaded key reloaded_once ≡ true
    → Mem key reloaded_once
unfolding was_reloaded
was_reloaded-Mem key [] h = absurd (cc h)
was_reloaded-Mem key (k ∷ rest) h =
    split (str_eq k.name key.name) (str_eq k.namespace key.namespace) refl refl
      (was_reloaded-Mem key rest) h
  where
    split :
        (a b : Bool)
        → str_eq k.name key.name ≡ a
        → str_eq k.namespace key.namespace ≡ b
        → (was_reloaded key rest ≡ true → Mem key rest)
        → ((a && b) || was_reloaded key rest) ≡ true
        → Mem key (k ∷ rest)
    split true true e f later h' =
        subst (λ (x : NamespacedName). Mem x (k ∷ rest))
          (λ i. record {
            name = (str_eq_iff k.name key.name).0 e i;
            namespace = (str_eq_iff k.namespace key.namespace).0 f i;
          })
          mem-cons_self
    split true false e f later h' = mem-cons_of_mem k (later h')
    split false b e f later h' = mem-cons_of_mem k (later h')

no_reason : (same known : Bool) → (not same || not known) ≡ false → (same ≡ true) × (known ≡ true)
no_reason true true h = (refl, refl)
no_reason true false h = absurd (cc h)
no_reason false known h = absurd (cc h)

module _ (c : Client) where
  report-ok {ℓ} :
      {A : Type ℓ} (cluster : NatsCluster) (describe : Error → Str) (r : Result A) (v : c.World)
      {a : A} {w' : c.World}
      → report c cluster describe r v ≡ (ok a, w')
      → ◌≡◌ {A = Result A × c.World} (r, v) (ok a, w')
  unfolding report
  report-ok cluster describe (ok b) v h = h
  report-ok cluster describe (err e) v h =
      let (b, u, h', h'') =
        bind-ok
          (set_cluster_condition c cluster condition_false reason_reconcile_error (describe e))
          (λ _. raise e) v h in
      absurd (err-ne-ok h'')
  report-ok cluster describe panic v h = absurd (panic-ne-ok h)

  pub reported-ok {ℓ} :
      {A : Type ℓ} (cluster : NatsCluster) (describe : Error → Str) (m : Exec c.World A) {a : A}
      → Gave (reported c cluster describe m) a
      → Gave m a
  reported-ok cluster describe m (w, w', h) = (w, w', report-ok cluster describe (m w).0 (m w).1 h)

  pub on_world-ok {ℓ} :
      {A : Type ℓ} (m : Exec c.World A) (q : Process c.World) {a : A} {q' : Process c.World}
      → on_world c m q ≡ (ok a, q')
      → Gave m a × (q'.reloaded_once ≡ q.reloaded_once)
  on_world-ok {A = A} m q {a} {q'} h = (
    (q.world, (m q.world).1, λ i. ((h i).0, (m q.world).1)),
    ap (λ (x : Result A × Process c.World). x.1.reloaded_once) (sym h),
  )

  soon-ne-done :
      {v w : c.World} → ◌≡◌ {A = Result CtrlResult × c.World} (ok requeue_soon, v) (ok done, w) → ⊥
  soon-ne-done h = cc (ap (λ (r : CtrlResult). r.requeue_after) (ok-injective h))

  now-ne-done :
      {v w : c.World} → ◌≡◌ {A = Result CtrlResult × c.World} (ok requeue_now, v) (ok done, w) → ⊥
  now-ne-done h = cc (ap (λ (r : CtrlResult). r.requeue) (ok-injective h))

  conflict-ne-done :
      (b : Bool) (e : Error) (v : c.World) {w' : c.World}
      → (if b then pure requeue_now else raise e) v ≡ (ok done, w')
      → ⊥
  conflict-ne-done true e v h = now-ne-done h
  conflict-ne-done false e v h = err-ne-ok h

  conclude-done :
      (failed in_sync : Bool) (r : Result NatsCluster) (v : c.World) {w' : c.World}
      → conclude c failed in_sync r v ≡ (ok done, w')
      → ((y : NatsCluster) × (r ≡ ok y)) × (failed ≡ false) × (in_sync ≡ true)
  unfolding conclude
  conclude-done false true (ok y) v h = ((y, refl), refl, refl)
  conclude-done false false (ok y) v h = absurd (soon-ne-done h)
  conclude-done true in_sync (ok y) v h = absurd (soon-ne-done h)
  conclude-done failed in_sync (err e) v h = absurd (conflict-ne-done (is_conflict e) e v h)
  conclude-done failed in_sync panic v h = absurd (panic-ne-ok h)

  pub finish-done :
      (cluster : NatsCluster) (accounts users : ℕ) (hash : Str) (failed in_sync : Bool)
      (w : c.World) {w' : c.World}
      → finish c cluster accounts users hash failed in_sync w ≡ (ok done, w')
      → ((y : NatsCluster) × Gave
            (c.update_cluster_status (new_status c cluster accounts users hash in_sync))
            y)
        × (failed ≡ false)
        × (in_sync ≡ true)
  unfolding finish
  finish-done cluster accounts users hash failed in_sync w h =
      let update = c.update_cluster_status (new_status c cluster accounts users hash in_sync) in
      let ((y, e), f, s) = conclude-done failed in_sync (update w).0 (update w).1 h in
      ((y, (w, (update w).1, λ i. (e i, (update w).1))), f, s)

  -- What is true of the pods when step 7 leaves all of them in sync: there is no workload, or the
  -- cluster's last hash is this one and the process has reloaded its pods before, or a pass of the reload
  -- found all of them in sync.
  pub data PodsSettled (p : PodRuntime c.World) (key : NamespacedName) (cluster : NatsCluster)
      (hash : Str) (reloaded_once : List NamespacedName) : Type 0 where
    no_workload : cluster.spec.server_ref ≡ none → PodsSettled p key cluster hash reloaded_once
    unchanged :
        cluster.status.last_config_hash ≡ hash
        → Mem key reloaded_once
        → PodsSettled p key cluster hash reloaded_once
    reloaded :
        (ref : WorkloadReference)
        → cluster.spec.server_ref ≡ some ref
        → Gave (reload_nats_pods c p cluster ref hash) true
        → PodsSettled p key cluster hash reloaded_once

  not_due :
      (p : PodRuntime c.World) (key : NamespacedName) (cluster : NatsCluster) (hash : Str)
      (reloaded_once : List NamespacedName)
      → needs_reload_attempt cluster hash (was_reloaded key reloaded_once) ≡ false
      → PodsSettled p key cluster hash reloaded_once
  unfolding needs_reload_attempt
  not_due p key cluster hash reloaded_once h = elim (Option-cases cluster.spec.server_ref) [
    | inl e ↦ PodsSettled.no_workload e
    | inr (ref, e) ↦
        let (same, known) =
          no_reason (str_eq hash cluster.status.last_config_hash) (was_reloaded key reloaded_once)
            (rw e at h) in
        PodsSettled.unchanged (sym ((str_eq_iff hash cluster.status.last_config_hash).0 same))
          (was_reloaded-Mem key reloaded_once known)
  ]

  module _ (p : PodRuntime c.World) where
    reload_cluster-ok :
        (cluster : NatsCluster) (hash : Str) (ref : Option WorkloadReference) (w : c.World)
        {b : Bool} {w' : c.World}
        → reload_cluster c p cluster hash ref w ≡ (ok b, w')
        → (r : WorkloadReference) × (ref ≡ some r) × Gave (reload_nats_pods c p cluster r hash) b
    unfolding reload_cluster
    reload_cluster-ok cluster hash none w h = absurd (panic-ne-ok h)
    reload_cluster-ok cluster hash (some r) w {w' = w'} h = (r, refl, (w, w', h))

    reload_pass-ok :
        (key : NamespacedName) (cluster : NatsCluster) (hash : Str) (q : Process c.World) {b : Bool}
        {q' : Process c.World}
        → reload_pass c p key cluster hash q ≡ (ok b, q')
        → (r : WorkloadReference) × (cluster.spec.server_ref ≡ some r)
          × Gave (reload_nats_pods c p cluster r hash) b
    unfolding reload_pass
    reload_pass-ok key cluster hash q {b} h =
        let pass = reload_cluster c p cluster hash cluster.spec.server_ref in
        let describe = λ (e : Error). codes "failed to reload NATS pods: " ++ message e in
        let (a, q1, h1, h2) =
          bind-ok (on_world c (reported c cluster describe pass))
            (λ in_sync. store_reloaded c key >> pure in_sync) q h in
        let (w, w', e) =
          reported-ok cluster describe pass
            (on_world-ok (reported c cluster describe pass) q h1).0 in
        reload_cluster-ok cluster hash cluster.spec.server_ref w
          (e ∙ ap (λ x. (ok x, w')) (ok-injective h2))

    pub sync_pods-ok :
        (key : NamespacedName) (cluster : NatsCluster) (hash : Str) (q : Process c.World)
        {q' : Process c.World}
        → sync_pods c p key cluster hash q ≡ (ok true, q')
        → PodsSettled p key cluster hash q.reloaded_once
    unfolding sync_pods
    sync_pods-ok key cluster hash q {q'} h =
        split (needs_reload_attempt cluster hash (was_reloaded key q.reloaded_once)) refl h
      where
        split :
            (b : Bool)
            → needs_reload_attempt cluster hash (was_reloaded key q.reloaded_once) ≡ b
            → (if b then reload_pass c p key cluster hash q else pure true q) ≡ (ok true, q')
            → PodsSettled p key cluster hash q.reloaded_once
        split false e h' = not_due p key cluster hash q.reloaded_once e
        split true e h' =
            let (ref, has, gave) = reload_pass-ok key cluster hash q h' in
            PodsSettled.reloaded ref has gave
