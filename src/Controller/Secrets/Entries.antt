-- ===== src/Controller/Secrets/Entries.antt =====
-- What the entries of a secret hold after `EnsureNKeySecret` has decided on the prefix, and that it
-- decides on nothing new for such entries.
use nats_operator_experiment.Common.{
  ℕ, Str, Bool, true, false, Option, none, some, [], ◌∷◌, ◌≡◌, ◌≢◌, refl, sym, ap, ◌∙◌, subst, ◌⊎◌,
  inl, inr, Map, put, arith, if◌then◌else◌,
}
use nats_operator_experiment.Common.Exec.{
  ok, pure, ◌>>=◌, bind-ok, ok-injective, panic-ne-ok, Result,
}
use nats_operator_experiment.Nkeys.{KeySource}
use nats_operator_experiment.Api.User.{NatsUserSpec}
use nats_operator_experiment.Controller.Client.{Client}
use nats_operator_experiment.Controller.Secrets.{
  PrefixDecision, entry_at, has_entry, delete_entry, inbox_prefix_key, nkey_public, share_existing,
  isolate_existing, store_prefix, resolve_inbox_prefix, decide_prefix, new_entries,
}
use nats_operator_experiment.Controller.Secrets.Outcome.{
  resolve-ne-nil, missing_entry, share_existing-nil,
}
use nats_operator_experiment.Controller.Secrets.Data.{
  Holds, deleted, public-deleted, public-put, prefix-put, first_entries, public-first_entries,
  no_prefix,
}

module _ (c : Client) (keys : KeySource c.World) where
  -- A decision keeps the key, its entries hold its prefix, and where it wants no update it has changed
  -- nothing.
  pub record Decided (shared : Bool) (entries : Option (Map Str)) (d : PrefixDecision)
      (w w' : c.World) : Type 0 where
    pub same_key : entry_at nkey_public d.entries ≡ entry_at nkey_public entries
    pub holds : Holds shared d.entries d.inbox_prefix
    pub wanted :
        (d.needs_update ≡ true) ⊎ ((d.needs_update ≡ false) × (d.entries ≡ entries) × (w' ≡ w))

  given :
      (shared : Bool) (entries : Option (Map Str)) (d d' : PrefixDecision) (w : c.World)
      {w' : c.World}
      → Decided shared entries d w w
      → ◌≡◌ {A = Result PrefixDecision × c.World} (ok d, w) (ok d', w')
      → Decided shared entries d' w w'
  given shared entries d d' w {w'} x e =
      subst (Decided shared entries d' w) (ap (λ (p : Result PrefixDecision × c.World). p.1) e)
        (subst (λ y. Decided shared entries y w w) (ok-injective e) x)

  share-Decided :
      (entries : Option (Map Str)) (w : c.World) → Decided true entries (share_existing entries) w w
  unfolding share_existing
  share-Decided entries w = split (has_entry inbox_prefix_key entries) refl
    where
      split :
          (b : Bool)
          → has_entry inbox_prefix_key entries ≡ b
          → Decided true entries
              (if b
                then record {
                  entries = delete_entry inbox_prefix_key entries;
                  inbox_prefix = [];
                  needs_update = true;
                }
                else record {
                  entries = entries;
                  inbox_prefix = entry_at inbox_prefix_key entries;
                  needs_update = false;
                })
              w
              w
      split true e = record {
        same_key = public-deleted entries;
        holds = (deleted entries, refl);
        wanted = inl refl;
      }
      split false e = record {
        same_key = refl;
        holds = (e, missing_entry c keys inbox_prefix_key entries e);
        wanted = inr (refl, refl, refl);
      }

  store-Decided :
      (entries : Option (Map Str)) (prefix : Str) (w v : c.World) {d : PrefixDecision}
      {w' : c.World}
      → prefix ≢ []
      → store_prefix c keys entries prefix v ≡ (ok d, w')
      → Decided false entries d w w'
  unfolding store_prefix
  store-Decided none prefix w v n h = absurd (panic-ne-ok h)
  store-Decided (some m) prefix w v {w' = w'} n h =
      subst (λ y. Decided false (some m) y w w') (ok-injective h)
        (record {
          same_key = public-put prefix m;
          holds = (prefix-put prefix m, n);
          wanted = inl refl;
        })

  isolate-Decided :
      (override : Option Str) (entries : Option (Map Str)) (stored : Str) (w : c.World)
      {d : PrefixDecision} {w' : c.World}
      → entry_at inbox_prefix_key entries ≡ stored
      → isolate_existing c keys override entries stored w ≡ (ok d, w')
      → Decided false entries d w w'
  unfolding isolate_existing
  isolate-Decided override entries [] w e h =
      let (prefix, v, h1, h2) = bind-ok (resolve_inbox_prefix c keys override) _ w h in
      store-Decided entries prefix w v ((resolve-ne-nil c keys override).at w v prefix h1) h2
  isolate-Decided override entries (x ∷ stored) w {d} e h =
      given false entries _ d w
        (record { same_key = refl; holds = (e, cc); wanted = inr (refl, refl, refl) }) h

  pub decide_prefix-Decided :
      (spec : NatsUserSpec) (entries : Option (Map Str)) (w : c.World) {d : PrefixDecision}
      {w' : c.World}
      → decide_prefix c keys spec entries w ≡ (ok d, w')
      → Decided spec.insecure_shared_inbox_prefix entries d w w'
  unfolding decide_prefix
  decide_prefix-Decided spec entries w {d} {w'} h = split spec.insecure_shared_inbox_prefix h
    where
      split :
          (b : Bool)
          → (if b
                then pure (share_existing entries)
                else isolate_existing c keys spec.inbox_prefix entries
                    (entry_at inbox_prefix_key entries))
              w
            ≡ (ok d, w')
          → Decided b entries d w w'
      split true h' = given true entries (share_existing entries) d w (share-Decided entries w) h'
      split false h' = isolate-Decided spec.inbox_prefix entries _ w refl h'

  -- For entries that hold a prefix, the decision is that prefix again, with no update.
  abbrev pub Unchanged : Str → PrefixDecision → Type 0
  Unchanged prefix d = (d.inbox_prefix ≡ prefix) × (d.needs_update ≡ false)

  share_existing-Unchanged :
      (entries : Option (Map Str))
      → has_entry inbox_prefix_key entries ≡ false
      → Unchanged [] (share_existing entries)
  share_existing-Unchanged entries h =
      (share_existing-nil c keys entries, unfold share_existing in ground arith)

  isolate_existing-Unchanged :
      (override : Option Str) (entries : Option (Map Str)) (x : ℕ) (p : Str) (w : c.World)
      {d : PrefixDecision} {w' : c.World}
      → isolate_existing c keys override entries (x ∷ p) w ≡ (ok d, w')
      → Unchanged (x ∷ p) d
  unfolding isolate_existing
  isolate_existing-Unchanged override entries x p w h =
      subst (Unchanged (x ∷ p)) (ok-injective h) (refl, refl)

  pub decide_prefix-Unchanged :
      (spec : NatsUserSpec) (entries : Option (Map Str)) (prefix : Str) (w : c.World)
      {d : PrefixDecision} {w' : c.World}
      → Holds spec.insecure_shared_inbox_prefix entries prefix
      → decide_prefix c keys spec entries w ≡ (ok d, w')
      → Unchanged prefix d
  unfolding decide_prefix
  decide_prefix-Unchanged spec entries prefix w {d} {w'} =
      split spec.insecure_shared_inbox_prefix prefix
    where
      split :
          (b : Bool) (p : Str)
          → Holds b entries p
          → (if b
                then pure (share_existing entries)
                else isolate_existing c keys spec.inbox_prefix entries
                    (entry_at inbox_prefix_key entries))
              w
            ≡ (ok d, w')
          → Unchanged p d
      split true p (no_entry, e) h =
          let (a, b) = share_existing-Unchanged entries no_entry in
          subst (Unchanged p) (ok-injective h) (a ∙ sym e, b)
      split false [] (e, n) h = absurd (n refl)
      split false (x ∷ p) (e, n) h =
          isolate_existing-Unchanged spec.inbox_prefix entries x p w
            (ap (λ (s : Str). isolate_existing c keys spec.inbox_prefix entries s w) (sym e) ∙ h)

  pub new_entries-Holds :
      (spec : NatsUserSpec) (public_key seed : Str) (w : c.World) {fresh : Map Str × Str}
      {w' : c.World}
      → new_entries c keys spec public_key seed w ≡ (ok fresh, w')
      → Holds spec.insecure_shared_inbox_prefix (some fresh.0) fresh.1
        × (entry_at nkey_public (some fresh.0) ≡ public_key)
  unfolding new_entries
  new_entries-Holds spec public_key seed w {fresh} {w'} h =
      split spec.insecure_shared_inbox_prefix h
    where
      base : Map Str
      base = first_entries public_key seed

      Fresh : Bool → Map Str × Str → Type 0
      Fresh b r = Holds b (some r.0) r.1 × (entry_at nkey_public (some r.0) ≡ public_key)

      split :
          (b : Bool)
          → (if b then pure (base, []) else (do
            prefix ← resolve_inbox_prefix c keys spec.inbox_prefix
            pure (put inbox_prefix_key prefix base, prefix)))
              w
            ≡ (ok fresh, w')
          → Fresh b fresh
      split true h' =
          subst (Fresh true) (ok-injective h')
            ((no_prefix public_key seed, refl), public-first_entries public_key seed)
      split false h' =
          let (prefix, v, h1, h2) =
            bind-ok (resolve_inbox_prefix c keys spec.inbox_prefix) _ w h' in
          subst (Fresh false) (ok-injective h2) (
            (prefix-put prefix base, (resolve-ne-nil c keys spec.inbox_prefix).at w v prefix h1),
            public-put prefix base ∙ public-first_entries public_key seed,
          )
