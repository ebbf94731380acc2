-- ===== src/Controller/Secrets/Outcome.antt =====
-- What `EnsureNKeySecret` returns and what it leaves in the cluster.
use nats_operator_experiment.Common.{
  Str, Bool, true, false, Option, none, some, [], ◌∷◌, ◌≡◌, ◌≢◌, refl, sym, ◌∙◌, arith, Map,
  Bool-cases, inl, inr,
}
use nats_operator_experiment.Common.Exec.{
  is_not_found, Result, ok, err, panic, Yields, Yields-pure, Yields-bind, attempt, Yields-then,
  Yields-raise, Yields-panic, panic-ne-ok,
}
use nats_operator_experiment.Nkeys.{KeySource, generate_inbox_prefix}
use nats_operator_experiment.Api.User.{NatsUser, NatsUserSpec}
use nats_operator_experiment.Controller.Client.{Client, Secret}
use nats_operator_experiment.Controller.Secrets.{
  resolve_inbox_prefix, store_prefix, decide_prefix, save_secret, save_status, use_existing_secret,
  new_entries, create_new_secret, use_found, ensure_nkey_secret, isolate_existing, share_existing,
  entry_at, has_entry, inbox_prefix_key, secret_key,
}

-- A prefix is returned exactly if the user does not share the inbox.
abbrev pub FitsIsolation : Bool → Str → Type 0
FitsIsolation true prefix = prefix ≡ []
FitsIsolation false prefix = prefix ≢ []

module _ (c : Client) (keys : KeySource c.World) where
  generate_inbox_prefix-ne-nil : Yields (λ p. p ≢ []) (generate_inbox_prefix keys)
  generate_inbox_prefix-ne-nil =
      unfold generate_inbox_prefix in Yields-then (keys.random_bytes 10) _ (λ b. Yields-pure _ (cc))

  pub resolve-ne-nil :
      (override : Option Str) → Yields (λ p. p ≢ []) (resolve_inbox_prefix c keys override)
  unfolding resolve_inbox_prefix
  resolve-ne-nil none = generate_inbox_prefix-ne-nil
  resolve-ne-nil (some []) = generate_inbox_prefix-ne-nil
  resolve-ne-nil (some (x ∷ prefix)) = Yields-pure (x ∷ prefix) (cc)

  store_prefix-eq :
      (entries : Option (Map Str)) (prefix : Str)
      → Yields (λ d. d.inbox_prefix ≡ prefix) (store_prefix c keys entries prefix)
  unfolding store_prefix
  store_prefix-eq none prefix = record { at = λ w w' d e. absurd (panic-ne-ok e) }
  store_prefix-eq (some m) prefix = Yields-pure _ refl

  pub missing_entry :
      (k : Str) (entries : Option (Map Str)) → has_entry k entries ≡ false → entry_at k entries ≡ []
  missing_entry k none h = refl
  missing_entry k (some m) h = ground arith

  pub share_existing-nil : (entries : Option (Map Str)) → (share_existing entries).inbox_prefix ≡ []
  unfolding share_existing
  share_existing-nil entries = ground (arith, missing_entry inbox_prefix_key entries)

  isolate_existing-ne-nil :
      (override : Option Str) (entries : Option (Map Str)) (stored : Str)
      → Yields (λ d. d.inbox_prefix ≢ []) (isolate_existing c keys override entries stored)
  unfolding isolate_existing
  isolate_existing-ne-nil override entries [] =
      Yields-bind (resolve_inbox_prefix c keys override) _ (resolve-ne-nil override)
        λ p h. record { at = λ w w' d e k. h (sym ((store_prefix-eq entries p).at w w' d e) ∙ k) }
  isolate_existing-ne-nil override entries (x ∷ stored) = Yields-pure _ (cc)

  decide_prefix-Fits :
      (spec : NatsUserSpec) (entries : Option (Map Str))
      → Yields
          (λ d. FitsIsolation spec.insecure_shared_inbox_prefix d.inbox_prefix)
          (decide_prefix c keys spec entries)
  unfolding decide_prefix
  decide_prefix-Fits spec entries = elim (Bool-cases spec.insecure_shared_inbox_prefix) [
    | inl e ↦ rw e (Yields-pure _ (share_existing-nil entries))
    | inr e ↦ rw e (isolate_existing-ne-nil spec.inbox_prefix entries _)
  ]

  new_entries-fits :
      (spec : NatsUserSpec) (public_key seed : Str)
      → Yields
          (λ r. FitsIsolation spec.insecure_shared_inbox_prefix r.1)
          (new_entries c keys spec public_key seed)
  unfolding new_entries
  new_entries-fits spec public_key seed = elim (Bool-cases spec.insecure_shared_inbox_prefix) [
    | inl e ↦ rw e (Yields-pure _ refl)
    | inr e ↦ rw e (
        Yields-bind (resolve_inbox_prefix c keys spec.inbox_prefix) _
          (resolve-ne-nil spec.inbox_prefix) (λ p h. Yields-pure _ h))
  ]

  abbrev pub Fits : NatsUser → Str × Str × NatsUser → Type 0
  Fits user r = FitsIsolation user.spec.insecure_shared_inbox_prefix r.1

  use_existing-Fits :
      (user : NatsUser) (secret : Secret)
      → Yields (Fits user) (use_existing_secret c keys user secret)
  unfolding use_existing_secret
  use_existing-Fits user secret =
      Yields-bind (decide_prefix c keys user.spec secret.entries) _
        (decide_prefix-Fits user.spec secret.entries)
        λ d h.
          Yields-then (save_secret c keys secret d) _
            λ _. Yields-then (save_status c keys user _) _ λ _. Yields-pure _ h

  create_new-Fits : (user : NatsUser) → Yields (Fits user) (create_new_secret c keys user)
  unfolding create_new_secret
  create_new-Fits user = Yields-then _ _ λ pair.
      Yields-bind (new_entries c keys user.spec pair.0 pair.1) _
        (new_entries-fits user.spec pair.0 pair.1)
        λ fresh h. Yields-then _ _ λ owned.
          Yields-then (c.create_secret owned) _
            λ _. Yields-then (c.update_user_status _) _ λ _. Yields-pure _ h

  use_found-Fits :
      (user : NatsUser) (found : Result Secret) → Yields (Fits user) (use_found c keys user found)
  unfolding use_found
  use_found-Fits user (ok secret) = use_existing-Fits user secret
  use_found-Fits user (err e) = elim (Bool-cases (is_not_found e)) [
    | inl n ↦ rw n (create_new-Fits user)
    | inr n ↦ rw n (Yields-raise e)
  ]
  use_found-Fits user panic = Yields-panic

  -- Whatever the cluster holds and whatever the calls answer: a prefix that is returned is empty if
  -- the user shares the inbox, and is not empty otherwise.
  pub ensure_nkey_secret-Fits :
      (user : NatsUser) → Yields (Fits user) (ensure_nkey_secret c keys user)
  unfolding ensure_nkey_secret
  ensure_nkey_secret-Fits user =
      Yields-then (attempt (c.get_secret (secret_key user))) _ (λ found. use_found-Fits user found)
