-- ===== src/Controller/Panics/Secrets.antt =====
-- `EnsureNKeySecret` does not panic.
use nats_operator_experiment.Common.{Str, Option, none, some, [], ◌∷◌, Map, ◌≡◌, ◌≢◌, refl, ap, ◌∙◌}
use nats_operator_experiment.Common.Exec.{is_not_found, Result, ok, err, panic}
use nats_operator_experiment.Common.Panics.{
  NoPanic, NoPanic-pure, NoPanic-raise, NoPanic-lift, NoPanic-if, NoPanic-wrapped, NoPanic-bind,
  NoPanic-attempt,
}
use nats_operator_experiment.Nkeys.{KeySource, generate_user_nkey, generate_inbox_prefix}
use nats_operator_experiment.Api.User.{NatsUser, NatsUserSpec}
use nats_operator_experiment.Controller.Client.{Client, Secret}
use nats_operator_experiment.Controller.Secrets.{
  entry_at, inbox_prefix_key, PrefixDecision, status_is_current, resolve_inbox_prefix, store_prefix,
  isolate_existing, decide_prefix, save_secret, save_status, use_existing_secret, new_entries,
  create_new_secret, use_found, ensure_nkey_secret, secret_key,
}
use nats_operator_experiment.Controller.Panics.{IsCalmClient, IsCalmKeys}

module _ (c : Client) (calm : IsCalmClient c) (keys : KeySource c.World)
    (calm_keys : IsCalmKeys keys) where
  generate_inbox_prefix-NoPanic : NoPanic (generate_inbox_prefix keys)
  unfolding generate_inbox_prefix
  generate_inbox_prefix-NoPanic = NoPanic-bind _ _ (calm_keys.random_bytes 10) (λ b. NoPanic-pure _)

  generate_user_nkey-NoPanic : NoPanic (generate_user_nkey keys)
  unfolding generate_user_nkey
  generate_user_nkey-NoPanic = NoPanic-bind _ _ calm_keys.create_user λ kp.
      NoPanic-bind _ _ (NoPanic-lift (keys.public_key kp) (calm_keys.public_key kp)) λ public.
        NoPanic-bind _ _ (NoPanic-lift (keys.seed kp) (calm_keys.seed kp)) λ secret. NoPanic-pure _

  resolve-NoPanic : (override : Option Str) → NoPanic (resolve_inbox_prefix c keys override)
  unfolding resolve_inbox_prefix
  resolve-NoPanic none = generate_inbox_prefix-NoPanic
  resolve-NoPanic (some []) = generate_inbox_prefix-NoPanic
  resolve-NoPanic (some (x ∷ prefix)) = NoPanic-pure _

  store_prefix-NoPanic :
      (entries : Option (Map Str)) (prefix : Str)
      → entries ≢ none
      → NoPanic (store_prefix c keys entries prefix)
  unfolding store_prefix
  store_prefix-NoPanic none prefix h = absurd (h refl)
  store_prefix-NoPanic (some m) prefix h = NoPanic-pure _

  isolate-NoPanic :
      (override : Option Str) (entries : Option (Map Str)) (stored : Str)
      → entries ≢ none
      → NoPanic (isolate_existing c keys override entries stored)
  unfolding isolate_existing
  isolate-NoPanic override entries [] h =
      NoPanic-bind _ _ (resolve-NoPanic override) λ prefix. store_prefix-NoPanic entries prefix h
  isolate-NoPanic override entries (x ∷ stored) h = NoPanic-pure _

  decide_prefix-NoPanic :
      (spec : NatsUserSpec) (entries : Option (Map Str))
      → entries ≢ none
      → NoPanic (decide_prefix c keys spec entries)
  unfolding decide_prefix
  decide_prefix-NoPanic spec entries h =
      NoPanic-if spec.insecure_shared_inbox_prefix _ _ (NoPanic-pure _)
        (isolate-NoPanic spec.inbox_prefix entries (entry_at inbox_prefix_key entries) h)

  save_secret-NoPanic :
      (secret : Secret) (d : PrefixDecision) → NoPanic (save_secret c keys secret d)
  unfolding save_secret
  save_secret-NoPanic secret d =
      NoPanic-if d.needs_update _ _ (calm.update_secret _) (NoPanic-pure _)

  save_status-NoPanic : (user : NatsUser) (key : Str) → NoPanic (save_status c keys user key)
  unfolding save_status
  save_status-NoPanic user key =
      NoPanic-if (status_is_current user key) _ _ (NoPanic-pure _) (calm.update_user_status _)

  use_existing-NoPanic :
      (user : NatsUser) (secret : Secret)
      → secret.entries ≢ none
      → NoPanic (use_existing_secret c keys user secret)
  unfolding use_existing_secret
  use_existing-NoPanic user secret h =
      NoPanic-bind _ _ (decide_prefix-NoPanic user.spec secret.entries h) λ d.
        NoPanic-bind _ _ (save_secret-NoPanic secret d)
          λ u. NoPanic-bind _ _ (save_status-NoPanic user _) λ user'. NoPanic-pure _

  new_entries-NoPanic :
      (spec : NatsUserSpec) (key seed : Str) → NoPanic (new_entries c keys spec key seed)
  unfolding new_entries
  new_entries-NoPanic spec key seed =
      NoPanic-if spec.insecure_shared_inbox_prefix _ _ (NoPanic-pure _)
        (NoPanic-bind _ _ (resolve-NoPanic spec.inbox_prefix) λ prefix. NoPanic-pure _)

  create_new-NoPanic : (user : NatsUser) → NoPanic (create_new_secret c keys user)
  unfolding create_new_secret
  create_new-NoPanic user =
      NoPanic-bind _ _ (NoPanic-wrapped _ _ generate_user_nkey-NoPanic) λ pair.
        NoPanic-bind _ _ (new_entries-NoPanic user.spec pair.0 pair.1) λ fresh.
          NoPanic-bind _ _ (NoPanic-lift _ (calm.set_owner_reference user _)) λ owned.
            NoPanic-bind _ _ (calm.create_secret owned)
              λ u. NoPanic-bind _ _ (calm.update_user_status _) λ user'. NoPanic-pure _

  use_found-NoPanic :
      (user : NatsUser) (r : Result Secret)
      → r ≢ panic
      → ((s : Secret) → r ≡ ok s → s.entries ≢ none)
      → NoPanic (use_found c keys user r)
  unfolding use_found
  use_found-NoPanic user (ok secret) h full = use_existing-NoPanic user secret (full secret refl)
  use_found-NoPanic user (err e) h full =
      NoPanic-if (is_not_found e) _ _ (create_new-NoPanic user) (NoPanic-raise e)
  use_found-NoPanic user panic h full = absurd (h refl)

  pub ensure_nkey_secret-NoPanic : (user : NatsUser) → NoPanic (ensure_nkey_secret c keys user)
  unfolding ensure_nkey_secret
  ensure_nkey_secret-NoPanic user =
      NoPanic-attempt _ _ (calm.get_secret (secret_key user)) λ r w w' e h.
        use_found-NoPanic user r h
          (λ s k. calm.has_map (secret_key user) w w' s (e ∙ ap (λ x. (x, w')) k))
