-- ===== src/Controller/Users/Same.antt =====
-- What the controller leaves of a user whose secret and status it brings up to date: all but the
-- status, if the API server keeps it.
use nats_operator_experiment.Common.{Str, ◌≡◌, refl, Bool-cases, inl, inr}
use nats_operator_experiment.Common.Exec.{
  is_not_found, Result, ok, err, panic, Yields, Yields-pure, Yields-bind, Yields-then, Yields-raise,
  Yields-panic, Yields-attempt, attempt,
}
use nats_operator_experiment.Nkeys.{KeySource}
use nats_operator_experiment.Api.User.{NatsUser}
use nats_operator_experiment.Controller.Client.{Client, Secret}
use nats_operator_experiment.Controller.Conditions.{
  or_kept, ready_condition, with_user_condition, set_user_condition,
}
use nats_operator_experiment.Controller.Secrets.{
  status_is_current, with_key_status, decide_prefix, save_secret, save_status, use_existing_secret,
  new_entries, create_new_secret, use_found, ensure_nkey_secret, secret_key,
}

-- The second user is the first but for its status.
abbrev pub SameBut : NatsUser → NatsUser → Type 0
SameBut user user' = (user'.meta ≡ user.meta) × (user'.spec ≡ user.spec)

-- What the API server documents of an update of the status: it changes nothing else of the object.
abbrev pub KeepsUsers : Client → Type 0
KeepsUsers c = (user : NatsUser) → Yields (SameBut user) (c.update_user_status user)

module _ (c : Client) (keys : KeySource c.World) (keeps : KeepsUsers c) where
  save_status-SameBut :
      (user : NatsUser) (key : Str) → Yields (SameBut user) (save_status c keys user key)
  unfolding save_status
  save_status-SameBut user key = elim (Bool-cases (status_is_current user key)) [
    | inl e ↦ rw e (Yields-pure user (refl, refl))
    | inr e ↦ rw e (keeps (with_key_status user key))
  ]

  abbrev SameUser : NatsUser → Str × Str × NatsUser → Type 0
  SameUser user r = SameBut user r.2

  use_existing-SameBut :
      (user : NatsUser) (secret : Secret)
      → Yields (SameUser user) (use_existing_secret c keys user secret)
  unfolding use_existing_secret
  use_existing-SameBut user secret =
      Yields-then (decide_prefix c keys user.spec secret.entries) _ λ d.
        Yields-then (save_secret c keys secret d) _ λ _.
          Yields-bind (save_status c keys user _) _ (save_status-SameBut user _)
            λ user' same. Yields-pure _ same

  create_new-SameBut : (user : NatsUser) → Yields (SameUser user) (create_new_secret c keys user)
  unfolding create_new_secret
  create_new-SameBut user = Yields-then _ _ λ pair.
      Yields-then (new_entries c keys user.spec pair.0 pair.1) _ λ fresh. Yields-then _ _ λ owned.
        Yields-then (c.create_secret owned) _
          λ _. Yields-bind (c.update_user_status _) _ (keeps _) λ user' same. Yields-pure _ same

  use_found-SameBut :
      (user : NatsUser) (found : Result Secret)
      → Yields (SameUser user) (use_found c keys user found)
  unfolding use_found
  use_found-SameBut user (ok secret) = use_existing-SameBut user secret
  use_found-SameBut user (err e) = elim (Bool-cases (is_not_found e)) [
    | inl n ↦ rw n (create_new-SameBut user)
    | inr n ↦ rw n (Yields-raise e)
  ]
  use_found-SameBut user panic = Yields-panic

  pub ensure-SameBut : (user : NatsUser) → Yields (SameUser user) (ensure_nkey_secret c keys user)
  unfolding ensure_nkey_secret
  ensure-SameBut user =
      Yields-then (attempt (c.get_secret (secret_key user))) _
        (λ found. use_found-SameBut user found)

  pub set_user_condition-SameBut :
      (user : NatsUser) (status reason text : Str)
      → Yields (λ r. SameBut user r.0) (set_user_condition c user status reason text)
  unfolding set_user_condition
  set_user_condition-SameBut user status reason text =
      let changed =
        with_user_condition c user (ready_condition status reason text user.generation) in
      Yields-attempt (c.update_user_status changed) (or_kept changed)
        λ r w w' e. answered changed r w w' e
    where
      answered :
          (changed : NatsUser) (r : Result NatsUser) (w w' : c.World)
          → c.update_user_status changed w ≡ (r, w')
          → Yields (λ x. SameBut changed x.0) (or_kept {W = c.World} changed r)
      answered changed (ok b) w w' e = Yields-pure _ ((keeps changed).at w w' b e)
      answered changed (err x) w w' e = Yields-pure _ (refl, refl)
      answered changed panic w w' e = Yields-panic
