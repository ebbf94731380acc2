-- ===== src/Controller/Secrets/Store.antt =====
-- A store of secrets, and what a run of `EnsureNKeySecret` on a secret of it returns and leaves.
use nats_operator_experiment.Common.{
  Str, Bool, true, false, Option, some, ◌≡◌, sym, ap, ◌∙◌, ◌⊎◌, inl, inr, Map, if◌then◌else◌,
}
use nats_operator_experiment.Common.Exec.{
  Error, is_not_found, Result, ok, err, pure, bind-ok, ok-injective,
}
use nats_operator_experiment.Nkeys.{KeySource}
use nats_operator_experiment.Api.User.{NatsUser}
use nats_operator_experiment.Controller.Client.{Client, NamespacedName, Secret}
use nats_operator_experiment.Controller.Secrets.{
  PrefixDecision, entry_at, nkey_public, secret_key, status_is_current, with_key_status,
  decide_prefix, save_secret, save_status, use_existing_secret,
}
use nats_operator_experiment.Controller.Secrets.Entries.{Decided, decide_prefix-Decided}

-- The secrets as the program sees them, through a cache that is up to date: a read gives what was written last and does not miss it, an update of
-- a user's status leaves secrets alone, and an owner reference changes no data.
pub record SecretStore (c : Client) : Type 0 where
  pub stored : c.World → NamespacedName → Option Secret
  pub read :
      (k : NamespacedName) (w w' : c.World) (s : Secret)
      → c.get_secret k w ≡ (ok s, w')
      → (s.key ≡ k) × (stored w k ≡ some s) × (stored w' k ≡ some s)
  pub not_missed :
      (k : NamespacedName) (w w' : c.World) (s : Secret) (e : Error)
      → stored w k ≡ some s
      → c.get_secret k w ≡ (err e, w')
      → is_not_found e ≡ false
  pub updated :
      (s : Secret) (w w' : c.World) → c.update_secret s w ≡ (ok tt, w') → stored w' s.key ≡ some s
  pub created :
      (s : Secret) (w w' : c.World) → c.create_secret s w ≡ (ok tt, w') → stored w' s.key ≡ some s
  pub status_apart :
      (user user' : NatsUser) (k : NamespacedName) (w w' : c.World)
      → c.update_user_status user w ≡ (ok user', w')
      → stored w' k ≡ stored w k
  pub owned :
      (user : NatsUser) (s s' : Secret)
      → c.set_owner_reference user s ≡ ok s'
      → (s'.key ≡ s.key) × (s'.entries ≡ s.entries)

module _ (c : Client) (keys : KeySource c.World) (store : SecretStore c) where
  open store use {stored, read, not_missed, updated, created, status_apart, owned}

  save_status-apart :
      (user : NatsUser) (public_key : Str) (k : NamespacedName) (w : c.World) {u : NatsUser}
      {w' : c.World}
      → save_status c keys user public_key w ≡ (ok u, w')
      → stored w' k ≡ stored w k
  unfolding save_status
  save_status-apart user public_key k w {u} {w'} h = split (status_is_current user public_key) h
    where
      split :
          (b : Bool)
          → (if b then pure user else c.update_user_status (with_key_status user public_key)) w
            ≡ (ok u, w')
          → stored w' k ≡ stored w k
      split true h' = ap (λ (x : Result NatsUser × c.World). stored x.1 k) (sym h')
      split false h' = status_apart (with_key_status user public_key) u k w w' h'

  -- what `save_secret` does, by what was decided
  saved :
      (secret : Secret) (d : PrefixDecision) (b : Bool) (w w' : c.World)
      → d.needs_update ≡ b
      → save_secret c keys secret d w ≡ (ok tt, w')
      → (if b then c.update_secret (record secret { entries = d.entries }) else pure tt) w
        ≡ (ok tt, w')
  unfolding save_secret
  saved secret d b w w' e h =
      ap
        (λ (x : Bool).
          (if x then c.update_secret (record secret { entries = d.entries }) else pure tt) w)
        (sym e)
      ∙ h

  save_secret-stored :
      (shared : Bool) (secret : Secret) (d : PrefixDecision) (k : NamespacedName) (w v w' : c.World)
      → secret.key ≡ k
      → stored w k ≡ some secret
      → Decided c keys shared secret.entries d w v
      → save_secret c keys secret d v ≡ (ok tt, w')
      → stored w' k ≡ some (record secret { entries = d.entries })
  save_secret-stored shared secret d k w v w' e s x h = split x.wanted
    where
      split :
          (d.needs_update ≡ true)
            ⊎ ((d.needs_update ≡ false) × (d.entries ≡ secret.entries) × (v ≡ w))
          → stored w' k ≡ some (record secret { entries = d.entries })
      split (inl n) =
          ap (stored w') (sym e)
          ∙ updated (record secret { entries = d.entries }) v w' (saved secret d true v w' n h)
      split (inr (n, same, at)) =
          ap (λ (x : Result (Unit {0}) × c.World). stored x.1 k)
            (sym (saved secret d false v w' n h))
          ∙ ap (λ y. stored y k) at
          ∙ s
          ∙ ap (λ (m : Option (Map Str)). some (record secret { entries = m })) (sym same)

  -- What a run on a secret has decided, returned and left.
  pub record Used (user : NatsUser) (secret : Secret) (w w' : c.World) (r : Str × Str × NatsUser)
      : Type 0 where
    pub decision : PrefixDecision
    pub after : c.World
    pub decided : decide_prefix c keys user.spec secret.entries w ≡ (ok decision, after)
    pub same_key : r.0 ≡ entry_at nkey_public secret.entries
    pub same_prefix : r.1 ≡ decision.inbox_prefix
    pub left : stored w' (secret_key user) ≡ some (record secret { entries = decision.entries })

  pub use_existing-Used :
      (user : NatsUser) (secret : Secret) (w : c.World) {r : Str × Str × NatsUser} {w' : c.World}
      → secret.key ≡ secret_key user
      → stored w (secret_key user) ≡ some secret
      → use_existing_secret c keys user secret w ≡ (ok r, w')
      → Used user secret w w' r
  unfolding use_existing_secret
  use_existing-Used user secret w {r} {w'} e s h =
      let public_key = entry_at nkey_public secret.entries in
      let k = secret_key user in
      let (d, v, h1, h2) = bind-ok (decide_prefix c keys user.spec secret.entries) _ w h in
      let (u, v', h3, h4) = bind-ok (save_secret c keys secret d) _ v h2 in
      let (user', v'', h5, h6) = bind-ok (save_status c keys user public_key) _ v' h4 in
      let x = decide_prefix-Decided c keys user.spec secret.entries w h1 in
      record {
        decision = d;
        after = v;
        decided = h1;
        same_key = ap (λ (t : Str × Str × NatsUser). t.0) (ok-injective (sym h6));
        same_prefix = ap (λ (t : Str × Str × NatsUser). t.1) (ok-injective (sym h6));
        left =
            ap (λ (p : Result (Str × Str × NatsUser) × c.World). stored p.1 k) (sym h6)
            ∙ save_status-apart user public_key k v' h5
            ∙ save_secret-stored user.spec.insecure_shared_inbox_prefix secret d k w v v' e s x h3;
      }
