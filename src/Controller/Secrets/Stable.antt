-- ===== src/Controller/Secrets/Stable.antt =====
-- `EnsureNKeySecret` on the same user, one time after another.
use nats_operator_experiment.Common.{
  Str, Bool, true, false, Option, some, ◌≡◌, refl, sym, ap, ◌∙◌, subst, ◌⊎◌, inl, inr, ◌++◌, codes,
  Map, if◌then◌else◌,
}
use nats_operator_experiment.Common.Exec.{
  Error, is_not_found, Result, ok, err, panic, raise, lift, bind-ok, ok-injective, err-ne-ok,
  panic-ne-ok, wrapped,
}
use nats_operator_experiment.Nkeys.{KeySource, generate_user_nkey}
use nats_operator_experiment.Api.Meta.{ObjectMeta}
use nats_operator_experiment.Api.User.{NatsUser}
use nats_operator_experiment.Controller.Client.{Client, NamespacedName, Secret}
use nats_operator_experiment.Controller.Secrets.{
  PrefixDecision, entry_at, nkey_public, secret_key, with_key_status, new_entries,
  create_new_secret, use_found, ensure_nkey_secret,
}
use nats_operator_experiment.Controller.Secrets.Data.{Holds}
use nats_operator_experiment.Controller.Secrets.Entries.{
  decide_prefix-Decided, decide_prefix-Unchanged, new_entries-Holds,
}
use nats_operator_experiment.Controller.Secrets.Store.{SecretStore, Used, use_existing-Used}

module _ (c : Client) (keys : KeySource c.World) (store : SecretStore c) where
  open store use {stored, read, not_missed, updated, created, status_apart, owned}

  -- The secret of the user is there, and holds the key and the prefix.
  pub record Leaves (user : NatsUser) (w : c.World) (public_key prefix : Str) : Type 0 where
    pub secret : Secret
    pub is_stored : stored w (secret_key user) ≡ some secret
    pub key : entry_at nkey_public secret.entries ≡ public_key
    pub holds : Holds user.spec.insecure_shared_inbox_prefix secret.entries prefix

  use_existing-Leaves :
      (user : NatsUser) (secret : Secret) (w w' : c.World) {r : Str × Str × NatsUser}
      → Used c keys store user secret w w' r
      → Leaves user w' r.0 r.1
  use_existing-Leaves user secret w w' {r} used =
      let x = decide_prefix-Decided c keys user.spec secret.entries w used.decided in
      record {
        secret = record secret { entries = used.decision.entries };
        is_stored = used.left;
        key = x.same_key ∙ sym used.same_key;
        holds =
            subst (Holds user.spec.insecure_shared_inbox_prefix used.decision.entries)
              (sym used.same_prefix) x.holds;
      }

  create_new-Leaves :
      (user : NatsUser) (w : c.World) {r : Str × Str × NatsUser} {w' : c.World}
      → create_new_secret c keys user w ≡ (ok r, w')
      → Leaves user w' r.0 r.1
  unfolding create_new_secret
  create_new-Leaves user w {r} {w'} h =
      let k = secret_key user in
      let make = wrapped (codes "generating nkey") (generate_user_nkey keys) in
      let (pair, v1, h1, k1) = bind-ok make _ w h in
      let (fresh, v2, h2, k2) = bind-ok (new_entries c keys user.spec pair.0 pair.1) _ v1 k1 in
      let own = c.set_owner_reference user (record { key = k; entries = some fresh.0 }) in
      let (owned_secret, v3, h3, k3) = bind-ok (lift {W = c.World} own) _ v2 k2 in
      let (u, v4, h4, k4) = bind-ok (c.create_secret owned_secret) _ v3 k3 in
      let (user', v5, h5, h6) =
        bind-ok (c.update_user_status (with_key_status user pair.0)) _ v4 k4 in
      let (same_key, same_entries) =
        owned user _ owned_secret (ap (λ (p : Result Secret × c.World). p.0) h3) in
      let (holds, public) = new_entries-Holds c keys user.spec pair.0 pair.1 v1 h2 in
      record {
        secret = owned_secret;
        is_stored =
            ap (λ (p : Result (Str × Str × NatsUser) × c.World). stored p.1 k) (sym h6)
            ∙ status_apart (with_key_status user pair.0) user' k v4 v5 h5
            ∙ ap (stored v4) (sym same_key)
            ∙ created owned_secret v3 v4 h4;
        key =
            ap (entry_at nkey_public) same_entries
            ∙ public
            ∙ (ap (λ (t : Str × Str × NatsUser). t.0) (ok-injective h6));
        holds =
            subst (λ (m : Option (Map Str)). Holds user.spec.insecure_shared_inbox_prefix m r.1)
              (sym same_entries)
              (subst (Holds user.spec.insecure_shared_inbox_prefix (some fresh.0))
                (ap (λ (t : Str × Str × NatsUser). t.1) (ok-injective h6)) holds);
      }

  create_or_fail-Leaves :
      (user : NatsUser) (e : Error) (b : Bool) (w : c.World) {r : Str × Str × NatsUser}
      {w' : c.World}
      → (if b then create_new_secret c keys user else raise e) w ≡ (ok r, w')
      → (b ≡ true) × Leaves user w' r.0 r.1
  create_or_fail-Leaves user e true w h = (refl, create_new-Leaves user w h)
  create_or_fail-Leaves user e false w h = absurd (err-ne-ok h)

  ensure-Leaves :
      (user : NatsUser) (w : c.World) {r : Str × Str × NatsUser} {w' : c.World}
      → ensure_nkey_secret c keys user w ≡ (ok r, w')
      → Leaves user w' r.0 r.1
  unfolding ensure_nkey_secret use_found
  ensure-Leaves user w {r} {w'} h =
      split (c.get_secret (secret_key user) w).0 (c.get_secret (secret_key user) w).1 refl h
    where
      split :
          (found : Result Secret) (v : c.World)
          → c.get_secret (secret_key user) w ≡ (found, v)
          → use_found c keys user found v ≡ (ok r, w')
          → Leaves user w' r.0 r.1
      split (ok secret) v g h' =
          let (e, before, after) = read (secret_key user) w v secret g in
          use_existing-Leaves user secret v w'
            (use_existing-Used c keys store user secret v e after h')
      split (err x) v g h' = (create_or_fail-Leaves user x (is_not_found x) v h').1
      split panic v g h' = absurd (panic-ne-ok h')

  -- A call for a user whose secret holds a key and a prefix returns these, and leaves the secret.
  abbrev Repeats : NamespacedName → c.World → c.World → Str → Str → Str × Str × NatsUser → Type 0
  Repeats k v v' public_key prefix r =
      (r.0 ≡ public_key) × (r.1 ≡ prefix) × (stored v' k ≡ stored v k)

  Used-Repeats :
      (user : NatsUser) (secret : Secret) (v v1 v' : c.World) (public_key prefix : Str)
      {r : Str × Str × NatsUser}
      → stored v (secret_key user) ≡ some secret
      → entry_at nkey_public secret.entries ≡ public_key
      → Holds user.spec.insecure_shared_inbox_prefix secret.entries prefix
      → Used c keys store user secret v1 v' r
      → Repeats (secret_key user) v v' public_key prefix r
  Used-Repeats user secret v v1 v' public_key prefix there key holds used =
      let x = decide_prefix-Decided c keys user.spec secret.entries v1 used.decided in
      let (same, none_wanted) =
        decide_prefix-Unchanged c keys user.spec secret.entries prefix v1 holds used.decided in
      (
        used.same_key ∙ key,
        used.same_prefix ∙ same,
        used.left
            ∙ ap (λ (m : Option (Map Str)). some (record secret { entries = m }))
                (kept used.decision used.after x.wanted none_wanted)
            ∙ sym there,
      )
    where
      kept :
          (d : PrefixDecision) (p : c.World)
          → (d.needs_update ≡ true)
            ⊎ ((d.needs_update ≡ false) × (d.entries ≡ secret.entries) × (p ≡ v1))
          → d.needs_update ≡ false
          → d.entries ≡ secret.entries
      kept d p (inl a) b = absurd (cc)
      kept d p (inr (a, e, q)) b = e

  ensure-Repeats :
      (user : NatsUser) (v : c.World) (public_key prefix : Str) {r : Str × Str × NatsUser}
      {v' : c.World}
      → Leaves user v public_key prefix
      → ensure_nkey_secret c keys user v ≡ (ok r, v')
      → Repeats (secret_key user) v v' public_key prefix r
  unfolding ensure_nkey_secret use_found
  ensure-Repeats user v public_key prefix {r} {v'} l h =
      split (c.get_secret (secret_key user) v).0 (c.get_secret (secret_key user) v).1 refl h
    where
      split :
          (found : Result Secret) (v1 : c.World)
          → c.get_secret (secret_key user) v ≡ (found, v1)
          → use_found c keys user found v1 ≡ (ok r, v')
          → Repeats (secret_key user) v v' public_key prefix r
      split (ok secret) v1 g h' =
          let (e, before, after) = read (secret_key user) v v1 secret g in
          let same : l.secret ≡ secret = cc (sym l.is_stored ∙ before) in
          Used-Repeats user secret v v1 v' public_key prefix before
            (ap (λ (s : Secret). entry_at nkey_public s.entries) (sym same) ∙ l.key)
            (subst (λ (s : Secret). Holds user.spec.insecure_shared_inbox_prefix s.entries prefix)
              same l.holds)
            (use_existing-Used c keys store user secret v1 e after h')
      split (err x) v1 g h' =
          let (missing, _) = create_or_fail-Leaves user x (is_not_found x) v1 h' in
          absurd (cc (missing, not_missed (secret_key user) v v1 l.secret x l.is_stored g))
      split panic v1 g h' = absurd (panic-ne-ok h')

  -- For an API server that reads back the secrets that were written last: when a call for a user has
  -- succeeded, and a later one succeeds for the same name, namespace and spec and finds the user's secret
  -- as the first has left it, then the later call returns the same key and the same prefix, and the
  -- secret is still the same. So a user keeps the key and the inbox from one reconciliation to the next,
  -- whether the first call created the secret, completed it or found it.
  pub ensure_nkey_secret-Repeats :
      (user user' : NatsUser) (w w' v v' : c.World) (r r' : Str × Str × NatsUser)
      → user'.meta ≡ user.meta
      → user'.spec ≡ user.spec
      → ensure_nkey_secret c keys user w ≡ (ok r, w')
      → stored v (secret_key user) ≡ stored w' (secret_key user)
      → ensure_nkey_secret c keys user' v ≡ (ok r', v')
      → (r'.0 ≡ r.0) × (r'.1 ≡ r.1) × (stored v' (secret_key user) ≡ stored w' (secret_key user))
  ensure_nkey_secret-Repeats user user' w w' v v' r r' e f h same h' =
      let l = ensure-Leaves user w h in
      let k : secret_key user' ≡ secret_key user = ap key_of e in
      let (a, b, unchanged) =
        ensure-Repeats user' v r.0 r.1
          (record {
            secret = l.secret;
            is_stored = ap (stored v) k ∙ same ∙ l.is_stored;
            key = l.key;
            holds =
                subst (λ s. Holds s.insecure_shared_inbox_prefix l.secret.entries r.1) (sym f)
                  l.holds;
          })
          h' in
      (a, b, ap (stored v') (sym k) ∙ unchanged ∙ ap (stored v) k ∙ same)
    where
      key_of : ObjectMeta → NamespacedName
      key_of m = record { name = m.name ++ codes "-nats-nkey"; namespace = m.namespace }
