-- ===== src/Controller/Secrets.antt =====
-- internal/controller/nkey_secret_manager.go. The function mutates the user that it is given, so
-- the user is returned beside the key and the prefix.
pub mod Outcome
pub mod Data
pub mod Entries
pub mod Store
pub mod Stable
use nats_operator_experiment.Common.{
  Str, codes, str_eq, Bool, true, false, not, ◌&&◌, ◌||◌, Option, none, some, List, [], ◌∷◌, ◌++◌,
  Map, find, put, remove, if◌then◌else◌, is_some,
}
use nats_operator_experiment.Common.Exec.{
  Error, wrap, is_not_found, Result, ok, err, panic, Exec, pure, raise, lift, ◌>>=◌, ◌>>◌, attempt,
  wrapped,
}
use nats_operator_experiment.Nkeys.{KeySource, generate_user_nkey, generate_inbox_prefix}
use nats_operator_experiment.Api.User.{NatsUser, NatsUserSpec, SecretReference}
use nats_operator_experiment.Controller.Client.{Client, NamespacedName, Secret}

abbrev pub nkey_seed : Str
nkey_seed = codes "nkey-seed"

abbrev pub nkey_public : Str
nkey_public = codes "nkey-public"

abbrev pub inbox_prefix_key : Str
inbox_prefix_key = codes "inbox-prefix"

abbrev pub secret_name : NatsUser → Str
secret_name user = user.name ++ codes "-nats-nkey"

abbrev pub secret_key : NatsUser → NamespacedName
secret_key user = record { name = secret_name user; namespace = user.namespace }

-- `string(secret.Data[k])`, the empty string where the map is nil or the key is missing
abbrev pub entry_at : Str → Option (Map Str) → Str
entry_at k none = []
entry_at k (some m) = elim (find k m) [ none ↦ [] | some v ↦ v ]

abbrev pub has_entry : Str → Option (Map Str) → Bool
has_entry k none = false
has_entry k (some m) = is_some (find k m)

-- `delete(secret.Data, k)`
abbrev pub delete_entry : Str → Option (Map Str) → Option (Map Str)
delete_entry k none = none
delete_entry k (some m) = some (remove k m)

-- What the first half of `EnsureNKeySecret` finds out of an existing secret.
pub record PrefixDecision : Type 0 where
  pub entries : Option (Map Str)
  pub inbox_prefix : Str
  pub needs_update : Bool

-- isolation switched off: a prefix that is there is removed
unfoldable pub share_existing : Option (Map Str) → PrefixDecision
share_existing entries =
    if has_entry inbox_prefix_key entries
    then record {
      entries = delete_entry inbox_prefix_key entries;
      inbox_prefix = [];
      needs_update = true;
    }
    else record {
      entries = entries;
      inbox_prefix = entry_at inbox_prefix_key entries;
      needs_update = false;
    }

-- the status is written if the key or the reference differs
unfoldable pub status_is_current : NatsUser → Str → Bool
status_is_current user public_key =
    str_eq user.status.nkey_public_key public_key
    && (elim user.status.secret_ref [ none ↦ false | some r ↦ str_eq r.name (secret_name user) ])

abbrev pub with_key_status : NatsUser → Str → NatsUser
with_key_status user public_key = record user {
  status = record user.status {
    nkey_public_key = public_key;
    secret_ref = some (record { name = secret_name user });
  };
}

module _ (c : Client) (keys : KeySource c.World) where
  unfoldable pub resolve_inbox_prefix : Option Str → Exec c.World Str
  resolve_inbox_prefix none = generate_inbox_prefix keys
  resolve_inbox_prefix (some []) = generate_inbox_prefix keys
  resolve_inbox_prefix (some (x ∷ prefix)) = pure (x ∷ prefix)

  -- `secret.Data["inbox-prefix"] = …`, which panics on a nil map
  unfoldable pub store_prefix : Option (Map Str) → Str → Exec c.World PrefixDecision
  store_prefix none prefix = lift panic
  store_prefix (some m) prefix = pure (record {
    entries = some (put inbox_prefix_key prefix m);
    inbox_prefix = prefix;
    needs_update = true;
  })

  -- isolation wanted: a missing prefix is added now
  unfoldable pub isolate_existing :
      Option Str → Option (Map Str) → Str → Exec c.World PrefixDecision
  isolate_existing override entries [] = do
    prefix ← resolve_inbox_prefix override
    store_prefix entries prefix
  isolate_existing override entries (x ∷ stored) =
      pure (record { entries = entries; inbox_prefix = x ∷ stored; needs_update = false })

  unfoldable pub decide_prefix : NatsUserSpec → Option (Map Str) → Exec c.World PrefixDecision
  decide_prefix spec entries =
      if spec.insecure_shared_inbox_prefix
      then pure (share_existing entries)
      else isolate_existing spec.inbox_prefix entries (entry_at inbox_prefix_key entries)

  -- `if needsUpdate { m.Update }`
  unfoldable pub save_secret : Secret → PrefixDecision → Exec c.World (Unit {0})
  save_secret secret d =
      if d.needs_update then c.update_secret (record secret { entries = d.entries }) else pure tt

  unfoldable pub save_status : NatsUser → Str → Exec c.World NatsUser
  save_status user public_key =
      if status_is_current user public_key
      then pure user
      else c.update_user_status (with_key_status user public_key)

  unfoldable pub use_existing_secret : NatsUser → Secret → Exec c.World (Str × Str × NatsUser)
  use_existing_secret user secret = do
    let public_key = entry_at nkey_public secret.entries
    d ← decide_prefix user.spec secret.entries
    save_secret secret d
    user' ← save_status user public_key
    pure (public_key, d.inbox_prefix, user')

  -- the entries of a new secret, and its prefix
  unfoldable pub new_entries : NatsUserSpec → Str → Str → Exec c.World (Map Str × Str)
  new_entries spec public_key seed =
      let base = put nkey_public public_key (put nkey_seed seed []) in
      if spec.insecure_shared_inbox_prefix then pure (base, []) else do
        prefix ← resolve_inbox_prefix spec.inbox_prefix
        pure (put inbox_prefix_key prefix base, prefix)

  unfoldable pub create_new_secret : NatsUser → Exec c.World (Str × Str × NatsUser)
  create_new_secret user = do
    pair ← wrapped (codes "generating nkey") (generate_user_nkey keys)
    fresh ← new_entries user.spec pair.0 pair.1
    owned ←
        lift (c.set_owner_reference user (record { key = secret_key user; entries = some fresh.0 }))
    c.create_secret owned
    user' ← c.update_user_status (with_key_status user pair.0)
    pure (pair.0, fresh.1, user')

  -- on the result of reading the secret
  unfoldable pub use_found : NatsUser → Result Secret → Exec c.World (Str × Str × NatsUser)
  use_found user (ok secret) = use_existing_secret user secret
  use_found user (err e) = if is_not_found e then create_new_secret user else raise e
  use_found user panic = lift panic

  unfoldable pub ensure_nkey_secret : NatsUser → Exec c.World (Str × Str × NatsUser)
  ensure_nkey_secret user = do
    found ← attempt (c.get_secret (secret_key user))
    use_found user found
