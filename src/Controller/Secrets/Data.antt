-- ===== src/Controller/Secrets/Data.antt =====
-- What lookups in the data of a secret find after the writes of `EnsureNKeySecret`.
use nats_operator_experiment.Common.{
  Str, str_eq, str_eq_refl, Bool, true, false, Option, none, some, [], ◌≡◌, ◌≢◌, refl, Map, find,
  put, find-put, find-put_self, find-remove,
}
use nats_operator_experiment.Controller.Secrets.{
  entry_at, has_entry, delete_entry, inbox_prefix_key, nkey_public, nkey_seed,
}

-- The entries hold the prefix: none where the inbox is shared, and otherwise that one, not empty.
abbrev pub Holds : Bool → Option (Map Str) → Str → Type 0
Holds true entries prefix = (has_entry inbox_prefix_key entries ≡ false) × (prefix ≡ [])
Holds false entries prefix = (entry_at inbox_prefix_key entries ≡ prefix) × (prefix ≢ [])

pub deleted :
    (entries : Option (Map Str))
    → has_entry inbox_prefix_key (delete_entry inbox_prefix_key entries) ≡ false
deleted none = refl
deleted (some m) = simp (find-remove, str_eq_refl)

pub public-deleted :
    (entries : Option (Map Str))
    → entry_at nkey_public (delete_entry inbox_prefix_key entries) ≡ entry_at nkey_public entries
unfolding str_eq
public-deleted none = refl
public-deleted (some m) = rw (find-remove inbox_prefix_key nkey_public m, entry_at) refl

pub public-put :
    (prefix : Str) (m : Map Str)
    → entry_at nkey_public (some (put inbox_prefix_key prefix m)) ≡ entry_at nkey_public (some m)
unfolding str_eq
public-put prefix m = rw (find-put inbox_prefix_key nkey_public prefix m, entry_at) refl

pub prefix-put :
    (prefix : Str) (m : Map Str)
    → entry_at inbox_prefix_key (some (put inbox_prefix_key prefix m)) ≡ prefix
prefix-put prefix m = rw (find-put_self inbox_prefix_key prefix m, entry_at) refl

-- the entries of a new secret, before the prefix
abbrev pub first_entries : Str → Str → Map Str
first_entries public_key seed = put nkey_public public_key (put nkey_seed seed [])

pub public-first_entries :
    (public_key seed : Str)
    → entry_at nkey_public (some (first_entries public_key seed)) ≡ public_key
unfolding find put str_eq
public-first_entries public_key seed = refl

pub no_prefix :
    (public_key seed : Str)
    → has_entry inbox_prefix_key (some (first_entries public_key seed)) ≡ false
unfolding find put str_eq
no_prefix public_key seed = refl
