-- ===== src/Examples/Secrets.antt =====
-- The theorem about two calls of `EnsureNKeySecret`, applied to a store that is a list of secrets.
use nats_operator_experiment.Common.{
  Str, codes, str_eq, str_eq_iff, str_eq_refl, find, put, Bool, true, false, ◌&&◌, Option, none,
  some, List, [], ◌∷◌, ◌≡◌, refl, sym, ap, ◌∙◌, if◌then◌else◌,
}
use nats_operator_experiment.Common.Exec.{
  Error, api, is_not_found, Result, ok, err, Exec, pure, wrapped, wrap_result,
}
use nats_operator_experiment.Nkeys.{
  KeySource, generate_user_nkey, generate_inbox_prefix, base32_encode,
}
use nats_operator_experiment.Api.User.{NatsUser}
use nats_operator_experiment.Controller.Client.{Client, NamespacedName, Secret}
use nats_operator_experiment.Controller.Secrets.{
  status_is_current, resolve_inbox_prefix, isolate_existing, decide_prefix, save_secret,
  save_status, use_existing_secret, new_entries, create_new_secret, use_found, ensure_nkey_secret,
  secret_key, with_key_status,
}
use nats_operator_experiment.Controller.Secrets.Store.{SecretStore}
use nats_operator_experiment.Controller.Secrets.Stable.{ensure_nkey_secret-Repeats}
use nats_operator_experiment.Examples.Data.{user, cluster, account, pod}

abbrev World : Type 0
World = List Secret

same_name : NamespacedName → NamespacedName → Bool
same_name j k = str_eq j.name k.name && str_eq j.namespace k.namespace

same_name-eq : (j k : NamespacedName) → same_name j k ≡ true → j ≡ k
unfolding same_name
same_name-eq j k h = λ i. record {
  name = (str_eq_iff j.name k.name).0 (first (str_eq j.name k.name) _ h) i;
  namespace = (str_eq_iff j.namespace k.namespace).0 (second (str_eq j.name k.name) _ h) i;
}
  where
    first : (a b : Bool) → (a && b) ≡ true → a ≡ true
    first true b e = refl
    first false b e = e

    second : (a b : Bool) → (a && b) ≡ true → b ≡ true
    second true b e = e
    second false b e = absurd (cc e)

same_name_refl : (k : NamespacedName) → same_name k k ≡ true
unfolding same_name
same_name_refl k = rw (str_eq_refl k.name, str_eq_refl k.namespace) refl

lookup : NamespacedName → World → Option Secret
lookup k [] = none
lookup k (s ∷ w) = if same_name s.key k then some s else lookup k w

lookup-key : (k : NamespacedName) (w : World) (s : Secret) → lookup k w ≡ some s → s.key ≡ k
unfolding lookup
lookup-key k [] s h = absurd (cc h)
lookup-key k (x ∷ w) s h = split (same_name x.key k) refl (lookup-key k w s) h
  where
    split :
        (b : Bool)
        → same_name x.key k ≡ b
        → (lookup k w ≡ some s → s.key ≡ k)
        → (if b then some x else lookup k w) ≡ some s
        → s.key ≡ k
    split true e later h' =
        let f : x ≡ s = cc h' in ap (λ (t : Secret). t.key) (sym f) ∙ same_name-eq x.key k e
    split false e later h' = later h'

lookup_self : (s : Secret) (w : World) → lookup s.key (s ∷ w) ≡ some s
unfolding lookup
lookup_self s w = ap (λ (b : Bool). if b then some s else lookup s.key w) (same_name_refl s.key)

abbrev missing : Error
missing = api (record { not_found = true; conflict = false; text = codes "not found" })

abbrev answer : Option Secret → Exec World Secret
answer none w = (err missing, w)
answer (some s) w = (ok s, w)

abbrev store_api : Client
store_api = record {
  World = World;
  LabelSelector = Unit {0};
  Selector = Unit {0};
  get_cluster = λ k. pure cluster;
  list_accounts = λ n. pure (account ∷ []);
  list_users = pure (user ∷ []);
  get_account = λ k. pure account;
  list_clusters = λ n. pure (cluster ∷ []);
  get_namespace = λ n. pure [];
  get_secret = λ k w. answer (lookup k w) w;
  update_secret = λ s w. (ok tt, s ∷ w);
  create_secret = λ s w. (ok tt, s ∷ w);
  update_user_status = λ u. pure u;
  update_account_status = λ a. pure a;
  update_cluster_status = λ x. pure x;
  create_or_update_config_map = λ k d x. pure (codes "created");
  get_config_map = λ k. pure [];
  get_deployment = λ k. pure tt;
  get_stateful_set = λ k. pure tt;
  label_selector_as_selector = λ l. ok tt;
  list_pods = λ n s. pure (pod ∷ []);
  set_owner_reference = λ u s. ok s;
  set_status_condition = λ cs c. c ∷ [];
}

answer-ok :
    (o : Option Secret) (w w' : World) (s : Secret)
    → answer o w ≡ (ok s, w')
    → (o ≡ some s) × (w' ≡ w)
answer-ok none w w' s h = absurd (cc (ap (λ (p : Result Secret × World). p.0) h))
answer-ok (some x) w w' s h = (
  cc (ap (λ (p : Result Secret × World). p.0) h),
  ap (λ (p : Result Secret × World). p.1) (sym h),
)

answer-err :
    (o : Option Secret) (w w' : World) (s : Secret) (e : Error)
    → o ≡ some s
    → answer o w ≡ (err e, w')
    → is_not_found e ≡ false
answer-err none w w' s e k h = absurd (cc k)
answer-err (some x) w w' s e k h = absurd (cc (ap (λ (p : Result Secret × World). p.0) h))

written :
    (s : Secret) (w w' : World)
    → ◌≡◌ {A = Result (Unit {0}) × World} (ok tt, s ∷ w) (ok tt, w')
    → lookup s.key w' ≡ some s
written s w w' h =
    ap (λ (p : Result (Unit {0}) × World). lookup s.key p.1) (sym h) ∙ lookup_self s w

store : SecretStore store_api
store = record {
  stored = λ w k. lookup k w;
  read = λ k w w' s h.
      let (e, f) = answer-ok (lookup k w) w w' s h in (lookup-key k w s e, e, ap (lookup k) f ∙ e);
  not_missed = λ k w w' s e h g. answer-err (lookup k w) w w' s e h g;
  updated = λ s w w' h. written s w w' h;
  created = λ s w w' h. written s w w' h;
  status_apart = λ u u' k w w' h. ap (λ (p : Result NatsUser × World). lookup k p.1) (sym h);
  owned = λ u s s' h.
      let e : s ≡ s' = cc h in
      (ap (λ (t : Secret). t.key) (sym e), ap (λ (t : Secret). t.entries) (sym e));
}

abbrev keys : KeySource World
keys = record {
  KeyPair = Unit {0};
  create_user = pure tt;
  public_key = λ k. ok (codes "UALICE");
  seed = λ k. ok (codes "SUALICE");
  random_bytes = λ n. pure [];
}

abbrev returned : Str × Str × NatsUser
returned = (codes "UALICE", codes "_I_", with_key_status user (codes "UALICE"))

abbrev created_secret : Secret
created_secret = record {
  key = secret_key user;
  entries = some (
      (codes "nkey-seed", codes "SUALICE")
      ∷ (codes "nkey-public", codes "UALICE")
      ∷ (codes "inbox-prefix", codes "_I_")
      ∷ []);
}

first_run : ensure_nkey_secret store_api keys user [] ≡ (ok returned, created_secret ∷ [])
unfolding ensure_nkey_secret use_found create_new_secret new_entries resolve_inbox_prefix
    generate_user_nkey generate_inbox_prefix base32_encode wrapped wrap_result is_not_found find put
    str_eq lookup same_name
first_run = refl

second_run :
    ensure_nkey_secret store_api keys returned.2 (created_secret ∷ [])
    ≡ (ok returned, created_secret ∷ [])
unfolding ensure_nkey_secret use_found use_existing_secret decide_prefix isolate_existing
    save_secret save_status status_is_current find put str_eq lookup same_name
second_run = refl

ensure_nkey_secret-Repeats_example :
    (returned.0 ≡ returned.0)
    × (returned.1 ≡ returned.1)
    × (store.stored (created_secret ∷ []) (secret_key user)
        ≡ store.stored (created_secret ∷ []) (secret_key user))
ensure_nkey_secret-Repeats_example =
    ensure_nkey_secret-Repeats store_api keys store user returned.2 [] (created_secret ∷ [])
      (created_secret ∷ []) (created_secret ∷ []) returned returned refl refl first_run refl
      second_run
