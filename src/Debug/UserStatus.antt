-- ===== src/Debug/UserStatus.antt =====
-- `checkNatsUserStatus` of cmd/nats-debug/main.go.
use nats_operator_experiment.Common.{
  Str, codes, Bool, true, false, Option, none, some, List, [], ◌∷◌, str_eq, if◌then◌else◌,
}
use nats_operator_experiment.Common.Int.{ℤ}
use nats_operator_experiment.Common.Decimal.{format_int}
use nats_operator_experiment.Common.Exec.{
  Result, ok, err, panic, message, Exec, pure, lift, ◌>>=◌, ◌>>◌, attempt,
}
use nats_operator_experiment.Common.Console.{Console, println, quietly}
use nats_operator_experiment.Api.Meta.{Condition}
use nats_operator_experiment.Api.User.{NatsUser, SecretReference}
use nats_operator_experiment.Api.Account.{NatsAccount, AccountLimits}
use nats_operator_experiment.Api.Cluster.{condition_ready}
use nats_operator_experiment.Controller.Client.{Client, Secret}
use nats_operator_experiment.Controller.Secrets.{entry_at}

-- the loop that breaks at the first user with the key in its status
unfoldable pub user_with_nkey : Str → List NatsUser → Option NatsUser
user_with_nkey nkey [] = none
user_with_nkey nkey (u ∷ users) =
    if str_eq u.status.nkey_public_key nkey then some u else user_with_nkey nkey users

-- the loop that breaks at the condition Ready
unfoldable pub ready_condition : List Condition → Option Condition
ready_condition [] = none
ready_condition (c ∷ rest) = if str_eq c.type condition_ready then some c else ready_condition rest

-- `acct.Spec.Limits` and its field, each of which may be nil
abbrev pub max_connections_of : Option AccountLimits → Option ℤ
max_connections_of none = none
max_connections_of (some limits) = limits.max_connections

module _ {W : Type 0} where
  unfoldable pub print_ready : Option Condition → Exec (Console W) (Unit {0})
  print_ready none = pure tt
  print_ready (some c) =
      if str_eq c.status (codes "True")
      then println (codes "  Ready:    True (" ∷ c.message ∷ codes ")" ∷ [])
      else println (
          codes "  [!] Ready: "
          ∷ c.status
          ∷ codes " | Reason: "
          ∷ c.reason
          ∷ codes " | "
          ∷ c.message
          ∷ [])

  unfoldable pub print_stored_key : Str → Str → Str → Str → Exec (Console W) (Unit {0})
  print_stored_key nkey namespace secret_name stored_pub_key =
      if str_eq stored_pub_key nkey
      then println (
          codes "  Secret:   "
          ∷ namespace
          ∷ codes "/"
          ∷ secret_name
          ∷ codes " (nkey-public matches)"
          ∷ [])
      else (do
        println (
            codes "  [!] NKey MISMATCH: Secret has "
            ∷ stored_pub_key
            ∷ codes ", expected "
            ∷ nkey
            ∷ [])
        println (
            codes
              "      The secret was likely regenerated. Restart the client to pick up the new seed."
            ∷ []))

  -- on what the read of the secret gave
  unfoldable pub print_secret : Str → Str → Str → Result Secret → Exec (Console W) (Unit {0})
  print_secret nkey namespace secret_name (err e) =
      println (codes "  [!] Secret " ∷ secret_name ∷ codes " not found: " ∷ message e ∷ [])
  print_secret nkey namespace secret_name (ok secret) =
      print_stored_key nkey namespace secret_name (entry_at (codes "nkey-public") secret.entries)
  print_secret nkey namespace secret_name panic = lift panic

  unfoldable pub print_max_connections : Option ℤ → Exec (Console W) (Unit {0})
  print_max_connections none = pure tt
  print_max_connections (some max_conn) = do
    println (
        codes "  Account limit: maxConnections="
        ∷ format_int max_conn
        ∷ codes " (check account-connections to see current count)"
        ∷ [])
    println []

  unfoldable pub print_account_limit : Result NatsAccount → Exec (Console W) (Unit {0})
  print_account_limit (err e) = pure tt
  print_account_limit (ok account) = print_max_connections (max_connections_of account.spec.limits)
  print_account_limit panic = lift panic

module _ (c : Client) where
  unfoldable pub check_secret :
      Str → Str → Option SecretReference → Exec (Console c.World) (Unit {0})
  check_secret nkey namespace none = pure tt
  check_secret nkey namespace (some ref) = do
    r ← attempt (quietly (c.get_secret (record { name = ref.name; namespace = namespace })))
    print_secret nkey namespace ref.name r

  -- the namespace of the reference is taken as it is
  unfoldable pub check_account_limits : NatsUser → Bool → Exec (Console c.World) (Unit {0})
  check_account_limits user false = pure tt
  check_account_limits user true = do
    r ← attempt (
        quietly (
          c.get_account (record {
            name = user.spec.account_ref.name;
            namespace = user.spec.account_ref.namespace;
          })))
    print_account_limit r

  -- on the user that was found
  unfoldable pub check_user : Str → Bool → Option NatsUser → Exec (Console c.World) (Unit {0})
  check_user nkey nkey_in_config none = do
    println (codes "  [!] No NatsUser found with NKey " ∷ nkey ∷ [])
    println (codes "      The user CR may have been deleted or not yet reconciled." ∷ [])
    println []
  check_user nkey nkey_in_config (some user) = do
    println (codes "  NatsUser: " ∷ user.namespace ∷ codes "/" ∷ user.name ∷ [])
    println (
        codes "  Account:  "
        ∷ user.spec.account_ref.namespace
        ∷ codes "/"
        ∷ user.spec.account_ref.name
        ∷ [])
    print_ready (ready_condition user.status.conditions)
    check_secret nkey user.namespace user.status.secret_ref
    println []
    check_account_limits user nkey_in_config

  -- on the list of users
  unfoldable pub check_users :
      Str → Bool → Result (List NatsUser) → Exec (Console c.World) (Unit {0})
  check_users nkey nkey_in_config (err e) = do
    println (codes "  [?] Could not list NatsUsers: " ∷ message e ∷ [])
    println []
  check_users nkey nkey_in_config (ok users) =
      check_user nkey nkey_in_config (user_with_nkey nkey users)
  check_users nkey nkey_in_config panic = lift panic

  unfoldable pub check_nats_user_status : Str → Bool → Exec (Console c.World) (Unit {0})
  check_nats_user_status nkey nkey_in_config = do
    r ← attempt (quietly c.list_users)
    check_users nkey nkey_in_config r
