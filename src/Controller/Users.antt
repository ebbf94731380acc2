-- ===== src/Controller/Users.antt =====
-- The loop over the users of `reconcileAccountsAndUsers`, and `userReferencesAccount`, of
-- internal/controller/natscluster_controller.go. The users are shared by all accounts and mutated in
-- place, so the loop returns them.
pub mod Same
pub mod Admitted
use nats_operator_experiment.Common.{
  ℕ, Str, codes, newline, Bool, true, false, ◌&&◌, ◌||◌, not, Option, none, some, List, [], ◌∷◌,
  ◌++◌, str_eq, is_some, if◌then◌else◌,
}
use nats_operator_experiment.Common.Exec.{
  Error, message, Result, ok, err, panic, Exec, pure, raise, lift, ◌>>=◌, ◌>>◌, attempt,
}
use nats_operator_experiment.Nkeys.{KeySource}
use nats_operator_experiment.Api.User.{NatsUser}
use nats_operator_experiment.Api.Account.{NatsAccount}
use nats_operator_experiment.Api.Cluster.{
  NatsCluster, reason_reconciled, reason_namespace_not_allowed, reason_namespace_fetch_error,
}
use nats_operator_experiment.Config.Quote.{quote}
use nats_operator_experiment.Config.Convert.{UserWithPublicKey}
use nats_operator_experiment.Controller.Client.{Client}
use nats_operator_experiment.Controller.Rules.{Regexp, evaluate}
use nats_operator_experiment.Controller.Secrets.{ensure_nkey_secret}
use nats_operator_experiment.Controller.Conditions.{
  Operator, build_debug_command, condition_true, condition_false, set_user_condition,
}

-- `accountNs`: the user's own namespace where the reference names none
unfoldable pub account_namespace_of : NatsUser → Str
account_namespace_of user =
    if str_eq user.spec.account_ref.namespace []
    then user.namespace
    else user.spec.account_ref.namespace

unfoldable pub user_references_account : NatsUser → NatsAccount → Bool
user_references_account user acct =
    str_eq user.spec.account_ref.name acct.name && str_eq (account_namespace_of user) acct.namespace

unfoldable pub user_debug_command : Operator → NatsCluster → NatsUser → Str → Str
user_debug_command op cluster user public_key =
    if is_some cluster.spec.server_ref
    then build_debug_command op (
        codes "/nats-debug user-connections \\"
        ++ newline
          ∷ (codes "  --cluster "
              ++ (cluster.name
                  ++ (codes " --namespace "
                      ++ (cluster.namespace ++ (codes " --nkey " ++ public_key))))))
    else user.status.debug_command

-- the fields of the status that the controller sets before the condition
unfoldable pub with_connection_status :
    Operator → NatsCluster → NatsAccount → Str → Str → NatsUser → NatsUser
with_connection_status op cluster acct system_account_name public_key user = record user {
  status = record user.status {
    debug_command = user_debug_command op cluster user public_key;
    connection_urls = cluster.spec.external_urls;
    is_system_account = not (str_eq system_account_name []) && str_eq acct.name system_account_name;
  };
}

-- One user after a round: as it now is, its entry if it has one, and whether an update failed.
pub record UserRound : Type 0 where
  pub user : NatsUser
  pub entry : Option UserWithPublicKey
  pub update_failed : Bool

-- What the loop over the users collects.
pub record UsersPass : Type 0 where
  pub users : List NatsUser
  pub entries : List UserWithPublicKey
  pub update_failed : Bool

abbrev pub no_entry : NatsUser × Bool → UserRound
no_entry (user, failed) = record { user = user; entry = none; update_failed = failed }

module _ (wide : ℕ → Bool) (re : Regexp) (c : Client) (keys : KeySource c.World)
    (op : Operator) where
  -- access granted: the secret, the status, the condition and the entry
  unfoldable pub admit_user : NatsCluster → NatsAccount → Str → NatsUser → Exec c.World UserRound
  admit_user cluster acct system_account_name user = do
    ensured ← ensure_nkey_secret c keys user
    let ready = with_connection_status op cluster acct system_account_name ensured.0 ensured.2
    updated ←
        set_user_condition c ready condition_true reason_reconciled
          (codes "User reconciled successfully")
    pure (record {
      user = updated.0;
      entry = some (record { user = updated.0; public_key = ensured.0; inbox_prefix = ensured.1 });
      update_failed = updated.1;
    })

  -- access refused, with the reason and the message of the condition
  unfoldable pub refuse_user : NatsUser → Str → Str → Exec c.World UserRound
  refuse_user user reason text = do
    updated ← set_user_condition c user condition_false reason text
    pure (no_entry updated)

  -- on the verdict of the rules
  unfoldable pub judge_user :
      NatsCluster → NatsAccount → Str → NatsUser → Result Bool → Exec c.World UserRound
  judge_user cluster acct system_account_name user (ok true) =
      admit_user cluster acct system_account_name user
  judge_user cluster acct system_account_name user (ok false) =
      refuse_user user reason_namespace_not_allowed (
        codes "namespace "
        ++ (quote wide user.namespace
            ++ (codes " not allowed by account " ++ (quote wide acct.name ++ codes " userRules"))))
  judge_user cluster acct system_account_name user (err e) =
      refuse_user user reason_namespace_fetch_error (
        codes "error evaluating user rules for namespace "
        ++ (quote wide user.namespace ++ (codes ": " ++ message e)))
  judge_user cluster acct system_account_name user panic = lift panic

  -- one round of the loop over the users
  unfoldable pub reconcile_user :
      NatsCluster → NatsAccount → Str → NatsUser → Exec c.World UserRound
  reconcile_user cluster acct system_account_name user =
      if user_references_account user acct
      then (do
        verdict ←
            attempt
              (evaluate wide re c.get_namespace acct.spec.user_rules user.namespace acct.namespace)
        judge_user cluster acct system_account_name user verdict)
      else pure (no_entry (user, false))

  unfoldable pub add_round : UserRound → UsersPass → UsersPass
  add_round round pass = record {
    users = round.user ∷ pass.users;
    entries = elim round.entry [ none ↦ pass.entries | some e ↦ e ∷ pass.entries ];
    update_failed = round.update_failed || pass.update_failed;
  }

  unfoldable pub reconcile_users :
      NatsCluster → NatsAccount → Str → List NatsUser → Exec c.World UsersPass
  reconcile_users cluster acct system_account_name [] =
      pure (record { users = []; entries = []; update_failed = false })
  reconcile_users cluster acct system_account_name (user ∷ rest) = do
    round ← reconcile_user cluster acct system_account_name user
    pass ← reconcile_users cluster acct system_account_name rest
    pure (add_round round pass)
