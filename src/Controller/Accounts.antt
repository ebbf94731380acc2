-- ===== src/Controller/Accounts.antt =====
-- `listMatchingAccounts`, `listAllUsers` and `reconcileAccountsAndUsers` of
-- internal/controller/natscluster_controller.go. `sort.Slice` by name is insertion sort, which Go
-- uses on short slices; it keeps the order of equal names.
pub mod Coherent
use nats_operator_experiment.Common.{
  ℕ, ◌+◌, Str, codes, newline, Bool, true, false, ◌||◌, Option, none, some, List, [], ◌∷◌, ◌++◌,
  str_eq, str_le, sort_by, is_some, length, select, if◌then◌else◌,
}
use nats_operator_experiment.Common.Exec.{
  Error, message, Result, ok, err, panic, Exec, pure, raise, lift, ◌>>=◌, ◌>>◌, attempt,
}
use nats_operator_experiment.Nkeys.{KeySource}
use nats_operator_experiment.Api.User.{NatsUser}
use nats_operator_experiment.Api.Account.{NatsAccount}
use nats_operator_experiment.Api.Cluster.{NatsCluster, reason_reconciled, reason_invalid_regex}
use nats_operator_experiment.Config.Convert.{UserWithPublicKey, AccountWithUsers}
use nats_operator_experiment.Controller.Client.{Client}
use nats_operator_experiment.Controller.Rules.{Regexp, validate_regex_rules}
use nats_operator_experiment.Controller.Conditions.{
  Operator, build_debug_command, condition_true, condition_false, set_account_condition,
}
use nats_operator_experiment.Controller.Users.{UsersPass, reconcile_users}

abbrev pub account_le : NatsAccount → NatsAccount → Bool
account_le a b = str_le a.name b.name

abbrev pub entry_le : UserWithPublicKey → UserWithPublicKey → Bool
entry_le a b = str_le a.user.name b.user.name

abbrev pub belongs_to : NatsCluster → NatsAccount → Bool
belongs_to cluster acct = str_eq acct.spec.cluster_ref.name cluster.name

unfoldable pub list_matching_accounts : (c : Client) → NatsCluster → Exec c.World (List NatsAccount)
list_matching_accounts c cluster = do
  items ← c.list_accounts cluster.namespace
  pure (sort_by account_le (select (belongs_to cluster) items))

unfoldable pub list_all_users : (c : Client) → Exec c.World (List NatsUser)
list_all_users c = c.list_users

unfoldable pub flagged_names : List NatsAccount → List Str
flagged_names [] = []
flagged_names (a ∷ rest) =
    if a.spec.system_account then a.name ∷ flagged_names rest else flagged_names rest

-- `if len(systemFlagged) == 1 { … }`
unfoldable pub only_name : List Str → Str
only_name [] = []
only_name (name ∷ []) = name
only_name (a ∷ b ∷ rest) = []

unfoldable pub account_debug_command : Operator → NatsCluster → NatsAccount → Str
account_debug_command op cluster acct =
    if is_some cluster.spec.server_ref
    then build_debug_command op (
        codes "/nats-debug account-connections \\"
        ++ newline
          ∷ (codes "  --cluster "
              ++ (cluster.name
                  ++ (codes " --namespace "
                      ++ (cluster.namespace ++ (codes " --account " ++ acct.name))))))
    else acct.status.debug_command

-- One account after a round: as it now is, the users as they now are, its entry if it has one.
pub record AccountRound : Type 0 where
  pub account : NatsAccount
  pub users : List NatsUser
  pub entry : Option AccountWithUsers
  pub update_failed : Bool

-- What `reconcileAccountsAndUsers` returns, with the accounts that it mutated.
pub record AccountsPass : Type 0 where
  pub accounts : List NatsAccount
  pub accounts_with_users : List AccountWithUsers
  pub total_users : ℕ
  pub status_update_failed : Bool

module _ (wide : ℕ → Bool) (re : Regexp) (c : Client) (keys : KeySource c.World)
    (op : Operator) where
  -- the rest of a round, for an account whose expressions compile
  unfoldable pub reconcile_valid_account :
      NatsCluster → Str → NatsAccount → List NatsUser → Exec c.World AccountRound
  reconcile_valid_account cluster system_account_name acct all_users = do
    pass ← reconcile_users wide re c keys op cluster acct system_account_name all_users
    let sorted = sort_by entry_le pass.entries
    let counted = record acct {
      status = record acct.status {
        user_count = length sorted;
        debug_command = account_debug_command op cluster acct;
      };
    }
    updated ←
        set_account_condition c counted condition_true reason_reconciled
          (codes "Account reconciled successfully")
    pure (record {
      account = updated.0;
      users = pass.users;
      entry = some (record { account = updated.0; users = sorted });
      update_failed = pass.update_failed || updated.1;
    })

  -- an account with an expression that does not compile is marked and left out
  unfoldable pub reject_account : NatsAccount → List NatsUser → Error → Exec c.World AccountRound
  reject_account acct all_users e = do
    updated ← set_account_condition c acct condition_false reason_invalid_regex (message e)
    pure
        (record { account = updated.0; users = all_users; entry = none; update_failed = updated.1 })

  unfoldable pub judge_account :
      NatsCluster
      → Str
      → NatsAccount
      → List NatsUser
      → Result (Unit {0})
      → Exec c.World AccountRound
  judge_account cluster system_account_name acct all_users (ok _) =
      reconcile_valid_account cluster system_account_name acct all_users
  judge_account cluster system_account_name acct all_users (err e) = reject_account acct all_users e
  judge_account cluster system_account_name acct all_users panic = lift panic

  unfoldable pub add_account : AccountRound → AccountsPass → AccountsPass
  add_account round pass =
      let later = record pass {
        accounts = round.account ∷ pass.accounts;
        status_update_failed = round.update_failed || pass.status_update_failed;
      } in
      elim round.entry [
        | none ↦ later
        | some awu ↦ record later {
          accounts_with_users = awu ∷ pass.accounts_with_users;
          total_users = length awu.users + pass.total_users;
        }
      ]

  -- the loop over the accounts
  unfoldable pub reconcile_accounts :
      NatsCluster → Str → List NatsAccount → List NatsUser → Exec c.World AccountsPass
  reconcile_accounts cluster system_account_name [] all_users = pure (record {
    accounts = [];
    accounts_with_users = [];
    total_users = 0;
    status_update_failed = false;
  })
  reconcile_accounts cluster system_account_name (acct ∷ rest) all_users = do
    round ←
        judge_account cluster system_account_name acct all_users
          (validate_regex_rules wide re acct.spec.user_rules)
    pass ← reconcile_accounts cluster system_account_name rest round.users
    pure (add_account round pass)

  unfoldable pub reconcile_accounts_and_users :
      NatsCluster → List NatsAccount → List NatsUser → Exec c.World AccountsPass
  reconcile_accounts_and_users cluster accounts all_users =
      reconcile_accounts cluster (only_name (flagged_names accounts)) accounts all_users
