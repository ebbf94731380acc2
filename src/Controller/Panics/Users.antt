-- ===== src/Controller/Panics/Users.antt =====
-- The passes over the accounts and their users do not panic.
use nats_operator_experiment.Common.{ℕ, Str, Bool, true, false, List, [], ◌∷◌, ◌≢◌, refl}
use nats_operator_experiment.Common.Exec.{Result, ok, err, panic}
use nats_operator_experiment.Common.Panics.{
  NoPanic, NoPanic-pure, NoPanic-if, NoPanic-bind, NoPanic-attempt,
}
use nats_operator_experiment.Nkeys.{KeySource}
use nats_operator_experiment.Api.User.{NatsUser}
use nats_operator_experiment.Api.Account.{NatsAccount}
use nats_operator_experiment.Api.Cluster.{NatsCluster}
use nats_operator_experiment.Controller.Client.{Client}
use nats_operator_experiment.Controller.Rules.{Regexp}
use nats_operator_experiment.Controller.Conditions.{Operator}
use nats_operator_experiment.Controller.Users.{
  user_references_account, admit_user, refuse_user, judge_user, reconcile_user, reconcile_users,
}
use nats_operator_experiment.Controller.Accounts.{
  only_name, flagged_names, reconcile_valid_account, reject_account, judge_account,
  reconcile_accounts, reconcile_accounts_and_users,
}
use nats_operator_experiment.Controller.Panics.{IsCalmClient, IsCalmKeys, IsCalmRegexp}
use nats_operator_experiment.Controller.Panics.Conditions.{
  set_account_condition-NoPanic, set_user_condition-NoPanic,
}
use nats_operator_experiment.Controller.Panics.Rules.{validate-ne-panic, evaluate-NoPanic}
use nats_operator_experiment.Controller.Panics.Secrets.{ensure_nkey_secret-NoPanic}

module _ (wide : ℕ → Bool) (re : Regexp) (calm_re : IsCalmRegexp re) (c : Client)
    (calm : IsCalmClient c) (keys : KeySource c.World) (calm_keys : IsCalmKeys keys)
    (op : Operator) where
  admit-NoPanic :
      (cluster : NatsCluster) (acct : NatsAccount) (name : Str) (user : NatsUser)
      → NoPanic (admit_user wide re c keys op cluster acct name user)
  unfolding admit_user
  admit-NoPanic cluster acct name user =
      NoPanic-bind _ _ (ensure_nkey_secret-NoPanic c calm keys calm_keys user) λ ensured.
        NoPanic-bind _ _ (set_user_condition-NoPanic c calm _ _ _ _) λ updated. NoPanic-pure _

  refuse-NoPanic :
      (user : NatsUser) (reason text : Str)
      → NoPanic (refuse_user wide re c keys op user reason text)
  unfolding refuse_user
  refuse-NoPanic user reason text =
      NoPanic-bind _ _ (set_user_condition-NoPanic c calm user _ reason text)
        λ updated. NoPanic-pure _

  judge_user-NoPanic :
      (cluster : NatsCluster) (acct : NatsAccount) (name : Str) (user : NatsUser) (r : Result Bool)
      → r ≢ panic
      → NoPanic (judge_user wide re c keys op cluster acct name user r)
  unfolding judge_user
  judge_user-NoPanic cluster acct name user (ok true) h = admit-NoPanic cluster acct name user
  judge_user-NoPanic cluster acct name user (ok false) h = refuse-NoPanic user _ _
  judge_user-NoPanic cluster acct name user (err e) h = refuse-NoPanic user _ _
  judge_user-NoPanic cluster acct name user panic h = absurd (h refl)

  reconcile_user-NoPanic :
      (cluster : NatsCluster) (acct : NatsAccount) (name : Str) (user : NatsUser)
      → NoPanic (reconcile_user wide re c keys op cluster acct name user)
  unfolding reconcile_user
  reconcile_user-NoPanic cluster acct name user =
      NoPanic-if (user_references_account user acct) _ _
        (NoPanic-attempt _ (judge_user wide re c keys op cluster acct name user)
          (evaluate-NoPanic wide re calm_re c.get_namespace calm.get_namespace acct.spec.user_rules
            user.namespace acct.namespace)
          λ r w w' e h. judge_user-NoPanic cluster acct name user r h)
        (NoPanic-pure _)

  reconcile_users-NoPanic :
      (cluster : NatsCluster) (acct : NatsAccount) (name : Str) (users : List NatsUser)
      → NoPanic (reconcile_users wide re c keys op cluster acct name users)
  unfolding reconcile_users
  reconcile_users-NoPanic cluster acct name [] = NoPanic-pure _
  reconcile_users-NoPanic cluster acct name (user ∷ rest) =
      NoPanic-bind _ _ (reconcile_user-NoPanic cluster acct name user) λ round.
        NoPanic-bind _ _ (reconcile_users-NoPanic cluster acct name rest) λ pass. NoPanic-pure _

  valid-NoPanic :
      (cluster : NatsCluster) (name : Str) (acct : NatsAccount) (users : List NatsUser)
      → NoPanic (reconcile_valid_account wide re c keys op cluster name acct users)
  unfolding reconcile_valid_account
  valid-NoPanic cluster name acct users =
      NoPanic-bind _ _ (reconcile_users-NoPanic cluster acct name users) λ pass.
        NoPanic-bind _ _ (set_account_condition-NoPanic c calm _ _ _ _) λ updated. NoPanic-pure _

  judge_account-NoPanic :
      (cluster : NatsCluster) (name : Str) (acct : NatsAccount) (users : List NatsUser)
      (r : Result (Unit {0}))
      → r ≢ panic
      → NoPanic (judge_account wide re c keys op cluster name acct users r)
  unfolding judge_account reject_account
  judge_account-NoPanic cluster name acct users (ok u) h = valid-NoPanic cluster name acct users
  judge_account-NoPanic cluster name acct users (err e) h =
      NoPanic-bind _ _ (set_account_condition-NoPanic c calm acct _ _ _) λ updated. NoPanic-pure _
  judge_account-NoPanic cluster name acct users panic h = absurd (h refl)

  accounts-NoPanic :
      (cluster : NatsCluster) (name : Str) (accounts : List NatsAccount) (users : List NatsUser)
      → NoPanic (reconcile_accounts wide re c keys op cluster name accounts users)
  unfolding reconcile_accounts
  accounts-NoPanic cluster name [] users = NoPanic-pure _
  accounts-NoPanic cluster name (acct ∷ rest) users =
      NoPanic-bind _ _
        (judge_account-NoPanic cluster name acct users _
          (validate-ne-panic wide re calm_re acct.spec.user_rules))
        λ round.
          NoPanic-bind _ _ (accounts-NoPanic cluster name rest round.users) λ pass. NoPanic-pure _

  pub reconcile_accounts_and_users-NoPanic :
      (cluster : NatsCluster) (accounts : List NatsAccount) (users : List NatsUser)
      → NoPanic (reconcile_accounts_and_users wide re c keys op cluster accounts users)
  unfolding reconcile_accounts_and_users
  reconcile_accounts_and_users-NoPanic cluster accounts users =
      accounts-NoPanic cluster (only_name (flagged_names accounts)) accounts users
