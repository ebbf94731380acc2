-- ===== src/Cli/Build/Operator.antt =====
-- The command line tool and the operator assign users to accounts in the same way.
use nats_operator_experiment.Common.{Str, ◌&&◌, [], ◌∷◌, str_eq, ◌≡◌, ◌≢◌, refl, ap}
use nats_operator_experiment.Api.User.{NatsUser}
use nats_operator_experiment.Api.Account.{NatsAccount}
use nats_operator_experiment.Controller.Users.{account_namespace_of, user_references_account}
use nats_operator_experiment.Cli.Build.{same_or_unset, user_in_account}

same_or_unset-str_eq : (a b : Str) → a ≢ [] → b ≢ [] → same_or_unset a b ≡ str_eq a b
unfolding same_or_unset str_eq
same_or_unset-str_eq [] b h k = absurd (h refl)
same_or_unset-str_eq (x ∷ a) [] h k = absurd (k refl)
same_or_unset-str_eq (x ∷ a) (y ∷ b) h k = refl

-- Where the namespaces of the account and of the user's reference to it are known, the command line
-- tool counts a user to an account exactly if the operator does.
pub user_in_account-user_references_account :
    (acct : NatsAccount) (user : NatsUser)
    → account_namespace_of user ≢ []
    → acct.namespace ≢ []
    → user_in_account acct user ≡ user_references_account user acct
unfolding user_in_account user_references_account
user_in_account-user_references_account acct user h k =
    ap (λ b. str_eq user.spec.account_ref.name acct.name && b)
      (same_or_unset-str_eq (account_namespace_of user) acct.namespace h k)
