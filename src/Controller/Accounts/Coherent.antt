-- ===== src/Controller/Accounts/Coherent.antt =====
-- What a pass over the accounts of a cluster returns.
use nats_operator_experiment.Common.{
  ℕ, ◌+◌, Option, none, some, List, [], ◌∷◌, ◌≡◌, All, length, IsSorted,
}
use nats_operator_experiment.Config.Convert.{AccountWithUsers}
use nats_operator_experiment.Controller.Client.{Client}
use nats_operator_experiment.Controller.Accounts.{entry_le, AccountsPass}

-- The number of entries of users in all accounts.
unfoldable pub entry_count : List AccountWithUsers → ℕ
entry_count [] = 0
entry_count (awu ∷ rest) = length awu.users + entry_count rest

-- A pass over `n` accounts: it has all of them, counts the entries it returns, and has the entries of
-- each account in the order of the users' names.
pub record Coherent (n : ℕ) (pass : AccountsPass) : Type 0 where
  pub all_accounts : length pass.accounts ≡ n
  pub counted : pass.total_users ≡ entry_count pass.accounts_with_users
  pub ordered : All (λ awu. IsSorted entry_le awu.users) pass.accounts_with_users

abbrev SortedEntry : Option AccountWithUsers → Type 0
SortedEntry none = Unit {0}
SortedEntry (some awu) = IsSorted entry_le awu.users
