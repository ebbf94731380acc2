-- ===== src/Config/Convert/Accounts.antt =====
-- The map of accounts that the conversion builds.
use nats_operator_experiment.Common.{
  Str, str_eq, Option, none, some, List, [], ◌∷◌, ◌≡◌, refl, ◌∙◌, arith, Map, put, find, find-put,
  put-UniqueKeys, UniqueKeys, All, subst, if◌then◌else◌, map,
}
use nats_operator_experiment.Config.Types.{AccountConfig, UserConfig}
use nats_operator_experiment.Config.Permissions.Secure.{IsClosed, convert_permissions-IsClosed}
use nats_operator_experiment.Config.Convert.{
  AccountWithUsers, UserWithPublicKey, convert_user, convert_account, convert_accounts,
  convert_to_nats_config,
}

-- the last account of a name, if there is one
unfoldable pub last_named : Str → List AccountWithUsers → Option AccountWithUsers
last_named n [] = none
last_named n (awu ∷ rest) =
    let later = last_named n rest in
    elim later [ some b ↦ some b | none ↦ if str_eq awu.account.name n then some awu else none ]

abbrev pub converted : Option AccountWithUsers → Option AccountConfig → Option AccountConfig
converted none before = before
converted (some awu) before = some (convert_account awu)

find-convert_accounts :
    (n : Str) (m : Map AccountConfig) (accounts : List AccountWithUsers)
    → find n (convert_accounts m accounts) ≡ converted (last_named n accounts) (find n m)
unfolding convert_accounts last_named
find-convert_accounts n m [] = refl
find-convert_accounts n m (awu ∷ rest) =
    find-convert_accounts n (put awu.account.name (convert_account awu) m) rest
    ∙ ground (arith, find-put awu.account.name n (convert_account awu) m)

-- Under each name the configuration holds the conversion of the last account of that name, and
-- nothing under a name that no account has.
pub find-convert :
    (n : Str) (accounts : List AccountWithUsers)
    → find n (convert_to_nats_config accounts).accounts ≡ converted (last_named n accounts) none
unfolding convert_to_nats_config
find-convert n accounts = find-convert_accounts n [] accounts ∙ unfold find in refl

convert_accounts-UniqueKeys :
    (m : Map AccountConfig) (accounts : List AccountWithUsers)
    → UniqueKeys m
    → UniqueKeys (convert_accounts m accounts)
unfolding convert_accounts
convert_accounts-UniqueKeys m [] u = u
convert_accounts-UniqueKeys m (awu ∷ rest) u =
    convert_accounts-UniqueKeys (put awu.account.name (convert_account awu) m) rest
      (put-UniqueKeys awu.account.name (convert_account awu) m u)

-- The configuration holds at most one account under each name.
convert-UniqueKeys :
    (accounts : List AccountWithUsers) → UniqueKeys (convert_to_nats_config accounts).accounts
unfolding convert_to_nats_config
convert-UniqueKeys accounts = convert_accounts-UniqueKeys [] accounts tt

-- A user entry that is closed by default: it has permissions, and both directions are closed.
abbrev pub IsClosedUser : UserConfig → Type 0
IsClosedUser u = elim u.permissions [
  | none ↦ ⊥
  | some p ↦ IsClosed p.publish × IsClosed p.subscribe
]

convert_user-IsClosed : (users : List UserWithPublicKey) → All IsClosedUser (map convert_user users)
convert_user-IsClosed [] = tt
convert_user-IsClosed (uwk ∷ rest) =
    (unfold convert_user in convert_permissions-IsClosed _ _, convert_user-IsClosed rest)

-- Every user of every account that the configuration holds has permissions in which each direction
-- allows something by name or denies every subject.
pub convert-IsClosed :
    (n : Str) (accounts : List AccountWithUsers) (acct : AccountConfig)
    → find n (convert_to_nats_config accounts).accounts ≡ some acct
    → All IsClosedUser acct.users
convert-IsClosed n accounts acct h = closed (last_named n accounts) refl
  where
    closed : (o : Option AccountWithUsers) → last_named n accounts ≡ o → All IsClosedUser acct.users
    closed none e = cc (find-convert n accounts)
    closed (some awu) e =
        let same : convert_account awu ≡ acct = cc (find-convert n accounts) in
        subst (λ (a : AccountConfig). All IsClosedUser a.users) same
          (unfold convert_account in convert_user-IsClosed awu.users)
