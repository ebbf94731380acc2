-- ===== src/Controller/Users/Admitted.antt =====
-- Which users the loop of `reconcileAccountsAndUsers` admits to an account.
use nats_operator_experiment.Common.{
  ℕ, Str, ◌&&◌, ◌≢◌, ◌∙◌, ◌⊎◌, inl, inr, arith, str_eq, str_eq_iff, Bool-cases, Bool, true, false,
  Option, none, some, List, [], ◌∷◌, ◌≡◌, refl, All, Mem, mem-cons_self, mem-cons_of_mem,
  if◌then◌else◌,
}
use nats_operator_experiment.Common.Exec.{
  Result, ok, err, panic, Exec, pure, ◌>>=◌, attempt, Yields, Yields-pure, Yields-bind, Yields-then,
  Yields-panic, Yields-and, Yields-Gave, Yields-attempt, Gave,
}
use nats_operator_experiment.Nkeys.{KeySource}
use nats_operator_experiment.Api.User.{NatsUser}
use nats_operator_experiment.Api.Account.{NatsAccount}
use nats_operator_experiment.Api.Cluster.{NatsCluster}
use nats_operator_experiment.Config.Convert.{UserWithPublicKey}
use nats_operator_experiment.Controller.Client.{Client}
use nats_operator_experiment.Controller.Rules.{Regexp, evaluate}
use nats_operator_experiment.Controller.Rules.FirstMatch.{GrantedBy, evaluate-GrantedBy}
use nats_operator_experiment.Controller.Secrets.{ensure_nkey_secret}
use nats_operator_experiment.Controller.Conditions.{Operator, set_user_condition}
use nats_operator_experiment.Controller.Users.Same.{
  SameBut, KeepsUsers, ensure-SameBut, set_user_condition-SameBut,
}
use nats_operator_experiment.Controller.Users.{
  user_references_account, account_namespace_of, no_entry, with_connection_status, admit_user,
  refuse_user, judge_user, reconcile_user, add_round, reconcile_users,
}

-- The reference of the user names the account: its name, and its namespace, which is the user's own
-- where the reference has none.
abbrev pub References : NatsUser → NatsAccount → Type 0
References user acct =
    (user.spec.account_ref.name ≡ acct.name)
    × (((user.spec.account_ref.namespace ≡ []) × (user.namespace ≡ acct.namespace))
        ⊎ ((user.spec.account_ref.namespace ≢ [])
            × (user.spec.account_ref.namespace ≡ acct.namespace)))

user_references_account-References :
    (user : NatsUser) (acct : NatsAccount)
    → user_references_account user acct ≡ true
    → References user acct
unfolding user_references_account account_namespace_of
user_references_account-References user acct h =
    let ref = user.spec.account_ref in
    (
      (str_eq_iff ref.name acct.name).0 (ground arith),
      named_or_own (both (str_eq ref.name acct.name) _ h),
    )
  where
    both : (a b : Bool) → (a && b) ≡ true → b ≡ true
    both true b e = e
    both false b e = cc e

    named_or_own :
        str_eq
            (if str_eq user.spec.account_ref.namespace []
              then user.namespace
              else user.spec.account_ref.namespace)
            acct.namespace
          ≡ true
        → ((user.spec.account_ref.namespace ≡ []) × (user.namespace ≡ acct.namespace))
          ⊎ ((user.spec.account_ref.namespace ≢ [])
              × (user.spec.account_ref.namespace ≡ acct.namespace))
    named_or_own e = elim (Bool-cases (str_eq user.spec.account_ref.namespace [])) [
      | inl n ↦ inl (
        (str_eq_iff user.spec.account_ref.namespace []).0 n,
        (str_eq_iff user.namespace acct.namespace).0 (ground arith),
      )
      | inr n ↦ inr (
        λ p. cc ((str_eq_iff user.spec.account_ref.namespace []).1 p),
        (str_eq_iff user.spec.account_ref.namespace acct.namespace).0 (ground arith),
      )
    ]

module _ (wide : ℕ → Bool) (re : Regexp) (c : Client) (keys : KeySource c.World)
    (op : Operator) where
  -- The entry is that of the user: it holds the user, unchanged but for the status, the user
  -- references the account, a rule of the account grants access, and the key and the prefix are those
  -- of the user's secret.
  pub record AdmittedAs (acct : NatsAccount) (user : NatsUser) (entry : UserWithPublicKey)
      : Type 0 where
    pub same_user : SameBut user entry.user
    pub references : References user acct
    pub granted :
        (w : c.World) × (w' : c.World) × GrantedBy wide re c.get_namespace user.namespace
          acct.namespace acct.spec.user_rules w w'
    pub ensured :
        (kept : NatsUser) × Gave
          (ensure_nkey_secret c keys user)
          (entry.public_key, entry.inbox_prefix, kept)

  abbrev pub OneOf : NatsAccount → List NatsUser → UserWithPublicKey → Type 0
  OneOf acct users entry = (user : NatsUser) × Mem user users × AdmittedAs acct user entry

  abbrev EntryOf : NatsAccount → NatsUser → Option UserWithPublicKey → Type 0
  EntryOf acct user none = Unit {0}
  EntryOf acct user (some entry) = AdmittedAs acct user entry

  refuse_user-none :
      (acct : NatsAccount) (u user : NatsUser) (reason text : Str)
      → Yields
          (λ round. EntryOf acct u round.entry)
          (refuse_user wide re c keys op user reason text)
  unfolding refuse_user
  refuse_user-none acct u user reason text =
      Yields-then (set_user_condition c user _ reason text) _ λ r. Yields-pure (no_entry r) tt

  judge_user-entry :
      (keeps : KeepsUsers c) (cluster : NatsCluster) (acct : NatsAccount) (name : Str)
      (user : NatsUser) (verdict : Result Bool) (w w' : c.World)
      → user_references_account user acct ≡ true
      → evaluate wide re c.get_namespace acct.spec.user_rules user.namespace acct.namespace w
        ≡ (verdict, w')
      → Yields
          (λ round. EntryOf acct user round.entry)
          (judge_user wide re c keys op cluster acct name user verdict)
  unfolding judge_user admit_user with_connection_status
  judge_user-entry keeps cluster acct name user (ok true) w w' ref e =
      Yields-bind (ensure_nkey_secret c keys user) _
        (Yields-and (Yields-Gave (ensure_nkey_secret c keys user))
          (ensure-SameBut c keys keeps user))
        λ ensured (g, same).
          Yields-bind (set_user_condition c _ _ _ _) _
            (set_user_condition-SameBut c keys keeps _ _ _ _)
            λ updated same'. Yields-pure _ (record {
              same_user = (same'.0 ∙ same.0, same'.1 ∙ same.1);
              references = user_references_account-References user acct ref;
              granted = (
                w,
                w',
                evaluate-GrantedBy wide re c.get_namespace user.namespace acct.namespace
                    acct.spec.user_rules w w' e,
              );
              ensured = (ensured.2, g);
            })
  judge_user-entry keeps cluster acct name user (ok false) w w' ref e =
      refuse_user-none acct user user _ _
  judge_user-entry keeps cluster acct name user (err x) w w' ref e =
      refuse_user-none acct user user _ _
  judge_user-entry keeps cluster acct name user panic w w' ref e = Yields-panic

  reconcile_user-entry :
      (keeps : KeepsUsers c) (cluster : NatsCluster) (acct : NatsAccount) (name : Str)
      (user : NatsUser)
      → Yields
          (λ round. EntryOf acct user round.entry)
          (reconcile_user wide re c keys op cluster acct name user)
  unfolding reconcile_user
  reconcile_user-entry keeps cluster acct name user = split (user_references_account user acct) refl
    where
      verdict_of : Exec c.World Bool
      verdict_of =
          evaluate wide re c.get_namespace acct.spec.user_rules user.namespace acct.namespace

      split :
          (b : Bool)
          → user_references_account user acct ≡ b
          → Yields
              (λ round. EntryOf acct user round.entry)
              (if b
                then attempt verdict_of >>= judge_user wide re c keys op cluster acct name user
                else pure (no_entry (user, false)))
      split false e = Yields-pure (no_entry (user, false)) tt
      split true e =
          Yields-attempt verdict_of (judge_user wide re c keys op cluster acct name user)
            λ r w w' e'. judge_user-entry keeps cluster acct name user r w w' e e'

  later_OneOf :
      (acct : NatsAccount) (user : NatsUser) (rest : List NatsUser)
      (entries : List UserWithPublicKey)
      → All (OneOf acct rest) entries
      → All (OneOf acct (user ∷ rest)) entries
  later_OneOf acct user rest [] h = tt
  later_OneOf acct user rest (e ∷ entries) ((u, m, a), h) =
      ((u, mem-cons_of_mem user m, a), later_OneOf acct user rest entries h)

  add_round-OneOf :
      (acct : NatsAccount) (user : NatsUser) (rest : List NatsUser)
      (found : Option UserWithPublicKey) (entries : List UserWithPublicKey)
      → EntryOf acct user found
      → All (OneOf acct rest) entries
      → All (OneOf acct (user ∷ rest)) (elim found [ none ↦ entries | some e ↦ e ∷ entries ])
  add_round-OneOf acct user rest none entries e h = later_OneOf acct user rest entries h
  add_round-OneOf acct user rest (some x) entries e h =
      ((user, mem-cons_self, e), later_OneOf acct user rest entries h)

  -- Where an update of a user's status changes nothing else of the user: whenever the loop over the
  -- users of an account ends without an error, each entry it collects is that of one of the users. It
  -- holds that user, unchanged but for the status; the user's reference names the account and its
  -- namespace, or has no namespace and the user is in that of the account; a rule of the account
  -- grants the user access as the first that matches; and the user's secret gave the key and the inbox
  -- prefix of the entry.
  pub reconcile_users-OneOf :
      (keeps : KeepsUsers c) (cluster : NatsCluster) (acct : NatsAccount) (name : Str)
      (users : List NatsUser)
      → Yields
          (λ pass. All (OneOf acct users) pass.entries)
          (reconcile_users wide re c keys op cluster acct name users)
  unfolding reconcile_users add_round
  reconcile_users-OneOf keeps cluster acct name [] = Yields-pure _ tt
  reconcile_users-OneOf keeps cluster acct name (user ∷ rest) =
      Yields-bind (reconcile_user wide re c keys op cluster acct name user) _
        (reconcile_user-entry keeps cluster acct name user)
        λ round e.
          Yields-bind (reconcile_users wide re c keys op cluster acct name rest) _
            (reconcile_users-OneOf keeps cluster acct name rest)
            λ pass h. Yields-pure _ (add_round-OneOf acct user rest round.entry pass.entries e h)
