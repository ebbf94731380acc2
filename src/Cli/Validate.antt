-- ===== src/Cli/Validate.antt =====
-- The checks of `runValidate` of cmd/cli/cmd/validate.go. Package regexp is a parameter.
pub mod Offline
use nats_operator_experiment.Common.{
  ℕ, suc, Str, codes, newline, Bool, true, false, ◌&&◌, not, Option, none, some, List, [], ◌∷◌,
  ◌++◌, str_eq, Map, find, put, map, is_some, if◌then◌else◌,
}
use nats_operator_experiment.Common.Decimal.{format_nat}
use nats_operator_experiment.Common.Exec.{Error, message, Result, ok, err, panic}
use nats_operator_experiment.Config.Quote.{quote}
use nats_operator_experiment.Api.User.{NatsUser}
use nats_operator_experiment.Api.Account.{NatsAccount, UserRule}
use nats_operator_experiment.Api.Cluster.{NatsCluster}
use nats_operator_experiment.Controller.Rules.{Regexp}
use nats_operator_experiment.Cli.Build.{LoadedResources}

pub record ValidationError : Type 0 where
  pub resource : Str
  pub name : Str
  pub message : Str

unfoldable pub accounts_by_name : Map NatsAccount → List NatsAccount → Map NatsAccount
accounts_by_name m [] = m
accounts_by_name m (acct ∷ rest) = accounts_by_name (put acct.name acct m) rest

unfoldable pub has_cluster : Str → List NatsCluster → Bool
has_cluster n [] = false
has_cluster n (x ∷ rest) = if str_eq n x.name then true else has_cluster n rest

abbrev pub deny : Str
deny = codes "deny"

-- what a rule says where it matches, and the rest of the loop where it does not
unfoldable pub offline_decision : UserRule → Option Bool → Str → Str
offline_decision rule (some true) later = rule.action
offline_decision rule (some false) later = later
offline_decision rule none later = later

module _ (wide : ℕ → Bool) (re : Regexp) where
  open re use {compile, match_string}

  -- `none` where the loop goes on to the next rule without a verdict
  unfoldable pub match_offline_pattern : UserRule → Str → Option Bool
  match_offline_pattern rule user_ns = elim rule.namespace_regex [
    | some pattern ↦ elim (compile pattern) [
      | ok r ↦ some (match_string r user_ns)
      | err e ↦ none
      | panic ↦ none
    ]
    | none ↦ if is_some rule.namespace_labels then none else some false
  ]

  unfoldable pub match_offline : UserRule → Str → Str → Option Bool
  match_offline rule user_ns acct_ns = elim rule.same_namespace [
    | some same ↦ if same then some (str_eq user_ns acct_ns) else match_offline_pattern rule user_ns
    | none ↦ match_offline_pattern rule user_ns
  ]

  -- `outcome` after the loop
  unfoldable pub offline_outcome : List UserRule → Str → Str → Str
  offline_outcome [] user_ns acct_ns = deny
  offline_outcome (rule ∷ rest) user_ns acct_ns =
      offline_decision rule (match_offline rule user_ns acct_ns)
        (offline_outcome rest user_ns acct_ns)

  unfoldable pub check_cluster_ref :
      List NatsCluster → NatsAccount → List ValidationError → List ValidationError
  check_cluster_ref clusters acct later =
      if has_cluster acct.spec.cluster_ref.name clusters
      then later
      else record {
        resource = codes "NatsAccount";
        name = acct.name;
        message =
            codes "clusterRef " ++ (quote wide acct.spec.cluster_ref.name ++ codes " not found");
      }
        ∷ later

  abbrev regex_error : NatsAccount → ℕ → Str → Error → ValidationError
  regex_error acct i pattern e = record {
    resource = codes "NatsAccount";
    name = acct.name;
    message =
        codes "userRules["
        ++ (format_nat i
            ++ (codes "].namespaceRegex "
                ++ (quote wide pattern ++ (codes " is invalid: " ++ message e))));
  }

  unfoldable pub check_patterns :
      NatsAccount → ℕ → List UserRule → List ValidationError → List ValidationError
  check_patterns acct i [] later = later
  check_patterns acct i (rule ∷ rest) later =
      let errs = check_patterns acct (suc i) rest later in
      elim rule.namespace_regex [
        | none ↦ errs
        | some pattern ↦ elim (compile pattern) [
          | ok _ ↦ errs
          | err e ↦ regex_error acct i pattern e ∷ errs
          | panic ↦ errs
        ]
      ]

  unfoldable pub check_accounts :
      List NatsCluster → List NatsAccount → List ValidationError → List ValidationError
  check_accounts clusters [] later = later
  check_accounts clusters (acct ∷ rest) later =
      let errs = check_accounts clusters rest later in
      check_cluster_ref clusters acct (check_patterns acct 0 acct.spec.user_rules errs)

  abbrev user_error : NatsUser → Str → ValidationError
  user_error user text = record { resource = codes "NatsUser"; name = user.name; message = text }

  unfoldable pub check_outcome :
      NatsUser → NatsAccount → List UserRule → Str → List ValidationError → List ValidationError
  check_outcome user acct [] outcome later =
      user_error user (
        codes "user (ns="
        ++ (quote wide user.namespace
            ++ (codes ") references account "
                ++ (quote wide acct.name
                    ++ codes " which has no userRules (access denied by default)"))))
      ∷ later
  check_outcome user acct (rule ∷ rules) outcome later =
      if str_eq outcome deny
      then user_error user (
          codes "namespace "
          ++ (quote wide user.namespace
              ++ (codes " denied by account "
                  ++ (quote wide acct.name ++ codes " userRules (or no evaluable rule matched)"))))
        ∷ later
      else later

  unfoldable pub check_user :
      NatsUser → Option NatsAccount → List ValidationError → List ValidationError
  check_user user none later =
      user_error user
        (codes "accountRef " ++ (quote wide user.spec.account_ref.name ++ codes " not found"))
      ∷ later
  check_user user (some acct) later =
      if not (str_eq user.namespace []) && not (str_eq acct.namespace [])
      then check_outcome user acct acct.spec.user_rules
          (offline_outcome acct.spec.user_rules user.namespace acct.namespace) later
      else later

  unfoldable pub check_users : Map NatsAccount → List NatsUser → List ValidationError
  check_users accounts [] = []
  check_users accounts (user ∷ rest) =
      let errs = check_users accounts rest in
      check_user user (find user.spec.account_ref.name accounts) errs

  -- `errs` of `runValidate`
  unfoldable pub validate : LoadedResources → List ValidationError
  validate res =
      check_accounts res.clusters res.accounts
        (check_users (accounts_by_name [] res.accounts) res.users)
