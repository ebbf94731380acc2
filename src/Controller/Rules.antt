-- ===== src/Controller/Rules.antt =====
-- internal/controller/user_rule_evaluator.go. Package regexp and the namespaces of the cluster are
-- parameters, and so is the table `wide` of `%q` (Config/Quote.antt).
pub mod FirstMatch
pub mod Labels
pub mod Failures
use nats_operator_experiment.Common.{
  ℕ, Str, codes, str_eq, Bool, true, false, Option, none, some, List, [], ◌∷◌, ◌++◌, Map, find,
  if◌then◌else◌,
}
use nats_operator_experiment.Common.Exec.{
  Error, wrap, Result, ok, err, panic, Exec, pure, raise, ◌>>=◌, wrap_result,
}
use nats_operator_experiment.Config.Quote.{quote}
use nats_operator_experiment.Api.Account.{UserRule, user_rule_action_grant}

pub record Regexp : Type 1 where
  pub Regex : Type 0
  pub compile : Str → Result Regex
  pub match_string : Regex → Str → Bool

-- `ns.Labels[k]`, the empty string where the label is missing
abbrev pub label_at : Str → Map Str → Str
label_at k labels = elim (find k labels) [ none ↦ [] | some v ↦ v ]

-- the loop over the labels of a rule, in the order in which Go ranges over them
unfoldable pub labels_match : Map Str → Map Str → Bool
labels_match [] labels = true
labels_match ((k, v) ∷ rest) labels =
    if str_eq (label_at k labels) v then labels_match rest labels else false

-- the rest of a round of the loop of `Evaluate`, after the match; `later` is the rest of the loop
abbrev pub decide_rule :
    {W : Type 0} → UserRule → Result Bool → W → (W → Result Bool × W) → Result Bool × W
decide_rule rule (err e) w later = (err e, w)
decide_rule rule panic w later = (panic, w)
decide_rule rule (ok true) w later = (ok (str_eq rule.action user_rule_action_grant), w)
decide_rule rule (ok false) w later = later w

module _ (wide : ℕ → Bool) (re : Regexp) where
  open re use {compile, match_string}

  -- a nil error is `ok`
  unfoldable pub validate_regex_rules : List UserRule → Result (Unit {0})
  validate_regex_rules [] = ok tt
  validate_regex_rules (rule ∷ rest) = elim rule.namespace_regex [
    | none ↦ validate_regex_rules rest
    | some pattern ↦ elim (compile pattern) [
      | ok _ ↦ validate_regex_rules rest
      | err e ↦ err (wrap (codes "invalid namespaceRegex " ++ quote wide pattern) e)
      | panic ↦ panic
    ]
  ]

  module _ {W : Type 0} (get_namespace : Str → Exec W (Map Str)) where
    unfoldable pub match_regex : Str → Str → Exec W Bool
    match_regex pattern user_namespace w = elim (compile pattern) [
      | ok r ↦ (ok (match_string r user_namespace), w)
      | err e ↦ (err (wrap (codes "invalid namespaceRegex " ++ quote wide pattern) e), w)
      | panic ↦ (panic, w)
    ]

    unfoldable pub match_labels : Map Str → Str → Exec W Bool
    match_labels expected user_namespace w =
        let (r, w') = get_namespace user_namespace w in
        elim r [
          | ok labels ↦ (ok (labels_match expected labels), w')
          | err e ↦ (err (wrap (codes "fetching namespace " ++ quote wide user_namespace) e), w')
          | panic ↦ (panic, w')
        ]

    -- the cases of the switch after the first
    unfoldable pub match_regex_or_labels : UserRule → Str → Exec W Bool
    unfolding match_regex match_labels
    match_regex_or_labels rule user_namespace = elim rule.namespace_regex [
      | some pattern ↦ match_regex pattern user_namespace
      | none ↦ elim rule.namespace_labels [
        | some expected ↦ match_labels expected user_namespace
        | none ↦ pure false
      ]
    ]

    unfoldable pub rule_matches_user : UserRule → Str → Str → Exec W Bool
    unfolding match_regex_or_labels
    rule_matches_user rule user_namespace account_namespace = elim rule.same_namespace [
      | some same ↦
          if same
          then pure (str_eq user_namespace account_namespace)
          else match_regex_or_labels rule user_namespace
      | none ↦ match_regex_or_labels rule user_namespace
    ]

    unfoldable pub evaluate : List UserRule → Str → Str → Exec W Bool
    evaluate [] user_namespace account_namespace w = (ok false, w)
    evaluate (rule ∷ rest) user_namespace account_namespace w =
        let (matched, w') = rule_matches_user rule user_namespace account_namespace w in
        decide_rule rule matched w' (evaluate rest user_namespace account_namespace)
