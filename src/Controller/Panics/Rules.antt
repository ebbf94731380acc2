-- ===== src/Controller/Panics/Rules.antt =====
-- `ValidateRegexRules` and `Evaluate` do not panic.
use nats_operator_experiment.Common.{
  ℕ, Str, Bool, true, false, Option, none, some, List, [], ◌∷◌, Map, ◌≢◌, refl, str_eq, codes, ◌++◌,
  if◌then◌else◌,
}
use nats_operator_experiment.Common.Exec.{Result, ok, err, panic, Exec, pure, wrap}
use nats_operator_experiment.Common.Panics.{
  NoPanic, ok-ne-panic, err-ne-panic, NoPanic-pure, NoPanic-if,
}
use nats_operator_experiment.Config.Quote.{quote}
use nats_operator_experiment.Api.Account.{UserRule}
use nats_operator_experiment.Controller.Rules.{
  Regexp, labels_match, validate_regex_rules, match_regex, match_labels, match_regex_or_labels,
  rule_matches_user, decide_rule, evaluate,
}
use nats_operator_experiment.Controller.Panics.{IsCalmRegexp}

module _ (wide : ℕ → Bool) (re : Regexp) (calm_re : IsCalmRegexp re) where
  pub validate-ne-panic : (rules : List UserRule) → validate_regex_rules wide re rules ≢ panic
  unfolding validate_regex_rules
  validate-ne-panic [] = ok-ne-panic
  validate-ne-panic (rule ∷ rest) = on_pattern rule.namespace_regex (validate-ne-panic rest)
    where
      compiled :
          (pattern : Str) (r : Result re.Regex)
          → r ≢ panic
          → validate_regex_rules wide re rest ≢ panic
          → (elim r as (λ k. Result (Unit {0})) [
            | ok _ ↦ validate_regex_rules wide re rest
            | err e ↦ err (wrap (codes "invalid namespaceRegex " ++ quote wide pattern) e)
            | panic ↦ panic
          ])
            ≢ panic
      compiled pattern (ok r) h k = k
      compiled pattern (err e) h k = err-ne-panic
      compiled pattern panic h k = absurd (h refl)

      on_pattern :
          (o : Option Str)
          → validate_regex_rules wide re rest ≢ panic
          → (elim o as (λ k. Result (Unit {0})) [
            | none ↦ validate_regex_rules wide re rest
            | some pattern ↦ elim (re.compile pattern) as (λ k. Result (Unit {0})) [
              | ok _ ↦ validate_regex_rules wide re rest
              | err e ↦ err (wrap (codes "invalid namespaceRegex " ++ quote wide pattern) e)
              | panic ↦ panic
            ]
          ])
            ≢ panic
      on_pattern none k = k
      on_pattern (some pattern) k =
          compiled pattern (re.compile pattern) (calm_re.compile pattern) k

  module _ {W : Type 0} (get_namespace : Str → Exec W (Map Str))
      (calm : (n : Str) → NoPanic (get_namespace n)) where
    match_regex-NoPanic :
        (pattern user_ns : Str) → NoPanic (match_regex wide re get_namespace pattern user_ns)
    unfolding match_regex
    match_regex-NoPanic pattern user_ns = record {
      at = λ w. compiled w (re.compile pattern) (calm_re.compile pattern);
    }
      where
        compiled :
            (w : W) (o : Result re.Regex)
            → o ≢ panic
            → (elim o as (λ k. Result Bool × W) [
              | ok r ↦ (ok (re.match_string r user_ns), w)
              | err e ↦ (err (wrap (codes "invalid namespaceRegex " ++ quote wide pattern) e), w)
              | panic ↦ (panic, w)
            ]).0
              ≢ panic
        compiled w (ok r) h = ok-ne-panic
        compiled w (err e) h = err-ne-panic
        compiled w panic h = absurd (h refl)

    match_labels-NoPanic :
        (expected : Map Str) (user_ns : Str)
        → NoPanic (match_labels wide re get_namespace expected user_ns)
    unfolding match_labels
    match_labels-NoPanic expected user_ns = record {
      at = λ w.
          fetched (get_namespace user_ns w).1 (get_namespace user_ns w).0 ((calm user_ns).at w);
    }
      where
        fetched :
            (w : W) (o : Result (Map Str))
            → o ≢ panic
            → (elim o as (λ k. Result Bool × W) [
              | ok labels ↦ (ok (labels_match expected labels), w)
              | err e ↦ (err (wrap (codes "fetching namespace " ++ quote wide user_ns) e), w)
              | panic ↦ (panic, w)
            ]).0
              ≢ panic
        fetched w (ok labels) h = ok-ne-panic
        fetched w (err e) h = err-ne-panic
        fetched w panic h = absurd (h refl)

    match_condition-NoPanic :
        (rule : UserRule) (user_ns : Str)
        → NoPanic (match_regex_or_labels wide re get_namespace rule user_ns)
    unfolding match_regex_or_labels
    match_condition-NoPanic rule user_ns = conditions rule.namespace_regex rule.namespace_labels
      where
        conditions :
            (o : Option Str) (l : Option (Map Str))
            → NoPanic (elim o as (λ k. Exec W Bool) [
              | some pattern ↦ match_regex wide re get_namespace pattern user_ns
              | none ↦ elim l as (λ k. Exec W Bool) [
                | some expected ↦ match_labels wide re get_namespace expected user_ns
                | none ↦ pure false
              ]
            ])
        conditions (some pattern) l = match_regex-NoPanic pattern user_ns
        conditions none (some expected) = match_labels-NoPanic expected user_ns
        conditions none none = NoPanic-pure false

    rule-NoPanic :
        (rule : UserRule) (user_ns account_ns : Str)
        → NoPanic (rule_matches_user wide re get_namespace rule user_ns account_ns)
    unfolding rule_matches_user
    rule-NoPanic rule user_ns account_ns = same rule.same_namespace
      where
        same :
            (o : Option Bool)
            → NoPanic (elim o as (λ k. Exec W Bool) [
              | some b ↦
                  if b
                  then pure (str_eq user_ns account_ns)
                  else match_regex_or_labels wide re get_namespace rule user_ns
              | none ↦ match_regex_or_labels wide re get_namespace rule user_ns
            ])
        same (some b) = NoPanic-if b _ _ (NoPanic-pure _) (match_condition-NoPanic rule user_ns)
        same none = match_condition-NoPanic rule user_ns

    decide-ne-panic :
        (rule : UserRule) (r : Result Bool) (w : W) (later : Exec W Bool)
        → r ≢ panic
        → NoPanic later
        → (decide_rule rule r w later).0 ≢ panic
    decide-ne-panic rule (ok true) w later h k = ok-ne-panic
    decide-ne-panic rule (ok false) w later h k = k.at w
    decide-ne-panic rule (err e) w later h k = err-ne-panic
    decide-ne-panic rule panic w later h k = absurd (h refl)

    pub evaluate-NoPanic :
        (rules : List UserRule) (user_ns account_ns : Str)
        → NoPanic (evaluate wide re get_namespace rules user_ns account_ns)
    unfolding evaluate
    evaluate-NoPanic [] user_ns account_ns = NoPanic-pure false
    evaluate-NoPanic (rule ∷ rest) user_ns account_ns = record {
      at = λ w.
          decide-ne-panic rule _ _ _ ((rule-NoPanic rule user_ns account_ns).at w)
            (evaluate-NoPanic rest user_ns account_ns);
    }
