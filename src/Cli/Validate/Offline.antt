-- ===== src/Cli/Validate/Offline.antt =====
-- The check of the rules without a cluster and the operator's evaluation of the same rules.
use nats_operator_experiment.Common.{
  ℕ, Str, Bool, true, false, not, some, List, [], ◌∷◌, str_eq, str_eq_refl, Map, ◌≡◌, ◌⊎◌, inl, inr,
  refl, sym, ap, ◌∙◌, All, arith,
}
use nats_operator_experiment.Common.Exec.{Result, ok, Exec}
use nats_operator_experiment.Api.Account.{
  UserRule, UserRuleAction, user_rule_action_grant, user_rule_action_deny,
}
use nats_operator_experiment.Controller.Rules.{
  Regexp, match_regex, match_regex_or_labels, rule_matches_user, decide_rule, evaluate,
}
use nats_operator_experiment.Cli.Validate.{
  offline_decision, match_offline_pattern, match_offline, offline_outcome, deny,
}

module _ (wide : ℕ → Bool) (re : Regexp) {W : Type 0} (get_namespace : Str → Exec W (Map Str))
    (user_ns acct_ns : Str) where
  abbrev tries : UserRule → Exec W Bool
  tries rule = rule_matches_user wide re get_namespace rule user_ns acct_ns

  -- The rule can be decided without a cluster, and its action is one of the two of the API.
  abbrev pub IsOffline : UserRule → Type 0
  IsOffline rule =
      ((b : Bool) × (match_offline wide re rule user_ns acct_ns ≡ some b))
      × ((rule.action ≡ user_rule_action_grant) ⊎ (rule.action ≡ user_rule_action_deny))

  offline-tries :
      (rule : UserRule) (w : W) (b : Bool)
      → match_offline wide re rule user_ns acct_ns ≡ some b
      → tries rule w ≡ (ok b, w)
  unfolding match_offline match_offline_pattern rule_matches_user match_regex_or_labels match_regex
  offline-tries rule w b h = ground arith

  -- whether the outcome is not a denial
  abbrev allows : Str → Bool
  allows outcome = not (str_eq outcome deny)

  allows-action :
      (action : UserRuleAction)
      → (action ≡ user_rule_action_grant) ⊎ (action ≡ user_rule_action_deny)
      → str_eq action user_rule_action_grant ≡ allows action
  unfolding str_eq
  allows-action action (inl e) =
      ap (λ a. str_eq a user_rule_action_grant) e ∙ (refl ∙ sym (ap allows e))
  allows-action action (inr e) =
      ap (λ a. str_eq a user_rule_action_grant) e ∙ (refl ∙ sym (ap allows e))

  decide-allows :
      (rule : UserRule) (b : Bool) (later : Str) (rest : W → Result Bool × W) (w : W)
      → (rule.action ≡ user_rule_action_grant) ⊎ (rule.action ≡ user_rule_action_deny)
      → rest w ≡ (ok (allows later), w)
      → decide_rule rule (ok b) w rest ≡ (ok (allows (offline_decision rule (some b) later)), w)
  unfolding offline_decision
  decide-allows rule true later rest w a h = ap (λ x. (ok x, w)) (allows-action rule.action a)
  decide-allows rule false later rest w a h = h

  -- Where every rule can be decided without a cluster (it asks for the same namespace or has an
  -- expression that compiles, or has no condition) and has one of the two actions of the API, the
  -- operator's evaluation succeeds, leaves the world as it is, and grants access exactly if the
  -- command line tool finds no denial.
  pub evaluate-offline_outcome :
      (rules : List UserRule) (w : W)
      → All IsOffline rules
      → evaluate wide re get_namespace rules user_ns acct_ns w
        ≡ (ok (not (str_eq (offline_outcome wide re rules user_ns acct_ns) deny)), w)
  unfolding evaluate offline_outcome
  evaluate-offline_outcome [] w h = ap (λ x. (ok (not x), w)) (sym (str_eq_refl deny))
  evaluate-offline_outcome (rule ∷ rest) w (((b, m), a), h) =
      (λ i.
        decide_rule rule (offline-tries rule w b m i).0 (offline-tries rule w b m i).1
          (evaluate wide re get_namespace rest user_ns acct_ns))
      ∙ (decide-allows rule b (offline_outcome wide re rest user_ns acct_ns)
            (evaluate wide re get_namespace rest user_ns acct_ns) w a
            (evaluate-offline_outcome rest w h)
          ∙ ap
              (λ o. (
                ok (
                    allows
                      (offline_decision rule o (offline_outcome wide re rest user_ns acct_ns))),
                w,
              ))
              (sym m))
