-- ===== src/Controller/Rules/Failures.antt =====
-- How the evaluation of the rules can fail.
use nats_operator_experiment.Common.{
  ℕ, Str, str_eq, codes, ◌++◌, Bool, true, false, Option, none, some, List, [], ◌∷◌, Map, ◌≡◌, refl,
  sym, ap, ◌∙◌, arith, if◌then◌else◌,
}
use nats_operator_experiment.Common.Exec.{Error, wrap, Result, ok, err, panic, Exec, pure}
use nats_operator_experiment.Config.Quote.{quote}
use nats_operator_experiment.Api.Account.{UserRule}
use nats_operator_experiment.Controller.Rules.{
  Regexp, decide_rule, labels_match, validate_regex_rules, match_regex, match_labels,
  match_regex_or_labels, rule_matches_user, evaluate,
}

module _ (wide : ℕ → Bool) (re : Regexp) {W : Type 0} (get_namespace : Str → Exec W (Map Str))
    (user_ns acct_ns : Str) where
  abbrev fetch_error : Error → Error
  fetch_error x = wrap (codes "fetching namespace " ++ quote wide user_ns) x

  -- Some read of the user's namespace failed, and `e` is its error with the name of the namespace.
  abbrev pub FetchFailed : Error → Type 0
  FetchFailed e =
      (x : Error) × (v v' : W) × (get_namespace user_ns v ≡ (err x, v')) × (e ≡ fetch_error x)

  -- every expression of the rule compiles
  abbrev pub Compiles : Option Str → Type 0
  Compiles none = Unit {0}
  Compiles (some pattern) = (r : re.Regex) × (re.compile pattern ≡ ok r)

  err-injective : {e x : Error} {v w : W} → ◌≡◌ {A = Result Bool × W} (err x, v) (err e, w) → e ≡ x
  err-injective h = cc (ap (λ (p : Result Bool × W). p.0) h)

  ok-ne-err : {b : Bool} {e : Error} {v w : W} → ◌≡◌ {A = Result Bool × W} (ok b, v) (err e, w) → ⊥
  ok-ne-err h = cc (ap (λ (p : Result Bool × W). p.0) h)

  panic-ne-err : {e : Error} {v w : W} → ◌≡◌ {A = Result Bool × W} (panic, v) (err e, w) → ⊥
  panic-ne-err h = cc (ap (λ (p : Result Bool × W). p.0) h)

  labels-fetch :
      (expected : Map Str) (w w' : W) (e : Error)
      → match_labels wide re get_namespace expected user_ns w ≡ (err e, w')
      → FetchFailed e
  unfolding match_labels
  labels-fetch expected w w' e h =
      fetched (get_namespace user_ns w).0 (get_namespace user_ns w).1 refl h
    where
      fetched :
          (r : Result (Map Str)) (v : W)
          → get_namespace user_ns w ≡ (r, v)
          → ◌≡◌ {A = Result Bool × W}
              (elim r as (λ k. Result Bool × W) [
                | ok labels ↦ (ok (labels_match expected labels), v)
                | err x ↦ (err (fetch_error x), v)
                | panic ↦ (panic, v)
              ])
              (err e, w')
          → FetchFailed e
      fetched (ok labels) v g h' = absurd (ok-ne-err h')
      fetched (err x) v g h' = (x, w, v, g, err-injective h')
      fetched panic v g h' = absurd (panic-ne-err h')

  regex-total :
      (pattern : Str) (r : re.Regex) (w : W)
      → re.compile pattern ≡ ok r
      → match_regex wide re get_namespace pattern user_ns w ≡ (ok (re.match_string r user_ns), w)
  unfolding match_regex
  regex-total pattern r w c = ground arith

  condition-fetch :
      (rule : UserRule) (w w' : W) (e : Error)
      → Compiles rule.namespace_regex
      → match_regex_or_labels wide re get_namespace rule user_ns w ≡ (err e, w')
      → FetchFailed e
  unfolding match_regex_or_labels
  condition-fetch rule w w' e c h = conditions rule.namespace_regex rule.namespace_labels c h
    where
      conditions :
          (regex : Option Str) (labels : Option (Map Str))
          → Compiles regex
          → (elim regex as (λ k. Exec W Bool) [
            | some pattern ↦ match_regex wide re get_namespace pattern user_ns
            | none ↦ elim labels [
              | some expected ↦ match_labels wide re get_namespace expected user_ns
              | none ↦ pure false
            ]
          ])
              w
            ≡ (err e, w')
          → FetchFailed e
      conditions (some pattern) labels (r, c') h' =
          absurd (ok-ne-err (sym (regex-total pattern r w c') ∙ h'))
      conditions none (some expected) c' h' = labels-fetch expected w w' e h'
      conditions none none c' h' = absurd (ok-ne-err h')

  rule-fetch :
      (rule : UserRule) (w w' : W) (e : Error)
      → Compiles rule.namespace_regex
      → rule_matches_user wide re get_namespace rule user_ns acct_ns w ≡ (err e, w')
      → FetchFailed e
  unfolding rule_matches_user
  rule-fetch rule w w' e c h = same rule.same_namespace h
    where
      other : Exec W Bool
      other = match_regex_or_labels wide re get_namespace rule user_ns

      same :
          (s : Option Bool)
          → (elim s as (λ k. Exec W Bool) [
            | some b ↦ if b then pure (str_eq user_ns acct_ns) else other
            | none ↦ other
          ])
              w
            ≡ (err e, w')
          → FetchFailed e
      same none h' = condition-fetch rule w w' e c h'
      same (some true) h' = absurd (ok-ne-err h')
      same (some false) h' = condition-fetch rule w w' e c h'

  Compiles-rule :
      (rule : UserRule) (rest : List UserRule)
      → validate_regex_rules wide re (rule ∷ rest) ≡ ok tt
      → Compiles rule.namespace_regex × (validate_regex_rules wide re rest ≡ ok tt)
  unfolding validate_regex_rules
  Compiles-rule rule rest h = patterns rule.namespace_regex h
    where
      later : Result (Unit {0})
      later = validate_regex_rules wide re rest

      compiled :
          (pattern : Str) (k : Result re.Regex)
          → re.compile pattern ≡ k
          → (elim k as (λ r. Result (Unit {0})) [
            | ok _ ↦ later
            | err e ↦ err (wrap (codes "invalid namespaceRegex " ++ quote wide pattern) e)
            | panic ↦ panic
          ])
            ≡ ok tt
          → Compiles (some pattern) × (later ≡ ok tt)
      compiled pattern (ok r) c h' = ((r, c), h')
      compiled pattern (err e) c h' = cc h'
      compiled pattern panic c h' = cc h'

      patterns :
          (regex : Option Str)
          → (elim regex as (λ k. Result (Unit {0})) [
            | none ↦ later
            | some pattern ↦ elim (re.compile pattern) [
              | ok _ ↦ later
              | err e ↦ err (wrap (codes "invalid namespaceRegex " ++ quote wide pattern) e)
              | panic ↦ panic
            ]
          ])
            ≡ ok tt
          → Compiles regex × (later ≡ ok tt)
      patterns none h' = (tt, h')
      patterns (some pattern) h' = compiled pattern (re.compile pattern) refl h'

  -- Where the expressions of all rules compile, as the operator checks before it evaluates any, the
  -- evaluation fails only because the user's namespace could not be read, with that error.
  pub evaluate-FetchFailed :
      (rules : List UserRule) (w w' : W) (e : Error)
      → validate_regex_rules wide re rules ≡ ok tt
      → evaluate wide re get_namespace rules user_ns acct_ns w ≡ (err e, w')
      → FetchFailed e
  unfolding evaluate
  evaluate-FetchFailed [] w w' e v h = absurd (ok-ne-err h)
  evaluate-FetchFailed (rule ∷ rest) w w' e v h =
      let (c, v') = Compiles-rule rule rest v in
      decided (rule_matches_user wide re get_namespace rule user_ns acct_ns w).0
        (rule_matches_user wide re get_namespace rule user_ns acct_ns w).1 refl c h
        (λ u. evaluate-FetchFailed rest u w' e v')
    where
      decided :
          (r : Result Bool) (u : W)
          → rule_matches_user wide re get_namespace rule user_ns acct_ns w ≡ (r, u)
          → Compiles rule.namespace_regex
          → decide_rule rule r u (evaluate wide re get_namespace rest user_ns acct_ns) ≡ (err e, w')
          → ((u : W)
              → evaluate wide re get_namespace rest user_ns acct_ns u ≡ (err e, w')
              → FetchFailed e)
          → FetchFailed e
      decided (ok true) u m c h' later = absurd (ok-ne-err h')
      decided (ok false) u m c h' later = later u h'
      decided (err x) u m c h' later =
          rule-fetch rule w u e c (m ∙ ap (λ y. (err y, u)) (sym (err-injective h')))
      decided panic u m c h' later = absurd (panic-ne-err h')
