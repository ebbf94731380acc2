-- ===== src/Controller/Rules/FirstMatch.antt =====
-- The first rule that matches decides, and access is denied by default.
use nats_operator_experiment.Common.{
  ℕ, Str, str_eq, str_eq_iff, Bool, true, false, List, [], ◌∷◌, ◌++◌, ◌≡◌, refl, sym, ◌∙◌, ap, Map,
}
use nats_operator_experiment.Common.Exec.{Error, Result, ok, err, panic, Exec}
use nats_operator_experiment.Api.Account.{UserRule, user_rule_action_grant}
use nats_operator_experiment.Controller.Rules.{decide_rule, Regexp, rule_matches_user, evaluate}

ok-injective : {a b : Bool} → ok a ≡ ok b → a ≡ b
ok-injective e = cc

module _ (wide : ℕ → Bool) (re : Regexp) {W : Type 0} (get_namespace : Str → Exec W (Map Str))
    (user_namespace account_namespace : Str) where
  abbrev pub tries : UserRule → W → Result Bool × W
  tries rule = rule_matches_user wide re get_namespace rule user_namespace account_namespace

  abbrev pub decides : List UserRule → W → Result Bool × W
  decides rules = evaluate wide re get_namespace rules user_namespace account_namespace

  -- every rule of the list was tried, from `w` to `w'`, and none matched
  abbrev pub Passed : List UserRule → W → W → Type 0
  Passed [] w w' = w ≡ w'
  Passed (rule ∷ rest) w w' = (v : W) × (tries rule w ≡ (ok false, v)) × Passed rest v w'

  evaluate-hit :
      (rule : UserRule) (rest : List UserRule) (w w' : W)
      → tries rule w ≡ (ok true, w')
      → decides (rule ∷ rest) w ≡ (ok (str_eq rule.action user_rule_action_grant), w')
  unfolding evaluate
  evaluate-hit rule rest w w' h = λ i. decide_rule rule (h i).0 (h i).1 (decides rest)

  evaluate-pass :
      (rule : UserRule) (rest : List UserRule) (w v : W)
      → tries rule w ≡ (ok false, v)
      → decides (rule ∷ rest) w ≡ decides rest v
  unfolding evaluate
  evaluate-pass rule rest w v h = λ i. decide_rule rule (h i).0 (h i).1 (decides rest)

  evaluate-err :
      (rule : UserRule) (rest : List UserRule) (w v : W) (x : Error)
      → tries rule w ≡ (err x, v)
      → decides (rule ∷ rest) w ≡ (err x, v)
  unfolding evaluate
  evaluate-err rule rest w v x h = λ i. decide_rule rule (h i).0 (h i).1 (decides rest)

  evaluate-panic :
      (rule : UserRule) (rest : List UserRule) (w v : W)
      → tries rule w ≡ (panic, v)
      → decides (rule ∷ rest) w ≡ (panic, v)
  unfolding evaluate
  evaluate-panic rule rest w v h = λ i. decide_rule rule (h i).0 (h i).1 (decides rest)

  -- If no rule of a first part matches, and then one does, that rule decides: access is granted
  -- exactly when its action is to grant, and no later rule is tried.
  pub evaluate-first_match :
      (before : List UserRule) (rule : UserRule) (rest : List UserRule) (w v w' : W)
      → Passed before w v
      → tries rule v ≡ (ok true, w')
      → decides (before ++ rule ∷ rest) w ≡ (ok (str_eq rule.action user_rule_action_grant), w')
  evaluate-first_match [] rule rest w v w' p h = evaluate-hit rule rest w w' (ap (tries rule) p ∙ h)
  evaluate-first_match (r ∷ before) rule rest w v w' (u, t, p) h =
      evaluate-pass r (before ++ rule ∷ rest) w u t
      ∙ evaluate-first_match before rule rest u v w' p h

  -- Access by a rule: the rule, what stands before it and behind it, and the world before it.
  abbrev pub GrantedBy : List UserRule → W → W → Type 0
  GrantedBy rules w w' =
      (before : List UserRule) × (rule : UserRule) × (rest : List UserRule) × (v : W) × (rules
        ≡ before ++ rule ∷ rest)
      × Passed before w v
      × (tries rule v ≡ (ok true, w'))
      × (rule.action ≡ user_rule_action_grant)

  -- Access is granted only by a rule of the list that matches, whose action is to grant, and before
  -- which no rule matches; so it is not granted where no rule matches.
  pub evaluate-GrantedBy :
      (rules : List UserRule) (w w' : W) → decides rules w ≡ (ok true, w') → GrantedBy rules w w'
  evaluate-GrantedBy [] w w' h = unfold evaluate in cc
  evaluate-GrantedBy (rule ∷ rest) w w' h =
      granted (tries rule w).0 (tries rule w).1 refl (evaluate-GrantedBy rest)
    where
      granted :
          (r : Result Bool) (v : W)
          → tries rule w ≡ (r, v)
          → ((u u' : W) → decides rest u ≡ (ok true, u') → GrantedBy rest u u')
          → GrantedBy (rule ∷ rest) w w'
      granted (ok true) v t ih =
          let e : (ok (str_eq rule.action user_rule_action_grant), v) ≡ (ok true, w') =
            sym (evaluate-hit rule rest w v t) ∙ h in
          (
            [],
            rule,
            rest,
            w,
            refl,
            refl,
            t ∙ (λ i. (ok true, (e i).1)),
            (str_eq_iff rule.action user_rule_action_grant).0 (ok-injective (λ i. (e i).0)),
          )
      granted (ok false) v t ih =
          let (before, hit, after, u, split, p, m, a) =
            ih v w' (sym (evaluate-pass rule rest w v t) ∙ h) in
          (
            rule ∷ before,
            hit,
            after,
            u,
            ap (λ (l : List UserRule). rule ∷ l) split,
            (v, t, p),
            m,
            a,
          )
      granted (err x) v t ih =
          cc (ap (λ (p : Result Bool × W). p.0) (sym (evaluate-err rule rest w v x t) ∙ h))
      granted panic v t ih =
          cc (ap (λ (p : Result Bool × W). p.0) (sym (evaluate-panic rule rest w v t) ∙ h))
