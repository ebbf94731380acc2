-- ===== src/Examples/Access.antt =====
-- The theorems about the user rules and the secrets, applied.
use nats_operator_experiment.Common.{ℕ, codes, str_eq, true, false, [], ◌∷◌, ◌≡◌, refl}
use nats_operator_experiment.Common.Exec.{ok, err}
use nats_operator_experiment.Common.Exec.{Yields}
use nats_operator_experiment.Api.Account.{user_rule_action_grant}
use nats_operator_experiment.Controller.Rules.FirstMatch.{
  GrantedBy, evaluate-GrantedBy, evaluate-first_match,
}
use nats_operator_experiment.Controller.Secrets.Outcome.{Fits, ensure_nkey_secret-Fits}
use nats_operator_experiment.Common.{◌++◌, Map, Str}
use nats_operator_experiment.Common.Exec.{Exec, raise, plain, wrap}
use nats_operator_experiment.Config.Quote.{quote}
use nats_operator_experiment.Controller.Rules.{match_labels}
use nats_operator_experiment.Controller.Rules.Failures.{FetchFailed, evaluate-FetchFailed}
use nats_operator_experiment.Examples.Data.{labelled_rule}
use nats_operator_experiment.Examples.Data.{user, same_namespace_rule, deny_rule}
use nats_operator_experiment.Controller.Secrets.{ensure_nkey_secret}
use nats_operator_experiment.Controller.Rules.{
  validate_regex_rules, match_regex, match_labels, match_regex_or_labels, rule_matches_user,
  evaluate,
}
use nats_operator_experiment.Examples.Data.{narrow, literal, cluster_api, keys}

granted :
    evaluate narrow literal cluster_api.get_namespace
      (deny_rule ∷ same_namespace_rule ∷ [])
      (codes "apps")
      (codes "apps")
      0
    ≡ (ok true, 0)
unfolding evaluate rule_matches_user match_regex_or_labels match_regex str_eq
granted = refl

evaluate-GrantedBy_example :
    GrantedBy narrow literal cluster_api.get_namespace
      (codes "apps")
      (codes "apps")
      (deny_rule ∷ same_namespace_rule ∷ [])
      0
      0
evaluate-GrantedBy_example =
    evaluate-GrantedBy narrow literal cluster_api.get_namespace (codes "apps") (codes "apps")
      (deny_rule ∷ same_namespace_rule ∷ []) 0 0 granted

passes :
    rule_matches_user narrow literal cluster_api.get_namespace deny_rule
      (codes "apps")
      (codes "apps")
      0
    ≡ (ok false, 0)
unfolding rule_matches_user match_regex_or_labels match_regex str_eq
passes = refl

matches :
    rule_matches_user narrow literal cluster_api.get_namespace same_namespace_rule
      (codes "apps")
      (codes "apps")
      0
    ≡ (ok true, 0)
unfolding rule_matches_user str_eq
matches = refl

evaluate-first_match_example :
    evaluate narrow literal cluster_api.get_namespace
      (deny_rule ∷ same_namespace_rule ∷ deny_rule ∷ [])
      (codes "apps")
      (codes "apps")
      0
    ≡ (ok (str_eq user_rule_action_grant user_rule_action_grant), 0)
evaluate-first_match_example =
    evaluate-first_match narrow literal cluster_api.get_namespace (codes "apps") (codes "apps")
      (deny_rule ∷ []) same_namespace_rule (deny_rule ∷ []) 0 0 0 (0, passes, refl) matches

ensure_nkey_secret-Fits_example :
    Yields (Fits cluster_api keys user) (ensure_nkey_secret cluster_api keys user)
ensure_nkey_secret-Fits_example = ensure_nkey_secret-Fits cluster_api keys user

-- the namespace cannot be read
abbrev unreadable : Str → Exec ℕ (Map Str)
unreadable name = raise (plain (codes "no connection"))

valid : validate_regex_rules narrow literal (labelled_rule ∷ []) ≡ ok tt
unfolding validate_regex_rules
valid = refl

fails : evaluate narrow literal unreadable (labelled_rule ∷ []) (codes "apps") (codes "apps") 0 ≡ (
  err (
      wrap
        (codes "fetching namespace " ++ quote narrow (codes "apps"))
        (plain (codes "no connection"))),
  0,
)
unfolding evaluate rule_matches_user match_regex_or_labels match_labels
fails = refl

evaluate-FetchFailed_example : FetchFailed narrow literal unreadable (codes "apps") (codes "apps") (
    wrap
      (codes "fetching namespace " ++ quote narrow (codes "apps"))
      (plain (codes "no connection")))
evaluate-FetchFailed_example =
    evaluate-FetchFailed narrow literal unreadable (codes "apps") (codes "apps")
      (labelled_rule ∷ []) 0 0
      (wrap (codes "fetching namespace " ++ quote narrow (codes "apps"))
        (plain (codes "no connection")))
      valid fails
