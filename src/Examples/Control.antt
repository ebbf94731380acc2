-- ===== src/Examples/Control.antt =====
-- The theorems about the cluster reconciler, applied.
use nats_operator_experiment.Common.{
  ℕ, codes, select, str_eq, sort_by, find, put, ◌+◌, arith, some, Bool, true, false, [], ◌∷◌, ◌≡◌,
  refl,
}
use nats_operator_experiment.Common.Exec.{is_not_found, ok}
use nats_operator_experiment.Common.{All}
use nats_operator_experiment.Common.Exec.{Yields, Yields-pure, Result}
use nats_operator_experiment.Controller.Users.Same.{KeepsUsers}
use nats_operator_experiment.Controller.Users.Admitted.{OneOf, reconcile_users-OneOf}
use nats_operator_experiment.Controller.Accounts.Coherent.{Coherent}
use nats_operator_experiment.Controller.Reload.{config_sync_timeout, max_checks}
use nats_operator_experiment.Controller.Reload.Waiting.{IsClock, wait-ends}
use nats_operator_experiment.Common.{◌↔◌}
use nats_operator_experiment.Controller.Rules.{match_labels}
use nats_operator_experiment.Controller.Accounts.{belongs_to}
use nats_operator_experiment.Controller.Requests.{map_account_to_cluster, cluster_key}
use nats_operator_experiment.Controller.Requests.Affected.{map_account_to_cluster_iff}
use nats_operator_experiment.Examples.Data.{cluster, account, user}
use nats_operator_experiment.Controller.Reconcile.{Process, reconcile, done, was_reloaded}
use nats_operator_experiment.Controller.Reconcile.Settled.{Settled}
use nats_operator_experiment.Controller.Reconcile.{
  needs_reload_attempt, ensure_config_map, report, surface_conflicts, conclude, finish,
  reload_cluster, reload_pass, sync_pods, publish, reconcile_cluster, reconcile_found,
}
use nats_operator_experiment.Controller.Accounts.{
  list_matching_accounts, list_all_users, flagged_names, only_name, reconcile_valid_account,
  reject_account, judge_account, add_account, reconcile_accounts, reconcile_accounts_and_users,
}
use nats_operator_experiment.Controller.Users.{
  account_namespace_of, user_references_account, with_connection_status, admit_user, refuse_user,
  judge_user, reconcile_user, add_round, reconcile_users,
}
use nats_operator_experiment.Controller.Secrets.{
  share_existing, status_is_current, resolve_inbox_prefix, store_prefix, isolate_existing,
  decide_prefix, save_secret, save_status, use_existing_secret, new_entries, create_new_secret,
  use_found, ensure_nkey_secret,
}
use nats_operator_experiment.Controller.Conditions.{
  set_account_condition, set_user_condition, set_cluster_condition,
}
use nats_operator_experiment.Controller.Reload.{
  after_sleep, after_now, after_check, wait_loop, wait_for_current_config, reload_if_current,
  reload_running, reload_one, reload_each, workload_selector, reload_nats_pods,
}
use nats_operator_experiment.Controller.Rules.{
  validate_regex_rules, match_regex, match_labels, match_regex_or_labels, rule_matches_user,
  evaluate,
}
use nats_operator_experiment.Config.Convert.{
  convert_accounts, system_candidates, select_system_account, convert_to_nats_config,
}
use nats_operator_experiment.Nkeys.{generate_user_nkey, generate_inbox_prefix}
use nats_operator_experiment.Common.Exec.{wrap_result, wrapped}
use nats_operator_experiment.Examples.Data.{
  narrow, literal, cluster_api, keys, pods_showing, operator, digest, key,
}

abbrev started : Process ℕ
started = record { world = 0; reloaded_once = [] }

abbrev ended : Process ℕ
ended = record { world = 0; reloaded_once = key ∷ [] }

run :
    reconcile narrow literal cluster_api keys (pods_showing true) operator digest key started
    ≡ (ok done, ended)
unfolding select str_eq sort_by find put was_reloaded needs_reload_attempt ensure_config_map report
    surface_conflicts conclude finish reload_cluster reload_pass sync_pods publish reconcile_cluster
    reconcile_found reconcile list_matching_accounts list_all_users flagged_names only_name
    reconcile_valid_account reject_account judge_account add_account reconcile_accounts
    reconcile_accounts_and_users account_namespace_of user_references_account with_connection_status
    admit_user refuse_user judge_user reconcile_user add_round reconcile_users share_existing
    status_is_current resolve_inbox_prefix store_prefix isolate_existing decide_prefix save_secret
    save_status use_existing_secret new_entries create_new_secret use_found ensure_nkey_secret
    set_account_condition set_user_condition set_cluster_condition after_sleep after_now after_check
    wait_loop wait_for_current_config reload_if_current reload_running reload_one reload_each
    workload_selector reload_nats_pods validate_regex_rules match_regex match_labels
    match_regex_or_labels rule_matches_user evaluate convert_accounts system_candidates
    select_system_account convert_to_nats_config generate_user_nkey generate_inbox_prefix
    is_not_found wrap_result wrapped
run = refl

cluster_api-KeepsUsers : KeepsUsers cluster_api
cluster_api-KeepsUsers u = Yields-pure u (refl, refl)

reconcile_users-OneOf_example :
    Yields
      (λ pass.
        All (OneOf narrow literal cluster_api keys operator account (user ∷ [])) pass.entries)
      (reconcile_users narrow literal cluster_api keys operator cluster account
        (codes "acme")
        (user ∷ []))
reconcile_users-OneOf_example =
    reconcile_users-OneOf narrow literal cluster_api keys operator cluster_api-KeepsUsers cluster
      account (codes "acme") (user ∷ [])

stale-IsClock : IsClock (pods_showing false) (λ t. t)
stale-IsClock = record {
  check-le = λ n m h w. omega arith;
  now_after = λ w. omega arith;
  now_before = λ w. omega arith;
  sleep-le = λ n w e. omega arith;
}

wait-ends_example :
    (r : Result Bool × ℕ) × (wait_loop
        (pods_showing false)
        max_checks
        (codes "apps")
        (codes "nats-0")
        (codes "ab12")
        (0 + config_sync_timeout)
        0
      ≡ some r)
    × (wait_for_current_config (pods_showing false) (codes "apps") (codes "nats-0") (codes "ab12") 0
        ≡ r)
wait-ends_example =
    wait-ends (pods_showing false) (λ t. t) stale-IsClock (codes "apps") (codes "nats-0")
      (codes "ab12") 0

map_account_to_cluster_iff_example :
    (map_account_to_cluster account ≡ cluster_key cluster ∷ [])
    ↔ ((belongs_to cluster account ≡ true) × (account.namespace ≡ cluster.namespace))
map_account_to_cluster_iff_example = map_account_to_cluster_iff account cluster
