-- ===== src/Examples/Panics.antt =====
-- The theorem about panics, applied to the surroundings of Examples/Data.antt.
use nats_operator_experiment.Common.{true, arith}
use nats_operator_experiment.Common.Exec.{err-ne-ok}
use nats_operator_experiment.Common.Panics.{NoPanic, NoPanic-pure, NoPanic-raise, ok-ne-panic}
use nats_operator_experiment.Controller.Reconcile.{reconcile}
use nats_operator_experiment.Controller.Panics.{
  IsCalmClient, IsCalmKeys, IsCalmRegexp, IsCalmRuntime,
}
use nats_operator_experiment.Controller.Panics.Run.{reconcile-NoPanic}
use nats_operator_experiment.Examples.Data.{
  narrow, literal, cluster_api, keys, pods_showing, operator, digest, key,
}

cluster_api-IsCalmClient : IsCalmClient cluster_api
cluster_api-IsCalmClient = record {
  get_cluster = λ k. NoPanic-pure _;
  list_accounts = λ n. NoPanic-pure _;
  list_users = NoPanic-pure _;
  get_namespace = λ n. NoPanic-pure _;
  get_secret = λ k. NoPanic-raise _;
  has_map = λ k w w' s h. absurd (err-ne-ok h);
  update_secret = λ s. NoPanic-pure _;
  create_secret = λ s. NoPanic-pure _;
  update_user_status = λ u. NoPanic-pure _;
  update_account_status = λ a. NoPanic-pure _;
  update_cluster_status = λ x. NoPanic-pure _;
  create_or_update_config_map = λ k d x. NoPanic-pure _;
  get_deployment = λ k. NoPanic-pure _;
  get_stateful_set = λ k. NoPanic-pure _;
  label_selector_as_selector = λ l. ok-ne-panic;
  list_pods = λ n s. NoPanic-pure _;
  set_owner_reference = λ u s. ok-ne-panic;
}

keys-IsCalmKeys : IsCalmKeys keys
keys-IsCalmKeys = record {
  create_user = NoPanic-pure _;
  public_key = λ k. ok-ne-panic;
  seed = λ k. ok-ne-panic;
  random_bytes = λ n. NoPanic-pure _;
}

literal-IsCalmRegexp : IsCalmRegexp literal
literal-IsCalmRegexp = record { compile = λ s. ok-ne-panic }

pods-IsCalmRuntime : IsCalmRuntime (pods_showing true)
pods-IsCalmRuntime = record {
  is_config_current = λ n m h. NoPanic-pure _;
  reload_pod = λ n m. NoPanic-pure _;
  clock = λ t. t;
  is_clock = record {
    check-le = λ n m h w. omega arith;
    now_after = λ w. omega arith;
    now_before = λ w. omega arith;
    sleep-le = λ n w h. omega arith;
  };
}

reconcile-NoPanic_example :
    NoPanic (reconcile narrow literal cluster_api keys (pods_showing true) operator digest key)
reconcile-NoPanic_example =
    reconcile-NoPanic narrow literal literal-IsCalmRegexp cluster_api cluster_api-IsCalmClient keys
      keys-IsCalmKeys (pods_showing true) pods-IsCalmRuntime operator digest key
