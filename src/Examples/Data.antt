-- ===== src/Examples/Data.antt =====
-- A cluster with one account, whose users come from its own namespace, and two users; and surroundings
-- of the program that answer from them. The world is a clock.
use nats_operator_experiment.Common.{
  ℕ, ◌+◌, Str, codes, Bool, true, false, none, some, [], ◌∷◌, str_eq,
}
use nats_operator_experiment.Common.Exec.{Error, api, plain, ok, pure, raise}
use nats_operator_experiment.Nkeys.{KeySource}
use nats_operator_experiment.Api.Meta.{ObjectMeta}
use nats_operator_experiment.Api.User.{NatsUser, Permissions}
use nats_operator_experiment.Api.Account.{
  NatsAccount, UserRule, user_rule_action_grant, user_rule_action_deny,
}
use nats_operator_experiment.Api.Cluster.{NatsCluster}
use nats_operator_experiment.Config.Convert.{UserWithPublicKey, AccountWithUsers}
use nats_operator_experiment.Controller.Client.{Client, NamespacedName, Pod}
use nats_operator_experiment.Controller.Rules.{Regexp}
use nats_operator_experiment.Controller.Reload.{PodRuntime}
use nats_operator_experiment.Controller.Conditions.{Operator}

abbrev pub narrow : ℕ → Bool
narrow c = false

abbrev pub meta_of : Str → Str → ObjectMeta
meta_of name namespace = record { name = name; namespace = namespace; generation = 1 }

abbrev pub cluster : NatsCluster
cluster = record {
  meta = meta_of (codes "main") (codes "apps");
  spec = record {
    server_ref = some (record { kind = codes "StatefulSet"; name = codes "nats" });
    monitoring_port = none;
    external_urls = [];
  };
  status = record { conditions = []; account_count = 0; user_count = 0; last_config_hash = [] };
}

abbrev pub same_namespace_rule : UserRule
same_namespace_rule = record {
  action = user_rule_action_grant;
  namespace_regex = none;
  namespace_labels = none;
  same_namespace = some true;
}

abbrev pub deny_rule : UserRule
deny_rule = record {
  action = user_rule_action_deny;
  namespace_regex = some (codes "guests");
  namespace_labels = none;
  same_namespace = none;
}

abbrev pub labelled_rule : UserRule
labelled_rule = record {
  action = user_rule_action_grant;
  namespace_regex = none;
  namespace_labels = some ((codes "team", codes "blue") ∷ []);
  same_namespace = none;
}

abbrev pub account : NatsAccount
account = record {
  meta = meta_of (codes "acme") (codes "apps");
  spec = record {
    cluster_ref = record { name = codes "main" };
    user_rules = deny_rule ∷ same_namespace_rule ∷ [];
    jet_stream = none;
    limits = none;
    system_account = true;
  };
  status = record { conditions = []; user_count = 0; debug_command = [] };
}

abbrev pub permissions : Permissions
permissions = record {
  publish = some (record { allow = codes "orders.>" ∷ []; deny = [] });
  subscribe = some (record { allow = codes "orders.>" ∷ []; deny = codes "audit.>" ∷ [] });
  allow_responses = none;
}

abbrev pub user_named : Str → NatsUser
user_named name = record {
  meta = meta_of name (codes "apps");
  spec = record {
    account_ref = record { name = codes "acme"; namespace = [] };
    inbox_prefix = none;
    insecure_shared_inbox_prefix = false;
    permissions = some permissions;
  };
  status = record {
    conditions = [];
    nkey_public_key = [];
    secret_ref = none;
    debug_command = [];
    connection_urls = [];
    is_system_account = false;
  };
}

abbrev pub user : NatsUser
user = user_named (codes "alice")

abbrev pub entry : UserWithPublicKey
entry = record { user = user; public_key = codes "UALICE"; inbox_prefix = codes "_I_A" }

abbrev pub account_with_users : AccountWithUsers
account_with_users = record { account = account; users = entry ∷ [] }

abbrev pub key : NamespacedName
key = record { name = codes "main"; namespace = codes "apps" }

abbrev missing : Error
missing = api (record { not_found = true; conflict = false; text = codes "not found" })

abbrev pub pod : Pod
pod = record { name = codes "nats-0"; phase = codes "Running"; pod_ip = codes "10.0.0.7" }

-- no secret is there yet, and every update succeeds
abbrev pub cluster_api : Client
cluster_api = record {
  World = ℕ;
  LabelSelector = Unit {0};
  Selector = Unit {0};
  get_cluster = λ k. pure cluster;
  list_accounts = λ n. pure (account ∷ []);
  list_users = pure (user_named (codes "bob") ∷ user ∷ []);
  get_account = λ k. pure account;
  list_clusters = λ n. pure (cluster ∷ []);
  get_namespace = λ n. pure [];
  get_secret = λ k. raise missing;
  update_secret = λ s. pure tt;
  create_secret = λ s. pure tt;
  update_user_status = λ u. pure u;
  update_account_status = λ a. pure a;
  update_cluster_status = λ x. pure x;
  create_or_update_config_map = λ k d x. pure (codes "created");
  get_config_map = λ k. pure ((codes "auth.conf", codes "# empty") ∷ []);
  get_deployment = λ k. pure tt;
  get_stateful_set = λ k. pure tt;
  label_selector_as_selector = λ l. ok tt;
  list_pods = λ n s. pure (pod ∷ []);
  set_owner_reference = λ u s. ok s;
  set_status_condition = λ cs c. c ∷ [];
}

abbrev pub keys : KeySource ℕ
keys = record {
  KeyPair = Unit {0};
  create_user = pure tt;
  public_key = λ k. ok (codes "UALICE");
  seed = λ k. ok (codes "SUALICE");
  random_bytes = λ n. pure (1 ∷ 2 ∷ 3 ∷ 4 ∷ 5 ∷ 6 ∷ 7 ∷ 8 ∷ 9 ∷ 10 ∷ []);
}

-- the pods show the current configuration if `current`
abbrev pub pods_showing : Bool → PodRuntime ℕ
pods_showing current = record {
  is_config_current = λ n p h. pure current;
  reload_pod = λ n p. pure tt;
  now = λ t. (t, t);
  sleep = λ n t. (true, t + n);
  context_error = plain (codes "context done");
}

-- an expression matches the text that it is
abbrev pub literal : Regexp
literal = record { Regex = Str; compile = λ s. ok s; match_string = λ r s. str_eq r s }

abbrev pub operator : Operator
operator = record { namespace = codes "ops"; deployment_name = codes "operator" }

abbrev pub digest : Str → Str
digest s = codes "ab12"
