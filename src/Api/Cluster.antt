-- ===== src/Api/Cluster.antt =====
-- api/v1alpha1/natscluster_types.go and the constants of api/v1alpha1/conditions.go
use nats_operator_experiment.Common.{ℕ, Str, codes, List, Option}
use nats_operator_experiment.Common.Int.{ℤ}
use nats_operator_experiment.Api.Meta.{ObjectMeta, Condition}

pub record WorkloadReference : Type 0 where
  pub kind : Str
  pub name : Str

pub record NatsClusterSpec : Type 0 where
  pub server_ref : Option WorkloadReference
  pub monitoring_port : Option ℤ
  pub external_urls : List Str

pub record NatsClusterStatus : Type 0 where
  pub conditions : List Condition
  pub account_count : ℕ
  pub user_count : ℕ
  pub last_config_hash : Str

pub record NatsCluster : Type 0 where
  pub meta : ObjectMeta
  pub open meta use {name, namespace, generation}
  pub spec : NatsClusterSpec
  pub status : NatsClusterStatus

abbrev pub condition_ready : Str
condition_ready = codes "Ready"

abbrev pub reason_reconciled : Str
reason_reconciled = codes "Reconciled"

abbrev pub reason_reconcile_error : Str
reason_reconcile_error = codes "ReconcileError"

abbrev pub reason_invalid_regex : Str
reason_invalid_regex = codes "InvalidRegex"

abbrev pub reason_namespace_not_allowed : Str
reason_namespace_not_allowed = codes "NamespaceNotAllowed"

abbrev pub reason_namespace_fetch_error : Str
reason_namespace_fetch_error = codes "NamespaceFetchError"

abbrev pub reason_system_account_conflict : Str
reason_system_account_conflict = codes "SystemAccountConflict"
