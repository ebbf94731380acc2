-- ===== src/Api/Account.antt =====
-- api/v1alpha1/natsaccount_types.go
use nats_operator_experiment.Common.{ℕ, Str, codes, Bool, List, Option, Map}
use nats_operator_experiment.Common.Int.{ℤ}
use nats_operator_experiment.Api.Meta.{ObjectMeta, Quantity, Condition}

-- `UserRuleAction` is a string type with two named values.
abbrev pub UserRuleAction : Type 0
UserRuleAction = Str

abbrev pub user_rule_action_grant : UserRuleAction
user_rule_action_grant = codes "grant"

abbrev pub user_rule_action_deny : UserRuleAction
user_rule_action_deny = codes "deny"

pub record UserRule : Type 0 where
  pub action : UserRuleAction
  pub namespace_regex : Option Str
  pub namespace_labels : Option (Map Str)
  pub same_namespace : Option Bool

pub record LocalObjectReference : Type 0 where
  pub name : Str

pub record AccountJetStream : Type 0 where
  pub max_memory : Option Quantity
  pub max_file : Option Quantity
  pub max_streams : Option ℤ
  pub max_consumers : Option ℤ
  pub max_bytes_required : Option Bool
  pub memory_max_stream_bytes : Option Quantity
  pub disk_max_stream_bytes : Option Quantity
  pub max_ack_pending : Option ℤ

pub record AccountLimits : Type 0 where
  pub max_connections : Option ℤ
  pub max_subscriptions : Option ℤ
  pub max_payload : Option Quantity
  pub max_leafnodes : Option ℤ

pub record NatsAccountSpec : Type 0 where
  pub cluster_ref : LocalObjectReference
  pub user_rules : List UserRule
  pub jet_stream : Option AccountJetStream
  pub limits : Option AccountLimits
  pub system_account : Bool

pub record NatsAccountStatus : Type 0 where
  pub conditions : List Condition
  pub user_count : ℕ
  pub debug_command : Str

pub record NatsAccount : Type 0 where
  pub meta : ObjectMeta
  pub open meta use {name, namespace, generation}
  pub spec : NatsAccountSpec
  pub status : NatsAccountStatus
