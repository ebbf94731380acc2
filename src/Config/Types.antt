-- ===== src/Config/Types.antt =====
-- internal/natsconfig/types.go
use nats_operator_experiment.Common.{Str, Bool, List, Option, Map}
use nats_operator_experiment.Common.Int.{ℤ}

pub record PermissionRuleConfig : Type 0 where
  pub allow : List Str
  pub deny : List Str

pub record ResponsePermissionConfig : Type 0 where
  pub enabled : Bool
  pub max_msgs : Option ℤ
  pub ttl : Option Str

pub record PermissionsConfig : Type 0 where
  pub publish : Option PermissionRuleConfig
  pub subscribe : Option PermissionRuleConfig
  pub allow_responses : Option ResponsePermissionConfig

pub record UserConfig : Type 0 where
  pub nkey : Str
  pub permissions : Option PermissionsConfig

pub record LimitsConfig : Type 0 where
  pub max_connections : Option ℤ
  pub max_subscriptions : Option ℤ
  pub max_payload : Str
  pub max_leafnodes : Option ℤ

pub record JetStreamConfig : Type 0 where
  pub max_memory : Str
  pub max_file : Str
  pub max_streams : Option ℤ
  pub max_consumers : Option ℤ
  pub max_bytes_required : Option Bool
  pub memory_max_stream_bytes : Str
  pub disk_max_stream_bytes : Str
  pub max_ack_pending : Option ℤ

pub record AccountConfig : Type 0 where
  pub jet_stream : Option JetStreamConfig
  pub limits : Option LimitsConfig
  pub users : List UserConfig

-- The entries of `accounts` stand in the order in which a `range` over the Go map meets them; a
-- nil map is the empty one, since nothing in the program tells them apart.
pub record NatsConfig : Type 0 where
  pub system_account : Str
  pub system_account_conflicts : List Str
  pub accounts : Map AccountConfig
