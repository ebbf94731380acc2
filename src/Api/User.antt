-- ===== src/Api/User.antt =====
-- api/v1alpha1/natsuser_types.go
use nats_operator_experiment.Common.{Str, Bool, List, Option}
use nats_operator_experiment.Api.Meta.{ObjectMeta, Condition}
use nats_operator_experiment.Api.Responses.{AllowResponsesSpec}

pub record NamespacedObjectReference : Type 0 where
  pub name : Str
  pub namespace : Str

pub record PermissionRule : Type 0 where
  pub allow : List Str
  pub deny : List Str

pub record Permissions : Type 0 where
  pub publish : Option PermissionRule
  pub subscribe : Option PermissionRule
  pub allow_responses : Option AllowResponsesSpec

pub record NatsUserSpec : Type 0 where
  pub account_ref : NamespacedObjectReference
  pub inbox_prefix : Option Str
  pub insecure_shared_inbox_prefix : Bool
  pub permissions : Option Permissions

pub record SecretReference : Type 0 where
  pub name : Str

pub record NatsUserStatus : Type 0 where
  pub conditions : List Condition
  pub nkey_public_key : Str
  pub secret_ref : Option SecretReference
  pub debug_command : Str
  pub connection_urls : List Str
  pub is_system_account : Bool

pub record NatsUser : Type 0 where
  pub meta : ObjectMeta
  pub open meta use {name, namespace, generation}
  pub spec : NatsUserSpec
  pub status : NatsUserStatus
