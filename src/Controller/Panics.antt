-- ===== src/Controller/Panics.antt =====
-- Surroundings of the operator in which no call panics, and what the parts of Reconcile do in them.
pub mod Conditions
pub mod Rules
pub mod Secrets
pub mod Users
pub mod Pods
pub mod Run
use nats_operator_experiment.Common.{ℕ, Str, List, Option, none, Map, ◌≡◌, ◌≢◌}
use nats_operator_experiment.Common.Exec.{Result, ok, panic, Exec}
use nats_operator_experiment.Common.Panics.{NoPanic}
use nats_operator_experiment.Nkeys.{KeySource}
use nats_operator_experiment.Api.User.{NatsUser}
use nats_operator_experiment.Api.Account.{NatsAccount}
use nats_operator_experiment.Api.Cluster.{NatsCluster}
use nats_operator_experiment.Controller.Client.{Client, NamespacedName, Secret}
use nats_operator_experiment.Controller.Rules.{Regexp}
use nats_operator_experiment.Controller.Reload.{PodRuntime}
use nats_operator_experiment.Controller.Reload.Waiting.{IsClock}

-- The calls may fail, but do not panic; a secret that is read has a map of data.
pub record IsCalmClient (c : Client) : Type 0 where
  pub get_cluster : (k : NamespacedName) → NoPanic (c.get_cluster k)
  pub list_accounts : (n : Str) → NoPanic (c.list_accounts n)
  pub list_users : NoPanic c.list_users
  pub get_namespace : (n : Str) → NoPanic (c.get_namespace n)
  pub get_secret : (k : NamespacedName) → NoPanic (c.get_secret k)
  pub has_map :
      (k : NamespacedName) (w w' : c.World) (s : Secret)
      → c.get_secret k w ≡ (ok s, w')
      → s.entries ≢ none
  pub update_secret : (s : Secret) → NoPanic (c.update_secret s)
  pub create_secret : (s : Secret) → NoPanic (c.create_secret s)
  pub update_user_status : (u : NatsUser) → NoPanic (c.update_user_status u)
  pub update_account_status : (a : NatsAccount) → NoPanic (c.update_account_status a)
  pub update_cluster_status : (x : NatsCluster) → NoPanic (c.update_cluster_status x)
  pub create_or_update_config_map :
      (k : NamespacedName) (d : Map Str) (x : NatsCluster)
      → NoPanic (c.create_or_update_config_map k d x)
  pub get_deployment : (k : NamespacedName) → NoPanic (c.get_deployment k)
  pub get_stateful_set : (k : NamespacedName) → NoPanic (c.get_stateful_set k)
  pub label_selector_as_selector : (l : c.LabelSelector) → c.label_selector_as_selector l ≢ panic
  pub list_pods : (n : Str) (s : c.Selector) → NoPanic (c.list_pods n s)
  pub set_owner_reference : (u : NatsUser) (s : Secret) → c.set_owner_reference u s ≢ panic

pub record IsCalmKeys {W : Type 0} (keys : KeySource W) : Type 0 where
  pub create_user : NoPanic keys.create_user
  pub public_key : (k : keys.KeyPair) → keys.public_key k ≢ panic
  pub seed : (k : keys.KeyPair) → keys.seed k ≢ panic
  pub random_bytes : (n : ℕ) → NoPanic (keys.random_bytes n)

pub record IsCalmRegexp (re : Regexp) : Type 0 where
  pub compile : (s : Str) → re.compile s ≢ panic

pub record IsCalmRuntime {W : Type 0} (p : PodRuntime W) : Type 0 where
  pub is_config_current : (n m h : Str) → NoPanic (p.is_config_current n m h)
  pub reload_pod : (n m : Str) → NoPanic (p.reload_pod n m)
  pub clock : W → ℕ
  pub is_clock : IsClock p clock
