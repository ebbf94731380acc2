-- ===== src/Controller/Client.antt =====
-- What the controller is given: the client of the API server, with the state of the cluster as
-- `World`, the owner references of controllerutil and `SetStatusCondition` of apimachinery. A call
-- that updates an object returns it as the server sent it back.
use nats_operator_experiment.Common.{Str, List, Option, Map}
use nats_operator_experiment.Common.Exec.{Result, Exec}
use nats_operator_experiment.Api.Meta.{Condition}
use nats_operator_experiment.Api.User.{NatsUser}
use nats_operator_experiment.Api.Account.{NatsAccount}
use nats_operator_experiment.Api.Cluster.{NatsCluster}

-- types.NamespacedName
pub record NamespacedName : Type 0 where
  pub name : Str
  pub namespace : Str

-- corev1.Secret; `entries` is its field Data, where `none` is a nil map
pub record Secret : Type 0 where
  pub key : NamespacedName
  pub entries : Option (Map Str)

-- corev1.Pod, with what the program reads of it
pub record Pod : Type 0 where
  pub name : Str
  pub phase : Str
  pub pod_ip : Str

pub record Client : Type 1 where
  pub World : Type 0
  pub LabelSelector : Type 0
  pub Selector : Type 0
  pub get_cluster : NamespacedName → Exec World NatsCluster
  pub list_accounts : Str → Exec World (List NatsAccount)
  pub list_users : Exec World (List NatsUser)
  pub get_account : NamespacedName → Exec World NatsAccount
  pub list_clusters : Str → Exec World (List NatsCluster)
  -- the labels of the namespace
  pub get_namespace : Str → Exec World (Map Str)
  pub get_secret : NamespacedName → Exec World Secret
  pub update_secret : Secret → Exec World (Unit {0})
  pub create_secret : Secret → Exec World (Unit {0})
  pub update_user_status : NatsUser → Exec World NatsUser
  pub update_account_status : NatsAccount → Exec World NatsAccount
  pub update_cluster_status : NatsCluster → Exec World NatsCluster
  -- controllerutil.CreateOrUpdate of the ConfigMap with that key, data and controlling cluster
  pub create_or_update_config_map : NamespacedName → Map Str → NatsCluster → Exec World Str
  -- its data
  pub get_config_map : NamespacedName → Exec World (Map Str)
  pub get_deployment : NamespacedName → Exec World LabelSelector
  pub get_stateful_set : NamespacedName → Exec World LabelSelector
  pub label_selector_as_selector : LabelSelector → Result Selector
  pub list_pods : Str → Selector → Exec World (List Pod)
  pub set_owner_reference : NatsUser → Secret → Result Secret
  pub set_status_condition : List Condition → Condition → List Condition
