-- ===== src/Cli/Build.antt =====
-- `buildConfigForCluster` of cmd/cli/cmd/generate.go
pub mod Operator
use nats_operator_experiment.Common.{
  Str, codes, Bool, ◌&&◌, ◌||◌, List, [], ◌++◌, str_eq, sort_by, select, map,
}
use nats_operator_experiment.Api.User.{NatsUser}
use nats_operator_experiment.Api.Account.{NatsAccount}
use nats_operator_experiment.Api.Cluster.{NatsCluster}
use nats_operator_experiment.Config.Types.{NatsConfig}
use nats_operator_experiment.Config.Convert.{
  UserWithPublicKey, AccountWithUsers, convert_to_nats_config,
}
use nats_operator_experiment.Controller.Users.{account_namespace_of}
use nats_operator_experiment.Controller.Accounts.{entry_le}

pub record LoadedResources : Type 0 where
  pub clusters : List NatsCluster
  pub accounts : List NatsAccount
  pub users : List NatsUser

-- two namespaces that do not differ, where an unset one differs from none
unfoldable pub same_or_unset : Str → Str → Bool
same_or_unset a b = str_eq a [] || (str_eq b [] || str_eq a b)

unfoldable pub account_in_cluster : NatsCluster → NatsAccount → Bool
account_in_cluster cluster acct =
    str_eq acct.spec.cluster_ref.name cluster.name && same_or_unset acct.namespace cluster.namespace

unfoldable pub user_in_account : NatsAccount → NatsUser → Bool
user_in_account acct user =
    str_eq user.spec.account_ref.name acct.name
    && same_or_unset (account_namespace_of user) acct.namespace

-- a placeholder stands for the key
unfoldable pub placeholder_entry : NatsUser → UserWithPublicKey
placeholder_entry user = record {
  user = user;
  public_key = codes "<nkey-for:" ++ (user.name ++ codes ">");
  inbox_prefix = [];
}

unfoldable pub account_entry : List NatsUser → NatsAccount → AccountWithUsers
account_entry users acct = record {
  account = acct;
  users = sort_by entry_le (map placeholder_entry (select (user_in_account acct) users));
}

unfoldable pub build_config_for_cluster : NatsCluster → LoadedResources → NatsConfig
build_config_for_cluster cluster res =
    convert_to_nats_config
      (map (account_entry res.users) (select (account_in_cluster cluster) res.accounts))
