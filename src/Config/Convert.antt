-- ===== src/Config/Convert.antt =====
-- `ConvertToNatsConfig` of internal/natsconfig/convert.go: from the resources to the configuration.
-- `sort.Strings` is insertion sort here, as any sort by a total order gives the same list.
pub mod Flagged
pub mod SystemAccount
pub mod Accounts
use nats_operator_experiment.Common.{
  Str, Bool, Option, none, some, List, [], ◌∷◌, ◌++◌, Map, put, sort_by, str_le, if◌then◌else◌, map,
}
use nats_operator_experiment.Api.Meta.{Quantity}
use nats_operator_experiment.Api.User.{NatsUser}
use nats_operator_experiment.Api.Account.{NatsAccount, AccountJetStream, AccountLimits}
use nats_operator_experiment.Config.Types.{
  NatsConfig, AccountConfig, JetStreamConfig, LimitsConfig, UserConfig,
}
use nats_operator_experiment.Config.Quantities.{quantity_to_nats_size}
use nats_operator_experiment.Config.Permissions.{convert_permissions}

pub record UserWithPublicKey : Type 0 where
  pub user : NatsUser
  pub public_key : Str
  pub inbox_prefix : Str

pub record AccountWithUsers : Type 0 where
  pub account : NatsAccount
  pub users : List UserWithPublicKey

-- a field that stays the empty string where there is no quantity
abbrev size_or_empty : Option Quantity → Str
size_or_empty none = []
size_or_empty (some q) = quantity_to_nats_size q

unfoldable pub convert_jet_stream : AccountJetStream → JetStreamConfig
convert_jet_stream js = record {
  max_memory = size_or_empty js.max_memory;
  max_file = size_or_empty js.max_file;
  max_streams = js.max_streams;
  max_consumers = js.max_consumers;
  max_bytes_required = js.max_bytes_required;
  memory_max_stream_bytes = size_or_empty js.memory_max_stream_bytes;
  disk_max_stream_bytes = size_or_empty js.disk_max_stream_bytes;
  max_ack_pending = js.max_ack_pending;
}

unfoldable pub convert_limits : AccountLimits → LimitsConfig
convert_limits l = record {
  max_connections = l.max_connections;
  max_subscriptions = l.max_subscriptions;
  max_payload = size_or_empty l.max_payload;
  max_leafnodes = l.max_leafnodes;
}

unfoldable pub convert_user : UserWithPublicKey → UserConfig
convert_user uwk = record {
  nkey = uwk.public_key;
  permissions = some (convert_permissions uwk.user.spec.permissions uwk.inbox_prefix);
}

-- one round of the loop over the accounts
unfoldable pub convert_account : AccountWithUsers → AccountConfig
convert_account awu = record {
  jet_stream = elim awu.account.spec.jet_stream [
    | none ↦ none
    | some js ↦ some (convert_jet_stream js)
  ];
  limits = elim awu.account.spec.limits [ none ↦ none | some l ↦ some (convert_limits l) ];
  users = map convert_user awu.users;
}

-- `cfg.Accounts[name] = acctCfg` for each account: of two with one name the later stays
unfoldable pub convert_accounts : Map AccountConfig → List AccountWithUsers → Map AccountConfig
convert_accounts m [] = m
convert_accounts m (awu ∷ rest) =
    convert_accounts (put awu.account.name (convert_account awu) m) rest

unfoldable pub system_candidates : List AccountWithUsers → List Str
system_candidates [] = []
system_candidates (awu ∷ rest) =
    if awu.account.spec.system_account
    then awu.account.name ∷ system_candidates rest
    else system_candidates rest

-- the switch on the number of candidates: the system account, and the conflicts
unfoldable pub select_system_account : List Str → Str × List Str
select_system_account [] = ([], [])
select_system_account (name ∷ []) = (name, [])
select_system_account (a ∷ b ∷ rest) = ([], sort_by str_le (a ∷ b ∷ rest))

unfoldable pub convert_to_nats_config : List AccountWithUsers → NatsConfig
unfolding select_system_account
convert_to_nats_config accounts =
    let (name, conflicts) = select_system_account (system_candidates accounts) in
    record {
      system_account = name;
      system_account_conflicts = conflicts;
      accounts = convert_accounts [] accounts;
    }
