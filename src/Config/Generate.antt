-- ===== src/Config/Generate.antt =====
-- `Generate` of internal/natsconfig/generate.go: accounts, the sentinel user and the whole file.
use nats_operator_experiment.Common.{
  ℕ, suc, ◌+◌, Str, codes, Bool, none, some, List, [], ◌∷◌, ◌++◌, Map, find, keys, sort_by, str_le,
  if◌then◌else◌, ◌==◌, length,
}
use nats_operator_experiment.Config.Quote.{quote}
use nats_operator_experiment.Config.Types.{
  NatsConfig, AccountConfig, UserConfig, PermissionRuleConfig,
}
use nats_operator_experiment.Config.Writer.{
  write_line, repeat_indent, write_optional_jet_stream, write_optional_limits,
}
use nats_operator_experiment.Config.UserWriter.{write_users, write_some_users}

abbrev pub sentinel_nkey : Str
sentinel_nkey = codes "UCIDQZZKASESVE5OOIFA3HJAQNSHYMUOSFPKY4FTDKMWNVIO4JW4Q5Q6"

abbrev pub deny_all_rule : PermissionRuleConfig
deny_all_rule = record { allow = []; deny = codes ">" ∷ [] }

abbrev pub sentinel_user : UserConfig
sentinel_user = record {
  nkey = sentinel_nkey;
  permissions = some (record {
    publish = some deny_all_rule;
    subscribe = some deny_all_rule;
    allow_responses = none;
  });
}

-- `accounts[name]` on a name that is missing
abbrev pub zero_account : AccountConfig
zero_account = record { jet_stream = none; limits = none; users = [] }

abbrev pub account_at : Str → Map AccountConfig → AccountConfig
account_at name m = elim (find name m) [ none ↦ zero_account | some acct ↦ acct ]

unfoldable pub total_users : Map AccountConfig → ℕ
total_users [] = 0
total_users ((name, a) ∷ rest) = length a.users + total_users rest

module _ (wide : ℕ → Bool) where
  unfoldable pub write_account : Str → Str → AccountConfig → ℕ → Str
  write_account b name acct indent =
      let prefix = repeat_indent indent in
      let b₀ = write_line b prefix (name ++ codes " {") in
      let b₁ = write_optional_jet_stream b₀ acct.jet_stream (suc indent) in
      let b₂ = write_optional_limits b₁ acct.limits (suc indent) in
      let b₃ = write_some_users wide b₂ acct.users (suc indent) in write_line b₃ prefix (codes "}")

  unfoldable pub write_sentinel_authorization : Str → Str
  write_sentinel_authorization b =
      let b₀ = write_line b [] (codes "authorization {") in
      let b₁ = write_users wide b₀ (sentinel_user ∷ []) 1 in write_line b₁ [] (codes "}")

  unfoldable pub write_system_account : Str → Str → Str
  write_system_account b [] = b
  write_system_account b (c ∷ name) =
      write_line b [] (codes "system_account: " ++ quote wide (c ∷ name))

  -- the body of `if totalUsers(accounts) == 0 { … }`
  unfoldable pub write_sentinel_text : Str → Str
  write_sentinel_text b =
      let b₀ =
        write_line b []
          (codes "# WARNING: no NatsUser resources defined. Emitting deny-all sentinel") in
      let b₁ =
        write_line b₀ []
          (codes "# user (implicitly in $G) to force NATS to require authentication.") in
      let b₂ =
        write_line b₁ [] (codes "# Provision NatsUser resources to enable real client access.") in
      write_sentinel_authorization b₂

  unfoldable pub write_missing_users : Str → Map AccountConfig → Str
  write_missing_users b accounts = if total_users accounts == 0 then write_sentinel_text b else b

  -- the loop over the sorted names
  unfoldable pub write_accounts : Str → List Str → Map AccountConfig → Str
  write_accounts b [] accounts = b
  write_accounts b (name ∷ names) accounts =
      write_accounts (write_account b name (account_at name accounts) 1) names accounts

  unfoldable pub generate : NatsConfig → Str
  generate cfg =
      let b₀ = write_line [] [] (codes "# Auto-generated by nats-operator - DO NOT EDIT") in
      let b₁ = write_system_account b₀ cfg.system_account in
      let b₂ = write_missing_users b₁ cfg.accounts in
      let b₃ = write_line b₂ [] (codes "accounts {") in
      let b₄ = write_accounts b₃ (sort_by str_le (keys cfg.accounts)) cfg.accounts in
      write_line b₄ [] (codes "}")
