-- ===== src/Config/UserWriter.antt =====
-- internal/natsconfig/generate.go: users and their permissions. `wide` is the parameter of
-- Config/Quote.antt, and the builder is that of Config/Writer.antt.
use nats_operator_experiment.Common.{
  ℕ, suc, Str, codes, Option, none, some, List, [], ◌∷◌, ◌++◌, if◌then◌else◌, Bool,
}
use nats_operator_experiment.Config.Quote.{quote}
use nats_operator_experiment.Config.Types.{
  UserConfig, PermissionsConfig, PermissionRuleConfig, ResponsePermissionConfig,
}
use nats_operator_experiment.Config.Writer.{write_line, write_int, repeat_indent}

module _ (wide : ℕ → Bool) where
  -- the loop of `quoteStrings` with strings.Join(…, ", ")
  unfoldable pub quote_strings : List Str → Str
  quote_strings [] = []
  quote_strings (s ∷ []) = quote wide s
  quote_strings (s ∷ t ∷ ss) = quote wide s ++ (codes ", " ++ quote_strings (t ∷ ss))

  -- `if ar.TTL != nil { … %q … }`
  unfoldable pub write_ttl : Str → Str → Option Str → Str
  write_ttl b prefix none = b
  write_ttl b prefix (some ttl) = write_line b prefix (codes "ttl: " ++ quote wide ttl)

  unfoldable pub write_structured_responses : Str → ResponsePermissionConfig → ℕ → Str
  write_structured_responses b ar indent =
      let prefix = repeat_indent indent in
      let inner = repeat_indent (suc indent) in
      let b₀ = write_line b prefix (codes "allow_responses {") in
      let b₁ = write_int b₀ inner (codes "max: ") ar.max_msgs in
      let b₂ = write_ttl b₁ inner ar.ttl in write_line b₂ prefix (codes "}")

  unfoldable pub write_allow_responses : Str → ResponsePermissionConfig → ℕ → Str
  write_allow_responses b ar indent =
      let structured = write_structured_responses b ar indent in
      elim ar.max_msgs [
        | some n ↦ structured
        | none ↦ elim ar.ttl [
          | some t ↦ structured
          | none ↦ write_line b (repeat_indent indent) (codes "allow_responses: true")
        ]
      ]

  -- `if len(xs) > 0 { … }`, for the lists of subjects
  unfoldable pub write_subjects : Str → Str → Str → List Str → Str
  write_subjects b prefix label [] = b
  write_subjects b prefix label (s ∷ ss) =
      write_line b prefix (label ++ (quote_strings (s ∷ ss) ++ codes "]"))

  unfoldable pub write_permission_rule : Str → Str → PermissionRuleConfig → ℕ → Str
  write_permission_rule b name rule indent =
      let prefix = repeat_indent indent in
      let inner = repeat_indent (suc indent) in
      let b₀ = write_line b prefix (name ++ codes " {") in
      let b₁ = write_subjects b₀ inner (codes "allow: [") rule.allow in
      let b₂ = write_subjects b₁ inner (codes "deny: [") rule.deny in
      write_line b₂ prefix (codes "}")

  unfoldable pub write_optional_rule : Str → Str → Option PermissionRuleConfig → ℕ → Str
  write_optional_rule b name none indent = b
  write_optional_rule b name (some rule) indent = write_permission_rule b name rule indent

  unfoldable pub write_enabled_responses : Str → Option ResponsePermissionConfig → ℕ → Str
  write_enabled_responses b none indent = b
  write_enabled_responses b (some ar) indent =
      if ar.enabled then write_allow_responses b ar indent else b

  unfoldable pub write_permissions : Str → PermissionsConfig → ℕ → Str
  write_permissions b perms indent =
      let prefix = repeat_indent indent in
      let b₀ = write_line b prefix (codes "permissions {") in
      let b₁ = write_optional_rule b₀ (codes "publish") perms.publish (suc indent) in
      let b₂ = write_optional_rule b₁ (codes "subscribe") perms.subscribe (suc indent) in
      let b₃ = write_enabled_responses b₂ perms.allow_responses (suc indent) in
      write_line b₃ prefix (codes "}")

  unfoldable pub write_user : Str → UserConfig → ℕ → Str
  write_user b user indent =
      let b₀ = write_line b (repeat_indent indent) (codes "nkey: " ++ user.nkey) in
      elim user.permissions [ none ↦ b₀ | some perms ↦ write_permissions b₀ perms indent ]

  -- the loop of `writeUsers`
  unfoldable pub write_each_user : Str → List UserConfig → ℕ → Str
  write_each_user b [] indent = b
  write_each_user b (user ∷ rest) indent =
      let inner = repeat_indent (suc indent) in
      let b₀ = write_line b inner (codes "{") in
      let b₁ = write_user b₀ user (suc (suc indent)) in
      write_each_user (write_line b₁ inner (codes "}")) rest indent

  unfoldable pub write_users : Str → List UserConfig → ℕ → Str
  write_users b users indent =
      let prefix = repeat_indent indent in
      let b₀ = write_line b prefix (codes "users = [") in
      let b₁ = write_each_user b₀ users indent in write_line b₁ prefix (codes "]")

  -- `if len(acct.Users) > 0 { … }`
  unfoldable pub write_some_users : Str → List UserConfig → ℕ → Str
  write_some_users b [] indent = b
  write_some_users b (user ∷ rest) indent = write_users b (user ∷ rest) indent
