-- ===== src/Config/Rendering.antt =====
-- The writers write the tree of Config/Document.antt.
use nats_operator_experiment.Common.{
  ℕ, suc, Str, codes, Bool, Option, none, some, List, [], ◌∷◌, ◌++◌, ◌≡◌, refl, sym, append_assoc,
  append-nil, Map, if◌then◌else◌, ◌==◌, ◌∙◌, Option-cases, Bool-cases, inl, inr, arith,
}
use nats_operator_experiment.Common.Int.{ℤ}
use nats_operator_experiment.Config.Types.{
  NatsConfig, AccountConfig, JetStreamConfig, LimitsConfig, UserConfig, PermissionsConfig,
  PermissionRuleConfig, ResponsePermissionConfig,
}
use nats_operator_experiment.Config.Writer.{
  repeat_indent, write_line, write_string, write_int, write_bool, write_jet_stream, write_limits,
  write_optional_jet_stream, write_optional_limits,
}
use nats_operator_experiment.Config.UserWriter.{
  write_subjects, write_permission_rule, write_ttl, write_structured_responses,
  write_allow_responses, write_optional_rule, write_enabled_responses, write_permissions,
  write_user, write_each_user, write_users, write_some_users,
}
use nats_operator_experiment.Config.Generate.{
  write_account, write_accounts, write_sentinel_authorization, write_system_account,
  write_missing_users, write_sentinel_text, generate, account_at, total_users,
}
use nats_operator_experiment.Config.Document.{
  Doc, end, line, one_line, render, render-join, string_field, int_field, bool_field,
  jet_stream_document, limits_document, optional, subjects_document, rule_document, ttl_document,
  structured_document, responses_document, enabled_document, permissions_document, user_document,
  each_user_document, users_document, some_users_document, account_document, accounts_document,
  sentinel_document, system_document, document,
}

write_line-one_line :
    (b : Str) (n : ℕ) (s : Str) → write_line b (repeat_indent n) s ≡ b ++ one_line n s
unfolding write_line one_line
write_line-one_line b n s = refl

write_line-top : (b s : Str) → write_line b [] s ≡ b ++ one_line 0 s
unfolding write_line one_line repeat_indent
write_line-top b s = refl

module _ (b : Str) (n : ℕ) (label : Str) where
  write_string-render :
      (v : Str) → write_string b (repeat_indent n) label v ≡ b ++ render n (string_field label v)
  unfolding write_string string_field render one_line write_line
  write_string-render [] = sym (append-nil b)
  write_string-render (c ∷ v) = rw append-nil

  write_int-render :
      (v : Option ℤ) → write_int b (repeat_indent n) label v ≡ b ++ render n (int_field label v)
  unfolding write_int int_field render one_line write_line
  write_int-render none = sym (append-nil b)
  write_int-render (some v) = rw append-nil

  write_bool-render :
      (v : Option Bool)
      → write_bool b (repeat_indent n) label v ≡ b ++ render n (bool_field label v)
  unfolding write_bool bool_field render one_line write_line
  write_bool-render none = sym (append-nil b)
  write_bool-render (some v) = rw append-nil

ruleset field_laws = (
  write_string-render, write_int-render, write_bool-render, write_line-one_line, write_line-top,
  render-join, append_assoc, append-nil,
)

bare_responses-render :
    (b : Str) (n : ℕ)
    → write_line b (repeat_indent n) (codes "allow_responses: true")
      ≡ b ++ render n (line (codes "allow_responses: true") end)
unfolding render
bare_responses-render b n = simp field_laws

write_jet_stream-render :
    (b : Str) (js : JetStreamConfig) (n : ℕ)
    → write_jet_stream b js n ≡ b ++ render n (jet_stream_document js)
write_jet_stream-render b js n =
    unfold write_jet_stream jet_stream_document render in simp field_laws

write_limits-render :
    (b : Str) (l : LimitsConfig) (n : ℕ) → write_limits b l n ≡ b ++ render n (limits_document l)
write_limits-render b l n = unfold write_limits limits_document render in simp field_laws

write_optional_jet_stream-render :
    (b : Str) (js : Option JetStreamConfig) (n : ℕ)
    → write_optional_jet_stream b js n ≡ b ++ render n (optional jet_stream_document js)
unfolding write_optional_jet_stream optional render
write_optional_jet_stream-render b none n = sym (append-nil b)
write_optional_jet_stream-render b (some js) n = write_jet_stream-render b js n

write_optional_limits-render :
    (b : Str) (l : Option LimitsConfig) (n : ℕ)
    → write_optional_limits b l n ≡ b ++ render n (optional limits_document l)
unfolding write_optional_limits optional render
write_optional_limits-render b none n = sym (append-nil b)
write_optional_limits-render b (some l) n = write_limits-render b l n

module _ (wide : ℕ → Bool) where
  write_subjects-render :
      (b : Str) (n : ℕ) (label : Str) (ss : List Str)
      → write_subjects wide b (repeat_indent n) label ss
        ≡ b ++ render n (subjects_document wide label ss)
  unfolding write_subjects subjects_document render
  write_subjects-render b n label [] = sym (append-nil b)
  write_subjects-render b n label (s ∷ ss) = simp field_laws

  write_permission_rule-render :
      (b name : Str) (rule : PermissionRuleConfig) (n : ℕ)
      → write_permission_rule wide b name rule n ≡ b ++ render n (rule_document wide name rule)
  write_permission_rule-render b name rule n =
      unfold write_permission_rule rule_document render in simp (field_laws, write_subjects-render)

  write_ttl-render :
      (b : Str) (n : ℕ) (ttl : Option Str)
      → write_ttl wide b (repeat_indent n) ttl ≡ b ++ render n (optional (ttl_document wide) ttl)
  unfolding write_ttl optional ttl_document render
  write_ttl-render b n none = sym (append-nil b)
  write_ttl-render b n (some t) = simp field_laws

  write_structured_responses-render :
      (b : Str) (ar : ResponsePermissionConfig) (n : ℕ)
      → write_structured_responses wide b ar n ≡ b ++ render n (structured_document wide ar)
  write_structured_responses-render b ar n =
      unfold write_structured_responses structured_document render in
      simp (field_laws, write_ttl-render)

  write_allow_responses-render :
      (b : Str) (ar : ResponsePermissionConfig) (n : ℕ)
      → write_allow_responses wide b ar n ≡ b ++ render n (responses_document wide ar)
  unfolding write_allow_responses responses_document
  write_allow_responses-render b ar n =
      ground (arith, write_structured_responses-render b ar n, bare_responses-render b n)

  write_optional_rule-render :
      (b name : Str) (rule : Option PermissionRuleConfig) (n : ℕ)
      → write_optional_rule wide b name rule n
        ≡ b ++ render n (optional (rule_document wide name) rule)
  unfolding write_optional_rule optional render
  write_optional_rule-render b name none n = sym (append-nil b)
  write_optional_rule-render b name (some rule) n = write_permission_rule-render b name rule n

  write_enabled_responses-render :
      (b : Str) (ar : Option ResponsePermissionConfig) (n : ℕ)
      → write_enabled_responses wide b ar n ≡ b ++ render n (optional (enabled_document wide) ar)
  unfolding write_enabled_responses optional enabled_document render
  write_enabled_responses-render b none n = sym (append-nil b)
  write_enabled_responses-render b (some ar) n =
      ground (arith, write_allow_responses-render b ar n, append-nil b)

  write_permissions-render :
      (b : Str) (perms : PermissionsConfig) (n : ℕ)
      → write_permissions wide b perms n ≡ b ++ render n (permissions_document wide perms)
  write_permissions-render b perms n =
      unfold write_permissions permissions_document render in
      simp (field_laws, write_optional_rule-render, write_enabled_responses-render)

  write_user-render :
      (b : Str) (user : UserConfig) (n : ℕ)
      → write_user wide b user n ≡ b ++ render n (user_document wide user)
  unfolding write_user user_document optional render
  write_user-render b user n = elim (Option-cases user.permissions) [
    | inl e ↦ rw e (simp field_laws)
    | inr (perms, e) ↦ rw e (simp (field_laws, write_permissions-render))
  ]

  pub write_each_user-render :
      (b : Str) (users : List UserConfig) (n : ℕ)
      → write_each_user wide b users n ≡ b ++ render (suc n) (each_user_document wide users)
  unfolding write_each_user each_user_document render
  write_each_user-render b [] n = sym (append-nil b)
  write_each_user-render b (user ∷ rest) n =
      let b₁ =
        write_user wide (write_line b (repeat_indent (suc n)) (codes "{")) user (suc (suc n)) in
      write_each_user-render (write_line b₁ (repeat_indent (suc n)) (codes "}")) rest n
      ∙ simp (field_laws, write_user-render)

  write_users-render :
      (b : Str) (users : List UserConfig) (n : ℕ)
      → write_users wide b users n ≡ b ++ render n (users_document wide users)
  write_users-render b users n =
      unfold write_users users_document render in simp (field_laws, write_each_user-render)

  write_some_users-render :
      (b : Str) (users : List UserConfig) (n : ℕ)
      → write_some_users wide b users n ≡ b ++ render n (some_users_document wide users)
  unfolding write_some_users some_users_document render
  write_some_users-render b [] n = sym (append-nil b)
  write_some_users-render b (user ∷ rest) n = write_users-render b (user ∷ rest) n

  write_account-render :
      (b name : Str) (acct : AccountConfig) (n : ℕ) (rest : Doc)
      → write_account wide b name acct n ++ render n rest
        ≡ b ++ render n (account_document wide name acct rest)
  write_account-render b name acct n rest =
      unfold write_account account_document render in
      simp (
        field_laws, write_optional_jet_stream-render, write_optional_limits-render,
        write_some_users-render,
      )

  write_accounts-render :
      (b : Str) (names : List Str) (accounts : Map AccountConfig)
      → write_accounts wide b names accounts ≡ b ++ render 1 (accounts_document wide names accounts)
  unfolding write_accounts accounts_document
  write_accounts-render b [] accounts = unfold render in sym (append-nil b)
  write_accounts-render b (name ∷ names) accounts =
      write_accounts-render (write_account wide b name (account_at name accounts) 1) names accounts
      ∙ write_account-render b name (account_at name accounts) 1
          (accounts_document wide names accounts)

  write_system_account-render :
      (b name : Str) → write_system_account wide b name ≡ b ++ render 0 (system_document wide name)
  unfolding write_system_account system_document render
  write_system_account-render b [] = sym (append-nil b)
  write_system_account-render b (c ∷ name) = simp field_laws

  sentinel-render : (b : Str) → write_sentinel_text wide b ≡ b ++ render 0 (sentinel_document wide)
  unfolding write_sentinel_text write_sentinel_authorization sentinel_document render
  sentinel-render b = simp (field_laws, write_users-render)

  write_missing_users-render :
      (b : Str) (accounts : Map AccountConfig)
      → write_missing_users wide b accounts
        ≡ b ++ render 0 (if total_users accounts == 0 then sentinel_document wide else end)
  write_missing_users-render b accounts = elim (Bool-cases (total_users accounts == 0)) [
    | inl e ↦ unfold write_missing_users in rw e (sentinel-render b)
    | inr e ↦ unfold write_missing_users render in rw e (sym (append-nil b))
  ]

  -- `Generate` writes the tree of the configuration: a line for each setting, a block for each
  -- group, every block closed where it was opened and its body indented by one step more.
  pub generate-render : (cfg : NatsConfig) → generate wide cfg ≡ render 0 (document wide cfg)
  generate-render cfg =
      unfold generate document render in
      simp
        (field_laws, write_system_account-render, write_missing_users-render, write_accounts-render)
