-- ===== src/Config/Document.antt =====
-- The configuration file as a tree of lines and blocks: what internal/natsconfig/generate.go is
-- meant to write, apart from how it writes it.
use nats_operator_experiment.Common.{
  ℕ, suc, Str, codes, newline, Bool, Option, none, some, List, [], ◌∷◌, ◌++◌, ◌≡◌, refl,
  append_assoc, Map, keys, sort_by, str_le, if◌then◌else◌, ◌==◌,
}
use nats_operator_experiment.Common.Int.{ℤ}
use nats_operator_experiment.Common.Decimal.{format_int}
use nats_operator_experiment.Config.Quote.{quote}
use nats_operator_experiment.Config.Types.{
  NatsConfig, AccountConfig, JetStreamConfig, LimitsConfig, UserConfig, PermissionsConfig,
  PermissionRuleConfig, ResponsePermissionConfig,
}
use nats_operator_experiment.Config.Writer.{repeat_indent, format_bool}
use nats_operator_experiment.Config.UserWriter.{quote_strings}
use nats_operator_experiment.Config.Generate.{account_at, sentinel_user, total_users}

-- A block has an opening line, a body that stands two spaces further in, and a closing line.
pub data Doc : Type 0 where
  end : Doc
  line : Str → Doc → Doc
  block : Str → Doc → Str → Doc → Doc

unfoldable pub join : Doc → Doc → Doc
join end e = e
join (line s rest) e = line s (join rest e)
join (block o body c rest) e = block o body c (join rest e)

unfoldable pub one_line : ℕ → Str → Str
one_line n s = repeat_indent n ++ (s ++ newline ∷ [])

unfoldable pub render : ℕ → Doc → Str
render n end = []
render n (line s rest) = one_line n s ++ render n rest
render n (block o body c rest) =
    one_line n o ++ (render (suc n) body ++ (one_line n c ++ render n rest))

pub render-join : (n : ℕ) (d e : Doc) → render n (join d e) ≡ render n d ++ render n e
unfolding render join
render-join n end e = refl
render-join n (line s rest) e = rw (render-join n rest e, append_assoc)
render-join n (block o body c rest) e = simp (render-join n rest e, append_assoc)

-- fields that are left out where they are not set
unfoldable pub string_field : Str → Str → Doc
string_field label [] = end
string_field label (c ∷ value) = line (label ++ c ∷ value) end

unfoldable pub int_field : Str → Option ℤ → Doc
int_field label none = end
int_field label (some n) = line (label ++ format_int n) end

unfoldable pub bool_field : Str → Option Bool → Doc
bool_field label none = end
bool_field label (some b) = line (label ++ format_bool b) end

abbrev pub join_all : List Doc → Doc
join_all [] = end
join_all (d ∷ ds) = join d (join_all ds)

-- a block that closes by a brace, alone
abbrev pub braces : Str → Doc → Doc
braces opener body = block (opener ++ codes " {") body (codes "}") end

unfoldable pub jet_stream_document : JetStreamConfig → Doc
jet_stream_document js =
    block (codes "jetstream {")
      (join_all (
        string_field (codes "max_mem: ") js.max_memory
        ∷ string_field (codes "max_file: ") js.max_file
        ∷ int_field (codes "max_streams: ") js.max_streams
        ∷ int_field (codes "max_consumers: ") js.max_consumers
        ∷ bool_field (codes "max_bytes_required: ") js.max_bytes_required
        ∷ string_field (codes "memory_max_stream_bytes: ") js.memory_max_stream_bytes
        ∷ string_field (codes "disk_max_stream_bytes: ") js.disk_max_stream_bytes
        ∷ int_field (codes "max_ack_pending: ") js.max_ack_pending
        ∷ []))
      (codes "}") end

unfoldable pub limits_document : LimitsConfig → Doc
limits_document l =
    block (codes "limits {")
      (join_all (
        int_field (codes "max_connections: ") l.max_connections
        ∷ int_field (codes "max_subscriptions: ") l.max_subscriptions
        ∷ string_field (codes "max_payload: ") l.max_payload
        ∷ int_field (codes "max_leafnodes: ") l.max_leafnodes
        ∷ []))
      (codes "}") end

unfoldable pub optional {ℓ} : {A : Type ℓ} → (A → Doc) → Option A → Doc
optional f none = end
optional f (some a) = f a

module _ (wide : ℕ → Bool) where
  unfoldable pub subjects_document : Str → List Str → Doc
  subjects_document label [] = end
  subjects_document label (s ∷ ss) = line (label ++ (quote_strings wide (s ∷ ss) ++ codes "]")) end

  unfoldable pub rule_document : Str → PermissionRuleConfig → Doc
  rule_document name rule = braces name (
      join (subjects_document (codes "allow: [") rule.allow)
        (subjects_document (codes "deny: [") rule.deny))

  unfoldable pub ttl_document : Str → Doc
  ttl_document ttl = line (codes "ttl: " ++ quote wide ttl) end

  unfoldable pub structured_document : ResponsePermissionConfig → Doc
  structured_document ar =
      block (codes "allow_responses {")
        (join (int_field (codes "max: ") ar.max_msgs) (optional ttl_document ar.ttl)) (codes "}")
        end

  unfoldable pub responses_document : ResponsePermissionConfig → Doc
  responses_document ar = elim ar.max_msgs [
    | some n ↦ structured_document ar
    | none ↦ elim ar.ttl [
      | some t ↦ structured_document ar
      | none ↦ line (codes "allow_responses: true") end
    ]
  ]

  unfoldable pub enabled_document : ResponsePermissionConfig → Doc
  enabled_document ar = if ar.enabled then responses_document ar else end

  unfoldable pub permissions_document : PermissionsConfig → Doc
  permissions_document perms =
      block (codes "permissions {")
        (join (optional (rule_document (codes "publish")) perms.publish) (
          join (optional (rule_document (codes "subscribe")) perms.subscribe)
            (optional enabled_document perms.allow_responses)))
        (codes "}") end

  unfoldable pub user_document : UserConfig → Doc
  user_document user =
      line (codes "nkey: " ++ user.nkey) (optional permissions_document user.permissions)

  unfoldable pub each_user_document : List UserConfig → Doc
  each_user_document [] = end
  each_user_document (user ∷ rest) =
      block (codes "{") (user_document user) (codes "}") (each_user_document rest)

  unfoldable pub users_document : List UserConfig → Doc
  users_document users = block (codes "users = [") (each_user_document users) (codes "]") end

  unfoldable pub some_users_document : List UserConfig → Doc
  some_users_document [] = end
  some_users_document (user ∷ rest) = users_document (user ∷ rest)

  unfoldable pub account_document : Str → AccountConfig → Doc → Doc
  account_document name acct rest =
      block (name ++ codes " {")
        (join (optional jet_stream_document acct.jet_stream)
          (join (optional limits_document acct.limits) (some_users_document acct.users)))
        (codes "}") rest

  unfoldable pub accounts_document : List Str → Map AccountConfig → Doc
  accounts_document [] accounts = end
  accounts_document (name ∷ names) accounts =
      account_document name (account_at name accounts) (accounts_document names accounts)

  unfoldable pub sentinel_document : Doc
  sentinel_document =
      line (codes "# WARNING: no NatsUser resources defined. Emitting deny-all sentinel") (
        line (codes "# user (implicitly in $G) to force NATS to require authentication.") (
          line (codes "# Provision NatsUser resources to enable real client access.") (
            block (codes "authorization {") (users_document (sentinel_user ∷ [])) (codes "}") end)))

  unfoldable pub system_document : Str → Doc
  system_document [] = end
  system_document (c ∷ name) = line (codes "system_account: " ++ quote wide (c ∷ name)) end

  unfoldable pub document : NatsConfig → Doc
  document cfg = line (codes "# Auto-generated by nats-operator - DO NOT EDIT") (
      join (system_document cfg.system_account) (
        join (if total_users cfg.accounts == 0 then sentinel_document else end) (
          block (codes "accounts {")
            (accounts_document (sort_by str_le (keys cfg.accounts)) cfg.accounts) (codes "}") end)))
