-- ===== src/Config/Writer.antt =====
-- internal/natsconfig/generate.go: lines, JetStream and limits. The `strings.Builder` is the text
-- written so far, which each function takes first and returns longer.
use nats_operator_experiment.Common.{
  ℕ, zero, suc, Str, codes, newline, Bool, true, false, Option, none, some, [], ◌∷◌, ◌++◌,
}
use nats_operator_experiment.Common.Int.{ℤ}
use nats_operator_experiment.Common.Decimal.{format_int}
use nats_operator_experiment.Config.Types.{JetStreamConfig, LimitsConfig}

-- strings.Repeat("  ", n)
unfoldable pub repeat_indent : ℕ → Str
repeat_indent zero = []
repeat_indent (suc n) = 32 ∷ 32 ∷ repeat_indent n

-- a call of Fprintf or WriteString whose text ends its line
unfoldable pub write_line : Str → Str → Str → Str
write_line b prefix text = b ++ (prefix ++ (text ++ newline ∷ []))

unfoldable pub format_bool : Bool → Str
format_bool true = codes "true"
format_bool false = codes "false"

-- `if x != "" { … }`, for the fields that are strings
unfoldable pub write_string : Str → Str → Str → Str → Str
write_string b prefix label [] = b
write_string b prefix label (c ∷ value) = write_line b prefix (label ++ c ∷ value)

-- `if x != nil { … %d … }`
unfoldable pub write_int : Str → Str → Str → Option ℤ → Str
write_int b prefix label none = b
write_int b prefix label (some n) = write_line b prefix (label ++ format_int n)

-- `if x != nil { … %t … }`
unfoldable pub write_bool : Str → Str → Str → Option Bool → Str
write_bool b prefix label none = b
write_bool b prefix label (some t) = write_line b prefix (label ++ format_bool t)

unfoldable pub write_jet_stream : Str → JetStreamConfig → ℕ → Str
write_jet_stream b js indent =
    let prefix = repeat_indent indent in
    let inner = repeat_indent (suc indent) in
    let b₀ = write_line b prefix (codes "jetstream {") in
    let b₁ = write_string b₀ inner (codes "max_mem: ") js.max_memory in
    let b₂ = write_string b₁ inner (codes "max_file: ") js.max_file in
    let b₃ = write_int b₂ inner (codes "max_streams: ") js.max_streams in
    let b₄ = write_int b₃ inner (codes "max_consumers: ") js.max_consumers in
    let b₅ = write_bool b₄ inner (codes "max_bytes_required: ") js.max_bytes_required in
    let b₆ = write_string b₅ inner (codes "memory_max_stream_bytes: ") js.memory_max_stream_bytes in
    let b₇ = write_string b₆ inner (codes "disk_max_stream_bytes: ") js.disk_max_stream_bytes in
    let b₈ = write_int b₇ inner (codes "max_ack_pending: ") js.max_ack_pending in
    write_line b₈ prefix (codes "}")

unfoldable pub write_limits : Str → LimitsConfig → ℕ → Str
write_limits b limits indent =
    let prefix = repeat_indent indent in
    let inner = repeat_indent (suc indent) in
    let b₀ = write_line b prefix (codes "limits {") in
    let b₁ = write_int b₀ inner (codes "max_connections: ") limits.max_connections in
    let b₂ = write_int b₁ inner (codes "max_subscriptions: ") limits.max_subscriptions in
    let b₃ = write_string b₂ inner (codes "max_payload: ") limits.max_payload in
    let b₄ = write_int b₃ inner (codes "max_leafnodes: ") limits.max_leafnodes in
    write_line b₄ prefix (codes "}")

-- `if acct.JetStream != nil { … }` and `if acct.Limits != nil { … }`
unfoldable pub write_optional_jet_stream : Str → Option JetStreamConfig → ℕ → Str
write_optional_jet_stream b none indent = b
write_optional_jet_stream b (some js) indent = write_jet_stream b js indent

unfoldable pub write_optional_limits : Str → Option LimitsConfig → ℕ → Str
write_optional_limits b none indent = b
write_optional_limits b (some l) indent = write_limits b l indent
