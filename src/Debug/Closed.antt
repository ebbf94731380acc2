-- ===== src/Debug/Closed.antt =====
-- `checkClosedConnections` and `reasonOrUnknown` of cmd/nats-debug/main.go. The count of the filtered
-- results, which the code computes and never reads, is left out.
pub mod Recent
use nats_operator_experiment.Common.{
  ℕ, zero, suc, Str, codes, newline, Bool, Option, none, some, List, [], ◌∷◌, ◌++◌, Map, str_eq,
  length, if◌then◌else◌,
}
use nats_operator_experiment.Common.Int.{ℤ, pos}
use nats_operator_experiment.Common.Decimal.{format_nat, format_int}
use nats_operator_experiment.Common.Exec.{Error, Exec, pure, ◌>>=◌, ◌>>◌}
use nats_operator_experiment.Common.Console.{Console, print, println, quietly, text}
use nats_operator_experiment.Monitor.{
  ConnectionInfo, ServerConnections, MonitorClient, query_all_servers_closed,
}

pub record ClosedConnSummary : Type 0 where
  pub server : Str
  pub conn : ConnectionInfo

-- the connections of one server that pass the test
unfoldable pub summaries :
    (ConnectionInfo → Bool) → Str → List ConnectionInfo → List ClosedConnSummary
summaries p server [] = []
summaries p server (c ∷ rest) =
    if p c
    then record { server = server; conn = c } ∷ summaries p server rest
    else summaries p server rest

-- a server with an error is passed over
unfoldable pub summaries_of :
    (ConnectionInfo → Bool) → Str → Option Error → List ConnectionInfo → List ClosedConnSummary
summaries_of p server (some e) connections = []
summaries_of p server none connections = summaries p server connections

unfoldable pub collect : (ConnectionInfo → Bool) → List ServerConnections → List ClosedConnSummary
collect p [] = []
collect p (s ∷ rest) = summaries_of p s.server_name s.error s.connections ++ collect p rest

abbrev pub has_nkey : Str → ConnectionInfo → Bool
has_nkey nkey c = str_eq c.nkey nkey

abbrev pub is_violation : ConnectionInfo → Bool
is_violation c = str_eq c.reason (codes "Authorization Violation")

-- the loop that goes down from the last item and stops after `n`
unfoldable pub from_last {ℓ} : {A : Type ℓ} → List A → List A → List A
from_last [] back = back
from_last (x ∷ xs) back = from_last xs (x ∷ back)

unfoldable pub take {ℓ} : {A : Type ℓ} → ℕ → List A → List A
take zero xs = []
take (suc n) [] = []
take (suc n) (x ∷ xs) = x ∷ take n xs

abbrev pub max_shown : ℕ
max_shown = 5

unfoldable pub most_recent {ℓ} : {A : Type ℓ} → List A → List A
most_recent xs = take max_shown (from_last xs [])

unfoldable pub reason_or_unknown : Str → Str
reason_or_unknown [] = codes "(unknown)"
reason_or_unknown (c ∷ reason) = c ∷ reason

-- a part that is printed only for a text that is not empty
abbrev unless_empty : Str → Str → Str
unless_empty label [] = []
unless_empty label (c ∷ s) = label ++ c ∷ s

unfoldable pub closed_line : ClosedConnSummary → Str
closed_line c = text (
    codes "      Server: "
    ∷ c.server
    ∷ codes " | Reason: "
    ∷ reason_or_unknown c.conn.reason
    ∷ codes " | IP: "
    ∷ c.conn.ip
    ∷ codes ":"
    ∷ format_int c.conn.port
    ∷ unless_empty (codes " | Closed: ") c.conn.stop
    ∷ [])

unfoldable pub violation_line : ClosedConnSummary → Str
violation_line c = text (
    codes "      Server: "
    ∷ c.server
    ∷ codes " | IP: "
    ∷ c.conn.ip
    ∷ codes ":"
    ∷ format_int c.conn.port
    ∷ unless_empty (codes " | NKey: ") c.conn.nkey
    ∷ unless_empty (codes " | Closed: ") c.conn.stop
    ∷ [])

unfoldable pub lines_of : (ClosedConnSummary → Str) → List ClosedConnSummary → Str
lines_of line [] = []
lines_of line (c ∷ rest) = line c ++ newline ∷ lines_of line rest

-- a list with its heading, or nothing where it is empty
unfoldable pub section_of : (Str → Str) → (ClosedConnSummary → Str) → List ClosedConnSummary → Str
section_of heading line [] = []
section_of heading line (c ∷ cs) =
    heading (format_nat (length (c ∷ cs)))
    ++ newline ∷ (lines_of line (most_recent (c ∷ cs)) ++ newline ∷ [])

unfoldable pub nothing_closed : List ClosedConnSummary → List ClosedConnSummary → Str
nothing_closed [] [] = text (
    codes "  [ok] No recently closed connections or auth violations found"
    ∷ (newline ∷ [])
    ∷ codes "       (client may not have attempted to connect yet)"
    ∷ (newline ∷ newline ∷ [])
    ∷ [])
nothing_closed [] (v ∷ violations) = []
nothing_closed (c ∷ closed) violations = []

-- what is printed on the two lists
unfoldable pub closed_report : Str → List ServerConnections → Str
closed_report nkey results =
    let recent_closed = collect (has_nkey nkey) results in
    let auth_violations = collect is_violation results in
    text (
      section_of
        (λ n.
          text
            (codes "  [!] Found " ∷ n ∷ codes " recently closed connection(s) for this NKey:" ∷ []))
        closed_line recent_closed
      ∷ section_of
          (λ n. text (
            codes "  [!] Found "
            ∷ n
            ∷ codes " recent \"Authorization Violation\" across all users:"
            ∷ []))
          violation_line auth_violations
      ∷ nothing_closed recent_closed auth_violations
      ∷ [])

module _ {W : Type 0} where
  unfoldable pub check_closed_connections :
      MonitorClient W → Map Str → Str → Exec (Console W) (Unit {0})
  check_closed_connections client server_urls nkey = do
    closed_results ← quietly (query_all_servers_closed client server_urls (pos 100))
    print (closed_report nkey closed_results)
