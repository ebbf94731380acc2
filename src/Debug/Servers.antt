-- ===== src/Debug/Servers.antt =====
-- The helpers on servers and names of cmd/nats-debug/main.go, and what is counted of an answer.
-- `sort.Slice` is not stable; the names of the servers are the keys of a map, so no two are equal.
pub mod Unique
use nats_operator_experiment.Common.{
  ℕ, zero, suc, ◌+◌, Str, codes, Bool, true, false, not, Option, none, some, List, [], ◌∷◌, ◌++◌,
  str_eq, str_le, sort_by, length, if◌then◌else◌,
}
use nats_operator_experiment.Common.Exec.{Error, message}
use nats_operator_experiment.Common.Console.{text}
use nats_operator_experiment.Monitor.{ConnectionInfo, ServerConnections}

abbrev server_le : ServerConnections → ServerConnections → Bool
server_le a b = str_le a.server_name b.server_name

unfoldable pub sorted_servers : List ServerConnections → List ServerConnections
sorted_servers servers = sort_by server_le servers

-- whether a name was seen
unfoldable pub is_seen : Str → List Str → Bool
is_seen s [] = false
is_seen s (t ∷ seen) = if str_eq s t then true else is_seen s seen

-- the loop that keeps the first of equal items
unfoldable pub unique_from : List Str → List Str → List Str
unique_from seen [] = []
unique_from seen (item ∷ items) =
    if is_seen item seen then unique_from seen items else item ∷ unique_from (item ∷ seen) items

unfoldable pub unique_sorted : List Str → List Str
unique_sorted items = sort_by str_le (unique_from [] items)

-- the connections of one server, none where it failed
abbrev pub counted : Option Error → ℕ → ℕ
counted none n = n
counted (some e) n = 0

unfoldable pub total_connections : List ServerConnections → ℕ
total_connections [] = 0
total_connections (s ∷ rest) = counted s.error (length s.connections) + total_connections rest

abbrev one_if_any : ℕ → ℕ
one_if_any zero = 0
one_if_any (suc n) = 1

-- the servers that answered with a connection
unfoldable pub connected_servers : List ServerConnections → ℕ
connected_servers [] = 0
connected_servers (s ∷ rest) =
    one_if_any (counted s.error (length s.connections)) + connected_servers rest

-- `errors`, each with its server
unfoldable pub server_errors : List ServerConnections → List Str
server_errors [] = []
server_errors (s ∷ rest) = elim s.error [
  | none ↦ server_errors rest
  | some e ↦ text (codes "  " ∷ s.server_name ∷ codes ": " ∷ message e ∷ []) ∷ server_errors rest
]

-- strings.Join(items, ", ")
unfoldable pub join_comma : List Str → Str
join_comma [] = []
join_comma (s ∷ []) = s
join_comma (s ∷ t ∷ rest) = s ++ (codes ", " ++ join_comma (t ∷ rest))
