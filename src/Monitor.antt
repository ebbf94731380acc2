-- ===== src/Monitor.antt =====
-- internal/natsmonitor: the connections that the NATS servers report, and the filters on them. The
-- HTTP client and the JSON decoder are the parameter `MonitorClient`; a map of servers is the list
-- of its entries in the order in which `range` visits them.
pub mod Filters
pub mod Http
use nats_operator_experiment.Common.{
  ℕ, Str, Bool, List, [], ◌∷◌, Option, none, some, Map, str_eq, select, if◌then◌else◌,
}
use nats_operator_experiment.Common.Int.{ℤ}
use nats_operator_experiment.Common.Exec.{
  Error, Result, ok, err, panic, Exec, pure, lift, ◌>>=◌, attempt,
}

pub record ConnectionInfo : Type 0 where
  pub cid : ℕ
  pub ip : Str
  pub port : ℤ
  pub account : Str
  pub nkey : Str
  pub rtt : Str
  pub subscriptions : ℤ
  pub in_msgs : ℤ
  pub out_msgs : ℤ
  pub in_bytes : ℤ
  pub out_bytes : ℤ
  pub uptime : Str
  pub start : Str
  pub stop : Str
  pub reason : Str

pub record ConnzResult : Type 0 where
  pub server_id : Str
  pub num_connections : ℤ
  pub connections : List ConnectionInfo

pub record ServerConnections : Type 0 where
  pub server_id : Str
  pub server_name : Str
  pub connections : List ConnectionInfo
  pub error : Option Error

pub record MonitorClient (W : Type 0) : Type 0 where
  pub get_connz : Str → Exec W ConnzResult
  pub get_connz_closed : Str → ℤ → Exec W ConnzResult

module _ {W : Type 0} where
  -- the entry for one server, on what the query gave
  unfoldable pub server_entry : Str → Result ConnzResult → Exec W ServerConnections
  server_entry name (ok connz) = pure (record {
    server_id = connz.server_id;
    server_name = name;
    connections = connz.connections;
    error = none;
  })
  server_entry name (err e) =
      pure (record { server_id = []; server_name = name; connections = []; error = some e })
  server_entry name panic = lift panic

  -- the loop of both functions below
  unfoldable pub query_each : (Str → Exec W ConnzResult) → Map Str → Exec W (List ServerConnections)
  query_each query [] = pure []
  query_each query ((name, url) ∷ rest) = do
    r ← attempt (query url)
    entry ← server_entry name r
    entries ← query_each query rest
    pure (entry ∷ entries)

  unfoldable pub query_all_servers : MonitorClient W → Map Str → Exec W (List ServerConnections)
  query_all_servers client server_urls = query_each client.get_connz server_urls

  unfoldable pub query_all_servers_closed :
      MonitorClient W → Map Str → ℤ → Exec W (List ServerConnections)
  query_all_servers_closed client server_urls limit =
      query_each (λ url. client.get_connz_closed url limit) server_urls

-- the entry with the connections that match; `none` where the loop appends nothing
unfoldable pub narrow :
    ServerConnections → List ConnectionInfo → List ServerConnections → List ServerConnections
narrow s [] later = later
narrow s (c ∷ matching) later =
    record {
      server_id = s.server_id;
      server_name = s.server_name;
      connections = c ∷ matching;
      error = none;
    }
    ∷ later

-- an entry with an error stays as it is
unfoldable pub keep_or_narrow :
    (ConnectionInfo → Bool)
    → ServerConnections
    → Option Error
    → List ServerConnections
    → List ServerConnections
keep_or_narrow p s (some e) later = s ∷ later
keep_or_narrow p s none later = narrow s (select p s.connections) later

unfoldable pub filter_servers :
    (ConnectionInfo → Bool) → List ServerConnections → List ServerConnections
filter_servers p [] = []
filter_servers p (s ∷ servers) = keep_or_narrow p s s.error (filter_servers p servers)

unfoldable pub filter_by_nkey : List ServerConnections → Str → List ServerConnections
filter_by_nkey servers nkey = filter_servers (λ c. str_eq c.nkey nkey) servers

unfoldable pub filter_by_account : List ServerConnections → Str → List ServerConnections
filter_by_account servers account = filter_servers (λ c. str_eq c.account account) servers
