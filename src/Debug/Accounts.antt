-- ===== src/Debug/Accounts.antt =====
-- `runAccountConnections` and `runAccountDiagnostics` of cmd/nats-debug/main.go.
pub mod Tally
use nats_operator_experiment.Common.{
  ℕ, zero, suc, ◌+◌, Str, codes, newline, Bool, true, false, ◌||◌, Option, none, some, List, [],
  ◌∷◌, ◌++◌, Map, find, put, keys, str_eq, str_le, sort_by, length, if◌then◌else◌,
}
use nats_operator_experiment.Common.Int.{ℤ, pos}
use nats_operator_experiment.Common.Decimal.{format_nat, format_int}
use nats_operator_experiment.Common.Exec.{
  Error, plain, message, Result, ok, err, panic, Exec, pure, raise, lift, ◌>>=◌, ◌>>◌, attempt,
}
use nats_operator_experiment.Common.Console.{Console, print, println, quietly, text}
use nats_operator_experiment.Config.Quote.{quote}
use nats_operator_experiment.Api.Account.{NatsAccount}
use nats_operator_experiment.Monitor.{
  ConnectionInfo, ServerConnections, query_all_servers, query_all_servers_closed, filter_by_account,
}
use nats_operator_experiment.Debug.Flags.{Flags, parse_flags}
use nats_operator_experiment.Debug.Servers.{
  unique_from, unique_sorted, join_comma, total_connections, counted,
}
use nats_operator_experiment.Debug.Closed.{collect, is_violation}
use nats_operator_experiment.Debug.UserStatus.{max_connections_of}
use nats_operator_experiment.Debug.Shown.{contains}
use nats_operator_experiment.Debug.Users.{config_map_name, auth_conf_of, line}
use nats_operator_experiment.Debug.Environment.{Environment, monitor, connect, help_on}

-- a list of server names under a key, none where there is no entry
abbrev pub servers_at : Str → Map (List Str) → List Str
servers_at k m = elim (find k m) [ none ↦ [] | some servers ↦ servers ]

-- userConns[conn.NKey] = append(userConns[conn.NKey], s.ServerName)
unfoldable pub add_connections : Str → List ConnectionInfo → Map (List Str) → Map (List Str)
add_connections server [] m = m
add_connections server (c ∷ rest) m =
    add_connections server rest (put c.nkey (servers_at c.nkey m ++ server ∷ []) m)

-- a server with an error is passed over
unfoldable pub add_server :
    Str → Option Error → List ConnectionInfo → Map (List Str) → Map (List Str)
add_server server (some e) connections m = m
add_server server none connections m = add_connections server connections m

unfoldable pub user_connections_of : List ServerConnections → Map (List Str) → Map (List Str)
user_connections_of [] m = m
user_connections_of (s ∷ rest) m =
    user_connections_of rest (add_server s.server_name s.error s.connections m)

abbrev named_if_any : Str → ℕ → List Str → List Str
named_if_any name zero names = names
named_if_any name (suc n) names = name ∷ names

-- the keys of `serverSet`, before repeated names are dropped
unfoldable pub connected_names : List ServerConnections → List Str
connected_names [] = []
connected_names (s ∷ rest) =
    named_if_any s.server_name (counted s.error (length s.connections)) (connected_names rest)

unfoldable pub users_text : List Str → Map (List Str) → Str
users_text [] m = []
users_text (nkey ∷ rest) m =
    line (
      codes "  User "
      ∷ nkey
      ∷ codes " : "
      ∷ format_nat (length (servers_at nkey m))
      ∷ codes " connection(s) ("
      ∷ join_comma (unique_sorted (servers_at nkey m))
      ∷ codes ")"
      ∷ [])
    ++ users_text rest m

module _ {W : Type 0} where
  unfoldable pub print_account :
      List ServerConnections → Map (List Str) → ℕ → Exec (Console W) (Unit {0})
  print_account filtered user_conns total_conns = do
    println (
        codes "Active Connections: "
        ∷ format_nat total_conns
        ∷ codes " (across "
        ∷ format_nat (length user_conns)
        ∷ codes " user(s), "
        ∷ format_nat (length (unique_from [] (connected_names filtered)))
        ∷ codes " server(s))"
        ∷ [])
    println []
    print (users_text (sort_by str_le (keys user_conns)) user_conns)

  unfoldable pub print_violations : ℕ → Exec (Console W) (Unit {0})
  print_violations zero = pure tt
  print_violations (suc n) = do
    println (
        codes "  [!] Found "
        ∷ format_nat (suc n)
        ∷ codes " recent \"Authorization Violation\" in closed connections"
        ∷ [])
    println []

  -- on the read of the ConfigMap
  unfoldable pub print_account_presence :
      (ℕ → Bool) → Str → Str → Result (Map Str) → Exec (Console W) (Unit {0})
  print_account_presence wide name account (err e) = do
    println (codes "  [?] Could not read ConfigMap " ∷ name ∷ codes ": " ∷ message e ∷ [])
    println []
  print_account_presence wide name account (ok m) =
      if contains (auth_conf_of (ok m)) (account ++ codes " {")
      then (do
        println
            (codes "  [ok] Account " ∷ quote wide account ∷ codes " is present in auth.conf" ∷ [])
        println [])
      else (do
        println (codes "  [!] Account " ∷ quote wide account ∷ codes " NOT FOUND in auth.conf" ∷ [])
        println (
            codes
              "      The account may not have any allowed users, or may not reference this cluster."
            ∷ [])
        println [])
  print_account_presence wide name account panic = lift panic

  unfoldable pub print_limit : Option ℤ → Exec (Console W) (Unit {0})
  print_limit none = pure tt
  print_limit (some max_conn) = do
    println (codes "  Account limit: maxConnections=" ∷ format_int max_conn ∷ [])
    println []

  unfoldable pub print_account_resource : Result NatsAccount → Exec (Console W) (Unit {0})
  print_account_resource (err e) = pure tt
  print_account_resource (ok acct) = do
    print_limit (max_connections_of acct.spec.limits)
    println (codes "  Configured users: " ∷ format_nat acct.status.user_count ∷ [])
    println []
  print_account_resource panic = lift panic

abbrev pub account_flags_missing : Flags → Bool
account_flags_missing f = str_eq f.cluster_name [] || str_eq f.namespace [] || str_eq f.account []

module _ (env : Environment) where
  unfoldable pub run_account_diagnostics :
      Map Str → Str → Str → Str → Exec (Console env.World) (Unit {0})
  run_account_diagnostics server_urls cluster_name namespace account = do
    println (codes "Diagnostics:" ∷ [])
    println []
    closed_results ←
        quietly (query_all_servers_closed (monitor env) (env.visit_again server_urls) (pos 100))
    print_violations (length (collect is_violation closed_results))
    r ← attempt (
        quietly (
          env.client.get_config_map
            (record { name = config_map_name cluster_name; namespace = namespace })))
    print_account_presence env.wide (config_map_name cluster_name) account r
    acct ←
        attempt
          (quietly (env.client.get_account (record { name = account; namespace = namespace })))
    print_account_resource acct
    help_on env cluster_name (config_map_name cluster_name) namespace

  -- on the number of connections
  unfoldable pub print_account_status :
      ℕ → List ServerConnections → Map Str → Flags → Exec (Console env.World) (Unit {0})
  print_account_status zero filtered urls f = do
    println (
        codes "Active Connections: 0 (queried "
        ∷ format_nat (length urls)
        ∷ codes " server(s))"
        ∷ [])
    println []
    run_account_diagnostics urls f.cluster_name f.namespace f.account
  print_account_status (suc n) filtered urls f =
      print_account filtered (user_connections_of filtered []) (suc n)

  -- after the flags were read
  unfoldable pub account_connections : Flags → Exec (Console env.World) (Unit {0})
  account_connections f =
      if account_flags_missing f
      then raise (plain (codes "--cluster, --namespace, and --account are required"))
      else (do
        urls ← connect env f.cluster_name f.namespace
        all_results ← quietly (query_all_servers (monitor env) (env.visit urls))
        println (codes "Account: " ∷ f.account ∷ [])
        print_account_status (total_connections (filter_by_account all_results f.account))
            (filter_by_account all_results f.account) urls f)

  unfoldable pub run_account_connections : List Str → Exec (Console env.World) (Unit {0})
  run_account_connections args = do f ← lift (parse_flags args); account_connections f
