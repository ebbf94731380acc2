-- ===== src/Debug/Users.antt =====
-- `runUserConnections` and `runUserDiagnostics` of cmd/nats-debug/main.go.
use nats_operator_experiment.Common.{
  ℕ, zero, suc, ◌+◌, Str, codes, newline, Bool, true, false, not, ◌&&◌, ◌||◌, some, List, [], ◌∷◌,
  ◌++◌, Map, str_eq, length, if◌then◌else◌,
}
use nats_operator_experiment.Common.Decimal.{format_nat, format_int}
use nats_operator_experiment.Common.Exec.{
  plain, message, Result, ok, err, panic, Exec, pure, raise, lift, ◌>>=◌, ◌>>◌, attempt,
}
use nats_operator_experiment.Common.Console.{Console, print, println, quietly, text}
use nats_operator_experiment.Monitor.{
  ConnectionInfo, ServerConnections, query_all_servers, filter_by_nkey,
}
use nats_operator_experiment.Controller.Secrets.{entry_at}
use nats_operator_experiment.Debug.Flags.{Flags, parse_flags}
use nats_operator_experiment.Debug.Servers.{
  sorted_servers, total_connections, connected_servers, server_errors,
}
use nats_operator_experiment.Debug.Closed.{check_closed_connections}
use nats_operator_experiment.Debug.UserStatus.{check_nats_user_status}
use nats_operator_experiment.Debug.Shown.{contains, show_configured_permissions}
use nats_operator_experiment.Debug.Environment.{Environment, monitor, connect, help_on}

abbrev pub line : List Str → Str
line parts = text parts ++ newline ∷ []

abbrev line_unless_empty : Str → Str → Str
line_unless_empty label [] = []
line_unless_empty label (c ∷ s) = line (label ∷ (c ∷ s) ∷ [])

-- one connection with its number
unfoldable pub connection_text : ℕ → Str → ConnectionInfo → Str
connection_text n server conn = text (
    line (codes "  Connection #" ∷ format_nat n ∷ codes " (server: " ∷ server ∷ codes "):" ∷ [])
    ∷ line (codes "    CID:            " ∷ format_nat conn.cid ∷ [])
    ∷ line (codes "    Remote:         " ∷ conn.ip ∷ codes ":" ∷ format_int conn.port ∷ [])
    ∷ line_unless_empty (codes "    Uptime:         ") conn.uptime
    ∷ line_unless_empty (codes "    RTT:            ") conn.rtt
    ∷ line (codes "    Subscriptions:  " ∷ format_int conn.subscriptions ∷ [])
    ∷ line (
        codes "    Msgs In/Out:    "
        ∷ format_int conn.in_msgs
        ∷ codes " / "
        ∷ format_int conn.out_msgs
        ∷ [])
    ∷ line []
    ∷ [])

-- `n` connections were printed before
unfoldable pub connections_text : ℕ → Str → List ConnectionInfo → Str
connections_text n server [] = []
connections_text n server (conn ∷ rest) =
    connection_text (suc n) server conn ++ connections_text (suc n) server rest

unfoldable pub servers_text : ℕ → List ServerConnections → Str
servers_text n [] = []
servers_text n (s ∷ rest) =
    connections_text n s.server_name s.connections ++ servers_text (n + length s.connections) rest

unfoldable pub errors_text : List Str → Str
errors_text [] = []
errors_text (e ∷ rest) = line (e ∷ []) ++ errors_text rest

abbrev pub config_map_name : Str → Str
config_map_name cluster_name = cluster_name ++ codes "-nats-config"

-- `authConf`: what the ConfigMap holds, and nothing where the read failed
abbrev pub auth_conf_of : Result (Map Str) → Str
auth_conf_of (ok m) = entry_at (codes "auth.conf") (some m)
auth_conf_of (err e) = []
auth_conf_of panic = []

unfoldable pub is_nkey_in_config : Str → Str → Bool
is_nkey_in_config auth_conf nkey = not (str_eq auth_conf []) && contains auth_conf nkey

module _ {W : Type 0} where
  -- on the read of the ConfigMap: whether it failed, and whether the key is in it
  unfoldable pub print_presence : Str → Str → Bool → Result (Map Str) → Exec (Console W) (Unit {0})
  print_presence name nkey is_in_config (err e) =
      println (codes "  [?] Could not read ConfigMap " ∷ name ∷ codes ": " ∷ message e ∷ [])
  print_presence name nkey false (ok m) = do
    println (
        codes "  [!] NKey "
        ∷ nkey
        ∷ codes " NOT FOUND in auth.conf (ConfigMap "
        ∷ name
        ∷ codes ")"
        ∷ [])
    println (codes "      This user's NKey is not in the NATS server config." ∷ [])
    println (codes "      Likely causes:" ∷ [])
    println (codes "        - User denied by account's userRules (namespace not allowed)" ∷ [])
    println (codes "        - NatsUser not yet reconciled" ∷ [])
    println []
  print_presence name nkey true (ok m) = do
    println (codes "  [ok] NKey " ∷ nkey ∷ codes " is present in auth.conf" ∷ [])
    println []
  print_presence name nkey is_in_config panic = lift panic

  unfoldable pub show_if : Bool → Str → Str → Exec (Console W) (Unit {0})
  show_if true auth_conf nkey = show_configured_permissions auth_conf nkey
  show_if false auth_conf nkey = pure tt

  unfoldable pub print_errors : List Str → Exec (Console W) (Unit {0})
  print_errors [] = pure tt
  print_errors (e ∷ errors) = do
    println (codes "Server errors:" ∷ [])
    print (errors_text (e ∷ errors))

  unfoldable pub print_connected : ℕ → List ServerConnections → Exec (Console W) (Unit {0})
  print_connected total_conns filtered = do
    println (
        codes "Status: CONNECTED ("
        ∷ format_nat total_conns
        ∷ codes " active connection(s) across "
        ∷ format_nat (connected_servers filtered)
        ∷ codes " server(s))"
        ∷ [])
    println []
    print (servers_text 0 (sorted_servers filtered))

abbrev pub user_flags_missing : Flags → Bool
user_flags_missing f = str_eq f.cluster_name [] || str_eq f.namespace [] || str_eq f.nkey []

module _ (env : Environment) where
  unfoldable pub run_user_diagnostics :
      Map Str → Str → Str → Str → Exec (Console env.World) (Unit {0})
  run_user_diagnostics server_urls cluster_name namespace nkey = do
    println (codes "Diagnostics:" ∷ [])
    println []
    check_closed_connections (monitor env) (env.visit_again server_urls) nkey
    r ← attempt (
        quietly (
          env.client.get_config_map
            (record { name = config_map_name cluster_name; namespace = namespace })))
    print_presence (config_map_name cluster_name) nkey (is_nkey_in_config (auth_conf_of r) nkey) r
    check_nats_user_status env.client nkey (is_nkey_in_config (auth_conf_of r) nkey)
    show_if (is_nkey_in_config (auth_conf_of r) nkey) (auth_conf_of r) nkey
    help_on env cluster_name (config_map_name cluster_name) namespace

  -- on the number of connections
  unfoldable pub print_user_status :
      ℕ → List ServerConnections → Map Str → Flags → Exec (Console env.World) (Unit {0})
  print_user_status zero filtered urls f = do
    println (
        codes "Status: NOT CONNECTED (queried "
        ∷ format_nat (length urls)
        ∷ codes " server(s), 0 connections found)"
        ∷ [])
    println []
    run_user_diagnostics urls f.cluster_name f.namespace f.nkey
  print_user_status (suc n) filtered urls f = print_connected (suc n) filtered

  -- after the flags were read
  unfoldable pub user_connections : Flags → Exec (Console env.World) (Unit {0})
  user_connections f =
      if user_flags_missing f
      then raise (plain (codes "--cluster, --namespace, and --nkey are required"))
      else (do
        urls ← connect env f.cluster_name f.namespace
        all_results ← quietly (query_all_servers (monitor env) (env.visit urls))
        println (codes "User: " ∷ f.nkey ∷ [])
        print_user_status (total_connections (filter_by_nkey all_results f.nkey))
            (filter_by_nkey all_results f.nkey) urls f
        print_errors (server_errors (filter_by_nkey all_results f.nkey)))

  unfoldable pub run_user_connections : List Str → Exec (Console env.World) (Unit {0})
  run_user_connections args = do f ← lift (parse_flags args); user_connections f
