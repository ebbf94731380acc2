-- ===== src/Debug/Commands.antt =====
-- `main`, `printUsage` and `runConnections` of cmd/nats-debug/main.go. `os.Exit` is the exit code
-- that `main` returns.
pub mod Exit
use nats_operator_experiment.Common.{
  ℕ, Str, codes, newline, Bool, ◌||◌, Option, none, some, List, [], ◌∷◌, ◌++◌, Map, str_eq, length,
  if◌then◌else◌,
}
use nats_operator_experiment.Common.Decimal.{format_nat}
use nats_operator_experiment.Common.Exec.{
  Error, plain, message, Result, ok, err, panic, Exec, pure, raise, lift, ◌>>=◌, ◌>>◌, attempt,
}
use nats_operator_experiment.Common.Console.{Console, print, print_err, println, quietly, text}
use nats_operator_experiment.Monitor.{ConnectionInfo, ServerConnections, query_all_servers}
use nats_operator_experiment.Debug.Flags.{Flags, parse_flags}
use nats_operator_experiment.Debug.Servers.{sorted_servers, total_connections}
use nats_operator_experiment.Debug.Users.{line, run_user_connections}
use nats_operator_experiment.Debug.Accounts.{run_account_connections}
use nats_operator_experiment.Debug.Environment.{Environment, monitor, connect}

-- the line on one server
unfoldable pub server_line : Str → Option Error → List ConnectionInfo → Str
server_line name (some e) connections =
    line (codes "  " ∷ name ∷ codes ": ERROR - " ∷ message e ∷ [])
server_line name none connections =
    line (
      codes "  "
      ∷ name
      ∷ codes ": "
      ∷ format_nat (length connections)
      ∷ codes " connection(s)"
      ∷ [])

unfoldable pub overview : List ServerConnections → Str
overview [] = []
overview (s ∷ rest) = server_line s.server_name s.error s.connections ++ overview rest

abbrev pub usage : Str
usage = text (
    line (codes "Usage: nats-debug <command> [flags]" ∷ [])
    ∷ line []
    ∷ line (codes "Commands:" ∷ [])
    ∷ line (codes "  user-connections       Check connections for a specific user by nkey" ∷ [])
    ∷ line (codes "  account-connections    Check connections for an account" ∷ [])
    ∷ line (codes "  connections            Overview of all connections" ∷ [])
    ∷ [])

module _ (env : Environment) where
  -- after the flags were read
  unfoldable pub connections_overview : Flags → Exec (Console env.World) (Unit {0})
  connections_overview f =
      if str_eq f.cluster_name [] || str_eq f.namespace []
      then raise (plain (codes "--cluster and --namespace are required"))
      else (do
        urls ← connect env f.cluster_name f.namespace
        all_results ← quietly (query_all_servers (monitor env) (env.visit urls))
        println (codes "Cluster: " ∷ f.namespace ∷ codes "/" ∷ f.cluster_name ∷ [])
        println (codes "Servers queried: " ∷ format_nat (length urls) ∷ [])
        println []
        print (overview (sorted_servers all_results))
        println []
        println (
            codes "Total: "
            ∷ format_nat (total_connections (sorted_servers all_results))
            ∷ codes " connection(s)"
            ∷ []))

  unfoldable pub run_connections : List Str → Exec (Console env.World) (Unit {0})
  run_connections args = do f ← lift (parse_flags args); connections_overview f

  -- the exit code, on what the command returned
  unfoldable pub exit_code : Result (Unit {0}) → Exec (Console env.World) ℕ
  exit_code (ok u) = pure 0
  exit_code (err e) = do print_err (line (codes "Error: " ∷ message e ∷ [])); pure 1
  exit_code panic = lift panic

  unfoldable pub finish : Exec (Console env.World) (Unit {0}) → Exec (Console env.World) ℕ
  finish command = do r ← attempt command; exit_code r

  -- `os.Args` without the name of the program
  unfoldable pub main : List Str → Exec (Console env.World) ℕ
  main [] = do print_err usage; pure 1
  main (command ∷ args) =
      if str_eq command (codes "user-connections")
      then finish (run_user_connections env args)
      else if str_eq command (codes "account-connections")
      then finish (run_account_connections env args)
      else if str_eq command (codes "connections")
      then finish (run_connections args)
      else (do print_err (line (codes "Unknown command: " ∷ command ∷ [])); print_err usage; pure 1)
