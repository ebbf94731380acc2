-- ===== src/Debug/Environment.antt =====
-- What the commands of cmd/nats-debug/main.go are given: the API server, the way to a client of it,
-- the network, and what Go and its library choose. `main` is in Commands.antt.
use nats_operator_experiment.Common.{ℕ, Str, Bool, Map}
use nats_operator_experiment.Common.Exec.{
  Exec, pure, ◌>>=◌, ◌>>◌, attempt, Result, ok, err, panic, lift,
}
use nats_operator_experiment.Common.Console.{Console, quietly}
use nats_operator_experiment.Api.Cluster.{NatsCluster}
use nats_operator_experiment.Controller.Client.{Client}
use nats_operator_experiment.Monitor.{MonitorClient}
use nats_operator_experiment.Monitor.Http.{HttpClient, http_monitor_client}
use nats_operator_experiment.Debug.Discover.{ClientSource, new_client, discover_pod_urls}
use nats_operator_experiment.Debug.Shown.{show_helpful_commands}

pub record Environment : Type 1 where
  pub client : Client
  pub open client use {World}
  pub source : ClientSource client.World
  pub http : HttpClient client.World
  -- the order in which `range` visits the map of servers, the first and the second time
  pub visit : Map Str → Map Str
  pub visit_again : Map Str → Map Str
  -- strings.ToLower
  pub to_lower : Str → Str
  -- the printable code points from 0x80 on, for `%q`
  pub wide : ℕ → Bool

module _ (env : Environment) where
  abbrev pub monitor : MonitorClient env.World
  monitor = http_monitor_client env.http

  -- the part that the three commands share: a client, and the servers of the cluster
  unfoldable pub connect : Str → Str → Exec (Console env.World) (Map Str)
  connect cluster_name namespace = do
    quietly (new_client env.source)
    quietly (discover_pod_urls env.client cluster_name namespace)

  -- the last check of both diagnostics
  unfoldable pub help_on_cluster :
      Str → Str → Result NatsCluster → Exec (Console env.World) (Unit {0})
  help_on_cluster config_map_name namespace (ok cluster) =
      show_helpful_commands env.to_lower cluster config_map_name namespace
  help_on_cluster config_map_name namespace (err e) = pure tt
  help_on_cluster config_map_name namespace panic = lift panic

  unfoldable pub help_on : Str → Str → Str → Exec (Console env.World) (Unit {0})
  help_on cluster_name config_map_name namespace = do
    r ←
        attempt
          (quietly (env.client.get_cluster (record { name = cluster_name; namespace = namespace })))
    help_on_cluster config_map_name namespace r
