-- ===== src/Examples/Debug.antt =====
-- The theorems about nats-debug, applied.
use nats_operator_experiment.Common.{
  Str, codes, none, some, List, [], ◌∷◌, ◌++◌, ◌≡◌, ◌↔◌, refl, ap, sym, str_le, str_eq, IsSorted,
  put, UniqueKeys, has_prefix,
}
use nats_operator_experiment.Common.Int.{pos}
use nats_operator_experiment.Common.Decimal.{format_int}
use nats_operator_experiment.Common.Exec.{
  Result, err, panic, plain, ok, pure, raise, wrapped, wrap_result,
}
use nats_operator_experiment.Monitor.{ConnectionInfo, ServerConnections}
use nats_operator_experiment.Controller.Reload.{workload_selector}
use nats_operator_experiment.Debug.Flags.{Flags, no_flags, parse_flags, parse_rest, set_flag}
use nats_operator_experiment.Debug.Flags.Settings.{Spells, parse_flags_iff}
use nats_operator_experiment.Debug.Shown.{contains, count, configured_block}
use nats_operator_experiment.Debug.Shown.Block.{unlines}
use nats_operator_experiment.Debug.Shown.Written.{configured_block-written}
use nats_operator_experiment.Config.Types.{UserConfig}
use nats_operator_experiment.Config.Quote.{quote}
use nats_operator_experiment.Config.Writer.{repeat_indent}
use nats_operator_experiment.Config.UserWriter.{quote_strings, write_each_user}
use nats_operator_experiment.Config.Document.{
  permissions_document, optional, rule_document, subjects_document, join, enabled_document,
}
use nats_operator_experiment.Debug.Servers.{is_seen, unique_sorted, total_connections}
use nats_operator_experiment.Debug.Servers.Unique.{NoRepeat, unique_sorted-NoRepeat}
use nats_operator_experiment.Debug.Discover.{
  discover_pod_urls, cluster_urls, workload_urls, some_urls, collect_urls, is_passed_over,
}
use nats_operator_experiment.Debug.Discover.Pods.{IsDiscovered, discover_pod_urls-IsDiscovered}
use nats_operator_experiment.Debug.Accounts.{servers_at, user_connections_of}
use nats_operator_experiment.Debug.Accounts.Tally.{
  total_length, servers_of_user, user_connections_of-Tally,
}
use nats_operator_experiment.Debug.Environment.{Environment}
use nats_operator_experiment.Debug.Commands.{main}
use nats_operator_experiment.Debug.Commands.Exit.{
  overview_command, unfit, IsComplete, Refuses, main-Refuses,
}
use nats_operator_experiment.Examples.Data.{narrow, cluster_api}

abbrev subscriber : UserConfig
subscriber = record {
  nkey = codes "UALICE";
  permissions = some (record {
    publish = none;
    subscribe = some (record { allow = codes "orders.>" ∷ []; deny = [] });
    allow_responses = none;
  });
}

configured_block-written_example :
    configured_block
      (write_each_user narrow
          (unlines (codes "accounts: {" ∷ codes "  acme {" ∷ codes "    users = [" ∷ []))
          (subscriber ∷ [])
          2
        ++ unlines (codes "    ]" ∷ codes "  }" ∷ codes "}" ∷ []))
      (codes "UALICE")
    ≡ some (
        codes "      {"
        ∷ codes "        nkey: UALICE"
        ∷ codes "        permissions {"
        ∷ codes "          subscribe {"
        ∷ codes "            allow: [\"orders.>\"]"
        ∷ codes "          }"
        ∷ codes "        }"
        ∷ codes "      }"
        ∷ [])
unfolding count contains has_prefix quote quote_strings repeat_indent permissions_document optional
    rule_document subjects_document join enabled_document
configured_block-written_example =
    configured_block-written narrow 2
      (codes "accounts: {" ∷ codes "  acme {" ∷ codes "    users = [" ∷ []) subscriber []
      (codes "    ]" ∷ codes "  }" ∷ codes "}" ∷ []) (refl, (refl, (refl, tt)))
      (refl, (refl, (refl, tt))) (refl, (refl, (refl, tt)))
      (
        (
          record { no_opening = refl; no_closing = refl; no_newline = refl },
          (tt, ((record { no_opening = refl; no_closing = refl; no_newline = refl }, tt), tt), tt),
        ),
        tt,
      )

parse_flags_iff_example :
    (parse_flags (codes "--nkey" ∷ codes "UALICE" ∷ [])
      ≡ ok (record { cluster_name = []; namespace = []; nkey = codes "UALICE"; account = [] }))
    ↔ Spells no_flags
        (codes "--nkey" ∷ codes "UALICE" ∷ [])
        (record { cluster_name = []; namespace = []; nkey = codes "UALICE"; account = [] })
parse_flags_iff_example =
    parse_flags_iff (codes "--nkey" ∷ codes "UALICE" ∷ [])
      (record { cluster_name = []; namespace = []; nkey = codes "UALICE"; account = [] })

unique_sorted-NoRepeat_example :
    IsSorted str_le (unique_sorted (codes "b" ∷ codes "a" ∷ codes "b" ∷ []))
    × NoRepeat (unique_sorted (codes "b" ∷ codes "a" ∷ codes "b" ∷ []))
    × ((x : Str)
        → is_seen x (unique_sorted (codes "b" ∷ codes "a" ∷ codes "b" ∷ []))
          ≡ is_seen x (codes "b" ∷ codes "a" ∷ codes "b" ∷ []))
unique_sorted-NoRepeat_example = unique_sorted-NoRepeat (codes "b" ∷ codes "a" ∷ codes "b" ∷ [])

abbrev connection : Str → ConnectionInfo
connection nkey = record {
  cid = 7;
  ip = codes "10.0.0.9";
  port = pos 4222;
  account = codes "acme";
  nkey = nkey;
  rtt = [];
  subscriptions = pos 1;
  in_msgs = pos 2;
  out_msgs = pos 3;
  in_bytes = pos 4;
  out_bytes = pos 5;
  uptime = [];
  start = [];
  stop = codes "now";
  reason = codes "Authorization Violation";
}

abbrev servers : List ServerConnections
servers =
    record {
      server_id = codes "A";
      server_name = codes "nats-0";
      connections = connection (codes "UALICE") ∷ connection (codes "UBOB") ∷ [];
      error = none;
    }
    ∷ record {
      server_id = [];
      server_name = codes "nats-1";
      connections = [];
      error = some (plain (codes "no answer"));
    }
    ∷ []

user_connections_of-Tally_example :
    (total_length (user_connections_of servers []) ≡ total_connections servers)
    × UniqueKeys (user_connections_of servers [])
    × ((nkey : Str)
        → servers_at nkey (user_connections_of servers []) ≡ servers_of_user nkey servers)
user_connections_of-Tally_example = user_connections_of-Tally servers

discover_pod_urls-IsDiscovered_example :
    IsDiscovered cluster_api
      (codes "main")
      (codes "apps")
      ((codes "nats-0", codes "http://10.0.0.7:8222") ∷ [])
unfolding discover_pod_urls cluster_urls workload_urls some_urls workload_selector wrapped
    wrap_result collect_urls is_passed_over put str_eq format_int
discover_pod_urls-IsDiscovered_example =
    discover_pod_urls-IsDiscovered cluster_api (codes "main") (codes "apps") 0 0
      ((codes "nats-0", codes "http://10.0.0.7:8222") ∷ []) refl

abbrev env : Environment
env = record {
  client = cluster_api;
  source = record {
    RestConfig = Unit {0};
    get_config = raise (plain (codes "no config"));
    load_kubeconfig = pure tt;
    new_for = λ config. pure tt;
  };
  http = record {
    Request = Str;
    Body = Unit {0};
    new_request = λ url. ok url;
    send = λ r. pure (200, tt);
    decode = λ b. pure (record { server_id = []; num_connections = pos 0; connections = [] });
  };
  visit = λ m. m;
  visit_again = λ m. m;
  to_lower = λ s. s;
  wide = narrow;
}

abbrev namespace_of : Result Flags → Str
namespace_of (ok f) = f.namespace
namespace_of (err e) = []
namespace_of panic = []

no_namespace :
    (f : Flags)
    → Spells no_flags (codes "--cluster" ∷ codes "main" ∷ []) f
    → IsComplete overview_command f
    → ⊥
unfolding parse_flags parse_rest set_flag str_eq
no_namespace f spelt complete =
    complete.1
      (ap namespace_of (sym ((parse_flags_iff (codes "--cluster" ∷ codes "main" ∷ []) f).1 spelt)))

main-Refuses_example :
    Refuses
      (main env (codes "connections" ∷ codes "--cluster" ∷ codes "main" ∷ []))
      (record { world = 0; out = []; err_out = [] })
main-Refuses_example =
    main-Refuses env (record { world = 0; out = []; err_out = [] })
      (codes "connections" ∷ codes "--cluster" ∷ codes "main" ∷ [])
      (unfit overview_command (codes "--cluster" ∷ codes "main" ∷ []) no_namespace)
