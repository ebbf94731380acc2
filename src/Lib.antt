-- ===== src/Lib.antt =====
-- A model of the NATS auth operator: a Kubernetes operator that turns the resources NatsCluster,
-- NatsAccount and NatsUser into the configuration of a NATS server, a command line tool that does the
-- same for manifests, and a tool that looks into a running cluster.
--
-- The program's parts, and the files that model them:
-- - api/v1alpha1: the resources. Api/Meta, Api/User, Api/Responses (the JSON methods of
--   AllowResponsesSpec), Api/Account, Api/Cluster.
-- - internal/natsconfig: types.go is Config/Types. convert.go is Config/Quantities
--   (quantityToNATSSize), Config/Permissions (convertPermissions, injectInboxPrefix) and
--   Config/Convert (ConvertToNatsConfig). generate.go is Config/Quote (the `%q` that it prints with),
--   Config/Writer, Config/UserWriter and Config/Generate; a string builder is the text so far.
--   Config/Document is an independent description of the text as a tree.
-- - internal/nkeys: Nkeys.
-- - internal/controller: Controller/Rules (user_rule_evaluator.go), Controller/Secrets
--   (nkey_secret_manager.go), Controller/Identity (operator_identity.go), Controller/HashHeader (the
--   header functions of pod_reloader.go), Controller/PodExec (its SpdyPodReloader), and of
--   natscluster_controller.go Controller/Conditions, Controller/Users, Controller/Accounts
--   (reconcileAccountsAndUsers), Controller/Reload (reloadNatsPods), Controller/Reconcile (Reconcile)
--   and Controller/Requests (the mapping of events to clusters).
-- - internal/natsmonitor: Monitor (the queries of all servers and the filters) and Monitor/Http (the
--   client of one server).
-- - cmd/cli/cmd: Cli/Loader (the splitting of documents) and Cli/Files (loader.go), Cli/Build
--   (buildConfigForCluster of generate.go), Cli/Validate (the checks of validate.go) and Cli/Commands
--   (runGenerate and runValidate).
-- - cmd/nats-debug/main.go: Debug/Flags (parseFlags), Debug/Discover (newClient, discoverPodURLs),
--   Debug/Servers (sortedServers, uniqueSorted and what is counted), Debug/Closed
--   (checkClosedConnections), Debug/UserStatus (checkNatsUserStatus), Debug/Shown
--   (showConfiguredPermissions, showHelpfulCommands), Debug/Users and Debug/Accounts (the commands with
--   their diagnostics), Debug/Commands (runConnections, main) and Debug/Environment (what they share).
--
-- Reconcile reads a cluster, its accounts and all users; for each account it evaluates the rules on
-- each user, makes sure of the user's secret and collects the entries; the entries are converted and
-- rendered, the text goes into a ConfigMap behind a header with its hash, the pods that show that hash
-- are signalled, and the status is written.
--
-- The tools print: their state is a Console, the world beside the texts that went to the two outputs
-- (Common/Console). nats-debug finds the pods of a cluster by the client of the API server, as the
-- reload of the operator does, asks each of them by the monitor, and reads the ConfigMap that Reconcile
-- has written.
--
-- How code is modelled:
-- - Code points stand for characters: a string is a list of numbers. A Go map is a list of entries in
--   the order in which a `range` visits them, a nil slice is the empty one, a pointer is an Option.
--   The model keeps names unbounded and integers of the API as ℤ; no arithmetic on them can overflow,
--   since the program only divides and prints them.
-- - A call that reads or changes the cluster is a function from the world to a result and the world
--   after it, so what was done before an error stays done (Common/Exec). A runtime panic, such as a
--   write to a nil map, is a result of its own.
-- - Objects that the code mutates through a pointer are returned by the model.
-- - The client of the API server, SetStatusCondition, the owner references, package regexp, the key
--   pairs, the random bytes, SHA-256, encoding/json, the SPDY executor, the clock, net/http, the file
--   system, the YAML decoder, the making of a client and strings.ToLower are parameters. What a theorem
--   relies on is a hypothesis of it: IsLawful of the JSON codec, IsClock, KeepsUsers (an
--   update of a status changes nothing else of a user), SecretStore (a secret is read as it was written
--   last), and the records of
--   Controller/Panics, which say that no call panics.
-- - The wait for a pod has fuel for 12 checks: one at the start, one after each of the ten polls of
--   500 ms that fit into 5 s, and one past the deadline. The digits of n are computed on fuel n + 1,
--   and no number has more digits than that.
--
-- Not modelled: the wiring (cmd/main.go but for the use it makes of the operator's identity,
-- cmd/cli/main.go, SetupWithManager, the scheme), the generated deep copies, logging, and the tests.
pub mod Common
pub mod Api
pub mod Config
pub mod Nkeys
pub mod Controller
pub mod Monitor
pub mod Cli
pub mod Debug
pub mod Examples
