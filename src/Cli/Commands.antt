-- ===== src/Cli/Commands.antt =====
-- `runGenerate` of cmd/cli/cmd/generate.go and `runValidate` of cmd/cli/cmd/validate.go, with what they
-- print.
pub mod Reported
use nats_operator_experiment.Common.{ℕ, Str, codes, newline, Bool, List, [], ◌∷◌, ◌++◌, length}
use nats_operator_experiment.Common.Decimal.{format_nat}
use nats_operator_experiment.Common.Exec.{plain, Exec, pure, raise, ◌>>=◌, ◌>>◌}
use nats_operator_experiment.Common.Console.{Console, print, print_err, println, quietly, text}
use nats_operator_experiment.Api.Cluster.{NatsCluster}
use nats_operator_experiment.Config.Generate.{generate}
use nats_operator_experiment.Controller.Rules.{Regexp}
use nats_operator_experiment.Cli.Build.{LoadedResources, build_config_for_cluster}
use nats_operator_experiment.Cli.Validate.{ValidationError, validate}
use nats_operator_experiment.Cli.Files.{Files, load_from_paths}

-- the method String
unfoldable pub error_string : ValidationError → Str
error_string e = text (codes "[" ∷ e.resource ∷ codes "/" ∷ e.name ∷ codes "] " ∷ e.message ∷ [])

module _ (wide : ℕ → Bool) {W : Type 0} where
  unfoldable pub print_configs : List NatsCluster → LoadedResources → Exec (Console W) (Unit {0})
  print_configs [] res = pure tt
  print_configs (cluster ∷ rest) res = do
    print (generate wide (build_config_for_cluster cluster res))
    print_configs rest res

  unfoldable pub generate_loaded : List NatsCluster → LoadedResources → Exec (Console W) (Unit {0})
  generate_loaded [] res = raise (plain (codes "no NatsCluster resources found"))
  generate_loaded (cluster ∷ rest) res = print_configs (cluster ∷ rest) res

  unfoldable pub run_generate : Files W → List Str → Exec (Console W) (Unit {0})
  run_generate fs args = do
    res ← quietly (load_from_paths fs args)
    generate_loaded res.clusters res

  unfoldable pub print_errors : List ValidationError → Exec (Console W) (Unit {0})
  print_errors [] = pure tt
  print_errors (e ∷ rest) = do
    print_err (text (codes "  - " ∷ error_string e ∷ []) ++ newline ∷ [])
    print_errors rest

  unfoldable pub report_errors :
      LoadedResources → List ValidationError → Exec (Console W) (Unit {0})
  report_errors res [] = println (
      codes "Validation passed: "
      ∷ format_nat (length res.clusters)
      ∷ codes " clusters, "
      ∷ format_nat (length res.accounts)
      ∷ codes " accounts, "
      ∷ format_nat (length res.users)
      ∷ codes " users"
      ∷ [])
  report_errors res (e ∷ errs) = do
    print_err (
        text (codes "Validation found " ∷ format_nat (length (e ∷ errs)) ∷ codes " error(s):" ∷ [])
        ++ newline ∷ [])
    print_errors (e ∷ errs)
    raise (
        plain (
          text (
            codes "validation failed with "
            ∷ format_nat (length (e ∷ errs))
            ∷ codes " error(s)"
            ∷ [])))

  unfoldable pub run_validate : Regexp → Files W → List Str → Exec (Console W) (Unit {0})
  run_validate re fs args = do
    res ← quietly (load_from_paths fs args)
    report_errors res (validate wide re res)
