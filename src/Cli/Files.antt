-- ===== src/Cli/Files.antt =====
-- `loadFromPaths` and `loadFile` of cmd/cli/cmd/loader.go. The file system, package filepath and the
-- YAML decoder are parameters.
use nats_operator_experiment.Common.{
  Str, codes, Bool, Option, none, some, List, [], ◌∷◌, ◌++◌, str_eq, if◌then◌else◌,
}
use nats_operator_experiment.Common.Exec.{Exec, pure, ◌>>=◌, wrapped}
use nats_operator_experiment.Api.User.{NatsUser}
use nats_operator_experiment.Api.Account.{NatsAccount}
use nats_operator_experiment.Api.Cluster.{NatsCluster}
use nats_operator_experiment.Cli.Loader.{split_yaml_documents}
use nats_operator_experiment.Cli.Build.{LoadedResources}

-- a decoded object, by its Go type
pub data Object : Type 0 where
  cluster_object : NatsCluster → Object
  account_object : NatsAccount → Object
  user_object : NatsUser → Object
  other_object : Object

pub record Files (W : Type 0) : Type 0 where
  -- whether the path is a directory
  pub stat : Str → Exec W Bool
  pub join_path : Str → Str → Str
  pub glob : Str → Exec W (List Str)
  pub read_file : Str → Exec W Str
  -- the kind and the object; `none` is an error
  pub decode : Str → Option (Str × Object)

-- the switch on the kind, with the assertion on the Go type
unfoldable pub add_object : Str → Object → LoadedResources → LoadedResources
add_object kind (cluster_object x) res =
    if str_eq kind (codes "NatsCluster")
    then record res { clusters = res.clusters ++ x ∷ [] }
    else res
add_object kind (account_object x) res =
    if str_eq kind (codes "NatsAccount")
    then record res { accounts = res.accounts ++ x ∷ [] }
    else res
add_object kind (user_object x) res =
    if str_eq kind (codes "NatsUser") then record res { users = res.users ++ x ∷ [] } else res
add_object kind other_object res = res

module _ {W : Type 0} (fs : Files W) where
  open fs use {stat, join_path, glob, read_file, decode}

  unfoldable pub add_decoded : Option (Str × Object) → LoadedResources → LoadedResources
  add_decoded none res = res
  add_decoded (some (kind, x)) res = add_object kind x res

  -- the loop over the documents of a file; an empty one is passed over
  unfoldable pub load_documents : List Str → LoadedResources → LoadedResources
  load_documents [] res = res
  load_documents ([] ∷ docs) res = load_documents docs res
  load_documents ((c ∷ doc) ∷ docs) res = load_documents docs (add_decoded (decode (c ∷ doc)) res)

  unfoldable pub load_file : Str → LoadedResources → Exec W LoadedResources
  load_file path res = do
    content ← wrapped (codes "reading " ++ path) (read_file path)
    pure (load_documents (split_yaml_documents content) res)

  unfoldable pub load_files : List Str → LoadedResources → Exec W LoadedResources
  load_files [] res = pure res
  load_files (f ∷ files) res = do res' ← load_file f res; load_files files res'

  unfoldable pub load_directory : Str → LoadedResources → Exec W LoadedResources
  load_directory p res = do
    files ← wrapped (codes "glob " ++ p) (glob (join_path p (codes "*.yaml")))
    yml_files ← wrapped (codes "glob " ++ p) (glob (join_path p (codes "*.yml")))
    load_files (files ++ yml_files) res

  -- one round of the loop over the paths
  unfoldable pub load_path : Str → LoadedResources → Exec W LoadedResources
  load_path p res = do
    is_dir ← wrapped (codes "stat " ++ p) (stat p)
    if is_dir then load_directory p res else load_file p res

  unfoldable pub load_paths : List Str → LoadedResources → Exec W LoadedResources
  load_paths [] res = pure res
  load_paths (p ∷ paths) res = do res' ← load_path p res; load_paths paths res'

  unfoldable pub load_from_paths : List Str → Exec W LoadedResources
  load_from_paths paths = load_paths paths (record { clusters = []; accounts = []; users = [] })
