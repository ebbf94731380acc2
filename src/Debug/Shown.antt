-- ===== src/Debug/Shown.antt =====
-- `showConfiguredPermissions` and `showHelpfulCommands` of cmd/nats-debug/main.go.
pub mod Block
pub mod Lines
pub mod Labels
pub mod Neat
pub mod Written
use nats_operator_experiment.Common.{
  ℕ, zero, suc, ◌+◌, ◌-◌, Str, codes, newline, Bool, true, false, ◌||◌, Option, none, some, List,
  [], ◌∷◌, ◌++◌, leb, ◌==◌, has_prefix, if◌then◌else◌,
}
use nats_operator_experiment.Common.Exec.{Exec, pure, ◌>>=◌, ◌>>◌}
use nats_operator_experiment.Common.Console.{Console, print, println, text}
use nats_operator_experiment.Api.Cluster.{NatsCluster, WorkloadReference}
use nats_operator_experiment.Cli.Loader.{add_byte}
use nats_operator_experiment.Controller.HashHeader.{drop_end}

-- strings.Contains
unfoldable pub contains : Str → Str → Bool
contains [] s = has_prefix [] s
contains (c ∷ t) s = has_prefix (c ∷ t) s || contains t s

-- strings.Count of one character
unfoldable pub count : ℕ → Str → ℕ
count c [] = 0
count c (d ∷ t) = if d == c then suc (count c t) else count c t

-- strings.Split(s, "\n")
unfoldable pub split_newlines : Str → List Str
split_newlines [] = [] ∷ []
split_newlines (c ∷ s) =
    let lines = split_newlines s in if c == newline then [] ∷ lines else add_byte c lines

-- the lines before a position, the last first, the line there, and the lines behind it
pub record Position : Type 0 where
  pub before : List Str
  pub line : Str
  pub after : List Str

-- the loop that breaks at the first line with the text
unfoldable pub find_line : Str → List Str → List Str → Option Position
find_line s before [] = none
find_line s before (l ∷ rest) =
    if contains l s
    then some (record { before = before; line = l; after = rest })
    else find_line s (l ∷ before) rest

-- the walk backwards to a line with "{", or to the first one: the lines from there on
unfoldable pub walk_back : List Str → Str → List Str → List Str
walk_back [] l after = l ∷ after
walk_back (b ∷ before) l after =
    if contains l (codes "{") then l ∷ after else walk_back before b (l ∷ after)

-- the walk forward: the lines up to the one that brings the depth down to 0
unfoldable pub walk_forward : ℕ → List Str → List Str
walk_forward depth [] = []
walk_forward depth (l ∷ rest) =
    let opened = depth + count b'{' l in
    let closed = count b'}' l in
    let more = walk_forward (opened - closed) rest in if leb opened closed then l ∷ [] else l ∷ more

abbrev pub block_at : Option Position → Option (List Str)
block_at none = none
block_at (some p) = some (walk_forward 0 (walk_back p.before p.line p.after))

-- the lines that are shown; `none` where the key is not found
unfoldable pub configured_block : Str → Str → Option (List Str)
configured_block auth_conf nkey =
    block_at (find_line (codes "nkey: " ++ nkey) [] (split_newlines auth_conf))

unfoldable pub block_text : List Str → Str
block_text [] = []
block_text (l ∷ rest) =
    text (codes "    " ∷ drop_end (λ c. c == 32) l ∷ (newline ∷ []) ∷ block_text rest ∷ [])

-- strings.ToLower is not under src/: it is the argument `to_lower` of what follows
unfoldable pub logs_command : (Str → Str) → Str → Option WorkloadReference → Str
logs_command to_lower namespace none = []
logs_command to_lower namespace (some ref) = text (
    codes "    View NATS logs:    kubectl logs "
    ∷ to_lower ref.kind
    ∷ codes "/"
    ∷ ref.name
    ∷ codes " -n "
    ∷ namespace
    ∷ codes " --tail=50 | grep -i auth"
    ∷ (newline ∷ [])
    ∷ [])

module _ {W : Type 0} where
  unfoldable pub print_block : Option (List Str) → Exec (Console W) (Unit {0})
  print_block none = pure tt
  print_block (some lines) = do
    println (codes "  Configured permissions (from auth.conf):" ∷ [])
    print (block_text lines)
    println []

  unfoldable pub show_configured_permissions : Str → Str → Exec (Console W) (Unit {0})
  show_configured_permissions auth_conf nkey = print_block (configured_block auth_conf nkey)

  unfoldable pub show_helpful_commands :
      (Str → Str) → NatsCluster → Str → Str → Exec (Console W) (Unit {0})
  show_helpful_commands to_lower cluster config_map_name namespace = do
    println (codes "  Useful commands:" ∷ [])
    println (
        codes "    View auth config:  kubectl get configmap "
        ∷ config_map_name
        ∷ codes " -n "
        ∷ namespace
        ∷ codes " -o jsonpath='{.data.auth\\.conf}'"
        ∷ [])
    print (logs_command to_lower namespace cluster.spec.server_ref)
    println []
