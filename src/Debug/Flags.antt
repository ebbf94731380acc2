-- ===== src/Debug/Flags.antt =====
-- `parseFlags` of cmd/nats-debug/main.go
pub mod Settings
use nats_operator_experiment.Common.{
  Str, codes, Bool, Option, none, some, List, [], ◌∷◌, ◌++◌, str_eq, is_some, if◌then◌else◌,
}
use nats_operator_experiment.Common.Exec.{Error, plain, Result, ok, err}

pub record Flags : Type 0 where
  pub cluster_name : Str
  pub namespace : Str
  pub nkey : Str
  pub account : Str

abbrev pub no_flags : Flags
no_flags = record { cluster_name = []; namespace = []; nkey = []; account = [] }

-- the switch: the flags with that one set, or `none` for an unknown flag
unfoldable pub set_flag : Flags → Str → Str → Option Flags
set_flag f flag value =
    if str_eq flag (codes "--cluster")
    then some (record f { cluster_name = value })
    else if str_eq flag (codes "--namespace")
    then some (record f { namespace = value })
    else if str_eq flag (codes "--nkey")
    then some (record f { nkey = value })
    else if str_eq flag (codes "--account")
    then some (record f { account = value })
    else none

abbrev pub unknown_flag : Str → Error
unknown_flag flag = plain (codes "unknown flag: " ++ flag)

-- the loop; `f` holds what was read so far
unfoldable pub parse_rest : Flags → List Str → Result Flags
parse_rest f [] = ok f
parse_rest f (flag ∷ []) =
    if is_some (set_flag f flag [])
    then err (plain (flag ++ codes " requires a value"))
    else err (unknown_flag flag)
parse_rest f (flag ∷ value ∷ rest) = elim (set_flag f flag value) [
  | some f' ↦ parse_rest f' rest
  | none ↦ err (unknown_flag flag)
]

unfoldable pub parse_flags : List Str → Result Flags
parse_flags args = parse_rest no_flags args
