-- ===== src/Debug/Commands/Exit.antt =====
-- The command lines that nats-debug turns down.
use nats_operator_experiment.Common.{
  ℕ, Str, codes, Bool, true, false, ◌||◌, List, [], ◌∷◌, ◌++◌, ◌≡◌, ◌≢◌, refl, sym, subst,
  append_assoc, str_eq, str_eq_iff, Option, some, none, is_some, Bool-cases, inl, inr,
}
use nats_operator_experiment.Common.Exec.{Error, Result, ok, err, panic, plain, Exec, message}
use nats_operator_experiment.Common.Console.{Console}
use nats_operator_experiment.Debug.Flags.{
  Flags, no_flags, set_flag, unknown_flag, parse_rest, parse_flags,
}
use nats_operator_experiment.Debug.Flags.Settings.{Spells, parse_flags_iff}
use nats_operator_experiment.Debug.Users.{
  line, user_flags_missing, user_connections, run_user_connections,
}
use nats_operator_experiment.Debug.Accounts.{
  account_flags_missing, account_connections, run_account_connections,
}
use nats_operator_experiment.Debug.Environment.{Environment}
use nats_operator_experiment.Debug.Commands.{
  connections_overview, run_connections, exit_code, finish, usage, main,
}

-- the three commands, each with the flags that it cannot do without
pub data Command : Type 0 where
  user_command : Command
  account_command : Command
  overview_command : Command

abbrev pub command_name : Command → Str
command_name user_command = codes "user-connections"
command_name account_command = codes "account-connections"
command_name overview_command = codes "connections"

-- The settings give the command what it needs: a cluster, a namespace, and what it is to look for.
abbrev pub IsComplete : Command → Flags → Type 0
IsComplete user_command f = (f.cluster_name ≢ []) × (f.namespace ≢ []) × (f.nkey ≢ [])
IsComplete account_command f = (f.cluster_name ≢ []) × (f.namespace ≢ []) × (f.account ≢ [])
IsComplete overview_command f = (f.cluster_name ≢ []) × (f.namespace ≢ [])

-- The arguments name no command, or name one behind which there are no settings that spell them and
-- give the command what it needs.
pub data Unusable : List Str → Type 0 where
  no_command : Unusable []
  unknown :
      (s : Str) (args : List Str)
      → ((command : Command) → s ≢ command_name command)
      → Unusable (s ∷ args)
  unfit :
      (command : Command) (args : List Str)
      → ((f : Flags) → Spells no_flags args f → IsComplete command f → ⊥)
      → Unusable (command_name command ∷ args)

abbrev lacks : Command → Flags → Bool
lacks user_command f = user_flags_missing f
lacks account_command f = account_flags_missing f
lacks overview_command f = str_eq f.cluster_name [] || str_eq f.namespace []

-- none of the tests for an empty value holds
present : (s : Str) → str_eq s [] ≡ false → s ≢ []
present s e h = cc ((str_eq_iff s []).1 h)

or-false : (a b : Bool) → (a || b) ≡ false → (a ≡ false) × (b ≡ false)
or-false false b h = (refl, h)
or-false true b h = absurd (cc h)

complete : (command : Command) (f : Flags) → lacks command f ≡ false → IsComplete command f
complete user_command f h =
    let (ab, c) = or-false (str_eq f.cluster_name [] || str_eq f.namespace []) _ h in
    let (a, b) = or-false (str_eq f.cluster_name []) _ ab in
    (present f.cluster_name a, present f.namespace b, present f.nkey c)
complete account_command f h =
    let (ab, c) = or-false (str_eq f.cluster_name [] || str_eq f.namespace []) _ h in
    let (a, b) = or-false (str_eq f.cluster_name []) _ ab in
    (present f.cluster_name a, present f.namespace b, present f.account c)
complete overview_command f h =
    let (a, b) = or-false (str_eq f.cluster_name []) _ h in
    (present f.cluster_name a, present f.namespace b)

-- the program ends with exit code 1 and a text on the error output, having done nothing else
pub record Refuses {W : Type 0} (m : Exec (Console W) ℕ) (k : Console W) : Type 0 where
  pub code : (m k).0 ≡ ok 1
  pub same_world : (m k).1.world ≡ k.world
  pub same_out : (m k).1.out ≡ k.out
  pub complaint : Str
  pub complains : (m k).1.err_out ≡ k.err_out ++ complaint
  pub is_said : complaint ≢ []

cons-ne-nil : {c : ℕ} {s : Str} → c ∷ s ≢ []
cons-ne-nil h = cc

parse_rest-ne-panic : (f : Flags) (args : List Str) → parse_rest f args ≢ panic
unfolding parse_rest
parse_rest-ne-panic f [] h = cc h
parse_rest-ne-panic f (flag ∷ []) h = elim (Bool-cases (is_some (set_flag f flag []))) [
  | inl e ↦ cc (rw e at h)
  | inr e ↦ cc (rw e at h)
]
parse_rest-ne-panic f (flag ∷ value ∷ rest) h =
    after (set_flag f flag value) (λ g. parse_rest-ne-panic g rest) h
  where
    after :
        (o : Option Flags)
        → ((g : Flags) → parse_rest g rest ≢ panic)
        → (elim o [ some g ↦ parse_rest g rest | none ↦ err (unknown_flag flag) ]) ≢ panic
    after (some g) ih h' = ih g h'
    after none ih h' = cc h'

parse_flags-ne-panic : (args : List Str) → parse_flags args ≢ panic
unfolding parse_flags
parse_flags-ne-panic args = parse_rest-ne-panic no_flags args

module _ (env : Environment) (k : Console env.World) where
  finish-Refuses :
      (m : Exec (Console env.World) (Unit {0})) (e : Error)
      → m k ≡ (err e, k)
      → Refuses (finish env m) k
  unfolding finish exit_code
  finish-Refuses m e h = record {
    code = rw h refl;
    same_world = rw h refl;
    same_out = rw h refl;
    complaint = line (codes "Error: " ∷ message e ∷ []);
    complains = rw h refl;
    is_said = cons-ne-nil;
  }

  run : Command → List Str → Exec (Console env.World) (Unit {0})
  run user_command args = run_user_connections env args
  run account_command args = run_account_connections env args
  run overview_command args = run_connections env args

  main-run :
      (command : Command) (args : List Str)
      → main env (command_name command ∷ args) ≡ finish env (run command args)
  unfolding main run str_eq
  main-run user_command args = refl
  main-run account_command args = refl
  main-run overview_command args = refl

  run-err :
      (command : Command) (args : List Str) (e : Error)
      → parse_flags args ≡ err e
      → run command args k ≡ (err e, k)
  unfolding run run_user_connections run_account_connections run_connections
  run-err user_command args e h = rw h refl
  run-err account_command args e h = rw h refl
  run-err overview_command args e h = rw h refl

  run-missing :
      (command : Command) (args : List Str) (f : Flags)
      → parse_flags args ≡ ok f
      → lacks command f ≡ true
      → (e : Error) × (run command args k ≡ (err e, k))
  unfolding run run_user_connections run_account_connections run_connections user_connections
      account_connections connections_overview
  run-missing user_command args f h l =
      (plain (codes "--cluster, --namespace, and --nkey are required"), rw (h, l) refl)
  run-missing account_command args f h l =
      (plain (codes "--cluster, --namespace, and --account are required"), rw (h, l) refl)
  run-missing overview_command args f h l =
      (plain (codes "--cluster and --namespace are required"), rw (h, l) refl)

  run-Refuses :
      (command : Command) (args : List Str) (e : Error)
      → run command args k ≡ (err e, k)
      → Refuses (main env (command_name command ∷ args)) k
  run-Refuses command args e h =
      subst (λ m. Refuses m k) (sym (main-run command args)) (finish-Refuses (run command args) e h)

  not_named :
      (s : Str)
      → ((command : Command) → s ≢ command_name command)
      → (command : Command) → str_eq s (command_name command) ≡ false
  not_named s h command = elim (Bool-cases (str_eq s (command_name command))) [
    | inl e ↦ absurd (h command ((str_eq_iff s (command_name command)).0 e))
    | inr e ↦ e
  ]

  unknown-Refuses :
      (s : Str) (args : List Str)
      → ((command : Command) → s ≢ command_name command)
      → Refuses (main env (s ∷ args)) k
  unfolding main
  unknown-Refuses s args h =
      rw (not_named s h user_command, not_named s h account_command, not_named s h overview_command)
        (record {
          code = refl;
          same_world = refl;
          same_out = refl;
          complaint = line (codes "Unknown command: " ∷ s ∷ []) ++ usage;
          complains = append_assoc k.err_out (line (codes "Unknown command: " ∷ s ∷ [])) usage;
          is_said = cons-ne-nil;
        })

  no_command-Refuses : Refuses (main env []) k
  unfolding main
  no_command-Refuses = record {
    code = refl;
    same_world = refl;
    same_out = refl;
    complaint = usage;
    complains = refl;
    is_said = cons-ne-nil;
  }

  unfit-Refuses :
      (command : Command) (args : List Str) (r : Result Flags)
      → parse_flags args ≡ r
      → ((f : Flags) → Spells no_flags args f → IsComplete command f → ⊥)
      → Refuses (main env (command_name command ∷ args)) k
  unfit-Refuses command args (err e) h u = run-Refuses command args e (run-err command args e h)
  unfit-Refuses command args panic h u = absurd (parse_flags-ne-panic args h)
  unfit-Refuses command args (ok f) h u = elim (Bool-cases (lacks command f)) [
    | inl l ↦
        let (e, refused) = run-missing command args f h l in run-Refuses command args e refused
    | inr l ↦ absurd (u f ((parse_flags_iff args f).0 h) (complete command f l))
  ]

  -- On a command line that names none of the three commands, or behind whose command there are no
  -- settings that spell the other arguments and give a cluster, a namespace and, for a user or an
  -- account, the NKey or the account, none of them empty, the program exits with code 1 and says
  -- something on the error output; it prints nothing else and asks nothing of the API server or the
  -- network.
  pub main-Refuses : (args : List Str) → Unusable args → Refuses (main env args) k
  main-Refuses _ no_command = no_command-Refuses
  main-Refuses _ (unknown s args h) = unknown-Refuses s args h
  main-Refuses _ (unfit command args u) = unfit-Refuses command args (parse_flags args) refl u
