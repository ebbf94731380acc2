-- ===== src/Debug/Flags/Settings.antt =====
-- What `parseFlags` accepts, and what it makes of it.
use nats_operator_experiment.Common.{
  Str, codes, Bool, true, false, Option, none, some, List, [], ◌∷◌, ◌≡◌, ◌↔◌, ◌⊎◌, refl, sym, ap,
  ◌∙◌, str_eq, str_eq_iff, Option-cases, inl, inr, is_some, if◌then◌else◌,
}
use nats_operator_experiment.Common.Exec.{Error, Result, ok, err}
use nats_operator_experiment.Debug.Flags.{
  Flags, no_flags, set_flag, unknown_flag, parse_rest, parse_flags,
}

-- one of the four settings of the command line
pub data Setting : Type 0 where
  cluster : Str → Setting
  namespace : Str → Setting
  nkey : Str → Setting
  account : Str → Setting

-- the arguments that give a setting
abbrev pub arguments : Setting → List Str → List Str
arguments (cluster v) rest = codes "--cluster" ∷ v ∷ rest
arguments (namespace v) rest = codes "--namespace" ∷ v ∷ rest
arguments (nkey v) rest = codes "--nkey" ∷ v ∷ rest
arguments (account v) rest = codes "--account" ∷ v ∷ rest

abbrev pub command_line : List Setting → List Str
command_line [] = []
command_line (s ∷ rest) = arguments s (command_line rest)

abbrev pub set : Setting → Flags → Flags
set (cluster v) f = record f { cluster_name = v }
set (namespace v) f = record f { namespace = v }
set (nkey v) f = record f { nkey = v }
set (account v) f = record f { account = v }

-- the settings in their order, so that the last one of a kind counts
abbrev pub apply : List Setting → Flags → Flags
apply [] f = f
apply (s ∷ rest) f = apply rest (set s f)

if-some {ℓ} :
    {A : Type ℓ} (b : Bool) {x a : A} {o : Option A}
    → (if b then some x else o) ≡ some a
    → ((b ≡ true) × (x ≡ a)) ⊎ (o ≡ some a)
if-some true h = inl (refl, cc h)
if-some false h = inr h

abbrev IsSetting : Flags → Str → Str → Flags → Type 0
IsSetting f flag value f' =
    (s : Setting) × ((rest : List Str) → flag ∷ value ∷ rest ≡ arguments s rest) × (set s f ≡ f')

spelled :
    (flag name value : Str)
    → str_eq flag name ≡ true
    → (rest : List Str) → flag ∷ value ∷ rest ≡ name ∷ value ∷ rest
spelled flag name value e rest = ap (λ x. x ∷ value ∷ rest) ((str_eq_iff flag name).0 e)

set_flag-IsSetting :
    (f : Flags) (flag value : Str) (f' : Flags)
    → set_flag f flag value ≡ some f'
    → IsSetting f flag value f'
unfolding set_flag
set_flag-IsSetting f flag value f' h = elim (if-some (str_eq flag (codes "--cluster")) h) [
  | inl (e, k) ↦ (cluster value, spelled flag (codes "--cluster") value e, k)
  | inr h' ↦ elim (if-some (str_eq flag (codes "--namespace")) h') [
    | inl (e, k) ↦ (namespace value, spelled flag (codes "--namespace") value e, k)
    | inr h'' ↦ elim (if-some (str_eq flag (codes "--nkey")) h'') [
      | inl (e, k) ↦ (nkey value, spelled flag (codes "--nkey") value e, k)
      | inr h₃ ↦ elim (if-some (str_eq flag (codes "--account")) h₃) [
        | inl (e, k) ↦ (account value, spelled flag (codes "--account") value e, k)
        | inr n ↦ cc n
      ]
    ]
  ]
]

parse_rest-settings :
    (f : Flags) (settings : List Setting)
    → parse_rest f (command_line settings) ≡ ok (apply settings f)
unfolding parse_rest set_flag str_eq
parse_rest-settings f [] = refl
parse_rest-settings f (cluster v ∷ rest) = parse_rest-settings (set (cluster v) f) rest
parse_rest-settings f (namespace v ∷ rest) = parse_rest-settings (set (namespace v) f) rest
parse_rest-settings f (nkey v ∷ rest) = parse_rest-settings (set (nkey v) f) rest
parse_rest-settings f (account v ∷ rest) = parse_rest-settings (set (account v) f) rest

-- the arguments spell settings, and these make of `f` the flags `f'`
abbrev pub Spells : Flags → List Str → Flags → Type 0
Spells f args f' =
    (settings : List Setting) × (args ≡ command_line settings) × (f' ≡ apply settings f)

err-ne-ok : {e : Error} {f : Flags} → ◌≡◌ {A = Result Flags} (err e) (ok f) → ⊥
err-ne-ok h = cc

ok-eq : {f g : Flags} → ◌≡◌ {A = Result Flags} (ok f) (ok g) → f ≡ g
ok-eq h = cc h

odd-ne-ok :
    (b : Bool) (e e' : Error) {f : Flags}
    → ◌≡◌ {A = Result Flags} (if b then err e else err e') (ok f)
    → ⊥
odd-ne-ok true e e' h = err-ne-ok h
odd-ne-ok false e e' h = err-ne-ok h

parse_rest-Spells :
    (f : Flags) (args : List Str) (f' : Flags) → parse_rest f args ≡ ok f' → Spells f args f'
unfolding parse_rest
parse_rest-Spells f [] f' h = ([], refl, sym (ok-eq h))
parse_rest-Spells f (flag ∷ []) f' h = absurd (odd-ne-ok (is_some (set_flag f flag [])) _ _ h)
parse_rest-Spells f (flag ∷ value ∷ rest) f' h = elim (Option-cases (set_flag f flag value)) [
  | inl e ↦ absurd (err-ne-ok (sym (ap step e) ∙ h))
  | inr (g, e) ↦
      let (s, spelt, made) = set_flag-IsSetting f flag value g e in
      let (settings, same, applied) = parse_rest-Spells g rest f' (sym (ap step e) ∙ h) in
      (s ∷ settings, spelt rest ∙ ap (arguments s) same, applied ∙ ap (apply settings) (sym made))
]
  where
    step : Option Flags → Result Flags
    step o = elim o [ some g ↦ parse_rest g rest | none ↦ err (unknown_flag flag) ]

-- The command line is accepted exactly if it spells a list of settings, of the four kinds that there
-- are, each with a value; the flags are then what the settings make of empty flags, one after the
-- other, so that the last setting of a kind counts.
pub parse_flags_iff :
    (args : List Str) (f : Flags) → (parse_flags args ≡ ok f) ↔ Spells no_flags args f
unfolding parse_flags
parse_flags_iff args f = (
  parse_rest-Spells no_flags args f,
  λ (settings, spelt, made).
      ap (parse_rest no_flags) spelt ∙ parse_rest-settings no_flags settings ∙ ap ok (sym made),
)
