-- ===== src/Common/Exec.antt =====
-- Calls that read or change the world around the program and may fail. What was done before a
-- failure stays done, so the world comes back beside the error too.
use nats_operator_experiment.Common.{Str, codes, Bool, false, ◌++◌, ◌≡◌, refl, sym, ap, ◌∙◌, subst}

-- What IsNotFound and IsConflict of apimachinery read of an error of the API server.
pub record ApiError : Type 0 where
  pub not_found : Bool
  pub conflict : Bool
  pub text : Str

-- fmt.Errorf without and with `%w`
pub data Error : Type 0 where
  api : ApiError → Error
  plain : Str → Error
  wrap : Str → Error → Error

-- err.Error()
unfoldable pub message : Error → Str
message (api e) = e.text
message (plain s) = s
message (wrap s e) = s ++ (codes ": " ++ message e)

unfoldable pub is_not_found : Error → Bool
is_not_found (api e) = e.not_found
is_not_found (plain s) = false
is_not_found (wrap s e) = is_not_found e

unfoldable pub is_conflict : Error → Bool
is_conflict (api e) = e.conflict
is_conflict (plain s) = false
is_conflict (wrap s e) = is_conflict e

-- `panic` is a runtime panic, such as a write to a nil map.
pub data Result {ℓ} (A : Type ℓ) : Type ℓ where
  ok : A → Result A
  err : Error → Result A
  panic : Result A

abbrev pub Exec {ℓ} : Type 0 → Type ℓ → Type ℓ
Exec W A = W → Result A × W

module _ {W : Type 0} where
  abbrev pub pure {ℓ} : {A : Type ℓ} → A → Exec W A
  pure a w = (ok a, w)

  abbrev pub raise {ℓ} : {A : Type ℓ} → Error → Exec W A
  raise e w = (err e, w)

  -- a call that cannot touch the world
  abbrev pub lift {ℓ} : {A : Type ℓ} → Result A → Exec W A
  lift r w = (r, w)

  abbrev pub continue {ℓ κ} : {A : Type ℓ} {B : Type κ} → Result A → (A → Exec W B) → Exec W B
  continue (ok a) f w = f a w
  continue (err e) f w = (err e, w)
  continue panic f w = (panic, w)

  infixl 5 ◌>>=◌ ◌>>◌
  abbrev pub ◌>>=◌ {ℓ κ} : {A : Type ℓ} {B : Type κ} → Exec W A → (A → Exec W B) → Exec W B
  ◌>>=◌ m f w = continue (m w).0 f (m w).1

  abbrev pub ◌>>◌ {ℓ} : {B : Type ℓ} → Exec W (Unit {0}) → Exec W B → Exec W B
  m >> k = m >>= λ _. k

  -- the result as a value, for code that goes on after an error; a panic goes through
  abbrev pub attempt {ℓ} : {A : Type ℓ} → Exec W A → Exec W (Result A)
  attempt m w = (ok (m w).0, (m w).1)

-- Inversion of a successful sequence: its first part succeeded too.
pub bind-ok {ℓ κ} :
    {W : Type 0} {A : Type ℓ} {B : Type κ} (m : Exec W A) (f : A → Exec W B) (w : W) {b : B}
    {w' : W}
    → (m >>= f) w ≡ (ok b, w')
    → (a : A) × (v : W) × (m w ≡ (ok a, v)) × (f a v ≡ (ok b, w'))
bind-ok {W} {A} {B} m f w {b} {w'} h = split (m w).0 (m w).1 refl
  where
    split :
        (r : Result A) (v : W)
        → m w ≡ (r, v)
        → (a : A) × (v : W) × (m w ≡ (ok a, v)) × (f a v ≡ (ok b, w'))
    split (ok a) v e = (a, v, e, sym (ap (λ (p : Result A × W). continue p.0 f p.1) e) ∙ h)
    split (err x) v e =
        cc (
          ap (λ (p : Result B × W). p.0)
            (sym (ap (λ (p : Result A × W). continue p.0 f p.1) e) ∙ h))
    split panic v e =
        cc (
          ap (λ (p : Result B × W). p.0)
            (sym (ap (λ (p : Result A × W). continue p.0 f p.1) e) ∙ h))

pub ok-injective {ℓ} :
    {W : Type 0} {A : Type ℓ} {a b : A} {v w : W}
    → ◌≡◌ {A = Result A × W} (ok a, v) (ok b, w)
    → a ≡ b
ok-injective {W} {A} e = cc (ap (λ (p : Result A × W). p.0) e)

-- Whenever `m` returns a value, the value satisfies `P`.
pub record Yields {ℓ κ} {W : Type 0} {A : Type ℓ} (P : A → Type κ) (m : Exec W A)
    : Type (ℓ ⊔ κ) where
  pub at : (w w' : W) (a : A) → m w ≡ (ok a, w') → P a

pub Yields-pure {ℓ κ} :
    {W : Type 0} {A : Type ℓ} {P : A → Type κ} (a : A) → P a → Yields P (pure {W = W} a)
Yields-pure {P = P} a p = record { at = λ w w' b e. subst P (ok-injective e) p }

pub Yields-bind {ℓ κ ℓ' κ'} :
    {W : Type 0} {A : Type ℓ} {B : Type ℓ'} {Q : A → Type κ} {P : B → Type κ'} (m : Exec W A)
    (f : A → Exec W B)
    → Yields Q m
    → ((a : A) → Q a → Yields P (f a))
    → Yields P (m >>= f)
Yields-bind m f q k = record {
  at = λ w w' b e. let (a, v, e', e'') = bind-ok m f w e in (k a (q.at w v a e')).at v w' b e'';
}

pub Yields-and {ℓ κ κ'} :
    {W : Type 0} {A : Type ℓ} {P : A → Type κ} {Q : A → Type κ'} {m : Exec W A}
    → Yields P m
    → Yields Q m
    → Yields (λ a. P a × Q a) m
Yields-and p q = record { at = λ w w' a e. (p.at w w' a e, q.at w w' a e) }

-- a step of which only the rest matters
pub Yields-then {ℓ ℓ' κ'} :
    {W : Type 0} {A : Type ℓ} {B : Type ℓ'} {P : B → Type κ'} (m : Exec W A) (f : A → Exec W B)
    → ((a : A) → Yields P (f a))
    → Yields P (m >>= f)
Yields-then m f k = record {
  at = λ w w' b e. let (a, v, e', e'') = bind-ok m f w e in (k a).at v w' b e'';
}

-- `if err != nil { return fmt.Errorf(s + ": %w", err) }`
unfoldable pub wrap_result {ℓ} : {A : Type ℓ} → Str → Result A → Result A
wrap_result s (ok a) = ok a
wrap_result s (err e) = err (wrap s e)
wrap_result s panic = panic

pub panic-ne-ok {ℓ} :
    {W : Type 0} {A : Type ℓ} {b : A} {v w : W} → ◌≡◌ {A = Result A × W} (panic, v) (ok b, w) → ⊥
panic-ne-ok {W} {A} e = cc (ap (λ (p : Result A × W). p.0) e)

pub err-ne-ok {ℓ} :
    {W : Type 0} {A : Type ℓ} {b : A} {x : Error} {v w : W}
    → ◌≡◌ {A = Result A × W} (err x, v) (ok b, w)
    → ⊥
err-ne-ok {W} {A} e = cc (ap (λ (p : Result A × W). p.0) e)

pub Yields-raise {ℓ κ} :
    {W : Type 0} {A : Type ℓ} {P : A → Type κ} (x : Error) → Yields P (raise {W = W} x)
Yields-raise x = record { at = λ w w' b e. absurd (err-ne-ok e) }

pub Yields-panic {ℓ κ} : {W : Type 0} {A : Type ℓ} {P : A → Type κ} → Yields P (lift {W = W} panic)
Yields-panic = record { at = λ w w' b e. absurd (panic-ne-ok e) }

-- a call whose error is wrapped
unfoldable pub wrapped {ℓ} : {W : Type 0} {A : Type ℓ} → Str → Exec W A → Exec W A
wrapped s m w = (wrap_result s (m w).0, (m w).1)

pub wrapped-ok {ℓ} :
    {W : Type 0} {A : Type ℓ} (s : Str) (m : Exec W A) {w : W} {a : A} {w' : W}
    → wrapped s m w ≡ (ok a, w')
    → m w ≡ (ok a, w')
unfolding wrapped
wrapped-ok {W} {A} s m {w} {a} {w'} h = λ i. (unwrapped (m w).0 (λ j. (h j).0) i, (h i).1)
  where
    unwrapped : (r : Result A) → wrap_result s r ≡ ok a → r ≡ ok a
    unwrapped (ok b) e = unfold wrap_result in e
    unwrapped (err x) e = unfold wrap_result in cc e
    unwrapped panic e = unfold wrap_result in cc e

-- Some call of `m` gave `a`.
abbrev pub Gave {ℓ} : {W : Type 0} {A : Type ℓ} → Exec W A → A → Type ℓ
Gave {W = W} m a = (w : W) × (w' : W) × (m w ≡ (ok a, w'))

pub Yields-Gave {ℓ} : {W : Type 0} {A : Type ℓ} (m : Exec W A) → Yields (Gave m) m
Yields-Gave m = record { at = λ w w' a e. (w, w', e) }

-- a call whose result is taken as a value
pub Yields-attempt {ℓ κ κ'} :
    {W : Type 0} {A : Type ℓ} {B : Type κ} {P : B → Type κ'} (m : Exec W A)
    (f : Result A → Exec W B)
    → ((r : Result A) (w w' : W) → m w ≡ (r, w') → Yields P (f r))
    → Yields P (attempt m >>= f)
Yields-attempt m f k = record { at = λ w w' b e. (k (m w).0 w (m w).1 refl).at (m w).1 w' b e }
