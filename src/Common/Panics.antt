-- ===== src/Common/Panics.antt =====
-- Calls that never end in a runtime panic.
use nats_operator_experiment.Common.{Str, Bool, true, false, ◌≡◌, ◌≢◌, refl, if◌then◌else◌}
use nats_operator_experiment.Common.Exec.{
  Error, Result, ok, err, panic, Exec, pure, raise, lift, continue, ◌>>=◌, attempt, wrapped,
  wrap_result,
}

pub record NoPanic {ℓ} {W : Type 0} {A : Type ℓ} (m : Exec W A) : Type ℓ where
  pub at : (w : W) → (m w).0 ≢ panic

pub ok-ne-panic {ℓ} : {A : Type ℓ} {a : A} → ◌≢◌ {A = Result A} (ok a) panic
ok-ne-panic h = cc

pub err-ne-panic {ℓ} : {A : Type ℓ} {e : Error} → ◌≢◌ {A = Result A} (err e) panic
err-ne-panic h = cc

wrap_result-ne-panic {ℓ} :
    {A : Type ℓ} (s : Str) (r : Result A) → r ≢ panic → wrap_result s r ≢ panic
unfolding wrap_result
wrap_result-ne-panic s (ok a) h = ok-ne-panic
wrap_result-ne-panic s (err e) h = err-ne-panic
wrap_result-ne-panic s panic h = absurd (h refl)

module _ {ℓ} {W : Type 0} {A : Type ℓ} where
  pub NoPanic-pure : (a : A) → NoPanic (pure {W = W} a)
  NoPanic-pure a = record { at = λ w. ok-ne-panic }

  pub NoPanic-raise : (e : Error) → NoPanic (raise {W = W} {A = A} e)
  NoPanic-raise e = record { at = λ w. err-ne-panic }

  pub NoPanic-lift : (r : Result A) → r ≢ panic → NoPanic (lift {W = W} r)
  NoPanic-lift r h = record { at = λ w. h }

  pub NoPanic-if :
      (b : Bool) (m n : Exec W A) → NoPanic m → NoPanic n → NoPanic (if b then m else n)
  NoPanic-if true m n h k = h
  NoPanic-if false m n h k = k

  pub NoPanic-wrapped : (s : Str) (m : Exec W A) → NoPanic m → NoPanic (wrapped s m)
  unfolding wrapped
  NoPanic-wrapped s m h = record { at = λ w. wrap_result-ne-panic s (m w).0 (h.at w) }

module _ {ℓ κ} {W : Type 0} {A : Type ℓ} {B : Type κ} where
  continue-ne-panic :
      (r : Result A) (f : A → Exec W B) (w : W)
      → r ≢ panic
      → ((a : A) → NoPanic (f a))
      → (continue r f w).0 ≢ panic
  continue-ne-panic (ok a) f w h k = (k a).at w
  continue-ne-panic (err e) f w h k = err-ne-panic
  continue-ne-panic panic f w h k = absurd (h refl)

  pub NoPanic-bind :
      (m : Exec W A) (f : A → Exec W B) → NoPanic m → ((a : A) → NoPanic (f a)) → NoPanic (m >>= f)
  NoPanic-bind m f h k = record { at = λ w. continue-ne-panic (m w).0 f (m w).1 (h.at w) k }

  -- the rest knows what the call gave
  pub NoPanic-attempt :
      (m : Exec W A) (f : Result A → Exec W B)
      → NoPanic m
      → ((r : Result A) (w w' : W) → m w ≡ (r, w') → r ≢ panic → NoPanic (f r))
      → NoPanic (attempt m >>= f)
  NoPanic-attempt m f h k = record { at = λ w. (k (m w).0 w (m w).1 refl (h.at w)).at (m w).1 }
