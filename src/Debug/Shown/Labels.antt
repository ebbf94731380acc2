-- ===== src/Debug/Shown/Labels.antt =====
-- The fixed texts and the numbers that the generator writes, and the braces in them.
use nats_operator_experiment.Common.{
  ℕ, suc, ◌+◌, ◌≤◌, Str, codes, newline, Option, none, some, [], ◌∷◌, ◌++◌, ◌≡◌, ◌⊎◌, inl, inr,
  refl, arith, All,
}
use nats_operator_experiment.Common.Int.{ℤ, pos, negsuc}
use nats_operator_experiment.Common.Decimal.{format_nat, format_int, format_nat-IsDigit, IsDigit}
use nats_operator_experiment.Config.Document.{int_field}
use nats_operator_experiment.Debug.Shown.{count}
use nats_operator_experiment.Debug.Shown.Lines.{IsPlain, IsPlain-append, IsOpener, IsCloser, IsNeat}

pub plain : (s : Str) → count b'{' s ≡ 0 → count b'}' s ≡ 0 → count newline s ≡ 0 → IsPlain s
plain s a b c = record { no_opening = a; no_closing = b; no_newline = c }

digits-none : (c : ℕ) (s : Str) → (b'9' + 1 ≤ c) ⊎ (c + 1 ≤ b'0') → All IsDigit s → count c s ≡ 0
unfolding count
digits-none c [] h a = refl
digits-none c (d ∷ s) h (e, a) = ground (arith, digits-none c s)

digits-IsPlain : (s : Str) → All IsDigit s → IsPlain s
digits-IsPlain s a =
    plain s (digits-none b'{' s (inl (omega arith)) a) (digits-none b'}' s (inl (omega arith)) a)
      (digits-none newline s (inr (omega arith)) a)

pub format_int-IsPlain : (n : ℤ) → IsPlain (format_int n)
unfolding format_int
format_int-IsPlain (pos n) = digits-IsPlain (format_nat n) (format_nat-IsDigit n)
format_int-IsPlain (negsuc n) =
    IsPlain-append (codes "-") (format_nat (suc n))
      (unfold count in plain (codes "-") refl refl refl)
      (digits-IsPlain (format_nat (suc n)) (format_nat-IsDigit (suc n)))

pub comma-IsPlain : IsPlain (codes ", ")
unfolding count
comma-IsPlain = plain (codes ", ") refl refl refl

pub bracket-IsPlain : IsPlain (codes "]")
unfolding count
bracket-IsPlain = plain (codes "]") refl refl refl

pub allow-IsPlain : IsPlain (codes "allow: [")
unfolding count
allow-IsPlain = plain (codes "allow: [") refl refl refl

pub deny-IsPlain : IsPlain (codes "deny: [")
unfolding count
deny-IsPlain = plain (codes "deny: [") refl refl refl

pub max-IsPlain : IsPlain (codes "max: ")
unfolding count
max-IsPlain = plain (codes "max: ") refl refl refl

pub ttl-IsPlain : IsPlain (codes "ttl: ")
unfolding count
ttl-IsPlain = plain (codes "ttl: ") refl refl refl

pub nkey-IsPlain : IsPlain (codes "nkey: ")
unfolding count
nkey-IsPlain = plain (codes "nkey: ") refl refl refl

pub responses-IsPlain : IsPlain (codes "allow_responses: true")
unfolding count
responses-IsPlain = plain (codes "allow_responses: true") refl refl refl

pub publish-IsOpener : IsOpener (codes "publish" ++ codes " {")
unfolding count
publish-IsOpener = record { opens = refl; no_newline = refl }

pub subscribe-IsOpener : IsOpener (codes "subscribe" ++ codes " {")
unfolding count
subscribe-IsOpener = record { opens = refl; no_newline = refl }

pub responses-IsOpener : IsOpener (codes "allow_responses {")
unfolding count
responses-IsOpener = record { opens = refl; no_newline = refl }

pub permissions-IsOpener : IsOpener (codes "permissions {")
unfolding count
permissions-IsOpener = record { opens = refl; no_newline = refl }

pub brace-IsOpener : IsOpener (codes "{")
unfolding count
brace-IsOpener = record { opens = refl; no_newline = refl }

pub brace-IsCloser : IsCloser (codes "}")
unfolding count
brace-IsCloser = record { closes = refl; no_newline = refl }

pub int_field-IsNeat : (label : Str) (o : Option ℤ) → IsPlain label → IsNeat (int_field label o)
unfolding int_field
int_field-IsNeat label none p = tt
int_field-IsNeat label (some n) p =
    (IsPlain-append label (format_int n) p (format_int-IsPlain n), tt)
