-- ===== src/Common/Decimal.antt =====
-- `%d` of package fmt, and a reader of what it prints.
use nats_operator_experiment.Common.{
  ℕ, zero, suc, ◌+◌, ◌-◌, ◌*◌, ◌/◌, ◌%◌, ◌≤◌, ◌<◌, Str, [], ◌∷◌, ◌++◌, ◌≡◌, refl, arith, Bool, ◌&&◌,
  Bool-cases, inl, inr, append_assoc, ltb, leb, if◌then◌else◌, All, All-append, codes,
}
use nats_operator_experiment.Common.Int.{ℤ, pos, negsuc}

-- the digits of `n`, on fuel above `n`
digits : ℕ → ℕ → Str
digits zero n = []
digits (suc f) n =
    let more = digits f (n / 10) ++ (b'0' + n % 10) ∷ [] in
    if ltb n 10 then (b'0' + n) ∷ [] else more

unfoldable pub format_nat : ℕ → Str
unfolding digits
format_nat n = digits (suc n) n

unfoldable pub format_int : ℤ → Str
unfolding format_nat
format_int (pos n) = format_nat n
format_int (negsuc n) = b'-' ∷ format_nat (suc n)

abbrev pub is_digit : ℕ → Bool
is_digit c = leb b'0' c && leb c b'9'

-- the number that the leading digits spell, and the rest of the text
unfoldable pub read_nat : ℕ → Str → ℕ × Str
read_nat acc [] = (acc, [])
read_nat acc (c ∷ s) =
    let more = read_nat (acc * 10 + (c - b'0')) s in if is_digit c then more else (acc, c ∷ s)

read_nat-digits : (f n : ℕ) (rest : Str) → n < f → read_nat 0 (digits f n ++ rest) ≡ read_nat n rest
unfolding digits read_nat
read_nat-digits zero n rest h = absurd (omega arith)
read_nat-digits (suc f) n rest h = elim (Bool-cases (ltb n 10)) [
  | inl e ↦ ground arith
  | inr e ↦
      rw (e, append_assoc) (ground (arith, read_nat-digits f (n / 10) ((b'0' + n % 10) ∷ rest)))
]

-- Reading a printed number gives the number back, whatever follows that is no digit.
pub read_nat-format_nat : (n : ℕ) (rest : Str) → read_nat 0 (format_nat n ++ rest) ≡ read_nat n rest
unfolding format_nat
read_nat-format_nat n rest = read_nat-digits (suc n) n rest (omega arith)

abbrev pub IsDigit : ℕ → Type 0
IsDigit c = (b'0' ≤ c) × (c ≤ b'9')

digits-IsDigit : (f n : ℕ) → All IsDigit (digits f n)
unfolding digits
digits-IsDigit zero n = tt
digits-IsDigit (suc f) n = elim (Bool-cases (ltb n 10)) [
  | inl e ↦ rw e (ground arith, tt)
  | inr e ↦
      rw e (All-append IsDigit _ _ (digits-IsDigit f (n / 10)) ((omega arith, omega arith), tt))
]

pub format_nat-IsDigit : (n : ℕ) → All IsDigit (format_nat n)
unfolding format_nat
format_nat-IsDigit n = digits-IsDigit (suc n) n

large : format_nat 1099511627776 ≡ codes "1099511627776"
unfolding format_nat
large = refl
