-- ===== src/Config/Quote.antt =====
-- `%q` of package fmt (strconv.Quote), as internal/natsconfig/generate.go uses it.
-- Which code points from 0x80 on are printable is a table of Go: the parameter `wide`.
-- Strings hold valid code points, so the case of an invalid rune does not arise.
use nats_operator_experiment.Common.{
  ℕ, ◌+◌, ◌-◌, ◌/◌, ◌%◌, Str, Bool, ◌&&◌, ◌||◌, Option, none, some, [], ◌∷◌, ◌++◌, leb, ltb, ◌==◌,
  if◌then◌else◌,
}

abbrev quote_mark : ℕ
quote_mark = 34

abbrev backslash : ℕ
backslash = 92

hex_digit : ℕ → ℕ
hex_digit d = if ltb d 10 then b'0' + d else b'a' - 10 + d

hex2 : ℕ → Str
unfolding hex_digit
hex2 c = hex_digit (c / 16) ∷ hex_digit (c % 16) ∷ []

hex4 : ℕ → Str
unfolding hex2
hex4 c = hex2 (c / 256) ++ hex2 (c % 256)

hex8 : ℕ → Str
unfolding hex4
hex8 c = hex4 (c / 65536) ++ hex4 (c % 65536)

-- the letters of the escapes \a \b \t \n \v \f \r, for 7 to 13
control_letter : ℕ → Option ℕ
control_letter c =
    if c == 7
    then some b'a'
    else if c == 8
    then some b'b'
    else if c == 9
    then some b't'
    else if c == 10
    then some b'n'
    else if c == 11
    then some b'v'
    else if c == 12
    then some b'f'
    else if c == 13
    then some b'r'
    else none

module _ (wide : ℕ → Bool) where
  is_print : ℕ → Bool
  is_print c = if ltb c 128 then leb 32 c && ltb c 127 else wide c

  escape_unprintable : ℕ → Str
  unfolding control_letter hex8
  escape_unprintable c = elim (control_letter c) [
    | some l ↦ backslash ∷ l ∷ []
    | none ↦
        if ltb c 32 || (c == 127)
        then backslash ∷ b'x' ∷ hex2 c
        else if ltb c 65536
        then backslash ∷ b'u' ∷ hex4 c
        else backslash ∷ b'U' ∷ hex8 c
  ]

  escape_rune : ℕ → Str
  unfolding is_print escape_unprintable
  escape_rune c =
      if (c == quote_mark) || (c == backslash)
      then backslash ∷ c ∷ []
      else if is_print c
      then c ∷ []
      else escape_unprintable c

  escape_all : Str → Str
  escape_all [] = []
  escape_all (c ∷ s) = escape_rune c ++ escape_all s

  unfoldable pub quote : Str → Str
  unfolding escape_all escape_rune
  quote s = quote_mark ∷ escape_all s ++ quote_mark ∷ []
