-- ===== src/Cli/Loader/Lines.antt =====
-- What `splitLines` gives back of a text.
use nats_operator_experiment.Common.{
  ℕ, Str, newline, Bool, true, false, List, [], ◌∷◌, ◌++◌, ◌==◌, ◌≡◌, ◌⊎◌, inl, inr, refl, sym, ap,
  arith, All, if◌then◌else◌,
}
use nats_operator_experiment.Cli.Loader.{add_byte, split_lines}

-- Each line with a newline behind it.
unfoldable pub lines_text : List Str → Str
lines_text [] = []
lines_text (line ∷ lines) = line ++ newline ∷ lines_text lines

-- The lines make up the text, up to a newline at its end.
abbrev pub MakeUp : List Str → Str → Type 0
MakeUp lines text = (lines_text lines ≡ text) ⊎ (lines_text lines ≡ text ++ newline ∷ [])

-- no byte of the line is a newline
abbrev pub IsLine : Str → Type 0
IsLine line = All (λ b. (b == newline) ≡ false) line

add_byte-MakeUp :
    (b : ℕ) (lines : List Str) (rest : Str)
    → MakeUp lines rest
    → MakeUp (add_byte b lines) (b ∷ rest)
unfolding add_byte lines_text
add_byte-MakeUp b [] rest (inl e) = inr (ap (λ r. b ∷ r ++ newline ∷ []) e)
add_byte-MakeUp b [] [] (inr e) = cc e
add_byte-MakeUp b [] (x ∷ rest) (inr e) = cc e
add_byte-MakeUp b (line ∷ lines) rest (inl e) = inl (ap (λ r. b ∷ r) e)
add_byte-MakeUp b (line ∷ lines) rest (inr e) = inr (ap (λ r. b ∷ r) e)

newline-MakeUp :
    (b : ℕ) (lines : List Str) (rest : Str)
    → b ≡ newline
    → MakeUp lines rest
    → MakeUp ([] ∷ lines) (b ∷ rest)
unfolding lines_text
newline-MakeUp b lines rest n (inl e) = inl (λ i. sym n i ∷ e i)
newline-MakeUp b lines rest n (inr e) = inr (λ i. sym n i ∷ e i)

add_byte-IsLine :
    (b : ℕ) (lines : List Str)
    → (b == newline) ≡ false
    → All IsLine lines
    → All IsLine (add_byte b lines)
unfolding add_byte
add_byte-IsLine b [] n h = ((n, tt), tt)
add_byte-IsLine b (line ∷ lines) n (l, h) = ((n, l), h)

split_step :
    (b : ℕ) (rest : Str) (lines : List Str) (ends : Bool)
    → (b == newline) ≡ ends
    → MakeUp lines rest × All IsLine lines
    → MakeUp (if ends then [] ∷ lines else add_byte b lines) (b ∷ rest)
      × All IsLine (if ends then [] ∷ lines else add_byte b lines)
split_step b rest lines true n (m, h) = (newline-MakeUp b lines rest (ground arith) m, (tt, h))
split_step b rest lines false n (m, h) =
    (add_byte-MakeUp b lines rest m, add_byte-IsLine b lines n h)

-- The lines of a text hold no newline, and with a newline behind each they are the text, or the text
-- with one more newline at its end.
pub split_lines-MakeUp :
    (text : Str) → MakeUp (split_lines text) text × All IsLine (split_lines text)
unfolding split_lines lines_text
split_lines-MakeUp [] = (inl refl, tt)
split_lines-MakeUp (b ∷ rest) =
    split_step b rest (split_lines rest) (b == newline) refl (split_lines-MakeUp rest)
