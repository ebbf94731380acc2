-- ===== src/Debug/Shown/Block.antt =====
-- The lines that `showConfiguredPermissions` shows are the block of the user.
use nats_operator_experiment.Common.{
  ℕ, suc, ◌+◌, ◌-◌, ◌<◌, Str, codes, newline, true, false, some, List, [], ◌∷◌, ◌++◌, ◌≡◌, refl,
  sym, ap, ◌∙◌, arith, leb, ◌==◌, append_assoc, All,
}
use nats_operator_experiment.Cli.Loader.{add_byte}
use nats_operator_experiment.Debug.Shown.{
  contains, count, split_newlines, find_line, walk_back, walk_forward, block_at, configured_block,
}

-- every brace that these lines open they close again, at the end of a line at the latest
pub data Balanced : List Str → Type 0 where
  done : Balanced []
  level :
      (l : Str) (rest : List Str)
      → count b'{' l ≡ count b'}' l
      → Balanced rest
      → Balanced (l ∷ rest)
  nested :
      (o c : Str) (body rest : List Str)
      → count b'{' o ≡ suc (count b'}' o)
      → count b'}' c ≡ suc (count b'{' c)
      → Balanced body
      → Balanced rest
      → Balanced (o ∷ (body ++ c ∷ rest))

leb-false : (a b : ℕ) → b < a → leb a b ≡ false
leb-false a b h = ground arith

add_sub : (a b : ℕ) → a + b - b ≡ a
add_sub a b = omega arith

walk_forward-on :
    (depth d : ℕ) (l : Str) (rest : List Str)
    → depth + count b'{' l ≡ suc d + count b'}' l
    → walk_forward depth (l ∷ rest) ≡ l ∷ walk_forward (suc d) rest
unfolding walk_forward
walk_forward-on depth d l rest h =
    rw
      (
        h,
        leb-false (suc d + count b'}' l) (count b'}' l) (omega arith),
        add_sub (suc d) (count b'}' l),
      )
      refl

walk_forward-stop :
    (depth : ℕ) (l : Str) (rest : List Str)
    → depth + count b'{' l ≡ count b'}' l
    → walk_forward depth (l ∷ rest) ≡ l ∷ []
unfolding walk_forward
walk_forward-stop depth l rest h = rw h (ground arith)

walk_forward-Balanced :
    {ls : List Str}
    → Balanced ls
    → (d : ℕ) (rest : List Str)
    → walk_forward (suc d) (ls ++ rest) ≡ ls ++ walk_forward (suc d) rest
walk_forward-Balanced done d rest = refl
walk_forward-Balanced (level l ls e b) d rest =
    walk_forward-on (suc d) d l (ls ++ rest) (omega arith)
    ∙ ap (λ t. l ∷ t) (walk_forward-Balanced b d rest)
walk_forward-Balanced (nested o c body ls e f b b') d rest =
    walk_forward-on (suc d) (suc d) o ((body ++ c ∷ ls) ++ rest) (omega arith)
    ∙ ap (λ t. o ∷ t)
        (ap (walk_forward (suc (suc d))) (append_assoc body (c ∷ ls) rest)
          ∙ walk_forward-Balanced b (suc d) (c ∷ ls ++ rest)
          ∙ ap (λ t. body ++ t)
              (walk_forward-on (suc (suc d)) d c (ls ++ rest) (omega arith)
                ∙ ap (λ t. c ∷ t) (walk_forward-Balanced b' d rest))
          ∙ sym (append_assoc body (c ∷ ls) (walk_forward (suc d) rest)))

-- the lines, each with a newline behind it
abbrev pub unlines : List Str → Str
unlines [] = []
unlines (l ∷ ls) = l ++ newline ∷ unlines ls

abbrev pub IsOneLine : Str → Type 0
IsOneLine l = count newline l ≡ 0

not_newline : (c : ℕ) (l : Str) → IsOneLine (c ∷ l) → (c == newline) ≡ false
unfolding count
not_newline c l h = ground arith

IsOneLine-tail : (c : ℕ) (l : Str) → IsOneLine (c ∷ l) → IsOneLine l
unfolding count
IsOneLine-tail c l h = ground arith

split_newlines-line :
    (l s : Str) → IsOneLine l → split_newlines (l ++ newline ∷ s) ≡ l ∷ split_newlines s
unfolding split_newlines add_byte
split_newlines-line [] s h = refl
split_newlines-line (c ∷ l) s h =
    rw (not_newline c l h, split_newlines-line l s (IsOneLine-tail c l h)) refl

split_newlines-unlines :
    (ls : List Str) → All IsOneLine ls → split_newlines (unlines ls) ≡ ls ++ [] ∷ []
split_newlines-unlines [] h = unfold split_newlines in refl
split_newlines-unlines (l ∷ ls) (h, hs) =
    split_newlines-line l (unlines ls) h ∙ ap (λ t. l ∷ t) (split_newlines-unlines ls hs)

-- the lines, the last first, in front of what was passed before
abbrev back_over : List Str → List Str → List Str
back_over [] before = before
back_over (l ∷ ls) before = back_over ls (l ∷ before)

find_line-first :
    (s : Str) (ls before : List Str) (l : Str) (rest : List Str)
    → All (λ k. contains k s ≡ false) ls
    → contains l s ≡ true
    → find_line s before (ls ++ l ∷ rest)
      ≡ some (record { before = back_over ls before; line = l; after = rest })
unfolding find_line
find_line-first s [] before l rest h e = rw e refl
find_line-first s (k ∷ ls) before l rest (h, hs) e =
    rw h (find_line-first s ls (k ∷ before) l rest hs e)

back_over-last :
    (ls : List Str) (l : Str) (before : List Str)
    → back_over (ls ++ l ∷ []) before ≡ l ∷ back_over ls before
back_over-last [] l before = refl
back_over-last (k ∷ ls) l before = back_over-last ls l (k ∷ before)

walk_back-opener :
    (before : List Str) (o l : Str) (after : List Str)
    → contains l (codes "{") ≡ false
    → contains o (codes "{") ≡ true
    → walk_back (o ∷ before) l after ≡ o ∷ l ∷ after
unfolding walk_back
walk_back-opener [] o l after h k = rw h refl
walk_back-opener (b ∷ before) o l after h k = rw (h, k) refl

-- a line that opens the block of a user, the line with its key, and the line that closes the block
pub record IsBlock (nkey opener key_line : Str) (body : List Str) (closer : Str) : Type 0 where
  pub opens : count b'{' opener ≡ suc (count b'}' opener)
  pub is_opener : contains opener (codes "{") ≡ true
  pub no_opener : contains key_line (codes "{") ≡ false
  pub has_key : contains key_line (codes "nkey: " ++ nkey) ≡ true
  pub is_Balanced : Balanced (key_line ∷ body)
  pub closes : count b'}' closer ≡ suc (count b'{' closer)

shown-IsBlock :
    (nkey opener key_line : Str) (body : List Str) (closer : Str) (before after : List Str)
    → IsBlock nkey opener key_line body closer
    → walk_forward 0 (walk_back (opener ∷ before) key_line (body ++ closer ∷ after))
      ≡ opener ∷ key_line ∷ (body ++ closer ∷ [])
shown-IsBlock nkey opener key_line body closer before after b =
    ap (walk_forward 0)
      (walk_back-opener before opener key_line (body ++ closer ∷ after) b.no_opener b.is_opener)
    ∙ walk_forward-on 0 0 opener (key_line ∷ (body ++ closer ∷ after)) (omega (arith, b.opens))
    ∙ ap (λ t. opener ∷ t)
        (walk_forward-Balanced b.is_Balanced 0 (closer ∷ after)
          ∙ ap (λ t. key_line ∷ (body ++ t))
              (walk_forward-stop 1 closer after (omega (arith, b.closes))))

lines_assoc :
    (before : List Str) (opener key_line : Str) (body : List Str) (closer : Str) (after : List Str)
    → (before ++ opener ∷ key_line ∷ (body ++ closer ∷ after)) ++ [] ∷ []
      ≡ (before ++ opener ∷ []) ++ key_line ∷ (body ++ closer ∷ (after ++ [] ∷ []))
lines_assoc before opener key_line body closer after = simp append_assoc

-- In a file of lines, in which the first line that names the key stands right behind the line that
-- opens its user's block, and the lines up to the one that closes the block close every brace that
-- they open: what is shown is that block, from the opening line to the closing one, and no more.
pub configured_block-whole :
    (nkey : Str) (before : List Str) (opener key_line : Str) (body : List Str) (closer : Str)
    (after : List Str)
    → All IsOneLine (before ++ opener ∷ key_line ∷ (body ++ closer ∷ after))
    → All (λ l. contains l (codes "nkey: " ++ nkey) ≡ false) (before ++ opener ∷ [])
    → IsBlock nkey opener key_line body closer
    → configured_block (unlines (before ++ opener ∷ key_line ∷ (body ++ closer ∷ after))) nkey
      ≡ some (opener ∷ key_line ∷ (body ++ closer ∷ []))
configured_block-whole nkey before opener key_line body closer after one_line unnamed b =
    unfold configured_block in
    ap (λ ls. block_at (find_line (codes "nkey: " ++ nkey) [] ls))
      (split_newlines-unlines _ one_line ∙ lines_assoc before opener key_line body closer after)
    ∙ ap block_at (
        find_line-first (codes "nkey: " ++ nkey) (before ++ opener ∷ []) [] key_line
          (body ++ closer ∷ (after ++ [] ∷ [])) unnamed b.has_key)
    ∙ ap
        (λ back.
          some (walk_forward 0 (walk_back back key_line (body ++ closer ∷ (after ++ [] ∷ [])))))
        (back_over-last before opener [])
    ∙ ap some
        (shown-IsBlock nkey opener key_line body closer (back_over before []) (after ++ [] ∷ []) b)
