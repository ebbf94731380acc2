-- ===== src/Debug/Shown/Lines.antt =====
-- The document that the generator writes, line by line, and the braces on its lines.
use nats_operator_experiment.Common.{
  ℕ, zero, suc, ◌+◌, Str, newline, true, false, List, [], ◌∷◌, ◌++◌, ◌≡◌, refl, sym, ap, ap₂, ◌∙◌,
  arith, ◌==◌, has_prefix, append_assoc, append-nil, All, All-append,
}
use nats_operator_experiment.Config.Writer.{repeat_indent}
use nats_operator_experiment.Config.Document.{Doc, one_line, render, join}
use nats_operator_experiment.Debug.Shown.{contains, count}
use nats_operator_experiment.Debug.Shown.Block.{Balanced, IsOneLine, unlines}

count-append : (c : ℕ) (s t : Str) → count c (s ++ t) ≡ count c s + count c t
unfolding count
count-append c [] t = omega arith
count-append c (d ∷ s) t = ground (arith, count-append c s t)

-- no brace and no newline
pub record IsPlain (s : Str) : Type 0 where
  pub no_opening : count b'{' s ≡ 0
  pub no_closing : count b'}' s ≡ 0
  pub no_newline : count newline s ≡ 0

pub IsPlain-append : (s t : Str) → IsPlain s → IsPlain t → IsPlain (s ++ t)
IsPlain-append s t p q = record {
  no_opening = omega (arith, count-append b'{' s t, p.no_opening, q.no_opening);
  no_closing = omega (arith, count-append b'}' s t, p.no_closing, q.no_closing);
  no_newline = omega (arith, count-append newline s t, p.no_newline, q.no_newline);
}

-- a line that opens a block, and one that closes it
pub record IsOpener (s : Str) : Type 0 where
  pub opens : count b'{' s ≡ suc (count b'}' s)
  pub no_newline : count newline s ≡ 0

pub record IsCloser (s : Str) : Type 0 where
  pub closes : count b'}' s ≡ suc (count b'{' s)
  pub no_newline : count newline s ≡ 0

-- every brace of the document opens or closes one of its blocks
abbrev pub IsNeat : Doc → Type 0
IsNeat Doc.end = Unit
IsNeat (Doc.line s rest) = IsPlain s × IsNeat rest
IsNeat (Doc.block o body c rest) = IsOpener o × IsCloser c × IsNeat body × IsNeat rest

pub IsNeat-join : (d e : Doc) → IsNeat d → IsNeat e → IsNeat (join d e)
unfolding join
IsNeat-join Doc.end e n m = m
IsNeat-join (Doc.line s rest) e (p, n) m = (p, IsNeat-join rest e n m)
IsNeat-join (Doc.block o body c rest) e (p, q, b, n) m = (p, q, b, IsNeat-join rest e n m)

abbrev pub indented : ℕ → Str → Str
indented n s = repeat_indent n ++ s

abbrev pub document_lines : ℕ → Doc → List Str
document_lines n Doc.end = []
document_lines n (Doc.line s rest) = indented n s ∷ document_lines n rest
document_lines n (Doc.block o body c rest) =
    indented n o ∷ (document_lines (suc n) body ++ indented n c ∷ document_lines n rest)

pub unlines-append : (xs ys : List Str) → unlines (xs ++ ys) ≡ unlines xs ++ unlines ys
unlines-append [] ys = refl
unlines-append (x ∷ xs) ys =
    ap (λ t. x ++ newline ∷ t) (unlines-append xs ys)
    ∙ sym (append_assoc x (newline ∷ unlines xs) (unlines ys))

one_line-unlines : (n : ℕ) (s t : Str) → one_line n s ++ t ≡ indented n s ++ newline ∷ t
unfolding one_line
one_line-unlines n s t = simp append_assoc

pub render-unlines : (n : ℕ) (d : Doc) → render n d ≡ unlines (document_lines n d)
unfolding render
render-unlines n Doc.end = refl
render-unlines n (Doc.line s rest) =
    one_line-unlines n s (render n rest)
    ∙ ap (λ t. indented n s ++ newline ∷ t) (render-unlines n rest)
render-unlines n (Doc.block o body c rest) =
    one_line-unlines n o (render (suc n) body ++ (one_line n c ++ render n rest))
    ∙ ap (λ t. indented n o ++ newline ∷ t)
        (ap₂ (λ a b. a ++ b) (render-unlines (suc n) body)
            (one_line-unlines n c (render n rest)
              ∙ ap (λ t. indented n c ++ newline ∷ t) (render-unlines n rest))
          ∙ sym
              (unlines-append (document_lines (suc n) body) (indented n c ∷ document_lines n rest)))

count-indent : (c n : ℕ) → (32 == c) ≡ false → count c (repeat_indent n) ≡ 0
unfolding count repeat_indent
count-indent c zero h = refl
count-indent c (suc n) h = rw h (count-indent c n h)

pub count-indented : (c n : ℕ) (s : Str) → (32 == c) ≡ false → count c (indented n s) ≡ count c s
count-indented c n s h = omega (arith, count-append c (repeat_indent n) s, count-indent c n h)

pub document_lines-Balanced : (n : ℕ) (d : Doc) → IsNeat d → Balanced (document_lines n d)
document_lines-Balanced n Doc.end h = Balanced.done
document_lines-Balanced n (Doc.line s rest) (p, h) =
    Balanced.level (indented n s) (document_lines n rest)
      (omega (
        arith,
        count-indented b'{' n s refl,
        count-indented b'}' n s refl,
        p.no_opening,
        p.no_closing,
      ))
      (document_lines-Balanced n rest h)
document_lines-Balanced n (Doc.block o body c rest) (p, q, b, h) =
    Balanced.nested (indented n o) (indented n c) (document_lines (suc n) body)
      (document_lines n rest)
      (omega (arith, count-indented b'{' n o refl, count-indented b'}' n o refl, p.opens))
      (omega (arith, count-indented b'{' n c refl, count-indented b'}' n c refl, q.closes))
      (document_lines-Balanced (suc n) body b) (document_lines-Balanced n rest h)

pub document_lines-IsOneLine : (n : ℕ) (d : Doc) → IsNeat d → All IsOneLine (document_lines n d)
document_lines-IsOneLine n Doc.end h = tt
document_lines-IsOneLine n (Doc.line s rest) (p, h) =
    (count-indented newline n s refl ∙ p.no_newline, document_lines-IsOneLine n rest h)
document_lines-IsOneLine n (Doc.block o body c rest) (p, q, b, h) = (
  count-indented newline n o refl ∙ p.no_newline,
  All-append IsOneLine (document_lines (suc n) body) (indented n c ∷ document_lines n rest)
      (document_lines-IsOneLine (suc n) body b)
      (count-indented newline n c refl ∙ q.no_newline, document_lines-IsOneLine n rest h),
)

-- what `contains` finds
has_prefix_self : (s t : Str) → has_prefix (s ++ t) s ≡ true
unfolding has_prefix
has_prefix_self [] t = refl
has_prefix_self (c ∷ s) t = ground (arith, has_prefix_self s t)

contains-here : (t s : Str) → has_prefix t s ≡ true → contains t s ≡ true
unfolding contains
contains-here [] s h = h
contains-here (c ∷ t) s h = rw h refl

pub contains-end : (l s : Str) → contains (l ++ s) s ≡ true
unfolding contains
contains-end [] s =
    contains-here s s (ap (λ t. has_prefix t s) (sym (append-nil s)) ∙ has_prefix_self s [])
contains-end (c ∷ l) s = ground (arith, contains-end l s)

pub contains-count : (c : ℕ) (t : Str) → count c t ≡ 0 → contains t (c ∷ []) ≡ false
unfolding contains count has_prefix
contains-count c [] h = refl
contains-count c (d ∷ t) h = ground (arith, contains-count c t)
