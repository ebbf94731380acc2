-- ===== src/Controller/HashHeader/RoundTrip.antt =====
-- The header that is written is the header that is read.
use nats_operator_experiment.Common.{
  ℕ, suc, Str, codes, newline, Bool, true, false, Option, some, List, [], ◌∷◌, ◌++◌, ◌≡◌, ◌≢◌, ◌↔◌,
  refl, ap, ◌∙◌, arith, ◌==◌, All, str_eq_iff, has_prefix, drop_prefix, append_assoc,
}
use nats_operator_experiment.Controller.HashHeader.{
  format_hash_header, is_space, drop_start, keep_before, drop_end, trim_space, cut_line, split_rest,
  split_lines, parse_body, parse_trimmed, parse_lines, parse_hash_header, matches_hash, shows_hash,
}

-- A text with no white space, as a hexadecimal hash is.
abbrev pub IsSolid : Str → Type 0
IsSolid = All (λ c. is_space c ≡ false)

drop_end-solid :
    (p : ℕ → Bool) (c : ℕ) (h : Str) → All (λ x. p x ≡ false) (c ∷ h) → drop_end p (c ∷ h) ≡ c ∷ h
unfolding drop_end keep_before
drop_end-solid p c [] a = rw a.0
drop_end-solid p c (d ∷ h) a = rw a.0 (ap (λ (s : Str). c ∷ s) (drop_end-solid p d h a.1))

keep_before-ne :
    (b : Bool) (x : ℕ) (xs : Str) (c : ℕ) (h : Str)
    → keep_before b x (xs ++ c ∷ h) ≡ x ∷ (xs ++ c ∷ h)
unfolding keep_before
keep_before-ne true x [] c h = refl
keep_before-ne true x (y ∷ xs) c h = refl
keep_before-ne false x xs c h = refl

-- what stands before solid text stays too
drop_end-append :
    (p : ℕ → Bool) (xs : Str) (c : ℕ) (h : Str)
    → All (λ x. p x ≡ false) (c ∷ h)
    → drop_end p (xs ++ c ∷ h) ≡ xs ++ c ∷ h
unfolding drop_end
drop_end-append p [] c h a = drop_end-solid p c h a
drop_end-append p (x ∷ xs) c h a =
    ap (keep_before (p x) x) (drop_end-append p xs c h a) ∙ keep_before-ne (p x) x xs c h

cut_line-solid : (h rest : Str) → IsSolid h → cut_line (h ++ newline ∷ rest) ≡ (h, some rest)
unfolding cut_line
cut_line-solid [] rest a = refl
cut_line-solid (c ∷ h) rest a = ground (arith, cut_line-solid h rest a.1)

IsSolid-no_return : (h : Str) → IsSolid h → All (λ c. (c == 13) ≡ false) h
IsSolid-no_return [] a = tt
IsSolid-no_return (c ∷ h) a = (ground arith, IsSolid-no_return h a.1)

trim_space-solid : (c : ℕ) (h : Str) → IsSolid (c ∷ h) → trim_space (c ∷ h) ≡ c ∷ h
trim_space-solid c h a = unfold trim_space drop_start in rw a.0 (drop_end-solid is_space c h a)

module _ (c : ℕ) (hash : Str) (a : IsSolid (c ∷ hash)) where
  abbrev header : Str
  header = codes "# hash: " ++ c ∷ hash

  cut_line-header : (body : Str) → cut_line (header ++ newline ∷ body) ≡ (header, some body)
  unfolding cut_line
  cut_line-header body = rw (cut_line-solid (c ∷ hash) body a)

  split_lines-header :
      (cuts : ℕ) (body : Str)
      → split_lines (suc cuts) (header ++ newline ∷ body) ≡ header ∷ split_lines cuts body
  unfolding split_lines
  split_lines-header cuts body =
      ap (λ (r : Str × Option Str). split_rest r.0 r.1 (split_lines cuts)) (cut_line-header body)

  trim_header : trim_space header ≡ header
  unfolding trim_space drop_start
  trim_header = drop_end-append is_space (codes "# hash: ") c hash a

  trim_body : trim_space (codes " hash: " ++ c ∷ hash) ≡ codes "hash: " ++ c ∷ hash
  unfolding trim_space drop_start
  trim_body = drop_end-append is_space (codes "hash: ") c hash a

  trim_hash : trim_space (32 ∷ c ∷ hash) ≡ c ∷ hash
  unfolding trim_space drop_start
  trim_hash = rw a.0 (drop_end-solid is_space c hash a)

  no_return : drop_end (λ x. x == 13) header ≡ header
  no_return =
      drop_end-append (λ x. x == 13) (codes "# hash: ") c hash (IsSolid-no_return (c ∷ hash) a)

  parse_body-header : parse_body (codes "hash: " ++ c ∷ hash) ≡ c ∷ hash
  unfolding parse_body has_prefix drop_prefix
  parse_body-header = trim_hash

  parse_lines-header : (rest : List Str) → parse_lines (header ∷ rest) ≡ c ∷ hash
  unfolding parse_lines
  parse_lines-header rest =
      ap (λ l. parse_trimmed (trim_space l) (parse_lines rest)) no_return
      ∙ ap (λ l. parse_trimmed l (parse_lines rest)) trim_header
      ∙ (unfold parse_trimmed in ap parse_body trim_body ∙ parse_body-header)

-- A header that was written is read back, whatever text follows it, if the hash is one or more
-- characters and none is white space.
pub parse-format_hash_header :
    (hash body : Str)
    → hash ≢ []
    → IsSolid hash
    → parse_hash_header (format_hash_header hash ++ body) ≡ hash
unfolding parse_hash_header format_hash_header
parse-format_hash_header [] body h a = absurd (h refl)
parse-format_hash_header (c ∷ hash) body h a = simp append_assoc (
    ap parse_lines (split_lines-header c hash a 6 body)
    ∙ parse_lines-header c hash a (split_lines 6 body))

-- A pod whose file starts with the header of a hash, of one or more characters of which none is
-- white space, shows an expected hash exactly if the two are equal.
pub shows_hash_iff :
    (hash body expected_hash : Str)
    → hash ≢ []
    → IsSolid hash
    → (shows_hash (format_hash_header hash ++ body) expected_hash ≡ true) ↔ (hash ≡ expected_hash)
unfolding shows_hash
shows_hash_iff [] body expected h a = absurd (h refl)
shows_hash_iff (c ∷ hash) body expected h a =
    rw (parse-format_hash_header (c ∷ hash) body h a)
      (unfold matches_hash in str_eq_iff (c ∷ hash) expected)
