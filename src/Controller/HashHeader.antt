-- ===== src/Controller/HashHeader.antt =====
-- The hash header of internal/controller/pod_reloader.go: `FormatHashHeader`, `parseHashHeader` and
-- the decision of `IsConfigCurrent` on what `cat` printed. The exec is in Controller/PodExec.antt.
pub mod RoundTrip
use nats_operator_experiment.Common.{
  ℕ, zero, suc, ◌≤◌, Str, codes, newline, Bool, true, false, ◌&&◌, ◌||◌, Option, none, some, List,
  [], ◌∷◌, ◌++◌, ◌≡◌, ◌≢◌, ◌↔◌, refl, sym, ap, ◌∙◌, arith, ◌==◌, leb, if◌then◌else◌, All, str_eq,
  str_eq_iff, has_prefix, drop_prefix, append_assoc, List-cases, inl, inr, Bool-cases,
}

unfoldable pub format_hash_header : Str → Str
format_hash_header hash = codes "# hash: " ++ (hash ++ newline ∷ [])

-- unicode.IsSpace
abbrev pub is_space : ℕ → Bool
is_space c =
    (leb 9 c && leb c 13)
    || (c == 32)
    || (c == 133)
    || (c == 160)
    || (c == 5760)
    || (leb 8192 c && leb c 8202)
    || (c == 8232)
    || (c == 8233)
    || (c == 8239)
    || (c == 8287)
    || (c == 12288)

unfoldable pub drop_start : (ℕ → Bool) → Str → Str
drop_start p [] = []
drop_start p (c ∷ s) = if p c then drop_start p s else c ∷ s

-- `c` stays unless it is to go and nothing stays behind it
unfoldable pub keep_before : Bool → ℕ → Str → Str
keep_before true c [] = []
keep_before true c (d ∷ s) = c ∷ d ∷ s
keep_before false c s = c ∷ s

unfoldable pub drop_end : (ℕ → Bool) → Str → Str
drop_end p [] = []
drop_end p (c ∷ s) = keep_before (p c) c (drop_end p s)

-- strings.TrimSpace
unfoldable pub trim_space : Str → Str
trim_space s = drop_end is_space (drop_start is_space s)

-- the text up to the first newline, and what stands behind the newline if there is one
unfoldable pub cut_line : Str → Str × Option Str
cut_line [] = ([], none)
cut_line (c ∷ s) =
    let (l, rest) = cut_line s in if c == newline then ([], some s) else (c ∷ l, rest)

abbrev pub split_rest : Str → Option Str → (Str → List Str) → List Str
split_rest l none split = l ∷ []
split_rest l (some rest) split = l ∷ split rest

-- strings.SplitN(s, "\n", cuts + 1)
unfoldable pub split_lines : ℕ → Str → List Str
split_lines zero s = s ∷ []
split_lines (suc cuts) s = let (l, rest) = cut_line s in split_rest l rest (split_lines cuts)

unfoldable pub parse_body : Str → Str
parse_body body =
    if has_prefix body (codes "hash:") then trim_space (drop_prefix body (codes "hash:")) else []

-- on a trimmed line, and what the lines behind it give
unfoldable pub parse_trimmed : Str → Str → Str
parse_trimmed [] later = later
parse_trimmed (c ∷ s) later = if c == b'#' then parse_body (trim_space s) else []

-- the first line that is not blank decides
unfoldable pub parse_lines : List Str → Str
parse_lines [] = []
parse_lines (l ∷ rest) = parse_trimmed (trim_space (drop_end (λ c. c == 13) l)) (parse_lines rest)

unfoldable pub parse_hash_header : Str → Str
parse_hash_header s = parse_lines (split_lines 7 s)

unfoldable pub matches_hash : Str → Str → Bool
matches_hash [] expected_hash = false
matches_hash (c ∷ s) expected_hash = str_eq (c ∷ s) expected_hash

-- the end of `IsConfigCurrent`, on what the pod printed
unfoldable pub shows_hash : Str → Str → Bool
shows_hash stdout expected_hash = matches_hash (parse_hash_header stdout) expected_hash
