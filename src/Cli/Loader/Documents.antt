-- ===== src/Cli/Loader/Documents.antt =====
-- How the text of a manifest is divided into documents.
use nats_operator_experiment.Common.{
  Str, codes, newline, false, List, [], ◌∷◌, ◌++◌, map, str_eq, str_eq_iff, ◌≡◌, ◌≢◌, refl, sym, ap,
  ◌∙◌, All, append-nil, append_assoc, if◌then◌else◌, Bool-cases, inl, inr,
}
use nats_operator_experiment.Cli.Loader.{split_lines, flush, collect, split_yaml_documents}

-- The lines of a section, each with a newline behind it.
pub unlines : List Str → Str
unlines [] = []
unlines (line ∷ lines) = line ++ newline ∷ unlines lines

-- The sections, with a separator between each and the next.
pub with_separators : List (List Str) → List Str
with_separators [] = []
with_separators (section ∷ []) = section
with_separators (section ∷ next ∷ rest) = section ++ codes "---" ∷ with_separators (next ∷ rest)

-- The texts that are not empty.
pub nonempty : List Str → List Str
nonempty [] = []
nonempty ([] ∷ rest) = nonempty rest
nonempty ((b ∷ s) ∷ rest) = (b ∷ s) ∷ nonempty rest

abbrev pub IsContent : List Str → Type 0
IsContent section = All (λ line. line ≢ codes "---") section

-- The lines are those of the sections with the separators between them, no line of a section is a
-- separator, and the documents are the sections that are not empty.
pub record IsSplit (lines : List Str) (docs : List Str) : Type 0 where
  pub sections : List (List Str)
  pub some_section : sections ≢ []
  pub covers : with_separators sections ≡ lines
  pub separated : All IsContent sections
  pub documents : docs ≡ nonempty (map unlines sections)

-- the sections of the lines, the first of which begins with what was read already
sections_of : List Str → List Str → List (List Str)
sections_of section [] = section ∷ []
sections_of section (line ∷ lines) =
    let next = sections_of [] lines in
    let more = sections_of (section ++ line ∷ []) lines in
    if str_eq line (codes "---") then section ∷ next else more

unlines-append : (xs ys : List Str) → unlines (xs ++ ys) ≡ unlines xs ++ unlines ys
unfolding unlines
unlines-append [] ys = refl
unlines-append (x ∷ xs) ys = simp (unlines-append xs ys, append_assoc)

nonempty-flush : (s : Str) (rest : List Str) → nonempty (s ∷ rest) ≡ flush s (nonempty rest)
unfolding nonempty flush
nonempty-flush [] rest = refl
nonempty-flush (b ∷ s) rest = refl

sections_of-ne-nil : (section lines : List Str) → sections_of section lines ≢ []
unfolding sections_of
sections_of-ne-nil section [] = cc
sections_of-ne-nil section (line ∷ lines) = elim (Bool-cases (str_eq line (codes "---"))) [
  | inl e ↦ rw e (cc)
  | inr e ↦ rw e (sections_of-ne-nil (section ++ line ∷ []) lines)
]

with_separators-cons :
    (section : List Str) (rest : List (List Str))
    → rest ≢ []
    → with_separators (section ∷ rest) ≡ section ++ codes "---" ∷ with_separators rest
unfolding with_separators
with_separators-cons section [] h = absurd (h refl)
with_separators-cons section (next ∷ rest) h = refl

sections_of-covers :
    (section lines : List Str) → with_separators (sections_of section lines) ≡ section ++ lines
unfolding sections_of
sections_of-covers section [] = unfold with_separators in sym (append-nil section)
sections_of-covers section (line ∷ lines) = elim (Bool-cases (str_eq line (codes "---"))) [
  | inl e ↦ rw e (
      with_separators-cons section (sections_of [] lines) (sections_of-ne-nil [] lines)
      ∙ ap (λ (l : List Str). section ++ codes "---" ∷ l) (sections_of-covers [] lines)
      ∙ ap (λ (l : Str). section ++ l ∷ lines) (sym ((str_eq_iff line (codes "---")).0 e)))
  | inr e ↦
      rw e
        (sections_of-covers (section ++ line ∷ []) lines ∙ append_assoc section (line ∷ []) lines)
]

sections_of-separated :
    (section lines : List Str) → IsContent section → All IsContent (sections_of section lines)
unfolding sections_of
sections_of-separated section [] h = (h, tt)
sections_of-separated section (line ∷ lines) h = elim (Bool-cases (str_eq line (codes "---"))) [
  | inl e ↦ rw e (h, sections_of-separated [] lines tt)
  | inr e ↦
      rw e (sections_of-separated (section ++ line ∷ []) lines (IsContent_snoc section line h e))
]
  where
    IsContent_snoc :
        (xs : List Str) (x : Str)
        → IsContent xs
        → str_eq x (codes "---") ≡ false
        → IsContent (xs ++ x ∷ [])
    IsContent_snoc [] x a e = (λ p. cc ((str_eq_iff x (codes "---")).1 p), tt)
    IsContent_snoc (y ∷ ys) x (b, a) e = (b, IsContent_snoc ys x a e)

collect-sections_of :
    (section lines : List Str)
    → collect (unlines section) lines ≡ nonempty (map unlines (sections_of section lines))
unfolding collect sections_of nonempty unlines
collect-sections_of section [] = sym (nonempty-flush (unlines section) [])
collect-sections_of section (line ∷ lines) = elim (Bool-cases (str_eq line (codes "---"))) [
  | inl e ↦ rw e (
      ap (flush (unlines section)) (collect-sections_of [] lines)
      ∙ sym (nonempty-flush (unlines section) (map unlines (sections_of [] lines))))
  | inr e ↦ rw e (
      ap (λ (s : Str). collect s lines) (sym (unlines-append section (line ∷ [])))
      ∙ collect-sections_of (section ++ line ∷ []) lines)
]

-- The lines of a text fall into sections at the lines that are `---` and nowhere else, and the
-- documents are these sections in their order, each line with a newline behind it, without the
-- sections that have no line.
pub split_yaml_documents-IsSplit :
    (text : Str) → IsSplit (split_lines text) (split_yaml_documents text)
unfolding split_yaml_documents unlines
split_yaml_documents-IsSplit text = record {
  sections = sections_of [] (split_lines text);
  some_section = sections_of-ne-nil [] (split_lines text);
  covers = sections_of-covers [] (split_lines text);
  separated = sections_of-separated [] (split_lines text) tt;
  documents = collect-sections_of [] (split_lines text);
}
