-- ===== src/Cli/Loader.antt =====
-- `splitYAMLDocuments` and `splitLines` of cmd/cli/cmd/loader.go. The files and the decoder are in
-- Files.antt; a byte is a number.
pub mod Lines
pub mod Documents
use nats_operator_experiment.Common.{
  ℕ, Str, codes, newline, Bool, true, false, List, [], ◌∷◌, ◌++◌, str_eq, ◌==◌, if◌then◌else◌,
}

-- `data[start:i]` is put in front as the loop reads on; `start < len(data)` at the end says that the
-- text has not ended with a newline
unfoldable pub add_byte : ℕ → List Str → List Str
add_byte b [] = (b ∷ []) ∷ []
add_byte b (line ∷ lines) = (b ∷ line) ∷ lines

unfoldable pub split_lines : Str → List Str
split_lines [] = []
split_lines (b ∷ rest) =
    let lines = split_lines rest in if b == newline then [] ∷ lines else add_byte b lines

-- a document that is not empty
unfoldable pub flush : Str → List Str → List Str
flush [] docs = docs
flush (b ∷ current) docs = (b ∷ current) ∷ docs

-- the loop over the lines; `current` is the document so far
unfoldable pub collect : Str → List Str → List Str
collect current [] = flush current []
collect current (line ∷ lines) =
    if str_eq line (codes "---")
    then flush current (collect [] lines)
    else collect (current ++ (line ++ newline ∷ [])) lines

unfoldable pub split_yaml_documents : Str → List Str
split_yaml_documents text = collect [] (split_lines text)
