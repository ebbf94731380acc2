-- ===== src/Debug/Shown/Written.antt =====
-- What nats-debug shows of a file that the operator has written.
use nats_operator_experiment.Common.{
  ℕ, zero, suc, Str, codes, Bool, false, some, List, [], ◌∷◌, ◌++◌, ◌≡◌, refl, sym, ap, subst, ◌∙◌,
  arith, append_assoc, All, All-append, has_prefix,
}
use nats_operator_experiment.Config.Types.{UserConfig}
use nats_operator_experiment.Config.Writer.{repeat_indent}
use nats_operator_experiment.Config.UserWriter.{write_each_user}
use nats_operator_experiment.Config.Document.{
  optional, permissions_document, user_document, each_user_document,
}
use nats_operator_experiment.Config.Rendering.{write_each_user-render}
use nats_operator_experiment.Debug.Shown.{contains, configured_block}
use nats_operator_experiment.Debug.Shown.Block.{IsOneLine, unlines, IsBlock, configured_block-whole}
use nats_operator_experiment.Debug.Shown.Labels.{brace-IsOpener, brace-IsCloser}
use nats_operator_experiment.Debug.Shown.Neat.{
  IsPlainUser, key_line-IsPlain, user-IsNeat, each_user-IsNeat,
}
use nats_operator_experiment.Debug.Shown.Lines.{
  indented, document_lines, unlines-append, render-unlines, count-indented, document_lines-Balanced,
  document_lines-IsOneLine, contains-end, contains-count,
}

module _ (wide : ℕ → Bool) where
  opener_unnamed :
      (n : ℕ) (nkey : Str) → contains (indented n (codes "{")) (codes "nkey: " ++ nkey) ≡ false
  unfolding contains repeat_indent has_prefix
  opener_unnamed zero nkey = refl
  opener_unnamed (suc n) nkey = opener_unnamed n nkey

  -- the lines of the permissions of a user, and those of the users that follow
  abbrev permission_lines : ℕ → UserConfig → List Str
  permission_lines n user =
      document_lines (suc (suc n)) (optional (permissions_document wide) user.permissions)

  abbrev later_lines : ℕ → List UserConfig → List Str
  later_lines n later = document_lines (suc n) (each_user_document wide later)

  -- the lines of the block of a user, from its opening brace to its closing one
  abbrev pub user_lines : ℕ → UserConfig → List Str
  user_lines n user =
      indented (suc n) (codes "{")
      ∷ indented (suc (suc n)) (codes "nkey: " ++ user.nkey)
      ∷ (permission_lines n user ++ indented (suc n) (codes "}") ∷ [])

  user-IsBlock :
      (n : ℕ) (user : UserConfig)
      → IsPlainUser wide user
      → IsBlock user.nkey
          (indented (suc n) (codes "{"))
          (indented (suc (suc n)) (codes "nkey: " ++ user.nkey))
          (permission_lines n user)
          (indented (suc n) (codes "}"))
  user-IsBlock n user (p, a) = record {
    opens = omega (
      arith,
      count-indented b'{' (suc n) (codes "{") refl,
      count-indented b'}' (suc n) (codes "{") refl,
      brace-IsOpener.opens,
    );
    is_opener = contains-end (repeat_indent (suc n)) (codes "{");
    no_opener = contains-count b'{' (indented (suc (suc n)) (codes "nkey: " ++ user.nkey)) (
        count-indented b'{' (suc (suc n)) (codes "nkey: " ++ user.nkey) refl
        ∙ (key_line-IsPlain wide user p).no_opening);
    has_key = contains-end (repeat_indent (suc (suc n))) (codes "nkey: " ++ user.nkey);
    is_Balanced =
        unfold user_document in
        document_lines-Balanced (suc (suc n)) (user_document wide user)
          (user-IsNeat wide user (p, a));
    closes = omega (
      arith,
      count-indented b'{' (suc n) (codes "}") refl,
      count-indented b'}' (suc n) (codes "}") refl,
      brace-IsCloser.closes,
    );
  }

  document_lines-user :
      (n : ℕ) (user : UserConfig) (later : List UserConfig) (after : List Str)
      → document_lines (suc n) (each_user_document wide (user ∷ later)) ++ after
        ≡ indented (suc n) (codes "{")
          ∷ indented (suc (suc n)) (codes "nkey: " ++ user.nkey)
          ∷ (permission_lines n user
              ++ indented (suc n) (codes "}") ∷ (later_lines n later ++ after))
  unfolding each_user_document user_document
  document_lines-user n user later after =
      ap
        (λ t.
          indented (suc n) (codes "{") ∷ indented (suc (suc n)) (codes "nkey: " ++ user.nkey) ∷ t)
        (append_assoc (permission_lines n user) (indented (suc n) (codes "}") ∷ later_lines n later)
          after)

  written_lines :
      (n : ℕ) (before : List Str) (users : List UserConfig) (after : List Str)
      → write_each_user wide (unlines before) users n ++ unlines after
        ≡ unlines (before ++ (document_lines (suc n) (each_user_document wide users) ++ after))
  written_lines n before users after =
      ap (λ t. t ++ unlines after)
        (write_each_user-render wide (unlines before) users n
          ∙ ap (λ t. unlines before ++ t) (render-unlines (suc n) (each_user_document wide users)))
      ∙ append_assoc (unlines before)
          (unlines (document_lines (suc n) (each_user_document wide users))) (unlines after)
      ∙ ap (λ t. unlines before ++ t)
          (sym (unlines-append (document_lines (suc n) (each_user_document wide users)) after))
      ∙ sym
          (unlines-append before (document_lines (suc n) (each_user_document wide users) ++ after))

  -- Of a file into which the generator has written the users of an account behind lines that do not
  -- name the key of the first of them, nats-debug shows for that key the lines that were written for
  -- that user, from the opening brace to the closing one, and no more; if the keys and the quoted texts
  -- have no brace and no newline. The users before it are among the lines in front.
  pub configured_block-written :
      (n : ℕ) (before : List Str) (user : UserConfig) (later : List UserConfig) (after : List Str)
      → All IsOneLine before
      → All IsOneLine after
      → All (λ l. contains l (codes "nkey: " ++ user.nkey) ≡ false) before
      → All (IsPlainUser wide) (user ∷ later)
      → configured_block
          (write_each_user wide (unlines before) (user ∷ later) n ++ unlines after)
          user.nkey
        ≡ some (user_lines n user)
  configured_block-written n before user later after one_line one_line' unnamed (p, ps) =
      ap (λ t. configured_block t user.nkey)
        (written_lines n before (user ∷ later) after
          ∙ ap (λ t. unlines (before ++ t)) (document_lines-user n user later after))
      ∙ configured_block-whole user.nkey before (indented (suc n) (codes "{"))
          (indented (suc (suc n)) (codes "nkey: " ++ user.nkey)) (permission_lines n user)
          (indented (suc n) (codes "}")) (later_lines n later ++ after)
          (All-append IsOneLine before _ one_line (
            subst (All IsOneLine) (document_lines-user n user later after) (
              All-append IsOneLine (document_lines (suc n) (each_user_document wide (user ∷ later)))
                after
                (document_lines-IsOneLine (suc n) (each_user_document wide (user ∷ later))
                  (each_user-IsNeat wide (user ∷ later) (p, ps)))
                one_line')))
          (All-append _ before (indented (suc n) (codes "{") ∷ []) unnamed
            (opener_unnamed (suc n) user.nkey, tt))
          (user-IsBlock n user p)
