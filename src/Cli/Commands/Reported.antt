-- ===== src/Cli/Commands/Reported.antt =====
-- What `runValidate` reports.
use nats_operator_experiment.Common.{
  ℕ, Str, codes, newline, Bool, List, [], ◌∷◌, ◌++◌, ◌≡◌, ◌≢◌, ◌↔◌, refl, sym, ap, ◌∙◌,
  append_assoc, append-nil, length,
}
use nats_operator_experiment.Common.Decimal.{format_nat}
use nats_operator_experiment.Common.Exec.{Error, Result, ok, err}
use nats_operator_experiment.Common.Console.{Console, text}
use nats_operator_experiment.Controller.Rules.{Regexp}
use nats_operator_experiment.Cli.Build.{LoadedResources}
use nats_operator_experiment.Cli.Validate.{ValidationError, validate}
use nats_operator_experiment.Cli.Files.{Files, load_from_paths}
use nats_operator_experiment.Cli.Commands.{error_string, print_errors, report_errors, run_validate}

-- a line for each error
abbrev pub error_lines : List ValidationError → Str
error_lines [] = []
error_lines (e ∷ rest) =
    (text (codes "  - " ∷ error_string e ∷ []) ++ newline ∷ []) ++ error_lines rest

-- what the error output gets: nothing, or the number of errors and each of them
abbrev pub error_report : List ValidationError → Str
error_report [] = []
error_report (e ∷ rest) =
    (text (codes "Validation found " ∷ format_nat (length (e ∷ rest)) ∷ codes " error(s):" ∷ [])
      ++ newline ∷ [])
    ++ error_lines (e ∷ rest)

-- the command has ended in the world `w`, with a result that says whether there were errors, and
-- has written the errors behind `before`
pub record Reports {W : Type 0} (errs : List ValidationError) (before : Str) (w : W)
    (r : Result (Unit {0}) × Console W) : Type 0 where
  pub passes : (r.0 ≡ ok tt) ↔ (errs ≡ [])
  pub fails : errs ≢ [] → (e : Error) × (r.0 ≡ err e)
  pub written : r.1.err_out ≡ before ++ error_report errs
  pub left : r.1.world ≡ w

err-ne-done : {e : Error} → ◌≡◌ {A = Result (Unit {0})} (err e) (ok tt) → ⊥
err-ne-done h = cc

cons-ne-nil :
    {e : ValidationError} {rest : List ValidationError}
    → ◌≡◌ {A = List ValidationError} (e ∷ rest) []
    → ⊥
cons-ne-nil h = cc

module _ (wide : ℕ → Bool) {W : Type 0} where
  print_errors-lines :
      (errs : List ValidationError) (k : Console W)
      → print_errors wide errs k ≡ (ok tt, record k { err_out = k.err_out ++ error_lines errs })
  unfolding print_errors
  print_errors-lines [] k = ap (λ t. (ok tt, record k { err_out = t })) (sym (append-nil k.err_out))
  print_errors-lines (e ∷ rest) k =
      print_errors-lines rest _
      ∙ ap (λ t. (ok tt, record k { err_out = t }))
          (append_assoc k.err_out (text (codes "  - " ∷ error_string e ∷ []) ++ newline ∷ [])
            (error_lines rest))

  report_errors-Reports :
      (res : LoadedResources) (errs : List ValidationError) (k : Console W)
      → Reports errs k.err_out k.world (report_errors wide res errs k)
  unfolding report_errors
  report_errors-Reports res [] k = record {
    passes = ((λ h. refl), (λ h. refl));
    fails = λ h. absurd (h refl);
    written = sym (append-nil k.err_out);
    left = refl;
  }
  report_errors-Reports res (e ∷ rest) k = rw (print_errors-lines (e ∷ rest) _) (record {
    passes = ((λ h. absurd (err-ne-done h)), (λ h. absurd (cons-ne-nil h)));
    fails = λ h. (_, refl);
    written = append_assoc k.err_out _ (error_lines (e ∷ rest));
    left = refl;
  })

  -- On resources that load, the command succeeds exactly if the validation finds nothing, and fails
  -- otherwise; it writes to the error output how many errors there are and a line for each, and
  -- nothing if there are none; and it leaves the world as the loading has left it.
  pub run_validate-Reports :
      (re : Regexp) (fs : Files W) (args : List Str) (k : Console W) (res : LoadedResources) (w : W)
      → load_from_paths fs args k.world ≡ (ok res, w)
      → Reports (validate wide re res) k.err_out w (run_validate wide re fs args k)
  unfolding run_validate
  run_validate-Reports re fs args k res w h =
      rw h (report_errors-Reports res (validate wide re res) (record k { world = w }))
