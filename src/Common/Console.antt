-- ===== src/Common/Console.antt =====
-- A program that prints: the world, and what has gone to its two outputs. Printing never fails here,
-- since the programs do not look at what it returns.
use nats_operator_experiment.Common.{Str, newline, List, [], ◌∷◌, ◌++◌}
use nats_operator_experiment.Common.Exec.{ok, Exec}

pub record Console (W : Type 0) : Type 0 where
  pub world : W
  pub out : Str
  pub err_out : Str

-- the texts, one behind the other
abbrev pub text : List Str → Str
text [] = []
text (s ∷ rest) = s ++ text rest

module _ {W : Type 0} where
  abbrev pub print : Str → Exec (Console W) (Unit {0})
  print s k = (ok tt, record k { out = k.out ++ s })

  abbrev pub print_err : Str → Exec (Console W) (Unit {0})
  print_err s k = (ok tt, record k { err_out = k.err_out ++ s })

  -- the texts, and a newline
  abbrev pub println : List Str → Exec (Console W) (Unit {0})
  println parts = print (text parts ++ newline ∷ [])

  -- a call that does not print
  abbrev pub quietly {ℓ} : {A : Type ℓ} → Exec W A → Exec (Console W) A
  quietly m k = let (r, w) = m k.world in (r, record k { world = w })
