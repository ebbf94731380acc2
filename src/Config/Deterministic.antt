-- ===== src/Config/Deterministic.antt =====
-- `Generate` does not depend on the order in which Go ranges over the map of accounts.
use nats_operator_experiment.Common.{
  ℕ, Str, Str-set, str_le, str_le_antisym, Bool, List, [], ◌∷◌, ◌≡◌, refl, ap, ◌∙◌, arith, Map,
  find, keys, codes, UniqueKeys, find-eq_of_permᴰ, sort_by-eq_of_permᴰ, Perm, length,
}
use mathlib.Core.List.{Permᴰ}
use mathlib.Core.Logic.{∥∥₁_elim}
use nats_operator_experiment.Config.Types.{NatsConfig, AccountConfig}
use nats_operator_experiment.Config.Generate.{
  account_at, total_users, write_account, write_accounts, write_missing_users, generate,
}
use nats_operator_experiment.Config.Writer.{write_line}
use nats_operator_experiment.Config.Convert.SystemAccount.{str_order}

keys-permᴰ : {m m' : Map AccountConfig} → Permᴰ m m' → Permᴰ (keys m) (keys m')
keys-permᴰ Permᴰ.nil = Permᴰ.nil
keys-permᴰ (Permᴰ.cons {a = (j, v)} {b = (k, w)} e d) = Permᴰ.cons (λ i. (e i).0) (keys-permᴰ d)
keys-permᴰ (Permᴰ.swap {a = (j, v)} {b = (k, w)} {a' = (j', v')} {b' = (k', w')} e f) =
    Permᴰ.swap (λ i. (e i).0) (λ i. (f i).0)
keys-permᴰ (Permᴰ.trans d d') = Permᴰ.trans (keys-permᴰ d) (keys-permᴰ d')

abbrev users_of : Str × AccountConfig → ℕ
users_of entry = length entry.1.users

total_users-eq_of_permᴰ : {m m' : Map AccountConfig} → Permᴰ m m' → total_users m ≡ total_users m'
unfolding total_users
total_users-eq_of_permᴰ Permᴰ.nil = refl
total_users-eq_of_permᴰ (Permᴰ.cons {a = (j, v)} {b = (k, w)} e d) =
    omega (arith, ap users_of e, total_users-eq_of_permᴰ d)
total_users-eq_of_permᴰ
      (Permᴰ.swap {a = (j, v)} {b = (k, w)} {a' = (j', v')} {b' = (k', w')} {l = l} e f) =
    omega (arith, ap users_of e, ap users_of f)
total_users-eq_of_permᴰ (Permᴰ.trans d d') = total_users-eq_of_permᴰ d ∙ total_users-eq_of_permᴰ d'

account_at-eq :
    (name : Str) (m m' : Map AccountConfig)
    → find name m ≡ find name m'
    → account_at name m ≡ account_at name m'
account_at-eq name m m' e = ground arith

module _ (wide : ℕ → Bool) where
  write_accounts-eq :
      (b : Str) (names : List Str) (m m' : Map AccountConfig)
      → ((k : Str) → find k m ≡ find k m')
      → write_accounts wide b names m ≡ write_accounts wide b names m'
  unfolding write_accounts
  write_accounts-eq b [] m m' same = refl
  write_accounts-eq b (name ∷ names) m m' same =
      ap (λ a. write_accounts wide (write_account wide b name a 1) names m)
        (account_at-eq name m m' (same name))
      ∙ write_accounts-eq (write_account wide b name (account_at name m') 1) names m m' same

  generate-eq_of_permᴰ :
      (cfg : NatsConfig) (m : Map AccountConfig)
      → UniqueKeys cfg.accounts
      → Permᴰ cfg.accounts m
      → generate wide cfg ≡ generate wide (record cfg { accounts = m })
  unfolding generate write_missing_users
  generate-eq_of_permᴰ cfg m u d =
      rw
        (
          total_users-eq_of_permᴰ d,
          sort_by-eq_of_permᴰ str_le str_order str_le_antisym (keys-permᴰ d),
        )
        (ap (λ t. write_line t [] (codes "}"))
          (write_accounts-eq _ _ cfg.accounts m (find-eq_of_permᴰ d u).1))

  -- Whatever order the map of accounts is ranged over in, the rendered configuration is the same
  -- text, if the map has no key twice.
  pub generate-eq_of_perm :
      (cfg : NatsConfig) (m : Map AccountConfig)
      → UniqueKeys cfg.accounts
      → Perm cfg.accounts m
      → generate wide cfg ≡ generate wide (record cfg { accounts = m })
  generate-eq_of_perm cfg m u p = ∥∥₁_elim p (Str-set _ _) (generate-eq_of_permᴰ cfg m u)
