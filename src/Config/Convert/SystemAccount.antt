-- ===== src/Config/Convert/SystemAccount.antt =====
-- Which account becomes the system account.
use nats_operator_experiment.Common.{
  All, Str, Str-set, Bool, true, false, List, [], ◌∷◌, ◌≡◌, refl, ap, arith, Perm, sort_by, str_le,
  str_le_total, str_le_trans, str_le_antisym, TotalOrder, IsSorted, sort_by-perm, sort_by-IsSorted,
  sort_by-eq_of_permᴰ, length-sort_by, length, if◌then◌else◌,
}
use mathlib.Core.List.{Permᴰ}
use mathlib.Core.List.Permᴰ
use mathlib.Core.Logic.{∥∥₁_elim}
use mathlib.Core.HLevel.{×_prop}
use nats_operator_experiment.Config.Types.{NatsConfig}
use nats_operator_experiment.Config.Convert.Flagged.{
  IsPlain, FlaggedNames, OnlyFlagged, TwoFlagged, system_candidates-FlaggedNames, none_flagged,
  first_flagged, two_flagged,
}
use nats_operator_experiment.Config.Convert.{
  AccountWithUsers, system_candidates, select_system_account, convert_to_nats_config,
}

pub str_order : TotalOrder str_le
str_order = record { total = str_le_total; trans = str_le_trans }

List-set : IsSet (List Str)
List-set = hlevel Str-set

-- What the flags of the accounts designate.
pub data IsDesignated (accounts : List AccountWithUsers) (cfg : NatsConfig) : Type 0 where
  nobody :
      All IsPlain accounts
      → cfg.system_account ≡ []
      → cfg.system_account_conflicts ≡ []
      → IsDesignated accounts cfg
  only :
      OnlyFlagged accounts cfg.system_account
      → cfg.system_account_conflicts ≡ []
      → IsDesignated accounts cfg
  conflict :
      (names : List Str)
      → TwoFlagged accounts
      → FlaggedNames accounts names
      → cfg.system_account ≡ []
      → IsSorted str_le cfg.system_account_conflicts
      → Perm cfg.system_account_conflicts names
      → IsDesignated accounts cfg

-- If no account is flagged, there is neither a system account nor a conflict. If exactly one place of
-- the list holds a flagged account, that one is the system account and there is no conflict. If two
-- places do, there is no system account and the conflicts are the names of all flagged accounts,
-- each as often as it is flagged, sorted. One of the three holds for every list.
pub convert-IsDesignated :
    (accounts : List AccountWithUsers) → IsDesignated accounts (convert_to_nats_config accounts)
unfolding convert_to_nats_config
convert-IsDesignated accounts =
    designate (system_candidates accounts) refl (system_candidates-FlaggedNames accounts)
  where
    designate :
        (names : List Str)
        → system_candidates accounts ≡ names
        → FlaggedNames accounts names
        → IsDesignated accounts (convert_to_nats_config accounts)
    designate [] e d = IsDesignated.nobody (none_flagged d refl) (rw e) (rw e)
    designate (name ∷ []) e d =
        let f = first_flagged name [] d refl in
        IsDesignated.only
          (rw e (record {
            before = f.before;
            awu = f.awu;
            after = f.after;
            splits = f.splits;
            is_flagged = f.is_flagged;
            is_named = f.is_named;
            none_before = f.none_before;
            none_after = none_flagged f.others refl;
          }))
          (rw e)
    designate (a ∷ b ∷ rest) e d =
        IsDesignated.conflict (a ∷ b ∷ rest) (two_flagged accounts a b rest d) d (rw e)
          (rw e (sort_by-IsSorted str_le str_order (a ∷ b ∷ rest)))
          (rw e (sort_by-perm str_le (a ∷ b ∷ rest)))

keep_if :
    (t : Bool) (n : Str) {xs ys : List Str}
    → Permᴰ xs ys
    → Permᴰ (if t then n ∷ xs else xs) (if t then n ∷ ys else ys)
keep_if true n d = Permᴰ.cons refl d
keep_if false n d = d

exchange_if :
    (s t : Bool) (m n : Str) (l : List Str)
    → Permᴰ
        (if s then m ∷ (if t then n ∷ l else l) else (if t then n ∷ l else l))
        (if t then n ∷ (if s then m ∷ l else l) else (if s then m ∷ l else l))
exchange_if true true m n l = Permᴰ.swap refl refl
exchange_if true false m n l = Permᴰ.refl (m ∷ l)
exchange_if false true m n l = Permᴰ.refl (n ∷ l)
exchange_if false false m n l = Permᴰ.refl l

system_candidates-permᴰ :
    {xs ys : List AccountWithUsers}
    → Permᴰ xs ys
    → Permᴰ (system_candidates xs) (system_candidates ys)
unfolding system_candidates
system_candidates-permᴰ Permᴰ.nil = Permᴰ.nil
system_candidates-permᴰ (Permᴰ.cons {a = a} {b = b} {l₁ = xs} {l₂ = ys} e d) =
    rw e (keep_if b.account.spec.system_account b.account.name (system_candidates-permᴰ d))
system_candidates-permᴰ (Permᴰ.swap {a = a} {b = b} {a' = a'} {b' = b'} {l = l} e f) =
    rw (e, f)
      (exchange_if b'.account.spec.system_account a'.account.spec.system_account b'.account.name
        a'.account.name (system_candidates l))
system_candidates-permᴰ (Permᴰ.trans d d') =
    Permᴰ.trans (system_candidates-permᴰ d) (system_candidates-permᴰ d')

select-eq_of_permᴰ :
    (xs ys : List Str)
    → Permᴰ xs ys
    → length xs ≡ length ys
    → select_system_account xs ≡ select_system_account ys
unfolding select_system_account
select-eq_of_permᴰ [] [] d h = refl
select-eq_of_permᴰ [] (y ∷ ys) d h = absurd (omega arith)
select-eq_of_permᴰ (x ∷ xs) [] d h = absurd (omega arith)
select-eq_of_permᴰ (x ∷ []) (y ∷ []) d h =
    let e : x ∷ [] ≡ y ∷ [] =
      unfold sort_by in sort_by-eq_of_permᴰ str_le str_order str_le_antisym d in
    cc
select-eq_of_permᴰ (x ∷ []) (y ∷ z ∷ ys) d h = absurd (omega arith)
select-eq_of_permᴰ (x ∷ w ∷ xs) (y ∷ []) d h = absurd (omega arith)
select-eq_of_permᴰ (x ∷ w ∷ xs) (y ∷ z ∷ ys) d h =
    λ i. ([], sort_by-eq_of_permᴰ str_le str_order str_le_antisym d i)

length-eq_of_permᴰ : (xs ys : List Str) → Permᴰ xs ys → length xs ≡ length ys
length-eq_of_permᴰ xs ys d = omega (
  arith,
  length-sort_by str_le xs,
  length-sort_by str_le ys,
  ap (λ (l : List Str). length l) (sort_by-eq_of_permᴰ str_le str_order str_le_antisym d),
)

-- The system account and the conflicts do not depend on the order in which the accounts are given.
pub system_account-eq_of_perm :
    (xs ys : List AccountWithUsers)
    → Perm xs ys
    → ((convert_to_nats_config xs).system_account ≡ (convert_to_nats_config ys).system_account)
      × ((convert_to_nats_config xs).system_account_conflicts
          ≡ (convert_to_nats_config ys).system_account_conflicts)
unfolding convert_to_nats_config
system_account-eq_of_perm xs ys p = ∥∥₁_elim p (×_prop (Str-set _ _) (List-set _ _)) λ d.
    let names = system_candidates-permᴰ d in
    let same = select-eq_of_permᴰ _ _ names (length-eq_of_permᴰ _ _ names) in
    (λ i. (same i).0, λ i. (same i).1)
