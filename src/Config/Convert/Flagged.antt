-- ===== src/Config/Convert/Flagged.antt =====
-- Which accounts of a list carry the flag of the system account, described by their places.
use nats_operator_experiment.Common.{
  All, ◌++◌, subst, ◌∙◌, Str, Bool, true, false, List, [], ◌∷◌, ◌≡◌, refl, ap, if◌then◌else◌,
}
use nats_operator_experiment.Config.Convert.{AccountWithUsers, system_candidates}

abbrev pub IsFlagged : AccountWithUsers → Type 0
IsFlagged awu = awu.account.spec.system_account ≡ true

abbrev pub IsPlain : AccountWithUsers → Type 0
IsPlain awu = awu.account.spec.system_account ≡ false

-- The names are those of the flagged accounts, in the order of the accounts.
pub data FlaggedNames : List AccountWithUsers → List Str → Type 0 where
  nil : FlaggedNames [] []
  flagged :
      (awu : AccountWithUsers) {rest : List AccountWithUsers} {names : List Str}
      → IsFlagged awu
      → FlaggedNames rest names
      → FlaggedNames (awu ∷ rest) (awu.account.name ∷ names)
  plain :
      (awu : AccountWithUsers) {rest : List AccountWithUsers} {names : List Str}
      → IsPlain awu
      → FlaggedNames rest names
      → FlaggedNames (awu ∷ rest) names

-- One account of the list is flagged: the one with this name, and no other.
pub record OnlyFlagged (accounts : List AccountWithUsers) (name : Str) : Type 0 where
  pub before : List AccountWithUsers
  pub awu : AccountWithUsers
  pub after : List AccountWithUsers
  pub splits : accounts ≡ before ++ awu ∷ after
  pub is_flagged : IsFlagged awu
  pub is_named : name ≡ awu.account.name
  pub none_before : All IsPlain before
  pub none_after : All IsPlain after

-- Two places of the list hold flagged accounts.
pub record TwoFlagged (accounts : List AccountWithUsers) : Type 0 where
  pub before : List AccountWithUsers
  pub first : AccountWithUsers
  pub between : List AccountWithUsers
  pub second : AccountWithUsers
  pub after : List AccountWithUsers
  pub splits : accounts ≡ before ++ first ∷ (between ++ second ∷ after)
  pub first_IsFlagged : IsFlagged first
  pub second_IsFlagged : IsFlagged second

pub system_candidates-FlaggedNames :
    (accounts : List AccountWithUsers) → FlaggedNames accounts (system_candidates accounts)
unfolding system_candidates
system_candidates-FlaggedNames [] = FlaggedNames.nil
system_candidates-FlaggedNames (awu ∷ rest) =
    add awu.account.spec.system_account refl (system_candidates-FlaggedNames rest)
  where
    add :
        (t : Bool)
        → awu.account.spec.system_account ≡ t
        → FlaggedNames rest (system_candidates rest)
        → FlaggedNames
            (awu ∷ rest)
            (if t then awu.account.name ∷ system_candidates rest else system_candidates rest)
    add true e d = FlaggedNames.flagged awu e d
    add false e d = FlaggedNames.plain awu e d

-- the accounts up to the first flagged one
pub record FirstFlagged (accounts : List AccountWithUsers) (name : Str) (names : List Str)
    : Type 0 where
  pub before : List AccountWithUsers
  pub awu : AccountWithUsers
  pub after : List AccountWithUsers
  pub splits : accounts ≡ before ++ awu ∷ after
  pub is_flagged : IsFlagged awu
  pub is_named : name ≡ awu.account.name
  pub none_before : All IsPlain before
  pub others : FlaggedNames after names

pub none_flagged :
    {accounts : List AccountWithUsers} {names : List Str}
    → FlaggedNames accounts names
    → names ≡ []
    → All IsPlain accounts
none_flagged FlaggedNames.nil h = tt
none_flagged (FlaggedNames.flagged awu e d) h = absurd (cc h)
none_flagged (FlaggedNames.plain awu e d) h = (e, none_flagged d h)

pub first_flagged :
    {accounts : List AccountWithUsers} {all : List Str} (name : Str) (names : List Str)
    → FlaggedNames accounts all
    → all ≡ name ∷ names
    → FirstFlagged accounts name names
first_flagged name names FlaggedNames.nil h = absurd (cc h)
first_flagged name names (FlaggedNames.flagged awu {rest = rest} {names = others} e d) h = record {
  before = [];
  awu = awu;
  after = rest;
  splits = refl;
  is_flagged = e;
  is_named = cc h;
  none_before = tt;
  others = subst (FlaggedNames rest) (cc h) d;
}
first_flagged name names (FlaggedNames.plain awu e d) h =
    let f = first_flagged name names d h in
    record {
      before = awu ∷ f.before;
      awu = f.awu;
      after = f.after;
      splits = ap (λ (l : List AccountWithUsers). awu ∷ l) f.splits;
      is_flagged = f.is_flagged;
      is_named = f.is_named;
      none_before = (e, f.none_before);
      others = f.others;
    }

pub two_flagged :
    (accounts : List AccountWithUsers) (a b : Str) (rest : List Str)
    → FlaggedNames accounts (a ∷ b ∷ rest)
    → TwoFlagged accounts
two_flagged accounts a b rest d =
    let f = first_flagged a (b ∷ rest) d refl in
    let g = first_flagged b rest f.others refl in
    record {
      before = f.before;
      first = f.awu;
      between = g.before;
      second = g.awu;
      after = g.after;
      splits = f.splits ∙ ap (λ (l : List AccountWithUsers). f.before ++ f.awu ∷ l) g.splits;
      first_IsFlagged = f.is_flagged;
      second_IsFlagged = g.is_flagged;
    }
