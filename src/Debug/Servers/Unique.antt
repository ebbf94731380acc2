-- ===== src/Debug/Servers/Unique.antt =====
-- The names that `uniqueSorted` returns.
use nats_operator_experiment.Common.{
  Str, true, false, not, ◌&&◌, List, [], ◌∷◌, ◌≡◌, refl, ap, ◌∙◌, arith, str_eq, str_eq_iff,
  str_eq_refl, str_eq_sym, str_le, insert_by, sort_by, IsSorted, sort_by-IsSorted, Bool-cases, inl,
  inr, if◌then◌else◌,
}
use nats_operator_experiment.Config.Convert.SystemAccount.{str_order}
use nats_operator_experiment.Debug.Servers.{is_seen, unique_from, unique_sorted}

-- no name stands twice
abbrev pub NoRepeat : List Str → Type 0
NoRepeat [] = Unit
NoRepeat (s ∷ ss) = (is_seen s ss ≡ false) × NoRepeat ss

is_seen-unique_from :
    (x : Str) (items seen : List Str)
    → is_seen x (unique_from seen items) ≡ (is_seen x items && not (is_seen x seen))
unfolding is_seen unique_from
is_seen-unique_from x [] seen = refl
is_seen-unique_from x (item ∷ items) seen = ground (
  arith,
  str_eq_iff x item,
  is_seen-unique_from x items seen,
  is_seen-unique_from x items (item ∷ seen),
)

is_seen_self : (x : Str) (seen items : List Str) → is_seen x (unique_from (x ∷ seen) items) ≡ false
unfolding is_seen
is_seen_self x seen items = ground (arith, is_seen-unique_from x items (x ∷ seen), str_eq_refl x)

unique_from-NoRepeat : (items seen : List Str) → NoRepeat (unique_from seen items)
unfolding unique_from
unique_from-NoRepeat [] seen = tt
unique_from-NoRepeat (item ∷ items) seen = elim (Bool-cases (is_seen item seen)) [
  | inl e ↦ rw e (unique_from-NoRepeat items seen)
  | inr e ↦ rw e (is_seen_self item seen items, unique_from-NoRepeat items (item ∷ seen))
]

is_seen-insert_by :
    (x y : Str) (ys : List Str) → is_seen x (insert_by str_le y ys) ≡ is_seen x (y ∷ ys)
unfolding is_seen insert_by
is_seen-insert_by x y [] = refl
is_seen-insert_by x y (z ∷ ys) = ground (arith, is_seen-insert_by x y ys)

unseen_tail : (a b : Str) (l : List Str) → is_seen a (b ∷ l) ≡ false → is_seen a l ≡ false
unfolding is_seen
unseen_tail a b l k = ground arith

unseen_both :
    (b a : Str) (l : List Str)
    → is_seen a (b ∷ l) ≡ false
    → is_seen b l ≡ false
    → is_seen b (a ∷ l) ≡ false
unfolding is_seen
unseen_both b a l k j = ground (arith, str_eq_sym a b)

insert_by-NoRepeat :
    (y : Str) (ys : List Str)
    → is_seen y ys ≡ false
    → NoRepeat ys
    → NoRepeat (insert_by str_le y ys)
unfolding insert_by
insert_by-NoRepeat y [] h n = (unfold is_seen in refl, tt)
insert_by-NoRepeat y (z ∷ ys) h (n, ns) = elim (Bool-cases (str_le y z)) [
  | inl e ↦ rw e (h, (n, ns))
  | inr e ↦ rw e (
    is_seen-insert_by z y ys ∙ unseen_both z y ys h n,
    insert_by-NoRepeat y ys (unseen_tail y z ys h) ns,
  )
]

is_seen-sort_by : (x : Str) (ss : List Str) → is_seen x (sort_by str_le ss) ≡ is_seen x ss
unfolding sort_by is_seen
is_seen-sort_by x [] = refl
is_seen-sort_by x (s ∷ ss) =
    is_seen-insert_by x s (sort_by str_le ss)
    ∙ ap (λ b. if str_eq x s then true else b) (is_seen-sort_by x ss)

is_seen-unique_from-nil :
    (x : Str) (items : List Str) → is_seen x (unique_from [] items) ≡ is_seen x items
unfolding is_seen
is_seen-unique_from-nil x items = ground (arith, is_seen-unique_from x items [])

sort_by-NoRepeat : (ss : List Str) → NoRepeat ss → NoRepeat (sort_by str_le ss)
unfolding sort_by
sort_by-NoRepeat [] n = tt
sort_by-NoRepeat (s ∷ ss) (h, n) =
    insert_by-NoRepeat s (sort_by str_le ss) (is_seen-sort_by s ss ∙ h) (sort_by-NoRepeat ss n)

-- The names come out in order, each once, and they are those that were given.
pub unique_sorted-NoRepeat :
    (items : List Str)
    → IsSorted str_le (unique_sorted items)
      × NoRepeat (unique_sorted items)
      × ((x : Str) → is_seen x (unique_sorted items) ≡ is_seen x items)
unfolding unique_sorted
unique_sorted-NoRepeat items = (
  sort_by-IsSorted str_le str_order (unique_from [] items),
  sort_by-NoRepeat (unique_from [] items) (unique_from-NoRepeat items []),
  λ x. is_seen-sort_by x (unique_from [] items) ∙ is_seen-unique_from-nil x items,
)
