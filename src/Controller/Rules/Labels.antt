-- ===== src/Controller/Rules/Labels.antt =====
-- The labels of a rule are compared in the order in which Go ranges over them, which is arbitrary.
use nats_operator_experiment.Common.{
  Str, str_eq, str_eq_iff, Bool, true, false, [], ◌∷◌, ◌≡◌, refl, ◌∙◌, Map, Perm, All, ◌↔◌,
  if◌then◌else◌, inl, inr, Bool-cases,
}
use mathlib.Core.List.{Permᴰ}
use mathlib.Core.Logic.{∥∥₁_elim}
use nats_operator_experiment.Controller.Rules.{labels_match, label_at}

Bool-set : IsSet Bool
Bool-set = hlevel

-- a label that a rule asks for, and that the namespace has with that value
abbrev pub HasLabel : Map Str → Str × Str → Type 0
HasLabel labels entry = label_at entry.0 labels ≡ entry.1

-- A label rule matches exactly when the namespace has every label of the rule with the rule's
-- value, where a missing label has the empty value.
labels_match_iff :
    (expected labels : Map Str)
    → (labels_match expected labels ≡ true) ↔ All (HasLabel labels) expected
unfolding labels_match
labels_match_iff [] labels = (λ _. tt, λ _. refl)
labels_match_iff ((k, v) ∷ rest) labels = (
  λ h. elim (Bool-cases (str_eq (label_at k labels) v)) [
    | inl e ↦ ((str_eq_iff (label_at k labels) v).0 e, (labels_match_iff rest labels).0 (rw e at h))
    | inr e ↦ cc (rw e at h)
  ],
  λ h. rw ((str_eq_iff (label_at k labels) v).1 h.0) ((labels_match_iff rest labels).1 h.1),
)

labels_match-eq_of_permᴰ :
    (labels : Map Str) {xs ys : Map Str}
    → Permᴰ xs ys
    → labels_match xs labels ≡ labels_match ys labels
unfolding labels_match
labels_match-eq_of_permᴰ labels Permᴰ.nil = refl
labels_match-eq_of_permᴰ labels (Permᴰ.cons {a = (k, v)} {b = (j, w)} e d) = λ i.
    if str_eq (label_at (e i).0 labels) (e i).1 then labels_match-eq_of_permᴰ labels d i else false
labels_match-eq_of_permᴰ labels
      (Permᴰ.swap {a = (k, v)} {b = (j, w)} {a' = (k', v')} {b' = (j', w')} {l = l} e f) =
    exchange (str_eq (label_at k labels) v) (str_eq (label_at j labels) w) (labels_match l labels)
    ∙ (λ i.
        if str_eq (label_at (f i).0 labels) (f i).1
        then (if str_eq (label_at (e i).0 labels) (e i).1 then labels_match l labels else false)
        else false)
  where
    exchange :
        (s t r : Bool)
        → (if s then (if t then r else false) else false)
          ≡ (if t then (if s then r else false) else false)
    exchange true true r = refl
    exchange true false r = refl
    exchange false true r = refl
    exchange false false r = refl
labels_match-eq_of_permᴰ labels (Permᴰ.trans d d') =
    labels_match-eq_of_permᴰ labels d ∙ labels_match-eq_of_permᴰ labels d'

-- Whether the labels match does not depend on the order in which they are compared.
labels_match-eq_of_perm :
    (labels xs ys : Map Str) → Perm xs ys → labels_match xs labels ≡ labels_match ys labels
labels_match-eq_of_perm labels xs ys p =
    ∥∥₁_elim p (Bool-set _ _) (λ d. labels_match-eq_of_permᴰ labels d)
