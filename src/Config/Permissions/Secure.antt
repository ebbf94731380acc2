-- ===== src/Config/Permissions/Secure.antt =====
-- What the rendered permissions promise: a direction with no allow list is denied, an inbox is
-- isolated, and what the user wrote is kept.
use nats_operator_experiment.Common.{
  Str, codes, true, Option, none, some, List, [], ◌∷◌, ◌++◌, ◌≡◌, ◌≢◌, ◌⊎◌, refl, arith,
  str_eq_refl, if◌then◌else◌, Bool-cases, inl, inr, List-cases, subst, sym, str_eq, str_eq_iff, Mem,
  mem-cons_self, mem-cons_of_mem,
}
use mathlib.Core.List.{mem-cons, not-mem-nil}
use mathlib.Core.Logic.Or
use mathlib.Core.Bool.{Bool-set}
use nats_operator_experiment.Api.User.{Permissions, PermissionRule}
use nats_operator_experiment.Config.Types.{PermissionRuleConfig}
use nats_operator_experiment.Config.Permissions.{
  contains_string, append_missing, inject_inbox_prefix, deny_by_default, convert_explicit,
  convert_permissions, convert_rule, map_option, inbox_deny, inbox_allow, all_subjects,
  rule_or_empty,
}

contains_string-append :
    (xs ys : List Str) (s : Str)
    → contains_string (xs ++ ys) s ≡ (if contains_string xs s then true else contains_string ys s)
unfolding contains_string
contains_string-append [] ys s = refl
contains_string-append (x ∷ xs) ys s = ground (arith, contains_string-append xs ys s)

contains_string-append_missing :
    (xs : List Str) (s : Str) → contains_string (append_missing xs s) s ≡ true
unfolding append_missing contains_string
contains_string-append_missing xs s =
    ground (arith, contains_string-append xs (s ∷ []) s, str_eq_refl s)

Mem-contains_string : (xs : List Str) (s : Str) → contains_string xs s ≡ true → Mem s xs
unfolding contains_string
Mem-contains_string [] s h = absurd (cc h)
Mem-contains_string (x ∷ xs) s h = elim (Bool-cases (str_eq x s)) [
  | inl e ↦ subst (λ t. Mem t (x ∷ xs)) ((str_eq_iff x s).0 e) mem-cons_self
  | inr e ↦ mem-cons_of_mem x (Mem-contains_string xs s (rw e at h))
]

contains_string_of_mem : (xs : List Str) (s : Str) → Mem s xs → contains_string xs s ≡ true
unfolding contains_string
contains_string_of_mem [] s m = absurd (not-mem-nil m)
contains_string_of_mem (x ∷ xs) s m =
    Or.elim (Bool-set _ _) (mem-cons.0 m) (λ e. rw ((str_eq_iff x s).1 (sym e)) refl)
      (λ n. rw (contains_string_of_mem xs s n) (ground arith))

-- The list `ys` is `xs`, in its order, with `s` added behind it if and only if it was not there.
abbrev pub Extends : List Str → Str → List Str → Type 0
Extends ys s xs = (Mem s xs × (ys ≡ xs)) ⊎ ((Mem s xs → ⊥) × (ys ≡ xs ++ s ∷ []))

append_missing-Extends : (xs : List Str) (s : Str) → Extends (append_missing xs s) s xs
unfolding append_missing
append_missing-Extends xs s = elim (Bool-cases (contains_string xs s)) [
  | inl e ↦ inl (Mem-contains_string xs s e, rw e)
  | inr e ↦ inr (λ m. cc (contains_string_of_mem xs s m), rw e)
]

-- the isolated rule has an allow entry, so it is not backfilled
append_missing-ne-nil : (xs : List Str) (s : Str) → append_missing xs s ≢ []
unfolding append_missing contains_string
append_missing-ne-nil [] s = cc
append_missing-ne-nil (x ∷ xs) s = ground arith

deny_by_default_closed :
    (r : PermissionRuleConfig)
    → r.allow ≡ []
    → deny_by_default (some r) ≡ some (record r { deny = append_missing r.deny all_subjects })
unfolding deny_by_default
deny_by_default_closed r h = ground arith

deny_by_default_open : (r : PermissionRuleConfig) → r.allow ≢ [] → deny_by_default (some r) ≡ some r
unfolding deny_by_default
deny_by_default_open r h = ground arith

-- A direction that allows nothing by name denies everything.
abbrev pub IsClosed : Option PermissionRuleConfig → Type 0
IsClosed none = ⊥
IsClosed (some r) = (r.allow ≢ []) ⊎ (contains_string r.deny all_subjects ≡ true)

deny_by_default-IsClosed : (r : Option PermissionRuleConfig) → IsClosed (deny_by_default r)
unfolding deny_by_default
deny_by_default-IsClosed none = inr (contains_string-append_missing [] all_subjects)
deny_by_default-IsClosed (some r) = elim (List-cases r.allow) [
  | inl e ↦
      rw (deny_by_default_closed r e) (inr (contains_string-append_missing r.deny all_subjects))
  | inr (x, xs, e) ↦ rw (deny_by_default_open r (cc e)) (inl (cc e))
]

-- Whatever permissions and inbox prefix a user has, both directions are rendered, and each has an
-- allow list or denies every subject.
pub convert_permissions-IsClosed :
    (p : Option Permissions) (prefix : Str)
    → IsClosed (convert_permissions p prefix).publish
      × IsClosed (convert_permissions p prefix).subscribe
unfolding convert_permissions
convert_permissions-IsClosed p prefix = (deny_by_default-IsClosed _, deny_by_default-IsClosed _)

-- The lists that the user wrote for a direction, empty where none were written.
abbrev pub lists_of : Option PermissionRule → List Str × List Str
lists_of none = ([], [])
lists_of (some r) = (r.allow, r.deny)

abbrev pub publish_of : Option Permissions → List Str × List Str
publish_of none = ([], [])
publish_of (some p) = lists_of p.publish

abbrev pub subscribe_of : Option Permissions → List Str × List Str
subscribe_of none = ([], [])
subscribe_of (some p) = lists_of p.subscribe

abbrev IsCopy : Option PermissionRuleConfig → List Str × List Str → Type 0
IsCopy r (allow, deny) = ((rule_or_empty r).allow ≡ allow) × ((rule_or_empty r).deny ≡ deny)

map_option-IsCopy : (r : Option PermissionRule) → IsCopy (map_option convert_rule r) (lists_of r)
map_option-IsCopy none = (refl, refl)
map_option-IsCopy (some r) = (refl, refl)

publish-IsCopy : (p : Option Permissions) → IsCopy (convert_explicit p).publish (publish_of p)
unfolding convert_explicit
publish-IsCopy none = (refl, refl)
publish-IsCopy (some p) = map_option-IsCopy p.publish

subscribe-IsCopy : (p : Option Permissions) → IsCopy (convert_explicit p).subscribe (subscribe_of p)
unfolding convert_explicit
subscribe-IsCopy none = (refl, refl)
subscribe-IsCopy (some p) = map_option-IsCopy p.subscribe

-- `r` is rendered for the written lists: the allow list is kept; the deny list is kept where
-- something is allowed, and otherwise gains the wildcard unless it has it.
abbrev pub IsBackfilled : List Str × List Str → PermissionRuleConfig → Type 0
IsBackfilled (allow, deny) r =
    (r.allow ≡ allow)
    × (((allow ≢ []) × (r.deny ≡ deny)) ⊎ ((allow ≡ []) × Extends r.deny (codes ">") deny))

abbrev Backfills : Option PermissionRuleConfig → List Str × List Str → Type 0
Backfills o lists = (r : PermissionRuleConfig) × (deny_by_default o ≡ some r) × IsBackfilled lists r

deny_by_default-Backfills :
    (u : Option PermissionRuleConfig)
    → Backfills u ((rule_or_empty u).allow, (rule_or_empty u).deny)
unfolding deny_by_default
deny_by_default-Backfills none = (
  record { allow = []; deny = append_missing [] all_subjects },
  refl,
  (refl, inr (refl, append_missing-Extends [] all_subjects)),
)
deny_by_default-Backfills (some u) = elim (List-cases u.allow) [
  | inl e ↦ (
    record u { deny = append_missing u.deny all_subjects },
    deny_by_default_closed u e,
    (refl, inr (e, append_missing-Extends u.deny all_subjects)),
  )
  | inr (x, xs, e) ↦ (u, deny_by_default_open u (cc e), (refl, inl (cc e, refl)))
]

Backfills-of_copy :
    (u : Option PermissionRuleConfig) (lists : List Str × List Str)
    → IsCopy u lists
    → Backfills u lists
Backfills-of_copy u (allow, deny) (e, f) =
    subst (Backfills u) (λ i. (e i, f i)) (deny_by_default-Backfills u)

-- The publish rule does not depend on the inbox prefix: it has the publish allow list that the user
-- wrote, and the publish deny list that the user wrote, to which the wildcard is added exactly where
-- nothing is allowed and the wildcard is not denied yet.
pub convert_permissions-publish :
    (p : Option Permissions) (prefix : Str)
    → (r : PermissionRuleConfig) × ((convert_permissions p prefix).publish ≡ some r)
      × IsBackfilled (publish_of p) r
unfolding convert_permissions
convert_permissions-publish p [] = Backfills-of_copy _ (publish_of p) (publish-IsCopy p)
convert_permissions-publish p (x ∷ prefix) = Backfills-of_copy _ (publish_of p) (publish-IsCopy p)

-- With an inbox prefix, the subscribe rule has the subscribe deny list that the user wrote, with the
-- shared inbox behind it unless the user denied that, and the subscribe allow list that the user
-- wrote, with the user's own inbox behind it unless the user allowed that; nothing else is added.
pub convert_permissions-isolated :
    (p : Option Permissions) (prefix : Str)
    → prefix ≢ []
    → (r : PermissionRuleConfig) × ((convert_permissions p prefix).subscribe ≡ some r)
      × Extends r.deny (codes "_INBOX.>") (subscribe_of p).1
      × Extends r.allow (prefix ++ codes ".>") (subscribe_of p).0
unfolding convert_permissions
convert_permissions-isolated p [] h = absurd (h refl)
convert_permissions-isolated p (x ∷ prefix) h =
    let u = rule_or_empty (convert_explicit p).subscribe in
    let own = inbox_allow (x ∷ prefix) in
    let (allow, deny) = subscribe-IsCopy p in
    (
      inject_inbox_prefix (convert_explicit p).subscribe (x ∷ prefix),
      unfold inject_inbox_prefix in deny_by_default_open _ (append_missing-ne-nil u.allow own),
      unfold inject_inbox_prefix in
          subst (Extends (append_missing u.deny inbox_deny) inbox_deny) deny
            (append_missing-Extends u.deny inbox_deny),
      unfold inject_inbox_prefix in
          subst (Extends (append_missing u.allow own) own) allow
            (append_missing-Extends u.allow own),
    )

-- Without an inbox prefix, the subscribe rule is rendered as the publish rule is: the user's allow
-- list, and the user's deny list with the wildcard added only where nothing is allowed and the
-- wildcard is not denied yet.
convert_permissions-shared :
    (p : Option Permissions)
    → (r : PermissionRuleConfig) × ((convert_permissions p []).subscribe ≡ some r)
      × IsBackfilled (subscribe_of p) r
unfolding convert_permissions
convert_permissions-shared p = Backfills-of_copy _ (subscribe_of p) (subscribe-IsCopy p)
