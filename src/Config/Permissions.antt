-- ===== src/Config/Permissions.antt =====
-- `convertPermissions` and its helpers, of internal/natsconfig/convert.go. The rules that the
-- function mutates are its own, so each mutation is a new value here.
pub mod Secure
use nats_operator_experiment.Common.{
  Str, codes, Bool, true, false, Option, none, some, List, [], ◌∷◌, ◌++◌, str_eq, if◌then◌else◌,
}
use nats_operator_experiment.Api.Responses.{AllowResponsesSpec, should_emit}
use nats_operator_experiment.Api.User.{Permissions, PermissionRule}
use nats_operator_experiment.Config.Types.{
  PermissionsConfig, PermissionRuleConfig, ResponsePermissionConfig,
}

unfoldable pub contains_string : List Str → Str → Bool
contains_string [] s = false
contains_string (v ∷ slice) s = if str_eq v s then true else contains_string slice s

abbrev pub inbox_deny : Str
inbox_deny = codes "_INBOX.>"

abbrev pub inbox_allow : Str → Str
inbox_allow prefix = prefix ++ codes ".>"

abbrev pub all_subjects : Str
all_subjects = codes ">"

abbrev pub empty_rule : PermissionRuleConfig
empty_rule = record { allow = []; deny = [] }

-- a nil pointer gets a fresh rule
abbrev pub rule_or_empty : Option PermissionRuleConfig → PermissionRuleConfig
rule_or_empty none = empty_rule
rule_or_empty (some r) = r

-- `if !containsString(xs, s) { xs = append(xs, s) }`
unfoldable pub append_missing : List Str → Str → List Str
append_missing xs s = if contains_string xs s then xs else xs ++ s ∷ []

unfoldable pub inject_inbox_prefix : Option PermissionRuleConfig → Str → PermissionRuleConfig
inject_inbox_prefix sub prefix =
    let r = rule_or_empty sub in
    record {
      allow = append_missing r.allow (inbox_allow prefix);
      deny = append_missing r.deny inbox_deny;
    }

-- the last two blocks of `convertPermissions`, one for each direction
unfoldable pub deny_by_default : Option PermissionRuleConfig → Option PermissionRuleConfig
deny_by_default none = some (record empty_rule { deny = append_missing [] all_subjects })
deny_by_default (some r) = elim r.allow [
  | [] ↦ some (record r { deny = append_missing r.deny all_subjects })
  | _ ∷ _ ↦ some r
]

abbrev pub convert_rule : PermissionRule → PermissionRuleConfig
convert_rule r = record { allow = r.allow; deny = r.deny }

unfoldable pub convert_responses : AllowResponsesSpec → ResponsePermissionConfig
convert_responses a = record { enabled = should_emit a; max_msgs = a.max_msgs; ttl = a.ttl }

abbrev pub map_option : {A B : Type 0} → (A → B) → Option A → Option B
map_option f none = none
map_option f (some a) = some (f a)

-- the first block: what the user wrote
unfoldable pub convert_explicit : Option Permissions → PermissionsConfig
convert_explicit none = record { publish = none; subscribe = none; allow_responses = none }
convert_explicit (some p) = record {
  publish = map_option convert_rule p.publish;
  subscribe = map_option convert_rule p.subscribe;
  allow_responses = map_option convert_responses p.allow_responses;
}

-- `if inboxPrefix != "" { … }`
unfoldable pub isolate_inbox : PermissionsConfig → Str → PermissionsConfig
isolate_inbox c [] = c
isolate_inbox c (x ∷ prefix) = record c {
  subscribe = some (inject_inbox_prefix c.subscribe (x ∷ prefix));
}

unfoldable pub convert_permissions : Option Permissions → Str → PermissionsConfig
unfolding convert_explicit isolate_inbox deny_by_default
convert_permissions p inbox_prefix =
    let c = isolate_inbox (convert_explicit p) inbox_prefix in
    record c { publish = deny_by_default c.publish; subscribe = deny_by_default c.subscribe }
