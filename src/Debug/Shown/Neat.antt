-- ===== src/Debug/Shown/Neat.antt =====
-- The document of a user has a brace only where a block opens or closes.
use nats_operator_experiment.Common.{
  ℕ, Str, codes, Bool, true, false, Option, none, some, List, [], ◌∷◌, ◌++◌, refl, All,
  if◌then◌else◌,
}
use nats_operator_experiment.Common.Int.{ℤ}
use nats_operator_experiment.Config.Quote.{quote}
use nats_operator_experiment.Config.Types.{
  UserConfig, PermissionsConfig, PermissionRuleConfig, ResponsePermissionConfig,
}
use nats_operator_experiment.Config.UserWriter.{quote_strings}
use nats_operator_experiment.Config.Document.{
  Doc, optional, subjects_document, rule_document, ttl_document, structured_document,
  responses_document, enabled_document, permissions_document, user_document, each_user_document,
}
use nats_operator_experiment.Debug.Shown.{count}
use nats_operator_experiment.Debug.Shown.Lines.{
  IsPlain, IsPlain-append, IsOpener, IsNeat, IsNeat-join,
}
use nats_operator_experiment.Debug.Shown.Labels.{
  plain, comma-IsPlain, bracket-IsPlain, allow-IsPlain, deny-IsPlain, max-IsPlain, ttl-IsPlain,
  nkey-IsPlain, responses-IsPlain, publish-IsOpener, subscribe-IsOpener, responses-IsOpener,
  permissions-IsOpener, brace-IsOpener, brace-IsCloser, int_field-IsNeat,
}

IsNeat-if : (b : Bool) (d : Doc) → IsNeat d → IsNeat (if b then d else Doc.end)
IsNeat-if true d h = h
IsNeat-if false d h = tt

module _ (wide : ℕ → Bool) where
  -- each text, as it is quoted, has no brace and no newline
  abbrev pub ArePlain : List Str → Type 0
  ArePlain ss = All (λ s. IsPlain (quote wide s)) ss

  abbrev pub IsPlainRule : Option PermissionRuleConfig → Type 0
  IsPlainRule none = Unit
  IsPlainRule (some rule) = ArePlain rule.allow × ArePlain rule.deny

  abbrev IsPlainTtl : Option Str → Type 0
  IsPlainTtl none = Unit
  IsPlainTtl (some ttl) = IsPlain (quote wide ttl)

  abbrev pub IsPlainResponses : Option ResponsePermissionConfig → Type 0
  IsPlainResponses none = Unit
  IsPlainResponses (some ar) = IsPlainTtl ar.ttl

  -- the texts that the user's block quotes, and the key, have no brace and no newline
  abbrev pub IsPlainPermissions : Option PermissionsConfig → Type 0
  IsPlainPermissions none = Unit
  IsPlainPermissions (some perms) =
      IsPlainRule perms.publish
      × IsPlainRule perms.subscribe
      × IsPlainResponses perms.allow_responses

  quote_strings-IsPlain : (ss : List Str) → ArePlain ss → IsPlain (quote_strings wide ss)
  unfolding quote_strings
  quote_strings-IsPlain [] a = unfold count in plain [] refl refl refl
  quote_strings-IsPlain (s ∷ []) (p, a) = p
  quote_strings-IsPlain (s ∷ t ∷ ss) (p, a) =
      IsPlain-append (quote wide s) (codes ", " ++ quote_strings wide (t ∷ ss)) p (
        IsPlain-append (codes ", ") (quote_strings wide (t ∷ ss)) comma-IsPlain
          (quote_strings-IsPlain (t ∷ ss) a))

  subjects-IsNeat :
      (label : Str) (ss : List Str)
      → IsPlain label
      → ArePlain ss
      → IsNeat (subjects_document wide label ss)
  unfolding subjects_document
  subjects-IsNeat label [] p a = tt
  subjects-IsNeat label (s ∷ ss) p a = (
    IsPlain-append label (quote_strings wide (s ∷ ss) ++ codes "]") p (
        IsPlain-append (quote_strings wide (s ∷ ss)) (codes "]") (quote_strings-IsPlain (s ∷ ss) a)
          bracket-IsPlain),
    tt,
  )

  rule-IsNeat :
      (name : Str) (o : Option PermissionRuleConfig)
      → IsOpener (name ++ codes " {")
      → IsPlainRule o
      → IsNeat (optional (rule_document wide name) o)
  unfolding optional rule_document
  rule-IsNeat name none p a = tt
  rule-IsNeat name (some rule) p (a, d) = (
    p,
    brace-IsCloser,
    IsNeat-join _ _ (subjects-IsNeat (codes "allow: [") rule.allow allow-IsPlain a)
        (subjects-IsNeat (codes "deny: [") rule.deny deny-IsPlain d),
    tt,
  )

  ttl-IsNeat : (o : Option Str) → IsPlainTtl o → IsNeat (optional (ttl_document wide) o)
  unfolding optional ttl_document
  ttl-IsNeat none a = tt
  ttl-IsNeat (some ttl) a = (IsPlain-append (codes "ttl: ") (quote wide ttl) ttl-IsPlain a, tt)

  structured-IsNeat :
      (ar : ResponsePermissionConfig) → IsPlainTtl ar.ttl → IsNeat (structured_document wide ar)
  unfolding structured_document
  structured-IsNeat ar a = (
    responses-IsOpener,
    brace-IsCloser,
    IsNeat-join _ _ (int_field-IsNeat (codes "max: ") ar.max_msgs max-IsPlain)
        (ttl-IsNeat ar.ttl a),
    tt,
  )

  responses-IsNeat :
      (ar : ResponsePermissionConfig) → IsPlainTtl ar.ttl → IsNeat (responses_document wide ar)
  unfolding responses_document
  responses-IsNeat ar a = written ar.max_msgs ar.ttl
    where
      written :
          (m : Option ℤ) (t : Option Str)
          → IsNeat (elim m as (λ k. Doc) [
            | some n ↦ structured_document wide ar
            | none ↦ elim t as (λ k. Doc) [
              | some x ↦ structured_document wide ar
              | none ↦ Doc.line (codes "allow_responses: true") Doc.end
            ]
          ])
      written (some n) t = structured-IsNeat ar a
      written none (some x) = structured-IsNeat ar a
      written none none = (responses-IsPlain, tt)

  enabled-IsNeat :
      (o : Option ResponsePermissionConfig)
      → IsPlainResponses o
      → IsNeat (optional (enabled_document wide) o)
  unfolding optional enabled_document
  enabled-IsNeat none a = tt
  enabled-IsNeat (some ar) a =
      IsNeat-if ar.enabled (responses_document wide ar) (responses-IsNeat ar a)

  permissions-IsNeat :
      (o : Option PermissionsConfig)
      → IsPlainPermissions o
      → IsNeat (optional (permissions_document wide) o)
  permissions-IsNeat none a = unfold optional in tt
  permissions-IsNeat (some perms) (p, s, r) =
      unfold permissions_document optional in
      (
        permissions-IsOpener,
        brace-IsCloser,
        IsNeat-join _ _ (rule-IsNeat (codes "publish") perms.publish publish-IsOpener p) (
            IsNeat-join _ _ (rule-IsNeat (codes "subscribe") perms.subscribe subscribe-IsOpener s)
              (enabled-IsNeat perms.allow_responses r)),
        tt,
      )

  pub key_line-IsPlain :
      (user : UserConfig) → IsPlain user.nkey → IsPlain (codes "nkey: " ++ user.nkey)
  key_line-IsPlain user p = IsPlain-append (codes "nkey: ") user.nkey nkey-IsPlain p

  abbrev pub IsPlainUser : UserConfig → Type 0
  IsPlainUser user = IsPlain user.nkey × IsPlainPermissions user.permissions

  pub user-IsNeat : (user : UserConfig) → IsPlainUser user → IsNeat (user_document wide user)
  unfolding user_document
  user-IsNeat user (p, a) = (key_line-IsPlain user p, permissions-IsNeat user.permissions a)

  pub each_user-IsNeat :
      (users : List UserConfig) → All IsPlainUser users → IsNeat (each_user_document wide users)
  unfolding each_user_document
  each_user-IsNeat [] a = tt
  each_user-IsNeat (user ∷ rest) (p, a) =
      (brace-IsOpener, brace-IsCloser, user-IsNeat user p, each_user-IsNeat rest a)
