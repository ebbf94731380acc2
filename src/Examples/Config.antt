-- ===== src/Examples/Config.antt =====
-- The theorems about the configuration, applied.
use nats_operator_experiment.Common.{
  Str, codes, none, some, List, [], ◌∷◌, ◌++◌, ◌≡◌, refl, All, Map, find, str_eq, UniqueKeys,
}
use mathlib.Core.List.Perm
use nats_operator_experiment.Common.Int.{pos}
use nats_operator_experiment.Api.Meta.{Quantity}
use nats_operator_experiment.Config.Types.{PermissionRuleConfig, AccountConfig, NatsConfig}
use nats_operator_experiment.Config.Permissions.{convert_permissions}
use nats_operator_experiment.Config.Permissions.Secure.{
  Extends, IsBackfilled, convert_permissions-isolated, convert_permissions-publish,
}
use nats_operator_experiment.Config.Convert.{
  AccountWithUsers, convert_account, convert_to_nats_config,
}
use nats_operator_experiment.Config.Convert.SystemAccount.{
  IsDesignated, convert-IsDesignated, system_account-eq_of_perm,
}
use nats_operator_experiment.Config.Convert.Accounts.{
  IsClosedUser, converted, last_named, find-convert, convert-IsClosed,
}
use nats_operator_experiment.Config.Generate.{generate}
use nats_operator_experiment.Config.Document.{render, document}
use nats_operator_experiment.Config.Rendering.{generate-render}
use nats_operator_experiment.Config.Deterministic.{generate-eq_of_perm}
use nats_operator_experiment.Examples.Data.{narrow, permissions, account, account_with_users}

abbrev quantity : Quantity
quantity = record { value = pos 3221225472 }

convert_permissions-isolated_example :
    (r : PermissionRuleConfig) × ((convert_permissions (some permissions) (codes "_I_A")).subscribe
      ≡ some r)
    × Extends r.deny (codes "_INBOX.>") (codes "audit.>" ∷ [])
    × Extends r.allow (codes "_I_A" ++ codes ".>") (codes "orders.>" ∷ [])
convert_permissions-isolated_example =
    convert_permissions-isolated (some permissions) (codes "_I_A") (cc)

convert_permissions-publish_example :
    (r : PermissionRuleConfig) × ((convert_permissions (some permissions) (codes "_I_A")).publish
      ≡ some r)
    × IsBackfilled (codes "orders.>" ∷ [], []) r
convert_permissions-publish_example = convert_permissions-publish (some permissions) (codes "_I_A")

-- a second account that is flagged
abbrev second : AccountWithUsers
second = record account_with_users {
  account = record account { meta = record account.meta { name = codes "zeta" } };
}

abbrev both : List AccountWithUsers
both = account_with_users ∷ second ∷ []

abbrev reversed : List AccountWithUsers
reversed = second ∷ account_with_users ∷ []

convert-IsDesignated_example : IsDesignated both (convert_to_nats_config both)
convert-IsDesignated_example = convert-IsDesignated both

system_account-eq_of_perm_example :
    ((convert_to_nats_config both).system_account
      ≡ (convert_to_nats_config reversed).system_account)
    × ((convert_to_nats_config both).system_account_conflicts
        ≡ (convert_to_nats_config reversed).system_account_conflicts)
system_account-eq_of_perm_example =
    system_account-eq_of_perm both reversed (Perm.swap second account_with_users [])

find-convert_example :
    find (codes "zeta") (convert_to_nats_config both).accounts
    ≡ converted (last_named (codes "zeta") both) none
find-convert_example = find-convert (codes "zeta") both

found : find (codes "zeta") (convert_to_nats_config both).accounts ≡ some (convert_account second)
unfolding last_named str_eq
found = find-convert (codes "zeta") both

convert-IsClosed_example : All IsClosedUser (convert_account second).users
convert-IsClosed_example = convert-IsClosed (codes "zeta") both (convert_account second) found

generate-render_example :
    generate narrow (convert_to_nats_config both)
    ≡ render 0 (document narrow (convert_to_nats_config both))
generate-render_example = generate-render narrow (convert_to_nats_config both)

abbrev small : Str → Map AccountConfig
small name = (name, record { jet_stream = none; limits = none; users = [] }) ∷ []

abbrev in_order : NatsConfig
in_order = record {
  system_account = [];
  system_account_conflicts = [];
  accounts = small (codes "acme") ++ small (codes "zeta");
}

unique : UniqueKeys in_order.accounts
unfolding find str_eq
unique = (refl, (refl, tt))

generate-eq_of_perm_example :
    generate narrow in_order
    ≡ generate narrow (record in_order { accounts = small (codes "zeta") ++ small (codes "acme") })
generate-eq_of_perm_example =
    generate-eq_of_perm narrow in_order (small (codes "zeta") ++ small (codes "acme")) unique (
      Perm.swap (codes "zeta", record { jet_stream = none; limits = none; users = [] })
        (codes "acme", record { jet_stream = none; limits = none; users = [] }) [])
