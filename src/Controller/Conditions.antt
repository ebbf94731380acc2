-- ===== src/Controller/Conditions.antt =====
-- `setClusterCondition`, `setAccountCondition`, `setUserCondition` and `buildDebugCommand` of
-- internal/controller/natscluster_controller.go. Each condition is set on the object that the caller
-- holds, so the object comes back; a failed update keeps it as it was set, and is `true` beside it.
use nats_operator_experiment.Common.{
  ℕ, Str, codes, newline, Bool, true, false, ◌&&◌, [], ◌∷◌, ◌++◌, str_eq, not, if◌then◌else◌,
}
use nats_operator_experiment.Common.Exec.{Result, ok, err, panic, Exec, pure, lift, ◌>>=◌, attempt}
use nats_operator_experiment.Api.Meta.{Condition}
use nats_operator_experiment.Api.User.{NatsUser}
use nats_operator_experiment.Api.Account.{NatsAccount}
use nats_operator_experiment.Api.Cluster.{NatsCluster, condition_ready}
use nats_operator_experiment.Controller.Client.{Client}

-- the operator's own identity, empty where it is not known
pub record Operator : Type 0 where
  pub namespace : Str
  pub deployment_name : Str

unfoldable pub build_debug_command : Operator → Str → Str
build_debug_command op bare_command =
    if not (str_eq op.deployment_name []) && not (str_eq op.namespace [])
    then codes "kubectl exec -it deploy/"
      ++ (op.deployment_name
          ++ (codes " -n "
              ++ (op.namespace ++ (codes " -- \\" ++ newline ∷ (codes "  " ++ bare_command)))))
    else bare_command

abbrev pub condition_true : Str
condition_true = codes "True"

abbrev pub condition_false : Str
condition_false = codes "False"

abbrev pub ready_condition : Str → Str → Str → ℕ → Condition
ready_condition status reason message generation = record {
  type = condition_ready;
  status = status;
  reason = reason;
  message = message;
  observed_generation = generation;
}

-- the object after an update, and whether the update failed
abbrev pub or_kept : {A W : Type 0} → A → Result A → Exec W (A × Bool)
or_kept a (ok b) = pure (b, false)
or_kept a (err e) = pure (a, true)
or_kept a panic = lift panic

module _ (c : Client) where
  open c use {World, set_status_condition}

  abbrev pub with_account_condition : NatsAccount → Condition → NatsAccount
  with_account_condition a cond = record a {
    status = record a.status { conditions = set_status_condition a.status.conditions cond };
  }

  abbrev pub with_user_condition : NatsUser → Condition → NatsUser
  with_user_condition u cond = record u {
    status = record u.status { conditions = set_status_condition u.status.conditions cond };
  }

  abbrev pub with_cluster_condition : NatsCluster → Condition → NatsCluster
  with_cluster_condition x cond = record x {
    status = record x.status { conditions = set_status_condition x.status.conditions cond };
  }

  unfoldable pub set_account_condition :
      NatsAccount → Str → Str → Str → Exec World (NatsAccount × Bool)
  set_account_condition account status reason message = do
    let changed =
        with_account_condition account (ready_condition status reason message account.generation)
    r ← attempt (c.update_account_status changed)
    or_kept changed r

  unfoldable pub set_user_condition : NatsUser → Str → Str → Str → Exec World (NatsUser × Bool)
  set_user_condition user status reason message = do
    let changed = with_user_condition user (ready_condition status reason message user.generation)
    r ← attempt (c.update_user_status changed)
    or_kept changed r

  unfoldable pub set_cluster_condition :
      NatsCluster → Str → Str → Str → Exec World (NatsCluster × Bool)
  set_cluster_condition cluster status reason message = do
    let changed =
        with_cluster_condition cluster (ready_condition status reason message cluster.generation)
    r ← attempt (c.update_cluster_status changed)
    or_kept changed r
