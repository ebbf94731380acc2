-- ===== src/Controller/Panics/Conditions.antt =====
-- Setting a condition does not panic.
use nats_operator_experiment.Common.{Str, ◌≢◌, refl}
use nats_operator_experiment.Common.Exec.{Result, ok, err, panic, Exec, ◌>>=◌, attempt}
use nats_operator_experiment.Common.Panics.{NoPanic, NoPanic-pure, NoPanic-attempt}
use nats_operator_experiment.Api.User.{NatsUser}
use nats_operator_experiment.Api.Account.{NatsAccount}
use nats_operator_experiment.Api.Cluster.{NatsCluster}
use nats_operator_experiment.Controller.Client.{Client}
use nats_operator_experiment.Controller.Conditions.{
  or_kept, set_account_condition, set_user_condition, set_cluster_condition,
}
use nats_operator_experiment.Controller.Panics.{IsCalmClient}

or_kept-NoPanic : {A W : Type 0} (a : A) (r : Result A) → r ≢ panic → NoPanic (or_kept {W = W} a r)
or_kept-NoPanic a (ok b) h = NoPanic-pure _
or_kept-NoPanic a (err e) h = NoPanic-pure _
or_kept-NoPanic a panic h = absurd (h refl)

updated-NoPanic :
    {A W : Type 0} (update : A → Exec W A) (a : A)
    → NoPanic (update a)
    → NoPanic (attempt (update a) >>= or_kept a)
updated-NoPanic update a h =
    NoPanic-attempt (update a) (or_kept a) h λ r w w' e k. or_kept-NoPanic a r k

module _ (c : Client) (calm : IsCalmClient c) where
  pub set_account_condition-NoPanic :
      (a : NatsAccount) (status reason text : Str)
      → NoPanic (set_account_condition c a status reason text)
  unfolding set_account_condition
  set_account_condition-NoPanic a status reason text =
      updated-NoPanic c.update_account_status _ (calm.update_account_status _)

  pub set_user_condition-NoPanic :
      (u : NatsUser) (status reason text : Str)
      → NoPanic (set_user_condition c u status reason text)
  unfolding set_user_condition
  set_user_condition-NoPanic u status reason text =
      updated-NoPanic c.update_user_status _ (calm.update_user_status _)

  pub set_cluster_condition-NoPanic :
      (x : NatsCluster) (status reason text : Str)
      → NoPanic (set_cluster_condition c x status reason text)
  unfolding set_cluster_condition
  set_cluster_condition-NoPanic x status reason text =
      updated-NoPanic c.update_cluster_status _ (calm.update_cluster_status _)
