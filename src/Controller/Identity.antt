-- ===== src/Controller/Identity.antt =====
-- internal/controller/operator_identity.go, and the use that cmd/main.go makes of it.
pub mod Owners
use nats_operator_experiment.Common.{
  Str, codes, str_eq, Bool, true, false, ◌||◌, Option, none, some, List, [], ◌∷◌, ◌++◌,
  if◌then◌else◌,
}
use nats_operator_experiment.Common.Exec.{
  plain, Result, ok, err, panic, Exec, pure, raise, ◌>>=◌, wrapped,
}
use nats_operator_experiment.Controller.Client.{NamespacedName}
use nats_operator_experiment.Controller.Conditions.{Operator}

-- metav1.OwnerReference
pub record OwnerReference : Type 0 where
  pub kind : Str
  pub name : Str

-- the owner references of a pod and of a ReplicaSet, as `client.Reader` reads them
pub record OwnerReader (W : Type 0) : Type 0 where
  pub get_pod : NamespacedName → Exec W (List OwnerReference)
  pub get_replica_set : NamespacedName → Exec W (List OwnerReference)

pub record OperatorIdentity : Type 0 where
  pub namespace : Str
  pub deployment_name : Str

-- the loop that breaks at the first owner of the kind; empty if there is none
unfoldable pub first_owner : Str → List OwnerReference → Str
first_owner kind [] = []
first_owner kind (ref ∷ rest) = if str_eq ref.kind kind then ref.name else first_owner kind rest

module _ {W : Type 0} (reader : OwnerReader W) where
  -- after the ReplicaSet was read
  unfoldable pub identify_deployment : Str → Str → Str → Exec W OperatorIdentity
  identify_deployment pod_namespace rs_name [] = raise (
      plain (
        codes "ReplicaSet "
        ++ (pod_namespace ++ (codes "/" ++ (rs_name ++ codes " has no Deployment owner")))))
  identify_deployment pod_namespace rs_name (c ∷ name) =
      pure (record { namespace = pod_namespace; deployment_name = c ∷ name })

  -- after the pod was read
  unfoldable pub identify_replica_set : Str → Str → Str → Exec W OperatorIdentity
  identify_replica_set pod_namespace pod_name [] = raise (
      plain (
        codes "pod "
        ++ (pod_namespace ++ (codes "/" ++ (pod_name ++ codes " has no ReplicaSet owner")))))
  identify_replica_set pod_namespace pod_name (c ∷ rs_name) = do
    owners ←
        wrapped (codes "failed to get ReplicaSet " ++ (pod_namespace ++ (codes "/" ++ c ∷ rs_name)))
          (reader.get_replica_set (record { name = c ∷ rs_name; namespace = pod_namespace }))
    identify_deployment pod_namespace (c ∷ rs_name) (first_owner (codes "Deployment") owners)

  unfoldable pub discover_operator_identity : Str → Str → Exec W OperatorIdentity
  discover_operator_identity pod_name pod_namespace = do
    owners ←
        wrapped (codes "failed to get pod " ++ (pod_namespace ++ (codes "/" ++ pod_name)))
          (reader.get_pod (record { name = pod_name; namespace = pod_namespace }))
    identify_replica_set pod_namespace pod_name (first_owner (codes "ReplicaSet") owners)

  -- on the two variables of the environment; a nil identity is `none`
  unfoldable pub discover_operator_identity_from_env :
      (Str → Str) → Exec W (Option OperatorIdentity)
  discover_operator_identity_from_env getenv =
      let pod_name = getenv (codes "POD_NAME") in
      let pod_namespace = getenv (codes "POD_NAMESPACE") in
      if str_eq pod_name [] || str_eq pod_namespace []
      then pure none
      else (do identity ← discover_operator_identity pod_name pod_namespace; pure (some identity))

-- what cmd/main.go gives to the reconciler: nothing where the discovery failed or found nothing
unfoldable pub operator_of : Result (Option OperatorIdentity) → Operator
operator_of (ok (some identity)) = record {
  namespace = identity.namespace;
  deployment_name = identity.deployment_name;
}
operator_of (ok none) = record { namespace = []; deployment_name = [] }
operator_of (err e) = record { namespace = []; deployment_name = [] }
operator_of panic = record { namespace = []; deployment_name = [] }
