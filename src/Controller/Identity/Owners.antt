-- ===== src/Controller/Identity/Owners.antt =====
-- Where the identity that the operator finds for itself comes from.
use nats_operator_experiment.Common.{
  Str, codes, str_eq, str_eq_iff, Bool, true, false, ◌||◌, Option, none, some, List, [], ◌∷◌, ◌≡◌,
  ◌≢◌, refl, sym, ap, ◌∙◌, subst, arith, if◌then◌else◌,
}
use nats_operator_experiment.Common.Exec.{
  ok, Exec, pure, ◌>>=◌, bind-ok, ok-injective, err-ne-ok, wrapped, wrapped-ok, Gave,
}
use nats_operator_experiment.Controller.Identity.{
  OwnerReference, OwnerReader, OperatorIdentity, first_owner, identify_deployment,
  identify_replica_set, discover_operator_identity, discover_operator_identity_from_env,
}

-- the name of the first of the owners that has the kind
pub data FirstOwner (kind : Str) : List OwnerReference → Str → Type 0 where
  here :
      (ref : OwnerReference) (rest : List OwnerReference)
      → ref.kind ≡ kind
      → FirstOwner kind (ref ∷ rest) ref.name
  later :
      (ref : OwnerReference) (rest : List OwnerReference) (name : Str)
      → ref.kind ≢ kind
      → FirstOwner kind rest name
      → FirstOwner kind (ref ∷ rest) name

differs : (a b : Str) → str_eq a b ≡ false → a ≢ b
differs a b h e = ground (arith, str_eq_iff a b)

first_owner-FirstOwner :
    (kind : Str) (owners : List OwnerReference) (name : Str)
    → first_owner kind owners ≡ name
    → name ≢ []
    → FirstOwner kind owners name
unfolding first_owner
first_owner-FirstOwner kind [] name e h = absurd (h (sym e))
first_owner-FirstOwner kind (ref ∷ rest) name e h =
    split (str_eq ref.kind kind) refl e (λ e'. first_owner-FirstOwner kind rest name e' h)
  where
    split :
        (b : Bool)
        → str_eq ref.kind kind ≡ b
        → (if b then ref.name else first_owner kind rest) ≡ name
        → (first_owner kind rest ≡ name → FirstOwner kind rest name)
        → FirstOwner kind (ref ∷ rest) name
    split true k e' again =
        subst (FirstOwner kind (ref ∷ rest)) e' (here ref rest ((str_eq_iff ref.kind kind).0 k))
    split false k e' again = later ref rest name (differs ref.kind kind k) (again e')

module _ {W : Type 0} (reader : OwnerReader W) where
  -- the Deployment that owns the ReplicaSet that owns the pod, each as the first owner of its kind
  pub record IsOwner (pod_name pod_namespace : Str) (identity : OperatorIdentity) : Type 0 where
    pub pod_owners : List OwnerReference
    pub got_pod :
        Gave (reader.get_pod (record { name = pod_name; namespace = pod_namespace })) pod_owners
    pub rs_name : Str
    pub owns_pod : FirstOwner (codes "ReplicaSet") pod_owners rs_name
    pub rs_owners : List OwnerReference
    pub got_replica_set :
        Gave
          (reader.get_replica_set (record { name = rs_name; namespace = pod_namespace }))
          rs_owners
    pub owns_replica_set : FirstOwner (codes "Deployment") rs_owners identity.deployment_name
    pub is_named : identity.deployment_name ≢ []
    pub same_namespace : identity.namespace ≡ pod_namespace

  identify_deployment-ok :
      (ns rs name : Str) (w : W) {identity : OperatorIdentity} {w' : W}
      → identify_deployment reader ns rs name w ≡ (ok identity, w')
      → (name ≢ []) × (identity ≡ record { namespace = ns; deployment_name = name })
  unfolding identify_deployment
  identify_deployment-ok ns rs [] w h = absurd (err-ne-ok h)
  identify_deployment-ok ns rs (c ∷ name) w h = ((λ e. cc), sym (ok-injective h))

  identify_replica_set-IsOwner :
      (ns pod rs : Str) (owners : List OwnerReference) (w : W) {identity : OperatorIdentity}
      {w' : W}
      → Gave (reader.get_pod (record { name = pod; namespace = ns })) owners
      → first_owner (codes "ReplicaSet") owners ≡ rs
      → identify_replica_set reader ns pod rs w ≡ (ok identity, w')
      → IsOwner pod ns identity
  unfolding identify_replica_set
  identify_replica_set-IsOwner ns pod [] owners w got e h = absurd (err-ne-ok h)
  identify_replica_set-IsOwner ns pod (c ∷ rs) owners w {identity} got e h =
      let (rs_owners, v, h1, h2) = bind-ok (wrapped _ (reader.get_replica_set _)) _ w h in
      let (named, made) =
        identify_deployment-ok ns (c ∷ rs) (first_owner (codes "Deployment") rs_owners) v h2 in
      record {
        pod_owners = owners;
        got_pod = got;
        rs_name = c ∷ rs;
        owns_pod = first_owner-FirstOwner (codes "ReplicaSet") owners (c ∷ rs) e (λ n. cc);
        rs_owners = rs_owners;
        got_replica_set = (w, v, wrapped-ok _ (reader.get_replica_set _) h1);
        owns_replica_set =
            first_owner-FirstOwner (codes "Deployment") rs_owners identity.deployment_name
              (ap (λ (x : OperatorIdentity). x.deployment_name) (sym made))
              (λ n. named (ap (λ (x : OperatorIdentity). x.deployment_name) (sym made) ∙ n));
        is_named = λ n. named (ap (λ (x : OperatorIdentity). x.deployment_name) (sym made) ∙ n);
        same_namespace = ap (λ (x : OperatorIdentity). x.namespace) made;
      }

  discover-IsOwner :
      (pod ns : Str) (w : W) {identity : OperatorIdentity} {w' : W}
      → discover_operator_identity reader pod ns w ≡ (ok identity, w')
      → IsOwner pod ns identity
  unfolding discover_operator_identity
  discover-IsOwner pod ns w h =
      let (owners, v, h1, h2) = bind-ok (wrapped _ (reader.get_pod _)) _ w h in
      identify_replica_set-IsOwner ns pod (first_owner (codes "ReplicaSet") owners) owners v
        (w, v, wrapped-ok _ (reader.get_pod _) h1) refl h2

  none-ne-some : {x : OperatorIdentity} → ◌≡◌ {A = Option OperatorIdentity} none (some x) → ⊥
  none-ne-some h = cc

  some-eq : {x y : OperatorIdentity} → ◌≡◌ {A = Option OperatorIdentity} (some x) (some y) → x ≡ y
  some-eq h = cc h

  -- An identity that is found in the environment is that of a Deployment with a name, in the namespace
  -- of the pod: the first owner of that kind of the ReplicaSet which is the first owner of its kind of
  -- the pod that the environment names; both were read from the API server.
  pub discover_operator_identity_from_env-IsOwner :
      (getenv : Str → Str) (w w' : W) (identity : OperatorIdentity)
      → discover_operator_identity_from_env reader getenv w ≡ (ok (some identity), w')
      → IsOwner (getenv (codes "POD_NAME")) (getenv (codes "POD_NAMESPACE")) identity
  unfolding discover_operator_identity_from_env
  discover_operator_identity_from_env-IsOwner getenv w w' identity h =
      split (str_eq (getenv (codes "POD_NAME")) [] || str_eq (getenv (codes "POD_NAMESPACE")) []) h
    where
      found : Exec W (Option OperatorIdentity)
      found = do
        x ←
            discover_operator_identity reader (getenv (codes "POD_NAME"))
              (getenv (codes "POD_NAMESPACE"))
        pure (some x)

      split :
          (b : Bool)
          → (if b then pure none else found) w ≡ (ok (some identity), w')
          → IsOwner (getenv (codes "POD_NAME")) (getenv (codes "POD_NAMESPACE")) identity
      split true e = absurd (none-ne-some (ok-injective e))
      split false e =
          let (x, v, h1, h2) =
            bind-ok
              (discover_operator_identity reader (getenv (codes "POD_NAME"))
                (getenv (codes "POD_NAMESPACE")))
              _ w e in
          subst (IsOwner (getenv (codes "POD_NAME")) (getenv (codes "POD_NAMESPACE")))
            (some-eq (ok-injective h2))
            (discover-IsOwner (getenv (codes "POD_NAME")) (getenv (codes "POD_NAMESPACE")) w h1)
