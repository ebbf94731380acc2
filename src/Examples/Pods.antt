-- ===== src/Examples/Pods.antt =====
-- The theorems about the calls into the pods, the operator's identity and the validate command, applied.
use nats_operator_experiment.Common.{
  ℕ, ◌+◌, Str, codes, Bool, true, some, [], ◌∷◌, ◌++◌, ◌≡◌, ◌↔◌, refl, arith, str_eq, find, ltb,
  if◌then◌else◌,
}
use nats_operator_experiment.Common.Exec.{plain, ok, pure, wrapped, wrap_result}
use nats_operator_experiment.Controller.HashHeader.{format_hash_header}
use nats_operator_experiment.Examples.Data.{pod}
use nats_operator_experiment.Controller.PodExec.{Spdy, is_config_current, exec_in_pod}
use nats_operator_experiment.Controller.PodExec.Published.{is_config_current-published}
use nats_operator_experiment.Controller.Reload.{PodRuntime, reload_each}
use nats_operator_experiment.Controller.Reload.Waiting.{IsClock}
use nats_operator_experiment.Controller.Reload.Shown.{ComesToShow}
use nats_operator_experiment.Controller.Reload.Synced.{AllShow, reload_each-AllShow}
use nats_operator_experiment.Controller.Identity.{
  OwnerReader, discover_operator_identity_from_env, discover_operator_identity,
  identify_replica_set, identify_deployment, first_owner,
}
use nats_operator_experiment.Controller.Identity.Owners.{
  IsOwner, discover_operator_identity_from_env-IsOwner,
}

-- the pod's file is that of a ConfigMap with a hash, and the stream ends with an error
abbrev printing : Spdy ℕ
printing = record {
  Clientset = Unit {0};
  Executor = Unit {0};
  new_for_config = ok tt;
  new_executor = λ c n p command. ok tt;
  stream = λ e w. (
    record {
      stdout = format_hash_header (codes "ab12") ++ codes "accounts {}";
      error = some (plain (codes "closed"));
    },
    w,
  );
}

is_config_current-published_example :
    (b : Bool) × (is_config_current printing (codes "apps") (codes "nats-0") (codes "ab12") 0
      ≡ (ok b, 0))
    × ((b ≡ true) ↔ (codes "ab12" ≡ codes "ab12"))
unfolding find str_eq exec_in_pod
is_config_current-published_example =
    is_config_current-published printing (codes "apps") (codes "nats-0") (codes "ab12")
      (codes "accounts {}") (codes "ab12") 0 0
      (record {
        stdout = format_hash_header (codes "ab12") ++ codes "accounts {}";
        error = some (plain (codes "closed"));
      })
      (cc) (refl, (refl, (refl, (refl, tt)))) refl refl

-- the pod shows the hash from the time 1000 on
abbrev late : PodRuntime ℕ
late = record {
  is_config_current = λ n p h t. (ok (ltb 999 t), t);
  reload_pod = λ n p. pure tt;
  now = λ t. (t, t);
  sleep = λ n t. (true, t + n);
  context_error = plain (codes "context done");
}

late-IsClock : IsClock late (λ t. t)
late-IsClock = record {
  check-le = λ n m h w. omega arith;
  now_after = λ w. omega arith;
  now_before = λ w. omega arith;
  sleep-le = λ n w h. omega arith;
}

late_pod-ComesToShow : ComesToShow late (codes "apps") (codes "nats-0") (codes "ab12") 5000 0 1000
late_pod-ComesToShow = ComesToShow.polled 0 0 0 500 1000 0 refl refl (omega arith) refl (
    ComesToShow.polled 500 500 500 1000 1000 500 refl refl (omega arith) refl
      (ComesToShow.shows 1000 1000 refl))

reload_each-AllShow_example :
    reload_each late (codes "apps") (codes "ab12") (pod ∷ pod ∷ []) true 0 ≡ (ok true, 1000)
unfolding str_eq
reload_each-AllShow_example =
    reload_each-AllShow late (codes "apps") (codes "ab12") (λ t. t) late-IsClock (pod ∷ pod ∷ []) 0
      1000
      (AllShow.shown pod (pod ∷ []) 0 1000 1000 1000 refl late_pod-ComesToShow refl (
        AllShow.shown pod [] 1000 1000 1000 1000 refl (ComesToShow.shows 1000 1000 refl) refl
          (AllShow.none_left 1000)))

abbrev owners : OwnerReader ℕ
owners = record {
  get_pod = λ k. pure (
      record { kind = codes "Node"; name = codes "n" }
      ∷ record { kind = codes "ReplicaSet"; name = codes "operator-1" }
      ∷ []);
  get_replica_set = λ k. pure (record { kind = codes "Deployment"; name = codes "operator" } ∷ []);
}

abbrev environment : Str → Str
environment name = if str_eq name (codes "POD_NAME") then codes "operator-1-x" else codes "ops"

discover_operator_identity_from_env-IsOwner_example :
    IsOwner owners
      (environment (codes "POD_NAME"))
      (environment (codes "POD_NAMESPACE"))
      (record { namespace = codes "ops"; deployment_name = codes "operator" })
unfolding discover_operator_identity_from_env discover_operator_identity identify_replica_set
    identify_deployment first_owner wrapped wrap_result str_eq
discover_operator_identity_from_env-IsOwner_example =
    discover_operator_identity_from_env-IsOwner owners environment 0 0
      (record { namespace = codes "ops"; deployment_name = codes "operator" }) refl
