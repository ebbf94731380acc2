-- ===== src/Controller/PodExec.antt =====
-- `SpdyPodReloader` of internal/controller/pod_reloader.go: what the reload of a pod does through an
-- exec into it. The REST client and the SPDY executor are the parameter `Spdy`; logging is left out.
pub mod Published
use nats_operator_experiment.Common.{Str, codes, Bool, Option, none, some, List, [], ◌∷◌, ◌++◌, ℕ}
use nats_operator_experiment.Common.Exec.{
  Error, Result, ok, err, panic, Exec, pure, raise, lift, ◌>>=◌,
}
use nats_operator_experiment.Controller.HashHeader.{shows_hash}
use nats_operator_experiment.Controller.Reload.{PodRuntime}

abbrev pub auth_conf_path : Str
auth_conf_path = codes "/etc/nats-config/auth/auth.conf"

-- what a stream ends with: the text on stdout, and the error if there was one
pub record Streamed : Type 0 where
  pub stdout : Str
  pub error : Option Error

pub record Spdy (W : Type 0) : Type 1 where
  pub Clientset : Type 0
  pub Executor : Type 0
  -- kubernetes.NewForConfig
  pub new_for_config : Result Clientset
  -- remotecommand.NewSPDYExecutor on the request: the namespace, the pod, the command
  pub new_executor : Clientset → Str → Str → List Str → Result Executor
  pub stream : Executor → W → Streamed × W

module _ {W : Type 0} (spdy : Spdy W) where
  open spdy use {new_for_config, new_executor, stream}

  -- `executor.StreamWithContext`, where the text that it printed is kept beside the error
  unfoldable pub exec_in_pod : Str → Str → List Str → Exec W Streamed
  exec_in_pod namespace pod_name command = do
    clientset ← lift new_for_config
    executor ← lift (new_executor clientset namespace pod_name command)
    (λ w. let (s, w') = stream executor w in (ok s, w'))

  abbrev stream_result : Option Error → Exec W (Unit {0})
  stream_result none = pure tt
  stream_result (some e) = raise e

  unfoldable pub reload_pod : Str → Str → Exec W (Unit {0})
  reload_pod namespace pod_name = do
    s ← exec_in_pod namespace pod_name (codes "kill" ∷ codes "-HUP" ∷ codes "1" ∷ [])
    stream_result s.error

  -- an error of the stream is only logged
  unfoldable pub is_config_current : Str → Str → Str → Exec W Bool
  is_config_current namespace pod_name expected_hash = do
    s ← exec_in_pod namespace pod_name (codes "cat" ∷ auth_conf_path ∷ [])
    pure (shows_hash s.stdout expected_hash)

  -- what the reconciler is given, with a clock
  abbrev pub spdy_runtime : (W → ℕ × W) → (ℕ → W → Bool × W) → Error → PodRuntime W
  spdy_runtime now sleep context_error = record {
    is_config_current = is_config_current;
    reload_pod = reload_pod;
    now = now;
    sleep = sleep;
    context_error = context_error;
  }
