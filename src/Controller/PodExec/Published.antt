-- ===== src/Controller/PodExec/Published.antt =====
-- What a pod that shows the file of the operator is told to be.
use nats_operator_experiment.Common.{
  Str, codes, Bool, true, Option, some, [], ◌∷◌, ◌++◌, ◌≡◌, ◌≢◌, ◌↔◌, refl, subst, find, str_eq,
}
use nats_operator_experiment.Common.Exec.{ok}
use nats_operator_experiment.Controller.HashHeader.{shows_hash, format_hash_header}
use nats_operator_experiment.Controller.HashHeader.RoundTrip.{IsSolid, shows_hash_iff}
use nats_operator_experiment.Controller.Reconcile.{config_map_data}
use nats_operator_experiment.Controller.PodExec.{
  auth_conf_path, Streamed, Spdy, exec_in_pod, is_config_current,
}

module _ {W : Type 0} (spdy : Spdy W) where
  -- what `cat` of the mounted file printed in the pod
  abbrev pub Printed : Str → Str → Streamed → W → W → Type 0
  Printed namespace pod_name s w w' =
      exec_in_pod spdy namespace pod_name (codes "cat" ∷ auth_conf_path ∷ []) w ≡ (ok s, w')

  is_config_current-Printed :
      (namespace pod_name expected_hash : Str) (w w' : W) (s : Streamed)
      → Printed namespace pod_name s w w'
      → is_config_current spdy namespace pod_name expected_hash w
        ≡ (ok (shows_hash s.stdout expected_hash), w')
  unfolding is_config_current
  is_config_current-Printed namespace pod_name expected_hash w w' s h = rw h refl

  some-eq : {a b : Str} → ◌≡◌ {A = Option Str} (some a) (some b) → a ≡ b
  some-eq h = cc h

  published_text :
      (text : Str) {shown : Str}
      → find (codes "auth.conf") (config_map_data text) ≡ some shown
      → text ≡ shown
  unfolding find str_eq
  published_text text h = some-eq h

  -- If a pod prints the file that the operator has put into the ConfigMap, the header of a hash (one
  -- or more characters, none of them white space) and a text behind it, then it is current exactly if
  -- the hash is the expected one, even if the stream has ended with an error.
  pub is_config_current-published :
      (namespace pod_name hash body expected_hash : Str) (w w' : W) (s : Streamed)
      → hash ≢ []
      → IsSolid hash
      → find (codes "auth.conf") (config_map_data (format_hash_header hash ++ body)) ≡ some s.stdout
      → Printed namespace pod_name s w w'
      → (b : Bool) × (is_config_current spdy namespace pod_name expected_hash w ≡ (ok b, w'))
        × ((b ≡ true) ↔ (hash ≡ expected_hash))
  is_config_current-published namespace pod_name hash body expected_hash w w' s h solid shown
        printed =
      (
        shows_hash s.stdout expected_hash,
        is_config_current-Printed namespace pod_name expected_hash w w' s printed,
        subst (λ t. (shows_hash t expected_hash ≡ true) ↔ (hash ≡ expected_hash))
            (published_text (format_hash_header hash ++ body) shown)
            (shows_hash_iff hash body expected_hash h solid),
      )
