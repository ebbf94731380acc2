-- ===== src/Debug/Discover/Collected.antt =====
-- The servers that the loop of `discoverPodURLs` collects from a list of pods.
use nats_operator_experiment.Common.{
  Str, codes, str_eq_iff, Bool, not, ◌||◌, ◌++◌, append-nil, true, false, Option, none, some, List,
  [], ◌∷◌, ◌≡◌, ◌≢◌, refl, arith, str_eq, str_eq_refl, is_some, Map, put, find, find-put,
  UniqueKeys, put-UniqueKeys, All, Mem, mem-cons_self, mem-cons_of_mem, Bool-cases, inl, inr,
  if◌then◌else◌,
}
use nats_operator_experiment.Common.Int.{ℤ, pos}
use nats_operator_experiment.Common.Decimal.{format_int}
use nats_operator_experiment.Controller.Client.{Pod}
use nats_operator_experiment.Debug.Discover.{port_or_default, pod_url, is_passed_over, collect_urls}

-- The pod runs and has an address.
abbrev pub IsReachable : Pod → Type 0
IsReachable pod = (pod.phase ≡ codes "Running") × (pod.pod_ip ≢ [])

-- an entry for one of the pods, which runs and has an address: its name and `http://<address>:<port>`
abbrev pub IsServer : ℤ → List Pod → Str × Str → Type 0
IsServer port pods (name, url) =
    (pod : Pod) × Mem pod pods
    × IsReachable pod
    × (name ≡ pod.name)
    × (url ≡ codes "http://" ++ (pod.pod_ip ++ (codes ":" ++ format_int port)))

-- the port of the monitoring endpoint: as the cluster says, and 8222 where it says nothing
abbrev pub IsPort : Option ℤ → ℤ → Type 0
IsPort none port = port ≡ pos 8222
IsPort (some p) port = port ≡ p

pub port_or_default-IsPort : (o : Option ℤ) → IsPort o (port_or_default o)
port_or_default-IsPort none = refl
port_or_default-IsPort (some p) = refl

reachable : (pod : Pod) → is_passed_over pod ≡ false → IsReachable pod
unfolding is_passed_over
reachable pod e = (
  (str_eq_iff pod.phase (codes "Running")).0 (ground arith),
  λ h. cc ((str_eq_iff pod.pod_ip []).1 h, last (str_eq pod.phase (codes "Running")) _ e),
)
  where
    last : (a b : Bool) → (not a || b) ≡ false → b ≡ false
    last true b h = h
    last false b h = cc h

not_passed_over : (pod : Pod) → IsReachable pod → is_passed_over pod ≡ false
unfolding is_passed_over
not_passed_over pod (runs, addressed) = elim (Bool-cases (str_eq pod.pod_ip [])) [
  | inl e ↦ absurd (addressed ((str_eq_iff pod.pod_ip []).0 e))
  | inr e ↦ rw ((str_eq_iff pod.phase (codes "Running")).1 runs, e) refl
]

pod_url_lem :
    (port : ℤ) (pod : Pod)
    → pod_url port pod ≡ codes "http://" ++ (pod.pod_ip ++ (codes ":" ++ format_int port))
pod_url_lem port pod = simp append-nil

put-All :
    (P : Str × Str → Type 0) (k v : Str) (m : Map Str) → P (k, v) → All P m → All P (put k v m)
unfolding put
put-All P k v [] p a = (p, tt)
put-All P k v ((j, w) ∷ m) p (q, a) = elim (Bool-cases (str_eq j k)) [
  | inl e ↦ rw e (p, a)
  | inr e ↦ rw e (q, put-All P k v m p a)
]

found-put :
    (k j v : Str) (m : Map Str) → is_some (find j m) ≡ true → is_some (find j (put k v m)) ≡ true
found-put k j v m h = rw (find-put k j v m) (ground arith)

found-put_self : (k v : Str) (m : Map Str) → is_some (find k (put k v m)) ≡ true
found-put_self k v m = rw (find-put k k v m, str_eq_refl k) refl

-- every running pod of the list has its entry
abbrev pub AllServers : List Pod → Map Str → Type 0
AllServers pods urls = All (λ pod. IsReachable pod → is_some (find pod.name urls) ≡ true) pods

collect_urls-found :
    (port : ℤ) (pods : List Pod) (urls : Map Str) (j : Str)
    → is_some (find j urls) ≡ true
    → is_some (find j (collect_urls port pods urls)) ≡ true
unfolding collect_urls
collect_urls-found port [] urls j h = h
collect_urls-found port (pod ∷ rest) urls j h = elim (Bool-cases (is_passed_over pod)) [
  | inl e ↦ rw e (collect_urls-found port rest urls j h)
  | inr e ↦ rw e (
      collect_urls-found port rest (put pod.name (pod_url port pod) urls) j
        (found-put pod.name j (pod_url port pod) urls h))
]

pub collect_urls-AllServers :
    (port : ℤ) (pods : List Pod) (urls : Map Str) → AllServers pods (collect_urls port pods urls)
unfolding collect_urls
collect_urls-AllServers port [] urls = tt
collect_urls-AllServers port (pod ∷ rest) urls = (
  λ h. rw (not_passed_over pod h) (
      collect_urls-found port rest (put pod.name (pod_url port pod) urls) pod.name
        (found-put_self pod.name (pod_url port pod) urls)),
  collect_urls-AllServers port rest
      (if is_passed_over pod then urls else put pod.name (pod_url port pod) urls),
)

pub collect_urls-IsServer :
    (port : ℤ) (all pods : List Pod) (urls : Map Str)
    → ((pod : Pod) → Mem pod pods → Mem pod all)
    → All (IsServer port all) urls
    → All (IsServer port all) (collect_urls port pods urls)
unfolding collect_urls
collect_urls-IsServer port all [] urls sub a = a
collect_urls-IsServer port all (pod ∷ rest) urls sub a = elim (Bool-cases (is_passed_over pod)) [
  | inl e ↦ rw e (collect_urls-IsServer port all rest urls (λ q m. sub q (mem-cons_of_mem pod m)) a)
  | inr e ↦ rw e (
      collect_urls-IsServer port all rest (put pod.name (pod_url port pod) urls)
        (λ q m. sub q (mem-cons_of_mem pod m))
        (put-All (IsServer port all) pod.name (pod_url port pod) urls
          (pod, sub pod mem-cons_self, reachable pod e, refl, pod_url_lem port pod) a))
]

pub collect_urls-UniqueKeys :
    (port : ℤ) (pods : List Pod) (urls : Map Str)
    → UniqueKeys urls
    → UniqueKeys (collect_urls port pods urls)
unfolding collect_urls
collect_urls-UniqueKeys port [] urls u = u
collect_urls-UniqueKeys port (pod ∷ rest) urls u = elim (Bool-cases (is_passed_over pod)) [
  | inl e ↦ rw e (collect_urls-UniqueKeys port rest urls u)
  | inr e ↦ rw e (
      collect_urls-UniqueKeys port rest (put pod.name (pod_url port pod) urls)
        (put-UniqueKeys pod.name (pod_url port pod) urls u))
]
