-- ===== src/Monitor/Filters.antt =====
-- What the filters keep.
use nats_operator_experiment.Common.{
  Str, Bool, List, [], ◌∷◌, ◌++◌, Option, none, some, ◌≡◌, ◌⊎◌, inl, inr, refl, sym, ap, ◌∙◌,
  str_eq, select, select-append, select-nil, All,
}
use nats_operator_experiment.Common.{Map}
use nats_operator_experiment.Common.Int.{ℤ}
use nats_operator_experiment.Common.Exec.{
  Error, Result, ok, err, panic, Exec, Yields, Yields-pure, Yields-bind, Yields-attempt,
  Yields-panic,
}
use nats_operator_experiment.Monitor.{
  ConnectionInfo, ConnzResult, ServerConnections, narrow, keep_or_narrow, filter_servers,
  filter_by_nkey, filter_by_account, MonitorClient, server_entry, query_each, query_all_servers,
  query_all_servers_closed,
}

-- All connections of all servers, in order.
unfoldable pub all_connections : List ServerConnections → List ConnectionInfo
all_connections [] = []
all_connections (s ∷ rest) = s.connections ++ all_connections rest

-- As the queries build an entry: one with an error has no connections.
abbrev pub HasNoneOnError : ServerConnections → Type 0
HasNoneOnError s = (s.error ≡ none) ⊎ (s.connections ≡ [])

abbrev failed : ServerConnections → Option Error → List ServerConnections → List ServerConnections
failed s none later = later
failed s (some e) later = s ∷ later

-- The entries with an error.
unfoldable pub failures : List ServerConnections → List ServerConnections
failures [] = []
failures (s ∷ rest) = failed s s.error (failures rest)

narrow-connections :
    (s : ServerConnections) (matching : List ConnectionInfo) (later : List ServerConnections)
    → all_connections (narrow s matching later) ≡ matching ++ all_connections later
unfolding narrow all_connections
narrow-connections s [] later = refl
narrow-connections s (c ∷ matching) later = refl

narrow-failures :
    (s : ServerConnections) (matching : List ConnectionInfo) (later : List ServerConnections)
    → failures (narrow s matching later) ≡ failures later
unfolding narrow failures
narrow-failures s [] later = refl
narrow-failures s (c ∷ matching) later = refl

keep-connections :
    (p : ConnectionInfo → Bool) (s : ServerConnections) (error : Option Error)
    (later : List ServerConnections)
    → s.error ≡ error
    → HasNoneOnError s
    → all_connections (keep_or_narrow p s error later)
      ≡ select p s.connections ++ all_connections later
unfolding keep_or_narrow all_connections
keep-connections p s none later e h = narrow-connections s (select p s.connections) later
keep-connections p s (some x) later e (inl n) = cc (sym e ∙ n)
keep-connections p s (some x) later e (inr n) =
    ap (λ l. l ++ all_connections later) (n ∙ sym (select-nil p n))

keep-failures :
    (p : ConnectionInfo → Bool) (s : ServerConnections) (error : Option Error)
    (later : List ServerConnections)
    → s.error ≡ error
    → failures (keep_or_narrow p s error later) ≡ failed s error (failures later)
unfolding keep_or_narrow failures
keep-failures p s none later e = narrow-failures s (select p s.connections) later
keep-failures p s (some x) later e = ap (λ o. failed s o (failures later)) e

-- `kept` has of the connections of `servers` exactly those that match, and all the failed servers.
abbrev pub Narrows :
    (ConnectionInfo → Bool) → List ServerConnections → List ServerConnections → Type 0
Narrows p servers kept =
    (all_connections kept ≡ select p (all_connections servers)) × (failures kept ≡ failures servers)

filter_servers-Narrows :
    (p : ConnectionInfo → Bool) (servers : List ServerConnections)
    → All HasNoneOnError servers
    → Narrows p servers (filter_servers p servers)
unfolding filter_servers all_connections failures
filter_servers-Narrows p [] h = (sym (select-nil p refl), refl)
filter_servers-Narrows p (s ∷ servers) (h, hs) =
    let (conns, fails) = filter_servers-Narrows p servers hs in
    (
      keep-connections p s s.error (filter_servers p servers) refl h
          ∙ (ap (λ l. select p s.connections ++ l) conns
              ∙ sym (select-append p s.connections (all_connections servers))),
      keep-failures p s s.error (filter_servers p servers) refl ∙ ap (failed s s.error) fails,
    )

module _ {W : Type 0} where
  server_entry-HasNoneOnError :
      (name : Str) (r : Result ConnzResult) → Yields {W = W} HasNoneOnError (server_entry name r)
  unfolding server_entry
  server_entry-HasNoneOnError name (ok connz) = Yields-pure _ (inl refl)
  server_entry-HasNoneOnError name (err e) = Yields-pure _ (inr refl)
  server_entry-HasNoneOnError name panic = Yields-panic

  query_each-HasNoneOnError :
      (query : Str → Exec W ConnzResult) (urls : Map Str)
      → Yields (All HasNoneOnError) (query_each query urls)
  unfolding query_each
  query_each-HasNoneOnError query [] = Yields-pure _ tt
  query_each-HasNoneOnError query ((name, url) ∷ rest) = Yields-attempt (query url) _ λ r w w' e.
      Yields-bind (server_entry name r) _ (server_entry-HasNoneOnError name r) λ entry h.
        Yields-bind (query_each query rest) _ (query_each-HasNoneOnError query rest)
          λ entries hs. Yields-pure (entry ∷ entries) (h, hs)

  Yields-map {ℓ κ} :
      {A : Type ℓ} {P Q : A → Type κ} {m : Exec W A}
      → ((a : A) → P a → Q a)
      → Yields P m
      → Yields Q m
  Yields-map f y = record { at = λ w w' a e. f a (y.at w w' a e) }

  -- Whatever the servers answer, the filter by NKey keeps of what was queried exactly the connections
  -- of that key, in order, and every server that could not be queried.
  pub filter_by_nkey-Narrows :
      (client : MonitorClient W) (urls : Map Str) (nkey : Str)
      → Yields
          (λ servers. Narrows (λ c. str_eq c.nkey nkey) servers (filter_by_nkey servers nkey))
          (query_all_servers client urls)
  unfolding filter_by_nkey query_all_servers
  filter_by_nkey-Narrows client urls nkey =
      Yields-map (filter_servers-Narrows (λ c. str_eq c.nkey nkey))
        (query_each-HasNoneOnError client.get_connz urls)

  -- Whatever the servers answer, the filter by account keeps of the closed connections that were
  -- queried exactly those of that account, in order, and every server that could not be queried.
  filter_by_account-Narrows :
      (client : MonitorClient W) (urls : Map Str) (limit : ℤ) (account : Str)
      → Yields
          (λ servers.
            Narrows (λ c. str_eq c.account account) servers (filter_by_account servers account))
          (query_all_servers_closed client urls limit)
  unfolding filter_by_account query_all_servers_closed
  filter_by_account-Narrows client urls limit account =
      Yields-map (filter_servers-Narrows (λ c. str_eq c.account account))
        (query_each-HasNoneOnError (λ url. client.get_connz_closed url limit) urls)
