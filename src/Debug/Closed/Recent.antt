-- ===== src/Debug/Closed/Recent.antt =====
-- Which closed connections `checkClosedConnections` shows.
use nats_operator_experiment.Common.{
  ◌≤◌, Option, none, some, List, [], ◌∷◌, ◌++◌, ◌≡◌, ◌≢◌, map, length,
}
use nats_operator_experiment.Common.Exec.{Error}
use nats_operator_experiment.Monitor.{ConnectionInfo, ServerConnections}
use nats_operator_experiment.Debug.Closed.{ClosedConnSummary, max_shown}

-- the list in the order of its shown part, the last first
abbrev pub backwards {ℓ} : {A : Type ℓ} → List A → List A
backwards [] = []
backwards (x ∷ xs) = backwards xs ++ x ∷ []

-- `shown` are the last of `all`, the last first: five of them, or all if there are fewer
pub record IsRecent (all shown : List ClosedConnSummary) : Type 0 where
  pub older : List ClosedConnSummary
  pub in_order : all ≡ older ++ backwards shown
  pub short : length shown ≤ max_shown
  pub full : older ≢ [] → length shown ≡ max_shown

abbrev answered_by : Option Error → List ConnectionInfo → List ConnectionInfo
answered_by (some e) connections = []
answered_by none connections = connections

-- the connections of the servers that answered, in order
abbrev pub answered : List ServerConnections → List ConnectionInfo
answered [] = []
answered (s ∷ rest) = answered_by s.error s.connections ++ answered rest

abbrev pub connections_of : List ClosedConnSummary → List ConnectionInfo
connections_of cs = map (λ (c : ClosedConnSummary). c.conn) cs
