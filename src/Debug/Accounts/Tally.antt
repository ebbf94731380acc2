-- ===== src/Debug/Accounts/Tally.antt =====
-- The connections of an account, counted by user.
use nats_operator_experiment.Common.{
  ℕ, suc, ◌+◌, Str, Bool, true, false, Option, none, some, List, [], ◌∷◌, ◌++◌, ◌≡◌, refl, sym, ap,
  ◌∙◌, arith, append_assoc, append-nil, str_eq, str_eq_iff, Map, put, find, find-put, UniqueKeys,
  put-UniqueKeys, length, length-append, Bool-cases, inl, inr, if◌then◌else◌,
}
use nats_operator_experiment.Common.Exec.{Error}
use nats_operator_experiment.Monitor.{ConnectionInfo, ServerConnections}
use nats_operator_experiment.Debug.Servers.{total_connections, counted}
use nats_operator_experiment.Debug.Accounts.{
  servers_at, add_connections, add_server, user_connections_of,
}

-- the name of the server, once for each connection of the user
abbrev pub named_for : Str → Str → List ConnectionInfo → List Str
named_for nkey server [] = []
named_for nkey server (c ∷ rest) =
    if str_eq c.nkey nkey then server ∷ named_for nkey server rest else named_for nkey server rest

abbrev named_by : Str → Str → Option Error → List ConnectionInfo → List Str
named_by nkey server (some e) cs = []
named_by nkey server none cs = named_for nkey server cs

-- the servers of the connections of a user, where the servers that failed count for none
abbrev pub servers_of_user : Str → List ServerConnections → List Str
servers_of_user nkey [] = []
servers_of_user nkey (s ∷ rest) =
    named_by nkey s.server_name s.error s.connections ++ servers_of_user nkey rest

-- all the names in the map
abbrev pub total_length : Map (List Str) → ℕ
total_length [] = 0
total_length ((k, names) ∷ m) = length names + total_length m

abbrev names_in : Option (List Str) → List Str
names_in o = elim o [ none ↦ [] | some servers ↦ servers ]

names_in-if :
    (b : Bool) (names : List Str) (o : Option (List Str))
    → names_in (if b then some names else o) ≡ (if b then names else names_in o)
names_in-if true names o = refl
names_in-if false names o = refl

servers_at-put :
    (k j : Str) (names : List Str) (m : Map (List Str))
    → servers_at j (put k names m) ≡ (if str_eq k j then names else servers_at j m)
servers_at-put k j names m =
    ap names_in (find-put k j names m) ∙ names_in-if (str_eq k j) names (find j m)

servers_at-here :
    (k j : Str) (names : List Str) (m : Map (List Str))
    → str_eq j k ≡ true
    → servers_at k ((j, names) ∷ m) ≡ names
unfolding find
servers_at-here k j names m e =
    names_in-if (str_eq j k) names (find k m) ∙ ap (λ b. if b then names else names_in (find k m)) e

servers_at-there :
    (k j : Str) (names : List Str) (m : Map (List Str))
    → str_eq j k ≡ false
    → servers_at k ((j, names) ∷ m) ≡ servers_at k m
unfolding find
servers_at-there k j names m e =
    names_in-if (str_eq j k) names (find k m) ∙ ap (λ b. if b then names else names_in (find k m)) e

total_length-put :
    (k name : Str) (names : List Str) (m : Map (List Str))
    → names ≡ servers_at k m
    → total_length (put k (names ++ name ∷ []) m) ≡ suc (total_length m)
unfolding put
total_length-put k name names [] h = rw h (unfold find in omega arith)
total_length-put k name names ((j, others) ∷ m) h = elim (Bool-cases (str_eq j k)) [
  | inl e ↦
      rw (e, h ∙ servers_at-here k j others m e) (omega (arith, length-append others (name ∷ [])))
  | inr e ↦
      rw e (omega (arith, total_length-put k name names m (h ∙ servers_at-there k j others m e)))
]

add_connections-length :
    (server : Str) (cs : List ConnectionInfo) (m : Map (List Str))
    → total_length (add_connections server cs m) ≡ length cs + total_length m
unfolding add_connections
add_connections-length server [] m = omega arith
add_connections-length server (c ∷ cs) m = omega (
  arith,
  add_connections-length server cs (put c.nkey (servers_at c.nkey m ++ server ∷ []) m),
  total_length-put c.nkey server (servers_at c.nkey m) m refl,
)

add_connections-servers :
    (nkey server : Str) (cs : List ConnectionInfo) (m : Map (List Str))
    → servers_at nkey (add_connections server cs m) ≡ servers_at nkey m ++ named_for nkey server cs
unfolding add_connections
add_connections-servers nkey server [] m = sym (append-nil (servers_at nkey m))
add_connections-servers nkey server (c ∷ cs) m =
    add_connections-servers nkey server cs (put c.nkey (servers_at c.nkey m ++ server ∷ []) m)
    ∙ (elim (Bool-cases (str_eq c.nkey nkey)) [
      | inl e ↦
          rw
            (
              servers_at-put c.nkey nkey (servers_at c.nkey m ++ server ∷ []) m,
              e,
              (str_eq_iff c.nkey nkey).0 e,
            )
            (append_assoc (servers_at nkey m) (server ∷ []) (named_for nkey server cs))
      | inr e ↦ rw (servers_at-put c.nkey nkey (servers_at c.nkey m ++ server ∷ []) m, e) refl
    ])

add_connections-UniqueKeys :
    (server : Str) (cs : List ConnectionInfo) (m : Map (List Str))
    → UniqueKeys m
    → UniqueKeys (add_connections server cs m)
unfolding add_connections
add_connections-UniqueKeys server [] m u = u
add_connections-UniqueKeys server (c ∷ cs) m u =
    add_connections-UniqueKeys server cs _
      (put-UniqueKeys c.nkey (servers_at c.nkey m ++ server ∷ []) m u)

add_server-total :
    (server : Str) (e : Option Error) (cs : List ConnectionInfo) (m : Map (List Str))
    → total_length (add_server server e cs m) ≡ counted e (length cs) + total_length m
unfolding add_server
add_server-total server none cs m = add_connections-length server cs m
add_server-total server (some e) cs m = omega arith

add_server-servers :
    (nkey server : Str) (e : Option Error) (cs : List ConnectionInfo) (m : Map (List Str))
    → servers_at nkey (add_server server e cs m) ≡ servers_at nkey m ++ named_by nkey server e cs
unfolding add_server
add_server-servers nkey server none cs m = add_connections-servers nkey server cs m
add_server-servers nkey server (some e) cs m = sym (append-nil (servers_at nkey m))

add_server-UniqueKeys :
    (server : Str) (e : Option Error) (cs : List ConnectionInfo) (m : Map (List Str))
    → UniqueKeys m
    → UniqueKeys (add_server server e cs m)
unfolding add_server
add_server-UniqueKeys server none cs m u = add_connections-UniqueKeys server cs m u
add_server-UniqueKeys server (some e) cs m u = u

user_connections_of-total :
    (servers : List ServerConnections) (m : Map (List Str))
    → total_length (user_connections_of servers m) ≡ total_connections servers + total_length m
unfolding user_connections_of total_connections
user_connections_of-total [] m = omega arith
user_connections_of-total (s ∷ rest) m = omega (
  arith,
  user_connections_of-total rest (add_server s.server_name s.error s.connections m),
  add_server-total s.server_name s.error s.connections m,
)

user_connections_of-servers :
    (nkey : Str) (servers : List ServerConnections) (m : Map (List Str))
    → servers_at nkey (user_connections_of servers m)
      ≡ servers_at nkey m ++ servers_of_user nkey servers
unfolding user_connections_of
user_connections_of-servers nkey [] m = sym (append-nil (servers_at nkey m))
user_connections_of-servers nkey (s ∷ rest) m =
    user_connections_of-servers nkey rest (add_server s.server_name s.error s.connections m)
    ∙ ap (λ t. t ++ servers_of_user nkey rest)
        (add_server-servers nkey s.server_name s.error s.connections m)
    ∙ append_assoc (servers_at nkey m) (named_by nkey s.server_name s.error s.connections)
        (servers_of_user nkey rest)

user_connections_of-UniqueKeys :
    (servers : List ServerConnections) (m : Map (List Str))
    → UniqueKeys m
    → UniqueKeys (user_connections_of servers m)
unfolding user_connections_of
user_connections_of-UniqueKeys [] m u = u
user_connections_of-UniqueKeys (s ∷ rest) m u =
    user_connections_of-UniqueKeys rest _
      (add_server-UniqueKeys s.server_name s.error s.connections m u)

-- The map of the users lists, under each key, the server of every connection of that key in order; it
-- has each key once, and its lists hold as many names as there are connections, of the servers that
-- answered: the lines on the users add up to the number in the heading.
pub user_connections_of-Tally :
    (servers : List ServerConnections)
    → (total_length (user_connections_of servers []) ≡ total_connections servers)
      × UniqueKeys (user_connections_of servers [])
      × ((nkey : Str)
          → servers_at nkey (user_connections_of servers []) ≡ servers_of_user nkey servers)
user_connections_of-Tally servers = (
  omega (arith, user_connections_of-total servers []),
  user_connections_of-UniqueKeys servers [] tt,
  λ nkey. unfold find in user_connections_of-servers nkey servers [],
)
