-- ===== src/Server/Runs.antt =====
-- The sends of src/server/server.cpp at three connections, of which one is idle.
use cpptcpmultiplayer.Prelude.{
  ℕ, ◌<◌, ◌≡◌, refl, ◌⊎◌, true, not, List, [], ◌∷◌, ◌++◌, arith, ◌==◌, length,
}
use cpptcpmultiplayer.Prelude.Maps.{find, erase-Distinct}
use cpptcpmultiplayer.Prelude.Maps.Every.{Every-erase}
use cpptcpmultiplayer.ConnectionManager.{Connections, active, idle, remove_connection}
use cpptcpmultiplayer.Packet.{Packet, make_packet}
use cpptcpmultiplayer.Server.Lifecycle.{Accepted, no_client, client_came, listens, start}
use cpptcpmultiplayer.Server.Lifecycle.Start.{Admits, IsMild, start_lem}
use cpptcpmultiplayer.Server.{Server, new_server}
use cpptcpmultiplayer.Server.Lifecycle.Fresh.{HasFreshId}
use cpptcpmultiplayer.Server.{broadcast, broadcast_except}
use cpptcpmultiplayer.Server.Sample
use cpptcpmultiplayer.Server.Sends.{frames_for, broadcast_lem}

abbrev connected : Connections
connected = Sample.table active idle active

abbrev packet : Packet
packet = make_packet 17 (65 ∷ [])

broadcast_lem_example :
    (broadcast Sample.reliable packet (Sample.serving connected)
      ≡ record (Sample.serving connected) { log = [] ++ frames_for (λ _. true) packet connected })
    × (broadcast_except Sample.reliable 3 packet (Sample.serving connected)
        ≡ record (Sample.serving connected) {
          log = [] ++ frames_for (λ id. not (id == 3)) packet connected;
        })
broadcast_lem_example =
    broadcast_lem Sample.reliable (λ log socket bytes. refl) packet (Sample.serving connected) 3
      (unfold find in (refl, (refl, (refl, tt))))

-- Two sockets are sent to, and one when the last client is left out.
two_sent : length (frames_for (λ _. true) packet connected) ≡ 2
unfolding frames_for
two_sent = refl

one_sent : length (frames_for (λ id. not (id == 3)) packet connected) ≡ 1
unfolding frames_for
one_sent = refl

-- The end of the thread of a client takes the client out of the table.
abbrev gone : ℕ → Server → Server
gone id s = record s { connections = (remove_connection id s.connections).0 }

gone-IsMild : (id : ℕ) → IsMild (gone id)
unfolding remove_connection
gone-IsMild id = record {
  keeps_fresh = λ s f. record {
    ids_distinct = erase-Distinct id s.connections f.ids_distinct;
    ids_below = Every-erase (λ k _. k < s.next_client_id) id s.connections f.ids_below;
  };
  keeps_next = λ s. refl;
}

-- A server that does not run yet, and two clients, between which one `accept` fails and the first one goes.
abbrev arrivals : List Accepted
arrivals = client_came (gone 9) 101 0 8 ∷ no_client (gone 1) ∷ client_came (gone 9) 102 0 9 ∷ []

new_server-HasFreshId : HasFreshId new_server
new_server-HasFreshId = record { ids_distinct = tt; ids_below = tt }

start_lem_example :
    let t = start (listens 3) arrivals new_server in
    Admits arrivals new_server t.0
    × ((t.1 ≡ true)
        ⊎ ((t.0.connections ≡ new_server.connections) × (t.0.running ≡ new_server.running)))
start_lem_example =
    start_lem (listens 3) arrivals new_server (gone-IsMild 9, (gone-IsMild 1, (gone-IsMild 9, tt)))
      new_server-HasFreshId (omega arith)
