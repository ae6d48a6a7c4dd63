-- ===== src/GameServer/Process/Runs.antt =====
-- A short life of the process of src/server/game_server.cpp.
use cpptcpmultiplayer.Prelude.{
  ℕ, ◌+◌, ◌≡◌, refl, true, false, none, List, [], ◌∷◌, ◌++◌, arith, All,
}
use cpptcpmultiplayer.Prelude.Maps.{find, contains, insert, values, Distinct}
use cpptcpmultiplayer.Prelude.Text.{codes}
use cpptcpmultiplayer.Packet.{make_packet}
use cpptcpmultiplayer.Packet.MessageType
use cpptcpmultiplayer.ConnectionManager.{
  get_connection, add_connection, get_all_connections, set_status, update,
}
use cpptcpmultiplayer.GameState.{has_player}
use cpptcpmultiplayer.GameState.Sample
use cpptcpmultiplayer.GameState.Round.{Random, InRange}
use cpptcpmultiplayer.GameState.Invariant.{IsValid}
use cpptcpmultiplayer.Server.Lifecycle.{accept_client}
use cpptcpmultiplayer.Server.{Server}
use cpptcpmultiplayer.Server.Kept.{IsServed}
use cpptcpmultiplayer.GameServer.Handlers.Tables.{handle_packet-keeps}
use cpptcpmultiplayer.Server.Sample.{reliable}
use cpptcpmultiplayer.GameServer.{World}
use cpptcpmultiplayer.GameServer.Session.{deliver}
use cpptcpmultiplayer.Server.Lifecycle.Fresh.{sockets_onto, listening_onto}
use cpptcpmultiplayer.GameServer.Session.Ends.{is_closed}
use cpptcpmultiplayer.GameServer.Process.{Deed, hears_at, hands_on, has_ended, stop}
use cpptcpmultiplayer.GameServer.Process.Stop.{ended_sockets, stop_lem}
use cpptcpmultiplayer.GameServer.Process.Life.{
  first_world, has_thread, delivers, Life, opens, accepts, goes_on,
}
use cpptcpmultiplayer.GameServer.Process.Life.Fresh.{Life-new_id}

abbrev dice : ℕ → Random
dice i = Sample.lowest

dice-InRange : (i : ℕ) → InRange (dice i)
dice-InRange i = Sample.lowest-InRange

-- A client is accepted and joins, and a second one is accepted.
abbrev one : World
one = record (first_world 3) { server = accept_client 101 0 7 (first_world 3).server }

abbrev joined : World
joined = deliver reliable dice 1 101 (make_packet MessageType.player_join (codes "A")) one

one_thread : has_thread 1 one.server.client_threads ≡ true
unfolding has_thread accept_client add_connection contains insert
one_thread = refl

one_runs : one.server.running ≡ true
unfolding accept_client add_connection contains
one_runs = refl

runs-IsServed : IsServed (λ (s : Server). s.running ≡ true)
runs-IsServed = record { logged = λ log s h. h; left = λ id socket s h. h }

still_runs : joined.server.running ≡ true
still_runs =
    handle_packet-keeps (λ (s : Server). s.running ≡ true) runs-IsServed reliable dice
      (make_packet MessageType.player_join (codes "A")) 1 _ one_runs

abbrev two : World
two = record joined { server = accept_client 102 0 9 joined.server }

two-Life : Life reliable dice (0 + 1 + 1) two
two-Life =
    accepts 102 0 9
      (goes_on (accepts 101 0 7 (opens 3) refl)
        (delivers 1 101 (make_packet MessageType.player_join (codes "A")) one_thread))
      still_runs

Life-new_id_example :
    IsValid two.game
    × Distinct two.server.connections
    × (two.server.next_client_id ≡ 0 + 1 + 1 + 1)
    × (get_connection two.server.next_client_id two.server.connections ≡ none)
    × (has_player two.server.next_client_id two.game ≡ false)
Life-new_id_example = Life-new_id reliable dice dice-InRange two-Life (omega arith)

-- While the server waits for its one thread, that hears bytes, hands on a packet, and ends.
abbrev last_deeds : List Deed
last_deeds =
    hears_at 1 101 9
    ∷ hands_on 1 101 (make_packet MessageType.player_join (codes "B"))
    ∷ has_ended 1 101
    ∷ []

-- The socket of the listening server, and the socket that was accepted.
abbrev first_closed : List ℕ
first_closed = 101 ∷ 3 ∷ []

one-closes :
    sockets_onto (get_all_connections one.server.connections) (listening_onto one.server)
    ≡ first_closed
unfolding sockets_onto get_all_connections accept_client add_connection contains insert set_status
    update find values
one-closes = refl

one-ended : ended_sockets last_deeds ≡ 101 ∷ []
unfolding ended_sockets
one-ended = refl

stop_lem_example :
    let t = stop reliable dice last_deeds one in
    (t.server.running ≡ false)
    × (t.server.server_socket ≡ none)
    × (t.server.connections ≡ [])
    × (t.server.client_threads ≡ [])
    × ((l : List ℕ) × (t.server.closed
          ≡ l
            ++ sockets_onto
                (get_all_connections one.server.connections)
                (listening_onto one.server))
        × All (λ socket. is_closed socket l ≡ true) (ended_sockets last_deeds))
    × (stop reliable dice [] t ≡ t)
stop_lem_example = stop_lem reliable dice last_deeds [] one one_runs
