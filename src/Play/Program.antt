-- ===== src/Play/Program.antt =====
-- A whole run of src/client/game_client.cpp that the server tells of a game.
use cpptcpmultiplayer.Prelude.{
  ℕ, ◌+◌, ◌<◌, ◌≡◌, refl, true, false, some, List, [], ◌∷◌, ◌++◌, arith, length, All, ok,
}
use mathlib.Core.List.{flatten}
use cpptcpmultiplayer.Server.{Network}
use cpptcpmultiplayer.Server.Stream.Frames.{wires, IsMessage}
use cpptcpmultiplayer.GameState.{GameState}
use cpptcpmultiplayer.Client.{established, no_more}
use cpptcpmultiplayer.Client.Receive.{arrivals}
use cpptcpmultiplayer.Client.Thread.{receiving_thread_lem}
use cpptcpmultiplayer.GameClient.{GameClient, new_game_client}
use cpptcpmultiplayer.GameClient.Handlers.{handle_server_packet}
use cpptcpmultiplayer.GameClient.Typing.{handle_keys, join}
use cpptcpmultiplayer.GameClient.Program.{Event, received, print, goodbye, run}
use cpptcpmultiplayer.GameClient.Program.Threads.{Interleaving}
use cpptcpmultiplayer.GameClient.Program.Ends.{connected_client, join_sent, first_line, run_lem}
use cpptcpmultiplayer.Play.{Shows, Hears}
use cpptcpmultiplayer.Play.Thread.{made, receiving_thread-Shows}

-- Take a server that takes the connection and PLAYER_JOIN, and sends the bytes of packets, whose types are
-- not 0 and whose fields fit their header, after which a new client shows a game, in any pieces, some of
-- them before PLAYER_JOIN is sent, until it is gone. If the receiving thread has more rounds for each piece
-- than one plus the number of the packets, then in whatever order the keys and the other pieces come, the
-- program ends with exit code 0. The table then shows the game, and the line and the packets that were sent
-- are those of PLAYER_JOIN and the keys alone. The socket is still open.
pub run-Shows :
    (network : Network) (fuel socket : ℕ) {g : GameState} (address username : List ℕ)
    (ps : List (ℕ × List ℕ)) (early chunks : List (List ℕ)) {keys : List ℕ} {events : List Event}
    → All IsMessage ps
    → 1 + length ps < fuel
    → (join network username (connected_client socket [])).1 ≡ true
    → flatten (early ++ chunks) ≡ wires ps
    → Hears g (made ps) new_game_client
    → Interleaving keys chunks events
    → let typed =
        handle_keys network keys
          (first_line address username)
          (connected_client socket (join_sent socket username)) in
      (d : GameClient) × (run network fuel
          (address ∷ username ∷ [])
          (established socket)
          (arrivals early)
          (events ++ (received no_more ∷ []))
        ≡ ok (
          some 0,
          record {
            client = record {
              socket = some socket;
              connected = false;
              receiving = false;
              packet_buffer = [];
              log = typed.1.log;
              closed = [];
            };
            game = d;
            line = print goodbye typed.0;
          },
        ))
      × Shows g d
unfolding flatten
run-Shows network fuel socket address username ps early chunks m enough takes e hears mixed =
    let client = connected_client socket [] in
    let (d, whole, shows) =
      receiving_thread-Shows ps fuel (early ++ chunks) client new_game_client m (omega arith) refl
        refl e hears in
    let waits =
      receiving_thread_lem handle_server_packet [] fuel [] client new_game_client tt (omega arith)
        refl refl refl in
    (
      d,
      run_lem network fuel socket address username early chunks d (omega arith) takes whole waits
          mixed,
      shows,
    )
