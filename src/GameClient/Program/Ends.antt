-- ===== src/GameClient/Program/Ends.antt =====
-- A whole run of `main` of src/client/game_client.cpp, until the server is gone.
use cpptcpmultiplayer.Prelude.{
  ℕ, zero, suc, ◌<◌, ◌≡◌, refl, sym, ap, ◌∙◌, Bool, true, false, some, List, [], ◌∷◌, ◌++◌, map,
  arith, ok, ◌>>=◌,
}
use cpptcpmultiplayer.Packet.{make_packet, serialize}
use cpptcpmultiplayer.Packet.MessageType
use cpptcpmultiplayer.Server.{Network, Sent}
use cpptcpmultiplayer.Client.{
  connect_text, Client, Arrival, arrived, no_more, established, send_packet, receiving_thread,
  receive_packet, receive_loop, has_packet, after_reception, start_receiving, stop_receiving,
  disconnect, connect,
}
use cpptcpmultiplayer.Client.Receive.{arrivals}
use cpptcpmultiplayer.Client.Resume.{around}
use cpptcpmultiplayer.Client.Resume.Rounds.{bind_ok, thread-append}
use cpptcpmultiplayer.Client.Resume.Rounds.Around.{thread-keeps, thread-connected}
use cpptcpmultiplayer.GameClient.{GameClient, new_game_client}
use cpptcpmultiplayer.GameClient.Handlers.{handle_server_packet}
use cpptcpmultiplayer.GameClient.Typing.{Line, handle_keys, join}
use cpptcpmultiplayer.GameClient.Typing.Lines.{send_packet-log}
use cpptcpmultiplayer.GameClient.Program.{
  Program, Event, received, handle_event, handle_events, finish, play, run, port, print, greeting,
  sending, joined_text, goodbye, username_of,
}
use cpptcpmultiplayer.GameClient.Program.Threads.{
  Interleaving, over, receives, handle_keys-keeps, send_packet-around, received_lem, waits_again,
  handle_events-Interleaving,
}

-- The client once the connection stands, with what it has sent.
abbrev pub connected_client : ℕ → List Sent → Client
connected_client socket log = record {
  socket = some socket;
  connected = true;
  receiving = true;
  packet_buffer = [];
  log = log;
  closed = [];
}

abbrev pub join_sent : ℕ → List ℕ → List Sent
join_sent socket username =
    record { socket = socket; bytes = serialize (make_packet MessageType.player_join username) }
    ∷ []

-- What `main` has written when it has greeted the player.
abbrev pub greeted : List ℕ → List ℕ
greeted address = connect_text address port ++ greeting

-- The line before the first key.
abbrev pub first_line : List ℕ → List ℕ → Line
first_line address username = record {
  chat_buffer = [];
  echoed = (greeted address ++ sending username) ++ joined_text;
}

arrivals-append : (a b : List (List ℕ)) → arrivals (a ++ b) ≡ arrivals a ++ arrivals b
arrivals-append [] b = refl
arrivals-append (x ∷ a) b = ap (λ l. arrived x ∷ l) (arrivals-append a b)

-- Chunks without keys.
only_chunks : (chunks : List (List ℕ)) → Interleaving [] chunks (map received (arrivals chunks))
only_chunks [] = over
only_chunks (chunk ∷ chunks) = receives chunk (only_chunks chunks)

-- The connection is lost.
thread-no_more :
    (fuel socket : ℕ) (g : GameClient)
    → 1 < fuel
    → receiving_thread handle_server_packet fuel (no_more ∷ []) (connected_client socket []) g
      ≡ ok (record (connected_client socket []) { connected = false }, g)
unfolding receiving_thread receive_packet receive_loop has_packet after_reception
thread-no_more zero socket g h = absurd (omega arith)
thread-no_more (suc zero) socket g h = absurd (omega arith)
thread-no_more (suc (suc fuel)) socket g h = refl

finish-lost :
    (client : Client) (log : List Sent) (socket : ℕ) (g : GameClient) (line : Line)
    → client ≡ connected_client socket log
    → finish (record {
      client = around client (record (connected_client socket []) { connected = false });
      game = g;
      line = line;
    })
      ≡ (
        some 0,
        record {
          client = record (connected_client socket log) { connected = false; receiving = false };
          game = g;
          line = print goodbye line;
        },
      )
unfolding finish disconnect stop_receiving
finish-lost client log socket g line e =
    ap
      (λ c. finish (record {
        client = around c (record (connected_client socket []) { connected = false });
        game = g;
        line = line;
      }))
      e

module _ (network : Network) (fuel socket : ℕ) where
  join-sent :
      (username : List ℕ) (c : Client)
      → (join network username (connected_client socket [])).1 ≡ true
      → c.connected ≡ true
      → join network username (around (connected_client socket []) c)
        ≡ (around (connected_client socket (join_sent socket username)) c, true)
  unfolding join
  join-sent username c takes on =
      let packet = make_packet MessageType.player_join username in
      let before = connected_client socket [] in
      let flag = (send_packet network packet before).1 in
      let all : Client = around (connected_client socket (join_sent socket username)) c in
      send_packet-around network packet before c refl on
      ∙ ap {A = Client} {B = Client × Bool} (λ d. (around d c, flag))
          (send_packet-log network socket packet before refl refl)
      ∙ ap {A = Bool} {B = Client × Bool} (λ b. (all, b)) takes

  handle_events-append :
      (xs ys : List Event) (p q : Program)
      → handle_events network fuel xs p ≡ ok q
      → handle_events network fuel (xs ++ ys) p ≡ handle_events network fuel ys q
  unfolding handle_events
  handle_events-append [] ys p q e = ap (λ r. r >>= handle_events network fuel ys) e
  handle_events-append (x ∷ xs) ys p q e =
      let (q', here, rest) =
        bind_ok (handle_event network fuel x p) (handle_events network fuel xs) q e in
      ap (λ r. r >>= handle_events network fuel (xs ++ ys)) here
      ∙ handle_events-append xs ys q' q rest

  play-finish :
      (username : List ℕ) (early : List Arrival) (events : List Event) (p q r : Program)
      (client : Client)
      → handle_events network fuel (map received early) p ≡ ok q
      → join network username q.client ≡ (client, true)
      → handle_events network fuel events
          (record q { client = client; line = print joined_text (print (sending username) q.line) })
        ≡ ok r
      → play network fuel username early events p ≡ ok (finish r)
  unfolding play
  play-finish username early events p q r client a b c = rw (a, b, c)

  -- A client of a server that takes the connection, from the start until the server is gone. If its
  -- receiving thread, over all chunks, waits with an empty buffer, then the keys and the chunks that come
  -- after PLAYER_JOIN may come in any order.
  pub run_lem :
      (address username : List ℕ) (early chunks : List (List ℕ)) {keys : List ℕ}
      {events : List Event} (d : GameClient)
      → 1 < fuel
      → (join network username (connected_client socket [])).1 ≡ true
      → receiving_thread handle_server_packet fuel
          (arrivals (early ++ chunks))
          (connected_client socket [])
          new_game_client
        ≡ ok (connected_client socket [], d)
      → receiving_thread handle_server_packet fuel [] (connected_client socket []) new_game_client
        ≡ ok (connected_client socket [], new_game_client)
      → Interleaving keys chunks events
      → let typed =
          handle_keys network keys
            (first_line address username)
            (connected_client socket (join_sent socket username)) in
        run network fuel
          (address ∷ username ∷ [])
          (established socket)
          (arrivals early)
          (events ++ (received no_more ∷ []))
        ≡ ok (
          some 0,
          record {
            client = record (connected_client socket typed.1.log) {
              connected = false;
              receiving = false;
            };
            game = d;
            line = print goodbye typed.0;
          },
        )
  unfolding run connect start_receiving username_of handle_events handle_keys
  run_lem address username early chunks {keys} {events} d enough takes e waits mixed =
      let c0 = connected_client socket [] in
      let (c1, g1, first, second) =
        thread-append handle_server_packet fuel (arrivals early) (arrivals chunks) c0
          new_game_client (c0, d)
          (ap (λ a. receiving_thread handle_server_packet fuel a c0 new_game_client)
              (sym (arrivals-append early chunks))
            ∙ e) in
      let on =
        thread-connected handle_server_packet fuel (arrivals chunks) c1 g1 (c0, d) second refl in
      let kept =
        thread-keeps handle_server_packet fuel (arrivals early) c0 new_game_client (c1, g1) first in
      let before =
        handle_events-Interleaving network fuel
          (record { chat_buffer = []; echoed = greeted address }) c0 c0 new_game_client (c1, g1)
          (only_chunks early) refl refl waits first on in
      let joined = connected_client socket (join_sent socket username) in
      let typed = handle_keys network keys (first_line address username) joined in
      let after =
        handle_events-Interleaving network fuel (first_line address username) joined c1 g1 (c0, d)
          mixed refl (sym (ap (λ x. x.receiving) kept))
          (waits_again network fuel (arrivals early) c0 c1 new_game_client g1 first) second refl in
      let same = handle_keys-keeps network keys (first_line address username) joined in
      let lost =
        received_lem network fuel no_more typed.0 typed.1 c0 (record c0 { connected = false }) d d
          (ap (λ x. x.receiving) same) (thread-no_more fuel socket d enough) in
      play-finish username (arrivals early) (events ++ (received no_more ∷ [])) _ _ _
        (around joined c1) before (join-sent username c1 takes on)
        (handle_events-append events (received no_more ∷ []) _ _ after
          ∙ ap (λ x. x >>= λ q. ok q) lost)
      ∙ ap ok (finish-lost typed.1 typed.1.log socket d typed.0 same)
