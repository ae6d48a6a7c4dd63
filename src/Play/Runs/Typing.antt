-- ===== src/Play/Runs/Typing.antt =====
-- A player of src/client/game_client.cpp who types a vote, and a whole run of the program.
use cpptcpmultiplayer.Prelude.{
  ℕ, ◌≡◌, refl, ap, ◌≢◌, true, false, some, List, [], ◌∷◌, ◌++◌, arith, drop, take, ok,
}
use cpptcpmultiplayer.Client.{established, arrived, no_more}
use cpptcpmultiplayer.GameClient.Typing.{join}
use cpptcpmultiplayer.GameClient.Program.{Event, pressed, received, print, goodbye, run}
use cpptcpmultiplayer.GameClient.Program.Threads.{over, presses, receives}
use cpptcpmultiplayer.GameClient.Program.Ends.{connected_client, join_sent, first_line}
use cpptcpmultiplayer.Play.Program.{run-Shows}
use mathlib.Core.List.{flatten}
use cpptcpmultiplayer.Packet.{serialize}
use cpptcpmultiplayer.Server.Stream.Frames.{wires}
use cpptcpmultiplayer.Client.Receive.{arrivals}
use cpptcpmultiplayer.MessageQueue.{push}
use cpptcpmultiplayer.ConnectionManager.{get_connection}
use cpptcpmultiplayer.Server.Stream.{receive_chunks}
use cpptcpmultiplayer.GameServer.Text.Commands.{IsName, vote_message}
use cpptcpmultiplayer.GameServer.Session.{deliver}
use cpptcpmultiplayer.GameClient.Typing.{handle_keys}
use cpptcpmultiplayer.GameClient.Typing.Lines.{chat_sent, typed_end}
use cpptcpmultiplayer.Play.Vote.{MayVoteFor, counted, chat_packet, typed_vote-counted}
use cpptcpmultiplayer.Prelude.Text.{codes}
use cpptcpmultiplayer.Prelude.Maps.{find, contains}
use cpptcpmultiplayer.Packet.{make_packet}
use cpptcpmultiplayer.Server.Sample.{reliable}
use cpptcpmultiplayer.GameState.{new_game, add_player}
use cpptcpmultiplayer.GameState.Sample.{started, started-IsValid}
use cpptcpmultiplayer.GameServer.{World}
use cpptcpmultiplayer.GameClient.{GameClient}
use cpptcpmultiplayer.Play.{Shows}
use cpptcpmultiplayer.Client.{Client, new_client, send_packet}
use cpptcpmultiplayer.Play.Runs.{
  dice, world, joins_first, pieces-wires, joins_first-IsMessage, joins_first-Hears,
}

-- The client of the player 2.
abbrev listening : Client
listening = record new_client { socket = some 5; connected = true; receiving = true }

-- The player 2 types "/vote  C " and Enter, and the bytes come in two pieces.
typed-IsName : IsName [] 67
typed-IsName = record { ends = refl; begins = refl }

abbrev command : List ℕ
command = vote_message (32 ∷ []) [] 67 (32 ∷ [])

first_letter : List ℕ → ℕ
first_letter [] = 0
first_letter (c ∷ s) = c

other : {k : ℕ} (c : ℕ) → (c ∷ []) ≡ (67 ∷ []) → c ≢ 67 → k ≡ 3
unfolding first_letter
other c e n = absurd (n (ap first_letter e))

two-MayVoteFor : MayVoteFor (world started) 2 3 (67 ∷ [])
unfolding get_connection find contains
two-MayVoteFor = record {
  round_on = refl;
  info = _;
  connected = refl;
  plays = refl;
  not_yet = refl;
  state = _;
  there = refl;
  named = refl;
  only = ((λ e. refl), ((λ e. other 66 e (omega arith)), ((λ e. other 65 e (omega arith)), tt)));
  somebody = refl;
}

abbrev halves : List (List ℕ)
halves = take 5 (chat_sent 5 command).bytes ∷ drop 5 (chat_sent 5 command).bytes ∷ []

halves-bytes : flatten halves ≡ (chat_sent 5 command).bytes
unfolding flatten serialize make_packet
halves-bytes = refl

typed_vote-counted_example :
    let queued : World = record (world started) {
      server = record (world started).server {
        message_queue = push (chat_packet command) (world started).server.message_queue;
      };
    } in
    (handle_keys reliable
        (command ++ (13 ∷ []))
        (record { chat_buffer = []; echoed = [] })
        listening
      ≡ (
        typed_end reliable 5 command (record { chat_buffer = []; echoed = [] }),
        record listening { log = listening.log ++ (chat_sent 5 command ∷ []) },
      ))
    × (receive_chunks (deliver reliable dice 2 102) [] halves (world started)
        ≡ ok ([], counted reliable dice 2 3 queued))
typed_vote-counted_example =
    typed_vote-counted reliable dice (32 ∷ []) [] 67 (32 ∷ []) typed-IsName (refl, tt) (refl, tt) 13
      102 5 2 3 (record { chat_buffer = []; echoed = [] }) listening (world started) halves
      (refl, (refl, (refl, (refl, (refl, (refl, (refl, (refl, (refl, tt)))))))))
      (record { type_fits = omega arith; length_fits = omega arith }) refl refl refl refl
      started-IsValid two-MayVoteFor halves-bytes

-- A player types "hi" while the second piece comes.
abbrev player_name : List ℕ
player_name = codes "B"

abbrev mixed_events : List Event
mixed_events =
    pressed 104 ∷ received (arrived (drop 7 (wires joins_first))) ∷ pressed 105 ∷ pressed 13 ∷ []

join_taken : (join reliable player_name (connected_client 5 [])).1 ≡ true
unfolding join send_packet serialize make_packet
join_taken = refl

run-Shows_example :
    let typed =
      handle_keys reliable
        (104 ∷ 105 ∷ 13 ∷ [])
        (first_line (codes "127.0.0.1") player_name)
        (connected_client 5 (join_sent 5 player_name)) in
    (d : GameClient) × (run reliable 3
        (codes "127.0.0.1" ∷ player_name ∷ [])
        (established 5)
        (arrivals (take 7 (wires joins_first) ∷ []))
        (mixed_events ++ (received no_more ∷ []))
      ≡ ok (
        some 0,
        record {
          client = record {
            socket = some 5;
            connected = false;
            receiving = false;
            packet_buffer = [];
            log = typed.1.log;
            closed = [];
          };
          game = d;
          line = print goodbye typed.0;
        },
      ))
    × Shows (add_player 1 (codes "A") new_game).0 d
run-Shows_example =
    run-Shows reliable 3 5 (codes "127.0.0.1") player_name joins_first
      (take 7 (wires joins_first) ∷ []) (drop 7 (wires joins_first) ∷ []) joins_first-IsMessage
      (omega arith) join_taken pieces-wires joins_first-Hears
      (presses 104 (receives (drop 7 (wires joins_first)) (presses 105 (presses 13 over))))
