-- ===== src/Play/Runs.antt =====
-- A game of three players over a network that takes every packet.
mod Typing
use cpptcpmultiplayer.Prelude.{
  ℕ, zero, suc, ◌+◌, ◌-◌, ◌*◌, ◌/◌, ◌%◌, ◌^◌, ◌≤◌, ◌<◌, ◌≡◌, refl, sym, ap, ◌∙◌, ◌≢◌, ◌↔◌, ◌⊎◌, inl,
  inr, Bool, true, false, not, ◌&&◌, ◌||◌, Option, none, some, List, [], ◌∷◌, ◌++◌, map, append-nil,
  append_assoc, arith, ltb, leb, ◌==◌, if◌then◌else◌, ltb→lt, ltb→ge, lt→ltb, ge→ltb, le→leb,
  gt→leb, leb→le, leb→gt, ==_refl, ==_iff, Bool-cases, Bool-ext, Option-cases, length, get_or, drop,
  take, All, length-append, length-drop, nil_of_length, length-take_le, take-append_le, take-append,
  drop-append, drop-append_le, drop-drop, All-append, Result, ok, fault, stuck, ◌>>=◌, Returns,
  Returns-value, >>=-Returns, if-Returns, drop-append_add, if-elim, is_nil, equal_bytes,
  equal_bytes→eq, equal_bytes_refl,
}
use cpptcpmultiplayer.Bytes.{
  IsU32, IsU16, IsByte, be32, be16, to_u32, read_u32, read_u16, read_bytes, load_u32, load_u16,
  load_bytes, load_u32-Returns, load_u16-Returns, load_bytes-Returns, read_u32-be32, read_u16-be16,
  read_bytes-append, read_bytes-take, load_u32_at, load_bytes_at, load_length_at,
}
use cpptcpmultiplayer.Client.{established, arrived, no_more}
use cpptcpmultiplayer.GameClient.Typing.{join}
use cpptcpmultiplayer.GameClient.Program.{Event, pressed, received, print, goodbye, run}
use cpptcpmultiplayer.GameClient.Program.Threads.{Interleaving, over, presses, receives}
use cpptcpmultiplayer.GameClient.Program.Ends.{connected_client, join_sent, first_line}
use cpptcpmultiplayer.Play.Program.{run-Shows}
use mathlib.Core.List.{flatten}
use cpptcpmultiplayer.Prelude.Int.{int_to_u32}
use cpptcpmultiplayer.PlayerState.{new_player, role_to_u32}
use cpptcpmultiplayer.Packet.{serialize}
use cpptcpmultiplayer.Serialization.Player.{serialize_player_state, create_player_state_packet}
use cpptcpmultiplayer.Server.Stream.Frames.{wires, IsMessage}
use cpptcpmultiplayer.GameState.{get_player_state}
use cpptcpmultiplayer.Client.{Client, new_client, receiving_thread}
use cpptcpmultiplayer.Client.Receive.{arrivals}
use cpptcpmultiplayer.GameClient.Handlers.{handle_server_packet}
use cpptcpmultiplayer.Play.{Hears}
use cpptcpmultiplayer.Play.Packets.{Hears-joined}
use cpptcpmultiplayer.Play.Thread.{made, receiving_thread-Shows}
use cpptcpmultiplayer.MessageQueue.{push}
use cpptcpmultiplayer.ConnectionManager.{get_connection}
use cpptcpmultiplayer.Server.Stream.{receive_chunks}
use cpptcpmultiplayer.GameServer.Text.Commands.{IsName, vote_message}
use cpptcpmultiplayer.GameServer.Session.{deliver}
use cpptcpmultiplayer.GameClient.Typing.{handle_keys}
use cpptcpmultiplayer.GameClient.Typing.Lines.{chat_sent, typed_end}
use cpptcpmultiplayer.Play.Vote.{MayVoteFor, counted, chat_packet, typed_vote-counted}
use cpptcpmultiplayer.Prelude.Text.{codes}
use cpptcpmultiplayer.Prelude.Maps.{find, contains, insert}
use cpptcpmultiplayer.PlayerState.{no_role}
use cpptcpmultiplayer.Packet.{Packet, make_packet}
use cpptcpmultiplayer.Packet.MessageType
use cpptcpmultiplayer.Serialization.Role.{create_role_assignment_packet}
use cpptcpmultiplayer.ConnectionManager.{active}
use cpptcpmultiplayer.Server.Sample.{connection, table, serving, reliable}
use cpptcpmultiplayer.Server.Mail.{Owns, Tells}
use cpptcpmultiplayer.GameState.{GameState, new_game, add_player, can_start_round}
use cpptcpmultiplayer.GameState.Round.{Random}
use cpptcpmultiplayer.GameState.Sample.{
  lowest, lowest-InRange, player, joined, joined-IsValid, started, started-IsValid,
}
use cpptcpmultiplayer.GameState.Invariant.Steps.{Reach, here, next, adds, Reach-IsValid}
use cpptcpmultiplayer.GameServer.{World}
use cpptcpmultiplayer.GameServer.Round.{start_new_round_if_possible}
use cpptcpmultiplayer.GameServer.Handlers.{handle_join, handle_packet}
use cpptcpmultiplayer.GameServer.Mail.{role_for}
use cpptcpmultiplayer.GameServer.Mail.Rounds.{start_new_round_if_possible-Tells}
use cpptcpmultiplayer.GameClient.{GameClient, new_game_client}
use cpptcpmultiplayer.Play.{Shows, Reaches}
use cpptcpmultiplayer.Play.Ranges.{IsRanged}
use cpptcpmultiplayer.Play.Callback.{handle_packet-Reaches, join-Reaches}

abbrev dice : ℕ → Random
dice i = lowest

abbrev world : GameState → World
world g = record { server = serving (table active active active); game = g; draws = 0 }

-- The connections of the players 1 and 3.
one-Owns : Owns 1 101 (table active active active)
unfolding find
one-Owns = record {
  info = connection 1 active;
  there = refl;
  active = refl;
  over = refl;
  alone = ((λ _. refl), ((λ _. refl), ((λ q. cc), tt)));
  distinct = (refl, (refl, (refl, tt)));
}

three-Owns : Owns 3 103 (table active active active)
unfolding find
three-Owns = record {
  info = connection 3 active;
  there = refl;
  active = refl;
  over = refl;
  alone = ((λ q. cc), ((λ _. refl), ((λ _. refl), tt)));
  distinct = (refl, (refl, (refl, tt)));
}

joined-on : can_start_round joined ≡ true
unfolding can_start_round
joined-on = refl

no_zero : contains 0 joined.players ≡ false
unfolding contains
no_zero = refl

three_plays : contains 3 joined.players ≡ true
unfolding contains
three_plays = refl

start_new_round_if_possible-Tells_example :
    let next = start_new_round_if_possible reliable dice (world joined) in
    Tells 103
      (if contains 3 joined.players
        then create_role_assignment_packet (role_for 3 next.game) ∷ []
        else [])
      (world joined).server
      next.server
start_new_round_if_possible-Tells_example =
    start_new_round_if_possible-Tells reliable (λ log s bytes. refl) dice (λ i. lowest-InRange) 3
      103 (world joined) joined-IsValid refl joined-on no_zero three-Owns

-- A client that shows the three players.
abbrev client : GameClient
client = record new_game_client {
  players = (1, player 1 65 no_role) ∷ (2, player 2 66 no_role) ∷ (3, player 3 67 no_role) ∷ [];
}

client-Shows : Shows started client
unfolding find
client-Shows = record {
  entries = λ k. ground arith;
  ascending = (omega arith, (omega arith, (omega arith, tt)));
}

started-IsRanged : IsRanged 0 started
started-IsRanged = record {
  players = (
    (
      record {
        id_fits = omega arith;
        name_fits = omega arith;
        role_fits = tt;
        score_fits = omega arith;
      },
      omega arith,
    ),
    (
      (
        record {
          id_fits = omega arith;
          name_fits = omega arith;
          role_fits = tt;
          score_fits = omega arith;
        },
        omega arith,
      ),
      (
        (
          record {
            id_fits = omega arith;
            name_fits = omega arith;
            role_fits = tt;
            score_fits = omega arith;
          },
          omega arith,
        ),
        tt,
      ),
    ),
  );
  count = omega arith;
}

-- The player 2 votes for the player "C".
abbrev vote : Packet
vote = make_packet MessageType.chat_message (codes "/vote C")

vote_fits : IsU32 (length vote.payload)
unfolding make_packet
vote_fits = omega arith

handle_packet-Reaches_example :
    Reaches 101 (world started) (handle_packet reliable dice vote 2 (world started)) client
handle_packet-Reaches_example =
    handle_packet-Reaches reliable (λ log s bytes. refl) dice 1 101 0 2 vote (world started) client
      started-IsValid started-IsRanged (omega arith) (omega arith) vote_fits one-Owns client-Shows

-- The players 1 and 2 have joined.
abbrev two : GameState
two = record new_game { players = (2, player 2 66 no_role) ∷ (1, player 1 65 no_role) ∷ [] }

two-Reach : Reach new_game two
unfolding add_player contains insert
two-Reach = next (next here (adds 1 (65 ∷ []))) (adds 2 (66 ∷ []))

two-IsRanged : IsRanged 0 two
two-IsRanged = record {
  players = (
    (
      record {
        id_fits = omega arith;
        name_fits = omega arith;
        role_fits = tt;
        score_fits = omega arith;
      },
      omega arith,
    ),
    (
      (
        record {
          id_fits = omega arith;
          name_fits = omega arith;
          role_fits = tt;
          score_fits = omega arith;
        },
        omega arith,
      ),
      tt,
    ),
  );
  count = omega arith;
}

three_new : contains 3 two.players ≡ false
unfolding contains
three_new = refl

abbrev third : Packet
third = make_packet MessageType.player_join (codes "C")

third_fits : IsU32 (length third.payload)
unfolding make_packet
third_fits = omega arith

join-Reaches_example :
    Reaches 103 (world two) (handle_join reliable dice third 3 (world two)) new_game_client
join-Reaches_example =
    join-Reaches reliable (λ log s bytes. refl) dice 3 103 0 third (world two) new_game_client
      (Reach-IsValid two-Reach) two-IsRanged three_new (omega arith) third_fits three-Owns

-- The server tells of the first player, in two pieces.
abbrev joins_first : List (ℕ × List ℕ)
joins_first = (MessageType.player_joined, serialize_player_state (new_player 1 (codes "A"))) ∷ []

abbrev pieces : List (List ℕ)
pieces = take 7 (wires joins_first) ∷ drop 7 (wires joins_first) ∷ []

pieces-wires : flatten pieces ≡ wires joins_first
unfolding flatten serialize make_packet serialize_player_state role_to_u32 int_to_u32
pieces-wires = refl

joins_first-IsMessage : All IsMessage joins_first
unfolding serialize_player_state role_to_u32 int_to_u32
joins_first-IsMessage =
    ((record { type_fits = omega arith; length_fits = omega arith }, omega arith), tt)

new_game-Shows : Shows new_game new_game_client
new_game-Shows = record { entries = λ k. refl; ascending = tt }

joins_first-Hears : Hears (add_player 1 (codes "A") new_game).0 (made joins_first) new_game_client
unfolding create_player_state_packet add_player contains insert get_player_state
joins_first-Hears =
    Hears-joined new_game new_game_client 1 (codes "A") refl
      (record {
        id_fits = omega arith;
        name_fits = omega arith;
        role_fits = tt;
        score_fits = omega arith;
      })
      new_game-Shows
