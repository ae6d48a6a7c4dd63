-- ===== src/GameClient/Handlers.antt =====
-- The packet callback of src/client/game_client.cpp.
use cpptcpmultiplayer.Prelude.{
  ℕ, true, not, List, [], ◌∷◌, ◌++◌, ◌==◌, if◌then◌else◌, Result, ok, ◌>>=◌,
}
use cpptcpmultiplayer.Prelude.Maps.{erase}
use cpptcpmultiplayer.Prelude.Maps.Sorted.{put}
use cpptcpmultiplayer.PlayerState.{PlayerState}
use cpptcpmultiplayer.Packet.{Packet}
use cpptcpmultiplayer.Packet.MessageType
use cpptcpmultiplayer.Serialization.Player.{extract_player_state}
use cpptcpmultiplayer.Serialization.Update.{extract_game_state_update}
use cpptcpmultiplayer.Serialization.Chat.{extract_chat_message}
use cpptcpmultiplayer.Serialization.Role.{extract_role_assignment}
use cpptcpmultiplayer.Serialization.Vote.{extract_vote_result}
use cpptcpmultiplayer.GameClient.{GameClient, show}
use cpptcpmultiplayer.GameClient.Screen.{
  endl, status_bar, score_summary, chat_line, joined_line, left_line, welcome, new_round,
  role_screen, result_screen,
}

-- The loop that fills the table.
unfoldable pub fill : List PlayerState → List (ℕ × PlayerState) → List (ℕ × PlayerState)
fill [] players = players
fill (p ∷ states) players = fill states (put p.id p players)

-- GAME_STATE_UPDATE, once its players are read.
unfoldable pub update_players : List PlayerState → GameClient → GameClient
unfolding fill
update_players states c =
    let players : List (ℕ × PlayerState) = fill states [] in
    let bar : List ℕ = endl ++ status_bar players in
    if not c.initial_state_received
    then record (show (bar ++ welcome) c) { players = players; initial_state_received = true }
    else record (show (bar ++ (score_summary players ++ (endl ++ new_round))) c) {
      players = players;
    }

-- PLAYER_JOINED.
unfoldable pub add_joined : PlayerState → GameClient → GameClient
add_joined p c =
    let players : List (ℕ × PlayerState) = put p.id p c.players in
    record (show (endl ++ (joined_line p ++ status_bar players)) c) { players = players }

-- PLAYER_LEAVE.
unfoldable pub erase_left : PlayerState → GameClient → GameClient
erase_left p c =
    let players : List (ℕ × PlayerState) = erase p.id c.players in
    record (show (endl ++ (left_line p ++ status_bar players)) c) { players = players }

unfoldable pub handle_server_packet : Packet → GameClient → Result GameClient
unfolding update_players add_joined erase_left
handle_server_packet packet c =
    let type = packet.header.type in
    if type == MessageType.game_state_update
    then (do states ← extract_game_state_update packet; ok (update_players states c))
    else if type == MessageType.player_joined
    then (do p ← extract_player_state packet; ok (add_joined p c))
    else if type == MessageType.player_leave
    then (do p ← extract_player_state packet; ok (erase_left p c))
    else if type == MessageType.chat_broadcast
    then (do
      m ← extract_chat_message packet
      ok (show (endl ++ chat_line m.sender_username m.sender_message) c))
    else if type == MessageType.role_assignment
    then (do a ← extract_role_assignment packet; ok (show (role_screen c.players a) c))
    else if type == MessageType.vote_result
    then (do r ← extract_vote_result packet; ok (show (result_screen c.players r) c))
    else ok c

-- The callback on one packet after the other.
unfoldable pub handle_server_packets : List Packet → GameClient → Result GameClient
handle_server_packets [] c = ok c
handle_server_packets (packet ∷ packets) c =
    handle_server_packet packet c >>= λ d. handle_server_packets packets d
