-- ===== src/GameServer/Handlers.antt =====
-- The cases of the callback's `switch` in src/server/game_server.cpp.
pub mod Keep
pub mod Rounds
pub mod Tables
pub mod Votes
use cpptcpmultiplayer.Prelude.{
  ℕ, zero, suc, ◌+◌, ◌-◌, ◌*◌, ◌/◌, ◌%◌, ◌^◌, ◌≤◌, ◌<◌, ◌≡◌, refl, sym, ap, ◌∙◌, ◌≢◌, ◌↔◌, ◌⊎◌, inl,
  inr, Bool, true, false, not, ◌&&◌, ◌||◌, Option, none, some, List, [], ◌∷◌, ◌++◌, map, append-nil,
  append_assoc, arith, ltb, leb, ◌==◌, if◌then◌else◌, ltb→lt, ltb→ge, lt→ltb, ge→ltb, le→leb,
  gt→leb, leb→le, leb→gt, ==_refl, ==_iff, Bool-cases, Option-cases, length, get_or, drop, take,
  All, length-append, length-drop, nil_of_length, length-take_le, take-append_le, take-append,
  drop-append, drop-append_le, drop-drop, All-append, Result, ok, fault, stuck, ◌>>=◌, Returns,
  Returns-value, >>=-Returns, if-Returns, drop-append_add, if-elim, is_nil, equal_bytes,
  equal_bytes→eq, equal_bytes_refl,
}
use cpptcpmultiplayer.Bytes.{
  IsU32, IsU16, IsByte, be32, be16, to_u32, read_u32, read_u16, read_bytes, load_u32, load_u16,
  load_bytes, load_u32-Returns, load_u16-Returns, load_bytes-Returns, read_u32-be32, read_u16-be16,
  read_bytes-append, read_bytes-take, load_u32_at, load_bytes_at, load_length_at,
}
use cpptcpmultiplayer.PlayerState.{PlayerState}
use cpptcpmultiplayer.Packet.{Packet}
use cpptcpmultiplayer.Packet.MessageType
use cpptcpmultiplayer.Serialization.Player.{create_player_state_packet}
use cpptcpmultiplayer.Serialization.Update.{create_game_state_update_packet}
use cpptcpmultiplayer.Serialization.Chat.{ChatMessage, create_chat_message_packet}
use cpptcpmultiplayer.GameState.{
  GameState, add_player, remove_player, clear_round, submit_vote, get_player_state, has_player,
  get_player_count, get_all_player_states,
}
use cpptcpmultiplayer.GameState.Round.{Random}
use cpptcpmultiplayer.ConnectionManager.{ConnectionInfo, get_connection}
use cpptcpmultiplayer.Server.{Network, Server, send_packet, broadcast, broadcast_except}
use cpptcpmultiplayer.GameServer.{World}
use cpptcpmultiplayer.GameServer.Text.{
  default_username, trim_back, is_vote_command, vote_target_name, find_target,
}
use cpptcpmultiplayer.GameServer.Round.{start_new_round_if_possible}
use cpptcpmultiplayer.GameServer.Ballot.{finish_round, everybody_voted}

module _ (network : Network) (random : ℕ → Random) where
  -- PLAYER_JOIN.
  unfoldable pub handle_join : Packet → ℕ → World → World
  handle_join packet client_id w =
      let username =
        if ltb 0 (length packet.payload) then packet.payload else default_username client_id in
      let added = add_player client_id username w.game in
      if not added.1
      then w
      else let game = added.0 in
        let state_packet = create_game_state_update_packet (get_all_player_states game) in
        let told = (send_packet network client_id state_packet w.server).0 in
        let join_packet =
          create_player_state_packet MessageType.player_joined (get_player_state client_id game) in
        start_new_round_if_possible network random
          (record w { server = broadcast_except network client_id join_packet told; game = game })

  -- A `/vote` command.
  unfoldable pub handle_vote : List ℕ → ℕ → World → World
  handle_vote message client_id w =
      if not w.game.round_active
      then w
      else let target_id = find_target (vote_target_name message) (get_all_player_states w.game) in
        if target_id == 0
        then w
        else let submitted = submit_vote client_id target_id w.game in
          if not submitted.1
          then w
          else let voted : World = record w { game = submitted.0 } in
            if everybody_voted submitted.0 then finish_round network random voted else voted

  -- The name that a chat message is sent under.
  unfoldable pub chat_username : ℕ → ConnectionInfo → GameState → List ℕ
  chat_username client_id info g =
      let player = get_player_state client_id g in
      if not (player.id == 0)
      then player.username
      else if is_nil info.username
      then default_username client_id
      else info.username

  -- CHAT_MESSAGE.
  unfoldable pub handle_chat : Packet → ℕ → World → World
  unfolding handle_vote chat_username
  handle_chat packet client_id w = elim (get_connection client_id w.server.connections) [
    | none ↦ w
    | some info ↦
        let message = trim_back packet.payload in
        if is_vote_command message
        then handle_vote message client_id w
        else let chat_message : ChatMessage = record {
          sender_id = client_id;
          sender_username = chat_username client_id info w.game;
          sender_message = message;
        } in
          record w { server = broadcast network (create_chat_message_packet chat_message) w.server }
  ]

  -- PLAYER_LEAVE.
  unfoldable pub handle_leave : ℕ → World → World
  handle_leave client_id w =
      let leaving = get_player_state client_id w.game in
      if not (has_player client_id w.game)
      then w
      else let removed = remove_player client_id w.game in
        if not removed.1
        then w
        else let game = if w.game.round_active then clear_round removed.0 else removed.0 in
          let leave_packet = create_player_state_packet MessageType.player_leave leaving in
          let told = broadcast_except network client_id leave_packet w.server in
          let state_packet = create_game_state_update_packet (get_all_player_states game) in
          let left : World = record w {
            server = broadcast network state_packet told;
            game = game;
          } in
          if ltb (get_player_count game) 3
          then left
          else start_new_round_if_possible network random left

  unfoldable pub handle_packet : Packet → ℕ → World → World
  unfolding handle_join handle_chat handle_leave
  handle_packet packet client_id w =
      let type = packet.header.type in
      if type == MessageType.player_join
      then handle_join packet client_id w
      else if type == MessageType.chat_message
      then handle_chat packet client_id w
      else if type == MessageType.player_leave
      then handle_leave client_id w
      else w
