-- ===== src/GameServer/Handlers/Tables.antt =====
-- The packet callback of src/server/game_server.cpp and the table of connections.
use cpptcpmultiplayer.Prelude.{
  ℕ, inl, inr, not, ◌||◌, List, [], ◌∷◌, ltb, ◌==◌, if◌then◌else◌, Option-cases, length, if-elim,
  is_nil,
}
use cpptcpmultiplayer.PlayerState.{PlayerState}
use cpptcpmultiplayer.Packet.{Packet}
use cpptcpmultiplayer.Packet.MessageType
use cpptcpmultiplayer.ConnectionManager.{get_connection}
use cpptcpmultiplayer.GameState.{
  add_player, remove_player, clear_round, submit_vote, has_player, get_player_count,
  get_all_player_states, can_start_round,
}
use cpptcpmultiplayer.GameState.Round.{Random, start_new_round}
use cpptcpmultiplayer.Server.{Network, Server}
use cpptcpmultiplayer.Server.Kept.{
  IsServed, send_packet-keeps, broadcast-keeps, broadcast_except-keeps,
}
use cpptcpmultiplayer.GameServer.{World}
use cpptcpmultiplayer.GameServer.Text.{
  default_username, trim_back, is_vote_command, vote_target_name, find_target,
}
use cpptcpmultiplayer.GameServer.Round.{send_roles, assignment_for, start_new_round_if_possible}
use cpptcpmultiplayer.GameServer.Ballot.{finish_round, everybody_voted}
use cpptcpmultiplayer.GameServer.Handlers.{
  handle_join, handle_vote, handle_chat, handle_leave, handle_packet,
}

-- The callback changes the server only as its sends do.
module _ {ℓ} (P : Server → Type ℓ) (kept : IsServed P) (network : Network)
    (random : ℕ → Random) where
  abbrev On : World → Type ℓ
  On w = P w.server

  send_roles-keeps :
      (topic word : List ℕ) (players : List PlayerState) (s : Server)
      → P s
      → P (send_roles network topic word players s)
  unfolding send_roles
  send_roles-keeps topic word [] s h = h
  send_roles-keeps topic word (p ∷ players) s h =
      elim (Option-cases (assignment_for topic word p)) [
        | inl e ↦ rw (send_roles, e) (send_roles-keeps topic word players s h)
        | inr (a, e) ↦
            rw (send_roles, e)
              (send_roles-keeps topic word players _ (send_packet-keeps P kept network p.id _ s h))
      ]

  start-keeps : (w : World) → On w → On (start_new_round_if_possible network random w)
  unfolding start_new_round_if_possible
  start-keeps w h =
      if-elim On (not (can_start_round w.game)) _ _ (λ _. h)
        λ _.
          if-elim On w.game.round_active _ _ (λ _. h)
            λ _.
              let g = start_new_round (random w.draws) w.game in
              if-elim On ((g.current_liar_id == 0) || is_nil g.current_topic) _ _ (λ _. h)
                (λ _.
                  send_roles-keeps g.current_topic g.current_word (get_all_player_states g) w.server
                    h)

  join-keeps :
      (packet : Packet) (id : ℕ) (w : World) → On w → On (handle_join network random packet id w)
  unfolding handle_join
  join-keeps packet id w h =
      let username =
        if ltb 0 (length packet.payload) then packet.payload else default_username id in
      if-elim On (not (add_player id username w.game).1) _ _ (λ _. h)
        λ _.
          start-keeps _ (
            broadcast_except-keeps P kept network id _ _
              (send_packet-keeps P kept network id _ _ h))

  vote-keeps :
      (message : List ℕ) (id : ℕ) (w : World) → On w → On (handle_vote network random message id w)
  unfolding handle_vote finish_round
  vote-keeps message id w h =
      if-elim On (not w.game.round_active) _ _ (λ _. h)
        λ _.
          let target = find_target (vote_target_name message) (get_all_player_states w.game) in
          if-elim On (target == 0) _ _ (λ _. h)
            λ _.
              if-elim On (not (submit_vote id target w.game).1) _ _ (λ _. h)
                λ _.
                  if-elim On (everybody_voted (submit_vote id target w.game).0) _ _
                    (λ _.
                      start-keeps _
                        (broadcast-keeps P kept network _ _ (broadcast-keeps P kept network _ _ h)))
                    (λ _. h)

  chat-keeps :
      (packet : Packet) (id : ℕ) (w : World) → On w → On (handle_chat network random packet id w)
  unfolding handle_chat
  chat-keeps packet id w h = elim (Option-cases (get_connection id w.server.connections)) [
    | inl e ↦ rw (e, handle_chat) h
    | inr (info, e) ↦
        rw (e, handle_chat)
          (if-elim On (is_vote_command (trim_back packet.payload)) _ _ (λ _. vote-keeps _ id w h)
            (λ _. broadcast-keeps P kept network _ w.server h))
  ]

  leave-keeps : (id : ℕ) (w : World) → On w → On (handle_leave network random id w)
  unfolding handle_leave
  leave-keeps id w h =
      if-elim On (not (has_player id w.game)) _ _ (λ _. h)
        λ _.
          if-elim On (not (remove_player id w.game).1) _ _ (λ _. h)
            λ _.
              let game =
                if w.game.round_active
                then clear_round (remove_player id w.game).0
                else (remove_player id w.game).0 in
              let told =
                broadcast-keeps P kept network _ _
                  (broadcast_except-keeps P kept network id _ _ h) in
              if-elim On (ltb (get_player_count game) 3) _ _ (λ _. told) (λ _. start-keeps _ told)

  pub handle_packet-keeps :
      (packet : Packet) (id : ℕ) (w : World) → On w → On (handle_packet network random packet id w)
  unfolding handle_packet
  handle_packet-keeps packet id w h =
      let type = packet.header.type in
      if-elim On (type == MessageType.player_join) _ _ (λ _. join-keeps packet id w h)
        λ _.
          if-elim On (type == MessageType.chat_message) _ _ (λ _. chat-keeps packet id w h)
            λ _.
              if-elim On (type == MessageType.player_leave) _ _ (λ _. leave-keeps id w h) (λ _. h)
