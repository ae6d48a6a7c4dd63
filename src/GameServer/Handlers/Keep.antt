-- ===== src/GameServer/Handlers/Keep.antt =====
-- The packet callback of src/server/game_server.cpp and what it keeps of the game.
use cpptcpmultiplayer.Prelude.{
  Bool, ℕ, inl, inr, not, ◌||◌, List, [], ◌∷◌, ltb, ◌==◌, if◌then◌else◌, Option-cases, length,
  if-elim, is_nil,
}
use cpptcpmultiplayer.Packet.{Packet}
use cpptcpmultiplayer.Packet.MessageType
use cpptcpmultiplayer.GameState.{
  GameState, add_player, remove_player, clear_round, submit_vote, get_all_player_states,
  get_player_count, has_player, can_start_round,
}
use cpptcpmultiplayer.GameState.Scores.{calculate_and_apply_scores}
use cpptcpmultiplayer.GameState.Round.{Random, InRange, start_new_round}
use cpptcpmultiplayer.GameState.Invariant.{
  IsValid, add_player-IsValid, clear_round-IsValid, submit_vote-IsValid,
}
use cpptcpmultiplayer.GameState.Invariant.Leave.{remove_player-IsValid}
use cpptcpmultiplayer.GameState.Invariant.Start.{start_new_round-IsValid}
use cpptcpmultiplayer.GameState.Invariant.Points.{calculate_and_apply_scores-IsValid}
use cpptcpmultiplayer.ConnectionManager.{get_connection}
use cpptcpmultiplayer.Server.{Network}
use cpptcpmultiplayer.GameServer.{World}
use cpptcpmultiplayer.GameServer.Text.{
  default_username, trim_back, is_vote_command, vote_target_name, find_target,
}
use cpptcpmultiplayer.GameServer.Round.{start_new_round_if_possible}
use cpptcpmultiplayer.GameServer.Ballot.{finish_round, everybody_voted, settle}
use cpptcpmultiplayer.GameServer.Handlers.{
  handle_join, handle_vote, handle_chat, handle_leave, handle_packet,
}

-- A predicate on the game that is closed under the calls that the callback of one client makes.
pub record IsPlayed (id : ℕ) (P : GameState → Type 0) : Type 0 where
  pub added : (username : List ℕ) (g : GameState) → P g → P (add_player id username g).0
  pub removed : (g : GameState) → P g → P (remove_player id g).0
  pub started :
      (random : Random) (g : GameState) → InRange random → P g → P (start_new_round random g)
  pub cleared : (g : GameState) → P g → P (clear_round g)
  pub voted : (voter target : ℕ) (g : GameState) → P g → P (submit_vote voter target g).0
  pub scored :
      (caught : Bool) (out : ℕ) (majority : Bool) (g : GameState)
      → P g
      → P (calculate_and_apply_scores caught out majority g)

pub IsValid-IsPlayed : (id : ℕ) → IsPlayed id IsValid
IsValid-IsPlayed id = record {
  added = λ username g v. add_player-IsValid id username g v;
  removed = λ g v. remove_player-IsValid id g v;
  started = λ random g r v. start_new_round-IsValid random g r v;
  cleared = λ g v. clear_round-IsValid g v;
  voted = λ voter target g v. submit_vote-IsValid voter target g v;
  scored = λ caught out majority g v. calculate_and_apply_scores-IsValid g v caught out majority;
}

pub settle-IsValid : (g : GameState) → IsValid g → IsValid (settle g)
unfolding settle
settle-IsValid g v = clear_round-IsValid _ (calculate_and_apply_scores-IsValid g v _ _ _)

module _ (P : GameState → Type 0) (id : ℕ) (c : IsPlayed id P) (network : Network)
    (random : ℕ → Random) (r : (i : ℕ) → InRange (random i)) where
  record Valid (w : World) : Type 0 where
    valid : P w.game

  settle-keeps : (g : GameState) → P g → P (settle g)
  unfolding settle
  settle-keeps g v = c.cleared _ (c.scored _ _ _ g v)

  start-Valid : (w : World) → Valid w → Valid (start_new_round_if_possible network random w)
  unfolding start_new_round_if_possible
  start-Valid w v =
      if-elim Valid (not (can_start_round w.game)) _ _ (λ _. v)
        λ _.
          if-elim Valid w.game.round_active _ _ (λ _. v)
            λ _.
              let fresh = c.started (random w.draws) w.game (r w.draws) v.valid in
              let g = start_new_round (random w.draws) w.game in
              if-elim Valid ((g.current_liar_id == 0) || is_nil g.current_topic) _ _
                (λ _. record { valid = fresh }) (λ _. record { valid = fresh })

  join-Valid :
      (packet : Packet) (w : World) → Valid w → Valid (handle_join network random packet id w)
  unfolding handle_join
  join-Valid packet w v =
      let username =
        if ltb 0 (length packet.payload) then packet.payload else default_username id in
      if-elim Valid (not (add_player id username w.game).1) _ _ (λ _. v)
        λ _. start-Valid _ (record { valid = c.added username w.game v.valid })

  finish-Valid : (w : World) → Valid w → Valid (finish_round network random w)
  unfolding finish_round
  finish-Valid w v = start-Valid _ (record { valid = settle-keeps w.game v.valid })

  vote-Valid :
      (message : List ℕ) (w : World) → Valid w → Valid (handle_vote network random message id w)
  unfolding handle_vote
  vote-Valid message w v =
      if-elim Valid (not w.game.round_active) _ _ (λ _. v)
        λ _.
          let target = find_target (vote_target_name message) (get_all_player_states w.game) in
          if-elim Valid (target == 0) _ _ (λ _. v)
            λ _.
              if-elim Valid (not (submit_vote id target w.game).1) _ _ (λ _. v)
                λ _.
                  let voted = c.voted id target w.game v.valid in
                  if-elim Valid (everybody_voted (submit_vote id target w.game).0) _ _
                    (λ _. finish-Valid _ (record { valid = voted })) (λ _. record { valid = voted })

  chat-Valid :
      (packet : Packet) (w : World) → Valid w → Valid (handle_chat network random packet id w)
  unfolding handle_chat
  chat-Valid packet w v = elim (Option-cases (get_connection id w.server.connections)) [
    | inl e ↦ rw (e, handle_chat) v
    | inr (info, e) ↦
        rw (e, handle_chat)
          (if-elim Valid (is_vote_command (trim_back packet.payload)) _ _ (λ _. vote-Valid _ w v)
            (λ _. record { valid = v.valid }))
  ]

  leave-Valid : (w : World) → Valid w → Valid (handle_leave network random id w)
  unfolding handle_leave
  leave-Valid w v =
      if-elim Valid (not (has_player id w.game)) _ _ (λ _. v)
        λ _.
          if-elim Valid (not (remove_player id w.game).1) _ _ (λ _. v)
            λ _.
              let gone = c.removed w.game v.valid in
              let reset = if-elim P w.game.round_active _ _ (λ _. c.cleared _ gone) (λ _. gone) in
              let game =
                if w.game.round_active
                then clear_round (remove_player id w.game).0
                else (remove_player id w.game).0 in
              if-elim Valid (ltb (get_player_count game) 3) _ _ (λ _. record { valid = reset })
                (λ _. start-Valid _ (record { valid = reset }))

  pub handle_packet-played :
      (packet : Packet) (w : World) → P w.game → P (handle_packet network random packet id w).game
  unfolding handle_packet
  handle_packet-played packet w h =
      let v : Valid w = record { valid = h } in
      let type = packet.header.type in
      let kept : Valid (handle_packet network random packet id w) =
        if-elim Valid (type == MessageType.player_join) _ _ (λ _. join-Valid packet w v)
          λ _.
            if-elim Valid (type == MessageType.chat_message) _ _ (λ _. chat-Valid packet w v)
              λ _.
                if-elim Valid (type == MessageType.player_leave) _ _ (λ _. leave-Valid w v)
                  (λ _. v) in
      kept.valid

module _ (network : Network) (random : ℕ → Random) (r : (i : ℕ) → InRange (random i)) where
  -- With a generator that stays in its bounds, the game stays well formed, whatever packet arrives from
  -- whatever client, and whatever the network does.
  pub handle_packet-IsValid :
      (packet : Packet) (client_id : ℕ) (w : World)
      → IsValid w.game
      → IsValid (handle_packet network random packet client_id w).game
  handle_packet-IsValid packet id w v =
      handle_packet-played IsValid id (IsValid-IsPlayed id) network random r packet w v

  -- The packets that arrive, each with its client, one after the other.
  unfoldable pub handle_all : List (Packet × ℕ) → World → World
  handle_all [] w = w
  handle_all ((packet, id) ∷ rest) w = handle_all rest (handle_packet network random packet id w)

  pub handle_all-IsValid :
      (packets : List (Packet × ℕ)) (w : World)
      → IsValid w.game
      → IsValid (handle_all packets w).game
  unfolding handle_all
  handle_all-IsValid [] w v = v
  handle_all-IsValid ((packet, id) ∷ rest) w v =
      handle_all-IsValid rest _ (handle_packet-IsValid packet id w v)
