-- ===== src/GameServer/Session/Ends.antt =====
-- What is left of a client once its thread has ended, in src/server/server.cpp and
-- src/server/game_server.cpp.
use cpptcpmultiplayer.Prelude.{
  Bool, ==_refl, ℕ, ◌≡◌, refl, sym, ◌∙◌, inl, inr, true, false, not, ◌&&◌, ◌||◌, none, List, [],
  ◌∷◌, arith, ltb, ◌==◌, if◌then◌else◌, Bool-cases, length, Result, ok, ◌>>=◌, if-elim, is_nil,
}
use mathlib.Core.Path.{subst}
use cpptcpmultiplayer.Prelude.Maps.{find, contains, Distinct, find-erase_self, erase-Distinct}
use cpptcpmultiplayer.Prelude.Maps.Every.{contains-map_values}
use cpptcpmultiplayer.Packet.{Packet, make_packet}
use cpptcpmultiplayer.Packet.MessageType
use cpptcpmultiplayer.ConnectionManager.{remove_connection, update_heartbeat}
use cpptcpmultiplayer.GameState.{
  GameState, remove_player, clear_round, has_player, get_player_count, can_start_round,
}
use cpptcpmultiplayer.GameState.Round.{Random, InRange, start_new_round}
use cpptcpmultiplayer.GameState.Invariant.{IsValid}
use cpptcpmultiplayer.Server.{Network, Server, ClientConnection, deactivate}
use cpptcpmultiplayer.Server.Kept.{
  IsServed, IsServed-IsKept, update-Distinct, Distinct-IsKept, absent-IsKept,
}
use cpptcpmultiplayer.Server.Stream.Frames.{receive_chunk-keeps}
use cpptcpmultiplayer.GameServer.{World}
use cpptcpmultiplayer.GameServer.Round.{start_new_round_if_possible}
use cpptcpmultiplayer.GameServer.Handlers.{handle_leave, handle_packet}
use cpptcpmultiplayer.GameServer.Handlers.Tables.{handle_packet-keeps}
use cpptcpmultiplayer.GameServer.Handlers.Keep.{handle_packet-IsValid}
use cpptcpmultiplayer.GameServer.Session.{
  Received, Session, waiting, ended, bytes_at, no_bytes, is_client_active, release, deliver, heard,
  end_client, handle_client,
}

-- The id is not the id of a player.
abbrev Gone : ℕ → GameState → Type 0
Gone id g = contains id g.players ≡ false

Gone-clear_round : (id : ℕ) (g : GameState) → Gone id g → Gone id (clear_round g)
unfolding clear_round
Gone-clear_round id g h = contains-map_values _ id g.players ∙ h

Gone-start_new_round :
    (id : ℕ) (random : Random) (g : GameState) → Gone id g → Gone id (start_new_round random g)
unfolding start_new_round
Gone-start_new_round id random g h =
    if-elim (Gone id) (ltb (length g.players) 3 || ltb 6 (length g.players)) _ _ (λ _. h)
      (λ _. contains-map_values _ id (clear_round g).players ∙ Gone-clear_round id g h)

Gone-remove_player : (id : ℕ) (g : GameState) → IsValid g → Gone id (remove_player id g).0
unfolding remove_player contains
Gone-remove_player id g v = elim (Bool-cases (contains id g.players)) [
  | inl q ↦ rw (q, remove_player) (rw (find-erase_self id g.players v.players_distinct))
  | inr q ↦ rw (q, remove_player) q
]

remove_player-removes :
    (id : ℕ) (g : GameState) → contains id g.players ≡ true → (remove_player id g).1 ≡ true
unfolding remove_player
remove_player-removes id g h = rw (h, remove_player)

-- What holds of a world between two packets.
pub record Sound (w : World) : Type 0 where
  pub game_valid : IsValid w.game
  pub ids_distinct : Distinct w.server.connections

-- This socket was closed.
unfoldable pub is_closed : ℕ → List ℕ → Bool
is_closed socket [] = false
is_closed socket (c ∷ closed) = c == socket || is_closed socket closed

-- A client has left, and its socket is closed. Its entry in the list of threads stays, and is not active.
pub record HasLeft (client_id socket : ℕ) (w : World) : Type 0 where
  pub not_connected : find client_id w.server.connections ≡ none
  pub not_playing : has_player client_id w.game ≡ false
  pub not_active : is_client_active client_id w.server.client_threads ≡ false
  pub socket_closed : is_closed socket w.server.closed ≡ true

is_closed-IsServed : (socket : ℕ) → IsServed (λ (s : Server). is_closed socket s.closed ≡ true)
unfolding is_closed
is_closed-IsServed socket = record { logged = λ log s h. h; left = λ id c s h. ground (arith, h) }

deactivate-off :
    (id other : ℕ) (threads : List ClientConnection)
    → is_client_active id threads ≡ false
    → is_client_active id (deactivate other threads) ≡ false
unfolding is_client_active deactivate
deactivate-off id other [] h = refl
deactivate-off id other (c ∷ threads) h =
    let rest = deactivate-off id other threads in ground (arith, h, rest)

is_client_active-deactivate :
    (id : ℕ) (threads : List ClientConnection) → is_client_active id (deactivate id threads) ≡ false
unfolding is_client_active deactivate
is_client_active-deactivate id [] = refl
is_client_active-deactivate id (c ∷ threads) =
    let rest = is_client_active-deactivate id threads in ground (arith, rest)

off-IsServed : (id : ℕ) → IsServed (λ (s : Server). is_client_active id s.client_threads ≡ false)
off-IsServed id = record {
  logged = λ log s h. h;
  left = λ other c s h. deactivate-off id other s.client_threads h;
}

-- What holds of a thread, where it stands.
abbrev pub IsInOrder : ℕ → ℕ → Session → Type 0
IsInOrder id socket (waiting packet_buffer w) = Sound w
IsInOrder id socket (ended w) = Sound w × HasLeft id socket w

module _ (network : Network) (random : ℕ → Random) (r : (i : ℕ) → InRange (random i)) where
  Gone-start :
      (id : ℕ) (w : World)
      → Gone id w.game
      → Gone id (start_new_round_if_possible network random w).game
  unfolding start_new_round_if_possible
  Gone-start id w h =
      let P : World → Type 0 = λ u. Gone id u.game in
      if-elim P (not (can_start_round w.game)) _ _ (λ _. h)
        λ _.
          if-elim P w.game.round_active _ _ (λ _. h)
            λ _.
              let g = start_new_round (random w.draws) w.game in
              let gone = Gone-start_new_round id (random w.draws) w.game h in
              if-elim P ((g.current_liar_id == 0) || is_nil g.current_topic) _ _ (λ _. gone)
                (λ _. gone)

  Gone-handle_leave :
      (id : ℕ) (w : World) → IsValid w.game → Gone id (handle_leave network random id w).game
  unfolding handle_leave has_player
  Gone-handle_leave id w v =
      let P : World → Type 0 = λ u. Gone id u.game in
      if-elim P (not (contains id w.game.players)) _ _ (λ q. ground arith)
        λ here.
          let gone = Gone-remove_player id w.game v in
          if-elim P (not (remove_player id w.game).1) _ _
            (λ q. absurd (ground (arith, remove_player-removes id w.game)))
            λ _.
              let game =
                if w.game.round_active
                then clear_round (remove_player id w.game).0
                else (remove_player id w.game).0 in
              let reset : Gone id game =
                if-elim (Gone id) w.game.round_active _ _ (λ _. Gone-clear_round id _ gone)
                  (λ _. gone) in
              if-elim P (ltb (get_player_count game) 3) _ _ (λ _. reset)
                (λ _. Gone-start id _ reset)

  Sound-handle_packet :
      (packet : Packet) (id : ℕ) (w : World)
      → Sound w
      → Sound (handle_packet network random packet id w)
  Sound-handle_packet packet id w h = record {
    game_valid = handle_packet-IsValid network random r packet id w h.game_valid;
    ids_distinct =
        handle_packet-keeps (λ s. Distinct s.connections) (IsServed-IsKept Distinct Distinct-IsKept)
          network random packet id w h.ids_distinct;
  }

  module _ (id socket : ℕ) where
    end_client-IsInOrder :
        (w : World) → Sound w → IsInOrder id socket (ended (end_client network random id socket w))
    unfolding end_client remove_connection handle_packet make_packet has_player is_closed
    end_client-IsInOrder w h =
        let m = w.server.connections in
        let marked = Distinct-IsKept id m h.ids_distinct in
        let erased = find-erase_self id _ marked in
        let leave = make_packet MessageType.player_leave [] in
        let world = release network random id socket w in
        let now_closed : is_closed socket (socket ∷ w.server.closed) ≡ true = rw (==_refl socket) in
        (
          Sound-handle_packet leave id world
              (record { game_valid = h.game_valid; ids_distinct = erase-Distinct id _ marked }),
          record {
            not_connected =
                handle_packet-keeps (λ s. find id s.connections ≡ none)
                  (IsServed-IsKept (λ m. find id m ≡ none) (absent-IsKept id)) network random leave
                  id world erased;
            not_playing = Gone-handle_leave id world h.game_valid;
            not_active =
                handle_packet-keeps (λ (s : Server). is_client_active id s.client_threads ≡ false)
                  (off-IsServed id) network random leave id world
                  (is_client_active-deactivate id w.server.client_threads);
            socket_closed =
                handle_packet-keeps (λ (s : Server). is_closed socket s.closed ≡ true)
                  (is_closed-IsServed socket) network random leave id world now_closed;
          },
        )

    Sound-deliver :
        (packet : Packet) (w : World) → Sound w → Sound (deliver network random id socket packet w)
    Sound-deliver packet w h =
        Sound-handle_packet packet id _
          (record { game_valid = h.game_valid; ids_distinct = h.ids_distinct })

    Sound-heard : (now : ℕ) (w : World) → Sound w → Sound (heard network random id socket now w)
    unfolding update_heartbeat
    Sound-heard now w h = record {
      game_valid = h.game_valid;
      ids_distinct = update-Distinct id _ _ h.ids_distinct;
    }

    abbrev Ends : Result Session → Type 0
    Ends x = (o : Session) × (x ≡ ok o) × IsInOrder id socket o

    stops : (w : World) → Sound w → Ends (ok (ended (end_client network random id socket w)))
    stops w h = (ended (end_client network random id socket w), refl, end_client-IsInOrder w h)

    handle_client-Ends :
        (received : List Received) (packet_buffer : List ℕ) (w : World)
        → Sound w
        → Ends (handle_client network random id socket received packet_buffer w)
    unfolding handle_client
    handle_client-Ends [] b w h =
        if-elim Ends (w.server.running && is_client_active id w.server.client_threads) _ _
          (λ _. (waiting b w, refl, h)) (λ _. stops w h)
    handle_client-Ends (no_bytes ∷ more) b w h = stops w h
    handle_client-Ends (bytes_at now chunk ∷ more) b w h =
        if-elim Ends (w.server.running && is_client_active id w.server.client_threads) _ _
          (λ _.
            let (rest, u, e, k) =
              receive_chunk-keeps (deliver network random id socket) Sound b chunk
                (heard network random id socket now w) Sound-deliver (Sound-heard now w h) in
            subst
              (λ x. Ends (x >>= λ (rest, u). handle_client network random id socket more rest u))
              (sym e) (handle_client-Ends more rest u k))
          (λ _. stops w h)

    -- With a generator that stays in its bounds, and from a well-formed game and a table without an id
    -- twice, the thread of a client handles all that `recv` gives, whatever the bytes and whatever the
    -- network does, without a read outside its buffer. The game and the table stay so. Once the thread has
    -- ended, the client is neither in the table of connections nor in the game, its entry in the list of
    -- threads is not active, and its socket is closed.
    pub handle_client_lem :
        (received : List Received) (packet_buffer : List ℕ) (w : World)
        → IsValid w.game
        → Distinct w.server.connections
        → (o : Session) × (handle_client network random id socket received packet_buffer w ≡ ok o)
          × IsInOrder id socket o
    handle_client_lem received packet_buffer w v d =
        handle_client-Ends received packet_buffer w (record { game_valid = v; ids_distinct = d })
