-- ===== src/Play/Handlers.antt =====
-- The callback of src/server/game_server.cpp and what a client then shows.
use cpptcpmultiplayer.Prelude.{
  ℕ, ◌≡◌, refl, sym, inl, inr, Bool, true, false, not, List, [], ◌∷◌, ◌++◌, arith, ltb, ◌==◌,
  if◌then◌else◌, ==_iff, Bool-cases, length, ok, if-elim,
}
use cpptcpmultiplayer.Bytes.{IsU32}
use cpptcpmultiplayer.Prelude.Maps.{contains}
use cpptcpmultiplayer.Packet.{Packet}
use cpptcpmultiplayer.Packet.MessageType
use cpptcpmultiplayer.PlayerState.{IsPlayer, new_player}
use cpptcpmultiplayer.Serialization.Player.{create_player_state_packet}
use cpptcpmultiplayer.Serialization.Update.{create_game_state_update_packet}
use cpptcpmultiplayer.Server.{Network, Sent, sent_bytes, broadcast, broadcast_except}
use cpptcpmultiplayer.Server.Mail.{
  Owns, Tells-then, Owns-table, send_packet-Tells, broadcast-Tells, broadcast_except-Tells,
}
use cpptcpmultiplayer.GameState.{
  GameState, add_player, remove_player, clear_round, has_player, get_player_count, get_player_state,
  get_all_player_states,
}
use cpptcpmultiplayer.GameState.Round.{Random}
use cpptcpmultiplayer.GameState.Invariant.{IsValid, add_player-IsValid, clear_round-IsValid}
use cpptcpmultiplayer.GameState.Invariant.Leave.{remove_player-IsValid}
use cpptcpmultiplayer.GameServer.{World}
use cpptcpmultiplayer.GameServer.Handlers.{handle_join, handle_leave}
use cpptcpmultiplayer.GameClient.{GameClient}
use cpptcpmultiplayer.GameClient.Handlers.{handle_server_packets}
use cpptcpmultiplayer.Play.{Shows, Hears, Hears-after, Reaches, Reaches-none}
use cpptcpmultiplayer.Play.Packets.{one_packet, leave_packet-Handles, Hears-update, Hears-joined}
use cpptcpmultiplayer.Play.Ranges.{
  IsRanged, joining_name, remove_player-IsTold, new_player-IsPlayer, add_player-IsTold,
}
use cpptcpmultiplayer.Play.Rounds.{then-start}

module _ (network : Network)
    (delivers : (log : List Sent) (socket : ℕ) (bytes : List ℕ)
      → network log socket bytes ≡ sent_bytes (length bytes))
    (random : ℕ → Random) (id socket : ℕ) where
  -- The game without a player who leaves, and the packets that tell of it.
  abbrev game_without : ℕ → World → GameState
  game_without client_id w =
      if w.game.round_active
      then clear_round (remove_player client_id w.game).0
      else (remove_player client_id w.game).0

  abbrev leave_packet : ℕ → World → Packet
  leave_packet client_id w =
      create_player_state_packet MessageType.player_leave (get_player_state client_id w.game)

  abbrev update_without : ℕ → World → Packet
  update_without client_id w =
      create_game_state_update_packet (get_all_player_states (game_without client_id w))

  -- The client of the player who leaves is not sent the first of them.
  handles_leave :
      (own : Bool) (client_id : ℕ) (w : World) (c : GameClient)
      → (d : GameClient) × (handle_server_packets
            (if own then [] else leave_packet client_id w ∷ [])
            c
          ≡ ok d)
  handles_leave true client_id w c = (c, unfold handle_server_packets in refl)
  handles_leave false client_id w c =
      let (d, e) = leave_packet-Handles (get_player_state client_id w.game) c in
      (d, one_packet (leave_packet client_id w) c d e)

  leave_packets-Reaches :
      (n client_id : ℕ) (w : World) (c : GameClient)
      → IsValid w.game
      → IsRanged n w.game
      → Owns id socket w.server.connections
      → let told = broadcast_except network client_id (leave_packet client_id w) w.server in
        Reaches socket w
          (record w {
            server = broadcast network (update_without client_id w) told;
            game = game_without client_id w;
          })
          c
  leave_packets-Reaches n client_id w c v r o =
      let first =
        broadcast_except-Tells network delivers id socket client_id (leave_packet client_id w)
          w.server o in
      let second =
        broadcast-Tells network delivers id socket (update_without client_id w) _
          (Owns-table first o) in
      let fits = remove_player-IsTold n client_id w.game w.game.round_active r in
      let gone = remove_player-IsValid client_id w.game v in
      let valid : IsValid (game_without client_id w) =
        if-elim IsValid w.game.round_active _ _ (λ _. clear_round-IsValid _ gone) (λ _. gone) in
      let (d, e) = handles_leave (id == client_id) client_id w c in
      record {
        packets =
            (if id == client_id then [] else leave_packet client_id w ∷ [])
            ++ (update_without client_id w ∷ []);
        tells = Tells-then first second;
        hears =
            Hears-after _ e
              (Hears-update (game_without client_id w) d valid fits.players fits.count);
      }

  -- PLAYER_LEAVE, for a client that showed the game before.
  pub handle_leave-Reaches :
      (n client_id : ℕ) (w : World) (c : GameClient)
      → IsValid w.game
      → IsRanged n w.game
      → Owns id socket w.server.connections
      → Shows w.game c
      → Reaches socket w (handle_leave network random client_id w) c
  unfolding handle_leave
  handle_leave-Reaches n client_id w c v r o s =
      let T : World → Type 0 = λ u. Reaches socket w u c in
      let left = leave_packets-Reaches n client_id w c v r o in
      if-elim T (not (has_player client_id w.game)) _ _ (λ _. Reaches-none w c s)
        λ _.
          if-elim T (not (remove_player client_id w.game).1) _ _ (λ _. Reaches-none w c s)
            λ _.
              if-elim T (ltb (get_player_count (game_without client_id w)) 3) _ _ (λ _. left)
                (λ _. then-start network delivers random id socket w _ c o left)

  -- The packets of a join: the update for the player who joined, or the player for the others.
  abbrev join_packets : ℕ → GameState → List Packet
  join_packets client_id game =
      (if client_id == id
        then create_game_state_update_packet (get_all_player_states game) ∷ []
        else [])
      ++ (if id == client_id
          then []
          else create_player_state_packet MessageType.player_joined
              (get_player_state client_id game)
            ∷ [])

  Hears-join :
      (n client_id : ℕ) (username : List ℕ) (g : GameState) (c : GameClient)
      → IsValid g
      → IsRanged n g
      → contains client_id g.players ≡ false
      → IsPlayer (new_player client_id username)
      → ((client_id == id) ≡ false → Shows g c)
      → Hears
          (add_player client_id username g).0
          (join_packets client_id (add_player client_id username g).0)
          c
  Hears-join n client_id username g c v r new fits s = elim (Bool-cases (client_id == id)) [
    | inl q ↦
        let told = add_player-IsTold n client_id username g fits r in
        let back : (id == client_id) ≡ true =
          (==_iff id client_id).1 (sym ((==_iff client_id id).0 q)) in
        rw (q, back)
          (Hears-update (add_player client_id username g).0 c
            (add_player-IsValid client_id username g v) told.players told.count)
    | inr q ↦
        let back : (id == client_id) ≡ false = ground arith in
        rw (q, back) (Hears-joined g c client_id username new fits (s q))
  ]

  -- PLAYER_JOIN under a new id. The client of the player need not have shown the game before.
  pub handle_join-Reaches :
      (n client_id : ℕ) (packet : Packet) (w : World) (c : GameClient)
      → IsValid w.game
      → IsRanged n w.game
      → contains client_id w.game.players ≡ false
      → IsU32 client_id
      → IsU32 (length packet.payload)
      → Owns id socket w.server.connections
      → ((client_id == id) ≡ false → Shows w.game c)
      → Reaches socket w (handle_join network random packet client_id w) c
  unfolding handle_join
  handle_join-Reaches n client_id packet w c v r new fits named o s =
      let username = joining_name client_id packet in
      let added = add_player client_id username w.game in
      let accepted : added.1 ≡ true = unfold add_player in ground arith in
      let update = create_game_state_update_packet (get_all_player_states added.0) in
      let joined =
        create_player_state_packet MessageType.player_joined (get_player_state client_id added.0) in
      let first = send_packet-Tells network delivers id socket client_id update w.server o in
      let second =
        broadcast_except-Tells network delivers id socket client_id joined _ (Owns-table first o) in
      if-elim (λ u. Reaches socket w u c) (not added.1) _ _ (λ q. absurd (ground arith))
        λ _. then-start network delivers random id socket w _ c o (record {
          packets = join_packets client_id added.0;
          tells = Tells-then first second;
          hears =
              Hears-join n client_id username w.game c v r new
                (new_player-IsPlayer client_id packet fits named) s;
        })

  pub join_refused :
      (client_id : ℕ) (packet : Packet) (w : World)
      → contains client_id w.game.players ≡ true
      → handle_join network random packet client_id w ≡ w
  unfolding handle_join add_player
  join_refused client_id packet w there = ground arith
