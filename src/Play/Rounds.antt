-- ===== src/Play/Rounds.antt =====
-- The starts and ends of rounds in src/server/game_server.cpp and what a client then shows.
use cpptcpmultiplayer.Prelude.{
  ℕ, ◌+◌, ◌^◌, ◌<◌, ◌≡◌, not, ◌||◌, none, some, List, [], ◌∷◌, ◌++◌, ◌==◌, if◌then◌else◌, length,
  All, All-append, if-elim, is_nil,
}
use cpptcpmultiplayer.PlayerState.{PlayerState}
use cpptcpmultiplayer.Serialization.Update.{create_game_state_update_packet}
use cpptcpmultiplayer.Serialization.Vote.{create_vote_result_packet}
use cpptcpmultiplayer.Server.{Network, Sent, sent_bytes, broadcast}
use cpptcpmultiplayer.Server.Mail.{Owns, Tells-none, Tells-then, Owns-table, broadcast-Tells}
use cpptcpmultiplayer.GameState.{can_start_round, get_all_player_states}
use cpptcpmultiplayer.GameState.Round.{Random, start_new_round}
use cpptcpmultiplayer.GameState.Invariant.{IsValid}
use cpptcpmultiplayer.GameServer.{World}
use cpptcpmultiplayer.GameServer.Round.{assignment_for, start_new_round_if_possible}
use cpptcpmultiplayer.GameServer.Ballot.{count_ballot, vote_result, settle, finish_round}
use cpptcpmultiplayer.GameServer.Handlers.Keep.{settle-IsValid}
use cpptcpmultiplayer.GameServer.Mail.{packet_of, role_packet, role_packets, send_roles-Tells}
use cpptcpmultiplayer.GameClient.{GameClient}
use cpptcpmultiplayer.Play.{Shows, Hears-none, Hears-after, Reaches, Reaches-none, Reaches-then}
use cpptcpmultiplayer.Play.Packets.{
  IsQuiet, one_packet, create_role_assignment_packet-IsQuiet, create_vote_result_packet-IsQuiet,
  Hears-quiet, Hears-update, Shows-start_new_round,
}
use cpptcpmultiplayer.Play.Ranges.{IsRanged, settle-IsTold}

role_packet-IsQuiet :
    (topic word : List ℕ) (p : PlayerState) → All IsQuiet (role_packet topic word p)
role_packet-IsQuiet topic word p = go (assignment_for topic word p)
  where
    go : (a : _) → All IsQuiet (packet_of a)
    go none = tt
    go (some a) = (create_role_assignment_packet-IsQuiet a, tt)

role_packets-IsQuiet :
    (topic word : List ℕ) (id : ℕ) (players : List PlayerState)
    → All IsQuiet (role_packets topic word id players)
role_packets-IsQuiet topic word id [] = tt
role_packets-IsQuiet topic word id (p ∷ players) =
    All-append IsQuiet (if p.id == id then role_packet topic word p else [])
      (role_packets topic word id players)
      (if-elim (All IsQuiet) (p.id == id) _ _ (λ _. role_packet-IsQuiet topic word p) (λ _. tt))
      (role_packets-IsQuiet topic word id players)

module _ (network : Network)
    (delivers : (log : List Sent) (socket : ℕ) (bytes : List ℕ)
      → network log socket bytes ≡ sent_bytes (length bytes))
    (random : ℕ → Random) (id socket : ℕ) where
  -- The start of a round, whether or not one starts.
  pub start-Reaches :
      (w : World) (c : GameClient)
      → Owns id socket w.server.connections
      → Shows w.game c
      → Reaches socket w (start_new_round_if_possible network random w) c
  unfolding start_new_round_if_possible
  start-Reaches w c o s =
      let h = start_new_round (random w.draws) w.game in
      let T : World → Type 0 = λ v. Reaches socket w v c in
      let shows : Shows h c = Shows-start_new_round (random w.draws) w.game c s in
      if-elim T (not (can_start_round w.game)) _ _ (λ _. Reaches-none w c s)
        λ _.
          if-elim T w.game.round_active _ _ (λ _. Reaches-none w c s)
            λ _.
              if-elim T ((h.current_liar_id == 0) || is_nil h.current_topic) _ _
                (λ _. record {
                  packets = [];
                  tells = Tells-none w.server;
                  hears = Hears-none h c shows;
                })
                (λ _. record {
                  packets =
                      role_packets h.current_topic h.current_word id (get_all_player_states h);
                  tells =
                      send_roles-Tells network delivers id socket h.current_topic h.current_word
                        (get_all_player_states h) w.server o;
                  hears =
                      Hears-quiet h _ c
                        (role_packets-IsQuiet h.current_topic h.current_word id
                          (get_all_player_states h))
                        shows;
                })

  pub then-start :
      (w v : World) (c : GameClient)
      → Owns id socket w.server.connections
      → Reaches socket w v c
      → Reaches socket w (start_new_round_if_possible network random v) c
  then-start w v c o a = Reaches-then a (λ d s. start-Reaches v d (Owns-table a.tells o) s)

  -- The branch in which everybody has voted.
  pub finish_round-Reaches :
      (n : ℕ) (w : World) (c : GameClient)
      → IsValid w.game
      → IsRanged n w.game
      → n + 2 < 2 ^ 31
      → Owns id socket w.server.connections
      → Reaches socket w (finish_round network random w) c
  unfolding finish_round
  finish_round-Reaches n w c v r h o =
      let result_packet = create_vote_result_packet (vote_result (count_ballot w.game)) in
      let g = settle w.game in
      let told = settle-IsTold n w.game h r in
      let first = broadcast-Tells network delivers id socket result_packet w.server o in
      let second =
        broadcast-Tells network delivers id socket
          (create_game_state_update_packet (get_all_player_states g))
          (broadcast network result_packet w.server) (Owns-table first o) in
      let (d, e, same) = create_vote_result_packet-IsQuiet (vote_result (count_ballot w.game)) c in
      then-start w _ c o (record {
        packets =
            (result_packet ∷ [])
            ++ (create_game_state_update_packet (get_all_player_states g) ∷ []);
        tells = Tells-then first second;
        hears =
            Hears-after (result_packet ∷ []) (one_packet result_packet c d e)
              (Hears-update g d (settle-IsValid w.game v) told.players told.count);
      })
