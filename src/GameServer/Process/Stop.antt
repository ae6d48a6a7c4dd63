-- ===== src/GameServer/Process/Stop.antt =====
-- What `stop` of src/server/server.cpp closes and leaves, with what the threads of the clients do until
-- they are joined.
use cpptcpmultiplayer.Prelude.{
  ℕ, ◌≡◌, refl, ap, ◌∙◌, true, false, ==_refl, none, List, [], ◌∷◌, ◌++◌, arith, All,
}
use cpptcpmultiplayer.Packet.{make_packet}
use cpptcpmultiplayer.Packet.MessageType
use cpptcpmultiplayer.ConnectionManager.{
  get_all_connections, clear_all_connections, update_heartbeat,
}
use cpptcpmultiplayer.GameState.{clear_all_players, clear_round}
use cpptcpmultiplayer.GameState.Round.{Random}
use cpptcpmultiplayer.Prelude.Maps.{map_values}
use cpptcpmultiplayer.Server.{Network, Server}
use cpptcpmultiplayer.Server.Kept.{IsServed}
use cpptcpmultiplayer.Server.Lifecycle.{closing, cleared}
use cpptcpmultiplayer.Server.Lifecycle.Fresh.{sockets_onto, listening_onto, closing_lem}
use cpptcpmultiplayer.GameServer.{World}
use cpptcpmultiplayer.GameServer.Handlers.Tables.{handle_packet-keeps}
use cpptcpmultiplayer.GameServer.Session.{end_client, release}
use cpptcpmultiplayer.GameServer.Session.Ends.{is_closed}
use cpptcpmultiplayer.GameServer.Process.{
  Deed, hears_at, hands_on, has_ended, do_deed, do_deeds, stop, console_handler, shut_down,
}

-- The sockets of the threads that end.
unfoldable pub ended_sockets : List Deed → List ℕ
ended_sockets [] = []
ended_sockets (hears_at id socket now ∷ deeds) = ended_sockets deeds
ended_sockets (hands_on id socket packet ∷ deeds) = ended_sockets deeds
ended_sockets (has_ended id socket ∷ deeds) = socket ∷ ended_sockets deeds

-- Since these sockets were closed, others were, and all of the second list among them.
pub record Closes (before ended : List ℕ) (s : Server) : Type 0 where
  pub since : List ℕ
  pub closed_since : s.closed ≡ since ++ before
  pub ended_since : All (λ socket. is_closed socket since ≡ true) ended

is_closed-more :
    (others sockets : List ℕ) (c : ℕ)
    → All (λ socket. is_closed socket sockets ≡ true) others
    → All (λ socket. is_closed socket (c ∷ sockets) ≡ true) others
unfolding is_closed
is_closed-more [] sockets c h = tt
is_closed-more (o ∷ others) sockets c h = (ground (arith, h.0), is_closed-more others sockets c h.1)

closes :
    (before ended : List ℕ) (s t : Server) (c : ℕ)
    → t.closed ≡ c ∷ s.closed
    → Closes before ended s
    → Closes before ended t
closes before ended s t c e h = record {
  since = c ∷ h.since;
  closed_since = e ∙ ap (λ l. c ∷ l) h.closed_since;
  ended_since = is_closed-more ended h.since c h.ended_since;
}

Closes-IsServed : (before ended : List ℕ) → IsServed (Closes before ended)
Closes-IsServed before ended = record {
  logged = λ log s h. record {
    since = h.since;
    closed_since = h.closed_since;
    ended_since = h.ended_since;
  };
  left = λ id socket s h. closes before ended s _ socket refl h;
}

off-IsServed : IsServed (λ (s : Server). (s.running ≡ false) × (s.server_socket ≡ none))
off-IsServed = record { logged = λ log s h. h; left = λ id socket s h. h }

module _ (network : Network) (random : ℕ → Random) where
  do_deeds-off :
      (deeds : List Deed) (w : World)
      → (w.server.running ≡ false) × (w.server.server_socket ≡ none)
      → let t = (do_deeds network random deeds w).server in
        (t.running ≡ false) × (t.server_socket ≡ none)
  unfolding do_deeds do_deed end_client update_heartbeat
  do_deeds-off [] w h = h
  do_deeds-off (hears_at id socket now ∷ deeds) w h = do_deeds-off deeds _ h
  do_deeds-off (hands_on id socket packet ∷ deeds) w h =
      do_deeds-off deeds _ (handle_packet-keeps _ off-IsServed network random packet id _ h)
  do_deeds-off (has_ended id socket ∷ deeds) w h = do_deeds-off deeds _ (
      handle_packet-keeps _ off-IsServed network random (make_packet MessageType.player_leave []) id
        (release network random id socket w) h)

  do_deeds-Closes :
      (before ended : List ℕ) (deeds : List Deed) (w : World)
      → Closes before ended w.server
      → (l : List ℕ) × ((do_deeds network random deeds w).server.closed ≡ l ++ before)
        × All (λ socket. is_closed socket l ≡ true) ended
        × All (λ socket. is_closed socket l ≡ true) (ended_sockets deeds)
  unfolding do_deeds do_deed end_client update_heartbeat ended_sockets is_closed
  do_deeds-Closes before ended [] w h = (h.since, h.closed_since, h.ended_since, tt)
  do_deeds-Closes before ended (hears_at id socket now ∷ deeds) w h =
      do_deeds-Closes before ended deeds _
        (record { since = h.since; closed_since = h.closed_since; ended_since = h.ended_since })
  do_deeds-Closes before ended (hands_on id socket packet ∷ deeds) w h =
      do_deeds-Closes before ended deeds _ (
        handle_packet-keeps _ (Closes-IsServed before ended) network random packet id _
          (record { since = h.since; closed_since = h.closed_since; ended_since = h.ended_since }))
  do_deeds-Closes before ended (has_ended id socket ∷ deeds) w h =
      let also : Closes before (socket ∷ ended) (release network random id socket w).server =
        record {
          since = socket ∷ h.since;
          closed_since = ap (λ l. socket ∷ l) h.closed_since;
          ended_since = (rw (==_refl socket), is_closed-more ended h.since socket h.ended_since);
        } in
      let (l, e, (here, others), all) = do_deeds-Closes before (socket ∷ ended) deeds _ (
        handle_packet-keeps _ (Closes-IsServed before (socket ∷ ended)) network random
          (make_packet MessageType.player_leave []) id (release network random id socket w) also) in
      (l, e, others, (here, all))

  -- Over any network and generator, when a running server is stopped, then whatever the threads of its
  -- clients do until they are joined, in any order, the server does not run and has no listening socket, no
  -- connection and no thread. The listening socket and then the socket of each connection of the table were
  -- closed, and after them other sockets, with the socket of each thread that ended in between among them.
  -- A second stop changes nothing.
  pub stop_lem :
      (deeds later : List Deed) (w : World)
      → w.server.running ≡ true
      → let t = stop network random deeds w in
        (t.server.running ≡ false)
        × (t.server.server_socket ≡ none)
        × (t.server.connections ≡ [])
        × (t.server.client_threads ≡ [])
        × ((l : List ℕ) × (t.server.closed
              ≡ l
                ++ sockets_onto
                    (get_all_connections w.server.connections)
                    (listening_onto w.server))
            × All (λ socket. is_closed socket l ≡ true) (ended_sockets deeds))
        × (stop network random later t ≡ t)
  unfolding stop cleared clear_all_connections
  stop_lem deeds later w on =
      let halfway = record w { server = closing w.server } in
      let (shut, stopped, gone) = closing_lem w.server in
      let (off, none_left) = do_deeds-off deeds halfway (stopped, gone) in
      let (l, e, none_before, all) =
        do_deeds-Closes _ [] deeds halfway
          (record { since = []; closed_since = refl; ended_since = tt }) in
      rw (on, stop)
        (off, none_left, refl, refl, (l, e ∙ ap (λ b. l ++ b) shut, all), rw (off, stop))

  -- After Ctrl+C on a running server and the end of `main` there is no connection, no thread and no player.
  nothing_left :
      (deeds : List Deed) (w : World)
      → w.server.running ≡ true
      → let t = shut_down (console_handler network random true deeds w).0 in
        (t.server.connections ≡ []) × (t.server.client_threads ≡ []) × (t.game.players ≡ [])
  unfolding shut_down console_handler clear_all_players clear_round map_values
  nothing_left deeds w on =
      let (off, none_left, table, threads, shut, again) = stop_lem deeds [] w on in
      (table, threads, refl)
