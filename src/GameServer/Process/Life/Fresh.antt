-- ===== src/GameServer/Process/Life/Fresh.antt =====
-- The ids that src/server/server.cpp gives, in the process of src/server/game_server.cpp.
use cpptcpmultiplayer.Prelude.{ℕ, ◌+◌, ◌^◌, ◌<◌, ◌≡◌, refl, sym, false, none, List, [], ◌∷◌, arith}
use mathlib.Core.Path.{subst}
use cpptcpmultiplayer.Prelude.Maps.{find, contains, Distinct, erase-Distinct}
use cpptcpmultiplayer.Prelude.Maps.Every.{Every, Every-erase, Every-weaken}
use cpptcpmultiplayer.Packet.{Packet, make_packet}
use cpptcpmultiplayer.Packet.MessageType
use cpptcpmultiplayer.ConnectionManager.{
  get_connection, set_status, update_heartbeat, remove_connection, disconnecting, with_status,
}
use cpptcpmultiplayer.GameState.{GameState, has_player}
use cpptcpmultiplayer.GameState.Round.{Random, InRange}
use cpptcpmultiplayer.GameState.Invariant.{IsValid, new_game-IsValid}
use cpptcpmultiplayer.Server.{Network}
use cpptcpmultiplayer.Server.Kept.{update-Distinct, Distinct-IsKept}
use cpptcpmultiplayer.GameServer.{World}
use cpptcpmultiplayer.GameServer.Handlers.{handle_packet}
use cpptcpmultiplayer.GameServer.Handlers.Tables.{handle_packet-keeps}
use cpptcpmultiplayer.GameServer.Handlers.Keep.{handle_packet-played, handle_packet-IsValid}
use cpptcpmultiplayer.GameServer.Session.{end_client, release}
use cpptcpmultiplayer.GameServer.Process.Life.{
  first_world, Happens, hears, delivers, ends, interrupts, has_joined, Life, opens, accepts,
  goes_on,
}
use cpptcpmultiplayer.GameServer.Process.Life.Ids.{
  Below, Under, IsNext, Below-IsPlayed, update-Under, deactivate-IsUnder, has_thread-IsUnder,
  IsNext-IsServed, accept_client-IsNext, closing-IsNext, cleared-IsNext,
}

-- What holds while this many clients are accepted.
record IsSteady (n : ℕ) (w : World) : Type 0 where
  game_valid : IsValid w.game
  players : Every (Below (n + 1)) w.game.players
  server : IsNext (n + 1) w.server

module _ (network : Network) (random : ℕ → Random) (r : (i : ℕ) → InRange (random i)) where
  handle_packet-IsSteady :
      (n id : ℕ) (packet : Packet) (w : World)
      → id < n + 1
      → IsSteady n w
      → IsSteady n (handle_packet network random packet id w)
  handle_packet-IsSteady n id packet w l h = record {
    game_valid = handle_packet-IsValid network random r packet id w h.game_valid;
    players =
        handle_packet-played (λ (g : GameState). Every (Below (n + 1)) g.players) id
          (Below-IsPlayed (n + 1) id l) network random r packet w h.players;
    server =
        handle_packet-keeps (IsNext (n + 1)) (IsNext-IsServed (n + 1)) network random packet id w
          h.server;
  }

  release-IsNext :
      (n id socket : ℕ) (w : World)
      → IsNext n w.server
      → IsNext n (release network random id socket w).server
  unfolding set_status remove_connection
  release-IsNext n id socket w h =
      let s = w.server in
      record {
        distinct = erase-Distinct id _ (Distinct-IsKept id s.connections h.distinct);
        below =
            Every-erase (Under n) id _
              (update-Under n id (with_status disconnecting) s.connections h.below);
        threads = deactivate-IsUnder n id s.client_threads h.threads;
        next = h.next;
      }

  Happens-IsSteady :
      {n : ℕ} {w v : World} → Happens network random w v → IsSteady n w → IsSteady n v
  unfolding update_heartbeat end_client
  Happens-IsSteady {n} {w} (hears id socket now t) h = record {
    game_valid = h.game_valid;
    players = h.players;
    server = record {
      distinct = update-Distinct id _ w.server.connections h.server.distinct;
      below = update-Under (n + 1) id _ w.server.connections h.server.below;
      threads = h.server.threads;
      next = h.server.next;
    };
  }
  Happens-IsSteady {n} {w} (delivers id socket packet t) h =
      handle_packet-IsSteady n id packet _
        (has_thread-IsUnder (n + 1) id w.server.client_threads h.server.threads t)
        (record {
          game_valid = h.game_valid;
          players = h.players;
          server = record {
            distinct = h.server.distinct;
            below = h.server.below;
            threads = h.server.threads;
            next = h.server.next;
          };
        })
  Happens-IsSteady {n} {w} (ends id socket t) h =
      handle_packet-IsSteady n id (make_packet MessageType.player_leave []) _
        (has_thread-IsUnder (n + 1) id w.server.client_threads h.server.threads t)
        (record {
          game_valid = h.game_valid;
          players = h.players;
          server = release-IsNext (n + 1) id socket w h.server;
        })
  Happens-IsSteady {n} {w} (interrupts on) h = record {
    game_valid = h.game_valid;
    players = h.players;
    server = closing-IsNext (n + 1) w.server h.server;
  }
  Happens-IsSteady {n} {w} (has_joined off) h = record {
    game_valid = h.game_valid;
    players = h.players;
    server = cleared-IsNext (n + 1) w.server h.server;
  }

  first-IsSteady : (listening : ℕ) → IsSteady 0 (first_world listening)
  unfolding find
  first-IsSteady listening = record {
    game_valid = new_game-IsValid;
    players = tt;
    server = record { distinct = tt; below = tt; threads = tt; next = refl };
  }

  Life-IsSteady : {n : ℕ} {w : World} → Life network random n w → n + 1 < 2 ^ 32 → IsSteady n w
  Life-IsSteady (opens listening) few = first-IsSteady listening
  Life-IsSteady (accepts {n} {w} socket address now life on) few =
      let h = Life-IsSteady life (omega (arith, few)) in
      record {
        game_valid = h.game_valid;
        players =
            Every-weaken (Below (n + 1)) (Below (n + 1 + 1)) w.game.players
              (λ k p l. omega (arith, l)) h.players;
        server = accept_client-IsNext (n + 1) socket address now w.server few h.server;
      }
  Life-IsSteady (goes_on life e) few = Happens-IsSteady e (Life-IsSteady life few)

  find-Below : {V : Type 0} (n : ℕ) (m : List (ℕ × V)) → Every (λ k v. k < n) m → find n m ≡ none
  unfolding find
  find-Below n [] h = refl
  find-Below n ((k, v) ∷ m) h = ground (arith, h.0, find-Below n m h.1)

  contains-Below :
      {V : Type 0} (n : ℕ) (m : List (ℕ × V)) → Every (λ k v. k < n) m → contains n m ≡ false
  unfolding contains
  contains-Below n [] h = refl
  contains-Below n ((k, v) ∷ m) h = ground (arith, h.0, contains-Below n m h.1)

  -- Take a generator that stays in its bounds, and any network. However clients are accepted, send any
  -- packets and leave, and whether or not Ctrl+C stops the server in between: as long as fewer than
  -- 2 ^ 32 - 1 clients were accepted, the game is well formed, the table has no id twice, and the id for the
  -- next client is one more than the number of those accepted, and is that of no connection and no player.
  pub Life-new_id :
      {n : ℕ} {w : World}
      → Life network random n w
      → n + 1 < 2 ^ 32
      → IsValid w.game
        × Distinct w.server.connections
        × (w.server.next_client_id ≡ n + 1)
        × (get_connection w.server.next_client_id w.server.connections ≡ none)
        × (has_player w.server.next_client_id w.game ≡ false)
  unfolding get_connection has_player
  Life-new_id {n} {w} life few =
      let h = Life-IsSteady life few in
      let next = sym h.server.next in
      (
        h.game_valid,
        h.server.distinct,
        h.server.next,
        subst (λ k. find k w.server.connections ≡ none) next
            (find-Below (n + 1) w.server.connections h.server.below),
        subst (λ k. contains k w.game.players ≡ false) next
            (contains-Below (n + 1) w.game.players h.players),
      )
