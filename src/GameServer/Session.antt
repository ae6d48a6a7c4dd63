-- ===== src/GameServer/Session.antt =====
-- The thread of a client, `Server::handleClient` of src/server/server.cpp, with the packet callback of
-- src/server/game_server.cpp.
pub mod Ends
mod Runs
use cpptcpmultiplayer.Prelude.{
  ℕ, zero, suc, ◌+◌, ◌-◌, ◌*◌, ◌/◌, ◌%◌, ◌^◌, ◌≤◌, ◌<◌, ◌≡◌, refl, sym, ap, ◌∙◌, ◌≢◌, ◌↔◌, ◌⊎◌, inl,
  inr, Bool, true, false, not, ◌&&◌, ◌||◌, Option, none, some, List, [], ◌∷◌, ◌++◌, map, append-nil,
  append_assoc, arith, ltb, leb, ◌==◌, if◌then◌else◌, ltb→lt, ltb→ge, lt→ltb, ge→ltb, le→leb,
  gt→leb, leb→le, leb→gt, ==_refl, ==_iff, Bool-cases, Bool-ext, Option-cases, length, get_or, drop,
  take, All, length-append, length-drop, nil_of_length, length-take_le, take-append_le, take-append,
  drop-append, drop-append_le, drop-drop, All-append, Result, ok, fault, stuck, ◌>>=◌, Returns,
  Returns-value, >>=-Returns, if-Returns, drop-append_add, if-elim, is_nil, equal_bytes,
  equal_bytes→eq, equal_bytes_refl,
}
use cpptcpmultiplayer.Bytes.{
  IsU32, IsU16, IsByte, be32, be16, to_u32, read_u32, read_u16, read_bytes, load_u32, load_u16,
  load_bytes, load_u32-Returns, load_u16-Returns, load_bytes-Returns, read_u32-be32, read_u16-be16,
  read_bytes-append, read_bytes-take, load_u32_at, load_bytes_at, load_length_at,
}
use cpptcpmultiplayer.Packet.{Packet, make_packet}
use cpptcpmultiplayer.Packet.MessageType
use cpptcpmultiplayer.MessageQueue.{push}
use cpptcpmultiplayer.ConnectionManager.{
  disconnecting, set_status, remove_connection, update_heartbeat,
}
use cpptcpmultiplayer.GameState.Round.{Random}
use cpptcpmultiplayer.Server.{Network, Server, ClientConnection, deactivate}
use cpptcpmultiplayer.Server.Stream.{receive_chunk}
use cpptcpmultiplayer.GameServer.{World}
use cpptcpmultiplayer.GameServer.Handlers.{handle_packet}

-- What `recv` gives: some bytes, at a reading of the clock, or no more of them, because the client is
-- gone or because of an error.
pub data Received : Type 0 where
  bytes_at : ℕ → List ℕ → Received
  no_bytes : Received

-- Where the thread stands when all that `recv` has given so far is handled: it waits for more, with the
-- bytes that it keeps, or it has ended.
pub data Session : Type 0 where
  waiting : List ℕ → World → Session
  ended : World → Session

-- `client->active`.
unfoldable pub is_client_active : ℕ → List ClientConnection → Bool
is_client_active id [] = false
is_client_active id (c ∷ threads) = if c.id == id then c.active else is_client_active id threads

module _ (network : Network) (random : ℕ → Random) (client_id socket : ℕ) where
  -- A packet goes to the queue and to the callback.
  abbrev pub deliver : Packet → World → World
  deliver packet w =
      handle_packet network random packet client_id (record w {
        server = record w.server { message_queue = push packet w.server.message_queue };
      })

  -- What follows the loop: the socket is closed, and the client is taken out of the table.
  abbrev pub release : World → World
  release w =
      let s = w.server in
      let marked = (set_status client_id disconnecting s.connections).0 in
      record w {
        server = record s {
          closed = socket ∷ s.closed;
          client_threads = deactivate client_id s.client_threads;
          connections = (remove_connection client_id marked).0;
        };
      }

  -- Then the callback is told that the client has left.
  unfoldable pub end_client : World → World
  end_client w =
      handle_packet network random (make_packet MessageType.player_leave []) client_id (release w)

  abbrev pub heard : ℕ → World → World
  heard now w = record w {
    server = record w.server {
      connections = (update_heartbeat client_id now w.server.connections).0;
    };
  }

  -- The loop, over what `recv` gives, with `packetBuffer`.
  unfoldable pub handle_client : List Received → List ℕ → World → Result Session
  unfolding receive_chunk end_client
  handle_client [] packet_buffer w =
      if w.server.running && is_client_active client_id w.server.client_threads
      then ok (waiting packet_buffer w)
      else ok (ended (end_client w))
  handle_client (no_bytes ∷ more) packet_buffer w = ok (ended (end_client w))
  handle_client (bytes_at now chunk ∷ more) packet_buffer w =
      if w.server.running && is_client_active client_id w.server.client_threads
      then (do
        (rest, w') ← receive_chunk deliver packet_buffer chunk (heard now w)
        handle_client more rest w')
      else ok (ended (end_client w))
