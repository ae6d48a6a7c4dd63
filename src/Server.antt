-- ===== src/Server.antt =====
-- The server's state and its sends: include/server/server.h and src/server/server.cpp.
-- The system's `send` is a parameter: it is told what was sent before, the socket and the bytes, and
-- answers with a number of bytes or an error. What is sent and which sockets are closed is recorded, for
-- the theorems. `clientThreadsMutex_` guards only the list of threads, and each method takes it once.
pub mod Stream
pub mod Sends
pub mod Mail
pub mod Kept
pub mod Lifecycle
pub mod Sample
mod Runs
use cpptcpmultiplayer.Prelude.{
  ℕ, zero, suc, ◌+◌, ◌-◌, ◌*◌, ◌/◌, ◌%◌, ◌^◌, ◌≤◌, ◌<◌, ◌≡◌, refl, sym, ap, ◌∙◌, ◌≢◌, ◌↔◌, ◌⊎◌, inl,
  inr, Bool, true, false, not, ◌&&◌, ◌||◌, Option, none, some, List, [], ◌∷◌, ◌++◌, map, append-nil,
  append_assoc, arith, ltb, leb, ◌==◌, if◌then◌else◌, ltb→lt, ltb→ge, lt→ltb, ge→ltb, le→leb,
  gt→leb, leb→le, leb→gt, ==_refl, ==_iff, Bool-cases, Option-cases, length, get_or, drop, take,
  All, length-append, length-drop, nil_of_length, length-take_le, take-append_le, take-append,
  drop-append, drop-append_le, drop-drop, All-append, Result, ok, fault, stuck, ◌>>=◌, Returns,
  Returns-value, >>=-Returns, if-Returns, drop-append_add, if-elim, equal_bytes, equal_bytes→eq,
  equal_bytes_refl,
}
use cpptcpmultiplayer.Bytes.{
  IsU32, IsU16, IsByte, be32, be16, to_u32, read_u32, read_u16, read_bytes, load_u32, load_u16,
  load_bytes, load_u32-Returns, load_u16-Returns, load_bytes-Returns, read_u32-be32, read_u16-be16,
  read_bytes-append, read_bytes-take, load_u32_at, load_bytes_at, load_length_at,
}
use cpptcpmultiplayer.Packet.{Packet, serialize}
use cpptcpmultiplayer.MessageQueue.{MessageQueue}
use cpptcpmultiplayer.ConnectionManager.{
  Connections, ConnectionInfo, ConnectionStatus, connecting, active, idle, disconnecting, is_active,
  get_connection, set_status, get_active_connections, cleanup_inactive_connections,
  get_connection_count,
}

-- A call of `send`: the socket and the bytes.
pub record Sent : Type 0 where
  pub socket : ℕ
  pub bytes : List ℕ

-- `WSAGetLastError()` after a failed call: the two codes that the server tells apart, and the others.
pub data SocketError : Type 0 where
  conn_reset not_connected other_error : SocketError

pub data SendResult : Type 0 where
  sent_bytes : ℕ → SendResult
  socket_error : SocketError → SendResult

abbrev pub Network : Type 0
Network = List Sent → ℕ → List ℕ → SendResult

-- `ClientConnection`; its thread is the caller of `handle_client`.
pub record ClientConnection : Type 0 where
  pub id : ℕ
  pub socket : ℕ
  pub address : ℕ
  pub active : Bool

-- `none` in `server_socket` is INVALID_SOCKET.
pub record Server : Type 0 where
  pub running : Bool
  pub server_socket : Option ℕ
  pub next_client_id : ℕ
  pub connections : Connections
  pub client_threads : List ClientConnection
  pub message_queue : MessageQueue
  pub log : List Sent
  pub closed : List ℕ

-- The constructor, before `start`.
abbrev pub new_server : Server
new_server = record {
  running = false;
  server_socket = none;
  next_client_id = 1;
  connections = [];
  client_threads = [];
  message_queue = [];
  log = [];
  closed = [];
}

-- `closesocket`.
abbrev pub close_socket : ℕ → Server → Server
close_socket socket s = record s { closed = socket ∷ s.closed }

-- The loop that marks the first thread of an id.
unfoldable pub deactivate : ℕ → List ClientConnection → List ClientConnection
deactivate id [] = []
deactivate id (c ∷ threads) =
    if c.id == id then record c { active = false } ∷ threads else c ∷ deactivate id threads

unfoldable pub disconnect_client : ℕ → Server → Server × Bool
unfolding deactivate
disconnect_client client_id s = elim (get_connection client_id s.connections) [
  | none ↦ (s, false)
  | some info ↦ (
    record s {
      connections = (set_status client_id disconnecting s.connections).0;
      closed = info.socket ∷ s.closed;
      client_threads = deactivate client_id s.client_threads;
    },
    true,
  )
]

-- The errors after which `sendPacket` disconnects the client.
abbrev pub ends_connection : SocketError → Bool
ends_connection conn_reset = true
ends_connection not_connected = true
ends_connection other_error = false

module _ (network : Network) where
  -- The call of `send` on an active connection, and what follows it.
  unfoldable pub send_to : ℕ → ℕ → Packet → Server → Server × Bool
  send_to client_id socket packet s =
      let bytes = serialize packet in
      let logged : Server = record s {
        log = s.log ++ (record { socket = socket; bytes = bytes } ∷ []);
      } in
      elim (network s.log socket bytes) [
        | sent_bytes n ↦ (logged, n == length bytes)
        | socket_error e ↦
            (if ends_connection e then (disconnect_client client_id logged).0 else logged, false)
      ]

  unfoldable pub send_packet : ℕ → Packet → Server → Server × Bool
  unfolding send_to
  send_packet client_id packet s = elim (get_connection client_id s.connections) [
    | none ↦ (s, false)
    | some info ↦
        if is_active info.status then send_to client_id info.socket packet s else (s, false)
  ]

  -- The loop over the ids of the connections that were active at the start.
  unfoldable pub send_each : List ℕ → Packet → Server → Server
  unfolding send_packet
  send_each [] packet s = s
  send_each (id ∷ ids) packet s = send_each ids packet (send_packet id packet s).0

  unfoldable pub broadcast : Packet → Server → Server
  unfolding send_each
  broadcast packet s = send_each (get_active_connections s.connections) packet s

  -- The loop of `broadcastExcept`, which passes over one id.
  unfoldable pub send_each_except : ℕ → List ℕ → Packet → Server → Server
  unfolding send_packet
  send_each_except excluded [] packet s = s
  send_each_except excluded (id ∷ ids) packet s =
      send_each_except excluded ids packet
        (if id == excluded then s else (send_packet id packet s).0)

  unfoldable pub broadcast_except : ℕ → Packet → Server → Server
  unfolding send_each_except
  broadcast_except excluded packet s =
      send_each_except excluded (get_active_connections s.connections) packet s
