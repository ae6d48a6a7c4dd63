-- ===== src/Server/Lifecycle.antt =====
-- How clients come and go: the accept loop of `Server::start`, `cleanupConnections`, and the two halves of
-- `stop` around what the threads do until they are joined, in src/server/server.cpp. A thread's steps are
-- those of `handle_client`.
pub mod Fresh
pub mod Start
use cpptcpmultiplayer.Prelude.{
  ℕ, zero, suc, ◌+◌, ◌-◌, ◌*◌, ◌/◌, ◌%◌, ◌^◌, ◌≤◌, ◌<◌, ◌≡◌, refl, sym, ap, ◌∙◌, ◌≢◌, ◌↔◌, ◌⊎◌, inl,
  inr, Bool, true, false, not, ◌&&◌, ◌||◌, Option, none, some, List, [], ◌∷◌, ◌++◌, map, append-nil,
  append_assoc, arith, ltb, leb, ◌==◌, if◌then◌else◌, ltb→lt, ltb→ge, lt→ltb, ge→ltb, le→leb,
  gt→leb, leb→le, leb→gt, ==_refl, ==_iff, Bool-cases, Bool-ext, Option-cases, length, get_or, drop,
  take, All, length-append, length-drop, nil_of_length, length-take_le, take-append_le, take-append,
  drop-append, drop-append_le, drop-drop, All-append, Result, ok, fault, stuck, ◌>>=◌, Returns,
  Returns-value, >>=-Returns, if-Returns, drop-append_add, if-elim, is_nil, equal_bytes,
  equal_bytes→eq, equal_bytes_refl,
}
use cpptcpmultiplayer.Bytes.{
  IsU32, IsU16, IsByte, be32, be16, to_u32, read_u32, read_u16, read_bytes, load_u32, load_u16,
  load_bytes, load_u32-Returns, load_u16-Returns, load_bytes-Returns, read_u32-be32, read_u16-be16,
  read_bytes-append, read_bytes-take, load_u32_at, load_bytes_at, load_length_at,
}
use cpptcpmultiplayer.ConnectionManager.{
  ConnectionInfo, Connections, disconnecting, active, add_connection, set_status,
  get_all_connections, cleanup_inactive_connections, clear_all_connections,
}
use cpptcpmultiplayer.Server.{Server, ClientConnection}

-- One round of the accept loop, with the socket and the address that `accept` gave and the clock.
unfoldable pub accept_client : ℕ → ℕ → ℕ → Server → Server
accept_client socket address now s =
    let client_id = s.next_client_id in
    let next = to_u32 (client_id + 1) in
    let added = add_connection client_id socket address now s.connections in
    if not added.1
    then record s { next_client_id = next; closed = socket ∷ s.closed }
    else let client : ClientConnection = record {
      id = client_id;
      socket = socket;
      address = address;
      active = true;
    } in
      record s {
        next_client_id = next;
        connections = (set_status client_id active added.0).0;
        client_threads = s.client_threads ++ (client ∷ []);
      }

-- `std::remove_if` with `!c->active`.
unfoldable pub active_threads : List ClientConnection → List ClientConnection
active_threads [] = []
active_threads (c ∷ threads) =
    let rest = active_threads threads in if c.active then c ∷ rest else rest

unfoldable pub cleanup_connections : Server → Server
unfolding active_threads
cleanup_connections s = record s {
  connections = cleanup_inactive_connections s.connections;
  client_threads = active_threads s.client_threads;
}

-- The loop that marks each connection and closes its socket.
unfoldable pub close_all : List ConnectionInfo → Server → Server
close_all [] s = s
close_all (c ∷ infos) s = close_all infos (record s {
  connections = (set_status c.id disconnecting s.connections).0;
  closed = c.socket ∷ s.closed;
})

-- The listening socket is closed.
unfoldable pub close_listening : Server → Server
close_listening s = elim s.server_socket [
  | none ↦ s
  | some socket ↦ record s { server_socket = none; closed = socket ∷ s.closed }
]

-- `stop` of a running server up to the place where it joins the threads, and what follows it. What the
-- threads do in between is that of their callback.
unfoldable pub closing : Server → Server
unfolding close_all close_listening
closing s =
    close_all (get_all_connections s.connections) (close_listening (record s { running = false }))

unfoldable pub cleared : Server → Server
cleared s = record s { client_threads = []; connections = clear_all_connections s.connections }

-- How far the calls of the system in `start` come: Winsock or the socket may fail, `bind` or `listen` may
-- fail after the socket was made, or the server listens.
pub data Listening : Type 0 where
  no_winsock no_socket : Listening
  bind_failed listen_failed listens : ℕ → Listening

-- What `accept` gives: no socket, or a client's socket and address, with the clock; and what the threads of
-- the clients, or a call of `stop`, make of the server while the loop waits for it.
pub data Accepted : Type 0 where
  no_client : (Server → Server) → Accepted
  client_came : (Server → Server) → ℕ → ℕ → ℕ → Accepted

abbrev pub meanwhile : Accepted → Server → Server
meanwhile (no_client change) = change
meanwhile (client_came change socket address now) = change

-- `while (running_)`, over all that `accept` gives.
unfoldable pub accept_clients : List Accepted → Server → Server
unfolding accept_client
accept_clients [] s = s
accept_clients (no_client change ∷ arrivals) s =
    if not s.running then s else accept_clients arrivals (change s)
accept_clients (client_came change socket address now ∷ arrivals) s =
    if not s.running
    then s
    else accept_clients arrivals (accept_client socket address now (change s))

unfoldable pub start : Listening → List Accepted → Server → Server × Bool
unfolding accept_clients
start listening arrivals s = if s.running then (s, false) else elim listening [
  | no_winsock ↦ (s, false)
  | no_socket ↦ (record s { server_socket = none }, false)
  | bind_failed socket ↦
      (record s { server_socket = some socket; closed = socket ∷ s.closed }, false)
  | listen_failed socket ↦
      (record s { server_socket = some socket; closed = socket ∷ s.closed }, false)
  | listens socket ↦
      (accept_clients arrivals (record s { running = true; server_socket = some socket }), true)
]
