-- ===== src/Client.antt =====
-- The connection of a client: include/client/client.h and src/client/client.cpp. What `recv` gives is a
-- list of arrivals; what the other calls of the system answer is an argument, and the sockets that are
-- closed and what is sent are recorded. While one call runs, nobody else changes `connected_`.
pub mod Receive
pub mod Thread
pub mod Resume
mod Runs
use cpptcpmultiplayer.Prelude.{
  ℕ, zero, suc, ◌+◌, ◌-◌, ◌*◌, ◌/◌, ◌%◌, ◌^◌, ◌≤◌, ◌<◌, ◌≡◌, refl, sym, ap, ◌∙◌, ◌≢◌, ◌↔◌, ◌⊎◌, inl,
  inr, Bool, true, false, not, ◌&&◌, ◌||◌, Option, none, some, List, [], ◌∷◌, ◌++◌, map, append-nil,
  append_assoc, arith, ltb, leb, ◌==◌, if◌then◌else◌, ltb→lt, ltb→ge, lt→ltb, ge→ltb, le→leb,
  gt→leb, leb→le, leb→gt, ==_refl, ==_iff, Bool-cases, Bool-ext, Option-cases, length, get_or, drop,
  take, All, length-append, length-drop, nil_of_length, length-take_le, take-append_le, take-append,
  drop-append, drop-append_le, drop-drop, All-append, Result, ok, fault, stuck, ◌>>=◌, Returns,
  Returns-value, >>=-Returns, if-Returns, drop-append_add, if-elim, is_nil, equal_bytes,
  equal_bytes→eq, equal_bytes_refl,
}
use cpptcpmultiplayer.Bytes.{
  IsU32, IsU16, IsByte, be32, be16, to_u32, read_u32, read_u16, read_bytes, load_u32, load_u16,
  load_bytes, load_u32-Returns, load_u16-Returns, load_bytes-Returns, read_u32-be32, read_u16-be16,
  read_bytes-append, read_bytes-take, load_u32_at, load_bytes_at, load_length_at,
}
use cpptcpmultiplayer.Server.{Network, Sent, SendResult, sent_bytes, socket_error}
use cpptcpmultiplayer.Prelude.Text.{codes, to_string}
use cpptcpmultiplayer.Packet.{Packet, serialize, get_total_size, deserialize, is_complete_packet}

-- `none` in `socket` is INVALID_SOCKET.
pub record Client : Type 0 where
  pub socket : Option ℕ
  pub connected : Bool
  pub receiving : Bool
  pub packet_buffer : List ℕ
  pub log : List Sent
  pub closed : List ℕ

-- The constructor.
abbrev pub new_client : Client
new_client = record {
  socket = none;
  connected = false;
  receiving = false;
  packet_buffer = [];
  log = [];
  closed = [];
}

-- How far the calls of the system in `connect` come: Winsock or the socket may fail, the address may be
-- wrong or the server may refuse, each after the socket was made, or the connection stands.
pub data Attempt : Type 0 where
  no_winsock no_socket : Attempt
  bad_address refused established : ℕ → Attempt

unfoldable pub give_up : ℕ → Client → Client × Bool
give_up socket c = (record c { socket = some socket; closed = socket ∷ c.closed }, false)

unfoldable pub connect : Attempt → Client → Client × Bool
unfolding give_up
connect attempt c = if c.connected then (c, false) else elim attempt [
  | no_winsock ↦ (c, false)
  | no_socket ↦ (record c { socket = none }, false)
  | bad_address socket ↦ give_up socket c
  | refused socket ↦ give_up socket c
  | established socket ↦ (record c { socket = some socket; connected = true }, true)
]

-- What `connect` writes to `std::cout` when the connection stands.
unfoldable pub connect_text : List ℕ → ℕ → List ℕ
connect_text address port =
    codes "Connected to server at " ++ (address ++ (codes ":" ++ (to_string port ++ (10 ∷ []))))

unfoldable pub start_receiving : Client → Client
start_receiving c = if c.receiving || not c.connected then c else record c { receiving = true }

-- The thread is joined, that is, the state is the one that it leaves.
unfoldable pub stop_receiving : Client → Client
stop_receiving c = if not c.receiving then c else record c { receiving = false }

unfoldable pub disconnect : Client → Client
unfolding stop_receiving
disconnect c =
    if not c.connected
    then c
    else let stopped : Client = record (stop_receiving c) { connected = false } in
      elim stopped.socket [
        | none ↦ stopped
        | some socket ↦ record stopped { socket = none; closed = socket ∷ stopped.closed }
      ]

-- What `disconnect` writes to `std::cout`.
unfoldable pub disconnect_text : Client → List ℕ
disconnect_text c = if c.connected then codes "Disconnected from server" ++ (10 ∷ []) else []

-- A packet that is taken only in part counts as sent.
unfoldable pub send_packet : Network → Packet → Client → Client × Bool
send_packet network packet c = if not c.connected then (c, false) else elim c.socket [
  | none ↦ (c, false)
  | some socket ↦
      let bytes = serialize packet in
      let sent : Client = record c {
        log = c.log ++ (record { socket = socket; bytes = bytes } ∷ []);
      } in
      elim (network c.log socket bytes) [
        | sent_bytes n ↦ (sent, true)
        | socket_error e ↦ (sent, false)
      ]
]

-- What `recv` gives: some bytes, or no more of them, because the server is gone or because of an error.
pub data Arrival : Type 0 where
  arrived : List ℕ → Arrival
  no_more : Arrival

-- How a call of `receivePacket` stands: it has returned, with what it wrote to `packet`, its result, and
-- the arrivals and the client that it leaves; or it waits in `recv`.
pub data Reception : Type 0 where
  returned : Option Packet → Bool → List Arrival → Client → Reception
  blocked : Client → Reception

-- The packet at the front of the buffer is taken out.
unfoldable pub take_packet : List Arrival → Client → Result Reception
unfolding deserialize
take_packet more c = do
  packet ← deserialize c.packet_buffer (length c.packet_buffer)
  ok (
      returned (some packet) (not (packet.header.type == 0)) more
        (record c { packet_buffer = drop (get_total_size packet) c.packet_buffer }))

-- `!packetBuffer_.empty() && Packet::isCompletePacket(...)`.
unfoldable pub has_packet : Client → Result Bool
unfolding is_complete_packet
has_packet c =
    if is_nil c.packet_buffer
    then ok false
    else is_complete_packet c.packet_buffer (length c.packet_buffer)

-- The loop. A chunk that completes a packet ends it in the round that received the chunk.
unfoldable pub receive_loop : List Arrival → Client → Result Reception
unfolding take_packet has_packet
receive_loop [] c = has_packet c >>= λ ready. if ready then take_packet [] c else ok (blocked c)
receive_loop (no_more ∷ more) c = has_packet c >>= λ ready.
    if ready
    then take_packet (no_more ∷ more) c
    else ok (returned none false more (record c { connected = false }))
receive_loop (arrived chunk ∷ more) c = has_packet c >>= λ ready.
    if ready
    then take_packet (arrived chunk ∷ more) c
    else let c' : Client = record c { packet_buffer = c.packet_buffer ++ chunk } in
      is_complete_packet c'.packet_buffer (length c'.packet_buffer) >>= λ complete.
      if complete then take_packet more c' else receive_loop more c'

unfoldable pub receive_packet : List Arrival → Client → Result Reception
unfolding receive_loop
receive_packet arrivals c =
    if not c.connected then ok (returned none false arrivals c) else receive_loop arrivals c

-- `none` for a `packet` that is not written.
unfoldable pub try_receive_packet : Client → Result (Option Packet × Bool × Client)
unfolding has_packet
try_receive_packet c =
    if not c.connected
    then ok (none, false, c)
    else has_packet c >>= λ ready.
        if not ready
        then ok (none, false, c)
        else deserialize c.packet_buffer (length c.packet_buffer) >>= λ packet. ok (
          some packet,
          not (packet.header.type == 0),
          record c { packet_buffer = drop (get_total_size packet) c.packet_buffer },
        )

-- What the thread does with the end of a call of `receivePacket`.
unfoldable pub after_reception {ℓ} :
    {S : Type ℓ}
    → (List Arrival → Client → S → Result (Client × S))
    → (Packet → S → Result S)
    → S
    → Reception
    → Result (Client × S)
after_reception go_on callback s (blocked c) = ok (c, s)
after_reception go_on callback s (returned (some packet) true more c) =
    callback packet s >>= λ s'. go_on more c s'
after_reception go_on callback s (returned packet done more c) = go_on more c s

-- The thread that receives, `receivingThread`, over all arrivals, with the callback as a function on a
-- state. It ends when the client is no longer connected, or waits in `recv`. Each round takes six bytes
-- or one arrival at least, or ends the connection.
unfoldable pub receiving_thread {ℓ} :
    {S : Type ℓ} → (Packet → S → Result S) → ℕ → List Arrival → Client → S → Result (Client × S)
unfolding receive_packet after_reception
receiving_thread callback zero arrivals c s = stuck
receiving_thread callback (suc fuel) arrivals c s =
    if not (c.receiving && c.connected)
    then ok (c, s)
    else receive_packet arrivals c >>= λ o.
        after_reception (receiving_thread callback fuel) callback s o
