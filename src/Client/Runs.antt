-- ===== src/Client/Runs.antt =====
-- A client to which a packet and the begin of another come in two chunks.
use cpptcpmultiplayer.Prelude.{
  ℕ, ◌≡◌, refl, true, false, none, some, List, [], ◌∷◌, ◌++◌, arith, All, Result, ok, ◌>>=◌,
}
use cpptcpmultiplayer.Packet.{Packet, make_packet, serialize}
use cpptcpmultiplayer.Client.{Client, new_client, try_receive_packet, receiving_thread}
use cpptcpmultiplayer.Client.Thread.{call_all, receiving_thread_lem}
use cpptcpmultiplayer.Server.Stream.Frames.{wires, IsMessage}
use cpptcpmultiplayer.Client.Receive.{arrivals}
use mathlib.Core.List.{flatten}

abbrev client : Client
client = record new_client {
  socket = some 5;
  connected = true;
  receiving = true;
  packet_buffer = 0 ∷ 0 ∷ 0 ∷ [];
}

-- Three bytes are not a packet yet.
nothing_yet : try_receive_packet client ≡ ok (none, false, client)
unfolding try_receive_packet
nothing_yet = refl

-- Two packets, in three chunks behind what is in the buffer.
abbrev packets : List (ℕ × List ℕ)
packets = (17, 104 ∷ 105 ∷ []) ∷ (11, []) ∷ []

abbrev pieces : List (List ℕ)
pieces = (8 ∷ 0 ∷ 17 ∷ 104 ∷ []) ∷ (105 ∷ 0 ∷ 0 ∷ []) ∷ (0 ∷ 6 ∷ 0 ∷ 11 ∷ []) ∷ []

packets-IsMessage : All IsMessage packets
packets-IsMessage = (
  (record { type_fits = omega arith; length_fits = omega arith }, omega arith),
  ((record { type_fits = omega arith; length_fits = omega arith }, omega arith), tt),
)

pieces-wires : client.packet_buffer ++ flatten pieces ≡ wires packets
unfolding flatten serialize make_packet
pieces-wires = refl

abbrev note : Packet → List Packet → Result (List Packet)
note p s = ok (p ∷ s)

receiving_thread_lem_example :
    receiving_thread note 3 (arrivals pieces) client []
    ≡ (call_all note packets [] >>= λ t. ok (record client { packet_buffer = [] }, t))
receiving_thread_lem_example =
    receiving_thread_lem note packets 3 pieces client [] packets-IsMessage (omega arith) refl refl
      pieces-wires
