-- ===== src/Server/Stream/Frames/Runs.antt =====
-- The receive loop at the bytes of two packets, which come in three pieces.
use cpptcpmultiplayer.Prelude.{ℕ, ◌≡◌, refl, List, [], ◌∷◌, arith, All, ok}
use cpptcpmultiplayer.Packet.{make_packet, serialize, is_complete_packet}
use mathlib.Core.List.{flatten}
use cpptcpmultiplayer.MessageQueue.{MessageQueue, push}
use cpptcpmultiplayer.Server.Stream.{receive_chunk, receive_chunks}
use cpptcpmultiplayer.Server.Stream.Frames.{
  IsPartial, IsMessage, nil-IsPartial, wires, deliver_all, receive_chunks-flatten,
  receive_chunk_total, receive_chunks-wires,
}

-- A join under the name "A", and the chat message "hi".
abbrev messages : List (ℕ × List ℕ)
messages = (10, 65 ∷ []) ∷ (16, 104 ∷ 105 ∷ []) ∷ []

abbrev pieces : List (List ℕ)
pieces = (0 ∷ 0 ∷ 0 ∷ []) ∷ (7 ∷ 0 ∷ 10 ∷ 65 ∷ 0 ∷ 0 ∷ 0 ∷ 8 ∷ 0 ∷ []) ∷ (16 ∷ 104 ∷ 105 ∷ []) ∷ []

messages-IsMessage : All IsMessage messages
messages-IsMessage = (
  (record { type_fits = omega arith; length_fits = omega arith }, omega arith),
  ((record { type_fits = omega arith; length_fits = omega arith }, omega arith), tt),
)

pieces-wires : flatten pieces ≡ wires messages
unfolding flatten serialize make_packet
pieces-wires = refl

receive_chunks-wires_example :
    receive_chunks push [] pieces [] ≡ ok ([], deliver_all push messages [])
receive_chunks-wires_example =
    receive_chunks-wires push messages pieces [] messages-IsMessage pieces-wires

receive_chunks-flatten_example :
    receive_chunks push [] pieces [] ≡ receive_chunk push [] (flatten pieces) []
receive_chunks-flatten_example = receive_chunks-flatten push pieces [] [] nil-IsPartial

receive_chunk_total_example :
    (r : List ℕ) × (t : MessageQueue) × (receive_chunk push (0 ∷ []) (0 ∷ 0 ∷ 7 ∷ 0 ∷ []) []
      ≡ ok (r, t))
    × IsPartial r
receive_chunk_total_example = receive_chunk_total push (0 ∷ []) (0 ∷ 0 ∷ 7 ∷ 0 ∷ []) []

-- An incomplete frame stays in the buffer.
waits : receive_chunk push (0 ∷ []) (0 ∷ 0 ∷ 7 ∷ 0 ∷ []) [] ≡ ok (0 ∷ 0 ∷ 0 ∷ 7 ∷ 0 ∷ [], [])
unfolding receive_chunk is_complete_packet
waits = refl
