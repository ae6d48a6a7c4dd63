-- ===== src/MessageQueue/Runs.antt =====
-- The queue at two packets.
use cpptcpmultiplayer.Prelude.{ℕ, ◌≡◌, refl, some, [], ◌∷◌}
use cpptcpmultiplayer.Packet.{Packet, make_packet}
use cpptcpmultiplayer.MessageQueue.{push, pop}

abbrev packet : ℕ → Packet
packet byte = make_packet 16 (byte ∷ [])

-- The first packet comes out first.
first_out : pop (push (packet 2) (push (packet 1) [])) ≡ some (packet 1, packet 2 ∷ [])
unfolding push pop
first_out = refl
