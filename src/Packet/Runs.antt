-- ===== src/Packet/Runs.antt =====
-- The frame of a small packet, and what is read of it.
use cpptcpmultiplayer.Prelude.{
  ℕ, ◌≤◌, ◌≡◌, refl, true, false, List, [], ◌∷◌, ◌++◌, arith, length, ok,
}
use cpptcpmultiplayer.Packet.{
  Packet, make_packet, get_total_size, serialize, deserialize, is_complete_packet,
}
use cpptcpmultiplayer.Packet.Framing.{deserialize-serialize, complete_packet_lem}

-- A chat message "hi".
abbrev frame : List ℕ
frame = 0 ∷ 0 ∷ 0 ∷ 8 ∷ 0 ∷ 16 ∷ 104 ∷ 105 ∷ []

made : serialize (make_packet 16 (104 ∷ 105 ∷ [])) ≡ frame
unfolding serialize make_packet
made = refl

frame_complete : is_complete_packet frame 8 ≡ ok true
unfolding is_complete_packet
frame_complete = refl

frame_incomplete : is_complete_packet frame 7 ≡ ok false
unfolding is_complete_packet
frame_incomplete = refl

-- A length field that is too small is accepted, and gives a packet without a payload.
short_length : is_complete_packet (0 ∷ 0 ∷ 0 ∷ 2 ∷ 0 ∷ 5 ∷ []) 6 ≡ ok true
unfolding is_complete_packet
short_length = refl

deserialize-serialize_example :
    let wire = serialize (make_packet 16 (104 ∷ 105 ∷ [])) ++ (7 ∷ []) in
    (is_complete_packet wire (length wire) ≡ ok true)
    × (deserialize wire (length wire) ≡ ok (make_packet 16 (104 ∷ 105 ∷ [])))
deserialize-serialize_example =
    deserialize-serialize 16 (104 ∷ 105 ∷ []) (7 ∷ [])
      (record { type_fits = omega arith; length_fits = omega arith })

complete_packet_lem_example :
    (p : Packet) × (deserialize frame 8 ≡ ok p)
    × (6 ≤ get_total_size p)
    × (get_total_size p ≤ 8)
    × (is_complete_packet (frame ++ (7 ∷ [])) 9 ≡ ok true)
    × (deserialize (frame ++ (7 ∷ [])) 9 ≡ ok p)
complete_packet_lem_example = complete_packet_lem frame (7 ∷ []) frame_complete
