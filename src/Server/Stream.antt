-- ===== src/Server/Stream.antt =====
-- The receive loop of `Server::handleClient` in src/server/server.cpp: the bytes of a client's stream
-- arrive in chunks, and are cut into packets. `deliver` is what happens to a packet whose type is not 0:
-- it goes to the queue and to the callback.
pub mod Frames
use cpptcpmultiplayer.Prelude.{
  ℕ, zero, suc, ◌+◌, ◌-◌, ◌*◌, ◌/◌, ◌%◌, ◌^◌, ◌≤◌, ◌<◌, ◌≡◌, refl, sym, ap, ◌∙◌, ◌≢◌, ◌↔◌, ◌⊎◌, inl,
  inr, Bool, true, false, not, ◌&&◌, ◌||◌, Option, none, some, List, [], ◌∷◌, ◌++◌, map, append-nil,
  append_assoc, arith, ltb, leb, ◌==◌, if◌then◌else◌, ltb→lt, ltb→ge, lt→ltb, ge→ltb, le→leb,
  gt→leb, leb→le, leb→gt, ==_refl, ==_iff, Bool-cases, Option-cases, length, get_or, drop, take,
  All, length-append, length-drop, nil_of_length, length-take_le, take-append_le, take-append,
  drop-append, drop-append_le, drop-drop, All-append, Result, ok, fault, stuck, ◌>>=◌, Returns,
  Returns-value, >>=-Returns, if-Returns, drop-append_add, if-elim, equal_bytes, equal_bytes→eq,
  equal_bytes_refl,
}
use cpptcpmultiplayer.Bytes.{
  IsU32, IsU16, IsByte, be32, be16, to_u32, read_u32, read_u16, read_bytes, load_u32, load_u16,
  load_bytes, load_u32-Returns, load_u16-Returns, load_bytes-Returns, read_u32-be32, read_u16-be16,
  read_bytes-append, read_bytes-take, load_u32_at, load_bytes_at, load_length_at,
}
use cpptcpmultiplayer.Packet.{Packet, get_total_size, deserialize, is_complete_packet}

module _ {ℓ} {S : Type ℓ} (deliver : Packet → S → S) where
  abbrev pub deliver_typed : Packet → S → S
  deliver_typed packet s = if packet.header.type == 0 then s else deliver packet s

  -- `while (offset < packetBuffer.size())`; it returns `offset` and the state.
  unfoldable pub process_buffer : ℕ → List ℕ → ℕ → S → Result (ℕ × S)
  process_buffer zero buffer offset s = stuck
  process_buffer (suc fuel) buffer offset s =
      if leb (length buffer) offset then ok (offset, s) else do
        complete ← is_complete_packet (drop offset buffer) (length buffer - offset)
        elim complete [
          | false ↦ ok (offset, s)
          | true ↦ deserialize (drop offset buffer) (length buffer - offset) >>= λ packet.
              process_buffer fuel buffer (offset + get_total_size packet) (deliver_typed packet s)
        ]

  -- A chunk is appended to `packetBuffer`, and what was processed is erased from its front. The loop
  -- takes six bytes at least in each round, so that the length of the buffer is fuel enough.
  unfoldable pub receive_chunk : List ℕ → List ℕ → S → Result (List ℕ × S)
  unfolding process_buffer
  receive_chunk packet_buffer chunk s = do
    let buffer : List ℕ = packet_buffer ++ chunk
    (offset, s') ← process_buffer (suc (length buffer)) buffer 0 s
    ok (if ltb 0 offset then drop offset buffer else buffer, s')

  -- The chunks that `recv` gives, one after the other.
  unfoldable pub receive_chunks : List ℕ → List (List ℕ) → S → Result (List ℕ × S)
  unfolding receive_chunk
  receive_chunks packet_buffer [] s = ok (packet_buffer, s)
  receive_chunks packet_buffer (chunk ∷ chunks) s = do
    (rest, s') ← receive_chunk packet_buffer chunk s
    receive_chunks rest chunks s'
