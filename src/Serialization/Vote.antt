-- ===== src/Serialization/Vote.antt =====
-- `VoteCommand` and `VoteResult`.
pub mod Tally
use cpptcpmultiplayer.Prelude.{
  ℕ, zero, suc, ◌+◌, ◌-◌, ◌*◌, ◌/◌, ◌%◌, ◌^◌, ◌≤◌, ◌<◌, ◌≡◌, refl, sym, ap, ◌∙◌, ◌≢◌, ◌↔◌, ◌⊎◌, inl,
  inr, Bool, true, false, not, ◌&&◌, ◌||◌, Option, none, some, List, [], ◌∷◌, ◌++◌, map, append-nil,
  append_assoc, arith, ltb, leb, ◌==◌, if◌then◌else◌, ltb→lt, ltb→ge, lt→ltb, ge→ltb, le→leb,
  gt→leb, leb→le, leb→gt, ==_refl, ==_iff, Bool-cases, Option-cases, length, get_or, drop, take,
  All, length-append, length-drop, nil_of_length, length-take_le, take-append_le, take-append,
  drop-append, drop-append_le, drop-drop, All-append, Result, ok, fault, stuck, ◌>>=◌, Returns,
  Returns-value, >>=-Returns, if-Returns, drop-append_add,
}
use cpptcpmultiplayer.Bytes.{
  IsU32, IsU16, IsByte, be32, be16, to_u32, read_u32, read_u16, read_bytes, load_u32, load_u16,
  load_bytes, load_u32-Returns, load_u16-Returns, load_bytes-Returns, read_u32-be32, read_u16-be16,
  read_bytes-append, read_bytes-take, load_u32_at, load_bytes_at, load_length_at,
}
use cpptcpmultiplayer.Prelude.Maps.{find, insert, find-insert, Distinct}
use cpptcpmultiplayer.Packet.{Packet, make_packet}
use cpptcpmultiplayer.Packet.MessageType

pub record VoteCommand : Type 0 where
  pub voter_id : ℕ
  pub target_id : ℕ

unfoldable pub serialize_vote_command : VoteCommand → List ℕ
unfolding be32
serialize_vote_command v = be32 v.voter_id ++ be32 v.target_id

unfoldable pub deserialize_vote_command : List ℕ → ℕ → Result VoteCommand
deserialize_vote_command data_bytes size =
    if ltb size 8 then ok (record { voter_id = 0; target_id = 0 }) else do
      voter ← load_u32 data_bytes 0
      target ← load_u32 data_bytes 4
      ok (record { voter_id = voter; target_id = target })

unfoldable pub create_vote_command_packet : VoteCommand → Packet
unfolding serialize_vote_command make_packet
create_vote_command_packet v = make_packet MessageType.vote_command (serialize_vote_command v)

unfoldable pub extract_vote_command : Packet → Result VoteCommand
unfolding deserialize_vote_command
extract_vote_command packet = deserialize_vote_command packet.payload (length packet.payload)

-- The tally has the number of votes of each target.
pub record VoteResult : Type 0 where
  pub tally : List (ℕ × ℕ)
  pub winner_id : ℕ
  pub liar_caught : Bool

-- The loop over the tally.
unfoldable pub serialize_tally : List (ℕ × ℕ) → List ℕ
unfolding be32
serialize_tally [] = []
serialize_tally ((target, votes) ∷ tally) = be32 target ++ (be32 votes ++ serialize_tally tally)

-- `liarCaught ? 1 : 0`.
abbrev pub caught_word : Bool → ℕ
caught_word true = 1
caught_word false = 0

unfoldable pub serialize_vote_result : VoteResult → List ℕ
unfolding be32 serialize_tally
serialize_vote_result r =
    be32 (to_u32 (length r.tally))
    ++ (serialize_tally r.tally ++ (be32 r.winner_id ++ be32 (caught_word r.liar_caught)))

-- The loop that reads the tally: the rounds left, `offset` and the tally so far; it returns the tally
-- and `offset`.
unfoldable pub read_tally : ℕ → List ℕ → ℕ → ℕ → List (ℕ × ℕ) → Result (List (ℕ × ℕ) × ℕ)
read_tally zero data_bytes size offset tally = ok (tally, offset)
read_tally (suc rounds) data_bytes size offset tally =
    if ltb size (offset + 8) then ok (tally, offset) else do
      target ← load_u32 data_bytes offset
      votes ← load_u32 data_bytes (offset + 4)
      read_tally rounds data_bytes size (offset + 8) (insert target votes tally)

unfoldable pub deserialize_vote_result : List ℕ → ℕ → Result VoteResult
unfolding read_tally
deserialize_vote_result data_bytes size =
    if ltb size 12 then ok (record { tally = []; winner_id = 0; liar_caught = false }) else do
      count ← load_u32 data_bytes 0
      (tally, offset) ← read_tally count data_bytes size 4 []
      if ltb size (offset + 8)
          then ok (record { tally = tally; winner_id = 0; liar_caught = false })
          else do
            winner ← load_u32 data_bytes offset
            caught ← load_u32 data_bytes (offset + 4)
            ok (record { tally = tally; winner_id = winner; liar_caught = not (caught == 0) })

unfoldable pub create_vote_result_packet : VoteResult → Packet
unfolding serialize_vote_result make_packet
create_vote_result_packet r = make_packet MessageType.vote_result (serialize_vote_result r)

unfoldable pub extract_vote_result : Packet → Result VoteResult
unfolding deserialize_vote_result
extract_vote_result packet = deserialize_vote_result packet.payload (length packet.payload)

pub deserialize_vote_command-Returns :
    (d : List ℕ) (size : ℕ) → size ≤ length d → Returns (deserialize_vote_command d size)
unfolding deserialize_vote_command
deserialize_vote_command-Returns d size h =
    if-Returns (ltb size 8) _ _ (λ _. tt)
      λ e.
        >>=-Returns _ _ (load_u32-Returns d 0 (ground arith))
          λ voter. >>=-Returns _ _ (load_u32-Returns d 4 (ground arith)) λ target. tt

-- A vote is read back from its bytes, if its two ids are below 2 ^ 32.
pub deserialize-serialize_vote_command :
    (v : VoteCommand)
    → IsU32 v.voter_id
    → IsU32 v.target_id
    → deserialize_vote_command (serialize_vote_command v) (length (serialize_vote_command v)) ≡ ok v
unfolding deserialize_vote_command serialize_vote_command
deserialize-serialize_vote_command v h k =
    let wire : List ℕ = be32 v.voter_id ++ be32 v.target_id in
    rw (load_u32_at v.voter_id wire 0 _ refl h, load_u32_at v.target_id wire 4 [] refl k)

pub read_tally-Returns :
    (rounds : ℕ) (d : List ℕ) (size offset : ℕ) (tally : List (ℕ × ℕ))
    → size ≤ length d
    → Returns (read_tally rounds d size offset tally)
unfolding read_tally
read_tally-Returns zero d size offset tally h = tt
read_tally-Returns (suc rounds) d size offset tally h =
    if-Returns (ltb size (offset + 8)) _ _ (λ _. tt)
      λ e. >>=-Returns _ _ (load_u32-Returns d offset (ground arith)) λ target.
        >>=-Returns _ _ (load_u32-Returns d (offset + 4) (ground arith))
          λ votes. read_tally-Returns rounds d size (offset + 8) (insert target votes tally) h

pub deserialize_vote_result-Returns :
    (d : List ℕ) (size : ℕ) → size ≤ length d → Returns (deserialize_vote_result d size)
unfolding deserialize_vote_result
deserialize_vote_result-Returns d size h =
    if-Returns (ltb size 12) _ _ (λ _. tt)
      λ e. >>=-Returns _ _ (load_u32-Returns d 0 (ground arith)) λ count.
        >>=-Returns _ _ (read_tally-Returns count d size 4 [] h) λ r.
          if-Returns (ltb size (r.1 + 8)) _ _ (λ _. tt)
            λ e'.
              >>=-Returns _ _ (load_u32-Returns d r.1 (ground arith))
                λ winner. >>=-Returns _ _ (load_u32-Returns d (r.1 + 4) (ground arith)) λ caught. tt
