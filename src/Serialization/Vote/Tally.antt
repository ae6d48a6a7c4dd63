-- ===== src/Serialization/Vote/Tally.antt =====
-- A vote result is read back with the tally as a map: its iteration order may differ.
use cpptcpmultiplayer.Prelude.{
  ℕ, ◌+◌, ◌*◌, ◌≤◌, ◌≡◌, refl, sym, ap, ◌∙◌, not, List, [], ◌∷◌, ◌++◌, append_assoc, arith, ◌==◌,
  if◌then◌else◌, ge→ltb, length, drop, All, length-append, drop-append, drop-drop, ok,
  drop-append_add,
}
use cpptcpmultiplayer.Bytes.{IsU32, be32, to_u32, load_u32, load_u32_at, load_length_at}
use cpptcpmultiplayer.Prelude.Maps.{find, contains, insert, find-insert, Distinct}
use cpptcpmultiplayer.Serialization.Vote.{
  VoteResult, serialize_tally, serialize_vote_result, read_tally, deserialize_vote_result,
  caught_word,
}

-- The entries put into a map one after the other.
store : List (ℕ × ℕ) → List (ℕ × ℕ) → List (ℕ × ℕ)
store [] tally = tally
store ((k, v) ∷ entries) tally = store entries (insert k v tally)

-- A later entry would win, but no key comes twice.
find-store :
    (j : ℕ) (entries tally : List (ℕ × ℕ))
    → Distinct entries
    → find j (store entries tally) ≡ (if contains j entries then find j entries else find j tally)
unfolding store find contains
find-store j [] tally d = refl
find-store j ((k, w) ∷ entries) tally d =
    ground (arith, find-store j entries (insert k w tally) d.1, find-insert j k w tally)

abbrev IsEntry : ℕ × ℕ → Type 0
IsEntry (k, v) = IsU32 k × IsU32 v

length-serialize_tally :
    (entries : List (ℕ × ℕ)) → length (serialize_tally entries) ≡ 8 * length entries
unfolding serialize_tally
length-serialize_tally [] = refl
length-serialize_tally ((k, v) ∷ entries) = omega (arith, length-serialize_tally entries)

module _ (size : ℕ) (rest : List ℕ) where
  read_tally-store :
      (entries tally : List (ℕ × ℕ)) (front : List ℕ)
      → All IsEntry entries
      → length front + 8 * length entries ≤ size
      → read_tally
          (length entries)
          (front ++ (serialize_tally entries ++ rest))
          size
          (length front)
          tally
        ≡ ok (store entries tally, length front + 8 * length entries)
  unfolding read_tally store serialize_tally
  read_tally-store [] tally front h fits = ap (λ n. ok (tally, n)) (omega arith)
  read_tally-store ((k, v) ∷ entries) tally front h fits =
      rw
        (
          ge→ltb size (length front + 8) (omega arith),
          load_u32_at k wire (length front) _ (drop-append front _) h.0.0,
          load_u32_at v wire (length front + 4) _ (drop-append_add 4 front _) h.0.1,
        )
        (rw (append_assoc front entry (serialize_tally entries ++ rest), grown) at
            (read_tally-store entries (insert k v tally) (front ++ entry) h.1
              (omega (arith, grown)))
          ∙ ap (λ n. ok (store entries (insert k v tally), n)) (omega (arith, grown)))
    where
      entry : List ℕ
      entry = be32 k ++ be32 v

      wire : List ℕ
      wire = front ++ (entry ++ (serialize_tally entries ++ rest))

      grown : length (front ++ entry) ≡ length front + 8
      grown = length-append front entry

-- The fields are in the range of their C++ types, and the tally is a map.
pub record IsVoteResult (r : VoteResult) : Type 0 where
  pub keys_distinct : Distinct r.tally
  pub entries_fit : All IsEntry r.tally
  pub count_fits : IsU32 (length r.tally)
  pub winner_fits : IsU32 r.winner_id

module _ (r : VoteResult) (h : IsVoteResult r) where
  abbrev wire : List ℕ
  wire = serialize_vote_result r

  abbrev tail_bytes : List ℕ
  tail_bytes = be32 r.winner_id ++ be32 (caught_word r.liar_caught)

  length-wire : length wire ≡ 12 + 8 * length r.tally
  unfolding serialize_vote_result
  length-wire =
      omega
        (arith, length-append (serialize_tally r.tally) tail_bytes, length-serialize_tally r.tally)

  wire_count : load_u32 wire 0 ≡ ok (length r.tally)
  unfolding serialize_vote_result
  wire_count = load_length_at (length r.tally) wire 0 _ refl h.count_fits

  wire_tally :
      read_tally (length r.tally) wire (length wire) 4 []
      ≡ ok (store r.tally [], 4 + 8 * length r.tally)
  unfolding serialize_vote_result
  wire_tally =
      read_tally-store (length wire) tail_bytes r.tally [] (be32 (to_u32 (length r.tally)))
        h.entries_fit (omega (arith, length-wire))

  wire_rest : drop (4 + 8 * length r.tally) wire ≡ tail_bytes
  unfolding serialize_vote_result
  wire_rest =
      sym (drop-drop 4 (8 * length r.tally) wire)
      ∙ ap (λ n. drop n (serialize_tally r.tally ++ tail_bytes))
          (sym (length-serialize_tally r.tally))
      ∙ drop-append (serialize_tally r.tally) tail_bytes

  wire_winner : load_u32 wire (4 + 8 * length r.tally) ≡ ok r.winner_id
  wire_winner = load_u32_at r.winner_id wire _ _ wire_rest h.winner_fits

  wire_caught : load_u32 wire (4 + 8 * length r.tally + 4) ≡ ok (caught_word r.liar_caught)
  unfolding be32
  wire_caught =
      load_u32_at (caught_word r.liar_caught) wire _ []
        (sym (drop-drop (4 + 8 * length r.tally) 4 wire) ∙ ap (drop 4) wire_rest) (ground arith)

  read_caught : not (caught_word r.liar_caught == 0) ≡ r.liar_caught
  read_caught = ground arith

  -- If no target is twice in the tally and the numbers are below 2 ^ 32, the result of a vote is read back
  -- from its bytes: the winner, the verdict and each target's number of votes.
  pub deserialize-serialize_vote_result :
      (q : VoteResult) × (deserialize_vote_result
          (serialize_vote_result r)
          (length (serialize_vote_result r))
        ≡ ok q)
      × (q.winner_id ≡ r.winner_id)
      × (q.liar_caught ≡ r.liar_caught)
      × ((target : ℕ) → find target q.tally ≡ find target r.tally)
  unfolding deserialize_vote_result
  deserialize-serialize_vote_result = (
    record { tally = store r.tally []; winner_id = r.winner_id; liar_caught = r.liar_caught },
    rw (
      ge→ltb (length wire) 12 (omega (arith, length-wire)),
      wire_count,
      wire_tally,
      ge→ltb (length wire) (4 + 8 * length r.tally + 8) (omega (arith, length-wire)),
      wire_winner,
      wire_caught,
      read_caught,
    ),
    refl,
    refl,
    λ target. unfold find contains in ground (arith, find-store target r.tally [] h.keys_distinct),
  )
