-- ===== src/Serialization/Update.antt =====
-- The list of all players: `createGameStateUpdatePacket` and `extractGameStateUpdate`.
use cpptcpmultiplayer.Prelude.{
  ℕ, zero, suc, ◌+◌, ◌≡◌, refl, ◌∙◌, List, [], ◌∷◌, ◌++◌, append_assoc, arith, ltb, if◌then◌else◌,
  ge→ltb, length, drop, All, length-append, length-drop, drop-append, Result, ok, ◌>>=◌, Returns,
  >>=-Returns, if-Returns, drop-append_add,
}
use cpptcpmultiplayer.Bytes.{IsU32, be32, to_u32, load_u32, load_u32-Returns, load_length_at}
use cpptcpmultiplayer.PlayerState.{PlayerState, IsPlayer}
use cpptcpmultiplayer.Packet.{Packet, make_packet}
use cpptcpmultiplayer.Packet.MessageType
use cpptcpmultiplayer.Serialization.Player.{
  serialize_player_state, deserialize_player_state, deserialize_player_state-Returns,
  deserialize-serialize_player_state, length-serialize_player_state,
}

-- The loop over the players.
unfoldable pub serialize_states : List PlayerState → List ℕ
serialize_states [] = []
serialize_states (s ∷ states) = serialize_player_state s ++ serialize_states states

unfoldable pub create_game_state_update_packet : List PlayerState → Packet
unfolding serialize_states make_packet be32
create_game_state_update_packet states =
    make_packet MessageType.game_state_update
      (be32 (to_u32 (length states)) ++ serialize_states states)

-- The loop of `extractGameStateUpdate`: the rounds left, the payload and `offset`. A round that breaks
-- ends the list; the source makes its first test twice.
unfoldable pub extract_states : ℕ → List ℕ → ℕ → Result (List PlayerState)
extract_states zero data_bytes offset = ok []
extract_states (suc rounds) data_bytes offset =
    if ltb (length data_bytes) (offset + 16) then ok [] else do
      len ← load_u32 data_bytes (offset + 12)
      if ltb (length data_bytes) (offset + (16 + len)) then ok [] else do
        state ← deserialize_player_state (drop offset data_bytes) (16 + len)
        states ← extract_states rounds data_bytes (offset + (16 + len))
        ok (state ∷ states)

unfoldable pub extract_game_state_update : Packet → Result (List PlayerState)
unfolding extract_states
extract_game_state_update packet =
    if ltb (length packet.payload) 4
    then ok []
    else do count ← load_u32 packet.payload 0; extract_states count packet.payload 4

extract_states-Returns :
    (rounds : ℕ) (d : List ℕ) (offset : ℕ) → Returns (extract_states rounds d offset)
unfolding extract_states
extract_states-Returns zero d offset = tt
extract_states-Returns (suc rounds) d offset =
    if-Returns (ltb (length d) (offset + 16)) _ _ (λ _. tt)
      λ e. >>=-Returns _ _ (load_u32-Returns d (offset + 12) (ground arith)) λ len.
        if-Returns (ltb (length d) (offset + (16 + len))) _ _ (λ _. tt)
          λ e'.
            >>=-Returns _ _
              (deserialize_player_state-Returns (drop offset d) (16 + len)
                (ground (arith, length-drop offset d)))
              λ state. >>=-Returns _ _ (extract_states-Returns rounds d _) λ states. tt

-- Reading the update never leaves the payload, whatever the payload holds.
pub extract_game_state_update-Returns : (p : Packet) → Returns (extract_game_state_update p)
unfolding extract_game_state_update
extract_game_state_update-Returns p =
    if-Returns (ltb (length p.payload) 4) _ _ (λ _. tt)
      λ e.
        >>=-Returns _ _ (load_u32-Returns p.payload 0 (ground arith))
          λ count. extract_states-Returns count p.payload 4

module _ (s : PlayerState) (front rest : List ℕ) (h : IsPlayer s) where
  abbrev wire : List ℕ
  wire = front ++ (serialize_player_state s ++ rest)

  length-wire : length wire ≡ length front + (16 + length s.username) + length rest
  length-wire = omega (
    arith,
    length-append front (serialize_player_state s ++ rest),
    length-append (serialize_player_state s) rest,
    length-serialize_player_state s,
  )

  wire_length : load_u32 wire (length front + 12) ≡ ok (length s.username)
  unfolding serialize_player_state
  wire_length =
      load_length_at (length s.username) wire _ _ (drop-append_add 12 front _ ∙ refl) h.name_fits

  wire_state : deserialize_player_state (drop (length front) wire) (16 + length s.username) ≡ ok s
  wire_state = rw (drop-append front _) (deserialize-serialize_player_state s rest h)

  -- A round of the loop that finds a whole state.
  extract_states_step :
      (rounds : ℕ) (states : List PlayerState)
      → extract_states rounds wire (length front + (16 + length s.username)) ≡ ok states
      → extract_states (suc rounds) wire (length front) ≡ ok (s ∷ states)
  unfolding extract_states
  extract_states_step rounds states e = rw (
    ge→ltb (length wire) (length front + 16) (omega (arith, length-wire)),
    wire_length,
    ge→ltb (length wire) (length front + (16 + length s.username)) (omega (arith, length-wire)),
    wire_state,
    e,
  )

extract_states-serialize :
    (states : List PlayerState) (front : List ℕ)
    → All IsPlayer states
    → extract_states (length states) (front ++ serialize_states states) (length front) ≡ ok states
unfolding extract_states serialize_states
extract_states-serialize [] front h = refl
extract_states-serialize (s ∷ states) front h =
    extract_states_step s front (serialize_states states) h.0 (length states) states (
      rw (← append_assoc front (serialize_player_state s) (serialize_states states), ← grown)
        (extract_states-serialize states (front ++ serialize_player_state s) h.1))
  where
    grown : length (front ++ serialize_player_state s) ≡ length front + (16 + length s.username)
    grown =
        omega
          (arith, length-append front (serialize_player_state s), length-serialize_player_state s)

-- From the packet that is made of players whose fields are in the range of their C++ types, fewer than
-- 2 ^ 32 of them, the same players are read back in the same order.
pub extract-create_game_state_update :
    (states : List PlayerState)
    → All IsPlayer states
    → IsU32 (length states)
    → extract_game_state_update (create_game_state_update_packet states) ≡ ok states
unfolding extract_game_state_update create_game_state_update_packet
extract-create_game_state_update states h fits =
    let payload : List ℕ = be32 (to_u32 (length states)) ++ serialize_states states in
    rw
      (
        ge→ltb (length payload) 4 (omega arith),
        load_length_at (length states) payload 0 (serialize_states states) refl fits,
      )
      (extract_states-serialize states (be32 (to_u32 (length states))) h)
