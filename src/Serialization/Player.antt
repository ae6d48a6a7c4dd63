-- ===== src/Serialization/Player.antt =====
-- `serializePlayerState`, `deserializePlayerState` and the packets of one player.
use cpptcpmultiplayer.Prelude.{
  ℕ, ◌+◌, ◌≤◌, ◌≡◌, refl, ◌&&◌, List, [], ◌++◌, arith, ltb, leb, if◌then◌else◌, length,
  nil_of_length, Result, ok, ◌>>=◌, Returns, >>=-Returns, if-Returns,
}
use cpptcpmultiplayer.Bytes.{
  be32, to_u32, load_u32, load_bytes, load_u32-Returns, load_bytes-Returns, load_u32_at,
  load_bytes_at, load_length_at,
}
use cpptcpmultiplayer.PlayerState.{
  PlayerState, role_to_u32, u32_to_role, no_player, IsPlayer, u32_to_role-role_to_u32,
  role_to_u32-IsU32,
}
use cpptcpmultiplayer.Prelude.Int.{int_to_u32, u32_to_int, u32_to_int-int_to_u32, int_to_u32-lt}
use cpptcpmultiplayer.Packet.{Packet, make_packet}

unfoldable pub serialize_player_state : PlayerState → List ℕ
unfolding be32
serialize_player_state s =
    be32 s.id
    ++ (be32 (role_to_u32 s.role)
        ++ (be32 (int_to_u32 s.score) ++ (be32 (to_u32 (length s.username)) ++ s.username)))

unfoldable pub deserialize_player_state : List ℕ → ℕ → Result PlayerState
deserialize_player_state data_bytes size = if ltb size 16 then ok no_player else do
  id ← load_u32 data_bytes 0
  role ← load_u32 data_bytes 4
  score ← load_u32 data_bytes 8
  let state : PlayerState = record {
    id = id;
    username = [];
    role = u32_to_role role;
    score = u32_to_int score;
  }
  if ltb size (12 + 4) then ok state else do
    len ← load_u32 data_bytes 12
    if leb (16 + len) size && ltb 0 len
        then (do name ← load_bytes data_bytes 16 len; ok (record state { username = name }))
        else ok state

unfoldable pub create_player_state_packet : ℕ → PlayerState → Packet
unfolding serialize_player_state make_packet
create_player_state_packet type s = make_packet type (serialize_player_state s)

unfoldable pub extract_player_state : Packet → Result PlayerState
unfolding deserialize_player_state
extract_player_state packet = deserialize_player_state packet.payload (length packet.payload)

pub deserialize_player_state-Returns :
    (d : List ℕ) (size : ℕ) → size ≤ length d → Returns (deserialize_player_state d size)
unfolding deserialize_player_state
deserialize_player_state-Returns d size h =
    if-Returns (ltb size 16) _ _ (λ _. tt)
      λ e. >>=-Returns _ _ (load_u32-Returns d 0 (ground arith)) λ id.
        >>=-Returns _ _ (load_u32-Returns d 4 (ground arith)) λ role.
          >>=-Returns _ _ (load_u32-Returns d 8 (ground arith)) λ score.
            if-Returns (ltb size 16) _ _ (λ _. tt)
              λ e'.
                >>=-Returns _ _ (load_u32-Returns d 12 (ground arith))
                  λ len. ground (arith, load_bytes-Returns d 16 len)

pub length-serialize_player_state :
    (s : PlayerState) → length (serialize_player_state s) ≡ 16 + length s.username
unfolding serialize_player_state
length-serialize_player_state s = omega arith

module _ (s : PlayerState) (rest : List ℕ) (h : IsPlayer s) where
  abbrev wire : List ℕ
  wire = serialize_player_state s ++ rest

  wire_id : load_u32 wire 0 ≡ ok s.id
  unfolding serialize_player_state
  wire_id = load_u32_at s.id wire 0 _ refl h.id_fits

  wire_role : load_u32 wire 4 ≡ ok (role_to_u32 s.role)
  unfolding serialize_player_state
  wire_role = load_u32_at (role_to_u32 s.role) wire 4 _ refl (role_to_u32-IsU32 s.role h.role_fits)

  wire_score : load_u32 wire 8 ≡ ok (int_to_u32 s.score)
  unfolding serialize_player_state
  wire_score = load_u32_at (int_to_u32 s.score) wire 8 _ refl (int_to_u32-lt s.score)

  wire_length : load_u32 wire 12 ≡ ok (length s.username)
  unfolding serialize_player_state
  wire_length = load_length_at (length s.username) wire 12 _ refl h.name_fits

  wire_name : load_bytes wire 16 (length s.username) ≡ ok s.username
  unfolding serialize_player_state
  wire_name = load_bytes_at s.username wire 16 rest refl

  -- The state of a player whose fields are in the range of their C++ types is read back from its bytes,
  -- whatever follows them.
  pub deserialize-serialize_player_state :
      deserialize_player_state (serialize_player_state s ++ rest) (16 + length s.username) ≡ ok s
  unfolding deserialize_player_state
  deserialize-serialize_player_state =
      rw
        (
          wire_id,
          wire_role,
          wire_score,
          wire_length,
          wire_name,
          u32_to_role-role_to_u32 s.role h.role_fits,
          u32_to_int-int_to_u32 s.score h.score_fits,
        )
        (ground (arith, nil_of_length s.username))
