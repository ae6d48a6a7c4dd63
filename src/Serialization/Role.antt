-- ===== src/Serialization/Role.antt =====
-- `RoleAssignment`.
use cpptcpmultiplayer.Prelude.{
  ℕ, ◌+◌, ◌≤◌, ◌≡◌, refl, sym, ap, ◌∙◌, List, [], ◌++◌, append-nil, arith, ltb, if◌then◌else◌,
  ge→ltb, length, drop, length-append, drop-append, drop-drop, Result, ok, ◌>>=◌, Returns,
  >>=-Returns, if-Returns,
}
use cpptcpmultiplayer.Bytes.{
  IsU32, be32, to_u32, load_u32, load_u32-Returns, load_u32_at, load_length_at,
}
use cpptcpmultiplayer.PlayerState.{
  PlayerRole, no_role, role_to_u32, u32_to_role, IsRole, u32_to_role-role_to_u32, role_to_u32-IsU32,
}
use cpptcpmultiplayer.Packet.{Packet, make_packet}
use cpptcpmultiplayer.Packet.MessageType
use cpptcpmultiplayer.Serialization.Strings.{
  optional_string, optional_string-Returns, optional_string_at,
}

pub record RoleAssignment : Type 0 where
  pub player_id : ℕ
  pub role : PlayerRole
  pub topic : List ℕ
  pub secret_word : List ℕ

unfoldable pub serialize_role_assignment : RoleAssignment → List ℕ
unfolding be32
serialize_role_assignment a =
    be32 a.player_id
    ++ (be32 (role_to_u32 a.role)
        ++ (be32 (to_u32 (length a.topic))
            ++ (a.topic ++ (be32 (to_u32 (length a.secret_word)) ++ a.secret_word))))

unfoldable pub deserialize_role_assignment : List ℕ → ℕ → Result RoleAssignment
deserialize_role_assignment data_bytes size =
    if ltb size 12
    then ok (record { player_id = 0; role = no_role; topic = []; secret_word = [] })
    else do
      id ← load_u32 data_bytes 0
      code ← load_u32 data_bytes 4
      let assignment : RoleAssignment = record {
        player_id = id;
        role = u32_to_role code;
        topic = [];
        secret_word = [];
      }
      if ltb size (8 + 4) then ok assignment else do
        topic_len ← load_u32 data_bytes 8
        (topic, offset) ← optional_string data_bytes size 12 topic_len
        if ltb size (offset + 4) then ok (record assignment { topic = topic }) else do
          word_len ← load_u32 data_bytes offset
          (word, _) ← optional_string data_bytes size (offset + 4) word_len
          ok (record assignment { topic = topic; secret_word = word })

unfoldable pub create_role_assignment_packet : RoleAssignment → Packet
unfolding serialize_role_assignment make_packet
create_role_assignment_packet a =
    make_packet MessageType.role_assignment (serialize_role_assignment a)

unfoldable pub extract_role_assignment : Packet → Result RoleAssignment
unfolding deserialize_role_assignment
extract_role_assignment packet = deserialize_role_assignment packet.payload (length packet.payload)

pub deserialize_role_assignment-Returns :
    (d : List ℕ) (size : ℕ) → size ≤ length d → Returns (deserialize_role_assignment d size)
unfolding deserialize_role_assignment
deserialize_role_assignment-Returns d size h =
    if-Returns (ltb size 12) _ _ (λ _. tt)
      λ e. >>=-Returns _ _ (load_u32-Returns d 0 (ground arith)) λ id.
        >>=-Returns _ _ (load_u32-Returns d 4 (ground arith)) λ code.
          if-Returns (ltb size 12) _ _ (λ _. tt)
            λ e'. >>=-Returns _ _ (load_u32-Returns d 8 (ground arith)) λ topic_len.
              >>=-Returns _ _ (optional_string-Returns d size 12 topic_len h) λ r.
                if-Returns (ltb size (r.1 + 4)) _ _ (λ _. tt)
                  λ e''. >>=-Returns _ _ (load_u32-Returns d r.1 (ground arith)) λ word_len.
                    >>=-Returns _ _ (optional_string-Returns d size (r.1 + 4) word_len h) λ q. tt

-- The fields are in the range of their C++ types.
pub record IsAssignment (a : RoleAssignment) : Type 0 where
  pub id_fits : IsU32 a.player_id
  pub role_fits : IsRole a.role
  pub topic_fits : IsU32 (length a.topic)
  pub word_fits : IsU32 (length a.secret_word)

module _ (a : RoleAssignment) (h : IsAssignment a) where
  abbrev wire : List ℕ
  wire = serialize_role_assignment a

  open a use {topic, secret_word as word}

  length-wire : length wire ≡ 16 + length topic + length word
  unfolding serialize_role_assignment
  length-wire = omega (arith, length-append topic (be32 (to_u32 (length word)) ++ word))

  wire_id : load_u32 wire 0 ≡ ok a.player_id
  unfolding serialize_role_assignment
  wire_id = load_u32_at a.player_id wire 0 _ refl h.id_fits

  wire_role : load_u32 wire 4 ≡ ok (role_to_u32 a.role)
  unfolding serialize_role_assignment
  wire_role = load_u32_at (role_to_u32 a.role) wire 4 _ refl (role_to_u32-IsU32 a.role h.role_fits)

  wire_topic_length : load_u32 wire 8 ≡ ok (length topic)
  unfolding serialize_role_assignment
  wire_topic_length = load_length_at (length topic) wire 8 _ refl h.topic_fits

  wire_topic : optional_string wire (length wire) 12 (length topic) ≡ ok (topic, 12 + length topic)
  unfolding serialize_role_assignment
  wire_topic = optional_string_at topic wire (length wire) 12 _ refl (omega (arith, length-wire))

  wire_rest : drop (12 + length topic) wire ≡ be32 (to_u32 (length word)) ++ word
  unfolding serialize_role_assignment
  wire_rest = sym (drop-drop 12 (length topic) wire) ∙ drop-append topic _

  wire_word_length : load_u32 wire (12 + length topic) ≡ ok (length word)
  wire_word_length =
      load_length_at (length word) wire (12 + length topic) word wire_rest h.word_fits

  wire_word :
      optional_string wire (length wire) (12 + length topic + 4) (length word)
      ≡ ok (word, 12 + length topic + 4 + length word)
  unfolding be32
  wire_word =
      optional_string_at word wire (length wire) (12 + length topic + 4) []
        (sym (drop-drop (12 + length topic) 4 wire) ∙ ap (drop 4) wire_rest ∙ sym (append-nil word))
        (omega (arith, length-wire))

  -- A role assignment is read back from its bytes, if its player, its role and the lengths of its two
  -- strings are in the range of their C++ types.
  pub deserialize-serialize_role_assignment :
      deserialize_role_assignment
        (serialize_role_assignment a)
        (length (serialize_role_assignment a))
      ≡ ok a
  unfolding deserialize_role_assignment
  deserialize-serialize_role_assignment = rw (
    ge→ltb (length wire) 12 (omega (arith, length-wire)),
    wire_id,
    wire_role,
    u32_to_role-role_to_u32 a.role h.role_fits,
    wire_topic_length,
    wire_topic,
    ge→ltb (length wire) (12 + length topic + 4) (omega (arith, length-wire)),
    wire_word_length,
    wire_word,
  )
