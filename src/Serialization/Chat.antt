-- ===== src/Serialization/Chat.antt =====
-- `ChatMessage`.
use cpptcpmultiplayer.Prelude.{
  ℕ, ◌+◌, ◌≤◌, ◌≡◌, refl, sym, ap, ◌∙◌, List, [], ◌++◌, append-nil, arith, ltb, if◌then◌else◌,
  ge→ltb, length, drop, length-append, drop-append, drop-drop, Result, ok, ◌>>=◌, Returns,
  >>=-Returns, if-Returns,
}
use cpptcpmultiplayer.Bytes.{
  IsU32, be32, to_u32, load_u32, load_u32-Returns, load_u32_at, load_length_at,
}
use cpptcpmultiplayer.Packet.{Packet, make_packet}
use cpptcpmultiplayer.Packet.MessageType
use cpptcpmultiplayer.Serialization.Strings.{
  optional_string, optional_string-Returns, optional_string_at,
}

pub record ChatMessage : Type 0 where
  pub sender_id : ℕ
  pub sender_username : List ℕ
  pub sender_message : List ℕ

unfoldable pub serialize_chat_message : ChatMessage → List ℕ
unfolding be32
serialize_chat_message m =
    be32 m.sender_id
    ++ (be32 (to_u32 (length m.sender_username))
        ++ (m.sender_username ++ (be32 (to_u32 (length m.sender_message)) ++ m.sender_message)))

unfoldable pub deserialize_chat_message : List ℕ → ℕ → Result ChatMessage
deserialize_chat_message data_bytes size =
    if ltb size 12
    then ok (record { sender_id = 0; sender_username = []; sender_message = [] })
    else do
      sender ← load_u32 data_bytes 0
      username_len ← load_u32 data_bytes 4
      (username, offset) ← optional_string data_bytes size 8 username_len
      if ltb size (offset + 4)
          then ok (record { sender_id = sender; sender_username = username; sender_message = [] })
          else do
            message_len ← load_u32 data_bytes offset
            (message, _) ← optional_string data_bytes size (offset + 4) message_len
            ok (record { sender_id = sender; sender_username = username; sender_message = message })

unfoldable pub create_chat_message_packet : ChatMessage → Packet
unfolding serialize_chat_message make_packet
create_chat_message_packet m = make_packet MessageType.chat_broadcast (serialize_chat_message m)

unfoldable pub extract_chat_message : Packet → Result ChatMessage
unfolding deserialize_chat_message
extract_chat_message packet = deserialize_chat_message packet.payload (length packet.payload)

pub deserialize_chat_message-Returns :
    (d : List ℕ) (size : ℕ) → size ≤ length d → Returns (deserialize_chat_message d size)
unfolding deserialize_chat_message
deserialize_chat_message-Returns d size h =
    if-Returns (ltb size 12) _ _ (λ _. tt)
      λ e. >>=-Returns _ _ (load_u32-Returns d 0 (ground arith)) λ sender.
        >>=-Returns _ _ (load_u32-Returns d 4 (ground arith)) λ username_len.
          >>=-Returns _ _ (optional_string-Returns d size 8 username_len h) λ r.
            if-Returns (ltb size (r.1 + 4)) _ _ (λ _. tt)
              λ e'. >>=-Returns _ _ (load_u32-Returns d r.1 (ground arith)) λ message_len.
                >>=-Returns _ _ (optional_string-Returns d size (r.1 + 4) message_len h) λ q. tt

-- The fields are in the range of their C++ types.
pub record IsChatMessage (m : ChatMessage) : Type 0 where
  pub id_fits : IsU32 m.sender_id
  pub username_fits : IsU32 (length m.sender_username)
  pub message_fits : IsU32 (length m.sender_message)

module _ (m : ChatMessage) (h : IsChatMessage m) where
  abbrev wire : List ℕ
  wire = serialize_chat_message m

  open m use {sender_username as name, sender_message as message}

  length-wire : length wire ≡ 12 + length name + length message
  unfolding serialize_chat_message
  length-wire = omega (arith, length-append name (be32 (to_u32 (length message)) ++ message))

  wire_id : load_u32 wire 0 ≡ ok m.sender_id
  unfolding serialize_chat_message
  wire_id = load_u32_at m.sender_id wire 0 _ refl h.id_fits

  wire_name_length : load_u32 wire 4 ≡ ok (length name)
  unfolding serialize_chat_message
  wire_name_length = load_length_at (length name) wire 4 _ refl h.username_fits

  wire_name : optional_string wire (length wire) 8 (length name) ≡ ok (name, 8 + length name)
  unfolding serialize_chat_message
  wire_name = optional_string_at name wire (length wire) 8 _ refl (omega (arith, length-wire))

  wire_rest : drop (8 + length name) wire ≡ be32 (to_u32 (length message)) ++ message
  unfolding serialize_chat_message
  wire_rest = sym (drop-drop 8 (length name) wire) ∙ drop-append name _

  wire_message_length : load_u32 wire (8 + length name) ≡ ok (length message)
  wire_message_length =
      load_length_at (length message) wire (8 + length name) message wire_rest h.message_fits

  wire_message :
      optional_string wire (length wire) (8 + length name + 4) (length message)
      ≡ ok (message, 8 + length name + 4 + length message)
  unfolding be32
  wire_message =
      optional_string_at message wire (length wire) (8 + length name + 4) []
        (sym (drop-drop (8 + length name) 4 wire)
          ∙ ap (drop 4) wire_rest
          ∙ sym (append-nil message))
        (omega (arith, length-wire))

  -- A chat message is read back from its bytes, if its sender and the lengths of its two strings are below
  -- 2 ^ 32.
  pub deserialize-serialize_chat_message :
      deserialize_chat_message (serialize_chat_message m) (length (serialize_chat_message m)) ≡ ok m
  unfolding deserialize_chat_message
  deserialize-serialize_chat_message = rw (
    ge→ltb (length wire) 12 (omega (arith, length-wire)),
    wire_id,
    wire_name_length,
    wire_name,
    ge→ltb (length wire) (8 + length name + 4) (omega (arith, length-wire)),
    wire_message_length,
    wire_message,
  )
