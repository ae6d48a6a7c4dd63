-- ===== src/GameClient/Typing.antt =====
-- The keyboard of src/client/game_client.cpp: the loop of `main` that reads keys, and the packets that it
-- sends. `_getch` gives a list of keys.
pub mod Lines
use cpptcpmultiplayer.Prelude.{
  ℕ, zero, suc, ◌+◌, ◌-◌, ◌*◌, ◌/◌, ◌%◌, ◌^◌, ◌≤◌, ◌<◌, ◌≡◌, refl, sym, ap, ◌∙◌, ◌≢◌, ◌↔◌, ◌⊎◌, inl,
  inr, Bool, true, false, not, ◌&&◌, ◌||◌, Option, none, some, List, [], ◌∷◌, ◌++◌, map, append-nil,
  append_assoc, arith, ltb, leb, ◌==◌, if◌then◌else◌, ltb→lt, ltb→ge, lt→ltb, ge→ltb, le→leb,
  gt→leb, leb→le, leb→gt, ==_refl, ==_iff, Bool-cases, Bool-ext, Option-cases, length, get_or, drop,
  take, All, length-append, length-drop, nil_of_length, length-take_le, take-append_le, take-append,
  drop-append, drop-append_le, drop-drop, All-append, Result, ok, fault, stuck, ◌>>=◌, Returns,
  Returns-value, >>=-Returns, if-Returns, drop-append_add, if-elim, is_nil, equal_bytes,
  equal_bytes→eq, equal_bytes_refl,
}
use cpptcpmultiplayer.Bytes.{
  IsU32, IsU16, IsByte, be32, be16, to_u32, read_u32, read_u16, read_bytes, load_u32, load_u16,
  load_bytes, load_u32-Returns, load_u16-Returns, load_bytes-Returns, read_u32-be32, read_u16-be16,
  read_bytes-append, read_bytes-take, load_u32_at, load_bytes_at, load_length_at,
}
use cpptcpmultiplayer.Prelude.Text.{codes}
use cpptcpmultiplayer.Packet.{Packet, make_packet}
use cpptcpmultiplayer.Packet.MessageType
use cpptcpmultiplayer.Server.{Network}
use cpptcpmultiplayer.Client.{Client, send_packet}

-- `chatBuffer`, and the bytes that were echoed to the screen.
pub record Line : Type 0 where
  pub chat_buffer : List ℕ
  pub echoed : List ℕ

-- `pop_back` on a string that is not empty.
unfoldable pub pop_back : List ℕ → List ℕ
pop_back [] = []
pop_back (b ∷ []) = []
pop_back (b ∷ c ∷ s) = b ∷ pop_back (c ∷ s)

abbrev pub is_enter : ℕ → Bool
is_enter key = key == 13 || key == 10

abbrev pub is_rubout : ℕ → Bool
is_rubout key = key == 8 || key == 127

abbrev pub is_printable : ℕ → Bool
is_printable key = leb 32 key && leb key 126

module _ (network : Network) where
  -- One key: the line and the client afterwards.
  unfoldable pub handle_key : ℕ → Line → Client → Line × Client
  unfolding pop_back
  handle_key key line c =
      if is_enter key
      then (if is_nil line.chat_buffer then (line, c) else (
        record { chat_buffer = []; echoed = line.echoed ++ (10 ∷ []) },
        (send_packet network (make_packet MessageType.chat_message line.chat_buffer) c).0,
      ))
      else if is_rubout key
      then (if is_nil line.chat_buffer then (line, c) else (
        record {
          chat_buffer = pop_back line.chat_buffer;
          echoed = line.echoed ++ (8 ∷ 32 ∷ 8 ∷ []);
        },
        c,
      ))
      else if is_printable key
      then (
        record { chat_buffer = line.chat_buffer ++ (key ∷ []); echoed = line.echoed ++ (key ∷ []) },
        c,
      )
      else (line, c)

  -- `while (client.isConnected())`, over the keys that are pressed.
  unfoldable pub handle_keys : List ℕ → Line → Client → Line × Client
  unfolding handle_key
  handle_keys [] line c = (line, c)
  handle_keys (key ∷ keys) line c =
      if not c.connected
      then (line, c)
      else let next = handle_key key line c in handle_keys keys next.0 next.1

  -- The packet that is sent on the start.
  unfoldable pub join : List ℕ → Client → Client × Bool
  join username c = send_packet network (make_packet MessageType.player_join username) c
