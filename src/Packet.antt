-- ===== src/Packet.antt =====
-- The frame of a message: include/common/packet.h and src/common/packet.cpp. A packet's header has the
-- length of the whole frame and the message's type; the frame is the header and the payload (`data_`).
-- `size_t` has 64 bits and no vector comes near that size, so its sums are not reduced.
pub mod Framing
pub mod Wire
mod Runs
use cpptcpmultiplayer.Prelude.{
  ℕ, ◌+◌, ◌-◌, ◌^◌, Bool, List, [], ◌++◌, ◌||◌, length, ltb, leb, if◌then◌else◌, Result, ok, ◌>>=◌,
}
use cpptcpmultiplayer.Bytes.{be32, be16, to_u32, load_u32, load_u16, load_bytes}
-- `MessageType`.
pub mod MessageType

pub record PacketHeader : Type 0 where
  pub length : ℕ
  pub type : ℕ

-- `PacketHeader::SIZE`.
abbrev pub header_size : ℕ
header_size = 6

pub record Packet : Type 0 where
  pub header : PacketHeader
  pub payload : List ℕ

-- The default constructor.
abbrev pub empty_packet : Packet
empty_packet = record { header = record { length = 0; type = 0 }; payload = [] }

unfoldable pub update_header : Packet → Packet
update_header p = record p {
  header = record { length = to_u32 (header_size + length p.payload); type = p.header.type };
}

-- The constructors from a type and a vector, or a string, of bytes.
unfoldable pub make_packet : ℕ → List ℕ → Packet
unfolding update_header
make_packet type data_bytes =
    update_header (record { header = record { length = 0; type = type }; payload = data_bytes })

unfoldable pub set_type : ℕ → Packet → Packet
set_type type p = record p { header = record { length = p.header.length; type = type } }

unfoldable pub set_data : List ℕ → Packet → Packet
unfolding update_header
set_data data_bytes p = update_header (record p { payload = data_bytes })

unfoldable pub get_total_size : Packet → ℕ
get_total_size p = header_size + length p.payload

unfoldable pub serialize : Packet → List ℕ
unfolding be32 be16
serialize p = be32 p.header.length ++ (be16 p.header.type ++ p.payload)

unfoldable pub deserialize : List ℕ → ℕ → Result Packet
unfolding load_u32 load_u16 load_bytes
deserialize buffer size = if ltb size header_size then ok empty_packet else do
  len ← load_u32 buffer 0
  type ← load_u16 buffer 4
  let header : PacketHeader = record { length = len; type = type }
  if ltb len header_size || ltb size len then ok (record { header = header; payload = [] }) else do
    payload ← load_bytes buffer header_size (len - header_size)
    ok (record { header = header; payload = payload })

unfoldable pub is_complete_packet : List ℕ → ℕ → Result Bool
unfolding load_u32
is_complete_packet buffer size =
    if ltb size header_size then ok Bool.false else do len ← load_u32 buffer 0; ok (leb len size)
