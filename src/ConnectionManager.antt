-- ===== src/ConnectionManager.antt =====
-- The table of connections: include/server/connection_manager.h and
-- src/server/connection_manager.cpp. Each method locks `mutex_` for its whole body. The entries are
-- shared pointers, and all writes through them are in these methods. A socket and an address are
-- numbers, and the clock's reading is an argument.
pub mod Laws
mod Runs
use cpptcpmultiplayer.Prelude.{
  ℕ, zero, suc, ◌+◌, ◌-◌, ◌*◌, ◌/◌, ◌%◌, ◌^◌, ◌≤◌, ◌<◌, ◌≡◌, refl, sym, ap, ◌∙◌, ◌≢◌, ◌↔◌, ◌⊎◌, inl,
  inr, Bool, true, false, not, ◌&&◌, ◌||◌, Option, none, some, List, [], ◌∷◌, ◌++◌, map, append-nil,
  append_assoc, arith, ltb, leb, ◌==◌, if◌then◌else◌, ltb→lt, ltb→ge, lt→ltb, ge→ltb, le→leb,
  gt→leb, leb→le, leb→gt, ==_refl, ==_iff, Bool-cases, Option-cases, length, get_or, drop, take,
  All, length-append, length-drop, nil_of_length, length-take_le, take-append_le, take-append,
  drop-append, drop-append_le, drop-drop, All-append, Result, ok, fault, stuck, ◌>>=◌, Returns,
  Returns-value, >>=-Returns, if-Returns, drop-append_add, if-elim, equal_bytes, equal_bytes→eq,
  equal_bytes_refl,
}
use cpptcpmultiplayer.Bytes.{
  IsU32, IsU16, IsByte, be32, be16, to_u32, read_u32, read_u16, read_bytes, load_u32, load_u16,
  load_bytes, load_u32-Returns, load_u16-Returns, load_bytes-Returns, read_u32-be32, read_u16-be16,
  read_bytes-append, read_bytes-take, load_u32_at, load_bytes_at, load_length_at,
}
use cpptcpmultiplayer.Prelude.Maps.{find, contains, insert, erase, erase_if, map_values, values}

pub data ConnectionStatus : Type 0 where
  connecting active idle disconnecting : ConnectionStatus

pub record ConnectionInfo : Type 0 where
  pub id : ℕ
  pub socket : ℕ
  pub address : ℕ
  pub username : List ℕ
  pub status : ConnectionStatus
  pub last_heartbeat : ℕ
  pub connected_at : ℕ

-- `connections_`.
abbrev pub Connections : Type 0
Connections = List (ℕ × ConnectionInfo)

abbrev pub new_connection : ℕ → ℕ → ℕ → ℕ → ConnectionInfo
new_connection id socket address now = record {
  id = id;
  socket = socket;
  address = address;
  username = [];
  status = connecting;
  last_heartbeat = now;
  connected_at = now;
}

abbrev pub is_active : ConnectionStatus → Bool
is_active active = true
is_active s = false

abbrev pub is_disconnecting : ConnectionStatus → Bool
is_disconnecting disconnecting = true
is_disconnecting s = false

unfoldable pub add_connection : ℕ → ℕ → ℕ → ℕ → Connections → Connections × Bool
add_connection id socket address now m =
    if contains id m then (m, false) else (insert id (new_connection id socket address now) m, true)

unfoldable pub remove_connection : ℕ → Connections → Connections × Bool
remove_connection id m = (erase id m, contains id m)

-- `none` is the null pointer.
unfoldable pub get_connection : ℕ → Connections → Option ConnectionInfo
get_connection id m = find id m

unfoldable pub has_connection : ℕ → Connections → Bool
has_connection id m = contains id m

-- A write through the pointer of an entry.
unfoldable pub update : ℕ → (ConnectionInfo → ConnectionInfo) → Connections → Connections × Bool
update id f m = elim (find id m) [ none ↦ (m, false) | some c ↦ (insert id (f c) m, true) ]

abbrev pub with_status : ConnectionStatus → ConnectionInfo → ConnectionInfo
with_status s c = record c { status = s }

unfoldable pub set_status : ℕ → ConnectionStatus → Connections → Connections × Bool
unfolding update
set_status id s m = update id (with_status s) m

unfoldable pub set_username : ℕ → List ℕ → Connections → Connections × Bool
unfolding update
set_username id username m = update id (λ c. record c { username = username }) m

unfoldable pub update_heartbeat : ℕ → ℕ → Connections → Connections × Bool
unfolding update
update_heartbeat id now m = update id (λ c. record c { last_heartbeat = now }) m

unfoldable pub get_active_connections : Connections → List ℕ
get_active_connections [] = []
get_active_connections ((id, c) ∷ m) =
    let ids = get_active_connections m in if is_active c.status then id ∷ ids else ids

unfoldable pub get_all_connections : Connections → List ConnectionInfo
get_all_connections m = values m

unfoldable pub get_connection_count : Connections → ℕ
get_connection_count m = length m

unfoldable pub get_active_connection_count : Connections → ℕ
get_active_connection_count [] = 0
get_active_connection_count ((id, c) ∷ m) =
    (if is_active c.status then 1 else 0) + get_active_connection_count m

unfoldable pub find_connection_by_username : List ℕ → Connections → Option ConnectionInfo
find_connection_by_username username [] = none
find_connection_by_username username ((id, c) ∷ m) =
    if equal_bytes c.username username then some c else find_connection_by_username username m

unfoldable pub cleanup_inactive_connections : Connections → Connections
cleanup_inactive_connections m = erase_if (λ c. is_disconnecting c.status) m

unfoldable pub clear_all_connections : Connections → Connections
clear_all_connections m = []
