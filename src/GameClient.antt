-- ===== src/GameClient.antt =====
-- The player's program: src/client/game_client.cpp. The screen is the list of the bytes that went to
-- `std::cout`; `std::cerr` is left out. `playersMutex` guards single looks at the table, and one packet is
-- handled at a time.
pub mod Screen
pub mod Handlers
pub mod Typing
pub mod Mirror
pub mod Program
mod Runs
use cpptcpmultiplayer.Prelude.{
  ℕ, zero, suc, ◌+◌, ◌-◌, ◌*◌, ◌/◌, ◌%◌, ◌^◌, ◌≤◌, ◌<◌, ◌≡◌, refl, sym, ap, ◌∙◌, ◌≢◌, ◌↔◌, ◌⊎◌, inl,
  inr, Bool, true, false, not, ◌&&◌, ◌||◌, Option, none, some, List, [], ◌∷◌, ◌++◌, map, append-nil,
  append_assoc, arith, ltb, leb, ◌==◌, if◌then◌else◌, ltb→lt, ltb→ge, lt→ltb, ge→ltb, le→leb,
  gt→leb, leb→le, leb→gt, ==_refl, ==_iff, Bool-cases, Bool-ext, Option-cases, length, get_or, drop,
  take, All, length-append, length-drop, nil_of_length, length-take_le, take-append_le, take-append,
  drop-append, drop-append_le, drop-drop, All-append, Result, ok, fault, stuck, ◌>>=◌, Returns,
  Returns-value, >>=-Returns, if-Returns, drop-append_add, if-elim, is_nil, equal_bytes,
  equal_bytes→eq, equal_bytes_refl,
}
use cpptcpmultiplayer.Bytes.{
  IsU32, IsU16, IsByte, be32, be16, to_u32, read_u32, read_u16, read_bytes, load_u32, load_u16,
  load_bytes, load_u32-Returns, load_u16-Returns, load_bytes-Returns, read_u32-be32, read_u16-be16,
  read_bytes-append, read_bytes-take, load_u32_at, load_bytes_at, load_length_at,
}
use cpptcpmultiplayer.PlayerState.{PlayerState}

-- The globals, the static variable of the callback, and the output so far. `players` is a `std::map`.
pub record GameClient : Type 0 where
  pub players : List (ℕ × PlayerState)
  pub initial_state_received : Bool
  pub screen : List ℕ

abbrev pub new_game_client : GameClient
new_game_client = record { players = []; initial_state_received = false; screen = [] }

-- `std::cout << text`.
abbrev pub show : List ℕ → GameClient → GameClient
show text c = record c { screen = c.screen ++ text }
