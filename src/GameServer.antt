-- ===== src/GameServer.antt =====
-- The packet callback of src/server/game_server.cpp. The callback runs on the thread of the client
-- that sent the packet; here one call runs at a time. The log lines are left out, and so are the
-- exceptions that `startNewRoundIfPossible` catches: nothing that it calls throws one by itself.
pub mod Text
pub mod Round
pub mod Ballot
pub mod Handlers
pub mod Session
pub mod Mail
pub mod Process
pub mod Threads
mod Runs
use cpptcpmultiplayer.Prelude.{
  ℕ, zero, suc, ◌+◌, ◌-◌, ◌*◌, ◌/◌, ◌%◌, ◌^◌, ◌≤◌, ◌<◌, ◌≡◌, refl, sym, ap, ◌∙◌, ◌≢◌, ◌↔◌, ◌⊎◌, inl,
  inr, Bool, true, false, not, ◌&&◌, ◌||◌, Option, none, some, List, [], ◌∷◌, ◌++◌, map, append-nil,
  append_assoc, arith, ltb, leb, ◌==◌, if◌then◌else◌, ltb→lt, ltb→ge, lt→ltb, ge→ltb, le→leb,
  gt→leb, leb→le, leb→gt, ==_refl, ==_iff, Bool-cases, Option-cases, length, get_or, drop, take,
  All, length-append, length-drop, nil_of_length, length-take_le, take-append_le, take-append,
  drop-append, drop-append_le, drop-drop, All-append, Result, ok, fault, stuck, ◌>>=◌, Returns,
  Returns-value, >>=-Returns, if-Returns, drop-append_add, if-elim, equal_bytes, equal_bytes→eq,
  equal_bytes_refl,
}
use cpptcpmultiplayer.Bytes.{
  IsU32, IsU16, IsByte, be32, be16, to_u32, read_u32, read_u16, read_bytes, load_u32, load_u16,
  load_bytes, load_u32-Returns, load_u16-Returns, load_bytes-Returns, read_u32-be32, read_u16-be16,
  read_bytes-append, read_bytes-take, load_u32_at, load_bytes_at, load_length_at,
}
use cpptcpmultiplayer.GameState.{GameState}
use cpptcpmultiplayer.Server.{Server}

-- What the callback has a reference to, and how many rounds were drawn so far, which picks the next
-- value of the random device.
pub record World : Type 0 where
  pub server : Server
  pub game : GameState
  pub draws : ℕ
