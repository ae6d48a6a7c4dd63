-- ===== src/GameServer/Process/Life.antt =====
-- The process of src/server/game_server.cpp from the start of the accept loop: the clients that the server
-- accepts, what their threads do, and Ctrl+C, in any order. One callback runs at a time.
pub mod Ids
pub mod Fresh
use cpptcpmultiplayer.Prelude.{
  ℕ, zero, suc, ◌+◌, ◌-◌, ◌*◌, ◌/◌, ◌%◌, ◌^◌, ◌≤◌, ◌<◌, ◌≡◌, refl, sym, ap, ◌∙◌, ◌≢◌, ◌↔◌, ◌⊎◌, inl,
  inr, Bool, true, false, not, ◌&&◌, ◌||◌, Option, none, some, List, [], ◌∷◌, ◌++◌, map, append-nil,
  append_assoc, arith, ltb, leb, ◌==◌, if◌then◌else◌, ltb→lt, ltb→ge, lt→ltb, ge→ltb, le→leb,
  gt→leb, leb→le, leb→gt, ==_refl, ==_iff, Bool-cases, Bool-ext, Option-cases, length, get_or, drop,
  take, All, length-append, length-drop, nil_of_length, length-take_le, take-append_le, take-append,
  drop-append, drop-append_le, drop-drop, All-append, Result, ok, fault, stuck, ◌>>=◌, Returns,
  Returns-value, >>=-Returns, if-Returns, drop-append_add, if-elim, is_nil, equal_bytes,
  equal_bytes→eq, equal_bytes_refl,
}
use cpptcpmultiplayer.Bytes.{
  IsU32, IsU16, IsByte, be32, be16, to_u32, read_u32, read_u16, read_bytes, load_u32, load_u16,
  load_bytes, load_u32-Returns, load_u16-Returns, load_bytes-Returns, read_u32-be32, read_u16-be16,
  read_bytes-append, read_bytes-take, load_u32_at, load_bytes_at, load_length_at,
}
use cpptcpmultiplayer.Packet.{Packet}
use cpptcpmultiplayer.GameState.{new_game}
use cpptcpmultiplayer.GameState.Round.{Random}
use cpptcpmultiplayer.Server.{Network, Server, ClientConnection, new_server}
use cpptcpmultiplayer.Server.Lifecycle.{accept_client, closing, cleared}
use cpptcpmultiplayer.GameServer.{World}
use cpptcpmultiplayer.GameServer.Session.{deliver, heard, end_client}

-- The world once `start` listens on this socket.
abbrev pub first_world : ℕ → World
first_world listening = record {
  server = record new_server { running = true; server_socket = some listening };
  game = new_game;
  draws = 0;
}

-- There is a thread for this client.
unfoldable pub has_thread : ℕ → List ClientConnection → Bool
has_thread id [] = false
has_thread id (c ∷ threads) = c.id == id || has_thread id threads

module _ (network : Network) (random : ℕ → Random) where
  -- What the thread of a client does: it hears a chunk, hands on a packet of it, and ends. After Ctrl+C,
  -- `stop` waits for the threads between its two halves.
  pub data Happens (w : World) : World → Type 0 where
    hears :
        (id socket now : ℕ)
        → has_thread id w.server.client_threads ≡ true
        → Happens w (heard network random id socket now w)
    delivers :
        (id socket : ℕ) (packet : Packet)
        → has_thread id w.server.client_threads ≡ true
        → Happens w (deliver network random id socket packet w)
    ends :
        (id socket : ℕ)
        → has_thread id w.server.client_threads ≡ true
        → Happens w (end_client network random id socket w)
    interrupts : w.server.running ≡ true → Happens w (record w { server = closing w.server })
    has_joined : w.server.running ≡ false → Happens w (record w { server = cleared w.server })

  -- The worlds that can be reached while this many clients are accepted.
  pub data Life : ℕ → World → Type 0 where
    opens : (listening : ℕ) → Life 0 (first_world listening)
    accepts :
        {n : ℕ} {w : World} (socket address now : ℕ)
        → Life n w
        → w.server.running ≡ true
        → Life (n + 1) (record w { server = accept_client socket address now w.server })
    goes_on : {n : ℕ} {w v : World} → Life n w → Happens w v → Life n v
