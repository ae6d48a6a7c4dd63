-- ===== src/Play.antt =====
-- The game over the network: what src/client/game_client.cpp shows of the game that
-- src/server/game_server.cpp plays.
pub mod Packets
pub mod Ranges
pub mod Rounds
pub mod Handlers
pub mod Callback
pub mod Thread
pub mod Vote
pub mod Program
mod Runs
use cpptcpmultiplayer.Prelude.{
  ℕ, zero, suc, ◌+◌, ◌-◌, ◌*◌, ◌/◌, ◌%◌, ◌^◌, ◌≤◌, ◌<◌, ◌≡◌, refl, sym, ap, ◌∙◌, ◌≢◌, ◌↔◌, ◌⊎◌, inl,
  inr, Bool, true, false, not, ◌&&◌, ◌||◌, Option, none, some, List, [], ◌∷◌, ◌++◌, map, append-nil,
  append_assoc, arith, ltb, leb, ◌==◌, if◌then◌else◌, ltb→lt, ltb→ge, lt→ltb, ge→ltb, le→leb,
  gt→leb, leb→le, leb→gt, ==_refl, ==_iff, Bool-cases, Bool-ext, Option-cases, length, get_or, drop,
  take, All, length-append, length-drop, nil_of_length, length-take_le, take-append_le, take-append,
  drop-append, drop-append_le, drop-drop, All-append, Result, ok, fault, stuck, ◌>>=◌, Returns,
  Returns-value, >>=-Returns, if-Returns, drop-append_add, if-elim, is_nil, equal_bytes,
  equal_bytes→eq, equal_bytes_refl,
}
use cpptcpmultiplayer.Bytes.{
  IsU32, IsU16, IsByte, be32, be16, to_u32, read_u32, read_u16, read_bytes, load_u32, load_u16,
  load_bytes, load_u32-Returns, load_u16-Returns, load_bytes-Returns, read_u32-be32, read_u16-be16,
  read_bytes-append, read_bytes-take, load_u32_at, load_bytes_at, load_length_at,
}
use mathlib.Core.Path.{subst}
use cpptcpmultiplayer.Prelude.Int.{ℤ}
use cpptcpmultiplayer.Prelude.Maps.{find, values}
use cpptcpmultiplayer.Prelude.Maps.Every.{Every}
use cpptcpmultiplayer.Prelude.Maps.Sorted.{IsAscending}
use cpptcpmultiplayer.Packet.{Packet}
use cpptcpmultiplayer.PlayerState.{PlayerState, IsPlayer}
use cpptcpmultiplayer.Server.{Server}
use cpptcpmultiplayer.Server.Mail.{Tells, Tells-none, Tells-then}
use cpptcpmultiplayer.GameState.{GameState}
use cpptcpmultiplayer.GameClient.{GameClient}
use cpptcpmultiplayer.GameClient.Handlers.{handle_server_packet, handle_server_packets}
use cpptcpmultiplayer.GameServer.{World}

-- What the status bar has of a player.
abbrev pub bar_entry : Option PlayerState → Option (List ℕ × ℤ)
bar_entry none = none
bar_entry (some p) = some (p.username, p.score)

-- A client's table has exactly the players of the game, each with the same name and score.
pub record Shows (g : GameState) (c : GameClient) : Type 0 where
  pub entries : (k : ℕ) → bar_entry (find k c.players) ≡ bar_entry (find k g.players)
  pub ascending : IsAscending 0 c.players

-- The client handles the packets, and then shows the game.
pub record Hears (g : GameState) (packets : List Packet) (c : GameClient) : Type 0 where
  pub client : GameClient
  pub handled : handle_server_packets packets c ≡ ok client
  pub shows : Shows g client

pub Hears-none : (g : GameState) (c : GameClient) → Shows g c → Hears g [] c
Hears-none g c s = record { client = c; handled = unfold handle_server_packets in refl; shows = s }

handle_server_packets-append :
    (ps qs : List Packet) (c d : GameClient)
    → handle_server_packets ps c ≡ ok d
    → handle_server_packets (ps ++ qs) c ≡ handle_server_packets qs d
unfolding handle_server_packets
handle_server_packets-append [] qs c d e = (let p : c ≡ d = cc in ap (handle_server_packets qs) p)
handle_server_packets-append (p ∷ ps) qs c d e = elim (handled_cases (handle_server_packet p c)) [
  | inl (m, f) ↦
      ap (λ r. r >>= λ x. handle_server_packets (ps ++ qs) x) f
      ∙ handle_server_packets-append ps qs m d
          (sym (ap (λ r. r >>= λ x. handle_server_packets ps x) f) ∙ e)
  | inr f ↦ absurd (f (subst Returns (sym e) tt))
]
  where
    handled_cases :
        (r : Result GameClient)
        → ((m : GameClient) × (r ≡ ok m)) ⊎ (Returns (r >>= λ x. handle_server_packets ps x) → ⊥)
    handled_cases (ok m) = inl (m, refl)
    handled_cases fault = inr (λ x. x)
    handled_cases stuck = inr (λ x. x)

pub Hears-after :
    {g : GameState} (ps : List Packet) {qs : List Packet} {c d : GameClient}
    → handle_server_packets ps c ≡ ok d
    → Hears g qs d
    → Hears g (ps ++ qs) c
Hears-after ps {qs = qs} {c = c} {d = d} e h = record {
  client = h.client;
  handled = handle_server_packets-append ps qs c d e ∙ h.handled;
  shows = h.shows;
}

-- A client hears all that is sent to its socket from one state of the world to another, and then shows
-- the game.
pub record Reaches (socket : ℕ) (w v : World) (c : GameClient) : Type 0 where
  pub packets : List Packet
  pub tells : Tells socket packets w.server v.server
  pub hears : Hears v.game packets c

module _ {socket : ℕ} where
  pub Reaches-none : (w : World) (c : GameClient) → Shows w.game c → Reaches socket w w c
  Reaches-none w c s = record {
    packets = [];
    tells = Tells-none w.server;
    hears = Hears-none w.game c s;
  }

  pub Reaches-then :
      {w v u : World} {c : GameClient}
      → Reaches socket w v c
      → ((d : GameClient) → Shows v.game d → Reaches socket v u d)
      → Reaches socket w u c
  Reaches-then {c = c} a f =
      let b = f a.hears.client a.hears.shows in
      record {
        packets = a.packets ++ b.packets;
        tells = Tells-then a.tells b.tells;
        hears = record {
          client = b.hears.client;
          handled =
              handle_server_packets-append a.packets b.packets c a.hears.client a.hears.handled
              ∙ b.hears.handled;
          shows = b.hears.shows;
        };
      }
