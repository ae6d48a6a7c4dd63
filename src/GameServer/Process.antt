-- ===== src/GameServer/Process.antt =====
-- The end of the process of src/server/game_server.cpp: `Server::stop` of src/server/server.cpp with what
-- the threads of the clients do until they are joined, the console's handler, and what `main` does once
-- the server has stopped.
pub mod Life
pub mod Stop
mod Runs
use cpptcpmultiplayer.Prelude.{ℕ, Bool, true, false, not, List, [], ◌∷◌, if◌then◌else◌}
use cpptcpmultiplayer.Packet.{Packet}
use cpptcpmultiplayer.Server.{Network, Server}
use cpptcpmultiplayer.Server.Lifecycle.{closing, cleared}
use cpptcpmultiplayer.GameState.{clear_all_players}
use cpptcpmultiplayer.GameState.Round.{Random}
use cpptcpmultiplayer.GameServer.{World}
use cpptcpmultiplayer.GameServer.Session.{deliver, heard, end_client}

-- What the thread of a client with this id and this socket still does while `stop` waits for it: it hears
-- bytes, at a reading of the clock, or hands on a packet, or its loop is over and it ends.
pub data Deed : Type 0 where
  hears_at : ℕ → ℕ → ℕ → Deed
  hands_on : ℕ → ℕ → Packet → Deed
  has_ended : ℕ → ℕ → Deed

module _ (network : Network) (random : ℕ → Random) where
  unfoldable pub do_deed : Deed → World → World
  unfolding end_client
  do_deed (hears_at id socket now) w = heard network random id socket now w
  do_deed (hands_on id socket packet) w = deliver network random id socket packet w
  do_deed (has_ended id socket) w = end_client network random id socket w

  unfoldable pub do_deeds : List Deed → World → World
  do_deeds [] w = w
  do_deeds (deed ∷ deeds) w = do_deeds deeds (do_deed deed w)

  -- `stop`, with what the threads do until the last of them is joined, in the order in which they do it. In
  -- the program each thread that has not ended yet ends in that time; the deeds may be any.
  unfoldable pub stop : List Deed → World → World
  unfolding closing cleared do_deeds
  stop deeds w =
      if not w.server.running
      then w
      else let joined = do_deeds deeds (record w { server = closing w.server }) in
        record joined { server = cleared joined.server }

  -- `ConsoleHandler`, for the event of Ctrl+C and for another.
  unfoldable pub console_handler : Bool → List Deed → World → World × Bool
  unfolding stop
  console_handler is_ctrl_c deeds w = if is_ctrl_c then (stop deeds w, true) else (w, false)

-- What `main` does when the server does not run any more.
unfoldable pub shut_down : World → World
unfolding clear_all_players
shut_down w = record w { game = clear_all_players w.game }
