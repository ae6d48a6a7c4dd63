-- ===== src/GameServer/Session/Runs.antt =====
-- A client's thread that votes and then loses its connection.
use cpptcpmultiplayer.Prelude.{ℕ, ◌≡◌, refl, true, List, [], ◌∷◌, ok}
use cpptcpmultiplayer.Prelude.Maps.{find}
use cpptcpmultiplayer.ConnectionManager.{active}
use cpptcpmultiplayer.GameState.Round.{Random, InRange}
use cpptcpmultiplayer.GameState.Sample
use cpptcpmultiplayer.Server.{Server}
use cpptcpmultiplayer.Server.Sample.{serving, table, reliable}
use cpptcpmultiplayer.GameServer.{World}
use cpptcpmultiplayer.GameServer.Session.{Session, Received, bytes_at, no_bytes, handle_client}
use cpptcpmultiplayer.GameServer.Session.Ends.{IsInOrder, handle_client_lem}

abbrev dice : ℕ → Random
dice i = Sample.lowest

dice-InRange : (i : ℕ) → InRange (dice i)
dice-InRange i = Sample.lowest-InRange

abbrev server : Server
server = record (serving (table active active active)) {
  client_threads = (record { id = 1; socket = 101; address = 0; active = true }) ∷ [];
}

abbrev world : World
world = record { server = server; game = Sample.started; draws = 0 }

-- The chat message "/vote C" in two pieces, and the end of the connection.
abbrev received : List Received
received =
    bytes_at 7 (0 ∷ 0 ∷ 0 ∷ 13 ∷ 0 ∷ 16 ∷ 47 ∷ 118 ∷ [])
    ∷ bytes_at 8 (111 ∷ 116 ∷ 101 ∷ 32 ∷ 67 ∷ [])
    ∷ no_bytes
    ∷ []

handle_client_lem_example :
    (o : Session) × (handle_client reliable dice 1 101 received [] world ≡ ok o) × IsInOrder 1 101 o
handle_client_lem_example =
    handle_client_lem reliable dice dice-InRange 1 101 received [] world Sample.started-IsValid
      (unfold find in (refl, (refl, (refl, tt))))
