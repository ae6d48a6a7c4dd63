-- ===== src/ConnectionManager/Runs.antt =====
-- The table of connections at three entries, of which one is being disconnected.
use cpptcpmultiplayer.Prelude.{ℕ, ◌+◌, ◌≡◌, refl, [], ◌∷◌}
use cpptcpmultiplayer.Prelude.Maps.{find, Distinct}
use cpptcpmultiplayer.ConnectionManager.{
  ConnectionInfo, ConnectionStatus, Connections, connecting, active, disconnecting,
  get_active_connections,
}

abbrev entry : ℕ → ConnectionStatus → ConnectionInfo
entry id status = record {
  id = id;
  socket = 100 + id;
  address = 0;
  username = [];
  status = status;
  last_heartbeat = 0;
  connected_at = 0;
}

abbrev table : Connections
table = (3, entry 3 disconnecting) ∷ (2, entry 2 active) ∷ (1, entry 1 connecting) ∷ []

table-Distinct : Distinct table
unfolding find
table-Distinct = (refl, (refl, (refl, tt)))

one_listed : get_active_connections table ≡ 2 ∷ []
unfolding get_active_connections
one_listed = refl
