-- ===== src/Server/Sample.antt =====
-- A server with three connections, and a network that takes every packet whole, for the tests.
use cpptcpmultiplayer.Prelude.{ℕ, ◌+◌, true, [], ◌∷◌, length}
use cpptcpmultiplayer.ConnectionManager.{ConnectionInfo, ConnectionStatus, Connections}
use cpptcpmultiplayer.Server.{Network, Server, new_server, sent_bytes}

abbrev pub reliable : Network
reliable log socket bytes = sent_bytes (length bytes)

abbrev pub connection : ℕ → ConnectionStatus → ConnectionInfo
connection id status = record {
  id = id;
  socket = 100 + id;
  address = 0;
  username = [];
  status = status;
  last_heartbeat = 0;
  connected_at = 0;
}

-- The table with these three states.
abbrev pub table : ConnectionStatus → ConnectionStatus → ConnectionStatus → Connections
table a b c = (3, connection 3 c) ∷ (2, connection 2 b) ∷ (1, connection 1 a) ∷ []

abbrev pub serving : Connections → Server
serving m = record new_server { running = true; next_client_id = 4; connections = m }
