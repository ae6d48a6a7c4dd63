-- ===== src/Server/Lifecycle/Fresh.antt =====
-- Ids that are not given twice, and what `stop` closes, in src/server/server.cpp.
use cpptcpmultiplayer.Prelude.{
  ℕ, ◌+◌, ◌^◌, ◌<◌, ◌≡◌, refl, ap, ◌∙◌, inl, inr, false, none, some, List, [], ◌∷◌, arith, ◌==◌,
  if◌then◌else◌, ==_refl, Option-cases,
}
use cpptcpmultiplayer.Bytes.{to_u32}
use cpptcpmultiplayer.Prelude.Maps.{find, contains, insert, Distinct, find-insert, insert-Distinct}
use cpptcpmultiplayer.Prelude.Maps.Every.{Every, Every-insert, Every-weaken}
use cpptcpmultiplayer.ConnectionManager.{
  ConnectionInfo, Connections, new_connection, with_status, active, add_connection, set_status,
  update, get_all_connections,
}
use cpptcpmultiplayer.Server.{Server}
use cpptcpmultiplayer.Server.Lifecycle.{accept_client, close_all, close_listening, closing}

-- Every id in the table was given before the next one, and none is there twice.
pub record HasFreshId (s : Server) : Type 0 where
  pub ids_distinct : Distinct s.connections
  pub ids_below : Every (λ id _. id < s.next_client_id) s.connections

below-find : (n : ℕ) (m : Connections) → Every (λ id _. id < n) m → find n m ≡ none
unfolding find
below-find n [] h = refl
below-find n ((k, c) ∷ m) h = ground (arith, h.0, below-find n m h.1)

-- Two writes of the same entry.
find-insert_twice :
    (k id : ℕ) (a b : ConnectionInfo) (m : Connections)
    → find k (insert id b (insert id a m)) ≡ (if id == k then some b else find k m)
find-insert_twice k id a b m =
    ground (arith, find-insert k id b (insert id a m), find-insert k id a m)

-- With a fresh next id that is not the last one, a client who is accepted gets that id, which was not in
-- the table, and an active connection; every other entry stays, no socket is closed, and the next id is
-- fresh again.
pub accept_client_lem :
    (socket address now : ℕ) (s : Server)
    → HasFreshId s
    → s.next_client_id + 1 < 2 ^ 32
    → let t = accept_client socket address now s in
      HasFreshId t
      × (find s.next_client_id s.connections ≡ none)
      × ((k : ℕ)
          → find k t.connections ≡ (
              if s.next_client_id == k
              then some (with_status active (new_connection s.next_client_id socket address now))
              else find k s.connections))
      × (t.next_client_id ≡ s.next_client_id + 1)
      × (t.closed ≡ s.closed)
unfolding accept_client add_connection set_status contains
accept_client_lem socket address now s f h =
    let id = s.next_client_id in
    let absent = below-find id s.connections f.ids_below in
    let c = new_connection id socket address now in
    let here : find id (insert id c s.connections) ≡ some c =
      find-insert id id c s.connections ∙ rw (==_refl id) in
    let next : to_u32 (id + 1) ≡ id + 1 = omega arith in
    let below =
      Every-weaken (λ k _. k < id) (λ k _. k < id + 1) s.connections (λ k _ q. omega arith)
        f.ids_below in
    rw (absent, accept_client)
      (rw (update, here)
        (
          record {
            ids_distinct =
                insert-Distinct id _ _ (insert-Distinct id c s.connections f.ids_distinct);
            ids_below = rw next (
                Every-insert (λ k _. k < id + 1) id _ _ (omega arith)
                  (Every-insert (λ k _. k < id + 1) id c _ (omega arith) below));
          },
          refl,
          (λ k. find-insert_twice k id c (with_status active c) s.connections),
          next,
          refl,
        ))

-- The sockets of the entries, the last one first, in front of those that are closed already.
unfoldable pub sockets_onto : List ConnectionInfo → List ℕ → List ℕ
sockets_onto [] closed = closed
sockets_onto (c ∷ infos) closed = sockets_onto infos (c.socket ∷ closed)

close_all-closed :
    (infos : List ConnectionInfo) (s : Server)
    → ((close_all infos s).closed ≡ sockets_onto infos s.closed)
      × ((close_all infos s).running ≡ s.running)
      × ((close_all infos s).server_socket ≡ s.server_socket)
unfolding close_all sockets_onto
close_all-closed [] s = (refl, refl, refl)
close_all-closed (c ∷ infos) s = close_all-closed infos _

-- The listening socket in front.
abbrev pub listening_onto : Server → List ℕ
listening_onto s = elim s.server_socket [ none ↦ s.closed | some socket ↦ socket ∷ s.closed ]

close_listening-closed :
    (s : Server)
    → let t = close_listening s in
      (t.closed ≡ listening_onto s) × (t.running ≡ s.running) × (t.server_socket ≡ none)
unfolding close_listening
close_listening-closed s = elim (Option-cases s.server_socket) [
  | inl e ↦ ground (arith, e)
  | inr (socket, e) ↦ ground (arith, e)
]

-- The first half of `stop` closes the listening socket, and then the socket of each connection once, and
-- the server does not run.
pub closing_lem :
    (s : Server)
    → let t = closing s in
      (t.closed ≡ sockets_onto (get_all_connections s.connections) (listening_onto s))
      × (t.running ≡ false)
      × (t.server_socket ≡ none)
unfolding closing
closing_lem s =
    let off : Server = record s { running = false } in
    let (socks, stopped, gone) =
      close_all-closed (get_all_connections s.connections) (close_listening off) in
    let (listening, stays, none_left) = close_listening-closed off in
    (
      socks ∙ ap (sockets_onto (get_all_connections s.connections)) listening,
      stopped ∙ stays,
      gone ∙ none_left,
    )
