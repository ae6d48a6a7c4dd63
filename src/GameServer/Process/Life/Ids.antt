-- ===== src/GameServer/Process/Life/Ids.antt =====
-- The ids of connections, threads and players below a bound, in src/server/server.cpp and
-- src/common/game_state.cpp.
use cpptcpmultiplayer.Prelude.{
  ℕ, ◌+◌, ◌^◌, ◌<◌, ◌≡◌, sym, ap, ◌∙◌, inl, inr, true, false, not, List, [], ◌∷◌, arith, ◌==◌,
  Option-cases, All, All-append, if-elim,
}
use mathlib.Core.Path.{subst}
use cpptcpmultiplayer.Prelude.Maps.{find, Distinct}
use cpptcpmultiplayer.Prelude.Maps.Every.{Every, Every-find, Every-insert}
use cpptcpmultiplayer.PlayerState.{PlayerState}
use cpptcpmultiplayer.ConnectionManager.{
  ConnectionInfo, Connections, get_all_connections, clear_all_connections, add_connection,
  set_status, update, disconnecting, with_status,
}
use cpptcpmultiplayer.GameState.{GameState}
use cpptcpmultiplayer.GameState.Range.{
  IsRoleBlind, clear_round-Every, start_new_round-Every, remove_player-Every, add_player-Every,
  submit_vote-players, calculate_and_apply_scores-Every,
}
use cpptcpmultiplayer.Server.{Server, ClientConnection, deactivate}
use cpptcpmultiplayer.Server.Kept.{IsServed, Distinct-IsKept}
use cpptcpmultiplayer.Server.Lifecycle.{accept_client, close_all, close_listening, closing, cleared}
use cpptcpmultiplayer.Server.Lifecycle.Fresh.{HasFreshId, accept_client_lem}
use cpptcpmultiplayer.GameServer.Handlers.Keep.{IsPlayed}
use cpptcpmultiplayer.GameServer.Process.Life.{has_thread}

-- All ids of players are below this one.
abbrev pub Below : ℕ → ℕ → PlayerState → Type 0
Below n k p = k < n

Below-IsRoleBlind : (n : ℕ) → IsRoleBlind (Below n)
Below-IsRoleBlind n r h k p l = l

pub Below-IsPlayed :
    (n id : ℕ) → id < n → IsPlayed id (λ (g : GameState). Every (Below n) g.players)
Below-IsPlayed n id l = record {
  added = λ username g h. add_player-Every (Below n) id username g l h;
  removed = λ g h. remove_player-Every (Below n) id g h;
  started = λ random g r h. start_new_round-Every (Below n) random g (Below-IsRoleBlind n) h;
  cleared = λ g h. clear_round-Every (Below n) g (Below-IsRoleBlind n) h;
  voted = λ voter target g h.
      subst (Every (Below n)) (sym (submit_vote-players (Below n) voter target g)) h;
  scored = λ caught out majority g h.
      calculate_and_apply_scores-Every (Below n) (Below n) (λ m k p s q. q) (λ k p q. q) caught out
        majority g h;
}

abbrev pub Under : ℕ → ℕ → ConnectionInfo → Type 0
Under n k c = k < n

abbrev pub IsUnder : ℕ → ClientConnection → Type 0
IsUnder n c = c.id < n

-- The next id is new for the table and for the threads.
pub record IsNext (n : ℕ) (s : Server) : Type 0 where
  pub distinct : Distinct s.connections
  pub below : Every (Under n) s.connections
  pub threads : All (IsUnder n) s.client_threads
  pub next : s.next_client_id ≡ n

pub update-Under :
    (n id : ℕ) (f : ConnectionInfo → ConnectionInfo) (m : Connections)
    → Every (Under n) m
    → Every (Under n) (update id f m).0
unfolding update
update-Under n id f m h = elim (Option-cases (find id m)) [
  | inl e ↦ rw (update, e) h
  | inr (c, e) ↦
      rw (update, e) (Every-insert (Under n) id (f c) m (Every-find (Under n) id c m h e) h)
]

pub deactivate-IsUnder :
    (n id : ℕ) (threads : List ClientConnection)
    → All (IsUnder n) threads
    → All (IsUnder n) (deactivate id threads)
unfolding deactivate
deactivate-IsUnder n id [] h = tt
deactivate-IsUnder n id (c ∷ threads) h =
    let rest = deactivate-IsUnder n id threads h.1 in
    if-elim (All (IsUnder n)) (c.id == id) _ _ (λ _. h) (λ _. (h.0, rest))

pub has_thread-IsUnder :
    (n id : ℕ) (threads : List ClientConnection)
    → All (IsUnder n) threads
    → has_thread id threads ≡ true
    → id < n
unfolding has_thread
has_thread-IsUnder n id [] h e = cc
has_thread-IsUnder n id (c ∷ threads) h e = ground (arith, h.0, has_thread-IsUnder n id threads h.1)

pub IsNext-IsServed : (n : ℕ) → IsServed (IsNext n)
unfolding set_status
IsNext-IsServed n = record {
  logged = λ log s h. record {
    distinct = h.distinct;
    below = h.below;
    threads = h.threads;
    next = h.next;
  };
  left = λ id socket s h. record {
    distinct = Distinct-IsKept id s.connections h.distinct;
    below = update-Under n id (with_status disconnecting) s.connections h.below;
    threads = deactivate-IsUnder n id s.client_threads h.threads;
    next = h.next;
  };
}

more :
    (n : ℕ) (threads : List ClientConnection)
    → All (IsUnder n) threads
    → All (IsUnder (n + 1)) threads
more n [] h = tt
more n (c ∷ threads) h = (omega (arith, h.0), more n threads h.1)

accept_client-threads :
    (socket address now : ℕ) (s : Server)
    → All (IsUnder s.next_client_id) s.client_threads
    → All (IsUnder (s.next_client_id + 1)) (accept_client socket address now s).client_threads
unfolding accept_client
accept_client-threads socket address now s h =
    let kept = more s.next_client_id s.client_threads h in
    if-elim {A = Server} (λ t. All (IsUnder (s.next_client_id + 1)) t.client_threads)
      (not (add_connection s.next_client_id socket address now s.connections).1) _ _ (λ _. kept)
      (λ _. All-append (IsUnder (s.next_client_id + 1)) s.client_threads _ kept (omega arith, tt))

pub accept_client-IsNext :
    (n socket address now : ℕ) (s : Server)
    → n + 1 < 2 ^ 32
    → IsNext n s
    → IsNext (n + 1) (accept_client socket address now s)
accept_client-IsNext n socket address now s few h =
    let t = accept_client socket address now s in
    let here = sym h.next in
    let fresh : HasFreshId s = record {
      ids_distinct = h.distinct;
      ids_below = subst (λ k. Every (Under k) s.connections) here h.below;
    } in
    let (after, absent, found, next, closed) =
      accept_client_lem socket address now s fresh (omega (arith, h.next, few)) in
    let threads =
      accept_client-threads socket address now s
        (subst (λ k. All (IsUnder k) s.client_threads) here h.threads) in
    let next_id : t.next_client_id ≡ n + 1 = next ∙ ap (λ k. k + 1) h.next in
    record {
      distinct = after.ids_distinct;
      below = subst (λ k. Every (Under k) t.connections) next_id after.ids_below;
      threads = subst (λ k. All (IsUnder (k + 1)) t.client_threads) h.next threads;
      next = next_id;
    }

close_all-IsNext :
    (n : ℕ) (infos : List ConnectionInfo) (s : Server) → IsNext n s → IsNext n (close_all infos s)
unfolding close_all set_status
close_all-IsNext n [] s h = h
close_all-IsNext n (c ∷ infos) s h = close_all-IsNext n infos _ (record {
  distinct = Distinct-IsKept c.id s.connections h.distinct;
  below = update-Under n c.id (with_status disconnecting) s.connections h.below;
  threads = h.threads;
  next = h.next;
})

close_listening-IsNext : (n : ℕ) (s : Server) → IsNext n s → IsNext n (close_listening s)
unfolding close_listening
close_listening-IsNext n s h = elim (Option-cases s.server_socket) [
  | inl e ↦ rw (close_listening, e) h
  | inr (socket, e) ↦
      rw (close_listening, e)
        (record { distinct = h.distinct; below = h.below; threads = h.threads; next = h.next })
]

pub closing-IsNext : (n : ℕ) (s : Server) → IsNext n s → IsNext n (closing s)
unfolding closing
closing-IsNext n s h = close_all-IsNext n (get_all_connections s.connections) _ (
    close_listening-IsNext n (record s { running = false })
      (record { distinct = h.distinct; below = h.below; threads = h.threads; next = h.next }))

pub cleared-IsNext : (n : ℕ) (s : Server) → IsNext n s → IsNext n (cleared s)
unfolding cleared clear_all_connections
cleared-IsNext n s h = record { distinct = tt; below = tt; threads = tt; next = h.next }
