-- ===== src/Server/Lifecycle/Start.antt =====
-- `Server::start` of src/server/server.cpp, over all that `accept` gives.
use cpptcpmultiplayer.Prelude.{
  ℕ, ◌+◌, ◌^◌, ◌<◌, ◌≡◌, refl, ◌∙◌, ◌⊎◌, inl, inr, Bool, true, false, not, Option, none, some, List,
  [], ◌∷◌, arith, ◌==◌, if◌then◌else◌, length, All, if-elim,
}
use cpptcpmultiplayer.Prelude.Maps.{find}
use cpptcpmultiplayer.Prelude.Maps.Every.{Every-find}
use cpptcpmultiplayer.ConnectionManager.{ConnectionInfo}
use cpptcpmultiplayer.Server.{Server}
use cpptcpmultiplayer.Server.Lifecycle.{
  Listening, no_winsock, no_socket, listens, bind_failed, listen_failed, Accepted, no_client,
  client_came, meanwhile, accept_client, accept_clients, start,
}
use cpptcpmultiplayer.Server.Lifecycle.Fresh.{HasFreshId, accept_client_lem}

-- What happens while the loop waits gives no ids, and brings no id into the table that was not given.
pub record IsMild (change : Server → Server) : Type 0 where
  pub keeps_fresh : (s : Server) → HasFreshId s → HasFreshId (change s)
  pub keeps_next : (s : Server) → (change s).next_client_id ≡ s.next_client_id

-- This entry is left alone.
abbrev pub Spares : ℕ → ConnectionInfo → (Server → Server) → Type 0
Spares k c change =
    (s : Server) → find k s.connections ≡ some c → find k (change s).connections ≡ some c

-- The ids of a table stay fresh, and every entry of it that is left alone stays as it is.
pub record Admits (arrivals : List Accepted) (s t : Server) : Type 0 where
  pub fresh : HasFreshId t
  pub stays :
      (k : ℕ) (c : ConnectionInfo)
      → All (λ a. Spares k c (meanwhile a)) arrivals
      → find k s.connections ≡ some c
      → find k t.connections ≡ some c

Admits-none : (arrivals : List Accepted) (s : Server) → HasFreshId s → Admits arrivals s s
Admits-none arrivals s f = record { fresh = f; stays = λ k c a e. e }

accept_client-stays :
    (socket address now : ℕ) (s : Server)
    → HasFreshId s
    → s.next_client_id + 1 < 2 ^ 32
    → (k : ℕ) (c : ConnectionInfo) → find k s.connections ≡ some c
    → find k (accept_client socket address now s).connections ≡ some c
accept_client-stays socket address now s f h k c e =
    (accept_client_lem socket address now s f h).2 k ∙ other _
  where
    other :
        (x : Option ConnectionInfo)
        → (if s.next_client_id == k then x else find k s.connections) ≡ some c
    other x =
        let below : k < s.next_client_id =
          Every-find (λ id _. id < s.next_client_id) k c s.connections f.ids_below e in
        ground (arith, below, e)

pub accept_clients-Admits :
    (arrivals : List Accepted) (s : Server)
    → All (λ a. IsMild (meanwhile a)) arrivals
    → HasFreshId s
    → s.next_client_id + length arrivals < 2 ^ 32
    → Admits arrivals s (accept_clients arrivals s)
unfolding accept_clients
accept_clients-Admits [] s mild f h = Admits-none [] s f
accept_clients-Admits (no_client change ∷ arrivals) s (mild, more) f h =
    let same = mild.keeps_next s in
    let rest =
      accept_clients-Admits arrivals (change s) more (mild.keeps_fresh s f)
        (omega (arith, same, h)) in
    if-elim (Admits (no_client change ∷ arrivals) s) (not s.running) _ _ (λ _. Admits-none _ s f)
      (λ _. record { fresh = rest.fresh; stays = λ k c a e. rest.stays k c a.1 (a.0 s e) })
accept_clients-Admits (client_came change socket address now ∷ arrivals) s (mild, more) f h =
    let same = mild.keeps_next s in
    let kept = mild.keeps_fresh s f in
    let few : (change s).next_client_id + 1 < 2 ^ 32 = omega (arith, same, h) in
    let (fresh, absent, entries, next, closed) =
      accept_client_lem socket address now (change s) kept few in
    let rest =
      accept_clients-Admits arrivals (accept_client socket address now (change s)) more fresh
        (omega (arith, next, same, h)) in
    if-elim (Admits (client_came change socket address now ∷ arrivals) s) (not s.running) _ _
      (λ _. Admits-none _ s f)
      (λ _. record {
        fresh = rest.fresh;
        stays = λ k c a e.
            rest.stays k c a.1
              (accept_client-stays socket address now (change s) kept few k c (a.0 s e));
      })

-- Start a server whose next id is fresh, so that no more clients come than there are ids left, while what
-- happens as the loop waits gives no ids. However far the calls of the system come, and whatever `accept`
-- gives: the next id is fresh afterwards, no two connections have the same id, and every connection that was
-- there and is left alone as the loop waits stays as it is. If the start fails, the table of connections
-- and whether the server runs are as before.
pub start_lem :
    (listening : Listening) (arrivals : List Accepted) (s : Server)
    → All (λ a. IsMild (meanwhile a)) arrivals
    → HasFreshId s
    → s.next_client_id + length arrivals < 2 ^ 32
    → let t = start listening arrivals s in
      Admits arrivals s t.0
      × ((t.1 ≡ true) ⊎ ((t.0.connections ≡ s.connections) × (t.0.running ≡ s.running)))
unfolding start
start_lem listening arrivals s mild f h = go listening
  where
    P : Server × Bool → Type 0
    P t =
        Admits arrivals s t.0
        × ((t.1 ≡ true) ⊎ ((t.0.connections ≡ s.connections) × (t.0.running ≡ s.running)))

    same : P (s, false)
    same = (Admits-none arrivals s f, inr (refl, refl))

    none_made : P (record s { server_socket = none }, false)
    none_made = (
      record {
        fresh = record { ids_distinct = f.ids_distinct; ids_below = f.ids_below };
        stays = λ k c a e. e;
      },
      inr (refl, refl),
    )

    closed : ℕ → Server
    closed socket = record s { server_socket = some socket; closed = socket ∷ s.closed }

    failed : (socket : ℕ) → P (closed socket, false)
    failed socket = (
      record {
        fresh = record { ids_distinct = f.ids_distinct; ids_below = f.ids_below };
        stays = λ k c a e. e;
      },
      inr (refl, refl),
    )

    runs : ℕ → Server
    runs socket = record s { running = true; server_socket = some socket }

    started : (socket : ℕ) → P (accept_clients arrivals (runs socket), true)
    started socket =
        let a =
          accept_clients-Admits arrivals (runs socket) mild
            (record { ids_distinct = f.ids_distinct; ids_below = f.ids_below }) h in
        (record { fresh = a.fresh; stays = a.stays }, inl refl)

    go : (l : Listening) → P (start l arrivals s)
    go no_winsock = if-elim P s.running _ _ (λ _. same) (λ _. same)
    go no_socket = if-elim P s.running _ _ (λ _. same) (λ _. none_made)
    go (bind_failed socket) = if-elim P s.running _ _ (λ _. same) (λ _. failed socket)
    go (listen_failed socket) = if-elim P s.running _ _ (λ _. same) (λ _. failed socket)
    go (listens socket) = if-elim P s.running _ _ (λ _. same) (λ _. started socket)
