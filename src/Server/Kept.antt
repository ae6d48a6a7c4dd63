-- ===== src/Server/Kept.antt =====
-- The sends of src/server/server.cpp and the table of connections, in which they mark entries as
-- DISCONNECTING.
use cpptcpmultiplayer.Prelude.{
  ℕ, ◌≡◌, refl, sym, ◌∙◌, ◌⊎◌, inl, inr, Bool, true, false, none, List, [], ◌∷◌, ◌==◌,
  if◌then◌else◌, Bool-cases, Option-cases, if-elim,
}
use mathlib.Core.Option
use mathlib.Core.Path.{subst}
use cpptcpmultiplayer.Prelude.Maps.{find, insert, Distinct, insert-Distinct}
use cpptcpmultiplayer.Packet.{Packet, serialize}
use cpptcpmultiplayer.ConnectionManager.{
  Connections, ConnectionInfo, is_active, get_connection, set_status, update, with_status,
  disconnecting, get_active_connections,
}
use cpptcpmultiplayer.ConnectionManager.Laws.{set_status_lem}
use cpptcpmultiplayer.Server.{
  Network, Server, Sent, SendResult, SocketError, deactivate, sent_bytes, socket_error,
  ends_connection, disconnect_client, send_to, send_packet, send_each, send_each_except, broadcast,
  broadcast_except,
}

pub SendResult-cases :
    (r : SendResult) → ((n : ℕ) × (r ≡ sent_bytes n)) ⊎ ((e : SocketError) × (r ≡ socket_error e))
SendResult-cases (sent_bytes n) = inl (n, refl)
SendResult-cases (socket_error e) = inr (e, refl)

-- A predicate that is closed under the marking of an entry.
abbrev pub IsKept {ℓ} : (Connections → Type ℓ) → Type ℓ
IsKept P = (id : ℕ) (m : Connections) → P m → P (set_status id disconnecting m).0

pub update-Distinct :
    (id : ℕ) (f : ConnectionInfo → ConnectionInfo) (m : Connections)
    → Distinct m
    → Distinct (update id f m).0
unfolding update
update-Distinct id f m d = elim (Option-cases (find id m)) [
  | inl e ↦ let same : (update id f m).0 ≡ m = rw (update, e) in subst Distinct (sym same) d
  | inr (c, e) ↦
      let same : (update id f m).0 ≡ insert id (f c) m = rw (update, e) in
      subst Distinct (sym same) (insert-Distinct id _ m d)
]

pub Distinct-IsKept : IsKept Distinct
unfolding set_status
Distinct-IsKept id m d = update-Distinct id (with_status disconnecting) m d

pub absent-IsKept : (k : ℕ) → IsKept (λ m. find k m ≡ none)
absent-IsKept k id m h = (set_status_lem id k disconnecting m).0 ∙ absent (Bool-cases (id == k))
  where
    absent :
        (id == k) ≡ true ⊎ (id == k) ≡ false
        → (if id == k then Option.map (with_status disconnecting) (find k m) else find k m) ≡ none
    absent (inl q) = rw (q, h)
    absent (inr q) = rw (q, h)

-- A predicate on the server that is closed under what a send changes: the log, and the marking of a client.
pub record IsServed {ℓ} (P : Server → Type ℓ) : Type ℓ where
  pub logged : (log : List Sent) (s : Server) → P s → P (record s { log = log })
  pub left :
      (id socket : ℕ) (s : Server)
      → P s
      → P (record s {
        connections = (set_status id disconnecting s.connections).0;
        closed = socket ∷ s.closed;
        client_threads = deactivate id s.client_threads;
      })

pub IsServed-IsKept {ℓ} :
    (P : Connections → Type ℓ) → IsKept P → IsServed (λ (s : Server). P s.connections)
IsServed-IsKept P kept = record {
  logged = λ log s h. h;
  left = λ id socket s h. kept id s.connections h;
}

module _ {ℓ} (P : Server → Type ℓ) (kept : IsServed P) (network : Network) where
  disconnect_client-keeps : (id : ℕ) (s : Server) → P s → P (disconnect_client id s).0
  unfolding disconnect_client
  disconnect_client-keeps id s h = elim (Option-cases (get_connection id s.connections)) [
    | inl e ↦ rw (disconnect_client, e) h
    | inr (c, e) ↦ rw (disconnect_client, e) (kept.left id c.socket s h)
  ]

  send_to-keeps :
      (id socket : ℕ) (packet : Packet) (s : Server)
      → P s
      → P (send_to network id socket packet s).0
  unfolding send_to
  send_to-keeps id socket packet s h =
      elim (SendResult-cases (network s.log socket (serialize packet))) [
        | inl (n, e) ↦ rw (send_to, e) (kept.logged _ s h)
        | inr (e, q) ↦
            rw (send_to, q)
              (if-elim P (ends_connection e) _ _
                (λ _. disconnect_client-keeps id _ (kept.logged _ s h)) (λ _. kept.logged _ s h))
      ]

  pub send_packet-keeps :
      (id : ℕ) (packet : Packet) (s : Server) → P s → P (send_packet network id packet s).0
  unfolding send_packet
  send_packet-keeps id packet s h = elim (Option-cases (get_connection id s.connections)) [
    | inl e ↦ rw (send_packet, e) h
    | inr (c, e) ↦
        rw (send_packet, e)
          (if-elim {A = Server × Bool} (λ r. P r.0) (is_active c.status) _ _
            (λ _. send_to-keeps id c.socket packet s h) (λ _. h))
  ]

  send_each-keeps :
      (ids : List ℕ) (packet : Packet) (s : Server) → P s → P (send_each network ids packet s)
  unfolding send_each
  send_each-keeps [] packet s h = h
  send_each-keeps (id ∷ ids) packet s h =
      send_each-keeps ids packet _ (send_packet-keeps id packet s h)

  pub broadcast-keeps : (packet : Packet) (s : Server) → P s → P (broadcast network packet s)
  unfolding broadcast
  broadcast-keeps packet s h = send_each-keeps (get_active_connections s.connections) packet s h

  send_each_except-keeps :
      (excluded : ℕ) (ids : List ℕ) (packet : Packet) (s : Server)
      → P s
      → P (send_each_except network excluded ids packet s)
  unfolding send_each_except
  send_each_except-keeps excluded [] packet s h = h
  send_each_except-keeps excluded (id ∷ ids) packet s h =
      send_each_except-keeps excluded ids packet _
        (if-elim P (id == excluded) _ _ (λ _. h) (λ _. send_packet-keeps id packet s h))

  pub broadcast_except-keeps :
      (excluded : ℕ) (packet : Packet) (s : Server)
      → P s
      → P (broadcast_except network excluded packet s)
  unfolding broadcast_except
  broadcast_except-keeps excluded packet s h =
      send_each_except-keeps excluded (get_active_connections s.connections) packet s h
