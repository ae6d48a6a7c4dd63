-- ===== src/Server/Sends.antt =====
-- `broadcast` and `broadcastExcept` of src/server/server.cpp.
use cpptcpmultiplayer.Prelude.{
  ℕ, ◌≡◌, sym, ap, ◌∙◌, inl, inr, Bool, true, not, ◌&&◌, none, some, List, [], ◌∷◌, ◌++◌,
  append-nil, append_assoc, ◌==◌, if◌then◌else◌, ==_refl, ==_iff, Bool-cases, length,
}
use cpptcpmultiplayer.Prelude.Maps.{find, Distinct}
use cpptcpmultiplayer.Packet.{Packet, serialize}
use cpptcpmultiplayer.ConnectionManager.{
  Connections, ConnectionInfo, is_active, get_connection, get_active_connections,
}
use cpptcpmultiplayer.Server.{
  Network, Server, Sent, sent_bytes, send_to, send_packet, send_each, send_each_except, broadcast,
  broadcast_except,
}

-- A packet as `send` is given it, for each active connection of a table that is wanted.
unfoldable pub frames_for : (ℕ → Bool) → Packet → Connections → List Sent
frames_for wanted packet [] = []
frames_for wanted packet ((id, c) ∷ m) =
    let rest = frames_for wanted packet m in
    if is_active c.status && wanted id
    then record { socket = c.socket; bytes = serialize packet } ∷ rest
    else rest

module _ (network : Network)
    (delivers : (log : List Sent) (socket : ℕ) (bytes : List ℕ)
      → network log socket bytes ≡ sent_bytes (length bytes)) where
  pub send_packet-active :
      (id : ℕ) (packet : Packet) (s : Server) (c : ConnectionInfo)
      → find id s.connections ≡ some c
      → is_active c.status ≡ true
      → send_packet network id packet s ≡ (
        record s { log = s.log ++ (record { socket = c.socket; bytes = serialize packet } ∷ []) },
        true,
      )
  unfolding send_packet get_connection
  send_packet-active id packet s c e a =
      rw (e, send_packet)
        (rw a (
          rw (delivers s.log c.socket (serialize packet), send_to)
            (rw (==_refl (length (serialize packet))))))

  -- The entries of a part of the table are those of the whole.
  below :
      (m whole : Connections) (k : ℕ) (c : ConnectionInfo)
      → find k m ≡ none
      → ((id : ℕ) (b : ConnectionInfo) → find id ((k, c) ∷ m) ≡ some b → find id whole ≡ some b)
      → (id : ℕ) (b : ConnectionInfo) → find id m ≡ some b
      → find id whole ≡ some b
  unfolding find
  below m whole k c absent there id b e = elim (Bool-cases (k == id)) [
    | inl q ↦ (let p : find id m ≡ none = rw (← (==_iff k id).0 q) absent in cc)
    | inr q ↦ there id b (rw q e)
  ]

  -- The loop of `broadcast`, over the active entries of a part of the table.
  send_each_lem :
      (packet : Packet) (m : Connections) (s : Server)
      → Distinct m
      → ((id : ℕ) (c : ConnectionInfo) → find id m ≡ some c → find id s.connections ≡ some c)
      → send_each network (get_active_connections m) packet s
        ≡ record s { log = s.log ++ frames_for (λ _. true) packet m }
  unfolding send_each get_active_connections frames_for find
  send_each_lem packet [] s d there = ap (λ l. record s { log = l }) (sym (append-nil s.log))
  send_each_lem packet ((k, c) ∷ m) s d there = elim (Bool-cases (is_active c.status)) [
    | inl a ↦ rw a (
        ap (λ r. send_each network (get_active_connections m) packet r.0)
          (send_packet-active k packet s c (there k c (rw (==_refl k))) a)
        ∙ send_each_lem packet m _ d.1 (below m s.connections k c d.0 there)
        ∙ ap (λ l. record s { log = l }) (append_assoc s.log _ _))
    | inr a ↦ rw a (send_each_lem packet m s d.1 (below m s.connections k c d.0 there))
  ]

  -- The loop of `broadcastExcept`, over the active entries of a part of the table.
  send_each_except_lem :
      (excluded : ℕ) (packet : Packet) (m : Connections) (s : Server)
      → Distinct m
      → ((id : ℕ) (c : ConnectionInfo) → find id m ≡ some c → find id s.connections ≡ some c)
      → send_each_except network excluded (get_active_connections m) packet s
        ≡ record s { log = s.log ++ frames_for (λ id. not (id == excluded)) packet m }
  unfolding send_each_except get_active_connections frames_for find
  send_each_except_lem excluded packet [] s d there =
      ap (λ l. record s { log = l }) (sym (append-nil s.log))
  send_each_except_lem excluded packet ((k, c) ∷ m) s d there =
      let deeper = below m s.connections k c d.0 there in
      let next = if k == excluded then s else (send_packet network k packet s).0 in
      elim (Bool-cases (is_active c.status)) [
        | inl a ↦ elim (Bool-cases (k == excluded)) [
          | inl q ↦
              let here : next ≡ s = rw q in
              rw (a, q)
                (ap (send_each_except network excluded (get_active_connections m) packet) here
                  ∙ send_each_except_lem excluded packet m s d.1 deeper)
          | inr q ↦
              let here : next ≡ (send_packet network k packet s).0 = rw q in
              rw (a, q)
                (ap (send_each_except network excluded (get_active_connections m) packet) here
                  ∙ ap
                      (λ r. send_each_except network excluded (get_active_connections m) packet r.0)
                      (send_packet-active k packet s c (there k c (rw (==_refl k))) a)
                  ∙ send_each_except_lem excluded packet m _ d.1 deeper
                  ∙ ap (λ l. record s { log = l }) (append_assoc s.log _ _))
        ]
        | inr a ↦ rw a (send_each_except_lem excluded packet m s d.1 deeper)
      ]

  -- If the network takes every packet whole and no id is twice in the table, `broadcast` sends the
  -- packet's bytes once to the socket of each active connection, in the table's order, and to no other,
  -- and `broadcastExcept` does the same but for the excluded id. Neither changes anything else.
  pub broadcast_lem :
      (packet : Packet) (s : Server) (excluded : ℕ)
      → Distinct s.connections
      → (broadcast network packet s
          ≡ record s { log = s.log ++ frames_for (λ _. true) packet s.connections })
        × (broadcast_except network excluded packet s ≡ record s {
          log = s.log ++ frames_for (λ id. not (id == excluded)) packet s.connections;
        })
  unfolding broadcast broadcast_except
  broadcast_lem packet s excluded d = (
    send_each_lem packet s.connections s d (λ id c e. e),
    send_each_except_lem excluded packet s.connections s d (λ id c e. e),
  )
