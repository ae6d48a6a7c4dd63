-- ===== src/Server/Mail.antt =====
-- What one client is sent by the sends of src/server/server.cpp.
use cpptcpmultiplayer.Prelude.{
  ℕ, ◌≡◌, refl, sym, ap, ◌∙◌, inl, inr, Bool, true, false, not, none, some, List, [], ◌∷◌, ◌++◌,
  append-nil, append_assoc, arith, ◌==◌, if◌then◌else◌, ==_iff, Bool-cases, Option-cases, length,
}
use mathlib.Core.Path.{subst}
use cpptcpmultiplayer.Prelude.Maps.{find, Distinct}
use cpptcpmultiplayer.Prelude.Maps.Every.{Every, Every-find}
use cpptcpmultiplayer.Packet.{Packet, serialize}
use cpptcpmultiplayer.ConnectionManager.{Connections, ConnectionInfo, is_active, get_connection}
use cpptcpmultiplayer.Server.{
  Network, Server, Sent, sent_bytes, send_packet, broadcast, broadcast_except,
}
use cpptcpmultiplayer.Server.Sends.{frames_for, send_packet-active, broadcast_lem}

-- The bytes that went to a socket, in their order.
unfoldable pub received : ℕ → List Sent → List ℕ
received socket [] = []
received socket (f ∷ log) =
    let rest = received socket log in if f.socket == socket then f.bytes ++ rest else rest

-- The bytes of packets.
abbrev pub frames : List Packet → List ℕ
frames [] = []
frames (p ∷ packets) = serialize p ++ frames packets

pub frames-append : (ps qs : List Packet) → frames (ps ++ qs) ≡ frames ps ++ frames qs
frames-append [] qs = refl
frames-append (p ∷ ps) qs =
    ap (λ b. serialize p ++ b) (frames-append ps qs)
    ∙ sym (append_assoc (serialize p) (frames ps) (frames qs))

received-append :
    (socket : ℕ) (a b : List Sent)
    → received socket (a ++ b) ≡ received socket a ++ received socket b
unfolding received
received-append socket [] b = refl
received-append socket (f ∷ a) b = elim (Bool-cases (f.socket == socket)) [
  | inl q ↦ rw (q, received-append socket a b, append_assoc f.bytes)
  | inr q ↦ rw (q, received-append socket a b)
]

-- A client has an active connection, over a socket that no other client has.
pub record Owns (id socket : ℕ) (m : Connections) : Type 0 where
  pub info : ConnectionInfo
  pub there : find id m ≡ some info
  pub active : is_active info.status ≡ true
  pub over : info.socket ≡ socket
  pub alone : Every (λ k c. (k == id) ≡ false → (c.socket == socket) ≡ false) m
  pub distinct : Distinct m

module _ (id socket : ℕ) where
  received-none :
      (wanted : ℕ → Bool) (packet : Packet) (m : Connections)
      → find id m ≡ none
      → Every (λ k c. (k == id) ≡ false → (c.socket == socket) ≡ false) m
      → received socket (frames_for wanted packet m) ≡ []
  unfolding frames_for received find
  received-none wanted packet [] e h = refl
  received-none wanted packet ((k, c) ∷ m) e h = elim (Bool-cases (k == id)) [
    | inl q ↦ absurd (ground arith)
    | inr q ↦
        let rest : received socket (frames_for wanted packet m) ≡ [] =
          received-none wanted packet m (ground arith) h.1 in
        ground (arith, h.0 q, rest)
  ]

  received-frames_for :
      (wanted : ℕ → Bool) (packet : Packet) (m : Connections) (info : ConnectionInfo)
      → find id m ≡ some info
      → is_active info.status ≡ true
      → info.socket ≡ socket
      → Every (λ k c. (k == id) ≡ false → (c.socket == socket) ≡ false) m
      → Distinct m
      → received socket (frames_for wanted packet m)
        ≡ frames (if wanted id then packet ∷ [] else [])
  unfolding frames_for received find
  received-frames_for wanted packet [] info e a o h d = cc
  received-frames_for wanted packet ((k, c) ∷ m) info e a o h d = elim (Bool-cases (k == id)) [
    | inl q ↦
        let same : c ≡ info = ground arith in
        let key : k ≡ id = (==_iff k id).0 q in
        let rest : received socket (frames_for wanted packet m) ≡ [] =
          received-none wanted packet m (subst (λ n. find n m ≡ none) key d.0) h.1 in
        let on : is_active c.status ≡ true = ap (λ b. is_active b.status) same ∙ a in
        let ours : (c.socket == socket) ≡ true =
          (==_iff c.socket socket).1 (ap (λ b. b.socket) same ∙ o) in
        let chosen : wanted k ≡ wanted id = ap wanted key in
        elim (Bool-cases (wanted id)) [
          | inl w ↦ (let v : wanted k ≡ true = chosen ∙ w in rw (on, v, w, ours, rest))
          | inr w ↦ (let v : wanted k ≡ false = chosen ∙ w in rw (on, v, w, rest))
        ]
    | inr q ↦
        let rest = received-frames_for wanted packet m info (ground arith) a o h.1 d.1 in
        ground (arith, h.0 q, rest)
  ]

-- From one state of the server to another, exactly these packets went to the socket, one after the other,
-- and the table of connections did not change.
pub record Tells (socket : ℕ) (packets : List Packet) (s t : Server) : Type 0 where
  pub table : t.connections ≡ s.connections
  pub mail : received socket t.log ≡ received socket s.log ++ frames packets

module _ {socket : ℕ} where
  pub Tells-none : (s : Server) → Tells socket [] s s
  Tells-none s = record { table = refl; mail = sym (append-nil (received socket s.log)) }

  pub Tells-then :
      {ps qs : List Packet} {s t u : Server}
      → Tells socket ps s t
      → Tells socket qs t u
      → Tells socket (ps ++ qs) s u
  Tells-then {ps} {qs} {s} a b = record {
    table = b.table ∙ a.table;
    mail =
        b.mail
        ∙ ap (λ l. l ++ frames qs) a.mail
        ∙ append_assoc (received socket s.log) (frames ps) (frames qs)
        ∙ ap (λ l. received socket s.log ++ l) (sym (frames-append ps qs));
  }

  pub Owns-table :
      {id : ℕ} {ps : List Packet} {s t : Server}
      → Tells socket ps s t
      → Owns id socket s.connections
      → Owns id socket t.connections
  Owns-table {id} a o = subst (Owns id socket) (sym a.table) o

module _ (network : Network)
    (delivers : (log : List Sent) (socket : ℕ) (bytes : List ℕ)
      → network log socket bytes ≡ sent_bytes (length bytes))
    (id socket : ℕ) where
  logged-Tells :
      (packets : List Packet) (added : List Sent) (s t : Server)
      → t ≡ record s { log = s.log ++ added }
      → received socket added ≡ frames packets
      → Tells socket packets s t
  logged-Tells packets added s t e r = record {
    table = ap (λ u. u.connections) e;
    mail =
        ap (λ u. received socket u.log) e
        ∙ received-append socket s.log added
        ∙ ap (λ l. received socket s.log ++ l) r;
  }

  pub broadcast-Tells :
      (packet : Packet) (s : Server)
      → Owns id socket s.connections
      → Tells socket (packet ∷ []) s (broadcast network packet s)
  broadcast-Tells packet s o =
      logged-Tells (packet ∷ []) (frames_for (λ _. true) packet s.connections) s _
        (broadcast_lem network delivers packet s 0 o.distinct).0
        (received-frames_for id socket (λ _. true) packet s.connections o.info o.there o.active
          o.over o.alone o.distinct)

  pub broadcast_except-Tells :
      (excluded : ℕ) (packet : Packet) (s : Server)
      → Owns id socket s.connections
      → Tells socket
          (if id == excluded then [] else packet ∷ [])
          s
          (broadcast_except network excluded packet s)
  broadcast_except-Tells excluded packet s o =
      logged-Tells (if id == excluded then [] else packet ∷ [])
        (frames_for (λ k. not (k == excluded)) packet s.connections) s _
        (broadcast_lem network delivers packet s excluded o.distinct).1
        (received-frames_for id socket (λ k. not (k == excluded)) packet s.connections o.info
            o.there o.active o.over o.alone o.distinct
          ∙ ground arith)

  send_packet-skips :
      (to : ℕ) (packet : Packet) (s : Server)
      → ((c : ConnectionInfo) → find to s.connections ≡ some c → is_active c.status ≡ false)
      → (send_packet network to packet s).0 ≡ s
  unfolding send_packet get_connection
  send_packet-skips to packet s h = elim (Option-cases (find to s.connections)) [
    | inl n ↦ rw (n, send_packet)
    | inr (c, e) ↦ rw (e, send_packet) (rw (h c e))
  ]

  -- An entry under another id is not the client's.
  same_id :
      (to : ℕ) (c : ConnectionInfo) (s : Server) (o : Owns id socket s.connections)
      → find to s.connections ≡ some c
      → (to == id) ≡ true
      → c ≡ o.info
  same_id to c s o e q =
      let there : find to s.connections ≡ some o.info =
        ap (λ n. find n s.connections) ((==_iff to id).0 q) ∙ o.there in
      cc

  pub send_packet-Tells :
      (to : ℕ) (packet : Packet) (s : Server)
      → Owns id socket s.connections
      → Tells socket (if to == id then packet ∷ [] else []) s (send_packet network to packet s).0
  send_packet-Tells to packet s o = elim (Option-cases (find to s.connections)) [
    | inl n ↦
        skipped (λ c e. cc)
          (λ q.
            (let p : find id s.connections ≡ none =
                subst (λ k. find k s.connections ≡ none) ((==_iff to id).0 q) n in
              cc))
    | inr (c, e) ↦ elim (Bool-cases (is_active c.status)) [
      | inr a ↦
          skipped (λ d f. (let p : c ≡ d = cc in ap (λ x. is_active x.status) (sym p) ∙ a))
            (λ q.
              (let p : is_active c.status ≡ true =
                  ap (λ x. is_active x.status) (same_id to c s o e q) ∙ o.active in
                cc))
      | inl a ↦
          logged-Tells (if to == id then packet ∷ [] else [])
            (record { socket = c.socket; bytes = serialize packet } ∷ []) s _
            (ap (λ r. r.0) (send_packet-active network delivers to packet s c e a))
            (elim (Bool-cases (to == id)) [
              | inl q ↦
                  let p : (c.socket == socket) ≡ true =
                    (==_iff c.socket socket).1
                      (ap (λ x. x.socket) (same_id to c s o e q) ∙ o.over) in
                  unfold received in rw (p, q)
              | inr q ↦
                  let p : (c.socket == socket) ≡ false =
                    Every-find _ to c s.connections o.alone e q in
                  unfold received in rw (p, q)
            ])
    ]
  ]
    where
      skipped :
          ((c : ConnectionInfo) → find to s.connections ≡ some c → is_active c.status ≡ false)
          → ((to == id) ≡ true → ⊥)
          → Tells socket
              (if to == id then packet ∷ [] else [])
              s
              (send_packet network to packet s).0
      skipped h other = elim (Bool-cases (to == id)) [
        | inl q ↦ absurd (other q)
        | inr q ↦
            rw q (subst (Tells socket [] s) (sym (send_packet-skips to packet s h)) (Tells-none s))
      ]
