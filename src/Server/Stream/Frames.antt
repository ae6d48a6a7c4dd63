-- ===== src/Server/Stream/Frames.antt =====
-- The receive loop of `Server::handleClient` against a relation that says which packets a stream holds.
mod Runs
use cpptcpmultiplayer.Prelude.{
  ℕ, zero, suc, ◌+◌, ◌-◌, ◌*◌, ◌/◌, ◌%◌, ◌^◌, ◌≤◌, ◌<◌, ◌≡◌, refl, sym, ap, ◌∙◌, ◌≢◌, ◌↔◌, ◌⊎◌, inl,
  inr, Bool, true, false, not, ◌&&◌, ◌||◌, Option, none, some, List, [], ◌∷◌, ◌++◌, map, append-nil,
  append_assoc, arith, ltb, leb, ◌==◌, if◌then◌else◌, ltb→lt, ltb→ge, lt→ltb, ge→ltb, le→leb,
  gt→leb, leb→le, leb→gt, ==_refl, ==_iff, Bool-cases, Bool-ext, Option-cases, length, get_or, drop,
  take, All, length-append, length-drop, nil_of_length, length-take_le, take-append_le, take-append,
  drop-append, drop-append_le, drop-drop, All-append, Result, ok, fault, stuck, ◌>>=◌, Returns,
  Returns-value, >>=-Returns, if-Returns, drop-append_add, if-elim, is_nil, equal_bytes,
  equal_bytes→eq, equal_bytes_refl,
}
use cpptcpmultiplayer.Bytes.{
  IsU32, IsU16, IsByte, be32, be16, to_u32, read_u32, read_u16, read_bytes, load_u32, load_u16,
  load_bytes, load_u32-Returns, load_u16-Returns, load_bytes-Returns, read_u32-be32, read_u16-be16,
  read_bytes-append, read_bytes-take, load_u32_at, load_bytes_at, load_length_at,
}
use mathlib.Core.List.{flatten}
use cpptcpmultiplayer.Packet.{
  Packet, get_total_size, make_packet, serialize, deserialize, is_complete_packet,
}
use cpptcpmultiplayer.Packet.Framing.{
  length-serialize, Frame, Frame-append, Fits, complete-Frame, is_complete_packet-Returns,
  serialize-Frame, is_complete_packet-serialize,
}
use cpptcpmultiplayer.Server.Stream.{deliver_typed, process_buffer, receive_chunk, receive_chunks}

-- The bytes are not a complete frame, nor do they begin with one.
abbrev pub IsPartial : List ℕ → Type 0
IsPartial b = is_complete_packet b (length b) ≡ ok false

pub nil-IsPartial : IsPartial []
unfolding is_complete_packet
nil-IsPartial = refl

IsPartial-cases : (b : List ℕ) → IsPartial b ⊎ (is_complete_packet b (length b) ≡ ok true)
IsPartial-cases b =
    let (c, e) = Returns-value _ (is_complete_packet-Returns b) in
    elim (Bool-cases c) [ inl q ↦ inr (e ∙ ap ok q) | inr q ↦ inl (e ∙ ap ok q) ]

module _ {ℓ} {S : Type ℓ} (deliver : Packet → S → S) where
  -- `Drains b s r t`: from the bytes `b` frame after frame is cut off the front and handed on, which
  -- takes the state from `s` to `t`, until the bytes `r` are left, which hold no complete frame.
  pub data Drains : List ℕ → S → List ℕ → S → Type ℓ where
    done : {b : List ℕ} {s : S} → IsPartial b → Drains b s b s
    next :
        {b : List ℕ} {s : S} (p : Packet) {r : List ℕ} {t : S}
        → is_complete_packet b (length b) ≡ ok true
        → Frame b p
        → Drains (drop (get_total_size p) b) (deliver_typed deliver p s) r t
        → Drains b s r t

  Drains-IsPartial : {b r : List ℕ} {s t : S} → Drains b s r t → IsPartial r
  Drains-IsPartial (done h) = h
  Drains-IsPartial (next p c f d) = Drains-IsPartial d

  -- A frame takes six bytes at least.
  total_pos : (p : Packet) → 6 ≤ get_total_size p
  unfolding get_total_size
  total_pos p = omega arith

  drains :
      (fuel : ℕ) (b : List ℕ) (s : S) → length b < fuel → (r : List ℕ) × (t : S) × Drains b s r t
  drains zero b s h = absurd (omega arith)
  drains (suc fuel) b s h = elim (IsPartial-cases b) [
    | inl e ↦ (b, s, done e)
    | inr e ↦
        let (p, f) = complete-Frame b e in
        let (r, t, d) =
          drains fuel (drop (get_total_size p) b) (deliver_typed deliver p s)
            (omega (arith, total_pos p, f.inside, length-drop (get_total_size p) b)) in
        (r, t, next p e f d)
  ]

  -- What is left over, with what arrives behind it, goes on where the first bytes stopped.
  Drains-append :
      {a r : List ℕ} {s t : S} (b : List ℕ) {q : List ℕ} {u : S}
      → Drains a s r t
      → Drains (r ++ b) t q u
      → Drains (a ++ b) s q u
  Drains-append b (done h) e = e
  Drains-append {a} b (next p c f d) e =
      next p (f.stable_complete b) (Frame-append a b f)
        (rw (drop-append_le (get_total_size p) a b f.inside) (Drains-append b d e))

  module _ (fuel : ℕ) (buffer : List ℕ) (offset : ℕ) (b : List ℕ) (s : S)
      (e : drop offset buffer ≡ b) where
    left_length : length buffer - offset ≡ length b
    left_length = sym (length-drop offset buffer) ∙ ap length e

    process_buffer_done :
        IsPartial b → process_buffer deliver (suc fuel) buffer offset s ≡ ok (offset, s)
    unfolding process_buffer
    process_buffer_done h = elim (Bool-cases (leb (length buffer) offset)) [
      | inl q ↦ rw q
      | inr q ↦ rw (q, e, left_length, h)
    ]

    process_buffer_next :
        (p : Packet)
        → is_complete_packet b (length b) ≡ ok true
        → Frame b p
        → process_buffer deliver (suc fuel) buffer offset s
          ≡ process_buffer deliver fuel buffer
              (offset + get_total_size p)
              (deliver_typed deliver p s)
    unfolding process_buffer
    process_buffer_next p c f =
        rw
          (
            gt→leb (length buffer) offset (omega (arith, left_length, total_pos p, f.inside)),
            e,
            left_length,
            c,
          )
          (rw (e, left_length, f.parsed))

  -- The loop stops where the relation does, at an offset inside the buffer.
  pub process_buffer-Drains :
      (fuel : ℕ) (buffer : List ℕ) (offset : ℕ) {b r : List ℕ} {s t : S}
      → Drains b s r t
      → drop offset buffer ≡ b
      → offset ≤ length buffer
      → length b < fuel
      → (o : ℕ) × (process_buffer deliver fuel buffer offset s ≡ ok (o, t))
        × (drop o buffer ≡ r)
        × (offset ≤ o)
        × (o ≤ length buffer)
  process_buffer-Drains zero buffer offset d e h k = absurd (omega arith)
  process_buffer-Drains (suc fuel) buffer offset (done {b} {s} p) e h k =
      (offset, process_buffer_done fuel buffer offset b s e p, e, omega arith, h)
  process_buffer-Drains (suc fuel) buffer offset (next {b} {s} p c f d) e h k =
      let size : length b ≡ length buffer - offset =
        ap length (sym e) ∙ length-drop offset buffer in
      let (o, run, left, low, high) =
        process_buffer-Drains fuel buffer (offset + get_total_size p) d
          (sym (drop-drop offset (get_total_size p) buffer) ∙ ap (drop (get_total_size p)) e)
          (omega (arith, f.inside, size))
          (omega (arith, total_pos p, f.inside, length-drop (get_total_size p) b)) in
      (o, process_buffer_next fuel buffer offset b s e p c f ∙ run, left, omega arith, high)

  -- What a chunk leaves in the buffer and what it hands on.
  pub receive_chunk-Drains :
      (packet_buffer chunk : List ℕ) {r : List ℕ} {s t : S}
      → Drains (packet_buffer ++ chunk) s r t
      → receive_chunk deliver packet_buffer chunk s ≡ ok (r, t)
  unfolding receive_chunk
  receive_chunk-Drains packet_buffer chunk {r} {s} {t} d =
      let buffer = packet_buffer ++ chunk in
      let (o, run, left, low, high) =
        process_buffer-Drains (suc (length buffer)) buffer 0 d refl (omega arith) (omega arith) in
      rw run (erased o left)
    where
      erased :
          (o : ℕ)
          → drop o (packet_buffer ++ chunk) ≡ r
          → ◌≡◌ {A = Result (List ℕ × S)}
              (ok (if ltb 0 o then drop o (packet_buffer ++ chunk) else packet_buffer ++ chunk, t))
              (ok (r, t))
      erased zero e = ap (λ b. ok (b, t)) e
      erased (suc o) e = rw (lt→ltb 0 (suc o) (omega arith)) (ap (λ b. ok (b, t)) e)

  -- Whatever bytes a client sends, the loop never reads outside its buffer and ends; what it leaves in the
  -- buffer does not begin with a complete frame.
  pub receive_chunk_total :
      (packet_buffer chunk : List ℕ) (s : S)
      → (r : List ℕ) × (t : S) × (receive_chunk deliver packet_buffer chunk s ≡ ok (r, t))
        × IsPartial r
  receive_chunk_total packet_buffer chunk s =
      let (r, t, d) =
        drains (suc (length (packet_buffer ++ chunk))) (packet_buffer ++ chunk) s (omega arith) in
      (r, t, receive_chunk-Drains packet_buffer chunk d, Drains-IsPartial d)

  Drains-keeps {κ} :
      (Q : S → Type κ) {b r : List ℕ} {s t : S}
      → ((p : Packet) (u : S) → Q u → Q (deliver p u))
      → Drains b s r t
      → Q s
      → Q t
  Drains-keeps Q keeps (done h) q = q
  Drains-keeps Q keeps (next {s} p c f d) q =
      Drains-keeps Q keeps d (if-elim Q (p.header.type == 0) _ _ (λ _. q) (λ _. keeps p s q))

  -- A chunk is received to the end, and keeps what each packet keeps.
  pub receive_chunk-keeps {κ} :
      (Q : S → Type κ) (packet_buffer chunk : List ℕ) (s : S)
      → ((p : Packet) (u : S) → Q u → Q (deliver p u))
      → Q s
      → (r : List ℕ) × (t : S) × (receive_chunk deliver packet_buffer chunk s ≡ ok (r, t)) × Q t
  receive_chunk-keeps Q packet_buffer chunk s keeps q =
      let (r, t, d) =
        drains (suc (length (packet_buffer ++ chunk))) (packet_buffer ++ chunk) s (omega arith) in
      (r, t, receive_chunk-Drains packet_buffer chunk d, Drains-keeps Q keeps d q)

  receive_chunks-Drains :
      (chunks : List (List ℕ)) (packet_buffer : List ℕ) (s : S)
      → IsPartial packet_buffer
      → (r : List ℕ) × (t : S) × (receive_chunks deliver packet_buffer chunks s ≡ ok (r, t))
        × Drains (packet_buffer ++ flatten chunks) s r t
  unfolding receive_chunks flatten
  receive_chunks-Drains [] packet_buffer s h =
      (packet_buffer, s, refl, rw (append-nil packet_buffer) (done h))
  receive_chunks-Drains (chunk ∷ chunks) packet_buffer s h =
      let (r, t, d) =
        drains (suc (length (packet_buffer ++ chunk))) (packet_buffer ++ chunk) s (omega arith) in
      let (q, u, run, more) = receive_chunks-Drains chunks r t (Drains-IsPartial d) in
      (
        q,
        u,
        rw (receive_chunk-Drains packet_buffer chunk d) run,
        rw (← append_assoc packet_buffer chunk (flatten chunks))
            (Drains-append (flatten chunks) d more),
      )

  -- If the buffer starts without a complete frame, then however the stream is split into chunks, the same packets are handed on in the same order, and the
  -- same bytes are left, as if it had come in one chunk.
  pub receive_chunks-flatten :
      (chunks : List (List ℕ)) (packet_buffer : List ℕ) (s : S)
      → IsPartial packet_buffer
      → receive_chunks deliver packet_buffer chunks s
        ≡ receive_chunk deliver packet_buffer (flatten chunks) s
  receive_chunks-flatten chunks packet_buffer s h =
      let (r, t, run, d) = receive_chunks-Drains chunks packet_buffer s h in
      run ∙ sym (receive_chunk-Drains packet_buffer (flatten chunks) d)

-- The bytes of packets that were made and serialized one after the other.
abbrev pub wires : List (ℕ × List ℕ) → List ℕ
wires [] = []
wires ((type, payload) ∷ ps) = serialize (make_packet type payload) ++ wires ps

-- A packet that `handleClient` hands on: its type is not 0, and its fields hold it.
abbrev pub IsMessage : ℕ × List ℕ → Type 0
IsMessage (type, payload) = Fits type payload × (0 < type)

module _ {ℓ} {S : Type ℓ} (deliver : Packet → S → S) where
  -- The packets handed on one after the other.
  abbrev pub deliver_all : List (ℕ × List ℕ) → S → S
  deliver_all [] s = s
  deliver_all ((type, payload) ∷ ps) s = deliver_all ps (deliver (make_packet type payload) s)

  deliver_typed_lem :
      (type : ℕ) (payload : List ℕ) (s : S)
      → 0 < type
      → deliver_typed deliver (make_packet type payload) s ≡ deliver (make_packet type payload) s
  unfolding make_packet
  deliver_typed_lem type payload s h = ground arith

  wires-Drains :
      (ps : List (ℕ × List ℕ)) (s : S)
      → All IsMessage ps
      → Drains deliver (wires ps) s [] (deliver_all ps s)
  wires-Drains [] s h = done nil-IsPartial
  wires-Drains ((type, payload) ∷ ps) s h =
      next (make_packet type payload) (is_complete_packet-serialize type payload (wires ps) h.0.0)
        (serialize-Frame type payload (wires ps) h.0.0)
        (rw
          (
            ← length-serialize (make_packet type payload),
            drop-append (serialize (make_packet type payload)) (wires ps),
            deliver_typed_lem type payload s h.0.1,
          )
          (wires-Drains ps (deliver (make_packet type payload) s) h.1))

  -- Whatever way the network cuts the bytes of packets that a client sent, whose types are not 0 and whose
  -- fields fit their header, the server hands on
  -- exactly these packets, in their order, and keeps no byte.
  pub receive_chunks-wires :
      (ps : List (ℕ × List ℕ)) (chunks : List (List ℕ)) (s : S)
      → All IsMessage ps
      → flatten chunks ≡ wires ps
      → receive_chunks deliver [] chunks s ≡ ok ([], deliver_all ps s)
  receive_chunks-wires ps chunks s h e =
      receive_chunks-flatten deliver chunks [] s nil-IsPartial
      ∙ rw e (receive_chunk-Drains deliver [] (wires ps) (wires-Drains ps s h))
