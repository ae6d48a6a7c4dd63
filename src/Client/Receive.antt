-- ===== src/Client/Receive.antt =====
-- `Client::receivePacket` of src/client/client.cpp on the bytes of packets.
use cpptcpmultiplayer.Prelude.{
  ℕ, ◌<◌, ◌≡◌, refl, sym, ap, ◌∙◌, Bool, true, false, not, some, List, [], ◌∷◌, ◌++◌, append-nil,
  append_assoc, arith, ◌==◌, if◌then◌else◌, length, drop, drop-append, drop-append_le, Result, ok,
  ◌>>=◌, Returns-value, if-elim, is_nil,
}
use mathlib.Core.List.{flatten}
use mathlib.Core.Path.{subst}
use cpptcpmultiplayer.Packet.{
  Packet, make_packet, get_total_size, serialize, deserialize, is_complete_packet,
}
use cpptcpmultiplayer.Packet.Framing.{
  Fits, length-serialize, deserialize-serialize, complete_packet_lem, is_complete_packet-Returns,
}
use cpptcpmultiplayer.Client.{
  Client, Arrival, arrived, Reception, returned, blocked, take_packet, has_packet, receive_loop,
  receive_packet,
}

abbrev pub arrivals : List (List ℕ) → List Arrival
arrivals [] = []
arrivals (chunk ∷ chunks) = arrived chunk ∷ arrivals chunks

whole_or_empty :
    (b : List ℕ)
    → (if is_nil b then ok false else is_complete_packet b (length b))
      ≡ is_complete_packet b (length b)
unfolding is_complete_packet
whole_or_empty [] = refl
whole_or_empty (x ∷ b) = refl

pub has_packet_lem :
    (c : Client) → has_packet c ≡ is_complete_packet c.packet_buffer (length c.packet_buffer)
unfolding has_packet
has_packet_lem c = whole_or_empty c.packet_buffer

abbrev packet_of : Packet → Result Packet → Packet
packet_of p (ok q) = q
packet_of p _ = p

-- The call returned the packet, changed the client's buffer only, and left the bytes behind the packet
-- to be read.
abbrev pub IsReceived : Client → Packet → List ℕ → Result Reception → Type 0
IsReceived c packet rest x =
    (chunks : List (List ℕ)) × (buffer : List ℕ) × (x
      ≡ ok (returned (some packet) true (arrivals chunks) (record c { packet_buffer = buffer })))
    × (buffer ++ flatten chunks ≡ rest)

module _ (type : ℕ) (payload rest : List ℕ) (fits : Fits type payload) (typed : 0 < type) where
  abbrev packet : Packet
  packet = make_packet type payload

  abbrev Done : Client → Result Reception → Type 0
  Done c = IsReceived c packet rest

  has_type : not (packet.header.type == 0) ≡ true
  unfolding make_packet
  has_type = ground arith

  take_packet-IsReceived :
      (c : Client) (chunks : List (List ℕ))
      → is_complete_packet c.packet_buffer (length c.packet_buffer) ≡ ok true
      → c.packet_buffer ++ flatten chunks ≡ serialize packet ++ rest
      → Done c (take_packet (arrivals chunks) c)
  unfolding take_packet
  take_packet-IsReceived c chunks h e =
      let b = c.packet_buffer in
      let wire = serialize packet ++ rest in
      let (p, parsed, low, inside, still, whole) = complete_packet_lem b (flatten chunks) h in
      let same : p ≡ packet = ap (packet_of p) (
        sym whole
        ∙ ap (λ x. deserialize x (length x)) e
        ∙ (deserialize-serialize type payload rest fits).1) in
      let read : deserialize b (length b) ≡ ok packet = parsed ∙ ap ok same in
      let size : get_total_size p ≡ length (serialize packet) =
        ap get_total_size same ∙ sym (length-serialize packet) in
      let left : drop (get_total_size p) b ++ flatten chunks ≡ rest =
        sym (drop-append_le (get_total_size p) b (flatten chunks) inside)
        ∙ ap (drop (get_total_size p)) e
        ∙ ap (λ n. drop n wire) size
        ∙ drop-append (serialize packet) rest in
      (
        chunks,
        drop (get_total_size packet) b,
        rw read (
            ap
              (λ t. ok (
                returned (some packet) t (arrivals chunks)
                  (record c { packet_buffer = drop (get_total_size packet) b })))
              has_type),
        subst (λ q. drop (get_total_size q) b ++ flatten chunks ≡ rest) same left,
      )

  receive_loop-IsReceived :
      (chunks : List (List ℕ)) (c : Client)
      → c.packet_buffer ++ flatten chunks ≡ serialize packet ++ rest
      → Done c (receive_loop (arrivals chunks) c)
  unfolding receive_loop flatten
  receive_loop-IsReceived [] c e =
      let all : c.packet_buffer ≡ serialize packet ++ rest = sym (append-nil c.packet_buffer) ∙ e in
      let h : is_complete_packet c.packet_buffer (length c.packet_buffer) ≡ ok true =
        ap (λ x. is_complete_packet x (length x)) all
        ∙ (deserialize-serialize type payload rest fits).0 in
      subst (λ x. Done c (x >>= λ ready. if ready then take_packet [] c else ok (blocked c)))
        (sym (has_packet_lem c ∙ h)) (take_packet-IsReceived c [] h e)
  receive_loop-IsReceived (chunk ∷ chunks) c e =
      let c' : Client = record c { packet_buffer = c.packet_buffer ++ chunk } in
      let e' : c'.packet_buffer ++ flatten chunks ≡ serialize packet ++ rest =
        append_assoc c.packet_buffer chunk (flatten chunks) ∙ e in
      let (ready, q) = Returns-value _ (is_complete_packet-Returns c.packet_buffer) in
      let (complete, q') = Returns-value _ (is_complete_packet-Returns c'.packet_buffer) in
      let received : Done c (
          if complete
          then take_packet (arrivals chunks) c'
          else receive_loop (arrivals chunks) c') =
        if-elim (Done c) complete _ _ (λ h. take_packet-IsReceived c' chunks (q' ∙ ap ok h) e')
          (λ _. receive_loop-IsReceived chunks c' e') in
      let later : Result Bool → Result Reception = λ x. x >>= λ complete.
      if complete then take_packet (arrivals chunks) c' else receive_loop (arrivals chunks) c' in
      let now : Result Bool → Result Reception = λ x. x >>= λ ready.
      if ready
      then take_packet (arrivals (chunk ∷ chunks)) c
      else later (is_complete_packet c'.packet_buffer (length c'.packet_buffer)) in
      subst (λ x. Done c (now x)) (sym (has_packet_lem c ∙ q))
        (if-elim (Done c) ready _ _ (λ h. take_packet-IsReceived c (chunk ∷ chunks) (q ∙ ap ok h) e)
          (λ _. subst (λ x. Done c (later x)) (sym q') received))

  -- If the bytes in the buffer of a connected client and those that arrive are those of a packet whose
  -- type is not 0 and whose fields fit its header, and any bytes behind them, then however they are cut
  -- into chunks, `receivePacket` returns that packet without waiting for more, changes the buffer only, and
  -- leaves the bytes behind the packet to be read.
  pub receive_packet_lem :
      (chunks : List (List ℕ)) (c : Client)
      → c.connected ≡ true
      → c.packet_buffer ++ flatten chunks ≡ serialize packet ++ rest
      → IsReceived c packet rest (receive_packet (arrivals chunks) c)
  unfolding receive_packet
  receive_packet_lem chunks c on e =
      if-elim (Done c) (not c.connected) _ _ (λ h. absurd (ground arith))
        (λ _. receive_loop-IsReceived chunks c e)
