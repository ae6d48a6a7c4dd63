-- ===== src/Client/Resume.antt =====
-- The calls of `receivePacket` of src/client/client.cpp as more bytes arrive.
pub mod Rounds
use cpptcpmultiplayer.Prelude.{
  ℕ, zero, suc, ◌+◌, ◌-◌, ◌*◌, ◌/◌, ◌%◌, ◌^◌, ◌≤◌, ◌<◌, ◌≡◌, refl, sym, ap, ◌∙◌, ◌≢◌, ◌↔◌, ◌⊎◌, inl,
  inr, Bool, true, false, not, ◌&&◌, ◌||◌, Option, none, some, List, [], ◌∷◌, ◌++◌, map, append-nil,
  append_assoc, arith, ltb, leb, ◌==◌, if◌then◌else◌, ltb→lt, ltb→ge, lt→ltb, ge→ltb, le→leb,
  gt→leb, leb→le, leb→gt, ==_refl, ==_iff, Bool-cases, Bool-ext, Option-cases, length, get_or, drop,
  take, All, length-append, length-drop, nil_of_length, length-take_le, take-append_le, take-append,
  drop-append, drop-append_le, drop-drop, All-append, Result, ok, fault, stuck, ◌>>=◌, Returns,
  Returns-value, >>=-Returns, if-Returns, drop-append_add, if-elim, is_nil, equal_bytes,
  equal_bytes→eq, equal_bytes_refl,
}
use cpptcpmultiplayer.Bytes.{
  IsU32, IsU16, IsByte, be32, be16, to_u32, read_u32, read_u16, read_bytes, load_u32, load_u16,
  load_bytes, load_u32-Returns, load_u16-Returns, load_bytes-Returns, read_u32-be32, read_u16-be16,
  read_bytes-append, read_bytes-take, load_u32_at, load_bytes_at, load_length_at,
}
use mathlib.Core.Path.{subst}
use cpptcpmultiplayer.Packet.{Packet, deserialize, get_total_size, is_complete_packet}
use cpptcpmultiplayer.Packet.Framing.{is_complete_packet-Returns}
use cpptcpmultiplayer.Client.{
  Client, Arrival, arrived, no_more, Reception, returned, blocked, take_packet, has_packet,
  receive_loop,
}
use cpptcpmultiplayer.Client.Receive.{has_packet_lem}
use cpptcpmultiplayer.Client.Thread.{bind_later}

-- The call goes on when it waits, and what arrives after it returned is left.
abbrev pub resume : List Arrival → Reception → Result Reception
resume ys (returned packet done more c) = ok (returned packet done (more ++ ys) c)
resume ys (blocked c) = receive_loop ys c

has_packet-cases : (c : Client) → (ready : Bool) × (has_packet c ≡ ok ready)
has_packet-cases c =
    let (ready, q) = Returns-value _ (is_complete_packet-Returns c.packet_buffer) in
    (ready, has_packet_lem c ∙ q)

ready_or_not {ℓ} :
    {P : Type ℓ} (c : Client) → (has_packet c ≡ ok true → P) → (has_packet c ≡ ok false → P) → P
ready_or_not c f g =
    let (ready, h) = has_packet-cases c in
    elim (Bool-cases ready) [ inl e ↦ f (h ∙ ap ok e) | inr e ↦ g (h ∙ ap ok e) ]

receive_loop-ready :
    (xs : List Arrival) (c : Client) → has_packet c ≡ ok true → receive_loop xs c ≡ take_packet xs c
unfolding receive_loop
receive_loop-ready [] c h = rw h
receive_loop-ready (no_more ∷ xs) c h = rw h
receive_loop-ready (arrived chunk ∷ xs) c h = rw h

-- The same client with the connection of another one.
abbrev pub around : Client → Client → Client
around k c = record k { connected = c.connected; packet_buffer = c.packet_buffer }

abbrev pub reception_around : Client → Reception → Reception
reception_around k (returned packet done more c) = returned packet done more (around k c)
reception_around k (blocked c) = blocked (around k c)

abbrev taken : List Arrival → Client → Packet → Result Reception
taken more c packet = ok (
    returned (some packet) (not (packet.header.type == 0)) more
      (record c { packet_buffer = drop (get_total_size packet) c.packet_buffer }))

take_packet-resume :
    (xs ys : List Arrival) (c : Client)
    → take_packet (xs ++ ys) c ≡ (take_packet xs c >>= resume ys)
unfolding take_packet
take_packet-resume xs ys c =
    bind_later (deserialize c.packet_buffer (length c.packet_buffer)) (taken (xs ++ ys) c)
      (taken xs c) (resume ys) λ p. refl

take_packet-around :
    (k : Client) (xs : List Arrival) (c : Client)
    → take_packet xs (around k c) ≡ (take_packet xs c >>= λ o. ok (reception_around k o))
unfolding take_packet
take_packet-around k xs c =
    bind_later (deserialize c.packet_buffer (length c.packet_buffer)) (taken xs (around k c))
      (taken xs c) (λ o. ok (reception_around k o)) λ p. refl

receive_loop-waits : (c : Client) → has_packet c ≡ ok false → receive_loop [] c ≡ ok (blocked c)
unfolding receive_loop
receive_loop-waits c h = rw h

receive_loop-ends :
    (xs : List Arrival) (c : Client)
    → has_packet c ≡ ok false
    → receive_loop (no_more ∷ xs) c ≡ ok (returned none false xs (record c { connected = false }))
unfolding receive_loop
receive_loop-ends xs c h = rw h

abbrev grown : List ℕ → Client → Client
grown chunk c = record c { packet_buffer = c.packet_buffer ++ chunk }

receive_loop-chunk :
    (chunk : List ℕ) (xs : List Arrival) (c : Client) (complete : Bool)
    → has_packet c ≡ ok false
    → is_complete_packet (grown chunk c).packet_buffer (length (grown chunk c).packet_buffer)
      ≡ ok complete
    → receive_loop (arrived chunk ∷ xs) c
      ≡ (if complete then take_packet xs (grown chunk c) else receive_loop xs (grown chunk c))
unfolding receive_loop
receive_loop-chunk chunk xs c complete h q = rw (h, q)

resume-ready :
    (xs ys : List Arrival) (c : Client)
    → has_packet c ≡ ok true
    → receive_loop (xs ++ ys) c ≡ (receive_loop xs c >>= resume ys)
resume-ready xs ys c h =
    receive_loop-ready (xs ++ ys) c h
    ∙ take_packet-resume xs ys c
    ∙ ap (λ r. r >>= resume ys) (sym (receive_loop-ready xs c h))

-- A call over some arrivals and more of them is a call over the first ones that goes on with the others.
pub receive_loop-resume :
    (xs ys : List Arrival) (c : Client)
    → receive_loop (xs ++ ys) c ≡ (receive_loop xs c >>= resume ys)
receive_loop-resume [] ys c =
    ready_or_not c (resume-ready [] ys c)
      λ h. ap (λ r. r >>= resume ys) (sym (receive_loop-waits c h))
receive_loop-resume (no_more ∷ xs) ys c = ready_or_not c (resume-ready (no_more ∷ xs) ys c) λ h.
    receive_loop-ends (xs ++ ys) c h ∙ ap (λ r. r >>= resume ys) (sym (receive_loop-ends xs c h))
receive_loop-resume (arrived chunk ∷ xs) ys c =
    let (complete, q) = Returns-value _ (is_complete_packet-Returns (c.packet_buffer ++ chunk)) in
    let rest = receive_loop-resume xs ys (grown chunk c) in
    ready_or_not c (resume-ready (arrived chunk ∷ xs) ys c) λ h.
      receive_loop-chunk chunk (xs ++ ys) c complete h q
      ∙ if-elim
          (λ r. r ≡ (
            (if complete then take_packet xs (grown chunk c) else receive_loop xs (grown chunk c))
            >>= resume ys))
          complete _ _ (λ e. take_packet-resume xs ys (grown chunk c) ∙ rw e) (λ e. rest ∙ rw e)
      ∙ ap (λ r. r >>= resume ys) (sym (receive_loop-chunk chunk xs c complete h q))

around-ready :
    (k : Client) (xs : List Arrival) (c : Client)
    → has_packet c ≡ ok true
    → receive_loop xs (around k c) ≡ (receive_loop xs c >>= λ o. ok (reception_around k o))
unfolding has_packet
around-ready k xs c h =
    receive_loop-ready xs (around k c) h
    ∙ take_packet-around k xs c
    ∙ ap (λ r. r >>= λ o. ok (reception_around k o)) (sym (receive_loop-ready xs c h))

-- A call looks at the connection and the buffer only, and changes nothing else.
pub receive_loop-around :
    (k : Client) (xs : List Arrival) (c : Client)
    → receive_loop xs (around k c) ≡ (receive_loop xs c >>= λ o. ok (reception_around k o))
unfolding has_packet
receive_loop-around k [] c = ready_or_not c (around-ready k [] c) λ h.
    receive_loop-waits (around k c) h
    ∙ ap (λ r. r >>= λ o. ok (reception_around k o)) (sym (receive_loop-waits c h))
receive_loop-around k (no_more ∷ xs) c = ready_or_not c (around-ready k (no_more ∷ xs) c) λ h.
    receive_loop-ends xs (around k c) h
    ∙ ap (λ r. r >>= λ o. ok (reception_around k o)) (sym (receive_loop-ends xs c h))
receive_loop-around k (arrived chunk ∷ xs) c =
    let (complete, q) = Returns-value _ (is_complete_packet-Returns (c.packet_buffer ++ chunk)) in
    let rest = receive_loop-around k xs (grown chunk c) in
    let after : Result Reception → Result Reception = λ r. r >>= λ o. ok (reception_around k o) in
    ready_or_not c (around-ready k (arrived chunk ∷ xs) c) λ h.
      receive_loop-chunk chunk xs (around k c) complete h q
      ∙ if-elim
          (λ r.
            r
            ≡ after (
                if complete
                then take_packet xs (grown chunk c)
                else receive_loop xs (grown chunk c)))
          complete _ _ (λ e. take_packet-around k xs (grown chunk c) ∙ rw e) (λ e. rest ∙ rw e)
      ∙ ap after (sym (receive_loop-chunk chunk xs c complete h q))

-- A call that waits leaves the client connected as it was.
abbrev pub Waits : Bool → Result Reception → Type 0
Waits connected (ok (blocked c)) = c.connected ≡ connected
Waits connected r = Unit

take_packet-Waits : (xs : List Arrival) (c d : Client) → Waits d.connected (take_packet xs c)
unfolding take_packet
take_packet-Waits xs c d =
    elim (deserialize c.packet_buffer (length c.packet_buffer))
      as (λ r. Waits d.connected (r >>= taken xs c)) [ ok packet ↦ tt | fault ↦ tt | stuck ↦ tt ]

Waits-ready :
    (xs : List Arrival) (c : Client)
    → has_packet c ≡ ok true
    → Waits c.connected (receive_loop xs c)
Waits-ready xs c h =
    subst (Waits c.connected) (sym (receive_loop-ready xs c h)) (take_packet-Waits xs c c)

pub receive_loop-Waits : (xs : List Arrival) (c : Client) → Waits c.connected (receive_loop xs c)
receive_loop-Waits [] c =
    ready_or_not c (Waits-ready [] c)
      λ h. subst (Waits c.connected) (sym (receive_loop-waits c h)) refl
receive_loop-Waits (no_more ∷ xs) c =
    ready_or_not c (Waits-ready (no_more ∷ xs) c)
      λ h. subst (Waits c.connected) (sym (receive_loop-ends xs c h)) tt
receive_loop-Waits (arrived chunk ∷ xs) c =
    let (complete, q) = Returns-value _ (is_complete_packet-Returns (c.packet_buffer ++ chunk)) in
    let rest = receive_loop-Waits xs (grown chunk c) in
    ready_or_not c (Waits-ready (arrived chunk ∷ xs) c) λ h.
      subst (Waits c.connected) (sym (receive_loop-chunk chunk xs c complete h q)) (
        if-elim (Waits c.connected) complete _ _ (λ _. take_packet-Waits xs (grown chunk c) c)
          (λ _. rest))
