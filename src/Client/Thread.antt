-- ===== src/Client/Thread.antt =====
-- The receiving thread of src/client/client.cpp on the bytes of packets.
use cpptcpmultiplayer.Prelude.{
  ℕ, zero, suc, ◌<◌, ◌≡◌, refl, ap, ◌∙◌, true, not, ◌&&◌, List, [], ◌∷◌, ◌++◌, arith, length, All,
  Result, ok, fault, stuck, ◌>>=◌, if-elim,
}
use mathlib.Core.List.{flatten}
use cpptcpmultiplayer.Packet.{Packet, make_packet, is_complete_packet}
use cpptcpmultiplayer.Server.Stream.Frames.{wires, IsMessage}
use cpptcpmultiplayer.Client.{
  Client, Arrival, blocked, after_reception, receive_loop, receive_packet, receiving_thread,
}
use cpptcpmultiplayer.Client.Receive.{arrivals, receive_packet_lem}

-- The callback on one packet after the other.
abbrev pub call_all {ℓ} : {S : Type ℓ} → (Packet → S → Result S) → List (ℕ × List ℕ) → S → Result S
call_all callback [] s = ok s
call_all callback ((type, payload) ∷ ps) s =
    callback (make_packet type payload) s >>= λ s'. call_all callback ps s'

nil_left : (a b : List ℕ) → a ++ b ≡ [] → a ≡ []
nil_left [] b e = refl
nil_left (x ∷ a) b e = cc

nil_right : (a b : List ℕ) → a ++ b ≡ [] → b ≡ []
nil_right [] b e = e
nil_right (x ∷ a) b e = cc

pub bind_later {ℓ κ μ} :
    {A : Type ℓ} {B : Type κ} {C : Type μ} (m : Result A) (f : A → Result C) (g : A → Result B)
    (h : B → Result C)
    → ((a : A) → f a ≡ (g a >>= h))
    → (m >>= f) ≡ ((m >>= g) >>= h)
bind_later (ok a) f g h e = e a
bind_later fault f g h e = refl
bind_later stuck f g h e = refl

-- With nothing left to read, the call waits.
receive_loop-blocked_nil :
    (chunks : List (List ℕ)) (c : Client)
    → flatten chunks ≡ []
    → receive_loop (arrivals chunks) (record c { packet_buffer = [] })
      ≡ ok (blocked (record c { packet_buffer = [] }))
unfolding receive_loop is_complete_packet flatten
receive_loop-blocked_nil [] c f = refl
receive_loop-blocked_nil ([] ∷ chunks) c f = receive_loop-blocked_nil chunks c f
receive_loop-blocked_nil ((x ∷ xs) ∷ chunks) c f = cc

receive_loop-blocked :
    (chunks : List (List ℕ)) (c : Client)
    → c.packet_buffer ≡ []
    → flatten chunks ≡ []
    → receive_loop (arrivals chunks) c ≡ ok (blocked (record c { packet_buffer = [] }))
receive_loop-blocked chunks c e f =
    ap (λ b. receive_loop (arrivals chunks) (record c { packet_buffer = b })) e
    ∙ receive_loop-blocked_nil chunks c f

module _ {ℓ} {S : Type ℓ} (callback : Packet → S → Result S) where
  waits :
      (chunks : List (List ℕ)) (c : Client)
      → c.connected ≡ true
      → c.packet_buffer ++ flatten chunks ≡ []
      → receive_packet (arrivals chunks) c ≡ ok (blocked (record c { packet_buffer = [] }))
  unfolding receive_packet
  waits chunks c on e =
      if-elim (λ x. x ≡ ok (blocked (record c { packet_buffer = [] }))) (not c.connected) _ _
        (λ q. absurd (ground arith))
        (λ _.
          receive_loop-blocked chunks c (nil_left c.packet_buffer (flatten chunks) e)
            (nil_right c.packet_buffer (flatten chunks) e))

  -- One round of the thread.
  pub thread_round :
      (fuel : ℕ) (more : List Arrival) (c : Client) (s : S)
      → c.receiving ≡ true
      → c.connected ≡ true
      → receiving_thread callback (suc fuel) more c s ≡ (
          receive_packet more c >>= λ o.
          after_reception (receiving_thread callback fuel) callback s o)
  unfolding receiving_thread
  thread_round fuel more c s r on =
      if-elim
        (λ x. x ≡ (
          receive_packet more c >>= λ o.
          after_reception (receiving_thread callback fuel) callback s o))
        (not (c.receiving && c.connected)) _ _ (λ q. absurd (ground arith)) (λ _. refl)

  -- If the bytes in the buffer and those that arrive are those of packets whose types are not 0 and whose
  -- fields fit their header, then however they are cut into chunks, the thread of a connected client, with
  -- more rounds than there are packets, calls the callback with exactly these packets, in their order, and
  -- then waits with an empty buffer, unless the callback fails.
  pub receiving_thread_lem :
      (ps : List (ℕ × List ℕ)) (fuel : ℕ) (chunks : List (List ℕ)) (c : Client) (s : S)
      → All IsMessage ps
      → length ps < fuel
      → c.receiving ≡ true
      → c.connected ≡ true
      → c.packet_buffer ++ flatten chunks ≡ wires ps
      → receiving_thread callback fuel (arrivals chunks) c s
        ≡ (call_all callback ps s >>= λ t. ok (record c { packet_buffer = [] }, t))
  unfolding after_reception
  receiving_thread_lem ps zero chunks c s m h r on e = absurd (omega arith)
  receiving_thread_lem [] (suc fuel) chunks c s m h r on e =
      thread_round fuel (arrivals chunks) c s r on
      ∙ ap (λ x. x >>= λ o. after_reception (receiving_thread callback fuel) callback s o)
          (waits chunks c on e)
  receiving_thread_lem ((type, payload) ∷ ps) (suc fuel) chunks c s m h r on e =
      let (more, buffer, got, left) =
        receive_packet_lem type payload (wires ps) m.0.0 m.0.1 chunks c on e in
      thread_round fuel (arrivals chunks) c s r on
      ∙ ap (λ x. x >>= λ o. after_reception (receiving_thread callback fuel) callback s o) got
      ∙ bind_later (callback (make_packet type payload) s) _ _ _ λ t.
        receiving_thread_lem ps fuel more (record c { packet_buffer = buffer }) t m.1 (omega arith)
          r on left
