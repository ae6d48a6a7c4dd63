-- ===== src/Client/Resume/Rounds/Around.antt =====
-- What the receiving thread of src/client/client.cpp does not look at.
use cpptcpmultiplayer.Prelude.{
  ℕ, zero, suc, ◌≡◌, refl, sym, ap, ◌∙◌, inl, inr, true, List, arith, Bool-cases, Result, ok, fault,
  stuck, ◌>>=◌,
}
use cpptcpmultiplayer.Packet.{Packet}
use cpptcpmultiplayer.Client.{
  Client, Arrival, Reception, returned, blocked, receive_loop, after_reception, receiving_thread,
}
use cpptcpmultiplayer.Client.Resume.{around, reception_around, receive_loop-around}
use cpptcpmultiplayer.Client.Resume.Rounds.{
  bind_ok, receiving_of, receiving-kept, running, called, after-called, thread-stops, thread-goes,
  nothing-ok,
}

abbrev around_result {ℓ} : {S : Type ℓ} → Client → Result (Client × S) → Result (Client × S)
around_result k (ok (c, s)) = ok (around k c, s)
around_result k fault = fault
around_result k stuck = stuck

abbrev client_of {ℓ} : {S : Type ℓ} → Client → Result (Client × S) → Client
client_of k (ok (c, s)) = c
client_of k _ = k

module _ {ℓ} {S : Type ℓ} (callback : Packet → S → Result S) where
  abbrev thread : ℕ → List Arrival → Client → S → Result (Client × S)
  thread = receiving_thread callback

  around-round :
      (fuel : ℕ) (k c : Client) (o : Reception) (s : S) (r : Client × S)
      → ((more : List Arrival) (d : Client) (t : S)
          → k.receiving ≡ d.receiving
          → thread fuel more d t ≡ ok r
          → thread fuel more (around k d) t ≡ ok (around k r.0, r.1))
      → k.receiving ≡ receiving_of (ok o)
      → after_reception (thread fuel) callback s o ≡ ok r
      → after_reception (thread fuel) callback s (reception_around k o) ≡ ok (around k r.0, r.1)
  unfolding after_reception
  around-round fuel k c (blocked d) s r ih alike e = ap (around_result k) e
  around-round fuel k c (returned packet done more d) s r ih alike e =
      let (t, p, e') =
        bind_ok (called callback packet done s) (λ t. thread fuel more d t) r
          (sym (after-called callback (thread fuel) packet done more d s) ∙ e) in
      after-called callback (thread fuel) packet done more (around k d) s
      ∙ ap (λ x. x >>= λ t. thread fuel more (around k d) t) p
      ∙ ih more d t alike e'

  -- The thread looks at the connection and the buffer only, once it is started.
  pub thread-around :
      (fuel : ℕ) (k : Client) (xs : List Arrival) (c : Client) (s : S) (r : Client × S)
      → k.receiving ≡ c.receiving
      → thread fuel xs c s ≡ ok r
      → thread fuel xs (around k c) s ≡ ok (around k r.0, r.1)
  thread-around zero k xs c s r alike e = absurd (nothing-ok callback xs c s r e)
  thread-around (suc fuel) k xs c s r alike e = elim (Bool-cases (running callback c)) [
    | inr h ↦
        thread-stops callback fuel xs (around k c) s (rw alike h)
        ∙ ap (around_result k) (sym (thread-stops callback fuel xs c s h) ∙ e)
    | inl h ↦
        let after : Reception → Result (Client × S) =
          λ o. after_reception (thread fuel) callback s o in
        let (o, q, e') =
          bind_ok (receive_loop xs c) after r (sym (thread-goes callback fuel xs c s h) ∙ e) in
        thread-goes callback fuel xs (around k c) s (rw alike h)
        ∙ ap (λ x. x >>= after)
            (receive_loop-around k xs c ∙ ap (λ x. x >>= λ o. ok (reception_around k o)) q)
        ∙ around-round fuel k c o s r (λ more d t. thread-around fuel k more d t r)
            (alike ∙ sym (receiving-kept xs c o q)) e'
  ]

  -- It changes nothing else.
  pub thread-keeps :
      (fuel : ℕ) (xs : List Arrival) (c : Client) (s : S) (r : Client × S)
      → thread fuel xs c s ≡ ok r
      → r.0 ≡ around c r.0
  thread-keeps fuel xs c s r e = ap (client_of c) (sym e ∙ thread-around fuel c xs c s r refl e)

  -- A client that is not connected stays so.
  pub thread-connected :
      (fuel : ℕ) (xs : List Arrival) (c : Client) (s : S) (r : Client × S)
      → thread fuel xs c s ≡ ok r
      → r.0.connected ≡ true
      → c.connected ≡ true
  thread-connected zero xs c s r e on = absurd (nothing-ok callback xs c s r e)
  thread-connected (suc fuel) xs c s r e on = elim (Bool-cases c.connected) [
    | inl h ↦ h
    | inr h ↦
        ap (λ x. (client_of c x).connected)
          (sym (thread-stops callback fuel xs c s (ground arith)) ∙ e)
        ∙ on
  ]
