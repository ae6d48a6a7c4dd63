-- ===== src/Client/Resume/Rounds.antt =====
-- The receiving thread of src/client/client.cpp, stopped and taken up again.
pub mod Around
use cpptcpmultiplayer.Prelude.{
  ℕ, zero, suc, ◌≡◌, refl, sym, ap, ◌∙◌, ◌≢◌, inl, inr, Bool, true, false, ◌&&◌, Option, none, some,
  List, ◌++◌, arith, Bool-cases, Result, ok, fault, stuck, ◌>>=◌,
}
use mathlib.Core.Path.{subst}
use cpptcpmultiplayer.Packet.{Packet}
use cpptcpmultiplayer.Client.{
  Client, Arrival, Reception, returned, blocked, receive_loop, receive_packet, after_reception,
  receiving_thread,
}
use cpptcpmultiplayer.Client.Thread.{bind_later, thread_round}
use cpptcpmultiplayer.Client.Resume.{
  resume, around, reception_around, receive_loop-resume, receive_loop-around, receive_loop-Waits,
  Waits,
}

-- A result that is returned comes from a step that returns.
pub bind_ok {ℓ κ} :
    {A : Type ℓ} {B : Type κ} (m : Result A) (f : A → Result B) (b : B)
    → (m >>= f) ≡ ok b
    → (a : A) × (m ≡ ok a) × (f a ≡ ok b)
bind_ok (ok a) f b e = (a, refl, e)
bind_ok fault f b e = cc
bind_ok stuck f b e = cc

abbrev receiving_of : Result Reception → Bool
receiving_of (ok (returned packet done more c)) = c.receiving
receiving_of (ok (blocked c)) = c.receiving
receiving_of r = false

receiving-kept :
    (xs : List Arrival) (c : Client) (o : Reception)
    → receive_loop xs c ≡ ok o
    → receiving_of (ok o) ≡ c.receiving
receiving-kept xs c o e =
    back o (sym e ∙ receive_loop-around c xs c ∙ ap (λ r. r >>= λ o. ok (reception_around c o)) e)
  where
    back : (o : Reception) → ok o ≡ ok (reception_around c o) → receiving_of (ok o) ≡ c.receiving
    back (returned packet done more d) q = ap receiving_of q
    back (blocked d) q = ap receiving_of q

module _ {ℓ} {S : Type ℓ} (callback : Packet → S → Result S) where
  abbrev thread : ℕ → List Arrival → Client → S → Result (Client × S)
  thread = receiving_thread callback

  abbrev running : Client → Bool
  running c = c.receiving && c.connected

  abbrev called : Option Packet → Bool → S → Result S
  called (some packet) true s = callback packet s
  called packet done s = ok s

  after-called :
      (go_on : List Arrival → Client → S → Result (Client × S)) (packet : Option Packet)
      (done : Bool) (more : List Arrival) (c : Client) (s : S)
      → after_reception go_on callback s (returned packet done more c)
        ≡ (called packet done s >>= λ t. go_on more c t)
  unfolding after_reception
  after-called go_on (some packet) true more c s = refl
  after-called go_on (some packet) false more c s = refl
  after-called go_on none true more c s = refl
  after-called go_on none false more c s = refl

  thread-stops :
      (fuel : ℕ) (xs : List Arrival) (c : Client) (s : S)
      → running c ≡ false
      → thread (suc fuel) xs c s ≡ ok (c, s)
  unfolding receiving_thread
  thread-stops fuel xs c s h = rw h

  receive_packet-connected :
      (xs : List Arrival) (c : Client)
      → c.connected ≡ true
      → receive_packet xs c ≡ receive_loop xs c
  unfolding receive_packet
  receive_packet-connected xs c on = rw on

  thread-goes :
      (fuel : ℕ) (xs : List Arrival) (c : Client) (s : S)
      → running c ≡ true
      → thread (suc fuel) xs c s
        ≡ (receive_loop xs c >>= λ o. after_reception (thread fuel) callback s o)
  thread-goes fuel xs c s h =
      let on : c.connected ≡ true = ground arith in
      thread_round callback fuel xs c s (ground arith) on
      ∙ ap (λ r. r >>= λ o. after_reception (thread fuel) callback s o)
          (receive_packet-connected xs c on)

  -- What one continuation returns, another one does.
  after-more :
      (go_on go_on' : List Arrival → Client → S → Result (Client × S)) (o : Reception) (s : S)
      (r : Client × S)
      → ((more : List Arrival) (c : Client) (t : S)
          → go_on more c t ≡ ok r
          → go_on' more c t ≡ ok r)
      → after_reception go_on callback s o ≡ ok r
      → after_reception go_on' callback s o ≡ ok r
  unfolding after_reception
  after-more go_on go_on' (blocked c) s r h e = e
  after-more go_on go_on' (returned packet done more c) s r h e =
      let (t, q, e') =
        bind_ok (called packet done s) (λ t. go_on more c t) r
          (sym (after-called go_on packet done more c s) ∙ e) in
      after-called go_on' packet done more c s
      ∙ ap (λ x. x >>= λ t. go_on' more c t) q
      ∙ h more c t e'

  nothing-ok : (xs : List Arrival) (c : Client) (s : S) (r : Client × S) → thread 0 xs c s ≢ ok r
  unfolding receiving_thread
  nothing-ok xs c s r e = cc

  -- More rounds than enough change nothing.
  thread-more :
      (fuel : ℕ) (xs : List Arrival) (c : Client) (s : S) (r : Client × S)
      → thread fuel xs c s ≡ ok r
      → thread (suc fuel) xs c s ≡ ok r
  unfolding receiving_thread
  thread-more zero xs c s r e = cc
  thread-more (suc fuel) xs c s r e = elim (Bool-cases (running c)) [
    | inr h ↦ thread-stops (suc fuel) xs c s h ∙ sym (thread-stops fuel xs c s h) ∙ e
    | inl h ↦
        let (o, q, e') =
          bind_ok (receive_loop xs c) (λ o. after_reception (thread fuel) callback s o) r
            (sym (thread-goes fuel xs c s h) ∙ e) in
        thread-goes (suc fuel) xs c s h
        ∙ ap (λ x. x >>= λ o. after_reception (thread (suc fuel)) callback s o) q
        ∙ after-more (thread fuel) (thread (suc fuel)) o s r
            (λ more c t. thread-more fuel more c t r) e'
  ]

  -- What the rounds over some arrivals leave, with the rounds over the arrivals behind them.
  abbrev Splits : ℕ → List Arrival → List Arrival → Client → S → Client × S → Type ℓ
  Splits fuel xs ys c s r =
      (c' : Client) × (s' : S) × (thread fuel xs c s ≡ ok (c', s')) × (thread fuel ys c' s' ≡ ok r)

  split-round :
      (fuel : ℕ) (xs ys : List Arrival) (c : Client) (s : S) (r : Client × S) (o : Reception)
      → ((more : List Arrival) (d : Client) (t : S)
          → thread fuel (more ++ ys) d t ≡ ok r
          → Splits fuel more ys d t r)
      → running c ≡ true
      → receive_loop xs c ≡ ok o
      → thread (suc fuel) xs c s ≡ after_reception (thread fuel) callback s o
      → (resume ys o >>= λ p. after_reception (thread fuel) callback s p) ≡ ok r
      → Splits (suc fuel) xs ys c s r
  unfolding after_reception
  split-round fuel xs ys c s r (blocked d) ih h q now e =
      let alike : d.receiving ≡ c.receiving = receiving-kept xs c (blocked d) q in
      let still : d.connected ≡ c.connected =
        subst (Waits c.connected) q (receive_loop-Waits xs c) in
      (d, s, now, thread-goes fuel ys d s (rw (alike, still) h) ∙ e)
  split-round fuel xs ys c s r (returned packet done more d) ih h q now e =
      let (t, p, e') =
        bind_ok (called packet done s) (λ t. thread fuel (more ++ ys) d t) r
          (sym (after-called (thread fuel) packet done (more ++ ys) d s) ∙ e) in
      let (d', t', first, second) = ih more d t e' in
      (
        d',
        t',
        now
            ∙ after-called (thread fuel) packet done more d s
            ∙ ap (λ x. x >>= λ t. thread fuel more d t) p
            ∙ first,
        thread-more fuel ys d' t' r second,
      )

  -- A thread that ends over all arrivals ends over the first ones, and goes on with the others.
  pub thread-append :
      (fuel : ℕ) (xs ys : List Arrival) (c : Client) (s : S) (r : Client × S)
      → thread fuel (xs ++ ys) c s ≡ ok r
      → Splits fuel xs ys c s r
  thread-append zero xs ys c s r e = absurd (nothing-ok (xs ++ ys) c s r e)
  thread-append (suc fuel) xs ys c s r e = elim (Bool-cases (running c)) [
    | inr h ↦ (
      c,
      s,
      thread-stops fuel xs c s h,
      thread-stops fuel ys c s h ∙ sym (thread-stops fuel (xs ++ ys) c s h) ∙ e,
    )
    | inl h ↦
        let after : Reception → Result (Client × S) =
          λ o. after_reception (thread fuel) callback s o in
        let whole : (receive_loop xs c >>= λ o. resume ys o >>= after) ≡ ok r =
          bind_later (receive_loop xs c) (λ o. resume ys o >>= after) (resume ys) after (λ o. refl)
          ∙ ap (λ x. x >>= after) (sym (receive_loop-resume xs ys c))
          ∙ sym (thread-goes fuel (xs ++ ys) c s h)
          ∙ e in
        let (o, q, e') = bind_ok (receive_loop xs c) (λ o. resume ys o >>= after) r whole in
        let now : thread (suc fuel) xs c s ≡ after o =
          thread-goes fuel xs c s h ∙ ap (λ x. x >>= after) q in
        split-round fuel xs ys c s r o (λ more d t. thread-append fuel more ys d t r) h q now e'
  ]
