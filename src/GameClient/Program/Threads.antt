-- ===== src/GameClient/Program/Threads.antt =====
-- The keys and the packets of src/client/game_client.cpp in any order.
use cpptcpmultiplayer.Prelude.{
  ℕ, ◌≡◌, refl, sym, ap, ◌∙◌, true, not, List, [], ◌∷◌, append-nil, arith, Result, ok, ◌>>=◌,
  if-elim,
}
use cpptcpmultiplayer.Packet.{Packet, make_packet}
use cpptcpmultiplayer.Packet.MessageType
use cpptcpmultiplayer.Server.{Network}
use cpptcpmultiplayer.Client.{Client, Arrival, arrived, send_packet, receiving_thread}
use cpptcpmultiplayer.Client.Receive.{arrivals}
use cpptcpmultiplayer.Client.Resume.{around}
use cpptcpmultiplayer.Client.Resume.Rounds.{thread-append}
use cpptcpmultiplayer.Client.Resume.Rounds.Around.{thread-around, thread-keeps, thread-connected}
use cpptcpmultiplayer.GameClient.{GameClient}
use cpptcpmultiplayer.GameClient.Handlers.{handle_server_packet}
use cpptcpmultiplayer.GameClient.Typing.{Line, handle_key, handle_keys}
use cpptcpmultiplayer.GameClient.Program.{
  Program, Event, pressed, received, handle_event, handle_events,
}

-- Keys and chunks in one order of those that keep each of the two orders.
pub data Interleaving : List ℕ → List (List ℕ) → List Event → Type 0 where
  over : Interleaving [] [] []
  presses :
      {keys : List ℕ} {chunks : List (List ℕ)} {events : List Event} (key : ℕ)
      → Interleaving keys chunks events
      → Interleaving (key ∷ keys) chunks (pressed key ∷ events)
  receives :
      {keys : List ℕ} {chunks : List (List ℕ)} {events : List Event} (chunk : List ℕ)
      → Interleaving keys chunks events
      → Interleaving keys (chunk ∷ chunks) (received (arrived chunk) ∷ events)

module _ (network : Network) where
  pub send_packet-around :
      (packet : Packet) (k c : Client)
      → k.connected ≡ true
      → c.connected ≡ true
      → let sent = send_packet network packet k in
        send_packet network packet (around k c) ≡ (around sent.0 c, sent.1)
  unfolding send_packet
  send_packet-around packet k c on on' = ground arith

  handle_key-around :
      (key : ℕ) (line : Line) (k c : Client)
      → k.connected ≡ true
      → c.connected ≡ true
      → let next = handle_key network key line k in
        handle_key network key line (around k c) ≡ (next.0, around next.1 c)
  unfolding handle_key
  handle_key-around key line k c on on' =
      ground (
        arith,
        send_packet-around (make_packet MessageType.chat_message line.chat_buffer) k c on on',
      )

  send_packet-keeps :
      (packet : Packet) (k : Client)
      → (send_packet network packet k).0 ≡ record k { log = (send_packet network packet k).0.log }
  unfolding send_packet
  send_packet-keeps packet k = ground arith

  handle_key-keeps :
      (key : ℕ) (line : Line) (k : Client)
      → (handle_key network key line k).1 ≡ record k { log = (handle_key network key line k).1.log }
  unfolding handle_key
  handle_key-keeps key line k =
      ground (arith, send_packet-keeps (make_packet MessageType.chat_message line.chat_buffer) k)

  handle_keys-connected :
      (key : ℕ) (keys : List ℕ) (line : Line) (k : Client)
      → k.connected ≡ true
      → let next = handle_key network key line k in
        handle_keys network (key ∷ keys) line k ≡ handle_keys network keys next.0 next.1
  unfolding handle_keys
  handle_keys-connected key keys line k on = rw on

  pub handle_keys-keeps :
      (keys : List ℕ) (line : Line) (k : Client)
      → (handle_keys network keys line k).1
        ≡ record k { log = (handle_keys network keys line k).1.log }
  unfolding handle_keys
  handle_keys-keeps [] line k = refl
  handle_keys-keeps (key ∷ keys) line k =
      let next = handle_key network key line k in
      let rest = handle_keys-keeps keys next.0 next.1 in
      let all = handle_keys network keys next.0 next.1 in
      if-elim (λ (r : Line × Client). r.1 ≡ record k { log = r.1.log }) (not k.connected) _ _
        (λ _. refl)
        (λ _.
          rest
          ∙ ap {A = Client} {B = Client} (λ x. record x { log = all.1.log })
              (handle_key-keeps key line k))

  module _ (fuel : ℕ) where
    abbrev pub thread : List Arrival → Client → GameClient → Result (Client × GameClient)
    thread = receiving_thread handle_server_packet fuel

    abbrev pub state : Client → GameClient → Line → Program
    state c g line = record { client = c; game = g; line = line }

    pressed_lem :
        (key : ℕ) (line : Line) (k c : Client) (g : GameClient)
        → k.connected ≡ true
        → c.connected ≡ true
        → let next = handle_key network key line k in
          handle_event network fuel (pressed key) (state (around k c) g line)
          ≡ ok (state (around next.1 c) g next.0)
    unfolding handle_event
    pressed_lem key line k c g on on' =
        let next = handle_key network key line k in
        if-elim (λ r. r ≡ ok (state (around next.1 c) g next.0)) c.connected _ _
          (λ _. ap (λ n. ok (state n.1 g n.0)) (handle_key-around key line k c on on'))
          (λ h. absurd (ground arith))

    pub received_lem :
        (a : Arrival) (line : Line) (k c d : Client) (g h : GameClient)
        → k.receiving ≡ c.receiving
        → thread (a ∷ []) c g ≡ ok (d, h)
        → handle_event network fuel (received a) (state (around k c) g line)
          ≡ ok (state (around k d) h line)
    unfolding handle_event
    received_lem a line k c d g h alike e =
        ap (λ x. x >>= λ r. ok (state r.0 r.1 line))
          (thread-around handle_server_packet fuel k (a ∷ []) c g (d, h) alike e)

    -- A thread that has ended waits for more.
    pub waits_again :
        (xs : List Arrival) (c d : Client) (g h : GameClient)
        → thread xs c g ≡ ok (d, h)
        → thread [] d h ≡ ok (d, h)
    waits_again xs c d g h e =
        let (d', h', first, second) =
          thread-append handle_server_packet fuel xs [] c g (d, h)
            (ap (λ a. thread a c g) (append-nil xs) ∙ e) in
        let same : ok (d, h) ≡ ok (d', h') = sym e ∙ first in
        ap (λ x. x >>= λ r. thread [] r.0 r.1) same ∙ second

    -- Take a receiving thread that waits, and that over some chunks of bytes comes to an end in which the
    -- client is connected. With the keys of another client in between, in any order, the thread comes to the
    -- same table and the same buffer, and the keys to the same line and the same packets.
    pub handle_events-Interleaving :
        {keys : List ℕ} {chunks : List (List ℕ)} {events : List Event} (line : Line) (k c : Client)
        (g : GameClient) (r : Client × GameClient)
        → Interleaving keys chunks events
        → k.connected ≡ true
        → k.receiving ≡ c.receiving
        → thread [] c g ≡ ok (c, g)
        → thread (arrivals chunks) c g ≡ ok r
        → r.0.connected ≡ true
        → let typed = handle_keys network keys line k in
          handle_events network fuel events (state (around k c) g line)
          ≡ ok (state (around typed.1 r.0) r.1 typed.0)
    unfolding handle_events handle_keys
    handle_events-Interleaving line k c g r over on alike waits e connected =
        ap (λ x. x >>= λ r. ok (state (around k r.0) r.1 line)) (sym waits ∙ e)
    handle_events-Interleaving line k c g r (presses {keys} {chunks} {events} key more) on alike
          waits e connected =
        let next = handle_key network key line k in
        let kept = handle_key-keeps key line k in
        let here = thread-connected handle_server_packet fuel (arrivals chunks) c g r e connected in
        let rest =
          handle_events-Interleaving next.0 next.1 c g r more (ap (λ x. x.connected) kept ∙ on)
            (ap (λ x. x.receiving) kept ∙ alike) waits e connected in
        ap (λ x. x >>= λ q. handle_events network fuel events q)
          (pressed_lem key line k c g on here)
        ∙ rest
        ∙ ap (λ t. ok (state (around t.1 r.0) r.1 t.0))
            (sym (handle_keys-connected key keys line k on))
    handle_events-Interleaving line k c g r (receives {keys} {chunks} {events} chunk more) on alike
          waits e connected =
        let (d, h, first, second) =
          thread-append handle_server_packet fuel (arrived chunk ∷ []) (arrivals chunks) c g r e in
        let kept = thread-keeps handle_server_packet fuel (arrived chunk ∷ []) c g (d, h) first in
        let same : d.receiving ≡ c.receiving = ap (λ x. x.receiving) kept in
        ap (λ x. x >>= λ q. handle_events network fuel events q)
          (received_lem (arrived chunk) line k c d g h alike first)
        ∙ handle_events-Interleaving line k d h r more on (alike ∙ sym same)
            (waits_again (arrived chunk ∷ []) c d g h first) second connected
