-- ===== src/GameClient/Typing/Lines.antt =====
-- What the keys of src/client/game_client.cpp send.
use cpptcpmultiplayer.Prelude.{
  ℕ, ◌<◌, ◌≡◌, refl, ap, ◌∙◌, true, not, some, List, [], ◌∷◌, ◌++◌, append-nil, append_assoc, arith,
  length, All, length-append, if-elim,
}
use cpptcpmultiplayer.Packet.{Packet, make_packet, serialize}
use cpptcpmultiplayer.Packet.MessageType
use cpptcpmultiplayer.Server.{Network, Sent}
use cpptcpmultiplayer.Client.{Client, send_packet}
use cpptcpmultiplayer.GameClient.Typing.{Line, is_enter, is_printable, handle_key, handle_keys}

abbrev pub IsPrintable : ℕ → Type 0
IsPrintable key = is_printable key ≡ true

-- The chat message with this text, as `send` is given it.
abbrev pub chat_sent : ℕ → List ℕ → Sent
chat_sent socket text = record {
  socket = socket;
  bytes = serialize (make_packet MessageType.chat_message text);
}

module _ (network : Network) (socket : ℕ) where
  -- A connected client hands the packet to `send` whatever the network answers.
  pub send_packet-log :
      (packet : Packet) (c : Client)
      → c.connected ≡ true
      → c.socket ≡ some socket
      → (send_packet network packet c).0
        ≡ record c { log = c.log ++ (record { socket = socket; bytes = serialize packet } ∷ []) }
  unfolding send_packet
  send_packet-log packet c on has = ground arith

  abbrev pub typed_end : List ℕ → Line → Line
  typed_end text line = record { chat_buffer = []; echoed = line.echoed ++ (text ++ (10 ∷ [])) }

  handle_key-printable :
      (key : ℕ) (line : Line) (c : Client)
      → IsPrintable key
      → handle_key network key line c ≡ (
        record { chat_buffer = line.chat_buffer ++ (key ∷ []); echoed = line.echoed ++ (key ∷ []) },
        c,
      )
  unfolding handle_key
  handle_key-printable key line c h = ground arith

  one_key :
      (key : ℕ) (line : Line) (c : Client)
      → c.connected ≡ true
      → handle_keys network (key ∷ []) line c ≡ handle_key network key line c
  unfolding handle_keys
  one_key key line c on =
      if-elim (λ r. r ≡ handle_key network key line c) (not c.connected) _ _
        (λ q. absurd (ground arith)) (λ _. refl)

  -- The keys of a text.
  handle_keys-printable :
      (text keys : List ℕ) (line : Line) (c : Client)
      → All IsPrintable text
      → c.connected ≡ true
      → handle_keys network (text ++ keys) line c
        ≡ handle_keys network keys
            (record { chat_buffer = line.chat_buffer ++ text; echoed = line.echoed ++ text })
            c
  unfolding handle_keys
  handle_keys-printable [] keys line c h on =
      rw (append-nil line.chat_buffer, append-nil line.echoed)
  handle_keys-printable (key ∷ text) keys line c h on =
      let next : Line = record {
        chat_buffer = line.chat_buffer ++ (key ∷ []);
        echoed = line.echoed ++ (key ∷ []);
      } in
      let rest : handle_keys network (text ++ keys) next c
          ≡ handle_keys network keys
              (record {
                chat_buffer = line.chat_buffer ++ (key ∷ text);
                echoed = line.echoed ++ (key ∷ text);
              })
              c =
        handle_keys-printable text keys next c h.1 on
        ∙ rw (append_assoc line.chat_buffer, append_assoc line.echoed) in
      if-elim
        (λ r.
          r
          ≡ handle_keys network keys
              (record {
                chat_buffer = line.chat_buffer ++ (key ∷ text);
                echoed = line.echoed ++ (key ∷ text);
              })
              c)
        (not c.connected) _ _ (λ q. absurd (ground arith))
        (λ _.
          ap (λ r. handle_keys network (text ++ keys) r.0 r.1) (handle_key-printable key line c h.0)
          ∙ rest)

  handle_key-enter :
      (key : ℕ) (line : Line) (c : Client)
      → is_enter key ≡ true
      → 0 < length line.chat_buffer
      → c.connected ≡ true
      → c.socket ≡ some socket
      → handle_key network key line c ≡ (
        record { chat_buffer = []; echoed = line.echoed ++ (10 ∷ []) },
        record c { log = c.log ++ (chat_sent socket line.chat_buffer ∷ []) },
      )
  unfolding handle_key
  handle_key-enter key line c h n on has =
      ground
        (arith, send_packet-log (make_packet MessageType.chat_message line.chat_buffer) c on has)

  -- The keys of a printable text that is not empty, and Enter, send exactly one packet to the server of a
  -- connected client, whatever the network answers: the chat message with what was on the line and the
  -- text. The line is then empty, and the client is connected as before.
  pub handle_keys_lem :
      (text : List ℕ) (key : ℕ) (line : Line) (c : Client)
      → All IsPrintable text
      → 0 < length text
      → is_enter key ≡ true
      → c.connected ≡ true
      → c.socket ≡ some socket
      → handle_keys network (text ++ (key ∷ [])) line c ≡ (
        typed_end text line,
        record c { log = c.log ++ (chat_sent socket (line.chat_buffer ++ text) ∷ []) },
      )
  handle_keys_lem text key line c h n enter on has =
      let typed : Line = record {
        chat_buffer = line.chat_buffer ++ text;
        echoed = line.echoed ++ text;
      } in
      handle_keys-printable text (key ∷ []) line c h on
      ∙ one_key key typed c on
      ∙ handle_key-enter key typed c enter (omega (arith, length-append line.chat_buffer text)) on
          has
      ∙ ap
          (λ e. (
            record { chat_buffer = []; echoed = e },
            record c { log = c.log ++ (chat_sent socket (line.chat_buffer ++ text) ∷ []) },
          ))
          (append_assoc line.echoed text (10 ∷ []))
