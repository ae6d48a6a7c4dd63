-- ===== src/Echo/Lines.antt =====
-- The lines of src/client/echo_client.cpp and their echoes.
use cpptcpmultiplayer.Prelude.{
  ℕ, ◌≡◌, refl, ap, ◌∙◌, Bool, true, false, not, some, List, [], ◌∷◌, ◌++◌, append-nil,
  append_assoc, arith, if◌then◌else◌, length, All, Result, ok, ◌>>=◌, if-elim,
}
use mathlib.Core.List.{flatten}
use cpptcpmultiplayer.Prelude.Text.{codes}
use cpptcpmultiplayer.Packet.{Packet, make_packet, serialize}
use cpptcpmultiplayer.Packet.Framing.{Fits}
use cpptcpmultiplayer.Packet.MessageType
use cpptcpmultiplayer.Server.{Network, Sent, sent_bytes}
use cpptcpmultiplayer.Client.{
  Client, Arrival, returned, send_packet, disconnect, receive_packet, new_client, connect,
  connect_text, established, stop_receiving, disconnect_text,
}
use cpptcpmultiplayer.Client.Receive.{arrivals, receive_packet_lem}
use cpptcpmultiplayer.Echo.{
  EchoClient, ended, exit_commands, is_command, finish, show_echo, echo_lines, opening, port,
  exit_code, run_echo,
}

-- A line that is not a command, and short enough for a packet.
pub record IsLine (line : List ℕ) : Type 0 where
  pub no_command : is_command line exit_commands ≡ false
  pub fits : Fits MessageType.echo line

-- The bytes of the echoes, what `send` is given, and what is shown.
abbrev pub echoes : List (List ℕ) → List ℕ
echoes [] = []
echoes (line ∷ lines) = serialize (make_packet MessageType.echo line) ++ echoes lines

abbrev pub sends : ℕ → List (List ℕ) → List Sent
sends socket [] = []
sends socket (line ∷ lines) =
    record { socket = socket; bytes = serialize (make_packet MessageType.echo line) }
    ∷ sends socket lines

abbrev pub farewell : List ℕ
farewell = codes "Disconnected from server" ++ (10 ∷ [])

abbrev pub shown : List (List ℕ) → List ℕ
shown [] = []
shown (line ∷ lines) = (codes "Echo: " ++ (line ++ (10 ∷ []))) ++ shown lines

module _ (network : Network) (socket : ℕ)
    (accepts : (log : List Sent) (s : ℕ) (bytes : List ℕ)
      → network log s bytes ≡ sent_bytes (length bytes)) where
  send_packet_lem :
      (packet : Packet) (c : Client)
      → c.connected ≡ true
      → c.socket ≡ some socket
      → send_packet network packet c ≡ (
        record c { log = c.log ++ (record { socket = socket; bytes = serialize packet } ∷ []) },
        true,
      )
  unfolding send_packet
  send_packet_lem packet c on has = ground (arith, accepts c.log socket (serialize packet))

  -- One round of the loop, when the packet is sent.
  echo_round :
      (line : List ℕ) (lines : List (List ℕ)) (chunks : List Arrival) (c d : Client)
      (screen : List ℕ)
      → IsLine line
      → c.connected ≡ true
      → send_packet network (make_packet MessageType.echo line) c ≡ (d, true)
      → echo_lines network (line ∷ lines) chunks c screen
        ≡ (receive_packet chunks d >>= λ o. show_echo (echo_lines network lines) screen o)
  unfolding echo_lines
  echo_round line lines chunks c d screen h on e =
      let RHS = receive_packet chunks d >>= λ o. show_echo (echo_lines network lines) screen o in
      let P : Result EchoClient → Type 0 = λ x. x ≡ RHS in
      if-elim P (not c.connected) _ _ (λ q. absurd (ground arith))
        λ _.
          if-elim P (is_command line exit_commands) _ _ (λ q. absurd (ground (arith, h.no_command)))
            λ _.
              ap
                (λ (sent : Client × Bool).
                  if not sent.1
                  then ok (finish c screen)
                  else receive_packet chunks sent.0 >>= λ o.
                      show_echo (echo_lines network lines) screen o)
                e

  show_echo_lem :
      (go_on : List Arrival → Client → List ℕ → Result EchoClient) (line screen : List ℕ)
      (more : List Arrival) (c : Client)
      → show_echo go_on screen (returned (some (make_packet MessageType.echo line)) true more c)
        ≡ go_on more c (screen ++ (codes "Echo: " ++ (line ++ (10 ∷ []))))
  unfolding show_echo make_packet
  show_echo_lem go_on line screen more c = refl

  -- If the network takes every packet, then a connected client to which the echoes
  -- of its lines come back, however they are cut into chunks, sends each line once and shows each echo,
  -- in their order, and then the connection is closed.
  pub echo_lines_lem :
      (lines : List (List ℕ)) (chunks : List (List ℕ)) (c : Client) (screen : List ℕ)
      → All IsLine lines
      → c.connected ≡ true
      → c.socket ≡ some socket
      → c.packet_buffer ++ flatten chunks ≡ echoes lines
      → (buffer : List ℕ) × (echo_lines network lines (arrivals chunks) c screen
          ≡ ok (
              ended
                (disconnect
                  (record c { log = c.log ++ sends socket lines; packet_buffer = buffer }))
                ((screen ++ shown lines) ++ farewell)))
  unfolding echo_lines finish disconnect_text
  echo_lines_lem [] chunks c screen h on has e =
      (c.packet_buffer, rw (append-nil c.log, append-nil screen, on))
  echo_lines_lem (line ∷ lines) chunks c screen h on has e =
      let packet = make_packet MessageType.echo line in
      let c' : Client = record c {
        log = c.log ++ (record { socket = socket; bytes = serialize packet } ∷ []);
      } in
      let (more, buffer, got, left) =
        receive_packet_lem MessageType.echo line (echoes lines) h.0.fits (omega arith) chunks c' on
          e in
      let (last, run) =
        echo_lines_lem lines more (record c' { packet_buffer = buffer })
          (screen ++ (codes "Echo: " ++ (line ++ (10 ∷ [])))) h.1 on has left in
      (
        last,
        echo_round line lines (arrivals chunks) c c' screen h.0 on (send_packet_lem packet c on has)
            ∙ ap (λ x. x >>= λ o. show_echo (echo_lines network lines) screen o) got
            ∙ show_echo_lem (echo_lines network lines) line screen (arrivals more)
                (record c' { packet_buffer = buffer })
            ∙ run
            ∙ rw (
              append_assoc c.log,
              append_assoc screen (codes "Echo: " ++ (line ++ (10 ∷ []))) (shown lines),
            ),
      )

  -- Take lines that are no commands and fit a packet. If the connection stands, the network takes every
  -- packet, and the echoes of the lines come back, however they are cut into chunks, then the program sends each line once and shows each echo, in their
  -- order, closes the socket once, and ends with exit code 0.
  pub run_echo_lem :
      (address : List ℕ) (arguments lines chunks : List (List ℕ))
      → All IsLine lines
      → flatten chunks ≡ echoes lines
      → (buffer : List ℕ) × (run_echo network
            (address ∷ arguments)
            (established socket)
            lines
            (arrivals chunks)
          ≡ ok (
            some 0,
            ended
                (record new_client {
                  log = sends socket lines;
                  packet_buffer = buffer;
                  closed = socket ∷ [];
                })
                (((connect_text address port ++ opening) ++ shown lines) ++ farewell),
          ))
  unfolding run_echo connect exit_code disconnect stop_receiving
  run_echo_lem address arguments lines chunks h e =
      let client : Client = record new_client { socket = some socket; connected = true } in
      let (buffer, run) =
        echo_lines_lem lines chunks client (connect_text address port ++ opening) h refl refl e in
      (buffer, ap (λ x. x >>= λ e. ok (exit_code e, e)) run)
