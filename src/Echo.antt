-- ===== src/Echo.antt =====
-- The echo programs: src/server/echo_server.cpp and src/client/echo_client.cpp. The console's output of
-- the client is the list of its bytes, and its input the list of the lines.
pub mod Lines
mod Runs
use cpptcpmultiplayer.Prelude.{
  ℕ, zero, suc, ◌+◌, ◌-◌, ◌*◌, ◌/◌, ◌%◌, ◌^◌, ◌≤◌, ◌<◌, ◌≡◌, refl, sym, ap, ◌∙◌, ◌≢◌, ◌↔◌, ◌⊎◌, inl,
  inr, Bool, true, false, not, ◌&&◌, ◌||◌, Option, none, some, List, [], ◌∷◌, ◌++◌, map, append-nil,
  append_assoc, arith, ltb, leb, ◌==◌, if◌then◌else◌, ltb→lt, ltb→ge, lt→ltb, ge→ltb, le→leb,
  gt→leb, leb→le, leb→gt, ==_refl, ==_iff, Bool-cases, Bool-ext, Option-cases, length, get_or, drop,
  take, All, length-append, length-drop, nil_of_length, length-take_le, take-append_le, take-append,
  drop-append, drop-append_le, drop-drop, All-append, Result, ok, fault, stuck, ◌>>=◌, Returns,
  Returns-value, >>=-Returns, if-Returns, drop-append_add, if-elim, is_nil, equal_bytes,
  equal_bytes→eq, equal_bytes_refl,
}
use cpptcpmultiplayer.Bytes.{
  IsU32, IsU16, IsByte, be32, be16, to_u32, read_u32, read_u16, read_bytes, load_u32, load_u16,
  load_bytes, load_u32-Returns, load_u16-Returns, load_bytes-Returns, read_u32-be32, read_u16-be16,
  read_bytes-append, read_bytes-take, load_u32_at, load_bytes_at, load_length_at,
}
use cpptcpmultiplayer.Prelude.Text.{codes}
use cpptcpmultiplayer.Packet.{Packet, make_packet}
use cpptcpmultiplayer.Packet.MessageType
use cpptcpmultiplayer.Server.{Network, Server, broadcast}
use cpptcpmultiplayer.Client.{
  Client, Arrival, Reception, returned, blocked, new_client, Attempt, connect, connect_text,
  send_packet, receive_packet, disconnect, disconnect_text,
}

-- The packet callback of the server.
unfoldable pub echo_packet : Network → Packet → ℕ → Server → Server
echo_packet network packet client_id s = broadcast network packet s

-- `exitCommands`, and the loop over them.
abbrev pub exit_commands : List (List ℕ)
exit_commands = codes "exit" ∷ codes "quit" ∷ codes "end" ∷ codes "e" ∷ codes "q" ∷ []

unfoldable pub is_command : List ℕ → List (List ℕ) → Bool
unfolding equal_bytes
is_command input [] = false
is_command input (command ∷ commands) = equal_bytes input command || is_command input commands

-- Where the client stands when the given lines and arrivals are used up: it waits for an echo, or the
-- program has ended, with the client and the output.
pub data EchoClient : Type 0 where
  waiting ended : Client → List ℕ → EchoClient

unfoldable pub finish : Client → List ℕ → EchoClient
finish c screen = ended (disconnect c) (screen ++ disconnect_text c)

-- What follows the call of `receivePacket`.
unfoldable pub show_echo :
    (List Arrival → Client → List ℕ → Result EchoClient) → List ℕ → Reception → Result EchoClient
unfolding finish
show_echo go_on screen (blocked c) = ok (waiting c screen)
show_echo go_on screen (returned (some packet) true more c) =
    go_on more c (screen ++ (codes "Echo: " ++ (packet.payload ++ (10 ∷ []))))
show_echo go_on screen (returned packet done more c) =
    ok (finish c (screen ++ (codes "Server disconnected" ++ (10 ∷ []))))

module _ (network : Network) where
  -- The loop of `main`.
  unfoldable pub echo_lines : List (List ℕ) → List Arrival → Client → List ℕ → Result EchoClient
  unfolding is_command show_echo
  echo_lines [] arrivals c screen = ok (finish c screen)
  echo_lines (input ∷ lines) arrivals c screen =
      if not c.connected
      then ok (finish c screen)
      else if is_command input exit_commands
      then ok (finish c (screen ++ (codes "Disconnecting from server..." ++ (10 ∷ []))))
      else let sent = send_packet network (make_packet MessageType.echo input) c in
        if not sent.1
        then ok (finish c screen)
        else receive_packet arrivals sent.0 >>= λ o. show_echo (echo_lines lines) screen o

abbrev pub port : ℕ
port = 8000

-- What `main` writes before the first line.
abbrev pub opening : List ℕ
opening = codes "Disconnect with 'exit', 'quit', 'end', 'e', or 'q'" ++ (10 ∷ 10 ∷ [])

-- `none` while the client waits for an echo.
unfoldable pub exit_code : EchoClient → Option ℕ
exit_code (waiting c screen) = none
exit_code (ended c screen) = some 0

-- `main` with its arguments after the name of the program, the calls of the system in `connect`, and the
-- lines and arrivals.
unfoldable pub run_echo :
    Network
    → List (List ℕ)
    → Attempt
    → List (List ℕ)
    → List Arrival
    → Result (Option ℕ × EchoClient)
unfolding echo_lines exit_code connect
run_echo network [] attempt lines arrivals = ok (some 1, ended new_client [])
run_echo network (address ∷ arguments) attempt lines arrivals =
    let connected = connect attempt new_client in
    if not connected.1
    then ok (some 1, ended connected.0 [])
    else echo_lines network lines arrivals connected.0 (connect_text address port ++ opening)
      >>= λ e. ok (exit_code e, e)
