-- ===== src/Echo/Runs.antt =====
-- A client of src/client/echo_client.cpp that sends two lines.
use cpptcpmultiplayer.Prelude.{
  ℕ, ◌≡◌, refl, true, some, List, [], ◌∷◌, ◌++◌, arith, All, ok, equal_bytes,
}
use mathlib.Core.List.{flatten}
use cpptcpmultiplayer.Prelude.Text.{codes}
use cpptcpmultiplayer.Server.Sample
use cpptcpmultiplayer.Client.{
  connect_text, Client, new_client, disconnect, established, disconnect_text,
}
use cpptcpmultiplayer.Client.Receive.{arrivals}
use cpptcpmultiplayer.Packet.{serialize, make_packet}
use cpptcpmultiplayer.Echo.{ended, is_command, finish, echo_lines, opening, port, run_echo}
use cpptcpmultiplayer.Echo.Lines.{IsLine, echoes, sends, shown, farewell, run_echo_lem}

abbrev client : Client
client = record new_client { socket = some 5; connected = true }

abbrev lines : List (List ℕ)
lines = codes "hi" ∷ codes "you" ∷ []

lines-IsLine : All IsLine lines
unfolding is_command equal_bytes
lines-IsLine = (
  record {
    no_command = refl;
    fits = record { type_fits = omega arith; length_fits = omega arith };
  },
  (
    record {
      no_command = refl;
      fits = record { type_fits = omega arith; length_fits = omega arith };
    },
    tt,
  ),
)

-- The two echoes in three chunks.
abbrev chunks : List (List ℕ)
chunks =
    (0 ∷ 0 ∷ 0 ∷ [])
    ∷ (8 ∷ 0 ∷ 1 ∷ 104 ∷ 105 ∷ 0 ∷ [])
    ∷ (0 ∷ 0 ∷ 9 ∷ 0 ∷ 1 ∷ 121 ∷ 111 ∷ 117 ∷ [])
    ∷ []

chunks-echoes : flatten chunks ≡ echoes lines
unfolding flatten serialize make_packet
chunks-echoes = refl

run_echo_lem_example :
    (buffer : List ℕ) × (run_echo Sample.reliable
        (codes "127.0.0.1" ∷ [])
        (established 5)
        lines
        (arrivals chunks)
      ≡ ok (
        some 0,
        ended
            (record new_client { log = sends 5 lines; packet_buffer = buffer; closed = 5 ∷ [] })
            (((connect_text (codes "127.0.0.1") port ++ opening) ++ shown lines) ++ farewell),
      ))
run_echo_lem_example =
    run_echo_lem Sample.reliable 5 (λ log s bytes. refl) (codes "127.0.0.1") [] lines chunks
      lines-IsLine chunks-echoes

-- A line that is a command ends the program.
quits :
    echo_lines Sample.reliable (codes "quit" ∷ codes "hi" ∷ []) [] client []
    ≡ ok (
        ended (disconnect client) ((codes "Disconnecting from server..." ++ (10 ∷ [])) ++ farewell))
unfolding echo_lines finish is_command equal_bytes disconnect_text
quits = refl
