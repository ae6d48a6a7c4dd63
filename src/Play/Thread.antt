-- ===== src/Play/Thread.antt =====
-- The receiving thread of src/client/client.cpp with the callback of src/client/game_client.cpp.
use cpptcpmultiplayer.Prelude.{
  ℕ, ◌<◌, ◌≡◌, refl, ap, ◌∙◌, true, List, [], ◌∷◌, ◌++◌, length, All, Result, ok, fault, stuck,
  ◌>>=◌,
}
use mathlib.Core.List.{flatten}
use cpptcpmultiplayer.Packet.{Packet, make_packet}
use cpptcpmultiplayer.Server.Stream.Frames.{wires, IsMessage}
use cpptcpmultiplayer.GameState.{GameState}
use cpptcpmultiplayer.Client.{Client, receiving_thread}
use cpptcpmultiplayer.Client.Receive.{arrivals}
use cpptcpmultiplayer.Client.Thread.{call_all, receiving_thread_lem}
use cpptcpmultiplayer.GameClient.{GameClient}
use cpptcpmultiplayer.GameClient.Handlers.{handle_server_packet, handle_server_packets}
use cpptcpmultiplayer.Play.{Shows, Hears}

-- The packets of these types and payloads.
abbrev pub made : List (ℕ × List ℕ) → List Packet
made [] = []
made ((type, payload) ∷ ps) = make_packet type payload ∷ made ps

then_same :
    (r : Result GameClient) (f g : GameClient → Result GameClient)
    → ((d : GameClient) → f d ≡ g d)
    → (r >>= f) ≡ (r >>= g)
then_same (ok d) f g h = h d
then_same fault f g h = refl
then_same stuck f g h = refl

call_all-made :
    (ps : List (ℕ × List ℕ)) (c : GameClient)
    → call_all handle_server_packet ps c ≡ handle_server_packets (made ps) c
unfolding handle_server_packets
call_all-made [] c = refl
call_all-made ((type, payload) ∷ ps) c =
    then_same (handle_server_packet (make_packet type payload) c) _ _ λ d. call_all-made ps d

-- Take packets whose types are not 0 and whose fields fit their header, after which a client shows a game.
-- When their bytes reach a connected client, in any pieces, then its receiving thread, with more rounds
-- than there are packets, hands them to the callback so that the client shows the game, and waits with an
-- empty buffer.
pub receiving_thread-Shows :
    {g : GameState} (ps : List (ℕ × List ℕ)) (fuel : ℕ) (chunks : List (List ℕ))
    (connection : Client) (c : GameClient)
    → All IsMessage ps
    → length ps < fuel
    → connection.receiving ≡ true
    → connection.connected ≡ true
    → connection.packet_buffer ++ flatten chunks ≡ wires ps
    → Hears g (made ps) c
    → (d : GameClient) × (receiving_thread handle_server_packet fuel (arrivals chunks) connection c
        ≡ ok (record connection { packet_buffer = [] }, d))
      × Shows g d
receiving_thread-Shows ps fuel chunks connection c m h r on e a = (
  a.client,
  receiving_thread_lem handle_server_packet ps fuel chunks connection c m h r on e
      ∙ ap (λ x. x >>= λ t. ok (record connection { packet_buffer = [] }, t))
          (call_all-made ps c ∙ a.handled),
  a.shows,
)
