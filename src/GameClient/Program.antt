-- ===== src/GameClient/Program.antt =====
-- `main` of src/client/game_client.cpp: the thread that reads the keys, and the one that receives.
pub mod Threads
pub mod Ends
use cpptcpmultiplayer.Prelude.{
  ℕ, zero, suc, ◌+◌, ◌-◌, ◌*◌, ◌/◌, ◌%◌, ◌^◌, ◌≤◌, ◌<◌, ◌≡◌, refl, sym, ap, ◌∙◌, ◌≢◌, ◌↔◌, ◌⊎◌, inl,
  inr, Bool, true, false, not, ◌&&◌, ◌||◌, Option, none, some, List, [], ◌∷◌, ◌++◌, map, append-nil,
  append_assoc, arith, ltb, leb, ◌==◌, if◌then◌else◌, ltb→lt, ltb→ge, lt→ltb, ge→ltb, le→leb,
  gt→leb, leb→le, leb→gt, ==_refl, ==_iff, Bool-cases, Bool-ext, Option-cases, length, get_or, drop,
  take, All, length-append, length-drop, nil_of_length, length-take_le, take-append_le, take-append,
  drop-append, drop-append_le, drop-drop, All-append, Result, ok, fault, stuck, ◌>>=◌, Returns,
  Returns-value, >>=-Returns, if-Returns, drop-append_add, if-elim, is_nil, equal_bytes,
  equal_bytes→eq, equal_bytes_refl,
}
use cpptcpmultiplayer.Bytes.{
  IsU32, IsU16, IsByte, be32, be16, to_u32, read_u32, read_u16, read_bytes, load_u32, load_u16,
  load_bytes, load_u32-Returns, load_u16-Returns, load_bytes-Returns, read_u32-be32, read_u16-be16,
  read_bytes-append, read_bytes-take, load_u32_at, load_bytes_at, load_length_at,
}
use cpptcpmultiplayer.Prelude.Text.{codes}
use cpptcpmultiplayer.Server.{Network}
use cpptcpmultiplayer.Client.{
  connect_text, Client, new_client, Attempt, connect, start_receiving, stop_receiving, disconnect,
  disconnect_text, Arrival, receiving_thread,
}
use cpptcpmultiplayer.GameClient.{GameClient, new_game_client}
use cpptcpmultiplayer.GameClient.Screen.{endl}
use cpptcpmultiplayer.GameClient.Handlers.{handle_server_packet}
use cpptcpmultiplayer.GameClient.Typing.{Line, handle_key, join}

-- What the threads work on. The callback of the receiving thread writes to `game.screen`, and `main` to
-- `line.echoed`.
pub record Program : Type 0 where
  pub client : Client
  pub game : GameClient
  pub line : Line

-- A key, or what `recv` gives the receiving thread.
pub data Event : Type 0 where
  pressed : ℕ → Event
  received : Arrival → Event

-- `main` writes a text.
abbrev pub print : List ℕ → Line → Line
print text line = record line { echoed = line.echoed ++ text }

abbrev pub port : ℕ
port = 8000

abbrev pub greeting : List ℕ
greeting =
    codes "Connected to game server!" ++ (endl ++ (codes "Waiting for game state..." ++ endl))

abbrev pub sending : List ℕ → List ℕ
sending username = codes "Sending PLAYER_JOIN packet with username: " ++ (username ++ endl)

abbrev pub joined_text : List ℕ
joined_text = codes "PLAYER_JOIN packet sent successfully" ++ endl

abbrev pub goodbye : List ℕ
goodbye = codes "Disconnected from server" ++ endl

abbrev pub new_program : Program
new_program = record {
  client = new_client;
  game = new_game_client;
  line = record { chat_buffer = []; echoed = [] };
}

-- `(argc >= 3) ? argv[2] : "Player"`, from what follows the address.
unfoldable pub username_of : List (List ℕ) → List ℕ
username_of [] = codes "Player"
username_of (username ∷ more) = username

-- After the loop: `none` if it goes on, or what `main` returns. `disconnect` writes nothing here, since the
-- client is not connected.
unfoldable pub finish : Program → Option ℕ × Program
unfolding disconnect stop_receiving
finish p = if p.client.connected then (none, p) else (
  some 0,
  record p { client = disconnect (stop_receiving p.client); line = print goodbye p.line },
)

module _ (network : Network) (fuel : ℕ) where
  -- The loop takes a key only if the client is connected. The receiving thread has `fuel` rounds for what
  -- arrives at once.
  unfoldable pub handle_event : Event → Program → Result Program
  unfolding handle_key
  handle_event (pressed key) p =
      if p.client.connected
      then (let next = handle_key network key p.line p.client in
          ok (record p { client = next.1; line = next.0 }))
      else ok p
  handle_event (received arrival) p =
      receiving_thread handle_server_packet fuel (arrival ∷ []) p.client p.game >>= λ r.
      ok (record p { client = r.0; game = r.1 })

  unfoldable pub handle_events : List Event → Program → Result Program
  handle_events [] p = ok p
  handle_events (event ∷ events) p = handle_event event p >>= λ q. handle_events events q

  -- `main`, once the connection stands: what arrives in the pause, PLAYER_JOIN, and the loop.
  unfoldable pub play : List ℕ → List Arrival → List Event → Program → Result (Option ℕ × Program)
  unfolding finish
  play username early events p = do
    q ← handle_events (map received early) p
    let joined = join network username q.client in
        let line = print (sending username) q.line in
        if not joined.1
        then ok (
          some 1,
          record q { client = disconnect joined.0; line = print (disconnect_text joined.0) line },
        )
        else (do
          r ← handle_events events (record q { client = joined.0; line = print joined_text line })
          ok (finish r))

  -- `main` with its arguments after the name of the program, the calls of the system in `connect`, and what
  -- arrives before PLAYER_JOIN is sent. `some` is the exit code; `none` if the loop waits for more events.
  unfoldable pub run :
      List (List ℕ) → Attempt → List Arrival → List Event → Result (Option ℕ × Program)
  unfolding play connect start_receiving username_of
  run [] attempt early events = ok (some 1, new_program)
  run (address ∷ arguments) attempt early events =
      let connected = connect attempt new_client in
      if not connected.1
      then ok (some 1, record new_program { client = connected.0 })
      else play (username_of arguments) early events (record new_program {
        client = start_receiving connected.0;
        line = print greeting (print (connect_text address port) new_program.line);
      })
