-- ===== src/GameClient/Runs.antt =====
-- A line that is typed in src/client/game_client.cpp.
use cpptcpmultiplayer.Prelude.{◌≡◌, refl, true, some, [], ◌∷◌, ◌++◌, arith}
use cpptcpmultiplayer.Client.{Client, new_client}
use cpptcpmultiplayer.Server.Sample.{reliable}
use cpptcpmultiplayer.GameClient.Typing.{Line, is_enter, handle_keys}
use cpptcpmultiplayer.GameClient.Typing.Lines.{IsPrintable, chat_sent, typed_end, handle_keys_lem}

abbrev client : Client
client = record new_client { socket = some 5; connected = true }

-- One letter was typed already.
abbrev begun : Line
begun = record { chat_buffer = 111 ∷ []; echoed = 111 ∷ [] }

k-IsPrintable : IsPrintable 107
k-IsPrintable = refl

enter_13 : is_enter 13 ≡ true
enter_13 = refl

handle_keys_lem_example : handle_keys reliable ((107 ∷ []) ++ (13 ∷ [])) begun client ≡ (
  typed_end reliable 5 (107 ∷ []) begun,
  record client { log = client.log ++ (chat_sent 5 (begun.chat_buffer ++ (107 ∷ [])) ∷ []) },
)
handle_keys_lem_example =
    handle_keys_lem reliable 5 (107 ∷ []) 13 begun client (k-IsPrintable, tt) (omega arith) enter_13
      refl refl
