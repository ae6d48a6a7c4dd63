-- ===== src/Play/Vote.antt =====
-- A vote from the keyboard of src/client/game_client.cpp to the game of src/server/game_server.cpp.
use cpptcpmultiplayer.Prelude.{
  ℕ, ◌≡◌, refl, sym, ap, ◌∙◌, true, false, some, List, [], ◌∷◌, ◌++◌, append-nil, arith, ◌==◌,
  if◌then◌else◌, All, length-append, ok,
}
use mathlib.Core.List.{flatten}
use mathlib.Core.Path.{subst}
use cpptcpmultiplayer.Prelude.Maps.{find, contains, insert}
use cpptcpmultiplayer.Prelude.Maps.Every.{Every}
use cpptcpmultiplayer.Packet.{Packet, make_packet}
use cpptcpmultiplayer.Packet.Framing.{Fits}
use cpptcpmultiplayer.Packet.MessageType
use cpptcpmultiplayer.PlayerState.{PlayerState}
use cpptcpmultiplayer.ConnectionManager.{ConnectionInfo, get_connection}
use cpptcpmultiplayer.MessageQueue.{push}
use cpptcpmultiplayer.Server.{Network}
use cpptcpmultiplayer.Server.Stream.{receive_chunks}
use cpptcpmultiplayer.Server.Stream.Frames.{receive_chunks-wires}
use cpptcpmultiplayer.GameState.{get_all_player_states}
use cpptcpmultiplayer.GameState.Round.{Random}
use cpptcpmultiplayer.GameState.Invariant.{IsValid}
use cpptcpmultiplayer.GameServer.{World}
use cpptcpmultiplayer.GameServer.Text.{vote_prefix, is_vote_command, vote_target_name, find_target}
use cpptcpmultiplayer.GameServer.Text.Commands.{
  IsSpace, IsBlank, IsName, vote_message, trim_back-vote_message, vote_message-is_vote_command,
  vote_target_name-vote_message, find_target-one,
}
use cpptcpmultiplayer.GameServer.Ballot.{everybody_voted, finish_round}
use cpptcpmultiplayer.GameServer.Handlers.{handle_packet}
use cpptcpmultiplayer.GameServer.Handlers.Votes.{IsBallot, voted_target, ballot_round, vote_first}
use cpptcpmultiplayer.GameServer.Session.{deliver}
use cpptcpmultiplayer.Client.{Client}
use cpptcpmultiplayer.GameClient.Typing.{Line, is_enter, handle_keys}
use cpptcpmultiplayer.GameClient.Typing.Lines.{IsPrintable, chat_sent, typed_end, handle_keys_lem}

-- A player with a connection, who has not voted in the round, and the only player of a name.
pub record MayVoteFor (w : World) (voter target : ℕ) (name : List ℕ) : Type 0 where
  pub round_on : w.game.round_active ≡ true
  pub info : ConnectionInfo
  pub connected : get_connection voter w.server.connections ≡ some info
  pub plays : contains voter w.game.players ≡ true
  pub not_yet : contains voter w.game.votes ≡ false
  pub state : PlayerState
  pub there : find target w.game.players ≡ some state
  pub named : state.username ≡ name
  pub only : Every (λ k p. p.username ≡ name → k ≡ target) w.game.players
  pub somebody : (target == 0) ≡ false

abbrev pub chat_packet : List ℕ → Packet
chat_packet text = make_packet MessageType.chat_message text

module _ (network : Network) (random : ℕ → Random) where
  -- The world with the vote, and what follows.
  abbrev pub counted : ℕ → ℕ → World → World
  counted voter target w =
      let voted : World = record w {
        game = record w.game { votes = insert voter target w.game.votes };
      } in
      if everybody_voted voted.game then finish_round network random voted else voted

  module _ (spaces letters : List ℕ) (last : ℕ) (blanks : List ℕ) (name : IsName letters last)
      (front : All IsSpace spaces) (back : All IsBlank blanks) where
    abbrev text : List ℕ
    text = vote_message spaces letters last blanks

    abbrev vote_packet : Packet
    vote_packet = chat_packet text

    vote_packet-target :
        (w : World) (voter target : ℕ)
        → IsValid w.game
        → MayVoteFor w voter target (letters ++ (last ∷ []))
        → voted_target vote_packet w.game ≡ target
    unfolding make_packet get_all_player_states
    vote_packet-target w voter target v m =
        ap (λ s. find_target (vote_target_name s) (get_all_player_states w.game))
          (trim_back-vote_message spaces letters last blanks name front back)
        ∙ ap (λ s. find_target s (get_all_player_states w.game))
            (vote_target_name-vote_message spaces letters last blanks name front back)
        ∙ find_target-one (letters ++ (last ∷ [])) target m.state w.game.players v.ids m.only
            m.there m.named

    vote_packet-IsBallot :
        (w : World) (voter target : ℕ)
        → IsValid w.game
        → MayVoteFor w voter target (letters ++ (last ∷ []))
        → IsBallot w voter vote_packet
    vote_packet-IsBallot w voter target v m =
        let same = sym (vote_packet-target w voter target v m) in
        record {
          info = m.info;
          connected = m.connected;
          chat = unfold make_packet in refl;
          command =
              unfold make_packet in
              (ap is_vote_command
                  (trim_back-vote_message spaces letters last blanks name front back)
                ∙ vote_message-is_vote_command spaces letters last blanks name front back);
          plays = m.plays;
          names =
              subst (λ t. contains t w.game.players ≡ true) same (unfold contains in rw m.there);
          not_nobody = subst (λ t. (t == 0) ≡ false) same m.somebody;
        }

    -- The callback on the command.
    vote_packet-counted :
        (w : World) (voter target : ℕ)
        → IsValid w.game
        → MayVoteFor w voter target (letters ++ (last ∷ []))
        → handle_packet network random vote_packet voter w ≡ counted voter target w
    vote_packet-counted w voter target v m =
        let ballot = vote_packet-IsBallot w voter target v m in
        ballot_round network random voter vote_packet w m.round_on ballot
        ∙ vote_first network random voter vote_packet w m.round_on ballot m.not_yet
        ∙ ap (λ t. counted voter t w) (vote_packet-target w voter target v m)

    -- A player at the keyboard of a connected client types, on an empty line, "/vote ", spaces, a name,
    -- blanks that the keyboard can give, and Enter. Then the client hands exactly one packet to `send`; and
    -- however its bytes reach the server of a well-formed game, where a round is on, the player has not
    -- voted and the name is that of exactly one player, the packet is queued and the vote for that player
    -- is stored, and if everybody has voted now, the round is finished.
    pub typed_vote-counted :
        (key socket own_socket voter target : ℕ) (line : Line) (c : Client) (w : World)
        (chunks : List (List ℕ))
        → All IsPrintable text
        → Fits MessageType.chat_message text
        → is_enter key ≡ true
        → line.chat_buffer ≡ []
        → c.connected ≡ true
        → c.socket ≡ some own_socket
        → IsValid w.game
        → MayVoteFor w voter target (letters ++ (last ∷ []))
        → flatten chunks ≡ (chat_sent own_socket text).bytes
        → let queued : World = record w {
          server = record w.server { message_queue = push vote_packet w.server.message_queue };
        } in
          (handle_keys network (text ++ (key ∷ [])) line c ≡ (
            typed_end network own_socket text line,
            record c { log = c.log ++ (chat_sent own_socket text ∷ []) },
          ))
          × (receive_chunks (deliver network random voter socket) [] chunks w
              ≡ ok ([], counted voter target queued))
    typed_vote-counted key socket own_socket voter target line c w chunks keys fits enter empty on
          has v m e =
        let queued : World = record w {
          server = record w.server { message_queue = push vote_packet w.server.message_queue };
        } in
        let m' : MayVoteFor queued voter target (letters ++ (last ∷ [])) = record {
          round_on = m.round_on;
          info = m.info;
          connected = m.connected;
          plays = m.plays;
          not_yet = m.not_yet;
          state = m.state;
          there = m.there;
          named = m.named;
          only = m.only;
          somebody = m.somebody;
        } in
        (
          handle_keys_lem network own_socket text key line c keys
                (omega (arith, length-append (vote_prefix ++ (spaces ++ letters)) (last ∷ blanks)))
                enter on has
              ∙ ap
                  (λ b. (
                    typed_end network own_socket text line,
                    record c { log = c.log ++ (chat_sent own_socket (b ++ text) ∷ []) },
                  ))
                  empty,
          receive_chunks-wires (deliver network random voter socket)
                ((MessageType.chat_message, text) ∷ []) chunks w ((fits, omega arith), tt)
                (e ∙ sym (append-nil (chat_sent own_socket text).bytes))
              ∙ ap (λ u. ok ([], u)) (vote_packet-counted queued voter target v m'),
        )
