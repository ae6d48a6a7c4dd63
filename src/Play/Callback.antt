-- ===== src/Play/Callback.antt =====
-- The whole callback of src/server/game_server.cpp and what a client then shows.
use cpptcpmultiplayer.Prelude.{
  ℕ, ◌+◌, ◌^◌, ◌<◌, ◌≡◌, refl, sym, ap, ◌∙◌, inl, inr, false, not, List, [], ◌∷◌, arith, ◌==◌,
  ==_refl, Bool-cases, Option-cases, length, if-elim,
}
use cpptcpmultiplayer.Bytes.{IsU32}
use mathlib.Core.Path.{subst}
use cpptcpmultiplayer.Prelude.Maps.{find, contains}
use cpptcpmultiplayer.Packet.{Packet}
use cpptcpmultiplayer.Packet.MessageType
use cpptcpmultiplayer.Serialization.Chat.{ChatMessage, create_chat_message_packet}
use cpptcpmultiplayer.ConnectionManager.{get_connection}
use cpptcpmultiplayer.Server.{Network, Sent, sent_bytes}
use cpptcpmultiplayer.Server.Mail.{Owns, Tells, Tells-none, broadcast-Tells}
use cpptcpmultiplayer.GameState.{GameState, submit_vote, get_all_player_states}
use cpptcpmultiplayer.GameState.Round.{Random}
use cpptcpmultiplayer.GameState.Range.{submit_vote-players}
use cpptcpmultiplayer.GameState.Invariant.{IsValid, submit_vote-IsValid}
use cpptcpmultiplayer.GameServer.{World}
use cpptcpmultiplayer.GameServer.Text.{trim_back, is_vote_command, vote_target_name, find_target}
use cpptcpmultiplayer.GameServer.Ballot.{everybody_voted}
use cpptcpmultiplayer.GameServer.Handlers.{
  handle_join, handle_vote, handle_chat, handle_packet, chat_username,
}
use cpptcpmultiplayer.GameClient.{GameClient}
use cpptcpmultiplayer.Play.{bar_entry, Shows, Hears-none, Reaches, Reaches-none}
use cpptcpmultiplayer.Play.Packets.{create_chat_message_packet-IsQuiet, Hears-quiet}
use cpptcpmultiplayer.Prelude.Maps.Every.{Every}
use cpptcpmultiplayer.Play.Ranges.{Ranged, IsRanged}
use cpptcpmultiplayer.Play.Rounds.{finish_round-Reaches}
use cpptcpmultiplayer.Play.Handlers.{handle_join-Reaches, join_refused, handle_leave-Reaches}

module _ (network : Network)
    (delivers : (log : List Sent) (socket : ℕ) (bytes : List ℕ)
      → network log socket bytes ≡ sent_bytes (length bytes))
    (random : ℕ → Random) (id socket : ℕ) where
  Shows-submit_vote :
      (voter target : ℕ) (g : GameState) (c : GameClient)
      → Shows g c
      → Shows (submit_vote voter target g).0 c
  Shows-submit_vote voter target g c s = record {
    entries = λ k.
        s.entries k
        ∙ ap (λ m. bar_entry (find k m)) (sym (submit_vote-players (λ _ _. Unit) voter target g));
    ascending = s.ascending;
  }

  IsRanged-submit_vote :
      (n voter target : ℕ) (g : GameState)
      → IsRanged n g
      → IsRanged n (submit_vote voter target g).0
  IsRanged-submit_vote n voter target g r =
      let same = sym (submit_vote-players (λ _ _. Unit) voter target g) in
      record {
        players = subst (Every (Ranged n)) same r.players;
        count = subst (λ m. IsU32 (length m + 1)) same r.count;
      }

  handle_vote-Reaches :
      (n client_id : ℕ) (message : List ℕ) (w : World) (c : GameClient)
      → IsValid w.game
      → IsRanged n w.game
      → n + 2 < 2 ^ 31
      → Owns id socket w.server.connections
      → Shows w.game c
      → Reaches socket w (handle_vote network random message client_id w) c
  unfolding handle_vote
  handle_vote-Reaches n client_id message w c v r h o s =
      let T : World → Type 0 = λ u. Reaches socket w u c in
      let target = find_target (vote_target_name message) (get_all_player_states w.game) in
      let g = (submit_vote client_id target w.game).0 in
      let voted : World = record w { game = g } in
      if-elim T (not w.game.round_active) _ _ (λ _. Reaches-none w c s)
        λ _.
          if-elim T (target == 0) _ _ (λ _. Reaches-none w c s)
            λ _.
              if-elim T (not (submit_vote client_id target w.game).1) _ _ (λ _. Reaches-none w c s)
                λ _.
                  if-elim T (everybody_voted g) _ _
                    (λ _. from_voted w voted c refl (
                      finish_round-Reaches network delivers random id socket n voted c
                        (submit_vote-IsValid client_id target w.game v)
                        (IsRanged-submit_vote n client_id target w.game r) h o))
                    (λ _. record {
                      packets = [];
                      tells = Tells-none w.server;
                      hears = Hears-none g c (Shows-submit_vote client_id target w.game c s);
                    })
    where
      from_voted :
          (a b : World) {u : World} (d : GameClient)
          → a.server ≡ b.server
          → Reaches socket b u d
          → Reaches socket a u d
      from_voted a b {u} d e x = record {
        packets = x.packets;
        tells = subst (λ t. Tells socket x.packets t u.server) (sym e) x.tells;
        hears = x.hears;
      }

  handle_chat-Reaches :
      (n client_id : ℕ) (packet : Packet) (w : World) (c : GameClient)
      → IsValid w.game
      → IsRanged n w.game
      → n + 2 < 2 ^ 31
      → Owns id socket w.server.connections
      → Shows w.game c
      → Reaches socket w (handle_chat network random packet client_id w) c
  unfolding handle_chat
  handle_chat-Reaches n client_id packet w c v r h o s =
      elim (Option-cases (get_connection client_id w.server.connections)) [
        | inl e ↦ rw (e, handle_chat) (Reaches-none w c s)
        | inr (info, e) ↦
            let message = trim_back packet.payload in
            let chat : ChatMessage = record {
              sender_id = client_id;
              sender_username = chat_username network random client_id info w.game;
              sender_message = message;
            } in
            rw (e, handle_chat)
              (if-elim (λ u. Reaches socket w u c) (is_vote_command message) _ _
                (λ _. handle_vote-Reaches n client_id message w c v r h o s)
                (λ _. record {
                  packets = create_chat_message_packet chat ∷ [];
                  tells =
                      broadcast-Tells network delivers id socket (create_chat_message_packet chat)
                        w.server o;
                  hears = Hears-quiet w.game _ c (create_chat_message_packet-IsQuiet chat, tt) s;
                }))
      ]

  any_join :
      (n client_id : ℕ) (packet : Packet) (w : World) (c : GameClient)
      → IsValid w.game
      → IsRanged n w.game
      → IsU32 client_id
      → IsU32 (length packet.payload)
      → Owns id socket w.server.connections
      → Shows w.game c
      → Reaches socket w (handle_join network random packet client_id w) c
  any_join n client_id packet w c v r fits named o s =
      elim (Bool-cases (contains client_id w.game.players)) [
        | inl q ↦
            subst (λ u. Reaches socket w u c)
              (sym (join_refused network delivers random id socket client_id packet w q))
              (Reaches-none w c s)
        | inr q ↦
            handle_join-Reaches network delivers random id socket n client_id packet w c v r q fits
              named o (λ _. s)
      ]

  -- Take a well-formed game whose players have fields in the range of their types, with scores from 0 to
  -- n, two points or more below the largest int, and a network that takes every packet. The number of the
  -- players and one more, the id of a sender and the length of what it sends fit a uint32_t. A client with
  -- an active connection, an id that is once in the table and a socket of its own shows the game. Then
  -- whatever packet the sender sends, the packets that the callback sends to the client's socket are such
  -- that the client, after it has handled them in their order, shows the game as it is then: exactly its
  -- players, with their names and scores, in the order of their ids.
  pub handle_packet-Reaches :
      (n client_id : ℕ) (packet : Packet) (w : World) (c : GameClient)
      → IsValid w.game
      → IsRanged n w.game
      → n + 2 < 2 ^ 31
      → IsU32 client_id
      → IsU32 (length packet.payload)
      → Owns id socket w.server.connections
      → Shows w.game c
      → Reaches socket w (handle_packet network random packet client_id w) c
  unfolding handle_packet
  handle_packet-Reaches n client_id packet w c v r h fits named o s =
      let T : World → Type 0 = λ u. Reaches socket w u c in
      let type = packet.header.type in
      if-elim T (type == MessageType.player_join) _ _
        (λ _. any_join n client_id packet w c v r fits named o s)
        λ _.
          if-elim T (type == MessageType.chat_message) _ _
            (λ _. handle_chat-Reaches n client_id packet w c v r h o s)
            λ _.
              if-elim T (type == MessageType.player_leave) _ _
                (λ _.
                  handle_leave-Reaches network delivers random id socket n client_id w c v r o s)
                (λ _. Reaches-none w c s)

  -- Take a well-formed game whose players have fields in the range of their types, with scores that are
  -- not negative, and a network that takes every packet. The number of the players and one more, the id of
  -- a client and the length of its packet fit a uint32_t; the client has an active connection and a socket
  -- of its own, and is not a player. When it joins, the packets that it is sent are such that the client,
  -- after it has handled them in their order, shows the game as it is then, whatever it showed before.
  pub join-Reaches :
      (n : ℕ) (packet : Packet) (w : World) (c : GameClient)
      → IsValid w.game
      → IsRanged n w.game
      → contains id w.game.players ≡ false
      → IsU32 id
      → IsU32 (length packet.payload)
      → Owns id socket w.server.connections
      → Reaches socket w (handle_join network random packet id w) c
  join-Reaches n packet w c v r new fits named o =
      handle_join-Reaches network delivers random id socket n id packet w c v r new fits named o
        (λ q. absurd (ground (arith, ==_refl id)))
