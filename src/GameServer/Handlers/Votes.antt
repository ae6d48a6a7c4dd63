-- ===== src/GameServer/Handlers/Votes.antt =====
-- The last vote of a round in src/server/game_server.cpp.
use cpptcpmultiplayer.Prelude.{
  ℕ, ◌≡◌, sym, ap, ◌∙◌, ◌⊎◌, inl, inr, Bool, true, false, not, some, List, [], ◌∷◌, arith, ◌==◌,
  if◌then◌else◌, ==_iff, Bool-cases, if-elim,
}
use mathlib.Core.Path.{subst}
use cpptcpmultiplayer.Prelude.Maps.{is_some, contains, insert, find-insert}
use cpptcpmultiplayer.Prelude.Maps.Every.{Every, Every-weaken}
use cpptcpmultiplayer.Packet.{Packet}
use cpptcpmultiplayer.Packet.MessageType
use cpptcpmultiplayer.PlayerState.{PlayerState}
use cpptcpmultiplayer.ConnectionManager.{ConnectionInfo, get_connection}
use cpptcpmultiplayer.Server.{Network}
use cpptcpmultiplayer.GameState.{GameState, submit_vote, get_all_player_states}
use cpptcpmultiplayer.GameState.Round.{Random}
use cpptcpmultiplayer.GameState.Invariant.{IsValid, submit_vote-IsValid}
use cpptcpmultiplayer.GameServer.{World}
use cpptcpmultiplayer.GameServer.Text.{trim_back, is_vote_command, vote_target_name, find_target}
use cpptcpmultiplayer.GameServer.Ballot.{everybody_voted, finish_round}
use cpptcpmultiplayer.GameServer.Handlers.{handle_vote, handle_chat, handle_packet}
use cpptcpmultiplayer.GameServer.Handlers.Rounds.{everybody_voted_lem}

-- The player that a vote command names, and the game with the vote.
abbrev pub voted_target : Packet → GameState → ℕ
voted_target packet g =
    find_target (vote_target_name (trim_back packet.payload)) (get_all_player_states g)

abbrev pub with_vote : ℕ → Packet → GameState → GameState
with_vote id packet g = record g { votes = insert id (voted_target packet g) g.votes }

-- A vote command of a player with a connection that names a player.
pub record IsBallot (w : World) (id : ℕ) (packet : Packet) : Type 0 where
  pub info : ConnectionInfo
  pub connected : get_connection id w.server.connections ≡ some info
  pub chat : packet.header.type ≡ MessageType.chat_message
  pub command : is_vote_command (trim_back packet.payload) ≡ true
  pub plays : contains id w.game.players ≡ true
  pub names : contains (voted_target packet w.game) w.game.players ≡ true
  pub not_nobody : (voted_target packet w.game == 0) ≡ false

-- Some ballot is of this player.
abbrev pub Votes : ℕ → List (ℕ × Packet) → Type 0
Votes k [] = ⊥
Votes k ((id, packet) ∷ ballots) = (id ≡ k) ⊎ Votes k ballots

module _ (network : Network) (random : ℕ → Random) where
  -- With one of the ballots, handled in their order, everybody has voted, and the round is finished.
  pub data Completes : World → List (ℕ × Packet) → Type 0 where
    now :
        {w : World} {id : ℕ} {packet : Packet} {ballots : List (ℕ × Packet)}
        → everybody_voted (with_vote id packet w.game) ≡ true
        → handle_packet network random packet id w
          ≡ finish_round network random (record w { game = with_vote id packet w.game })
        → Completes w ((id, packet) ∷ ballots)
    later :
        {w : World} {id : ℕ} {packet : Packet} {ballots : List (ℕ × Packet)}
        → Completes (handle_packet network random packet id w) ballots
        → Completes w ((id, packet) ∷ ballots)

  -- The callback on a ballot.
  pub ballot_round :
      (id : ℕ) (packet : Packet) (w : World)
      → w.game.round_active ≡ true
      → IsBallot w id packet
      → handle_packet network random packet id w
        ≡ handle_vote network random (trim_back packet.payload) id w
  unfolding handle_packet handle_chat
  ballot_round id packet w on b = ground (arith, b.chat, b.connected, b.command)

  vote_again :
      (id : ℕ) (packet : Packet) (w : World)
      → contains id w.game.votes ≡ true
      → handle_vote network random (trim_back packet.payload) id w ≡ w
  unfolding handle_vote submit_vote
  vote_again id packet w h = ground (arith, h)

  accepted :
      (id target : ℕ) (g : GameState)
      → g.round_active ≡ true
      → contains id g.votes ≡ false
      → contains id g.players ≡ true
      → contains target g.players ≡ true
      → submit_vote id target g ≡ (record g { votes = insert id target g.votes }, true)
  unfolding submit_vote
  accepted id target g on new plays named = ground (arith, on, new, plays, named)

  pub vote_first :
      (id : ℕ) (packet : Packet) (w : World)
      → w.game.round_active ≡ true
      → IsBallot w id packet
      → contains id w.game.votes ≡ false
      → let voted : World = record w { game = with_vote id packet w.game } in
        handle_vote network random (trim_back packet.payload) id w
        ≡ (if everybody_voted voted.game then finish_round network random voted else voted)
  unfolding handle_vote
  vote_first id packet w on b h =
      let voted : World = record w { game = with_vote id packet w.game } in
      let P : World → Type 0 = λ x.
        x ≡ (if everybody_voted voted.game then finish_round network random voted else voted) in
      if-elim P (not w.game.round_active) _ _ (λ q. absurd (ground arith))
        λ _.
          if-elim P (voted_target packet w.game == 0) _ _
            (λ q. absurd (ground (arith, b.not_nobody)))
            λ _.
              ap
                (λ (sub : GameState × Bool).
                  if not sub.1
                  then w
                  else let u : World = record w { game = sub.0 } in
                    if everybody_voted sub.0 then finish_round network random u else u)
                (accepted id (voted_target packet w.game) w.game on h b.plays b.names)

  -- What a voter still has to do.
  abbrev Will : List (ℕ × Packet) → World → ℕ → PlayerState → Type 0
  Will ballots w k p = (contains k w.game.votes ≡ true) ⊎ Votes k ballots

  abbrev pub Ballots : World → List (ℕ × Packet) → Type 0
  Ballots w [] = Unit
  Ballots w ((id, packet) ∷ ballots) = IsBallot w id packet × Ballots w ballots

  -- A vote changes nothing that makes a ballot.
  Ballots-with_vote :
      (id : ℕ) (packet : Packet) (w : World) (ballots : List (ℕ × Packet))
      → Ballots w ballots
      → Ballots (record w { game = with_vote id packet w.game }) ballots
  unfolding get_all_player_states
  Ballots-with_vote id packet w [] h = tt
  Ballots-with_vote id packet w ((k, p) ∷ ballots) h = (
    record {
      info = h.0.info;
      connected = h.0.connected;
      chat = h.0.chat;
      command = h.0.command;
      plays = h.0.plays;
      names = h.0.names;
      not_nobody = h.0.not_nobody;
    },
    Ballots-with_vote id packet w ballots h.1,
  )

  contains-with_vote :
      (id k : ℕ) (packet : Packet) (g : GameState)
      → (id ≡ k) ⊎ (contains k g.votes ≡ true)
      → contains k (with_vote id packet g).votes ≡ true
  unfolding contains
  contains-with_vote id k packet g (inl e) =
      ap is_some (find-insert k id (voted_target packet g) g.votes) ∙ rw ((==_iff id k).1 e)
  contains-with_vote id k packet g (inr e) =
      ap is_some (find-insert k id (voted_target packet g) g.votes)
      ∙ elim (Bool-cases (id == k)) [ inl q ↦ rw q | inr q ↦ rw q e ]

  -- What the others still have to do after a ballot.
  done :
      (id : ℕ) (packet : Packet) (ballots : List (ℕ × Packet)) (w u : World)
      → ((k : ℕ) → (id ≡ k) ⊎ (contains k w.game.votes ≡ true) → contains k u.game.votes ≡ true)
      → (m : List (ℕ × PlayerState)) → Every (Will ((id, packet) ∷ ballots) w) m
      → Every (Will ballots u) m
  done id packet ballots w u keeps m h = Every-weaken _ (Will ballots u) m (λ k p t. one k t) h
    where
      one :
          (k : ℕ)
          → (contains k w.game.votes ≡ true) ⊎ ((id ≡ k) ⊎ Votes k ballots)
          → (contains k u.game.votes ≡ true) ⊎ Votes k ballots
      one k (inl e) = inl (keeps k (inr e))
      one k (inr (inl e)) = inl (keeps k (inl e))
      one k (inr (inr v)) = inr v

  all_done :
      (w : World)
      → Every (Will [] w) w.game.players
      → Every (λ k _. contains k w.game.votes ≡ true) w.game.players
  all_done w h =
      Every-weaken (Will [] w) _ w.game.players (λ k p t. elim t [ inl e ↦ e | inr v ↦ absurd v ]) h

  -- Take a round of a well-formed game in which somebody has not voted, and packets that are vote commands,
  -- each of a player with a connection and for a player. If for every player who has not voted there is a
  -- packet, then at one of the packets, handled in their order, everybody has voted, and there the round is
  -- finished.
  pub all_vote-Completes :
      (ballots : List (ℕ × Packet)) (w : World)
      → IsValid w.game
      → w.game.round_active ≡ true
      → everybody_voted w.game ≡ false
      → Ballots w ballots
      → Every (λ k _. (contains k w.game.votes ≡ true) ⊎ Votes k ballots) w.game.players
      → Completes w ballots
  all_vote-Completes [] w v on open_yet b h =
      (let full : everybody_voted w.game ≡ true = (everybody_voted_lem w.game v).1 (all_done w h) in
        cc)
  all_vote-Completes ((id, packet) ∷ ballots) w v on open_yet b h =
      let voted : World = record w { game = with_vote id packet w.game } in
      let from_votes = ballot_round id packet w on b.0 in
      elim (Bool-cases (contains id w.game.votes)) [
        | inl q ↦
            let same : handle_packet network random packet id w ≡ w =
              from_votes ∙ vote_again id packet w q in
            let rest =
              all_vote-Completes ballots w v on open_yet b.1
                (done id packet ballots w w (kept q) w.game.players h) in
            later (subst (λ u. Completes u ballots) (sym same) rest)
        | inr q ↦
            let target = voted_target packet w.game in
            let valid : IsValid voted.game =
              subst IsValid (ap (λ r. r.0) (accepted id target w.game on q b.0.plays b.0.names))
                (submit_vote-IsValid id target w.game v) in
            elim (Bool-cases (everybody_voted voted.game)) [
              | inl full ↦ now full (
                  from_votes
                  ∙ vote_first id packet w on b.0 q
                  ∙ ap (λ t. if t then finish_round network random voted else voted) full)
              | inr still ↦
                  let same : handle_packet network random packet id w ≡ voted =
                    from_votes
                    ∙ vote_first id packet w on b.0 q
                    ∙ ap (λ t. if t then finish_round network random voted else voted) still in
                  let rest =
                    all_vote-Completes ballots voted valid on still
                      (Ballots-with_vote id packet w ballots b.1)
                      (done id packet ballots w voted
                        (λ k t. contains-with_vote id k packet w.game t) w.game.players h) in
                  later (subst (λ u. Completes u ballots) (sym same) rest)
            ]
      ]
    where
      kept :
          contains id w.game.votes ≡ true
          → (k : ℕ) → (id ≡ k) ⊎ (contains k w.game.votes ≡ true)
          → contains k w.game.votes ≡ true
      kept q k (inl e) = subst (λ n. contains n w.game.votes ≡ true) e q
      kept q k (inr e) = e
