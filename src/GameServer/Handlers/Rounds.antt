-- ===== src/GameServer/Handlers/Rounds.antt =====
-- When rounds end and start in src/server/game_server.cpp.
use cpptcpmultiplayer.Prelude.{
  ℕ, ◌≤◌, ◌≡◌, refl, sym, ap, ◌∙◌, ◌↔◌, ◌⊎◌, inl, inr, true, false, not, List, [], ◌∷◌, arith, ltb,
  if◌then◌else◌, le→leb, leb→le, length, if-elim,
}
use cpptcpmultiplayer.Prelude.Maps.{contains, values}
use cpptcpmultiplayer.Prelude.Maps.Every.{Every}
use mathlib.Core.Path.{subst}
use cpptcpmultiplayer.PlayerState.{PlayerState}
use cpptcpmultiplayer.GameState.{
  GameState, can_start_round, clear_round, remove_player, get_player_count, get_all_player_states,
  has_player,
}
use cpptcpmultiplayer.GameState.Round.{Random, InRange, start_new_round}
use cpptcpmultiplayer.GameState.Fresh.{IsFresh, start_new_round_lem}
use cpptcpmultiplayer.GameState.Invariant.{IsValid, clear_round-IsValid}
use cpptcpmultiplayer.GameState.Invariant.Leave.{remove_player-IsValid}
use cpptcpmultiplayer.Server.{Network}
use cpptcpmultiplayer.GameServer.{World}
use cpptcpmultiplayer.GameServer.Round.{start_new_round_if_possible}
use cpptcpmultiplayer.GameServer.Ballot.{count_voted, everybody_voted, finish_round, settle}
use cpptcpmultiplayer.GameServer.Handlers.{handle_leave}
use cpptcpmultiplayer.GameServer.Handlers.Keep.{settle-IsValid}

count_voted-le : (g : GameState) (m : List (ℕ × PlayerState)) → count_voted g (values m) ≤ length m
unfolding count_voted values
count_voted-le g [] = omega arith
count_voted-le g ((k, p) ∷ m) = ground (arith, count_voted-le g m)

abbrev HasVoted : GameState → ℕ → PlayerState → Type 0
HasVoted g id p = contains id g.votes ≡ true

module _ (g : GameState) where
  count_voted-all :
      (m : List (ℕ × PlayerState))
      → Every (λ id p. p.id ≡ id) m
      → length m ≤ count_voted g (values m)
      → Every (HasVoted g) m
  unfolding count_voted values
  count_voted-all [] ids h = tt
  count_voted-all ((k, p) ∷ m) ids h = (
    ground (arith, ids.0, count_voted-le g m),
    count_voted-all m ids.1 (ground (arith, ids.0, count_voted-le g m)),
  )

  all-count_voted :
      (m : List (ℕ × PlayerState))
      → Every (λ id p. p.id ≡ id) m
      → Every (HasVoted g) m
      → length m ≤ count_voted g (values m)
  unfolding count_voted values
  all-count_voted [] ids h = omega arith
  all-count_voted ((k, p) ∷ m) ids h = ground (arith, ids.0, h.0, all-count_voted m ids.1 h.1)

-- In a well-formed game, the server takes the vote as complete exactly when every player has voted.
pub everybody_voted_lem :
    (g : GameState)
    → IsValid g
    → (everybody_voted g ≡ true) ↔ Every (λ id _. contains id g.votes ≡ true) g.players
unfolding everybody_voted get_player_count get_all_player_states
everybody_voted_lem g v = (
  λ h. count_voted-all g g.players v.ids (leb→le _ _ h),
  λ h. le→leb _ _ (all-count_voted g g.players v.ids h),
)

-- What follows a game between rounds: a fresh round where 3 to 6 players are there, else the same.
abbrev pub NextRound : GameState → GameState → Type 0
NextRound g h = ((can_start_round g ≡ true) × IsFresh g h) ⊎ ((can_start_round g ≡ false) × (h ≡ g))

-- The game without a player who left in a round.
abbrev pub reset_without : ℕ → GameState → GameState
reset_without id g = clear_round (remove_player id g).0

module _ (network : Network) (random : ℕ → Random) (r : (i : ℕ) → InRange (random i)) where
  -- The game after `startNewRoundIfPossible`, whatever is sent.
  start_if_possible-game :
      (w : World)
      → w.game.round_active ≡ false
      → (start_new_round_if_possible network random w).game
        ≡ (if can_start_round w.game then start_new_round (random w.draws) w.game else w.game)
  unfolding start_new_round_if_possible
  start_if_possible-game w off = ground arith

  start_if_possible-NextRound :
      (w : World)
      → IsValid w.game
      → w.game.round_active ≡ false
      → NextRound w.game (start_new_round_if_possible network random w).game
  start_if_possible-NextRound w v off =
      elim (start_new_round_lem (random w.draws) w.game (r w.draws) v) [
        | inl e ↦
            inl (
              e.0,
              subst (IsFresh w.game) (sym (start_if_possible-game w off ∙ chosen_true e.0)) e.1,
            )
        | inr e ↦ inr (e.0, start_if_possible-game w off ∙ chosen_false e.0)
      ]
    where
      chosen_true :
          can_start_round w.game ≡ true
          → (if can_start_round w.game then start_new_round (random w.draws) w.game else w.game)
            ≡ start_new_round (random w.draws) w.game
      chosen_true h = ground arith

      chosen_false :
          can_start_round w.game ≡ false
          → (if can_start_round w.game then start_new_round (random w.draws) w.game else w.game)
            ≡ w.game
      chosen_false h = ground arith

  settle-off : (g : GameState) → (settle g).round_active ≡ false
  unfolding settle clear_round
  settle-off g = refl

  -- In a well-formed game, with a generator that stays in its bounds, the branch in which everybody has
  -- voted gives the points and then starts the next round at once with a fresh state, if 3 to 6 players
  -- are there; else the game waits between rounds.
  pub finish_round-NextRound :
      (w : World) → IsValid w.game → NextRound (settle w.game) (finish_round network random w).game
  unfolding finish_round
  finish_round-NextRound w v =
      start_if_possible-NextRound _ (settle-IsValid w.game v) (settle-off w.game)

  record Leads (g : GameState) (w : World) : Type 0 where
    leads : NextRound g w.game

  start-Leads :
      (g : GameState) (w : World)
      → w.game ≡ g
      → IsValid g
      → g.round_active ≡ false
      → Leads g (start_new_round_if_possible network random w)
  start-Leads g w e v off = record {
    leads =
        subst (λ h. NextRound h (start_new_round_if_possible network random w).game) e
          (start_if_possible-NextRound w (subst IsValid (sym e) v)
            (ap (λ h. h.round_active) e ∙ off));
  }

  removed_lem : (id : ℕ) (g : GameState) → has_player id g ≡ true → (remove_player id g).1 ≡ true
  unfolding has_player remove_player
  removed_lem id g h = ground arith

  too_few : (g : GameState) → ltb (get_player_count g) 3 ≡ true → can_start_round g ≡ false
  unfolding get_player_count can_start_round
  too_few g h = ground arith

  -- A player of a well-formed game who leaves in a round ends it: the game goes on as between rounds without the player, so a
  -- fresh round starts where 3 to 6 players remain, and else nothing happens.
  pub handle_leave-NextRound :
      (id : ℕ) (w : World)
      → IsValid w.game
      → w.game.round_active ≡ true
      → has_player id w.game ≡ true
      → NextRound (reset_without id w.game) (handle_leave network random id w).game
  unfolding handle_leave
  handle_leave-NextRound id w v on here =
      let reset = reset_without id w.game in
      let chosen = if w.game.round_active then reset else (remove_player id w.game).0 in
      let same : chosen ≡ reset = ap (λ b. if b then reset else (remove_player id w.game).0) on in
      let valid = clear_round-IsValid _ (remove_player-IsValid id w.game v) in
      let all : Leads reset (handle_leave network random id w) =
        if-elim (Leads reset) (not (has_player id w.game)) _ _ (λ q. absurd (ground arith))
          λ _.
            if-elim (Leads reset) (not (remove_player id w.game).1) _ _
              (λ q. absurd (ground (arith, removed_lem id w.game here)))
              λ _.
                if-elim (Leads reset) (ltb (get_player_count chosen) 3) _ _
                  (λ q. record {
                    leads = inr (ap can_start_round (sym same) ∙ too_few chosen q, same);
                  })
                  (λ q. start-Leads reset _ same valid (unfold clear_round in refl)) in
      all.leads
