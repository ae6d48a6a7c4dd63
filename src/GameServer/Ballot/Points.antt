-- ===== src/GameServer/Ballot/Points.antt =====
-- The points that a vote gives in src/server/game_server.cpp, against the rules of README.md.
use cpptcpmultiplayer.Prelude.{
  ℕ, ◌^◌, ◌<◌, ◌≡◌, ◌∙◌, ◌≢◌, Bool, true, false, not, ◌&&◌, ◌||◌, some, List, [], ◌∷◌, arith, ltb,
  ◌==◌, if◌then◌else◌, length,
}
use cpptcpmultiplayer.Prelude.Maps.{find}
use cpptcpmultiplayer.Prelude.Maps.Every.{find-map_values}
use cpptcpmultiplayer.PlayerState.{PlayerState, no_role, set_role}
use cpptcpmultiplayer.GameState.{GameState, clear_round}
use cpptcpmultiplayer.GameState.Scores.{
  is_guesser, voted_for, add_score, calculate_and_apply_scores,
}
use cpptcpmultiplayer.GameState.Voting.{votes_for}
use cpptcpmultiplayer.GameState.Points.{earned, calculate_and_apply_scores_lem}
use cpptcpmultiplayer.GameState.Invariant.{IsValid}
use cpptcpmultiplayer.GameServer.Ballot.{Outcome, count_ballot, settle}
use cpptcpmultiplayer.GameServer.Ballot.Majority.{wins, outcome-wins, count_ballot_lem}

-- A target of a vote, other than the liar, has a majority.
unfoldable pub innocent_wins : GameState → List (ℕ × ℕ) → Bool
innocent_wins g [] = false
innocent_wins g ((voter, t) ∷ votes) =
    (wins t g && not (t == g.current_liar_id)) || innocent_wins g votes

-- The rules of the section Scoring of README.md: if the liar has a majority, each guesser who voted for the liar gets a point; if another
-- player has one, the liar gets two points; without a majority nobody gets any.
abbrev pub rule_points : GameState → ℕ → PlayerState → ℕ
rule_points g id p =
    if wins g.current_liar_id g
    then (if is_guesser p.role && voted_for id g.current_liar_id g.votes then 1 else 0)
    else if innocent_wins g g.votes && (id == g.current_liar_id)
    then 2
    else 0

module _ (g : GameState) (v : IsValid g) (fits : length g.votes < 2 ^ 32) where
  abbrev outcome : Outcome
  outcome = count_ballot g

  innocent_wins_step :
      (votes : List (ℕ × ℕ))
      → innocent_wins g votes ≡ (
          outcome.has_majority
          && not (outcome.winner_id == g.current_liar_id)
          && ltb 0 (votes_for outcome.winner_id votes))
  unfolding innocent_wins votes_for
  innocent_wins_step [] = ground arith
  innocent_wins_step ((voter, t) ∷ votes) =
      ground (arith, innocent_wins_step votes, (count_ballot_lem g v fits).0 t)

  winner_voted : outcome.has_majority ≡ true → ltb 0 (votes_for outcome.winner_id g.votes) ≡ true
  winner_voted h = unfold wins in ground (arith, outcome-wins g v fits h)

  innocent_wins_lem :
      innocent_wins g g.votes
      ≡ (outcome.has_majority && not (outcome.winner_id == g.current_liar_id))
  innocent_wins_lem = ground (arith, innocent_wins_step g.votes, winner_voted)

  pub earned-rule_points :
      (id : ℕ) (p : PlayerState)
      → g.round_active ≡ true
      → g.current_liar_id ≢ 0
      → earned outcome.liar_caught outcome.winner_id outcome.has_majority g id p
        ≡ rule_points g id p
  earned-rule_points id p active liar = ground (
    arith,
    innocent_wins_lem,
    (count_ballot_lem g v fits).0 g.current_liar_id,
    (count_ballot_lem g v fits).1,
  )

  -- When fewer than 2 ^ 32 votes are counted in a round of a well-formed game with a liar, every player
  -- stays, gets exactly the points of the rules of README.md's section Scoring, where a vote without a
  -- majority gives no points to anybody, and loses the role.
  pub settle_lem :
      (id : ℕ) (p : PlayerState)
      → g.round_active ≡ true
      → g.current_liar_id ≢ 0
      → find id g.players ≡ some p
      → find id (settle g).players ≡ some (set_role no_role (add_score (rule_points g id p) p))
  unfolding settle clear_round
  settle_lem id p active liar e =
      find-map_values _ id
        (calculate_and_apply_scores outcome.liar_caught outcome.winner_id outcome.has_majority
          g).players
      ∙ rw (
        calculate_and_apply_scores_lem g id p e outcome.liar_caught outcome.winner_id
            outcome.has_majority,
        earned-rule_points id p active liar,
      )
