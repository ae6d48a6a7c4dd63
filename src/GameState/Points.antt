-- ===== src/GameState/Points.antt =====
-- `calculateAndApplyScores` of src/common/game_state.cpp, player by player.
use cpptcpmultiplayer.Prelude.{
  ℕ, ◌≡◌, ◌∙◌, inl, inr, Bool, not, ◌&&◌, ◌||◌, some, arith, ◌==◌, if◌then◌else◌, Option-cases,
}
use cpptcpmultiplayer.Prelude.Int.{ℤ, pos, negsuc, add_points}
use cpptcpmultiplayer.Prelude.Maps.{find, find-insert}
use cpptcpmultiplayer.Prelude.Maps.Every.{find-map_values}
use cpptcpmultiplayer.PlayerState.{PlayerState}
use cpptcpmultiplayer.GameState.{GameState}
use cpptcpmultiplayer.GameState.Scores.{
  is_guesser, voted_for, add_score, reward_guessers, reward_liar, calculate_and_apply_scores,
}

-- The points of a player for a vote that ended with this verdict.
abbrev pub earned : Bool → ℕ → Bool → GameState → ℕ → PlayerState → ℕ
earned caught out majority g id p =
    if not g.round_active || (g.current_liar_id == 0) || not majority
    then 0
    else if caught && (out == g.current_liar_id)
    then (if is_guesser p.role && voted_for id g.current_liar_id g.votes then 1 else 0)
    else if not caught && not (out == g.current_liar_id) && (id == g.current_liar_id)
    then 2
    else 0

add_points-zero : (z : ℤ) → add_points z 0 ≡ z
unfolding add_points
add_points-zero (pos n) = ground arith
add_points-zero (negsuc n) = ground arith

add_score-zero : (p : PlayerState) → add_score 0 p ≡ p
add_score-zero p = rw (add_points-zero p.score)

module _ (g : GameState) (id : ℕ) (p : PlayerState) (e : find id g.players ≡ some p) where
  find-reward_guessers :
      find id (reward_guessers g)
      ≡ some (
          add_score
            (if is_guesser p.role && voted_for id g.current_liar_id g.votes then 1 else 0)
            p)
  unfolding reward_guessers
  find-reward_guessers = find-map_values _ id g.players ∙ rw e (ground (arith, add_score-zero p))

  find-reward_liar :
      find id (reward_liar g) ≡ some (add_score (if id == g.current_liar_id then 2 else 0) p)
  unfolding reward_liar
  find-reward_liar = elim (Option-cases (find g.current_liar_id g.players)) [
    | inl n ↦ rw (n, reward_liar) (ground (arith, e, add_score-zero p))
    | inr (q, f) ↦
        rw (f, reward_liar)
          (ground (
            arith,
            e,
            find-insert id g.current_liar_id (add_score 2 q) g.players,
            add_score-zero p,
          ))
  ]

  -- A player who is in the game is stored as before, with the points that the player earned.
  pub calculate_and_apply_scores_lem :
      (caught : Bool) (out : ℕ) (majority : Bool)
      → find id (calculate_and_apply_scores caught out majority g).players
        ≡ some (add_score (earned caught out majority g id p) p)
  unfolding calculate_and_apply_scores
  calculate_and_apply_scores_lem caught out majority =
      ground (arith, e, find-reward_guessers, find-reward_liar, add_score-zero p)
