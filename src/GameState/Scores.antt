-- ===== src/GameState/Scores.antt =====
-- `calculateAndApplyScores` and the getters of scores, of src/common/game_state.cpp. A score is an
-- integer; it grows by at most 2 in a round, and 2 ^ 30 rounds are not played.
use cpptcpmultiplayer.Prelude.{
  ℕ, Bool, true, false, not, ◌&&◌, ◌||◌, none, some, List, ◌==◌, if◌then◌else◌,
}
use cpptcpmultiplayer.Prelude.Int.{ℤ, pos, add_points}
use cpptcpmultiplayer.Prelude.Maps.{find, insert, map_values}
use cpptcpmultiplayer.PlayerState.{PlayerState, PlayerRole, liar, guesser}
use cpptcpmultiplayer.GameState.{GameState}

-- `pair.second.role == PlayerRole::GUESSER`, and so for LIAR.
abbrev pub is_guesser : PlayerRole → Bool
is_guesser guesser = true
is_guesser r = false

abbrev pub is_liar : PlayerRole → Bool
is_liar liar = true
is_liar r = false

-- `votes_.find(id) != votes_.end() && votes_[id] == target`.
unfoldable pub voted_for : ℕ → ℕ → List (ℕ × ℕ) → Bool
voted_for id target votes = elim (find id votes) [ none ↦ false | some t ↦ t == target ]

abbrev pub add_score : ℕ → PlayerState → PlayerState
add_score n p = record p { score = add_points p.score n }

-- The loop over the players when the liar is voted out.
unfoldable pub reward_guessers : GameState → List (ℕ × PlayerState)
reward_guessers g =
    map_values
      (λ id p.
        if is_guesser p.role && voted_for id g.current_liar_id g.votes then add_score 1 p else p)
      g.players

unfoldable pub reward_liar : GameState → List (ℕ × PlayerState)
reward_liar g = elim (find g.current_liar_id g.players) [
  | none ↦ g.players
  | some p ↦ insert g.current_liar_id (add_score 2 p) g.players
]

unfoldable pub calculate_and_apply_scores : Bool → ℕ → Bool → GameState → GameState
calculate_and_apply_scores liar_caught voted_out_id has_majority g =
    if not g.round_active || (g.current_liar_id == 0)
    then g
    else if liar_caught && (voted_out_id == g.current_liar_id) && has_majority
    then record g { players = reward_guessers g }
    else if not liar_caught && has_majority && not (voted_out_id == g.current_liar_id)
    then record g { players = reward_liar g }
    else g

unfoldable pub get_player_score : ℕ → GameState → ℤ
get_player_score id g = elim (find id g.players) [ none ↦ pos 0 | some p ↦ p.score ]

unfoldable pub get_all_scores : GameState → List (ℕ × ℤ)
get_all_scores g = map_values (λ _ p. p.score) g.players
