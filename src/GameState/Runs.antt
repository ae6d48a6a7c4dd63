-- ===== src/GameState/Runs.antt =====
-- The laws of the game at a game of three players, and runs of its methods.
use cpptcpmultiplayer.Prelude.{
  ℕ, ◌≡◌, refl, ◌⊎◌, true, false, none, some, [], ◌∷◌, arith, ◌==◌, if◌then◌else◌, ◌*◌,
}
use cpptcpmultiplayer.Prelude.Maps.{find, contains, insert, Distinct}
use cpptcpmultiplayer.PlayerState.{guesser}
use cpptcpmultiplayer.GameState.{
  new_game, add_player, remove_player, submit_vote, can_start_round, get_vote_tally, count_vote,
}
use cpptcpmultiplayer.GameState.Round.{start_new_round}
use cpptcpmultiplayer.GameState.Scores.{voted_for, calculate_and_apply_scores}
use cpptcpmultiplayer.GameState.Sample
use cpptcpmultiplayer.GameState.Invariant.{IsValid}
use cpptcpmultiplayer.GameState.Invariant.Leave.{remove_player_lem, vote_without}
use cpptcpmultiplayer.GameState.Invariant.Steps.{Reach, next, scores, Reach-IsValid}
use cpptcpmultiplayer.GameState.Range.{IsScore, verdicts, Reach-scores}
use cpptcpmultiplayer.Prelude.Maps.Every.{Every}
use cpptcpmultiplayer.GameState.Fresh.{IsFresh, start_new_round_lem}
use cpptcpmultiplayer.GameState.Voting.{
  MayVote, submit_vote_accepted, submit_vote_refused, get_vote_tally_lem, votes_for,
}
use cpptcpmultiplayer.GameState.Points.{earned}

-- A fourth player cannot join under an id that is taken.
joins_once : add_player 2 (68 ∷ []) Sample.joined ≡ (Sample.joined, false)
unfolding add_player contains
joins_once = refl

-- The tally of two votes for 3 and one for 1.
tallied : get_vote_tally Sample.voted ≡ (3, 2) ∷ (1, 1) ∷ []
unfolding get_vote_tally find contains insert count_vote
tallied = refl

-- Nobody votes twice.
votes_once : (submit_vote 1 2 Sample.voted).1 ≡ false
unfolding submit_vote contains
votes_once = refl

Reach-IsValid_example : IsValid Sample.voted
Reach-IsValid_example = Reach-IsValid Sample.voted-Reach

start_new_round_lem_example :
    ((can_start_round Sample.joined ≡ true)
      × IsFresh Sample.joined (start_new_round Sample.lowest Sample.joined))
    ⊎ ((can_start_round Sample.joined ≡ false)
        × (start_new_round Sample.lowest Sample.joined ≡ Sample.joined))
start_new_round_lem_example =
    start_new_round_lem Sample.lowest Sample.joined Sample.lowest-InRange Sample.joined-IsValid

voted_for_three : (submit_vote 1 3 Sample.started).1 ≡ true
unfolding submit_vote contains
voted_for_three = refl

submit_vote_accepted_example :
    let h = (submit_vote 1 3 Sample.started).0 in
    MayVote Sample.started 1 3
    × ((k : ℕ) → find k h.votes ≡ (if 1 == k then some 3 else find k []))
    × (h.players ≡ Sample.started.players)
    × ((other : ℕ) → submit_vote 1 other h ≡ (h, false))
submit_vote_accepted_example = submit_vote_accepted 1 3 Sample.started voted_for_three

submit_vote_refused_example :
    (submit_vote 1 2 Sample.voted ≡ (Sample.voted, false)) × (¬ MayVote Sample.voted 1 2)
submit_vote_refused_example = submit_vote_refused 1 2 Sample.voted votes_once

get_vote_tally_lem_example :
    Distinct (get_vote_tally Sample.voted)
    × ((t : ℕ)
        → find t (get_vote_tally Sample.voted) ≡ (
            if votes_for t Sample.voted.votes == 0
            then none
            else some (votes_for t Sample.voted.votes)))
get_vote_tally_lem_example = get_vote_tally_lem Sample.voted (omega arith)

liar_plays : contains 3 Sample.voted.players ≡ true
unfolding contains
liar_plays = refl

remove_player_lem_example :
    let h = (remove_player 3 Sample.voted).0 in
    ((k : ℕ) → find k h.players ≡ (if k == 3 then none else find k Sample.voted.players))
    × ((k : ℕ)
        → find k h.votes ≡ (if k == 3 then none else vote_without 3 (find k Sample.voted.votes)))
    × (h.current_liar_id ≡ 0)
    × (h.round_active ≡ true)
    × (h.current_topic ≡ Sample.voted.current_topic)
    × (h.current_word ≡ Sample.voted.current_word)
remove_player_lem_example = remove_player_lem 3 Sample.voted Sample.voted-IsValid liar_plays

-- The guesser who found the liar has one point.
point_earned : (earned true 3 true Sample.voted 1 (Sample.player 1 65 guesser)) ≡ 1
unfolding find contains voted_for
point_earned = refl

abbrev scored-Reach : Reach new_game (calculate_and_apply_scores true 3 true Sample.voted)
scored-Reach = next Sample.voted-Reach (scores true 3 true)

Reach-scores_example :
    Every
      (λ _ p. IsScore (2 * verdicts scored-Reach) p.score)
      (calculate_and_apply_scores true 3 true Sample.voted).players
Reach-scores_example = Reach-scores scored-Reach
