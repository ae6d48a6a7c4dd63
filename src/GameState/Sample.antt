-- ===== src/GameState/Sample.antt =====
-- A game of three players, in a round in which all have voted, for the tests.
use cpptcpmultiplayer.Prelude.{ℕ, true, [], ◌∷◌, arith}
use cpptcpmultiplayer.Prelude.Int.{pos}
use cpptcpmultiplayer.PlayerState.{PlayerState, PlayerRole, no_role, liar, guesser}
use cpptcpmultiplayer.GameState.{GameState, new_game, add_player, submit_vote}
use cpptcpmultiplayer.Prelude.Text.{codes}
use cpptcpmultiplayer.GameState.Round.{Random, InRange, start_new_round, pick_random_topic_and_word}
use cpptcpmultiplayer.GameState.Invariant.{IsValid}
use cpptcpmultiplayer.GameState.Invariant.Steps.{
  Reach, here, next, adds, starts, votes, Reach-IsValid,
}
use cpptcpmultiplayer.Prelude.Maps.{contains, insert, keys, map_values}

-- The generator that always gives the smallest number.
abbrev pub lowest : Random
lowest i b = 0

pub lowest-InRange : InRange lowest
lowest-InRange i b = omega arith

abbrev pub player : ℕ → ℕ → PlayerRole → PlayerState
player id letter role = record { id = id; username = letter ∷ []; role = role; score = pos 0 }

-- Three players have joined.
abbrev pub joined : GameState
joined = record new_game {
  players = (3, player 3 67 no_role) ∷ (2, player 2 66 no_role) ∷ (1, player 1 65 no_role) ∷ [];
}

-- The round has started, and the player 3 is the liar.
abbrev pub started : GameState
started = record {
  players = (3, player 3 67 liar) ∷ (2, player 2 66 guesser) ∷ (1, player 1 65 guesser) ∷ [];
  round_active = true;
  current_topic = codes "Fruit";
  current_word = codes "Apple";
  current_liar_id = 3;
  votes = [];
}

-- The players 1 and 2 have voted for 3, and 3 for 1.
abbrev pub voted : GameState
voted = record started { votes = (3, 1) ∷ (2, 3) ∷ (1, 3) ∷ [] }

pub joined-Reach : Reach new_game joined
unfolding add_player contains insert
joined-Reach = next (next (next here (adds 1 (65 ∷ []))) (adds 2 (66 ∷ []))) (adds 3 (67 ∷ []))

pub started-Reach : Reach new_game started
unfolding start_new_round keys map_values pick_random_topic_and_word
started-Reach = next joined-Reach (starts lowest lowest-InRange)

pub voted-Reach : Reach new_game voted
unfolding submit_vote contains insert
voted-Reach = next (next (next started-Reach (votes 1 3)) (votes 2 3)) (votes 3 1)

pub joined-IsValid : IsValid joined
joined-IsValid = Reach-IsValid joined-Reach

pub voted-IsValid : IsValid voted
voted-IsValid = Reach-IsValid voted-Reach

pub started-IsValid : IsValid started
started-IsValid = Reach-IsValid started-Reach
