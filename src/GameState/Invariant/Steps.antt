-- ===== src/GameState/Invariant/Steps.antt =====
-- The game under any number of threads. A method holds `mutex_` for its whole body, so the calls of
-- all threads on one game stand in one sequence, which the environment chooses.
use cpptcpmultiplayer.Prelude.{ℕ, Bool, List}
use cpptcpmultiplayer.GameState.{
  GameState, new_game, add_player, remove_player, clear_round, clear_all_players, submit_vote,
  clear_votes,
}
use cpptcpmultiplayer.GameState.Round.{Random, InRange, start_new_round}
use cpptcpmultiplayer.GameState.Scores.{calculate_and_apply_scores}
use cpptcpmultiplayer.GameState.Invariant.{
  IsValid, new_game-IsValid, add_player-IsValid, clear_round-IsValid, clear_all_players-IsValid,
  clear_votes-IsValid, submit_vote-IsValid,
}
use cpptcpmultiplayer.GameState.Invariant.Leave.{remove_player-IsValid}
use cpptcpmultiplayer.GameState.Invariant.Start.{start_new_round-IsValid}
use cpptcpmultiplayer.GameState.Invariant.Points.{calculate_and_apply_scores-IsValid}

-- A call of a method that changes the state.
pub data Step (g : GameState) : GameState → Type 0 where
  adds : (id : ℕ) (username : List ℕ) → Step g (add_player id username g).0
  removes : (id : ℕ) → Step g (remove_player id g).0
  starts : (random : Random) → InRange random → Step g (start_new_round random g)
  clears : Step g (clear_round g)
  clears_all : Step g (clear_all_players g)
  votes : (voter target : ℕ) → Step g (submit_vote voter target g).0
  clears_votes : Step g (clear_votes g)
  scores :
      (caught : Bool) (out : ℕ) (majority : Bool)
      → Step g (calculate_and_apply_scores caught out majority g)

pub data Reach (g : GameState) : GameState → Type 0 where
  here : Reach g g
  next : {h k : GameState} → Reach g h → Step h k → Reach g k

pub Step-IsValid : {g h : GameState} → Step g h → IsValid g → IsValid h
Step-IsValid {g} (adds id username) v = add_player-IsValid id username g v
Step-IsValid {g} (removes id) v = remove_player-IsValid id g v
Step-IsValid {g} (starts random r) v = start_new_round-IsValid random g r v
Step-IsValid {g} clears v = clear_round-IsValid g v
Step-IsValid {g} clears_all v = clear_all_players-IsValid g
Step-IsValid {g} (votes voter target) v = submit_vote-IsValid voter target g v
Step-IsValid {g} clears_votes v = clear_votes-IsValid g v
Step-IsValid {g} (scores caught out majority) v =
    calculate_and_apply_scores-IsValid g v caught out majority

-- In every state that a new game can reach, whatever the order of the calls: no two players share an
-- id, each player is stored under its own id, every vote is by and for a player, nobody but the
-- current liar has the liar's role, the current liar is a player, and between rounds there is no vote,
-- no liar, no topic, no word and no role.
pub Reach-IsValid : {g : GameState} → Reach new_game g → IsValid g
Reach-IsValid r = go r new_game-IsValid
  where
    go : {g h : GameState} → Reach g h → IsValid g → IsValid h
    go here v = v
    go (next r s) v = Step-IsValid s (go r v)
