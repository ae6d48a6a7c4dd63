-- ===== src/GameState/Range.antt =====
-- The range of the fields of the players in src/common/game_state.cpp.
use cpptcpmultiplayer.Prelude.{
  ℕ, ◌+◌, ◌*◌, ◌≤◌, ◌≡◌, sym, inl, inr, Bool, not, ◌&&◌, ◌||◌, List, arith, ltb, ◌==◌, Bool-cases,
  Option-cases, length, if-elim,
}
use cpptcpmultiplayer.Prelude.Int.{ℤ, pos, negsuc, add_points}
use cpptcpmultiplayer.Prelude.Maps.{find, contains, map_values}
use cpptcpmultiplayer.Prelude.Maps.Every.{
  Every, Every-find, Every-insert, Every-erase, Every-weaken, Every-map_values,
}
use mathlib.Core.Path.{subst}
use cpptcpmultiplayer.PlayerState.{
  PlayerState, PlayerRole, IsRole, no_role, liar, guesser, set_role, new_player,
}
use cpptcpmultiplayer.GameState.{
  GameState, new_game, add_player, remove_player, clear_round, clear_all_players, submit_vote,
  clear_votes,
}
use cpptcpmultiplayer.GameState.Round.{Random, assign_roles, start_new_round}
use cpptcpmultiplayer.GameState.Scores.{
  add_score, is_guesser, voted_for, reward_guessers, reward_liar, calculate_and_apply_scores,
}
use cpptcpmultiplayer.GameState.Invariant.Steps.{
  adds, removes, starts, clears, clears_all, votes, clears_votes, scores, Reach, here, next,
}

-- What the methods do to a predicate on the players.
module _ (P : ℕ → PlayerState → Type 0) where
  -- The predicate looks at no role, so far as a round gives it.
  abbrev pub IsRoleBlind : Type 0
  IsRoleBlind = (r : PlayerRole) → IsRole r → (k : ℕ) (p : PlayerState) → P k p → P k (set_role r p)

  pub clear_round-Every :
      (g : GameState) → IsRoleBlind → Every P g.players → Every P (clear_round g).players
  unfolding clear_round
  clear_round-Every g blind h = Every-map_values _ P P g.players (blind no_role tt) h

  assign_roles-Every :
      (id : ℕ) (m : List (ℕ × PlayerState)) → IsRoleBlind → Every P m → Every P (assign_roles id m)
  unfolding assign_roles
  assign_roles-Every id m blind h =
      Every-map_values _ P P m
        (λ k p q. elim (Bool-cases (k == id)) [
          | inl e ↦ rw e (blind liar tt k p q)
          | inr e ↦ rw e (blind guesser tt k p q)
        ])
        h

  pub start_new_round-Every :
      (random : Random) (g : GameState)
      → IsRoleBlind
      → Every P g.players
      → Every P (start_new_round random g).players
  unfolding start_new_round
  start_new_round-Every random g blind h =
      if-elim (λ (k : GameState). Every P k.players)
        (ltb (length g.players) 3 || ltb 6 (length g.players)) _ _ (λ _. h)
        (λ _. assign_roles-Every _ _ blind (clear_round-Every g blind h))

  pub remove_player-Every :
      (id : ℕ) (g : GameState) → Every P g.players → Every P (remove_player id g).0.players
  unfolding remove_player
  remove_player-Every id g h =
      if-elim (λ (r : GameState × Bool). Every P r.0.players) (contains id g.players) _ _
        (λ _. Every-erase P id g.players h) (λ _. h)

  pub add_player-Every :
      (id : ℕ) (username : List ℕ) (g : GameState)
      → P id (new_player id username)
      → Every P g.players
      → Every P (add_player id username g).0.players
  unfolding add_player
  add_player-Every id username g p h =
      if-elim (λ (r : GameState × Bool). Every P r.0.players) (contains id g.players) _ _ (λ _. h)
        (λ _. Every-insert P id (new_player id username) g.players p h)

  pub submit_vote-players :
      (voter target : ℕ) (g : GameState) → (submit_vote voter target g).0.players ≡ g.players
  unfolding submit_vote
  submit_vote-players voter target g = ground arith

  module _ (Q : ℕ → PlayerState → Type 0)
      (grows : (n : ℕ) (k : ℕ) (p : PlayerState) → n ≤ 2 → P k p → Q k (add_score n p))
      (weakens : (k : ℕ) (p : PlayerState) → P k p → Q k p) where
    reward_guessers-Every : (g : GameState) → Every P g.players → Every Q (reward_guessers g)
    unfolding reward_guessers
    reward_guessers-Every g h =
        Every-map_values _ P Q g.players
          (λ k p q.
            if-elim (Q k) (is_guesser p.role && voted_for k g.current_liar_id g.votes) _ _
              (λ _. grows 1 k p (omega arith) q) (λ _. weakens k p q))
          h

    reward_liar-Every : (g : GameState) → Every P g.players → Every Q (reward_liar g)
    unfolding reward_liar
    reward_liar-Every g h = elim (Option-cases (find g.current_liar_id g.players)) [
      | inl n ↦ rw (n, reward_liar) (Every-weaken P Q g.players weakens h)
      | inr (p, e) ↦
          rw (e, reward_liar)
            (Every-insert Q g.current_liar_id (add_score 2 p) g.players
              (grows 2 g.current_liar_id p (omega arith)
                (Every-find P g.current_liar_id p g.players h e))
              (Every-weaken P Q g.players weakens h))
    ]

    pub calculate_and_apply_scores-Every :
        (caught : Bool) (out : ℕ) (majority : Bool) (g : GameState)
        → Every P g.players
        → Every Q (calculate_and_apply_scores caught out majority g).players
    unfolding calculate_and_apply_scores
    calculate_and_apply_scores-Every caught out majority g h =
        let T : GameState → Type 0 = λ k. Every Q k.players in
        let same : T g = Every-weaken P Q g.players weakens h in
        if-elim T (not g.round_active || (g.current_liar_id == 0)) _ _ (λ _. same)
          λ _.
            if-elim T (caught && (out == g.current_liar_id) && majority) _ _
              (λ _. reward_guessers-Every g h)
              λ _.
                if-elim T (not caught && majority && not (out == g.current_liar_id)) _ _
                  (λ _. reward_liar-Every g h) (λ _. same)

-- A score from 0 to a bound.
abbrev pub IsScore : ℕ → ℤ → Type 0
IsScore n (pos k) = k ≤ n
IsScore n (negsuc k) = 1 ≤ 0

pub IsScore-add_points : (n m : ℕ) (z : ℤ) → IsScore n z → IsScore (n + m) (add_points z m)
unfolding add_points
IsScore-add_points n m (pos k) h = omega arith
IsScore-add_points n m (negsuc k) h = absurd (omega arith)

pub IsScore-weaken : (n m : ℕ) (z : ℤ) → n ≤ m → IsScore n z → IsScore m z
IsScore-weaken n m (pos k) l h = omega arith
IsScore-weaken n m (negsuc k) l h = h

abbrev Earned : ℕ → ℕ → PlayerState → Type 0
Earned n id p = IsScore n p.score

-- How often the points are given among the calls.
unfoldable pub verdicts : {g h : GameState} → Reach g h → ℕ
verdicts here = 0
verdicts (next r (scores caught out majority)) = verdicts r + 1
verdicts (next r (adds id username)) = verdicts r
verdicts (next r (removes id)) = verdicts r
verdicts (next r (starts random q)) = verdicts r
verdicts (next r clears) = verdicts r
verdicts (next r clears_all) = verdicts r
verdicts (next r (votes voter target)) = verdicts r
verdicts (next r clears_votes) = verdicts r

-- In every state that a new game can reach, whatever the order of the calls, every player's score is from
-- 0 to twice the number of the calls of `calculateAndApplyScores`.
pub Reach-scores :
    {g : GameState} (r : Reach new_game g)
    → Every (λ _ p. IsScore (2 * verdicts r) p.score) g.players
unfolding verdicts clear_votes clear_all_players clear_round map_values
Reach-scores here = tt
Reach-scores (next {h} r (adds id username)) =
    add_player-Every (Earned (2 * verdicts r)) id username h (omega arith) (Reach-scores r)
Reach-scores (next {h} r (removes id)) =
    remove_player-Every (Earned (2 * verdicts r)) id h (Reach-scores r)
Reach-scores (next {h} r (starts random q)) =
    start_new_round-Every (Earned (2 * verdicts r)) random h (λ _ _ _ _ e. e) (Reach-scores r)
Reach-scores (next {h} r clears) =
    clear_round-Every (Earned (2 * verdicts r)) h (λ _ _ _ _ e. e) (Reach-scores r)
Reach-scores (next {h} r clears_all) = tt
Reach-scores (next {h} r (votes voter target)) =
    subst (Every (Earned (2 * verdicts r))) (sym (submit_vote-players (Earned 0) voter target h))
      (Reach-scores r)
Reach-scores (next {h} r clears_votes) = Reach-scores r
Reach-scores (next {h} r (scores caught out majority)) =
    let n = 2 * verdicts r in
    let m = 2 * (verdicts r + 1) in
    calculate_and_apply_scores-Every (Earned n) (Earned m)
      (λ k i p l e.
        IsScore-weaken (n + k) m (add_points p.score k) (omega arith)
          (IsScore-add_points n k p.score e))
      (λ i p e. IsScore-weaken n m p.score (omega arith) e) caught out majority h (Reach-scores r)
