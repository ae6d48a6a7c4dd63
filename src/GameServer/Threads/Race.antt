-- ===== src/GameServer/Threads/Race.antt =====
-- Two threads of src/server/game_server.cpp that settle the same round.
use cpptcpmultiplayer.Prelude.{
  ℕ, ◌+◌, ◌^◌, ◌≤◌, ◌<◌, ◌≡◌, refl, sym, ap, ◌∙◌, ◌≢◌, true, false, not, ◌&&◌, ◌||◌, some, List, [],
  ◌∷◌, arith, ◌==◌, leb→le, ==_refl, length, if-elim,
}
use mathlib.Core.Path.{subst}
use cpptcpmultiplayer.Prelude.Maps.{find}
use cpptcpmultiplayer.Prelude.Maps.Every.{find-map_values}
use cpptcpmultiplayer.PlayerState.{PlayerState, no_role, set_role}
use cpptcpmultiplayer.GameState.{GameState, clear_round, get_player_count, get_all_player_states}
use cpptcpmultiplayer.GameState.Scores.{add_score, calculate_and_apply_scores}
use cpptcpmultiplayer.GameState.Invariant.{IsValid}
use cpptcpmultiplayer.GameState.Points.{earned, calculate_and_apply_scores_lem}
use cpptcpmultiplayer.GameServer.Ballot.{Outcome, count_ballot, count_voted, everybody_voted}
use cpptcpmultiplayer.GameServer.Ballot.Points.{rule_points, earned-rule_points}
use cpptcpmultiplayer.GameServer.Threads.{
  outcome_from, Pc, get_count, count_votes, get_tally, apply_scores, can_start, Move, takes_count,
  takes_players, counts_one, everybody, takes_tally, takes_liar, applies, clearing, the_flag,
  clears_flag, clears_topic, clears_word, clears_liar, clears_votes, clears_roles, System, set_pc,
  turn, Schedule, stop, later,
}

-- A schedule from a system, after which the game and the places of two threads are these.
pub record Both (s : System) (i j : ℕ) (g : GameState) (p q : Pc) : Type 0 where
  pub last : System
  pub schedule : Schedule s last
  pub game : last.game ≡ g
  pub first : last.pc i ≡ p
  pub second : last.pc j ≡ q
  pub apart : (i == j) ≡ false

pub Both-swap :
    {s : System} {i j : ℕ} {g : GameState} {p q : Pc} → Both s i j g p q → Both s j i g q p
Both-swap {i = i} {j = j} b = record {
  last = b.last;
  schedule = b.schedule;
  game = b.game;
  first = b.second;
  second = b.first;
  apart = (let e = b.apart in ground arith);
}

-- The first of the threads moves.
pub Both-Move :
    {s : System} {i j : ℕ} {g h : GameState} {p q r : Pc}
    → Both s i j g p q
    → Move g p h r
    → Both s i j h r q
Both-Move {s} {i} {j} {g} {h} {p} {q} {r} b m =
    let moved : Move b.last.game (b.last.pc i) h r =
      subst (λ k. Move k (b.last.pc i) h r) (sym b.game)
        (subst (λ c. Move g c h r) (sym b.first) m) in
    record {
      last = record { game = h; pc = set_pc b.last.pc i r };
      schedule = later b.schedule (turn i moved);
      game = refl;
      first = rw (==_refl i);
      second = rw b.apart b.second;
      apart = b.apart;
    }

-- It clears the round without a turn of another thread.
Both-clears :
    {s : System} {i j : ℕ} {g : GameState} {q next : Pc}
    → Both s i j g (clearing the_flag next) q
    → Both s i j (clear_round g) next q
unfolding clear_round
Both-clears b =
    let few = Both-Move (Both-Move (Both-Move b clears_flag) clears_topic) clears_word in
    Both-Move (Both-Move (Both-Move few clears_liar) clears_votes) clears_roles

-- It counts the voters.
Both-counts :
    {s : System} {i j total : ℕ} {g : GameState} {q : Pc} (players : List PlayerState) (count : ℕ)
    → Both s i j g (count_votes total players count) q
    → Both s i j g (count_votes total [] (count + count_voted g players)) q
unfolding count_voted
Both-counts {s} {i} {j} {total} {g} {q} [] count b =
    subst (λ n. Both s i j g (count_votes total [] n) q) (omega arith) b
Both-counts {s} {i} {j} {total} {g} {q} (p ∷ players) count b =
    subst (λ n. Both s i j g (count_votes total [] n) q) (omega arith)
      (Both-counts players _ (Both-Move b counts_one))

-- A thread that finds that everybody has voted goes on to give the points.
Both-outcome :
    {s : System} {i j : ℕ} {g : GameState} {q : Pc}
    → everybody_voted g ≡ true
    → Both s i j g get_count q
    → Both s i j g (apply_scores (count_ballot g)) q
unfolding everybody_voted count_ballot outcome_from
Both-outcome {s} {i} {j} {g} {q} full b =
    let total = get_player_count g in
    let voted = count_voted g (get_all_player_states g) in
    let enough : total ≤ voted = leb→le total voted full in
    let counting = Both-Move (Both-Move b takes_count) takes_players in
    let counted = Both-counts (get_all_player_states g) 0 counting in
    let ready : Both s i j g (get_tally total) q =
      Both-Move counted (everybody (omega (arith, enough))) in
    Both-Move (Both-Move ready takes_tally) takes_liar

abbrev give : Outcome → GameState → GameState
give o g = calculate_and_apply_scores o.liar_caught o.winner_id o.has_majority g

-- Both threads give the points, and then both clear the round.
Both-settle :
    {s : System} {i j : ℕ} {g : GameState}
    → everybody_voted g ≡ true
    → Both s i j g get_count get_count
    → let o = count_ballot g in
      Both s i j (clear_round (clear_round (give o (give o g)))) can_start can_start
Both-settle full b =
    let ready = Both-outcome full (Both-swap (Both-outcome full b)) in
    let given = Both-Move (Both-swap (Both-Move ready applies)) applies in
    Both-swap (Both-clears (Both-swap (Both-clears given)))

-- Giving points changes the players only.
give-players : (o : Outcome) (g : GameState) → give o g ≡ record g { players = (give o g).players }
unfolding calculate_and_apply_scores
give-players o g =
    let P : GameState → Type 0 = λ h. h ≡ record g { players = h.players } in
    if-elim P (not g.round_active || (g.current_liar_id == 0)) _ _ (λ _. refl)
      λ _.
        if-elim P (o.liar_caught && (o.winner_id == g.current_liar_id) && o.has_majority) _ _
          (λ _. refl)
          λ _.
            if-elim P
              (not o.liar_caught && o.has_majority && not (o.winner_id == g.current_liar_id)) _ _
              (λ _. refl) (λ _. refl)

module _ (g : GameState) (id : ℕ) (p : PlayerState) (e : find id g.players ≡ some p) where
  abbrev earned_by : Outcome → ℕ
  earned_by o = earned o.liar_caught o.winner_id o.has_majority g id p

  given_once : (o : Outcome) → find id (give o g).players ≡ some (add_score (earned_by o) p)
  given_once o = calculate_and_apply_scores_lem g id p e o.liar_caught o.winner_id o.has_majority

  given_twice :
      (o : Outcome)
      → find id (give o (give o g)).players
        ≡ some (add_score (earned_by o) (add_score (earned_by o) p))
  given_twice o =
      ap (λ h. find id (give o h).players) (give-players o g)
      ∙ calculate_and_apply_scores_lem (record g { players = (give o g).players }) id
          (add_score (earned_by o) p) (given_once o) o.liar_caught o.winner_id o.has_majority

find-clear_round :
    (id : ℕ) (g : GameState) (p : PlayerState)
    → find id g.players ≡ some p
    → find id (clear_round g).players ≡ some (set_role no_role p)
unfolding clear_round
find-clear_round id g p e = find-map_values _ id g.players ∙ rw e

-- Take two threads that have stored their votes and not counted yet, in a round of a well-formed game with
-- a liar in which everybody has voted, with fewer than 2 ^ 32 votes. What a player gets depends on how the
-- threads take turns: by one schedule the points of the rules, and by another one twice the points.
pub race-rule_points :
    (s : System) (i j id : ℕ) (p : PlayerState)
    → IsValid s.game
    → length s.game.votes < 2 ^ 32
    → s.game.round_active ≡ true
    → s.game.current_liar_id ≢ 0
    → everybody_voted s.game ≡ true
    → s.pc i ≡ get_count
    → s.pc j ≡ get_count
    → (i == j) ≡ false
    → find id s.game.players ≡ some p
    → let n = rule_points s.game id p in
      ((t : System) × Schedule s t
        × (find id t.game.players ≡ some (set_role no_role (add_score n p))))
      × ((t : System) × Schedule s t
          × (find id t.game.players ≡ some (set_role no_role (add_score n (add_score n p)))))
race-rule_points s i j id p v fits on liar full first second apart e =
    let g = s.game in
    let o = count_ballot g in
    let start : Both s i j g get_count get_count = record {
      last = s;
      schedule = stop;
      game = refl;
      first = first;
      second = second;
      apart = apart;
    } in
    let once = Both-clears (Both-Move (Both-outcome full start) applies) in
    let twice = Both-settle full start in
    let n = earned-rule_points g v fits id p on liar in
    (
      (
        once.last,
        once.schedule,
        ap (λ h. find id h.players) once.game
            ∙ find-clear_round id (give o g) _ (given_once g id p e o)
            ∙ ap (λ m. some (set_role no_role (add_score m p))) n,
      ),
      (
        twice.last,
        twice.schedule,
        ap (λ h. find id h.players) twice.game
            ∙ find-clear_round id (clear_round (give o (give o g))) _
                (find-clear_round id (give o (give o g)) _ (given_twice g id p e o))
            ∙ ap (λ m. some (set_role no_role (add_score m (add_score m p)))) n,
      ),
    )
