-- ===== src/GameServer/Ballot/Majority.antt =====
-- The winner that src/server/game_server.cpp finds, and majorities of the votes.
use cpptcpmultiplayer.Prelude.{
  ℕ, suc, ◌+◌, ◌*◌, ◌/◌, ◌^◌, ◌≤◌, ◌<◌, ◌≡◌, refl, sym, ◌∙◌, ◌≢◌, ◌⊎◌, inl, inr, Bool, true, ◌&&◌,
  none, some, List, [], ◌∷◌, arith, ltb, ◌==◌, if◌then◌else◌, ==_refl, ==_iff, Bool-cases, Bool-ext,
  length,
}
use cpptcpmultiplayer.Prelude.Maps.{find, contains, erase, Distinct, find-erase_ne}
use cpptcpmultiplayer.Prelude.Maps.Every.{Every, Every-find, Every-of_find, Every-weaken}
use mathlib.Core.Path.{subst}
use cpptcpmultiplayer.PlayerState.{PlayerState}
use cpptcpmultiplayer.GameState.{GameState, get_vote_tally, get_player_count}
use cpptcpmultiplayer.GameState.Voting.{votes_for, get_vote_tally_lem}
use cpptcpmultiplayer.GameState.Invariant.{IsValid}
use cpptcpmultiplayer.GameServer.Ballot.{find_winner, Outcome, count_ballot}

-- No target of the tally has more than the maximum, which is not below where the loop started.
find_winner-max :
    (tally : List (ℕ × ℕ)) (max winner : ℕ)
    → (max ≤ (find_winner tally max winner).0)
      × Every (λ _ votes. votes ≤ (find_winner tally max winner).0) tally
unfolding find_winner
find_winner-max [] max winner = (omega arith, tt)
find_winner-max ((t, n) ∷ tally) max winner =
    let (low, all) =
      find_winner-max tally (if ltb max n then n else max) (if ltb max n then t else winner) in
    (ground arith, (ground arith, all))

find_later :
    (t n w m : ℕ) (tally : List (ℕ × ℕ))
    → find t tally ≡ none
    → find w tally ≡ some m
    → find w ((t, n) ∷ tally) ≡ some m
unfolding find
find_later t n w m tally h e = elim (Bool-cases (t == w)) [
  | inl q ↦ absurd (cc ((==_iff t w).0 q))
  | inr q ↦ rw q e
]

find_here : (t n w m : ℕ) (tally : List (ℕ × ℕ)) → m ≡ n → w ≡ t → find w ((t, n) ∷ tally) ≡ some m
unfolding find
find_here t n w m tally e q = ground arith

-- The winner is in the tally with the maximum, or the loop found nothing above its start.
find_winner-found :
    (tally : List (ℕ × ℕ)) (max winner : ℕ)
    → Distinct tally
    → (find (find_winner tally max winner).1 tally ≡ some (find_winner tally max winner).0)
      ⊎ (((find_winner tally max winner).0 ≡ max) × ((find_winner tally max winner).1 ≡ winner))
unfolding find_winner
find_winner-found [] max winner d = inr (refl, refl)
find_winner-found ((t, n) ∷ tally) max winner d = elim (Bool-cases (ltb max n)) [
  | inl q ↦
      rw (q, find_winner)
        (elim (find_winner-found tally n t d.1) [
          | inl e ↦ inl (find_later t n _ _ tally d.0 e)
          | inr e ↦ inl (find_here t n _ _ tally e.0 e.1)
        ])
  | inr q ↦
      rw (q, find_winner)
        (elim (find_winner-found tally max winner d.1) [
          | inl e ↦ inl (find_later t n _ _ tally d.0 e)
          | inr e ↦ inr e
        ])
]

-- Two targets share the votes.
votes_for_two :
    (a b : ℕ) (votes : List (ℕ × ℕ)) → a ≢ b → votes_for a votes + votes_for b votes ≤ length votes
unfolding votes_for
votes_for_two a b [] h = omega arith
votes_for_two a b ((voter, t) ∷ votes) h = ground (arith, votes_for_two a b votes h)

length-erase :
    (k : ℕ) (m : List (ℕ × PlayerState)) → contains k m ≡ true → length m ≡ suc (length (erase k m))
unfolding contains find erase
length-erase k [] h = cc
length-erase k ((j, p) ∷ m) h = ground (arith, length-erase k m)

-- Nobody votes twice, so there are no more votes than players.
votes-le-players :
    (votes : List (ℕ × ℕ)) (players : List (ℕ × PlayerState))
    → Distinct votes
    → Every (λ voter _. contains voter players ≡ true) votes
    → length votes ≤ length players
votes-le-players [] players d h = omega arith
votes-le-players ((voter, t) ∷ votes) players d h =
    omega (
      arith,
      length-erase voter players h.0,
      votes-le-players votes (erase voter players) d.1 others,
    )
  where
    others : Every (λ k _. contains k (erase voter players) ≡ true) votes
    others = Every-of_find _ votes d.1 λ k v e.
        unfold contains in
        rw (find-erase_ne k voter players (λ q. cc d.0)) (Every-find _ k v votes h.1 e)

-- More than half of the players voted for the target.
unfoldable pub wins : ℕ → GameState → Bool
wins target g = ltb (length g.players) (2 * votes_for target g.votes)

module _ (g : GameState) (v : IsValid g) (fits : length g.votes < 2 ^ 32) where
  votes_bound : length g.votes ≤ length g.players
  votes_bound =
      votes-le-players g.votes g.players v.votes_distinct
        (Every-weaken _ _ g.votes (λ a b h. h.0) v.votes_by_players)

  -- No two targets have a majority.
  pub wins_unique : (a b : ℕ) → wins a g ≡ true → wins b g ≡ true → a ≡ b
  unfolding wins
  wins_unique a b h k = elim (Bool-cases (a == b)) [
    | inl q ↦ (==_iff a b).0 q
    | inr q ↦ absurd (ground (arith, votes_for_two a b g.votes (λ e. ground arith), votes_bound))
  ]

  abbrev outcome : Outcome
  outcome = count_ballot g

  max_votes-le : (t : ℕ) → votes_for t g.votes ≤ outcome.max_votes
  unfolding count_ballot
  max_votes-le t = elim (Bool-cases (votes_for t g.votes == 0)) [
    | inl q ↦ ground arith
    | inr q ↦
        Every-find _ t (votes_for t g.votes) (get_vote_tally g)
          (find_winner-max (get_vote_tally g) 0 0).1 ((get_vote_tally_lem g fits).1 t ∙ rw q)
  ]

  winner-votes : (votes_for outcome.winner_id g.votes ≡ outcome.max_votes) ⊎ (outcome.max_votes ≡ 0)
  unfolding count_ballot
  winner-votes = elim (find_winner-found (get_vote_tally g) 0 0 (get_vote_tally_lem g fits).0) [
    | inl e ↦
        inl
          (ground (arith, e, (get_vote_tally_lem g fits).1 (find_winner (get_vote_tally g) 0 0).1))
    | inr e ↦ inr e.0
  ]

  majority_lem : outcome.has_majority ≡ ltb (length g.players / 2) outcome.max_votes
  unfolding count_ballot get_player_count
  majority_lem = refl

  -- Only a majority is reported as one.
  pub outcome-wins : outcome.has_majority ≡ true → wins outcome.winner_id g ≡ true
  unfolding wins
  outcome-wins h = ground (arith, majority_lem, winner-votes)

  wins-majority : (t : ℕ) → wins t g ≡ true → outcome.has_majority ≡ true
  unfolding wins
  wins-majority t h = ground (arith, majority_lem, max_votes-le t)

  -- A majority is found, and its target is the winner.
  pub wins-outcome :
      (t : ℕ) → wins t g ≡ true → (outcome.has_majority ≡ true) × (outcome.winner_id ≡ t)
  wins-outcome t h =
      let m = wins-majority t h in (m, wins_unique outcome.winner_id t (outcome-wins m) h)

  and_parts : (a b : Bool) → (a && b) ≡ true → (a ≡ true) × (b ≡ true)
  and_parts a b h = ground arith

  wins_iff : (t : ℕ) → wins t g ≡ (outcome.has_majority && (outcome.winner_id == t))
  wins_iff t =
      Bool-ext _ _ (λ h. let (m, w) = wins-outcome t h in rw (m, w) (==_refl t))
        λ h.
          let (m, w) = and_parts outcome.has_majority (outcome.winner_id == t) h in
          subst (λ k. wins k g ≡ true) ((==_iff outcome.winner_id t).0 w) (outcome-wins m)

  -- The server's count of a vote: a player has more than half of the votes of all players exactly if
  -- the count reports a majority with that player as the winner, and the liar counts as caught exactly
  -- if the liar has such a majority.
  pub count_ballot_lem :
      ((t : ℕ) → wins t g ≡ (outcome.has_majority && (outcome.winner_id == t)))
      × (outcome.liar_caught ≡ wins g.current_liar_id g)
  count_ballot_lem = (wins_iff, unfold count_ballot in sym (wins_iff g.current_liar_id))
