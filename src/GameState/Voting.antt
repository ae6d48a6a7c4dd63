-- ===== src/GameState/Voting.antt =====
-- `submitVote` and `getVoteTally` of src/common/game_state.cpp against what they are for.
use cpptcpmultiplayer.Prelude.{
  ℕ, ◌+◌, ◌^◌, ◌≤◌, ◌<◌, ◌≡◌, refl, true, false, ◌||◌, none, some, List, [], ◌∷◌, arith, ltb, ◌==◌,
  if◌then◌else◌, length,
}
use cpptcpmultiplayer.Bytes.{to_u32}
use cpptcpmultiplayer.Prelude.Maps.{find, contains, insert, find-insert, Distinct, insert-Distinct}
use cpptcpmultiplayer.GameState.{GameState, submit_vote, get_vote_tally, tally_votes, count_vote}

-- A vote counts when a round is on, the voter has not voted, and both are players.
pub record MayVote (g : GameState) (voter target : ℕ) : Type 0 where
  pub round_on : g.round_active ≡ true
  pub not_voted : contains voter g.votes ≡ false
  pub voter_plays : contains voter g.players ≡ true
  pub target_plays : contains target g.players ≡ true

abbrev voted : ℕ → ℕ → GameState → GameState
voted voter target g = record g { votes = insert voter target g.votes }

submit_vote-MayVote :
    (voter target : ℕ) (g : GameState)
    → (submit_vote voter target g).1 ≡ true
    → MayVote g voter target
unfolding submit_vote
submit_vote-MayVote voter target g e = ground arith

MayVote-submit_vote :
    (voter target : ℕ) (g : GameState)
    → MayVote g voter target
    → submit_vote voter target g ≡ (voted voter target g, true)
unfolding submit_vote
MayVote-submit_vote voter target g m =
    rw (m.round_on, m.not_voted, m.voter_plays, m.target_plays, submit_vote)

contains-insert_self : (k v : ℕ) (m : List (ℕ × ℕ)) → contains k (insert k v m) ≡ true
unfolding contains
contains-insert_self k v m = ground (arith, find-insert k k v m)

-- A voter whose vote is recorded is refused.
voted_refused :
    (voter other : ℕ) (h : GameState)
    → contains voter h.votes ≡ true
    → submit_vote voter other h ≡ (h, false)
unfolding submit_vote
voted_refused voter other h e = ground arith

-- An accepted vote met all four conditions, is stored under its voter, and changes no other vote; the
-- voter's next vote, for whomever, is refused and changes nothing.
pub submit_vote_accepted :
    (voter target : ℕ) (g : GameState)
    → (submit_vote voter target g).1 ≡ true
    → let h = (submit_vote voter target g).0 in
      MayVote g voter target
      × ((k : ℕ) → find k h.votes ≡ (if voter == k then some target else find k g.votes))
      × (h.players ≡ g.players)
      × ((other : ℕ) → submit_vote voter other h ≡ (h, false))
submit_vote_accepted voter target g e =
    let m = submit_vote-MayVote voter target g e in
    rw (MayVote-submit_vote voter target g m) (
      m,
      (λ k. find-insert k voter target g.votes),
      refl,
      (λ other. voted_refused voter other _ (contains-insert_self voter target g.votes)),
    )

-- A vote that does not meet the conditions is refused, and changes nothing.
pub submit_vote_refused :
    (voter target : ℕ) (g : GameState)
    → (submit_vote voter target g).1 ≡ false
    → (submit_vote voter target g ≡ (g, false)) × (¬ MayVote g voter target)
unfolding submit_vote
submit_vote_refused voter target g e =
    (ground arith, λ m. cc (MayVote-submit_vote voter target g m))

-- The number of votes for a target.
unfoldable pub votes_for : ℕ → List (ℕ × ℕ) → ℕ
votes_for target [] = 0
votes_for target ((voter, t) ∷ votes) = (if t == target then 1 else 0) + votes_for target votes

votes_for-le : (target : ℕ) (votes : List (ℕ × ℕ)) → votes_for target votes ≤ length votes
unfolding votes_for
votes_for-le target [] = omega arith
votes_for-le target ((voter, t) ∷ votes) = ground (arith, votes_for-le target votes)

-- The count of a key, which is 0 where the key is missing.
abbrev pub count_of : ℕ → List (ℕ × ℕ) → ℕ
count_of t tally = elim (find t tally) [ none ↦ 0 | some n ↦ n ]

count_of-count_vote :
    (t target : ℕ) (tally : List (ℕ × ℕ))
    → count_of target tally + 1 < 2 ^ 32
    → count_of t (count_vote target tally) ≡ count_of t tally + (if target == t then 1 else 0)
unfolding count_vote
count_of-count_vote t target tally h =
    ground (arith, find-insert t target (to_u32 (count_of target tally + 1)) tally)

contains-count_vote :
    (t target : ℕ) (tally : List (ℕ × ℕ))
    → contains t (count_vote target tally) ≡ (target == t) || contains t tally
unfolding count_vote contains
contains-count_vote t target tally =
    ground (arith, find-insert t target (to_u32 (count_of target tally + 1)) tally)

-- The tally of the votes, over a tally that is there already.
count_of-tally_votes :
    (t : ℕ) (votes tally : List (ℕ × ℕ)) (b : ℕ)
    → ((k : ℕ) → count_of k tally ≤ b)
    → b + length votes < 2 ^ 32
    → count_of t (tally_votes votes tally) ≡ count_of t tally + votes_for t votes
unfolding tally_votes votes_for
count_of-tally_votes t [] tally b below h = omega arith
count_of-tally_votes t ((voter, target) ∷ votes) tally b below h =
    let one : (k : ℕ)
        → count_of k (count_vote target tally) ≡ count_of k tally + (if target == k then 1 else 0) =
      λ k. count_of-count_vote k target tally (omega (arith, below target)) in
    let grown : (k : ℕ) → count_of k (count_vote target tally) ≤ b + 1 =
      λ k. ground (arith, one k, below k) in
    omega (
      arith,
      one t,
      count_of-tally_votes t votes (count_vote target tally) (b + 1) grown (omega arith),
    )

contains-tally_votes :
    (t : ℕ) (votes tally : List (ℕ × ℕ))
    → contains t (tally_votes votes tally) ≡ contains t tally || ltb 0 (votes_for t votes)
unfolding tally_votes votes_for
contains-tally_votes t [] tally = ground arith
contains-tally_votes t ((voter, target) ∷ votes) tally = ground (
  arith,
  contains-tally_votes t votes (count_vote target tally),
  contains-count_vote t target tally,
)

tally_votes-Distinct :
    (votes tally : List (ℕ × ℕ)) → Distinct tally → Distinct (tally_votes votes tally)
unfolding tally_votes count_vote
tally_votes-Distinct [] tally d = d
tally_votes-Distinct ((voter, target) ∷ votes) tally d =
    tally_votes-Distinct votes _ (insert-Distinct target _ tally d)

-- With fewer than 2 ^ 32 votes, the tally has each target once, with the number of votes for it, and
-- has no target without a vote.
pub get_vote_tally_lem :
    (g : GameState)
    → length g.votes < 2 ^ 32
    → Distinct (get_vote_tally g)
      × ((t : ℕ)
          → find t (get_vote_tally g)
            ≡ (if votes_for t g.votes == 0 then none else some (votes_for t g.votes)))
unfolding get_vote_tally
get_vote_tally_lem g h = (tally_votes-Distinct g.votes [] tt, λ t. each t)
  where
    each :
        (t : ℕ)
        → find t (tally_votes g.votes [])
          ≡ (if votes_for t g.votes == 0 then none else some (votes_for t g.votes))
    each t =
        unfold contains find in
        ground (
          arith,
          contains-tally_votes t g.votes [],
          count_of-tally_votes t g.votes [] 0 (λ k. omega arith) (omega arith),
        )
