-- ===== src/GameServer/Ballot/Order.antt =====
-- The points of a round in src/server/game_server.cpp and the order of `votes_`, an unordered_map.
use cpptcpmultiplayer.Prelude.{
  ℕ, ◌+◌, ◌*◌, ◌^◌, ◌<◌, ◌≡◌, refl, sym, ap, ◌∙◌, ◌≢◌, inl, inr, true, false, not, ◌&&◌, none, some,
  List, [], ◌∷◌, arith, ltb, ◌==◌, if◌then◌else◌, ==_refl, ==_iff, Bool-cases, Bool-ext, length,
}
use mathlib.Core.Path.{subst}
use mathlib.Core.Quot
use mathlib.Core.Quot.{Quot, Quot-set}
use native.Mathlib.Nat.{ℕ_set}
use cpptcpmultiplayer.Prelude.Maps.{find, erase, Distinct, find-erase, erase-Distinct}
use cpptcpmultiplayer.PlayerState.{PlayerState, no_role, set_role}
use cpptcpmultiplayer.GameState.{GameState}
use cpptcpmultiplayer.GameState.Scores.{voted_for, add_score}
use cpptcpmultiplayer.GameState.Voting.{votes_for}
use cpptcpmultiplayer.GameState.Invariant.{IsValid}
use cpptcpmultiplayer.GameServer.Ballot.{settle}
use cpptcpmultiplayer.GameServer.Ballot.Majority.{wins}
use cpptcpmultiplayer.GameServer.Ballot.Points.{innocent_wins, rule_points, settle_lem}

votes_for-erase :
    (t k v : ℕ) (m : List (ℕ × ℕ))
    → find k m ≡ some v
    → votes_for t m ≡ (if v == t then 1 else 0) + votes_for t (erase k m)
unfolding votes_for find erase
votes_for-erase t k v [] e = cc
votes_for-erase t k v ((j, w) ∷ m) e = ground (arith, votes_for-erase t k v m)

nothing_found : (m : List (ℕ × ℕ)) → ((k : ℕ) → find k m ≡ none) → m ≡ []
unfolding find
nothing_found [] h = refl
nothing_found ((k, v) ∷ m) h = (let e : none ≡ some v = sym (h k) ∙ rw (==_refl k) in cc)

-- Two lists of entries are the same map.
abbrev pub SameVotes : List (ℕ × ℕ) → List (ℕ × ℕ) → Type 0
SameVotes m n = (k : ℕ) → find k m ≡ find k n

SameVotes-erase :
    (k v : ℕ) (m n : List (ℕ × ℕ))
    → Distinct ((k, v) ∷ m)
    → Distinct n
    → SameVotes ((k, v) ∷ m) n
    → SameVotes m (erase k n)
unfolding find
SameVotes-erase k v m n d f h j = elim (Bool-cases (k == j)) [
  | inl q ↦ subst (λ i. find i m ≡ none) ((==_iff k j).0 q) d.0 ∙ sym (find-erase j k n f ∙ rw q)
  | inr q ↦
      (let e : find j ((k, v) ∷ m) ≡ find j m = rw q in
        sym e ∙ h j ∙ sym (find-erase j k n f ∙ rw q))
]

votes_for-SameVotes :
    (t : ℕ) (m n : List (ℕ × ℕ))
    → Distinct m
    → Distinct n
    → SameVotes m n
    → votes_for t m ≡ votes_for t n
unfolding votes_for
votes_for-SameVotes t [] n d f h =
    ap (votes_for t) (sym (nothing_found n (λ k. sym (h k) ∙ unfold find in refl)))
votes_for-SameVotes t ((k, v) ∷ m) n d f h =
    let there : find k n ≡ some v = sym (h k) ∙ unfold find in rw (==_refl k) in
    let rest =
      votes_for-SameVotes t m (erase k n) d.1 (erase-Distinct k n f)
        (SameVotes-erase k v m n d f h) in
    ap (λ x. (if v == t then 1 else 0) + x) rest ∙ sym (votes_for-erase t k v n there)

-- An innocent player wins exactly if some player other than the liar has a majority.
innocent_wins-find :
    (g : GameState) (votes : List (ℕ × ℕ))
    → innocent_wins g votes ≡ true
    → (t : ℕ) × (wins t g ≡ true) × ((t == g.current_liar_id) ≡ false)
unfolding innocent_wins
innocent_wins-find g [] e = cc
innocent_wins-find g ((voter, t) ∷ votes) e =
    elim (Bool-cases (wins t g && not (t == g.current_liar_id))) [
      | inl q ↦ (t, ground arith, ground arith)
      | inr q ↦ innocent_wins-find g votes (ground arith)
    ]

find-innocent_wins :
    (g : GameState) (votes : List (ℕ × ℕ)) (t : ℕ)
    → wins t g ≡ true
    → (t == g.current_liar_id) ≡ false
    → 0 < votes_for t votes
    → innocent_wins g votes ≡ true
unfolding innocent_wins votes_for
find-innocent_wins g [] t w o h = absurd (omega arith)
find-innocent_wins g ((voter, u) ∷ votes) t w o h = elim (Bool-cases (u == t)) [
  | inl q ↦
      let same : (wins u g && not (u == g.current_liar_id)) ≡ true =
        subst (λ i. (wins i g && not (i == g.current_liar_id)) ≡ true) (sym ((==_iff u t).0 q))
          (ground arith) in
      ground arith
  | inr q ↦ let rest = find-innocent_wins g votes t w o (ground arith) in ground arith
]

-- The votes as a map: lists of entries without a voter twice, up to their order.
abbrev pub Entries : Type 0
Entries = (m : List (ℕ × ℕ)) × Distinct m

abbrev SameMap : Entries → Entries → Type 0
SameMap a b = SameVotes a.0 b.0

abbrev pub VoteMap : Type 0
VoteMap = Quot SameMap

-- The game with these votes.
abbrev pub with_votes : GameState → List (ℕ × ℕ) → GameState
with_votes g votes = record g { votes = votes }

wins-SameMap :
    (g : GameState) (a b : Entries)
    → SameMap a b
    → (t : ℕ) → wins t (with_votes g a.0) ≡ wins t (with_votes g b.0)
unfolding wins
wins-SameMap g a b h t =
    ap (λ n. ltb (length g.players) (2 * n)) (votes_for-SameVotes t a.0 b.0 a.1 b.1 h)

innocent_wins-SameMap :
    (g : GameState) (a b : Entries)
    → SameMap a b
    → innocent_wins (with_votes g a.0) a.0 ≡ true
    → innocent_wins (with_votes g b.0) b.0 ≡ true
innocent_wins-SameMap g a b h e =
    let (t, w, other) = innocent_wins-find (with_votes g a.0) a.0 e in
    let w' : wins t (with_votes g b.0) ≡ true = sym (wins-SameMap g a b h t) ∙ w in
    find-innocent_wins (with_votes g b.0) b.0 t w' other (unfold wins in ground arith)

rule_points-SameMap :
    (g : GameState) (id : ℕ) (p : PlayerState) (a b : Entries)
    → SameMap a b
    → rule_points (with_votes g a.0) id p ≡ rule_points (with_votes g b.0) id p
rule_points-SameMap g id p a b h =
    let innocent : innocent_wins (with_votes g a.0) a.0 ≡ innocent_wins (with_votes g b.0) b.0 =
      Bool-ext _ _ (innocent_wins-SameMap g a b h) (innocent_wins-SameMap g b a (λ k. sym (h k))) in
    let voted : voted_for id g.current_liar_id a.0 ≡ voted_for id g.current_liar_id b.0 =
      unfold voted_for in
      ap (λ o. elim o [ none ↦ false | some t ↦ t == g.current_liar_id ]) (h id) in
    ground (arith, wins-SameMap g a b h g.current_liar_id, innocent, voted)

-- The points of a player by the rules, from the map of the votes.
map_points : GameState → ℕ → PlayerState → VoteMap → ℕ
map_points g id p =
    Quot.lift ℕ_set (λ m. rule_points (with_votes g m.0) id p)
      (λ a b h. rule_points-SameMap g id p a b h)

-- The votes of a well-formed game, as a map.
abbrev pub vote_map : (g : GameState) → IsValid g → VoteMap
vote_map g v = Quot.mk (g.votes, v.votes_distinct)

settle-map_points :
    (g : GameState) (v : IsValid g) (id : ℕ) (p : PlayerState)
    → length g.votes < 2 ^ 32
    → g.round_active ≡ true
    → g.current_liar_id ≢ 0
    → find id g.players ≡ some p
    → find id (settle g).players
      ≡ some (set_role no_role (add_score (map_points g id p (vote_map g v)) p))
unfolding map_points
settle-map_points g v id p fits on liar e = settle_lem g v fits id p on liar e

-- Take a round of a well-formed game with a liar, and the same game but with its votes in another order of
-- the map's entries, each with fewer than 2 ^ 32 votes. Once the votes are counted, every player has the
-- same state in both: the points do not depend on the order in which the map holds the votes.
pub settle-SameVotes :
    (g : GameState) (votes : List (ℕ × ℕ)) (id : ℕ) (p : PlayerState)
    → IsValid g
    → IsValid (with_votes g votes)
    → SameVotes g.votes votes
    → length g.votes < 2 ^ 32
    → length votes < 2 ^ 32
    → g.round_active ≡ true
    → g.current_liar_id ≢ 0
    → find id g.players ≡ some p
    → find id (settle g).players ≡ find id (settle (with_votes g votes)).players
unfolding map_points
settle-SameVotes g votes id p v u same fits more on liar e =
    let map : vote_map g v ≡ vote_map (with_votes g votes) u = Quot.sound same in
    settle-map_points g v id p fits on liar e
    ∙ ap (λ m. some (set_role no_role (add_score (map_points g id p m) p))) map
    ∙ sym (settle-map_points (with_votes g votes) u id p more on liar e)
