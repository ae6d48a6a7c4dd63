-- ===== src/GameState/Fresh.antt =====
-- What a round starts with: `startNewRound` of src/common/game_state.cpp.
use cpptcpmultiplayer.Prelude.{
  ℕ, zero, suc, ◌+◌, ◌-◌, ◌<◌, ◌≡◌, refl, ap, ◌∙◌, ◌⊎◌, inl, inr, Bool, true, false, ◌||◌, none,
  some, List, [], ◌∷◌, arith, ltb, ◌==◌, if◌then◌else◌, Bool-cases, Option-cases, length, get_or,
  if-elim,
}
use cpptcpmultiplayer.Prelude.Maps.{find, contains, map_values, keys, Distinct}
use cpptcpmultiplayer.Prelude.Maps.Every.{
  Every, Every-map_values, keys-map_values, find-map_values, contains-map_values,
  map_values-Distinct,
}
use cpptcpmultiplayer.Prelude.Int.{ℤ, pos}
use cpptcpmultiplayer.PlayerState.{PlayerState, liar, guesser}
use cpptcpmultiplayer.GameState.{GameState, clear_round, can_start_round}
use cpptcpmultiplayer.GameState.Round.{
  Random, InRange, topic_words, assign_roles, start_new_round, pick_topic_and_word,
  pick_random_topic_and_word,
}
use cpptcpmultiplayer.GameState.Scores.{is_liar, get_player_score}
use cpptcpmultiplayer.GameState.Invariant.{IsValid}
use cpptcpmultiplayer.GameState.Invariant.Start.{drawn_liar, drawn_liar-contains}

-- The word is one of the list.
abbrev pub IsWordOf : List ℕ → List (List ℕ) → Type 0
IsWordOf w [] = ⊥
IsWordOf w (x ∷ xs) = (x ≡ w) ⊎ IsWordOf w xs

-- The topic is in the table, and the word is one of its words.
abbrev pub IsTopic : List (List ℕ × List (List ℕ)) → List ℕ → List ℕ → Type 0
IsTopic [] topic word = ⊥
IsTopic ((t, words) ∷ table) topic word =
    ((t ≡ topic) × IsWordOf word words) ⊎ IsTopic table topic word

get_or-IsWordOf :
    (words : List (List ℕ)) (i : ℕ) → i < length words → IsWordOf (get_or words i []) words
get_or-IsWordOf [] i h = absurd (omega arith)
get_or-IsWordOf (w ∷ words) zero h = inl refl
get_or-IsWordOf (w ∷ words) (suc i) h = inr (get_or-IsWordOf words i (omega arith))

-- No topic of the table is without a word.
abbrev Filled : List (List ℕ × List (List ℕ)) → Type 0
Filled [] = Unit
Filled ((t, words) ∷ table) = (0 < length words) × Filled table

module _ (random : Random) (r : InRange random) where
  row-IsTopic :
      (table : List (List ℕ × List (List ℕ))) (i : ℕ)
      → Filled table
      → i < length table
      → let topic = get_or table i ([], []) in
        IsTopic table topic.0 (get_or topic.1 (random 1 (length topic.1 - 1)) [])
  row-IsTopic [] i f h = absurd (omega arith)
  row-IsTopic ((t, words) ∷ table) zero f h =
      inl (refl, get_or-IsWordOf words _ (omega (arith, r 1 (length words - 1))))
  row-IsTopic ((t, words) ∷ table) (suc i) f h = inr (row-IsTopic table i f.1 (omega arith))

  pick-IsTopic :
      (table : List (List ℕ × List (List ℕ)))
      → Filled table
      → 0 < length table
      → IsTopic table (pick_topic_and_word table random).0 (pick_topic_and_word table random).1
  unfolding pick_topic_and_word
  pick-IsTopic [] f h = absurd (omega arith)
  pick-IsTopic (row ∷ table) f h =
      row-IsTopic (row ∷ table) (random 0 (length table)) f (omega (arith, r 0 (length table)))

-- The number of players with the liar's role.
unfoldable pub liar_count : List (ℕ × PlayerState) → ℕ
liar_count [] = 0
liar_count ((id, p) ∷ m) = (if is_liar p.role then 1 else 0) + liar_count m

liar_count-assign_roles :
    (id : ℕ) (m : List (ℕ × PlayerState))
    → Distinct m
    → liar_count (assign_roles id m) ≡ (if contains id m then 1 else 0)
unfolding liar_count assign_roles map_values contains find
liar_count-assign_roles id [] d = refl
liar_count-assign_roles id ((k, p) ∷ m) d = ground (arith, liar_count-assign_roles id m d.1)

-- The state after a start: a round on, of a topic of the table and one of its words, without votes;
-- exactly one liar, whose id is stored, and everybody else a guesser; the same players and scores.
pub record IsFresh (before after : GameState) : Type 0 where
  pub round_on : after.round_active ≡ true
  pub no_votes : after.votes ≡ []
  pub topic_known : IsTopic topic_words after.current_topic after.current_word
  pub one_liar : liar_count after.players ≡ 1
  pub liar_plays : contains after.current_liar_id before.players ≡ true
  pub roles :
      Every (λ id p. p.role ≡ (if id == after.current_liar_id then liar else guesser)) after.players
  pub same_players : keys after.players ≡ keys before.players
  pub same_scores : (id : ℕ) → get_player_score id after ≡ get_player_score id before

any : (m : List (ℕ × PlayerState)) → Every (λ _ _. Unit {0}) m
any [] = tt
any ((k, p) ∷ m) = (tt, any m)

abbrev score_of : ℕ → List (ℕ × PlayerState) → ℤ
score_of id m = elim (find id m) [ none ↦ pos 0 | some p ↦ p.score ]

score_of-map_values :
    (f : ℕ → PlayerState → PlayerState) (id : ℕ) (m : List (ℕ × PlayerState))
    → ((k : ℕ) (p : PlayerState) → (f k p).score ≡ p.score)
    → score_of id (map_values f m) ≡ score_of id m
score_of-map_values f id m h = elim (Option-cases (find id m)) [
  | inl e ↦ ground (arith, find-map_values f id m)
  | inr (p, e) ↦ ground (arith, find-map_values f id m, h id p)
]

abbrev one_if : Bool → ℕ
one_if b = if b then 1 else 0

module _ (random : Random) (g : GameState) (r : InRange random) (v : IsValid g) where
  abbrev cleared : List (ℕ × PlayerState)
  cleared = (clear_round g).players

  abbrev who : ℕ
  who = drawn_liar random g

  abbrev started : GameState
  started = record (clear_round g) {
    current_topic = (pick_random_topic_and_word random).0;
    current_word = (pick_random_topic_and_word random).1;
    current_liar_id = who;
    players = assign_roles who cleared;
    round_active = true;
  }

  started-IsFresh : can_start_round g ≡ true → IsFresh g started
  unfolding can_start_round clear_round assign_roles pick_random_topic_and_word
  started-IsFresh h = record {
    round_on = refl;
    no_votes = refl;
    topic_known = pick-IsTopic random r topic_words (omega arith) (omega arith);
    one_liar =
        liar_count-assign_roles who cleared (map_values-Distinct _ g.players v.players_distinct)
        ∙ ap one_if (contains-map_values _ who g.players ∙ plays);
    liar_plays = plays;
    roles = Every-map_values _ _ _ cleared (λ k p _. refl) (any cleared);
    same_players = keys-map_values _ cleared ∙ keys-map_values _ g.players;
    same_scores = λ id.
        unfold get_player_score in
        score_of-map_values _ id cleared (λ k p. refl)
        ∙ score_of-map_values _ id g.players (λ k p. refl);
  }
    where
      plays : contains who g.players ≡ true
      plays = drawn_liar-contains random g r (ground arith)

  -- In a well-formed game, and with a generator that stays in its bounds, a start with 3 to 6 players gives a fresh round; with any other number it changes nothing.
  pub start_new_round_lem :
      ((can_start_round g ≡ true) × IsFresh g (start_new_round random g))
      ⊎ ((can_start_round g ≡ false) × (start_new_round random g ≡ g))
  unfolding start_new_round
  start_new_round_lem = elim (Bool-cases (can_start_round g)) [
    | inl h ↦ inl (
      h,
      if-elim (IsFresh g) (ltb (length g.players) 3 || ltb 6 (length g.players)) _ _
          (λ q. unfold can_start_round in absurd (ground arith)) (λ _. started-IsFresh h),
    )
    | inr h ↦ inr (h, unfold can_start_round in ground arith)
  ]
