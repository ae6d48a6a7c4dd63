-- ===== src/GameState/Invariant/Points.antt =====
-- `calculateAndApplyScores` keeps the game well formed.
use cpptcpmultiplayer.Prelude.{
  ℕ, ◌≡◌, refl, sym, ◌∙◌, inl, inr, Bool, true, not, ◌&&◌, ◌||◌, Option, none, some, List, arith,
  ◌==◌, Option-cases, if-elim,
}
use cpptcpmultiplayer.Prelude.Maps.{
  find, contains, map_values, Distinct, insert-Distinct, find-insert,
}
use cpptcpmultiplayer.Prelude.Maps.Every.{
  Every, Every-find, Every-insert, Every-weaken, Every-of_find, Every-map_values, find-map_values,
  map_values-Distinct,
}
use cpptcpmultiplayer.PlayerState.{PlayerState, PlayerRole}
use cpptcpmultiplayer.GameState.{GameState}
use cpptcpmultiplayer.GameState.Scores.{
  add_score, reward_guessers, reward_liar, calculate_and_apply_scores,
}
use cpptcpmultiplayer.GameState.Invariant.{HasLiar, IsValid}

-- The role of a player, if there is the player.
role_at : ℕ → List (ℕ × PlayerState) → Option PlayerRole
role_at id m = elim (find id m) [ none ↦ none | some p ↦ some p.role ]

-- Same players, with the same ids and roles; only scores may differ.
pub record SameRoles (m n : List (ℕ × PlayerState)) : Type 0 where
  distinct : Distinct n
  ids : Every (λ id p. p.id ≡ id) n
  roles : (id : ℕ) → role_at id n ≡ role_at id m

role_at-some :
    (id : ℕ) (m n : List (ℕ × PlayerState)) (p : PlayerState)
    → role_at id n ≡ role_at id m
    → find id m ≡ some p
    → (q : PlayerState) × (find id n ≡ some q) × (q.role ≡ p.role)
unfolding role_at
role_at-some id m n p s e = elim (Option-cases (find id n)) [
  | inl f ↦ absurd (ground arith)
  | inr (q, f) ↦ (q, f, ground arith)
]

role_at-map_values :
    (f : ℕ → PlayerState → PlayerState) (id : ℕ) (m : List (ℕ × PlayerState))
    → ((k : ℕ) (p : PlayerState) → (f k p).role ≡ p.role)
    → role_at id (map_values f m) ≡ role_at id m
unfolding role_at
role_at-map_values f id m h = elim (Option-cases (find id m)) [
  | inl e ↦ ground (arith, find-map_values f id m)
  | inr (p, e) ↦ ground (arith, find-map_values f id m, h id p)
]

-- Well-formedness looks at no score.
SameRoles-IsValid :
    (g : GameState) (players : List (ℕ × PlayerState))
    → SameRoles g.players players
    → g.round_active ≡ true
    → IsValid g
    → IsValid (record g { players = players })
SameRoles-IsValid g players s active v = record {
  players_distinct = s.distinct;
  votes_distinct = v.votes_distinct;
  ids = s.ids;
  votes_by_players =
      Every-weaken _ _ g.votes (λ a b h. (still a h.0, still b h.1)) v.votes_by_players;
  one_liar = Every-of_find _ players s.distinct λ k q e r.
      let (p, f, same) = role_at-some k players g.players q (sym (s.roles k)) e in
      Every-find _ k p g.players v.one_liar f (same ∙ r);
  liar_present = present v.liar_present;
  idle = λ q. cc;
}
  where
    still : (k : ℕ) → contains k g.players ≡ true → contains k players ≡ true
    still k h = elim (Option-cases (find k g.players)) [
      | inl e ↦ absurd (unfold contains in ground arith)
      | inr (p, e) ↦
          let (q, f, same) = role_at-some k g.players players p (s.roles k) e in
          unfold contains in rw f
    ]

    present : HasLiar g.current_liar_id g.players → HasLiar g.current_liar_id players
    present (inl z) = inl z
    present (inr (p, e, r)) =
        let (q, f, same) =
          role_at-some g.current_liar_id g.players players p (s.roles g.current_liar_id) e in
        inr (q, f, same ∙ r)

module _ (g : GameState) (v : IsValid g) where
  reward_guessers-SameRoles : SameRoles g.players (reward_guessers g)
  unfolding reward_guessers
  reward_guessers-SameRoles = record {
    distinct = map_values-Distinct _ g.players v.players_distinct;
    ids = Every-map_values _ _ _ g.players (λ k p h. ground arith) v.ids;
    roles = λ id. role_at-map_values _ id g.players (λ k p. ground arith);
  }

  reward_liar-SameRoles : SameRoles g.players (reward_liar g)
  unfolding reward_liar role_at
  reward_liar-SameRoles = elim (Option-cases (find g.current_liar_id g.players)) [
    | inl e ↦
        rw (e, reward_liar)
          (record { distinct = v.players_distinct; ids = v.ids; roles = λ id. refl })
    | inr (p, e) ↦
        rw (e, reward_liar)
          (record {
            distinct = insert-Distinct g.current_liar_id _ g.players v.players_distinct;
            ids =
                Every-insert _ g.current_liar_id _ g.players
                  (Every-find _ g.current_liar_id p g.players v.ids e) v.ids;
            roles =
                λ id. ground (arith, find-insert id g.current_liar_id (add_score 2 p) g.players);
          })
  ]

  pub calculate_and_apply_scores-IsValid :
      (caught : Bool) (out : ℕ) (majority : Bool)
      → IsValid (calculate_and_apply_scores caught out majority g)
  unfolding calculate_and_apply_scores
  calculate_and_apply_scores-IsValid caught out majority =
      if-elim IsValid (not g.round_active || (g.current_liar_id == 0)) _ _ (λ _. v)
        λ active.
          if-elim IsValid (caught && (out == g.current_liar_id) && majority) _ _
            (λ _. SameRoles-IsValid g _ reward_guessers-SameRoles (ground arith) v)
            λ _.
              if-elim IsValid (not caught && majority && not (out == g.current_liar_id)) _ _
                (λ _. SameRoles-IsValid g _ reward_liar-SameRoles (ground arith) v) λ _. v
