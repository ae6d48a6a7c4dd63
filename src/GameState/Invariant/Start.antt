-- ===== src/GameState/Invariant/Start.antt =====
-- `startNewRound` keeps the game well formed.
use cpptcpmultiplayer.Prelude.{
  ℕ, zero, suc, ◌-◌, ◌≤◌, ◌<◌, ◌≡◌, refl, ap, ◌∙◌, inl, inr, true, ◌||◌, List, [], ◌∷◌, arith, ltb,
  ==_refl, Option-cases, length, get_or, if-elim,
}
use cpptcpmultiplayer.Prelude.Maps.{find, contains, keys}
use cpptcpmultiplayer.Prelude.Maps.Every.{
  Every, Every-map_values, keys-map_values, find-map_values, contains-map_values,
  map_values-Distinct,
}
use cpptcpmultiplayer.PlayerState.{PlayerState, liar, set_role}
use cpptcpmultiplayer.GameState.{GameState, clear_round}
use cpptcpmultiplayer.GameState.Round.{Random, InRange, assign_roles, start_new_round}
use cpptcpmultiplayer.GameState.Invariant.{HasLiar, IsValid, clear_round-IsValid}

length-keys : (m : List (ℕ × PlayerState)) → length (keys m) ≡ length m
unfolding keys
length-keys [] = refl
length-keys ((k, p) ∷ m) = ap suc (length-keys m)

-- An index below the number of players leads to a player.
pub key_at-contains :
    (m : List (ℕ × PlayerState)) (i : ℕ) → i < length m → contains (get_or (keys m) i 0) m ≡ true
unfolding contains find keys
key_at-contains [] i h = absurd (omega arith)
key_at-contains ((k, p) ∷ m) zero h = ground arith
key_at-contains ((k, p) ∷ m) (suc i) h = ground (arith, key_at-contains m i)

module _ (random : Random) (g : GameState) where
  abbrev pub drawn_liar : ℕ
  drawn_liar =
      get_or (keys (clear_round g).players) (random 2 (length (keys (clear_round g).players) - 1)) 0

  -- The liar is one of the players.
  pub drawn_liar-contains :
      InRange random → 1 ≤ length g.players → contains drawn_liar g.players ≡ true
  unfolding clear_round
  drawn_liar-contains ok_random h =
      rw (keys-map_values _ g.players, length-keys g.players)
        (key_at-contains g.players _ (omega (arith, ok_random 2 (length g.players - 1))))

-- After the roles are given the liar's id leads to the liar, and to nobody else.
assign_roles-HasLiar :
    (id : ℕ) (m : List (ℕ × PlayerState)) → contains id m ≡ true → HasLiar id (assign_roles id m)
unfolding assign_roles contains
assign_roles-HasLiar id m h = elim (Option-cases (find id m)) [
  | inl e ↦ absurd (ground arith)
  | inr (p, e) ↦ inr (set_role liar p, rw (find-map_values _ id m, e, ==_refl id), refl)
]

assign_roles-one :
    (id : ℕ) (m : List (ℕ × PlayerState))
    → Every (λ k p. p.id ≡ k) m
    → Every (λ k p. p.role ≡ liar → k ≡ id) (assign_roles id m)
unfolding assign_roles
assign_roles-one id m h = Every-map_values _ _ _ m (λ k p _ r. ground arith) h

pub start_new_round-IsValid :
    (random : Random) (g : GameState)
    → InRange random
    → IsValid g
    → IsValid (start_new_round random g)
unfolding start_new_round
start_new_round-IsValid random g r v =
    if-elim IsValid (ltb (length g.players) 3 || ltb 6 (length g.players)) _ _ (λ _. v)
      λ enough.
        let w = clear_round-IsValid g v in
        let who = drawn_liar random g in
        record {
          players_distinct = map_values-Distinct _ (clear_round g).players w.players_distinct;
          votes_distinct = tt;
          ids = Every-map_values _ _ _ (clear_round g).players (λ k p h. h) w.ids;
          votes_by_players = tt;
          one_liar = assign_roles-one who (clear_round g).players w.ids;
          liar_present =
              assign_roles-HasLiar who (clear_round g).players (
                contains-map_values _ who g.players
                ∙ drawn_liar-contains random g r (ground arith));
          idle = λ q. cc;
        }
