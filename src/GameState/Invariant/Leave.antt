-- ===== src/GameState/Invariant/Leave.antt =====
-- `removePlayer` keeps the game well formed, and leaves no trace of the player.
use cpptcpmultiplayer.Prelude.{
  ℕ, ◌≡◌, refl, ◌∙◌, ◌≢◌, inl, inr, Bool, true, Option, none, some, List, [], arith, ◌==◌,
  if◌then◌else◌, Bool-cases, if-elim,
}
use cpptcpmultiplayer.Prelude.Maps.{
  find, contains, erase, erase_if, erase-Distinct, find-erase_self, find-erase, find-erase_ne,
}
use cpptcpmultiplayer.Prelude.Maps.Every.{
  Every, Every-find, Every-erase, Every-erase_if, Every-of_find, find-erase_if-none,
  erase_if-Distinct, erase_if-Every, find-erase_if_lem,
}
use cpptcpmultiplayer.PlayerState.{PlayerState, liar}
use cpptcpmultiplayer.GameState.{GameState, remove_player}
use cpptcpmultiplayer.GameState.Invariant.{IsVote, HasLiar, IsValid}

-- The vote of another voter once a player has left: none if it is for that player.
abbrev pub vote_without : ℕ → Option ℕ → Option ℕ
vote_without id none = none
vote_without id (some t) = if t == id then none else some t

module _ (id : ℕ) (g : GameState) (v : IsValid g) where
  abbrev left_players : List (ℕ × PlayerState)
  left_players = erase id g.players

  abbrev left_votes : List (ℕ × ℕ)
  left_votes = erase_if (λ target. target == id) (erase id g.votes)

  contains-left : (k : ℕ) → k ≢ id → contains k g.players ≡ true → contains k left_players ≡ true
  unfolding contains
  contains-left k n h = rw (find-erase_ne k id g.players n) h

  -- The player's own vote is gone.
  voter-gone : find id left_votes ≡ none
  voter-gone =
      find-erase_if-none _ id (erase id g.votes) (find-erase_self id g.votes v.votes_distinct)

  player-gone : find id left_players ≡ none
  player-gone = find-erase_self id g.players v.players_distinct

  left-votes-valid : Every (IsVote left_players) left_votes
  left-votes-valid =
      Every-of_find _ left_votes
        (erase_if-Distinct _ (erase id g.votes) (erase-Distinct id g.votes v.votes_distinct))
        λ voter target e.
          let old =
            Every-find _ voter target left_votes
              (Every-erase_if _ _ (erase id g.votes) (Every-erase _ id g.votes v.votes_by_players))
              e in
          let kept = Every-find _ voter target left_votes (erase_if-Every _ (erase id g.votes)) e in
          (
            contains-left voter (λ q. cc voter-gone) old.0,
            contains-left target (λ q. ground arith) old.1,
          )

  abbrev left_liar : ℕ
  left_liar = if g.current_liar_id == id then 0 else g.current_liar_id

  one-left : Every (λ k p. p.role ≡ liar → k ≡ left_liar) left_players
  one-left =
      Every-of_find _ left_players (erase-Distinct id g.players v.players_distinct) λ k p e r.
        let was : k ≡ g.current_liar_id =
          Every-find _ k p left_players (Every-erase _ id g.players v.one_liar) e r in
        let other : k ≢ id = λ q. cc player-gone in ground arith

  liar-left : HasLiar g.current_liar_id g.players → HasLiar left_liar left_players
  liar-left (inl z) = inl (ground arith)
  liar-left (inr (p, e, r)) = elim (Bool-cases (g.current_liar_id == id)) [
    | inl q ↦ inl (rw q)
    | inr q ↦
        rw q (inr (p, find-erase_ne g.current_liar_id id g.players (λ z. ground arith) ∙ e, r))
  ]

  votes-idle : g.votes ≡ [] → left_votes ≡ []
  unfolding erase erase_if
  votes-idle h = rw h

  liar-idle : g.current_liar_id ≡ 0 → left_liar ≡ 0
  liar-idle h = ground arith

  pub remove_player-IsValid : IsValid (remove_player id g).0
  unfolding remove_player
  remove_player-IsValid =
      if-elim {A = GameState × Bool} (λ r. IsValid r.0) (contains id g.players) _ _
        (λ _. record {
          players_distinct = erase-Distinct id g.players v.players_distinct;
          votes_distinct =
              erase_if-Distinct _ (erase id g.votes) (erase-Distinct id g.votes v.votes_distinct);
          ids = Every-erase _ id g.players v.ids;
          votes_by_players = left-votes-valid;
          one_liar = one-left;
          liar_present = liar-left v.liar_present;
          idle = λ q. record {
            no_votes = votes-idle (v.idle q).no_votes;
            no_liar = liar-idle (v.idle q).no_liar;
            no_topic = (v.idle q).no_topic;
            no_word = (v.idle q).no_word;
            no_roles = Every-erase _ id g.players (v.idle q).no_roles;
          };
        })
        (λ _. v)

  -- `removePlayer` on a player of a well-formed game: the player is unknown, no vote is by or for the player,
  -- and the player is not the liar; every other player is as before, and so are every vote between other
  -- players, whether a round is on, the topic and the word.
  pub remove_player_lem :
      contains id g.players ≡ true
      → let h = (remove_player id g).0 in
        ((k : ℕ) → find k h.players ≡ (if k == id then none else find k g.players))
        × ((k : ℕ) → find k h.votes ≡ (if k == id then none else vote_without id (find k g.votes)))
        × (h.current_liar_id ≡ (if g.current_liar_id == id then 0 else g.current_liar_id))
        × (h.round_active ≡ g.round_active)
        × (h.current_topic ≡ g.current_topic)
        × (h.current_word ≡ g.current_word)
  unfolding remove_player
  remove_player_lem h =
      rw (h, remove_player)
        (
          (λ k. ground (arith, find-erase k id g.players v.players_distinct)),
          (λ k. ground (
            arith,
            find-erase k id g.votes v.votes_distinct,
            find-erase_if_lem (λ t. t == id) k (erase id g.votes)
                (erase-Distinct id g.votes v.votes_distinct),
          )),
          refl,
          refl,
          refl,
          refl,
        )
