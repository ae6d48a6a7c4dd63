-- ===== src/GameServer/Threads/Reset.antt =====
-- A thread of src/server/game_server.cpp that clears the round while another one starts a round.
use cpptcpmultiplayer.Prelude.{
  ℕ, ◌≡◌, refl, sym, ap, ◌∙◌, inl, inr, true, false, ◌&&◌, ◌||◌, Option, none, some, [], arith, ltb,
  leb, ◌==◌, Option-cases, length, if-elim,
}
use mathlib.Core.Path.{subst}
use mathlib.Core.Option
use cpptcpmultiplayer.Prelude.Maps.{find, contains, map_values}
use cpptcpmultiplayer.Prelude.Maps.Every.{find-map_values, length-map_values}
use cpptcpmultiplayer.PlayerState.{PlayerState, PlayerRole, no_role, set_role}
use cpptcpmultiplayer.GameState.{GameState, clear_round, can_start_round}
use cpptcpmultiplayer.GameState.Round.{Random, InRange, topic_words, assign_roles, start_new_round}
use cpptcpmultiplayer.GameState.Invariant.{IsValid}
use cpptcpmultiplayer.GameState.Fresh.{IsFresh, IsTopic, start_new_round_lem}
use cpptcpmultiplayer.GameServer.Threads.{
  between_packets, can_start, clearing, the_flag, the_votes, clears_flag, clears_topic, clears_word,
  clears_liar, clears_votes, clears_roles, could_start, is_on, is_off, starts_it, System, Schedule,
  stop,
}
use cpptcpmultiplayer.GameServer.Threads.Race.{Both, Both-Move, Both-swap}

-- The first four assignments of `clearRound`, and the rest of it.
abbrev half_cleared : GameState → GameState
half_cleared g = record g {
  round_active = false;
  current_topic = [];
  current_word = [];
  current_liar_id = 0;
}

abbrev cleared_late : GameState → GameState
cleared_late g = record g { votes = []; players = map_values (λ _. set_role no_role) g.players }

start_new_round-half_cleared :
    (random : Random) (g : GameState)
    → can_start_round g ≡ true
    → start_new_round random (half_cleared g) ≡ start_new_round random g
unfolding start_new_round clear_round can_start_round
start_new_round-half_cleared random g h =
    let enough : (ltb (length g.players) 3 || ltb 6 (length g.players)) ≡ false = ground arith in
    rw enough

can_start_round-half_cleared :
    (g : GameState) → can_start_round (half_cleared g) ≡ can_start_round g
unfolding can_start_round
can_start_round-half_cleared g = refl

abbrev role_of : Option PlayerState → PlayerRole
role_of none = no_role
role_of (some p) = p.role

cleared_late-no_roles :
    (g : GameState) (k : ℕ) (p : PlayerState)
    → find k (cleared_late g).players ≡ some p
    → p.role ≡ no_role
cleared_late-no_roles g k p e =
    sym (ap role_of e)
    ∙ ap role_of (find-map_values (λ _. set_role no_role) k g.players)
    ∙ none_left
  where
    none_left : role_of (Option.map (set_role no_role) (find k g.players)) ≡ no_role
    none_left = elim (Option-cases (find k g.players)) [ inl q ↦ rw q | inr (o, q) ↦ rw q ]

length-start_new_round :
    (random : Random) (g : GameState) → length (start_new_round random g).players ≡ length g.players
unfolding start_new_round assign_roles clear_round
length-start_new_round random g =
    if-elim (λ (h : GameState). length h.players ≡ length g.players)
      (ltb (length g.players) 3 || ltb 6 (length g.players)) _ _ (λ _. refl)
      (λ _. length-map_values _ (map_values _ g.players) ∙ length-map_values _ g.players)

can_start_round-cleared_late :
    (random : Random) (g : GameState)
    → can_start_round (cleared_late (start_new_round random g)) ≡ can_start_round g
unfolding can_start_round
can_start_round-cleared_late random g =
    let same =
      length-map_values (λ _. set_role no_role) (start_new_round random g).players
      ∙ length-start_new_round random g in
    ap (λ n. leb 3 n && leb n 6) same

-- Take two threads in a well-formed game of 3 to 6 players: one is about to clear the round, which does not
-- lock, and then to start another one, and the other is about to start one. By one schedule both come to
-- the end of their callbacks, and then a round is on, with a topic and with a player as the liar, in which
-- no player has a role.
pub race-no_roles :
    (s : System) (i j : ℕ) (random : Random)
    → InRange random
    → IsValid s.game
    → can_start_round s.game ≡ true
    → s.pc i ≡ clearing the_flag can_start
    → s.pc j ≡ can_start
    → (i == j) ≡ false
    → (t : System) × Schedule s t
      × (t.game.round_active ≡ true)
      × IsTopic topic_words t.game.current_topic t.game.current_word
      × (contains t.game.current_liar_id s.game.players ≡ true)
      × ((k : ℕ) (p : PlayerState) → find k t.game.players ≡ some p → p.role ≡ no_role)
      × (t.pc i ≡ between_packets)
      × (t.pc j ≡ between_packets)
race-no_roles s i j random r v enough first second apart =
    let g = s.game in
    let g' = start_new_round random g in
    let begin : Both s i j g (clearing the_flag can_start) can_start = record {
      last = s;
      schedule = stop;
      game = refl;
      first = first;
      second = second;
      apart = apart;
    } in
    let half : Both s i j (half_cleared g) (clearing the_votes can_start) can_start =
      Both-Move (Both-Move (Both-Move (Both-Move begin clears_flag) clears_topic) clears_word)
        clears_liar in
    let ready = can_start_round-half_cleared g ∙ enough in
    let started =
      Both-Move (Both-Move (Both-Move (Both-swap half) (could_start ready)) (is_off refl))
        (starts_it random r) in
    let started' : Both s i j g' (clearing the_votes can_start) between_packets = Both-swap (
      subst (λ h. Both s j i h between_packets (clearing the_votes can_start))
        (start_new_round-half_cleared random g enough) started) in
    let late : Both s i j (cleared_late g') can_start between_packets =
      Both-Move (Both-Move started' clears_votes) clears_roles in
    let fresh : IsFresh g g' = elim (start_new_round_lem random g r v) [
      | inl (h, f) ↦ f
      | inr (h, f) ↦ absurd (ground arith)
    ] in
    let still : can_start_round (cleared_late g') ≡ true =
      can_start_round-cleared_late random g ∙ enough in
    let over = Both-Move (Both-Move late (could_start still)) (is_on fresh.round_on) in
    (
      over.last,
      over.schedule,
      ap (λ h. h.round_active) over.game ∙ fresh.round_on,
      subst (λ (h : GameState). IsTopic topic_words h.current_topic h.current_word) (sym over.game)
          fresh.topic_known,
      ap (λ h. contains h.current_liar_id g.players) over.game ∙ fresh.liar_plays,
      (λ k p e. cleared_late-no_roles g' k p (ap (λ h. find k h.players) (sym over.game) ∙ e)),
      over.first,
      over.second,
    )
