-- ===== src/GameState/Invariant.antt =====
-- Well-formedness of the game state, and the methods of src/common/game_state.cpp.
pub mod Leave
pub mod Start
pub mod Points
pub mod Steps
use cpptcpmultiplayer.Prelude.{
  ℕ, zero, suc, ◌+◌, ◌-◌, ◌*◌, ◌/◌, ◌%◌, ◌^◌, ◌≤◌, ◌<◌, ◌≡◌, refl, sym, ap, ◌∙◌, ◌≢◌, ◌↔◌, ◌⊎◌, inl,
  inr, Bool, true, false, not, ◌&&◌, ◌||◌, Option, none, some, List, [], ◌∷◌, ◌++◌, map, append-nil,
  append_assoc, arith, ltb, leb, ◌==◌, if◌then◌else◌, ltb→lt, ltb→ge, lt→ltb, ge→ltb, le→leb,
  gt→leb, leb→le, leb→gt, ==_refl, ==_iff, Bool-cases, Option-cases, length, get_or, drop, take,
  All, length-append, length-drop, nil_of_length, length-take_le, take-append_le, take-append,
  drop-append, drop-append_le, drop-drop, All-append, Result, ok, fault, stuck, ◌>>=◌, Returns,
  Returns-value, >>=-Returns, if-Returns, drop-append_add, if-elim,
}
use cpptcpmultiplayer.Bytes.{
  IsU32, IsU16, IsByte, be32, be16, to_u32, read_u32, read_u16, read_bytes, load_u32, load_u16,
  load_bytes, load_u32-Returns, load_u16-Returns, load_bytes-Returns, read_u32-be32, read_u16-be16,
  read_bytes-append, read_bytes-take, load_u32_at, load_bytes_at, load_length_at,
}
use cpptcpmultiplayer.Prelude.Maps.{
  find, contains, insert, erase, erase_if, map_values, keys, Distinct, insert-Distinct,
  erase-Distinct, find-insert, find-erase_self, find-erase_ne,
}
use cpptcpmultiplayer.Prelude.Maps.Every.{
  Every, Every-find, Every-insert, Every-erase, Every-erase_if, Every-weaken, Every-of_find,
  Every-map_values, keys-map_values, find-map_values, contains-map_values, map_values-Distinct,
  find-erase_if-none, erase_if-Distinct, erase_if-Every, find-erase_if, length-map_values,
}
use cpptcpmultiplayer.PlayerState.{
  PlayerState, PlayerRole, no_role, liar, guesser, set_role, new_player,
}
use cpptcpmultiplayer.GameState.{
  GameState, new_game, add_player, remove_player, clear_round, clear_all_players, submit_vote,
  clear_votes,
}
use cpptcpmultiplayer.GameState.Round.{
  Random, InRange, assign_roles, start_new_round, pick_random_topic_and_word,
}
use cpptcpmultiplayer.GameState.Scores.{
  add_score, reward_guessers, reward_liar, calculate_and_apply_scores,
}

-- Between rounds there is no vote, no liar, no topic, and nobody has a role.
pub record IsIdle (g : GameState) : Type 0 where
  pub no_votes : g.votes ≡ []
  pub no_liar : g.current_liar_id ≡ 0
  pub no_topic : g.current_topic ≡ []
  pub no_word : g.current_word ≡ []
  pub no_roles : Every (λ _ p. p.role ≡ no_role) g.players

-- A recorded vote is by a player and for a player.
abbrev pub IsVote : List (ℕ × PlayerState) → ℕ → ℕ → Type 0
IsVote players voter target = (contains voter players ≡ true) × (contains target players ≡ true)

-- The player of the current liar's id has the liar's role.
abbrev pub HasLiar : ℕ → List (ℕ × PlayerState) → Type 0
HasLiar id players = (id ≡ 0) ⊎ ((p : PlayerState) × (find id players ≡ some p) × (p.role ≡ liar))

pub record IsValid (g : GameState) : Type 0 where
  pub players_distinct : Distinct g.players
  pub votes_distinct : Distinct g.votes
  pub ids : Every (λ id p. p.id ≡ id) g.players
  pub votes_by_players : Every (IsVote g.players) g.votes
  pub one_liar : Every (λ id p. p.role ≡ liar → id ≡ g.current_liar_id) g.players
  pub liar_present : HasLiar g.current_liar_id g.players
  pub idle : g.round_active ≡ false → IsIdle g

pub new_game-IsValid : IsValid new_game
new_game-IsValid = record {
  players_distinct = tt;
  votes_distinct = tt;
  ids = tt;
  votes_by_players = tt;
  one_liar = tt;
  liar_present = inl refl;
  idle = λ _. record {
    no_votes = refl;
    no_liar = refl;
    no_topic = refl;
    no_word = refl;
    no_roles = tt;
  };
}

contains-insert :
    (j k : ℕ) (p : PlayerState) (m : List (ℕ × PlayerState))
    → contains j m ≡ true
    → contains j (insert k p m) ≡ true
unfolding contains
contains-insert j k p m h = ground (arith, find-insert j k p m)

HasLiar-insert :
    (l k : ℕ) (p : PlayerState) (m : List (ℕ × PlayerState))
    → contains k m ≡ false
    → HasLiar l m
    → HasLiar l (insert k p m)
unfolding contains
HasLiar-insert l k p m fresh (inl z) = inl z
HasLiar-insert l k p m fresh (inr (q, e, r)) = inr (q, ground (arith, find-insert l k p m), r)

pub add_player-IsValid :
    (id : ℕ) (username : List ℕ) (g : GameState) → IsValid g → IsValid (add_player id username g).0
unfolding add_player
add_player-IsValid id username g v = elim (Bool-cases (contains id g.players)) [
  | inl e ↦ rw e v
  | inr e ↦ rw e (record {
    players_distinct = insert-Distinct id p g.players v.players_distinct;
    votes_distinct = v.votes_distinct;
    ids = Every-insert _ id p g.players refl v.ids;
    votes_by_players =
        Every-weaken _ _ g.votes
          (λ a b h. (contains-insert a id p g.players h.0, contains-insert b id p g.players h.1))
          v.votes_by_players;
    one_liar = Every-insert _ id p g.players (λ q. cc) v.one_liar;
    liar_present = HasLiar-insert g.current_liar_id id p g.players e v.liar_present;
    idle = λ q. record {
      no_votes = (v.idle q).no_votes;
      no_liar = (v.idle q).no_liar;
      no_topic = (v.idle q).no_topic;
      no_word = (v.idle q).no_word;
      no_roles = Every-insert _ id p g.players refl (v.idle q).no_roles;
    };
  })
]
  where
    p : PlayerState
    p = new_player id username

pub clear_round-IsValid : (g : GameState) → IsValid g → IsValid (clear_round g)
unfolding clear_round
clear_round-IsValid g v = record {
  players_distinct = map_values-Distinct _ g.players v.players_distinct;
  votes_distinct = tt;
  ids = Every-map_values _ _ _ g.players (λ k p h. h) v.ids;
  votes_by_players = tt;
  one_liar = Every-map_values _ _ _ g.players (λ k p h q. cc) v.ids;
  liar_present = inl refl;
  idle = λ _. record {
    no_votes = refl;
    no_liar = refl;
    no_topic = refl;
    no_word = refl;
    no_roles = Every-map_values _ _ _ g.players (λ k p h. refl) v.ids;
  };
}

pub submit_vote-IsValid :
    (voter target : ℕ) (g : GameState) → IsValid g → IsValid (submit_vote voter target g).0
unfolding submit_vote
submit_vote-IsValid voter target g v =
    if-elim P (not g.round_active) _ _ (λ _. v)
      λ active.
        if-elim P (contains voter g.votes) _ _ (λ _. v)
          λ fresh.
            if-elim P (not (contains voter g.players) || not (contains target g.players)) _ _
              (λ _. v)
              λ known. record {
                players_distinct = v.players_distinct;
                votes_distinct = insert-Distinct voter target g.votes v.votes_distinct;
                ids = v.ids;
                votes_by_players =
                    Every-insert _ voter target g.votes (ground arith) v.votes_by_players;
                one_liar = v.one_liar;
                liar_present = v.liar_present;
                idle = λ q. cc;
              }
  where
    P : GameState × Bool → Type 0
    P r = IsValid r.0

pub clear_votes-IsValid : (g : GameState) → IsValid g → IsValid (clear_votes g)
unfolding clear_votes
clear_votes-IsValid g v = record {
  players_distinct = v.players_distinct;
  votes_distinct = tt;
  ids = v.ids;
  votes_by_players = tt;
  one_liar = v.one_liar;
  liar_present = v.liar_present;
  idle = λ q. record {
    no_votes = refl;
    no_liar = (v.idle q).no_liar;
    no_topic = (v.idle q).no_topic;
    no_word = (v.idle q).no_word;
    no_roles = (v.idle q).no_roles;
  };
}

pub clear_all_players-IsValid : (g : GameState) → IsValid (clear_all_players g)
unfolding clear_all_players map_values
clear_all_players-IsValid g = new_game-IsValid
