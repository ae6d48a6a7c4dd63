-- ===== src/GameState.antt =====
-- The shared game: include/common/game_state.h and src/common/game_state.cpp. Each method locks
-- `mutex_` for its whole body, so it is a function from the state to the new state and its result;
-- `clearRound` alone does not lock, and `clearAllPlayers` and `startNewRound` call it under their lock.
pub mod Round
pub mod Scores
pub mod Invariant
pub mod Voting
pub mod Fresh
pub mod Points
pub mod Range
pub mod Sample
mod Runs
use cpptcpmultiplayer.Prelude.{
  ℕ, zero, suc, ◌+◌, ◌-◌, ◌*◌, ◌/◌, ◌%◌, ◌^◌, ◌≤◌, ◌<◌, ◌≡◌, refl, sym, ap, ◌∙◌, ◌≢◌, ◌↔◌, ◌⊎◌, inl,
  inr, Bool, true, false, not, ◌&&◌, ◌||◌, Option, none, some, List, [], ◌∷◌, ◌++◌, map, append-nil,
  append_assoc, arith, ltb, leb, ◌==◌, if◌then◌else◌, ltb→lt, ltb→ge, lt→ltb, ge→ltb, le→leb,
  gt→leb, leb→le, leb→gt, ==_refl, ==_iff, Bool-cases, Option-cases, length, get_or, drop, take,
  All, length-append, length-drop, nil_of_length, length-take_le, take-append_le, take-append,
  drop-append, drop-append_le, drop-drop, All-append, Result, ok, fault, stuck, ◌>>=◌, Returns,
  Returns-value, >>=-Returns, if-Returns, drop-append_add,
}
use cpptcpmultiplayer.Bytes.{
  IsU32, IsU16, IsByte, be32, be16, to_u32, read_u32, read_u16, read_bytes, load_u32, load_u16,
  load_bytes, load_u32-Returns, load_u16-Returns, load_bytes-Returns, read_u32-be32, read_u16-be16,
  read_bytes-append, read_bytes-take, load_u32_at, load_bytes_at, load_length_at,
}
use cpptcpmultiplayer.Prelude.Maps.{
  find, contains, insert, erase, erase_if, map_values, values, keys,
}
use cpptcpmultiplayer.PlayerState.{
  PlayerState, PlayerRole, no_role, set_role, no_player, new_player,
}

-- The maps are the lists of their entries in iteration order; a vote is keyed by its voter.
pub record GameState : Type 0 where
  pub players : List (ℕ × PlayerState)
  pub round_active : Bool
  pub current_topic : List ℕ
  pub current_word : List ℕ
  pub current_liar_id : ℕ
  pub votes : List (ℕ × ℕ)

-- The constructor.
abbrev pub new_game : GameState
new_game = record {
  players = [];
  round_active = false;
  current_topic = [];
  current_word = [];
  current_liar_id = 0;
  votes = [];
}

unfoldable pub add_player : ℕ → List ℕ → GameState → GameState × Bool
add_player id username g =
    if contains id g.players
    then (g, false)
    else (record g { players = insert id (new_player id username) g.players }, true)

unfoldable pub remove_player : ℕ → GameState → GameState × Bool
remove_player id g =
    if contains id g.players
    then (
      record g {
        votes = erase_if (λ target. target == id) (erase id g.votes);
        players = erase id g.players;
        current_liar_id = if g.current_liar_id == id then 0 else g.current_liar_id;
      },
      true,
    )
    else (g, false)

unfoldable pub get_player_state : ℕ → GameState → PlayerState
get_player_state id g = elim (find id g.players) [ none ↦ no_player | some p ↦ p ]

unfoldable pub has_player : ℕ → GameState → Bool
has_player id g = contains id g.players

unfoldable pub get_all_player_states : GameState → List PlayerState
get_all_player_states g = values g.players

unfoldable pub get_all_player_ids : GameState → List ℕ
get_all_player_ids g = keys g.players

unfoldable pub get_player_count : GameState → ℕ
get_player_count g = length g.players

unfoldable pub can_start_round : GameState → Bool
can_start_round g = leb 3 (length g.players) && leb (length g.players) 6

unfoldable pub clear_round : GameState → GameState
clear_round g = record g {
  round_active = false;
  current_topic = [];
  current_word = [];
  current_liar_id = 0;
  votes = [];
  players = map_values (λ _. set_role no_role) g.players;
}

unfoldable pub clear_all_players : GameState → GameState
unfolding clear_round
clear_all_players g = clear_round (record g { players = [] })

unfoldable pub submit_vote : ℕ → ℕ → GameState → GameState × Bool
submit_vote voter target g =
    if not g.round_active
    then (g, false)
    else if contains voter g.votes
    then (g, false)
    else if not (contains voter g.players) || not (contains target g.players)
    then (g, false)
    else (record g { votes = insert voter target g.votes }, true)

unfoldable pub has_player_voted : ℕ → GameState → Bool
has_player_voted id g = contains id g.votes

unfoldable pub clear_votes : GameState → GameState
clear_votes g = record g { votes = [] }

-- `tally[targetId]++`, on a count that is 0 when the key is new.
unfoldable pub count_vote : ℕ → List (ℕ × ℕ) → List (ℕ × ℕ)
count_vote target tally =
    insert target (to_u32 ((elim (find target tally) [ none ↦ 0 | some n ↦ n ]) + 1)) tally

-- The loop of `getVoteTally`, over the entries of `votes_` and the tally so far.
unfoldable pub tally_votes : List (ℕ × ℕ) → List (ℕ × ℕ) → List (ℕ × ℕ)
tally_votes [] tally = tally
tally_votes ((voter, target) ∷ votes) tally = tally_votes votes (count_vote target tally)

unfoldable pub get_vote_tally : GameState → List (ℕ × ℕ)
unfolding tally_votes
get_vote_tally g = tally_votes g.votes []
