-- ===== src/GameServer/Threads.antt =====
-- Threads in the packet callback of src/server/game_server.cpp. Each call of a method of GameState that
-- changes the game, or whose answer decides what follows, is one step, since the method locks for its whole
-- body; between two calls of a thread the others go on. `clearRound` does not lock: each of its assignments
-- is a step, and its loop over the players is one, since a loop over a map has no meaning while another
-- thread changes the map. A vote may be for any id, whatever text it came from.
pub mod Race
pub mod Reset
mod Runs
use cpptcpmultiplayer.Prelude.{
  ℕ, zero, suc, ◌+◌, ◌-◌, ◌*◌, ◌/◌, ◌%◌, ◌^◌, ◌≤◌, ◌<◌, ◌≡◌, refl, sym, ap, ◌∙◌, ◌≢◌, ◌↔◌, ◌⊎◌, inl,
  inr, Bool, true, false, not, ◌&&◌, ◌||◌, Option, none, some, List, [], ◌∷◌, ◌++◌, map, append-nil,
  append_assoc, arith, ltb, leb, ◌==◌, if◌then◌else◌, ltb→lt, ltb→ge, lt→ltb, ge→ltb, le→leb,
  gt→leb, leb→le, leb→gt, ==_refl, ==_iff, Bool-cases, Bool-ext, Option-cases, length, get_or, drop,
  take, All, length-append, length-drop, nil_of_length, length-take_le, take-append_le, take-append,
  drop-append, drop-append_le, drop-drop, All-append, Result, ok, fault, stuck, ◌>>=◌, Returns,
  Returns-value, >>=-Returns, if-Returns, drop-append_add, if-elim, is_nil, equal_bytes,
  equal_bytes→eq, equal_bytes_refl,
}
use cpptcpmultiplayer.Bytes.{
  IsU32, IsU16, IsByte, be32, be16, to_u32, read_u32, read_u16, read_bytes, load_u32, load_u16,
  load_bytes, load_u32-Returns, load_u16-Returns, load_bytes-Returns, read_u32-be32, read_u16-be16,
  read_bytes-append, read_bytes-take, load_u32_at, load_bytes_at, load_length_at,
}
use cpptcpmultiplayer.Prelude.Maps.{map_values}
use cpptcpmultiplayer.PlayerState.{PlayerState, no_role, set_role}
use cpptcpmultiplayer.GameState.{
  GameState, add_player, remove_player, has_player, clear_round, submit_vote, can_start_round,
  has_player_voted, get_player_count, get_all_player_states, get_vote_tally,
}
use cpptcpmultiplayer.GameState.Round.{Random, InRange, start_new_round}
use cpptcpmultiplayer.GameState.Scores.{calculate_and_apply_scores}
use cpptcpmultiplayer.GameState.Invariant.{IsValid}
use cpptcpmultiplayer.GameState.Invariant.Steps.{
  adds, removes, starts, clears, votes, scores, Step-IsValid,
}
use cpptcpmultiplayer.GameServer.Ballot.{Outcome, find_winner}

-- What the thread makes of `totalPlayers`, `tally` and `liarId`.
unfoldable pub outcome_from : ℕ → List (ℕ × ℕ) → ℕ → Outcome
unfolding find_winner
outcome_from total tally liar_id =
    let most = find_winner tally 0 0 in
    let has_majority = ltb (total / 2) most.0 in
    record {
      tally = tally;
      max_votes = most.0;
      winner_id = most.1;
      has_majority = has_majority;
      liar_caught = has_majority && (most.1 == liar_id);
    }

-- The next assignment of `clearRound`.
pub data Write : Type 0 where
  the_flag the_topic the_word the_liar the_votes the_roles : Write

-- Where a thread stands: between packets, or before the call that the name tells, with its locals.
pub data Pc : Type 0 where
  between_packets get_count can_start is_active start count_left : Pc
  clearing : Write → Pc → Pc
  asking : ℕ → Pc
  leaving : ℕ → Bool → Pc
  get_players get_tally : ℕ → Pc
  count_votes : ℕ → List PlayerState → ℕ → Pc
  get_liar : ℕ → List (ℕ × ℕ) → Pc
  apply_scores : Outcome → Pc

-- One step of one thread.
pub data Move (g : GameState) : Pc → GameState → Pc → Type 0 where
  join_refused :
      (id : ℕ) (username : List ℕ)
      → (add_player id username g).1 ≡ false
      → Move g between_packets (add_player id username g).0 between_packets
  joins :
      (id : ℕ) (username : List ℕ)
      → (add_player id username g).1 ≡ true
      → Move g between_packets (add_player id username g).0 can_start
  leaves : (id : ℕ) → has_player id g ≡ true → Move g between_packets g (asking id)
  sees_active : {id : ℕ} → Move g (asking id) g (leaving id g.round_active)
  gone_before :
      {id : ℕ} {was_active : Bool}
      → (remove_player id g).1 ≡ false
      → Move g (leaving id was_active) (remove_player id g).0 between_packets
  gone :
      {id : ℕ} {was_active : Bool}
      → (remove_player id g).1 ≡ true
      → Move g
          (leaving id was_active)
          (remove_player id g).0
          (if was_active then clearing the_flag count_left else count_left)
  clears_flag :
      {next : Pc}
      → Move g
          (clearing the_flag next)
          (record g { round_active = false })
          (clearing the_topic next)
  clears_topic :
      {next : Pc}
      → Move g (clearing the_topic next) (record g { current_topic = [] }) (clearing the_word next)
  clears_word :
      {next : Pc}
      → Move g (clearing the_word next) (record g { current_word = [] }) (clearing the_liar next)
  clears_liar :
      {next : Pc}
      → Move g (clearing the_liar next) (record g { current_liar_id = 0 }) (clearing the_votes next)
  clears_votes :
      {next : Pc}
      → Move g (clearing the_votes next) (record g { votes = [] }) (clearing the_roles next)
  clears_roles :
      {next : Pc}
      → Move g
          (clearing the_roles next)
          (record g { players = map_values (λ _. set_role no_role) g.players })
          next
  too_few : get_player_count g < 3 → Move g count_left g between_packets
  enough : 3 ≤ get_player_count g → Move g count_left g can_start
  vote_refused :
      (voter target : ℕ)
      → (submit_vote voter target g).1 ≡ false
      → Move g between_packets (submit_vote voter target g).0 between_packets
  vote_accepted :
      (voter target : ℕ)
      → (submit_vote voter target g).1 ≡ true
      → Move g between_packets (submit_vote voter target g).0 get_count
  takes_count : Move g get_count g (get_players (get_player_count g))
  takes_players :
      {total : ℕ} → Move g (get_players total) g (count_votes total (get_all_player_states g) 0)
  counts_one :
      {total count : ℕ} {p : PlayerState} {players : List PlayerState}
      → Move g
          (count_votes total (p ∷ players) count)
          g
          (count_votes total players (count + (if has_player_voted p.id g then 1 else 0)))
  not_everybody :
      {total count : ℕ} → count < total → Move g (count_votes total [] count) g between_packets
  everybody :
      {total count : ℕ} → total ≤ count → Move g (count_votes total [] count) g (get_tally total)
  takes_tally : {total : ℕ} → Move g (get_tally total) g (get_liar total (get_vote_tally g))
  takes_liar :
      {total : ℕ} {tally : List (ℕ × ℕ)}
      → Move g (get_liar total tally) g (apply_scores (outcome_from total tally g.current_liar_id))
  applies :
      {o : Outcome}
      → Move g
          (apply_scores o)
          (calculate_and_apply_scores o.liar_caught o.winner_id o.has_majority g)
          (clearing the_flag can_start)
  cannot_start : can_start_round g ≡ false → Move g can_start g between_packets
  could_start : can_start_round g ≡ true → Move g can_start g is_active
  is_on : g.round_active ≡ true → Move g is_active g between_packets
  is_off : g.round_active ≡ false → Move g is_active g start
  starts_it :
      (random : Random) → InRange random → Move g start (start_new_round random g) between_packets

-- Any number of threads, each under the number of its client.
pub record System : Type 0 where
  pub game : GameState
  pub pc : ℕ → Pc

abbrev pub set_pc : (ℕ → Pc) → ℕ → Pc → ℕ → Pc
set_pc pc i p j = if i == j then p else pc j

pub data Turn (s : System) : System → Type 0 where
  turn :
      (i : ℕ) {h : GameState} {p : Pc}
      → Move s.game (s.pc i) h p
      → Turn s (record { game = h; pc = set_pc s.pc i p })

pub data Schedule (s : System) : System → Type 0 where
  stop : Schedule s s
  later : {t u : System} → Schedule s t → Turn t u → Schedule s u
