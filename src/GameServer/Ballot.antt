-- ===== src/GameServer/Ballot.antt =====
-- What follows an accepted vote in src/server/game_server.cpp: the count, the result, the points and
-- the next round.
pub mod Majority
pub mod Points
pub mod Order
use cpptcpmultiplayer.Prelude.{
  ℕ, zero, suc, ◌+◌, ◌-◌, ◌*◌, ◌/◌, ◌%◌, ◌^◌, ◌≤◌, ◌<◌, ◌≡◌, refl, sym, ap, ◌∙◌, ◌≢◌, ◌↔◌, ◌⊎◌, inl,
  inr, Bool, true, false, not, ◌&&◌, ◌||◌, Option, none, some, List, [], ◌∷◌, ◌++◌, map, append-nil,
  append_assoc, arith, ltb, leb, ◌==◌, if◌then◌else◌, ltb→lt, ltb→ge, lt→ltb, ge→ltb, le→leb,
  gt→leb, leb→le, leb→gt, ==_refl, ==_iff, Bool-cases, Option-cases, length, get_or, drop, take,
  All, length-append, length-drop, nil_of_length, length-take_le, take-append_le, take-append,
  drop-append, drop-append_le, drop-drop, All-append, Result, ok, fault, stuck, ◌>>=◌, Returns,
  Returns-value, >>=-Returns, if-Returns, drop-append_add, if-elim, is_nil, equal_bytes,
  equal_bytes→eq, equal_bytes_refl,
}
use cpptcpmultiplayer.Bytes.{
  IsU32, IsU16, IsByte, be32, be16, to_u32, read_u32, read_u16, read_bytes, load_u32, load_u16,
  load_bytes, load_u32-Returns, load_u16-Returns, load_bytes-Returns, read_u32-be32, read_u16-be16,
  read_bytes-append, read_bytes-take, load_u32_at, load_bytes_at, load_length_at,
}
use cpptcpmultiplayer.PlayerState.{PlayerState}
use cpptcpmultiplayer.Serialization.Update.{create_game_state_update_packet}
use cpptcpmultiplayer.Serialization.Vote.{VoteResult, create_vote_result_packet}
use cpptcpmultiplayer.GameState.{
  GameState, clear_round, get_player_count, get_all_player_states, get_vote_tally, has_player_voted,
}
use cpptcpmultiplayer.GameState.Round.{Random}
use cpptcpmultiplayer.GameState.Scores.{calculate_and_apply_scores}
use cpptcpmultiplayer.Server.{Network, broadcast}
use cpptcpmultiplayer.GameServer.{World}
use cpptcpmultiplayer.GameServer.Round.{start_new_round_if_possible}

-- The loop that counts the players who have voted.
unfoldable pub count_voted : GameState → List PlayerState → ℕ
unfolding has_player_voted
count_voted g [] = 0
count_voted g (p ∷ players) = (if has_player_voted p.id g then 1 else 0) + count_voted g players

-- The loop that looks for the most votes, with `maxVotes` and `winnerId` so far: the first target in
-- the tally's order that has more votes than all before it.
unfoldable pub find_winner : List (ℕ × ℕ) → ℕ → ℕ → ℕ × ℕ
find_winner [] max_votes winner = (max_votes, winner)
find_winner ((target, votes) ∷ tally) max_votes winner =
    find_winner tally (if ltb max_votes votes then votes else max_votes)
      (if ltb max_votes votes then target else winner)

pub record Outcome : Type 0 where
  pub tally : List (ℕ × ℕ)
  pub max_votes : ℕ
  pub winner_id : ℕ
  pub has_majority : Bool
  pub liar_caught : Bool

unfoldable pub count_ballot : GameState → Outcome
unfolding find_winner
count_ballot g =
    let tally = get_vote_tally g in
    let most = find_winner tally 0 0 in
    let has_majority = ltb (get_player_count g / 2) most.0 in
    record {
      tally = tally;
      max_votes = most.0;
      winner_id = most.1;
      has_majority = has_majority;
      liar_caught = has_majority && (most.1 == g.current_liar_id);
    }

abbrev pub vote_result : Outcome → VoteResult
vote_result o = record { tally = o.tally; winner_id = o.winner_id; liar_caught = o.liar_caught }

-- The game after the points are given and the round is cleared.
unfoldable pub settle : GameState → GameState
unfolding count_ballot
settle g =
    let o = count_ballot g in
    clear_round (calculate_and_apply_scores o.liar_caught o.winner_id o.has_majority g)

-- `votesCount >= totalPlayers`.
unfoldable pub everybody_voted : GameState → Bool
everybody_voted g = leb (get_player_count g) (count_voted g (get_all_player_states g))

module _ (network : Network) (random : ℕ → Random) where
  -- The branch in which everybody has voted.
  unfoldable pub finish_round : World → World
  unfolding settle
  finish_round w =
      let result_packet = create_vote_result_packet (vote_result (count_ballot w.game)) in
      let announced = broadcast network result_packet w.server in
      let game = settle w.game in
      let state_packet = create_game_state_update_packet (get_all_player_states game) in
      start_new_round_if_possible network random
        (record w { server = broadcast network state_packet announced; game = game })
