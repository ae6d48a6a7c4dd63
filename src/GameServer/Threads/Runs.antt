-- ===== src/GameServer/Threads/Runs.antt =====
-- Two threads of src/server/game_server.cpp at a game of three players.
use cpptcpmultiplayer.Prelude.{ℕ, ◌≡◌, refl, true, some, arith}
use cpptcpmultiplayer.Prelude.Maps.{find, contains, values}
use cpptcpmultiplayer.PlayerState.{PlayerState, set_role, guesser, no_role}
use cpptcpmultiplayer.GameState.{get_player_count, get_all_player_states, can_start_round}
use cpptcpmultiplayer.GameState.Sample
use cpptcpmultiplayer.GameState.Scores.{add_score}
use cpptcpmultiplayer.GameServer.Ballot.{count_voted, everybody_voted}
use cpptcpmultiplayer.GameServer.Ballot.Points.{rule_points}
use cpptcpmultiplayer.GameServer.Threads.{
  between_packets, get_count, can_start, clearing, the_flag, System, set_pc, Schedule,
}
use cpptcpmultiplayer.GameServer.Threads.Reset.{race-no_roles}
use cpptcpmultiplayer.GameState.Fresh.{IsTopic}
use cpptcpmultiplayer.GameState.Round.{topic_words}
use cpptcpmultiplayer.GameServer.Threads.Race.{race-rule_points}

-- The threads 1 and 2 have stored their votes.
abbrev both_voted : System
both_voted = record {
  game = Sample.voted;
  pc = set_pc (set_pc (λ i. between_packets) 1 get_count) 2 get_count;
}

-- The thread 1 is about to clear a round of three players, and the thread 2 to start one.
abbrev resetting : System
resetting = record {
  game = Sample.voted;
  pc = set_pc (set_pc (λ i. between_packets) 1 (clearing the_flag can_start)) 2 can_start;
}

three : can_start_round Sample.voted ≡ true
unfolding can_start_round
three = refl

race-no_roles_example :
    (t : System) × Schedule resetting t
    × (t.game.round_active ≡ true)
    × IsTopic topic_words t.game.current_topic t.game.current_word
    × (contains t.game.current_liar_id Sample.voted.players ≡ true)
    × ((k : ℕ) (p : PlayerState) → find k t.game.players ≡ some p → p.role ≡ no_role)
    × (t.pc 1 ≡ between_packets)
    × (t.pc 2 ≡ between_packets)
race-no_roles_example =
    race-no_roles resetting 1 2 Sample.lowest Sample.lowest-InRange Sample.voted-IsValid three refl
      refl refl

one_plays : find 1 Sample.voted.players ≡ some (Sample.player 1 65 guesser)
unfolding find
one_plays = refl

full : everybody_voted Sample.voted ≡ true
unfolding everybody_voted count_voted get_player_count get_all_player_states values contains
full = refl

race-rule_points_example :
    let n = rule_points Sample.voted 1 (Sample.player 1 65 guesser) in
    ((t : System) × Schedule both_voted t
      × (find 1 t.game.players
          ≡ some (set_role no_role (add_score n (Sample.player 1 65 guesser)))))
    × ((t : System) × Schedule both_voted t
        × (find 1 t.game.players
            ≡ some (set_role no_role (add_score n (add_score n (Sample.player 1 65 guesser))))))
race-rule_points_example =
    race-rule_points both_voted 1 2 1 (Sample.player 1 65 guesser) Sample.voted-IsValid
      (omega arith) refl (λ e. omega arith) full refl refl refl one_plays
