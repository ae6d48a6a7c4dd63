-- ===== src/GameServer/Round.antt =====
-- `startNewRoundIfPossible` of src/server/game_server.cpp.
use cpptcpmultiplayer.Prelude.{
  ℕ, suc, not, ◌||◌, Option, none, some, List, [], ◌∷◌, ◌==◌, if◌then◌else◌, is_nil,
}
use cpptcpmultiplayer.PlayerState.{PlayerState, liar, guesser}
use cpptcpmultiplayer.Serialization.Role.{RoleAssignment, create_role_assignment_packet}
use cpptcpmultiplayer.GameState.{can_start_round, get_all_player_states}
use cpptcpmultiplayer.GameState.Round.{Random, start_new_round}
use cpptcpmultiplayer.Server.{Network, Server, send_packet}
use cpptcpmultiplayer.GameServer.{World}

-- What a player is told: the liar gets no word, and a player without a role gets nothing.
unfoldable pub assignment_for : List ℕ → List ℕ → PlayerState → Option RoleAssignment
assignment_for topic word p = elim p.role [
  | liar ↦ some (record { player_id = p.id; role = liar; topic = topic; secret_word = [] })
  | guesser ↦ some (record { player_id = p.id; role = guesser; topic = topic; secret_word = word })
  | _ ↦ none
]

module _ (network : Network) where
  -- The loop over the players.
  unfoldable pub send_roles : List ℕ → List ℕ → List PlayerState → Server → Server
  send_roles topic word [] s = s
  send_roles topic word (p ∷ players) s =
      send_roles topic word players (elim (assignment_for topic word p) [
        | none ↦ s
        | some a ↦ (send_packet network p.id (create_role_assignment_packet a) s).0
      ])

  module _ (random : ℕ → Random) where
    unfoldable pub start_new_round_if_possible : World → World
    start_new_round_if_possible w =
        if not (can_start_round w.game)
        then w
        else if w.game.round_active
        then w
        else let game = start_new_round (random w.draws) w.game in
          let started : World = record w { game = game; draws = suc w.draws } in
          if (game.current_liar_id == 0) || is_nil game.current_topic
          then started
          else record started {
            server =
                send_roles game.current_topic game.current_word (get_all_player_states game)
                  w.server;
          }
