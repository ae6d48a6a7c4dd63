-- ===== src/Serialization/Safety.antt =====
-- The readers of src/common/serialization.cpp on arbitrary payloads.
use cpptcpmultiplayer.Prelude.{arith, Returns}
use cpptcpmultiplayer.Packet.{Packet}
use cpptcpmultiplayer.Serialization.Player.{extract_player_state, deserialize_player_state-Returns}
use cpptcpmultiplayer.Serialization.Update.{
  extract_game_state_update, extract_game_state_update-Returns,
}
use cpptcpmultiplayer.Serialization.Chat.{extract_chat_message, deserialize_chat_message-Returns}
use cpptcpmultiplayer.Serialization.Role.{
  extract_role_assignment, deserialize_role_assignment-Returns,
}
use cpptcpmultiplayer.Serialization.Vote.{
  extract_vote_command, extract_vote_result, deserialize_vote_command-Returns,
  deserialize_vote_result-Returns,
}

-- Each of the six readers returns on every packet: no read lies outside the payload, and the loops end.
pub extract_total :
    (p : Packet)
    → Returns (extract_player_state p)
      × Returns (extract_game_state_update p)
      × Returns (extract_chat_message p)
      × Returns (extract_role_assignment p)
      × Returns (extract_vote_command p)
      × Returns (extract_vote_result p)
unfolding extract_player_state extract_chat_message extract_role_assignment extract_vote_command
    extract_vote_result
extract_total p = (
  deserialize_player_state-Returns p.payload _ (omega arith),
  extract_game_state_update-Returns p,
  deserialize_chat_message-Returns p.payload _ (omega arith),
  deserialize_role_assignment-Returns p.payload _ (omega arith),
  deserialize_vote_command-Returns p.payload _ (omega arith),
  deserialize_vote_result-Returns p.payload _ (omega arith),
)
