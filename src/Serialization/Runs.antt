-- ===== src/Serialization/Runs.antt =====
-- Each message of src/common/serialization.cpp at a small value.
use cpptcpmultiplayer.Prelude.{ℕ, ◌≡◌, refl, true, [], ◌∷◌, arith, length, ok, Returns}
use cpptcpmultiplayer.Prelude.Int.{pos, negsuc}
use cpptcpmultiplayer.Prelude.Maps.{find}
use cpptcpmultiplayer.PlayerState.{PlayerState, IsPlayer, liar, guesser}
use cpptcpmultiplayer.Packet.{Packet, make_packet}
use cpptcpmultiplayer.Serialization.Player.{extract_player_state}
use cpptcpmultiplayer.Serialization.Update.{
  extract_game_state_update, create_game_state_update_packet, extract-create_game_state_update,
}
use cpptcpmultiplayer.Serialization.Chat.{
  ChatMessage, IsChatMessage, serialize_chat_message, deserialize_chat_message,
  deserialize-serialize_chat_message, extract_chat_message,
}
use cpptcpmultiplayer.Serialization.Role.{extract_role_assignment}
use cpptcpmultiplayer.Serialization.Vote.{
  VoteCommand, VoteResult, serialize_vote_result, deserialize_vote_result, extract_vote_command,
  extract_vote_result,
}
use cpptcpmultiplayer.Serialization.Vote.Tally.{IsVoteResult, deserialize-serialize_vote_result}
use cpptcpmultiplayer.Serialization.Safety.{extract_total}

abbrev first : PlayerState
first = record { id = 7; username = 65 ∷ 66 ∷ []; role = liar; score = negsuc 1 }

abbrev second : PlayerState
second = record { id = 9; username = []; role = guesser; score = pos 3 }

first-IsPlayer : IsPlayer first
first-IsPlayer = record {
  id_fits = omega arith;
  name_fits = omega arith;
  role_fits = tt;
  score_fits = omega arith;
}

second-IsPlayer : IsPlayer second
second-IsPlayer = record {
  id_fits = omega arith;
  name_fits = omega arith;
  role_fits = tt;
  score_fits = omega arith;
}

extract-create_game_state_update_example :
    extract_game_state_update (create_game_state_update_packet (first ∷ second ∷ []))
    ≡ ok (first ∷ second ∷ [])
extract-create_game_state_update_example =
    extract-create_game_state_update (first ∷ second ∷ []) (first-IsPlayer, (second-IsPlayer, tt))
      (omega arith)

abbrev hello : ChatMessage
hello = record { sender_id = 7; sender_username = 65 ∷ []; sender_message = 104 ∷ 105 ∷ [] }

hello-IsChatMessage : IsChatMessage hello
hello-IsChatMessage = record {
  id_fits = omega arith;
  username_fits = omega arith;
  message_fits = omega arith;
}

deserialize-serialize_chat_message_example :
    deserialize_chat_message (serialize_chat_message hello) (length (serialize_chat_message hello))
    ≡ ok hello
deserialize-serialize_chat_message_example =
    deserialize-serialize_chat_message hello hello-IsChatMessage

abbrev ballot : VoteCommand
ballot = record { voter_id = 7; target_id = 9 }

abbrev verdict : VoteResult
verdict = record { tally = (9, 2) ∷ (7, 1) ∷ []; winner_id = 9; liar_caught = true }

verdict-IsVoteResult : IsVoteResult verdict
unfolding find
verdict-IsVoteResult = record {
  keys_distinct = (refl, (refl, tt));
  entries_fit = ((omega arith, omega arith), ((omega arith, omega arith), tt));
  count_fits = omega arith;
  winner_fits = omega arith;
}

deserialize-serialize_vote_result_example :
    (q : VoteResult) × (deserialize_vote_result
        (serialize_vote_result verdict)
        (length (serialize_vote_result verdict))
      ≡ ok q)
    × (q.winner_id ≡ 9)
    × (q.liar_caught ≡ true)
    × ((target : ℕ) → find target q.tally ≡ find target verdict.tally)
deserialize-serialize_vote_result_example =
    deserialize-serialize_vote_result verdict verdict-IsVoteResult

-- A payload whose length fields promise more than there is.
abbrev cut_short : Packet
cut_short = make_packet 2 (0 ∷ 0 ∷ 0 ∷ 9 ∷ 0 ∷ 0 ∷ 0 ∷ 1 ∷ 0 ∷ 0 ∷ 0 ∷ 0 ∷ 0 ∷ 0 ∷ 9 ∷ 9 ∷ 65 ∷ [])

extract_total_example :
    Returns (extract_player_state cut_short)
    × Returns (extract_game_state_update cut_short)
    × Returns (extract_chat_message cut_short)
    × Returns (extract_role_assignment cut_short)
    × Returns (extract_vote_command cut_short)
    × Returns (extract_vote_result cut_short)
extract_total_example = extract_total cut_short
