-- ===== src/Packet/MessageType.antt =====
-- The constants of `MessageType` in include/common/packet.h that the program uses.
use cpptcpmultiplayer.Prelude.{ℕ}

abbrev pub echo : ℕ
echo = 1

abbrev pub player_join : ℕ
player_join = 10

abbrev pub player_leave : ℕ
player_leave = 13

abbrev pub game_state_update : ℕ
game_state_update = 14

abbrev pub player_joined : ℕ
player_joined = 15

abbrev pub chat_message : ℕ
chat_message = 16

abbrev pub chat_broadcast : ℕ
chat_broadcast = 17

abbrev pub role_assignment : ℕ
role_assignment = 19

abbrev pub vote_command : ℕ
vote_command = 21

abbrev pub vote_result : ℕ
vote_result = 22
