-- ===== src/GameServer/Text.antt =====
-- The handling of text in src/server/game_server.cpp.
pub mod Commands
use cpptcpmultiplayer.Prelude.{
  ℕ, Bool, ◌&&◌, ◌||◌, List, [], ◌∷◌, ◌++◌, ltb, ◌==◌, if◌then◌else◌, length, drop, take,
  equal_bytes,
}
use mathlib.Core.List.{reverse}
use cpptcpmultiplayer.Prelude.Text.{codes, to_string}
use cpptcpmultiplayer.PlayerState.{PlayerState}

-- `"Player " + std::to_string(clientId)`.
unfoldable pub default_username : ℕ → List ℕ
unfolding to_string
default_username id = codes "Player " ++ to_string id

-- A space, a line feed or a carriage return.
abbrev pub is_blank : ℕ → Bool
is_blank c = c == 32 || c == 10 || c == 13

unfoldable pub drop_blanks : List ℕ → List ℕ
drop_blanks [] = []
drop_blanks (c ∷ s) = if is_blank c then drop_blanks s else c ∷ s

-- The loop that takes blanks off the back, where a string's back is the head of its reverse.
unfoldable pub trim_back : List ℕ → List ℕ
unfolding drop_blanks
trim_back s = reverse (drop_blanks (reverse s))

-- The loop that takes spaces off the front.
unfoldable pub trim_front : List ℕ → List ℕ
trim_front [] = []
trim_front (c ∷ s) = if c == 32 then trim_front s else c ∷ s

abbrev pub vote_prefix : List ℕ
vote_prefix = b'/' ∷ b'v' ∷ b'o' ∷ b't' ∷ b'e' ∷ b' ' ∷ []

-- `message.size() > 6 && message.substr(0, 6) == "/vote "`.
unfoldable pub is_vote_command : List ℕ → Bool
unfolding equal_bytes
is_vote_command message = ltb 6 (length message) && equal_bytes (take 6 message) vote_prefix

-- The name behind the command.
unfoldable pub vote_target_name : List ℕ → List ℕ
unfolding trim_front trim_back
vote_target_name message = trim_back (trim_front (drop 6 message))

-- The loop that looks for the player of a name; 0 means that there is none.
unfoldable pub find_target : List ℕ → List PlayerState → ℕ
unfolding equal_bytes
find_target name [] = 0
find_target name (p ∷ players) =
    if equal_bytes p.username name then p.id else find_target name players
