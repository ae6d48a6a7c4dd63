-- ===== src/PlayerState.antt =====
-- `PlayerRole` and `PlayerState` of include/common/game_state.h. A string is the list of its bytes, and
-- an id is a number below 2 ^ 32.
use cpptcpmultiplayer.Prelude.{
  ℕ, ◌<◌, ◌≤◌, ◌^◌, ◌≡◌, refl, List, [], ◌==◌, if◌then◌else◌, arith, length,
}
use cpptcpmultiplayer.Prelude.Int.{ℤ, pos, IsInt}
use cpptcpmultiplayer.Bytes.{IsU32}

-- `enum class PlayerRole`: its three names, and the values that `static_cast` makes of other numbers.
pub data PlayerRole : Type 0 where
  no_role liar guesser : PlayerRole
  unnamed : ℕ → PlayerRole

-- `static_cast<uint32_t>(role)` and `static_cast<PlayerRole>(n)`.
unfoldable pub role_to_u32 : PlayerRole → ℕ
role_to_u32 no_role = 0
role_to_u32 liar = 1
role_to_u32 guesser = 2
role_to_u32 (unnamed n) = n

unfoldable pub u32_to_role : ℕ → PlayerRole
u32_to_role n =
    if n == 0 then no_role else if n == 1 then liar else if n == 2 then guesser else unnamed n

-- The values of the enumeration, each in one form.
abbrev pub IsRole : PlayerRole → Type 0
IsRole (unnamed n) = (3 ≤ n) × (n < 2 ^ 32)
IsRole r = Unit

pub u32_to_role-role_to_u32 : (r : PlayerRole) → IsRole r → u32_to_role (role_to_u32 r) ≡ r
unfolding u32_to_role role_to_u32
u32_to_role-role_to_u32 no_role h = refl
u32_to_role-role_to_u32 liar h = refl
u32_to_role-role_to_u32 guesser h = refl
u32_to_role-role_to_u32 (unnamed n) h = ground arith

pub role_to_u32-IsU32 : (r : PlayerRole) → IsRole r → IsU32 (role_to_u32 r)
unfolding role_to_u32
role_to_u32-IsU32 no_role h = omega arith
role_to_u32-IsU32 liar h = omega arith
role_to_u32-IsU32 guesser h = omega arith
role_to_u32-IsU32 (unnamed n) h = h.1

pub record PlayerState : Type 0 where
  pub id : ℕ
  pub username : List ℕ
  pub role : PlayerRole
  pub score : ℤ

-- The default constructor, and the one from an id and a name.
abbrev pub no_player : PlayerState
no_player = record { id = 0; username = []; role = no_role; score = pos 0 }

abbrev pub new_player : ℕ → List ℕ → PlayerState
new_player id username = record { id = id; username = username; role = no_role; score = pos 0 }

-- `state.role = role`.
abbrev pub set_role : PlayerRole → PlayerState → PlayerState
set_role r s = record s { role = r }

-- A state whose fields are in the range of their C++ types.
pub record IsPlayer (s : PlayerState) : Type 0 where
  pub id_fits : IsU32 s.id
  pub name_fits : IsU32 (length s.username)
  pub role_fits : IsRole s.role
  pub score_fits : IsInt s.score
