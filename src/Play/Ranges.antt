-- ===== src/Play/Ranges.antt =====
-- The fields and the number of the players, in the states that src/server/game_server.cpp tells of.
use cpptcpmultiplayer.Prelude.{
  ℕ, suc, ◌+◌, ◌^◌, ◌≤◌, ◌<◌, ◌≡◌, refl, sym, ap, inl, inr, Bool, ◌&&◌, List, [], ◌∷◌, arith, ltb,
  if◌then◌else◌, Option-cases, length, All, length-append, if-elim,
}
use cpptcpmultiplayer.Bytes.{IsU32}
use mathlib.Core.Path.{subst}
use cpptcpmultiplayer.Prelude.Int.{ℤ, pos, negsuc, IsInt, add_points}
use cpptcpmultiplayer.Prelude.Text.{codes, to_string, length-to_string}
use cpptcpmultiplayer.Prelude.Maps.{find, replace, insert, erase, values}
use cpptcpmultiplayer.Prelude.Maps.Every.{Every, Every-weaken, length-map_values}
use cpptcpmultiplayer.Packet.{Packet}
use cpptcpmultiplayer.PlayerState.{PlayerState, no_role, IsPlayer, new_player, set_role}
use cpptcpmultiplayer.GameState.{
  GameState, add_player, remove_player, clear_round, get_all_player_states,
}
use cpptcpmultiplayer.GameState.Scores.{
  add_score, is_guesser, voted_for, reward_guessers, reward_liar, calculate_and_apply_scores,
}
use cpptcpmultiplayer.GameState.Range.{
  IsScore, IsScore-add_points, IsRoleBlind, clear_round-Every, remove_player-Every,
  add_player-Every, calculate_and_apply_scores-Every,
}
use cpptcpmultiplayer.GameServer.Text.{default_username}
use cpptcpmultiplayer.GameServer.Ballot.{count_ballot, settle}

-- The player's fields are in the range of their types, and the score is from 0 to a bound.
abbrev pub Ranged : ℕ → ℕ → PlayerState → Type 0
Ranged n k p = IsPlayer p × IsScore n p.score

-- So are all players of a game, and they and one more can be counted.
pub record IsRanged (n : ℕ) (g : GameState) : Type 0 where
  pub players : Every (Ranged n) g.players
  pub count : IsU32 (length g.players + 1)

abbrev Fits : ℕ → PlayerState → Type 0
Fits k p = IsPlayer p

-- A table that can be told of.
pub record IsTold (g : GameState) : Type 0 where
  pub players : All IsPlayer (get_all_player_states g)
  pub count : IsU32 (length (get_all_player_states g))

length-values : (m : List (ℕ × PlayerState)) → length (values m) ≡ length m
unfolding values
length-values [] = refl
length-values ((k, p) ∷ m) = ap suc (length-values m)

All-values : (m : List (ℕ × PlayerState)) → Every Fits m → All IsPlayer (values m)
unfolding values
All-values [] h = tt
All-values ((k, p) ∷ m) h = (h.0, All-values m h.1)

told : (g : GameState) → Every Fits g.players → IsU32 (length g.players) → IsTold g
unfolding get_all_player_states
told g h n = record {
  players = All-values g.players h;
  count = subst IsU32 (sym (length-values g.players)) n;
}

fits : (n : ℕ) (g : GameState) → IsRanged n g → Every Fits g.players
fits n g r = Every-weaken (Ranged n) Fits g.players (λ k p h. h.0) r.players

length-insert_le :
    (k : ℕ) (p : PlayerState) (m : List (ℕ × PlayerState)) → length (insert k p m) ≤ length m + 1
unfolding insert
length-insert_le k p m = ground (arith, replaced m)
  where
    replaced : (m : List (ℕ × PlayerState)) → length (replace k p m) ≡ length m
    replaced [] = refl
    replaced ((j, q) ∷ m) = ground (arith, replaced m)

length-erase_le : (k : ℕ) (m : List (ℕ × PlayerState)) → length (erase k m) ≤ length m
unfolding erase
length-erase_le k [] = omega arith
length-erase_le k ((j, q) ∷ m) = ground (arith, length-erase_le k m)

Fits-IsRoleBlind : IsRoleBlind Fits
Fits-IsRoleBlind r h k p f = record {
  id_fits = f.id_fits;
  name_fits = f.name_fits;
  role_fits = h;
  score_fits = f.score_fits;
}

IsScore-IsInt : (n : ℕ) (z : ℤ) → n < 2 ^ 31 → IsScore n z → IsInt z
IsScore-IsInt n (pos k) h s = omega arith
IsScore-IsInt n (negsuc k) h s = absurd (omega arith)

grown :
    (n m k : ℕ) (p : PlayerState) → n + 2 < 2 ^ 31 → m ≤ 2 → Ranged n k p → Fits k (add_score m p)
grown n m k p h l r = record {
  id_fits = r.0.id_fits;
  name_fits = r.0.name_fits;
  role_fits = r.0.role_fits;
  score_fits =
      IsScore-IsInt (n + m) (add_points p.score m) (omega arith)
        (IsScore-add_points n m p.score r.1);
}

length-reward_liar : (g : GameState) → length (reward_liar g) ≤ length g.players + 1
unfolding reward_liar
length-reward_liar g = elim (Option-cases (find g.current_liar_id g.players)) [
  | inl n ↦ rw (n, reward_liar) (omega arith)
  | inr (p, e) ↦ rw (e, reward_liar) (length-insert_le g.current_liar_id (add_score 2 p) g.players)
]

length-calculate_and_apply_scores :
    (caught : Bool) (out : ℕ) (majority : Bool) (g : GameState)
    → length (calculate_and_apply_scores caught out majority g).players ≤ length g.players + 1
unfolding calculate_and_apply_scores reward_guessers
length-calculate_and_apply_scores caught out majority g = ground (
  arith,
  length-map_values
      (λ id p.
        if is_guesser p.role && voted_for id g.current_liar_id g.votes then add_score 1 p else p)
      g.players,
  length-reward_liar g,
)

pub settle-IsTold : (n : ℕ) (g : GameState) → n + 2 < 2 ^ 31 → IsRanged n g → IsTold (settle g)
unfolding settle
settle-IsTold n g h r =
    let o = count_ballot g in
    let scored = calculate_and_apply_scores o.liar_caught o.winner_id o.has_majority g in
    let all =
      calculate_and_apply_scores-Every (Ranged n) Fits (λ m k p. grown n m k p h) (λ k p q. q.0)
        o.liar_caught o.winner_id o.has_majority g r.players in
    told (clear_round scored) (clear_round-Every Fits scored Fits-IsRoleBlind all) (
      unfold clear_round in
      omega (
        arith,
        length-map_values (λ _. set_role no_role) scored.players,
        r.count,
        length-calculate_and_apply_scores o.liar_caught o.winner_id o.has_majority g,
      ))

pub remove_player-IsTold :
    (n id : ℕ) (g : GameState) (b : Bool)
    → IsRanged n g
    → let h = (remove_player id g).0 in IsTold (if b then clear_round h else h)
remove_player-IsTold n id g b r =
    let h = (remove_player id g).0 in
    let all = remove_player-Every Fits id g (fits n g r) in
    let few : length h.players ≤ length g.players =
      unfold remove_player in ground (arith, length-erase_le id g.players) in
    if-elim IsTold b _ _
      (λ _. told (clear_round h) (clear_round-Every Fits h Fits-IsRoleBlind all) (
        unfold clear_round in
        omega (arith, length-map_values (λ _. set_role no_role) h.players, r.count, few)))
      (λ _. told h all (omega (arith, r.count, few)))

-- The name that a player joins under.
abbrev pub joining_name : ℕ → Packet → List ℕ
joining_name id packet =
    if ltb 0 (length packet.payload) then packet.payload else default_username id

pub new_player-IsPlayer :
    (id : ℕ) (packet : Packet)
    → IsU32 id
    → IsU32 (length packet.payload)
    → IsPlayer (new_player id (joining_name id packet))
unfolding default_username
new_player-IsPlayer id packet i n = record {
  id_fits = i;
  name_fits = ground (arith, length-to_string id, length-append (codes "Player ") (to_string id));
  role_fits = tt;
  score_fits = omega arith;
}

pub add_player-IsTold :
    (n id : ℕ) (username : List ℕ) (g : GameState)
    → IsPlayer (new_player id username)
    → IsRanged n g
    → IsTold (add_player id username g).0
add_player-IsTold n id username g p r =
    told (add_player id username g).0 (add_player-Every Fits id username g p (fits n g r)) (
      unfold add_player in
      ground (arith, r.count, length-insert_le id (new_player id username) g.players))
