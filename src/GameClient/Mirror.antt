-- ===== src/GameClient/Mirror.antt =====
-- The table of players of src/client/game_client.cpp against the game of the server.
use cpptcpmultiplayer.Prelude.{
  ℕ, ◌≡◌, refl, sym, ap, ◌∙◌, not, none, some, List, [], ◌∷◌, ◌++◌, append-nil, arith, length, All,
  ok, ◌>>=◌, if-elim,
}
use cpptcpmultiplayer.Bytes.{IsU32}
use cpptcpmultiplayer.Prelude.Maps.{find, values, Distinct}
use cpptcpmultiplayer.Prelude.Maps.Every.{Every}
use cpptcpmultiplayer.Prelude.Maps.Sorted.{put, find-put, IsAscending, put-IsAscending}
use mathlib.Core.Path.{subst}
use cpptcpmultiplayer.PlayerState.{PlayerState, IsPlayer}
use cpptcpmultiplayer.Packet.{make_packet}
use cpptcpmultiplayer.Packet.MessageType
use cpptcpmultiplayer.Serialization.Player.{
  deserialize_player_state, extract_player_state, create_player_state_packet,
  serialize_player_state, deserialize-serialize_player_state, length-serialize_player_state,
}
use cpptcpmultiplayer.Serialization.Update.{
  extract_game_state_update, create_game_state_update_packet, extract-create_game_state_update,
}
use cpptcpmultiplayer.GameState.{GameState, get_all_player_states}
use cpptcpmultiplayer.GameState.Invariant.{IsValid}
use cpptcpmultiplayer.GameClient.{GameClient}
use cpptcpmultiplayer.GameClient.Handlers.{
  fill, update_players, add_joined, erase_left, handle_server_packet,
}

-- A client's table has exactly the game's players, each with the same state.
abbrev pub IsMirror : GameState → GameClient → Type 0
IsMirror g c = (k : ℕ) → find k c.players ≡ find k g.players

fill-IsAscending :
    (states : List PlayerState) (m : List (ℕ × PlayerState))
    → IsAscending 0 m
    → IsAscending 0 (fill states m)
unfolding fill
fill-IsAscending [] m a = a
fill-IsAscending (p ∷ states) m a =
    fill-IsAscending states (put p.id p m) (put-IsAscending 0 p.id p m (omega arith) a)

find-fill :
    (k : ℕ) (m acc : List (ℕ × PlayerState))
    → Distinct m
    → Every (λ id p. p.id ≡ id) m
    → find k (fill (values m) acc) ≡ elim (find k m) [ none ↦ find k acc | some p ↦ some p ]
unfolding fill values find
find-fill k [] acc d ids = refl
find-fill k ((j, p) ∷ m) acc d ids =
    ground (arith, d.0, ids.0, find-fill k m (put p.id p acc) d.1 ids.1, find-put k p.id p acc)

pub extract-create_player_state :
    (type : ℕ) (s : PlayerState)
    → IsPlayer s
    → extract_player_state (create_player_state_packet type s) ≡ ok s
unfolding extract_player_state create_player_state_packet make_packet
extract-create_player_state type s h =
    let wire = serialize_player_state s in
    ap (λ b. deserialize_player_state b (length wire)) (sym (append-nil wire))
    ∙ ap (deserialize_player_state (wire ++ [])) (length-serialize_player_state s)
    ∙ deserialize-serialize_player_state s [] h

-- What the callback does with a packet of each of the three types, once it is read.
handle_server_packet-update_players :
    (payload : List ℕ) (states : List PlayerState) (c : GameClient)
    → let packet = make_packet MessageType.game_state_update payload in
      extract_game_state_update packet ≡ ok states
      → handle_server_packet packet c ≡ ok (update_players states c)
unfolding handle_server_packet make_packet
handle_server_packet-update_players payload states c e =
    ap (λ r. r >>= λ s. ok (update_players s c)) e

pub handle_server_packet-add_joined :
    (payload : List ℕ) (p : PlayerState) (c : GameClient)
    → let packet = make_packet MessageType.player_joined payload in
      extract_player_state packet ≡ ok p → handle_server_packet packet c ≡ ok (add_joined p c)
unfolding handle_server_packet make_packet
handle_server_packet-add_joined payload p c e = ap (λ r. r >>= λ s. ok (add_joined s c)) e

pub handle_server_packet-erase_left :
    (payload : List ℕ) (p : PlayerState) (c : GameClient)
    → let packet = make_packet MessageType.player_leave payload in
      extract_player_state packet ≡ ok p → handle_server_packet packet c ≡ ok (erase_left p c)
unfolding handle_server_packet make_packet
handle_server_packet-erase_left payload p c e = ap (λ r. r >>= λ s. ok (erase_left s c)) e

players-update_players :
    (states : List PlayerState) (c : GameClient)
    → (update_players states c).players ≡ fill states []
unfolding update_players
players-update_players states c =
    if-elim (λ (d : GameClient). d.players ≡ fill states []) (not c.initial_state_received) _ _
      (λ _. refl) (λ _. refl)

-- After the update that a server makes of a well-formed game of players in the range of their C++ types,
-- the client's table has exactly the game's players, each with the same state and in the order of their
-- ids, whatever the client knew before.
pub handle_server_packet-update :
    (g : GameState) (c : GameClient)
    → IsValid g
    → All IsPlayer (get_all_player_states g)
    → IsU32 (length (get_all_player_states g))
    → (d : GameClient) × (handle_server_packet
          (create_game_state_update_packet (get_all_player_states g))
          c
        ≡ ok d)
      × IsMirror g d
      × IsAscending 0 d.players
unfolding create_game_state_update_packet
handle_server_packet-update g c v h fits =
    let states = get_all_player_states g in
    let got = extract-create_game_state_update states h fits in
    let table = fill states [] in
    let same : (k : ℕ) → find k table ≡ find k g.players = λ k.
      unfold get_all_player_states find in
      ground (arith, find-fill k g.players [] v.players_distinct v.ids) in
    let table_eq = players-update_players states c in
    (
      update_players states c,
      handle_server_packet-update_players _ states c got,
      (λ k. ap (find k) table_eq ∙ same k),
      subst (IsAscending 0) (sym table_eq) (fill-IsAscending states [] tt),
    )
