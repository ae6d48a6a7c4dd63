-- ===== src/Play/Packets.antt =====
-- What each packet of the server does to what src/client/game_client.cpp shows.
use cpptcpmultiplayer.Prelude.{
  ℕ, ◌≡◌, refl, sym, ap, ◌∙◌, Bool, true, false, ◌||◌, Option, none, some, List, [], ◌∷◌, ◌++◌,
  arith, ltb, ◌==◌, if◌then◌else◌, ==_refl, length, All, Result, ok, ◌>>=◌, Returns, Returns-value,
  if-elim,
}
use cpptcpmultiplayer.Bytes.{IsU32}
use mathlib.Core.Path.{subst}
use cpptcpmultiplayer.Prelude.Maps.{find, contains, insert, map_values, find-insert}
use cpptcpmultiplayer.Prelude.Maps.Every.{find-map_values}
use cpptcpmultiplayer.Prelude.Maps.Sorted.{IsAscending, find-put, put-IsAscending}
use cpptcpmultiplayer.Packet.{Packet, make_packet}
use cpptcpmultiplayer.Packet.MessageType
use cpptcpmultiplayer.PlayerState.{
  PlayerState, PlayerRole, no_role, liar, guesser, IsPlayer, new_player, set_role,
}
use cpptcpmultiplayer.Serialization.Player.{extract_player_state, create_player_state_packet}
use cpptcpmultiplayer.Serialization.Update.{create_game_state_update_packet}
use cpptcpmultiplayer.Serialization.Chat.{
  ChatMessage, create_chat_message_packet, extract_chat_message,
}
use cpptcpmultiplayer.Serialization.Role.{
  RoleAssignment, create_role_assignment_packet, extract_role_assignment,
}
use cpptcpmultiplayer.Serialization.Vote.{
  VoteResult, create_vote_result_packet, extract_vote_result,
}
use cpptcpmultiplayer.Serialization.Safety.{extract_total}
use cpptcpmultiplayer.GameState.{
  GameState, add_player, clear_round, get_all_player_states, get_player_state,
}
use cpptcpmultiplayer.GameState.Round.{Random, assign_roles, start_new_round}
use cpptcpmultiplayer.GameState.Invariant.{IsValid}
use cpptcpmultiplayer.GameClient.{GameClient, show}
use cpptcpmultiplayer.GameClient.Handlers.{
  add_joined, erase_left, handle_server_packet, handle_server_packets,
}
use cpptcpmultiplayer.GameClient.Mirror.{
  handle_server_packet-update, handle_server_packet-add_joined, handle_server_packet-erase_left,
  extract-create_player_state,
}
use cpptcpmultiplayer.GameClient.Screen.{endl, chat_line, role_screen, result_screen}
use cpptcpmultiplayer.Play.{bar_entry, Shows, Hears}

-- The packet is handled, and the table stays as it is.
abbrev pub IsQuiet : Packet → Type 0
IsQuiet packet =
    (c : GameClient)
    → (d : GameClient) × (handle_server_packet packet c ≡ ok d) × (d.players ≡ c.players)

abbrev pub Handles : Packet → Type 0
Handles packet = (c : GameClient) → (d : GameClient) × (handle_server_packet packet c ≡ ok d)

quiet :
    {A : Type 0} (packet : Packet) (read : Result A) (text : A → GameClient → List ℕ)
    → Returns read
    → ((c : GameClient) → handle_server_packet packet c ≡ (read >>= λ a. ok (show (text a c) c)))
    → IsQuiet packet
quiet packet read text h run c =
    let (a, e) = Returns-value read h in
    (show (text a c) c, run c ∙ ap (λ x. x >>= λ b. ok (show (text b c) c)) e, refl)

pub create_role_assignment_packet-IsQuiet :
    (a : RoleAssignment) → IsQuiet (create_role_assignment_packet a)
unfolding create_role_assignment_packet make_packet handle_server_packet
create_role_assignment_packet-IsQuiet a =
    let p = create_role_assignment_packet a in
    quiet p (extract_role_assignment p) (λ b c. role_screen c.players b) (extract_total p).3
      (λ c. refl)

pub create_chat_message_packet-IsQuiet : (m : ChatMessage) → IsQuiet (create_chat_message_packet m)
unfolding create_chat_message_packet make_packet handle_server_packet
create_chat_message_packet-IsQuiet m =
    let p = create_chat_message_packet m in
    quiet p (extract_chat_message p) (λ b c. endl ++ chat_line b.sender_username b.sender_message)
      (extract_total p).2 (λ c. refl)

pub create_vote_result_packet-IsQuiet : (r : VoteResult) → IsQuiet (create_vote_result_packet r)
unfolding create_vote_result_packet make_packet handle_server_packet
create_vote_result_packet-IsQuiet r =
    let p = create_vote_result_packet r in
    quiet p (extract_vote_result p) (λ b c. result_screen c.players b) (extract_total p).5
      (λ c. refl)

pub leave_packet-Handles :
    (s : PlayerState) → Handles (create_player_state_packet MessageType.player_leave s)
unfolding create_player_state_packet
leave_packet-Handles s c =
    let p = create_player_state_packet MessageType.player_leave s in
    let (q, e) = Returns-value (extract_player_state p) (extract_total p).0 in
    (erase_left q c, handle_server_packet-erase_left _ q c e)

pub one_packet :
    (packet : Packet) (c d : GameClient)
    → handle_server_packet packet c ≡ ok d
    → handle_server_packets (packet ∷ []) c ≡ ok d
unfolding handle_server_packets
one_packet packet c d e = ap (λ r. r >>= λ x. handle_server_packets [] x) e

-- Packets that leave the table alone.
pub Hears-quiet :
    (g : GameState) (packets : List Packet) (c : GameClient)
    → All IsQuiet packets
    → Shows g c
    → Hears g packets c
unfolding handle_server_packets
Hears-quiet g [] c q s = record { client = c; handled = refl; shows = s }
Hears-quiet g (p ∷ packets) c q s =
    let (d, e, same) = q.0 c in
    let shown : Shows g d = record {
      entries = λ k. ap (λ m. bar_entry (find k m)) same ∙ s.entries k;
      ascending = subst (IsAscending 0) (sym same) s.ascending;
    } in
    let rest = Hears-quiet g packets d q.1 shown in
    record {
      client = rest.client;
      handled = ap (λ r. r >>= λ x. handle_server_packets packets x) e ∙ rest.handled;
      shows = rest.shows;
    }

-- Whatever a client heard before, an update shows the game.
pub Hears-update :
    (g : GameState) (c : GameClient)
    → IsValid g
    → All IsPlayer (get_all_player_states g)
    → IsU32 (length (get_all_player_states g))
    → Hears g (create_game_state_update_packet (get_all_player_states g) ∷ []) c
Hears-update g c v all fits =
    let (d, e, mirror, ascending) = handle_server_packet-update g c v all fits in
    record {
      client = d;
      handled = one_packet _ c d e;
      shows = record { entries = λ k. ap bar_entry (mirror k); ascending = ascending };
    }

-- A client that shows the game and hears of a new player shows the game with the player.
pub Hears-joined :
    (g : GameState) (c : GameClient) (id : ℕ) (username : List ℕ)
    → contains id g.players ≡ false
    → IsPlayer (new_player id username)
    → Shows g c
    → let h = (add_player id username g).0 in
      Hears h (create_player_state_packet MessageType.player_joined (get_player_state id h) ∷ []) c
unfolding create_player_state_packet add_player get_player_state add_joined
Hears-joined g c id username new fits s =
    let p = new_player id username in
    let there : find id (insert id p g.players) ≡ some p =
      find-insert id id p g.players ∙ rw (==_refl id) in
    rw (new, add_player)
      (rw (get_player_state, there)
        (record {
          client = add_joined p c;
          handled = one_packet _ c _ (
              handle_server_packet-add_joined _ p c
                (extract-create_player_state MessageType.player_joined p fits));
          shows = record {
            entries = λ k.
                ap bar_entry (find-put k id p c.players)
                ∙ with_entry k (id == k) p (s.entries k)
                ∙ ap bar_entry (sym (find-insert k id p g.players));
            ascending = put-IsAscending 0 p.id p c.players (omega arith) s.ascending;
          };
        }))
  where
    with_entry :
        (k : ℕ) (same : Bool) (p : PlayerState)
        → bar_entry (find k c.players) ≡ bar_entry (find k g.players)
        → bar_entry (if same then some p else find k c.players)
          ≡ bar_entry (if same then some p else find k g.players)
    with_entry k true p e = refl
    with_entry k false p e = e

-- Roles are not shown.
Shows-set_roles :
    (f : ℕ → PlayerState → PlayerRole) (g h : GameState) (c : GameClient)
    → h.players ≡ map_values (λ k p. set_role (f k p) p) g.players
    → Shows g c
    → Shows h c
Shows-set_roles f g h c e s = record {
  entries = λ k.
      s.entries k
      ∙ unroled k (find k g.players)
      ∙ sym (ap (λ m. bar_entry (find k m)) e ∙ ap bar_entry (find-map_values _ k g.players));
  ascending = s.ascending;
}
  where
    unroled :
        (k : ℕ) (o : Option PlayerState)
        → bar_entry o ≡ bar_entry (elim o [ none ↦ none | some p ↦ some (set_role (f k p) p) ])
    unroled k none = refl
    unroled k (some p) = refl

pub Shows-clear_round : (g : GameState) (c : GameClient) → Shows g c → Shows (clear_round g) c
unfolding clear_round
Shows-clear_round g c s = Shows-set_roles (λ k p. no_role) g (clear_round g) c refl s

pub Shows-start_new_round :
    (random : Random) (g : GameState) (c : GameClient)
    → Shows g c
    → Shows (start_new_round random g) c
unfolding start_new_round assign_roles
Shows-start_new_round random g c s =
    if-elim (λ h. Shows h c) (ltb (length g.players) 3 || ltb 6 (length g.players)) _ _ (λ _. s)
      (λ _.
        Shows-set_roles (λ k p. if k == _ then liar else guesser) (clear_round g) _ c refl
          (Shows-clear_round g c s))
