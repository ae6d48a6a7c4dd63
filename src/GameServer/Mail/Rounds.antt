-- ===== src/GameServer/Mail/Rounds.antt =====
-- The packets of a fresh round in src/server/game_server.cpp.
use cpptcpmultiplayer.Prelude.{
  ℕ, ◌≡◌, refl, sym, ◌∙◌, inl, inr, true, false, not, ◌||◌, List, [], ◌∷◌, arith, ◌==◌,
  if◌then◌else◌, ==_iff, Bool-cases, Option-cases, length, if-elim, is_nil,
}
use mathlib.Core.Path.{subst}
use cpptcpmultiplayer.Prelude.Maps.{find, contains, keys}
use cpptcpmultiplayer.Prelude.Maps.Every.{Every-find}
use cpptcpmultiplayer.PlayerState.{PlayerState, liar, guesser}
use cpptcpmultiplayer.Serialization.Role.{create_role_assignment_packet}
use cpptcpmultiplayer.Server.{Network, Sent, sent_bytes}
use cpptcpmultiplayer.Server.Mail.{Owns, Tells}
use cpptcpmultiplayer.GameState.{GameState, can_start_round, get_all_player_states}
use cpptcpmultiplayer.GameState.Round.{Random, InRange, start_new_round}
use cpptcpmultiplayer.GameState.Invariant.{IsValid}
use cpptcpmultiplayer.GameState.Invariant.Start.{start_new_round-IsValid}
use cpptcpmultiplayer.GameState.Fresh.{IsFresh, start_new_round_lem}
use cpptcpmultiplayer.GameServer.{World}
use cpptcpmultiplayer.GameServer.Round.{send_roles, start_new_round_if_possible}
use cpptcpmultiplayer.GameServer.Mail.{
  role_packets, role_packets-none, role_packets-one, role_for, role_for-packet, send_roles-Tells,
  topics_filled,
}

-- `find` tells whether an id is in a map.
contains-keys :
    (id : ℕ) (m n : List (ℕ × PlayerState)) → keys m ≡ keys n → contains id m ≡ contains id n
unfolding contains find keys
contains-keys id [] [] e = refl
contains-keys id [] ((k, p) ∷ n) e = cc
contains-keys id ((k, p) ∷ m) [] e = cc
contains-keys id ((j, p) ∷ m) ((k, q) ∷ n) e =
    let same : j ≡ k = cc in
    let rest : contains id m ≡ contains id n = contains-keys id m n cc in
    elim (Bool-cases (j == id)) [
      | inl w ↦ (let v : (k == id) ≡ true = rw (← same) w in rw (w, v))
      | inr w ↦ (let v : (k == id) ≡ false = rw (← same) w in rw (w, v, rest))
    ]

-- What an id is sent on a fresh round.
fresh-packets :
    (id : ℕ) (g h : GameState)
    → IsValid h
    → IsFresh g h
    → role_packets h.current_topic h.current_word id (get_all_player_states h)
      ≡ (if contains id g.players then create_role_assignment_packet (role_for id h) ∷ [] else [])
unfolding get_all_player_states
fresh-packets id g h v f = elim (Option-cases (find id h.players)) [
  | inl n ↦
      let out : contains id g.players ≡ false =
        sym (contains-keys id h.players g.players f.same_players) ∙ unfold contains in rw n in
      role_packets-none h.current_topic h.current_word id h.players v.ids n ∙ rw out
  | inr (p, e) ↦
      let inside : contains id g.players ≡ true =
        sym (contains-keys id h.players g.players f.same_players) ∙ unfold contains in rw e in
      role_packets-one h.current_topic h.current_word id p h.players v.ids v.players_distinct e
      ∙ role_for-packet id h p (Every-find (λ k q. q.id ≡ k) id p h.players v.ids e) (
          Every-find (λ k q. q.role ≡ (if k == h.current_liar_id then liar else guesser)) id p
            h.players f.roles e)
      ∙ rw inside
]

module _ (network : Network)
    (delivers : (log : List Sent) (socket : ℕ) (bytes : List ℕ)
      → network log socket bytes ≡ sent_bytes (length bytes))
    (random : ℕ → Random) (in_range : (i : ℕ) → InRange (random i)) (id socket : ℕ) where
  started-IsFresh :
      (w : World)
      → IsValid w.game
      → can_start_round w.game ≡ true
      → IsFresh w.game (start_new_round (random w.draws) w.game)
  started-IsFresh w v can =
      elim (start_new_round_lem (random w.draws) w.game (in_range w.draws) v) [
        | inl e ↦ e.1
        | inr e ↦ absurd (ground arith)
      ]

  -- The guard against a round that was not set up is not met.
  set-up :
      (g h : GameState)
      → IsFresh g h
      → contains 0 g.players ≡ false
      → ((h.current_liar_id == 0) || is_nil h.current_topic) ≡ true
      → ⊥
  set-up g h f no_zero q = elim (Bool-cases (h.current_liar_id == 0)) [
    | inl z ↦
        let there : contains 0 g.players ≡ true =
          subst (λ n. contains n g.players ≡ true) ((==_iff h.current_liar_id 0).0 z)
            f.liar_plays in
        cc
    | inr z ↦
        let filled = topics_filled h.current_topic h.current_word f.topic_known in
        absurd (ground arith)
  ]

  -- Take a well-formed game of 3 to 6 players between rounds, without a player 0, a generator that stays in
  -- its bounds and a network that takes every packet. The start of a round sends to a client with an active
  -- connection and a socket of its own: nothing, if the client is not a player; to the liar one packet, with
  -- the role and the topic but no word; and to another player one packet, with the role, the topic and the
  -- word.
  pub start_new_round_if_possible-Tells :
      (w : World)
      → IsValid w.game
      → w.game.round_active ≡ false
      → can_start_round w.game ≡ true
      → contains 0 w.game.players ≡ false
      → Owns id socket w.server.connections
      → let next = start_new_round_if_possible network random w in
        Tells socket
          (if contains id w.game.players
            then create_role_assignment_packet (role_for id next.game) ∷ []
            else [])
          w.server
          next.server
  unfolding start_new_round_if_possible
  start_new_round_if_possible-Tells w v off can no_zero o =
      let h = start_new_round (random w.draws) w.game in
      let f = started-IsFresh w v can in
      let T : World → Type 0 = λ n.
        Tells socket
          (if contains id w.game.players
            then create_role_assignment_packet (role_for id n.game) ∷ []
            else [])
          w.server n.server in
      if-elim T (not (can_start_round w.game)) _ _ (λ q. absurd (ground arith))
        λ _.
          if-elim T w.game.round_active _ _ (λ q. absurd (ground arith))
            λ _.
              if-elim T ((h.current_liar_id == 0) || is_nil h.current_topic) _ _
                (λ q. absurd (set-up w.game h f no_zero q))
                λ _.
                  subst
                    (λ ps. Tells socket ps w.server (
                      send_roles network h.current_topic h.current_word (get_all_player_states h)
                        w.server))
                    (fresh-packets id w.game h
                      (start_new_round-IsValid (random w.draws) w.game (in_range w.draws) v) f)
                    (send_roles-Tells network delivers id socket h.current_topic h.current_word
                      (get_all_player_states h) w.server o)
