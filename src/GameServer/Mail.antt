-- ===== src/GameServer/Mail.antt =====
-- What `startNewRoundIfPossible` of src/server/game_server.cpp sends to one client.
pub mod Rounds
use cpptcpmultiplayer.Prelude.{
  ℕ, zero, suc, ◌+◌, ◌-◌, ◌*◌, ◌/◌, ◌%◌, ◌^◌, ◌≤◌, ◌<◌, ◌≡◌, refl, sym, ap, ◌∙◌, ◌≢◌, ◌↔◌, ◌⊎◌, inl,
  inr, Bool, true, false, not, ◌&&◌, ◌||◌, Option, none, some, List, [], ◌∷◌, ◌++◌, map, append-nil,
  append_assoc, arith, ltb, leb, ◌==◌, if◌then◌else◌, ltb→lt, ltb→ge, lt→ltb, ge→ltb, le→leb,
  gt→leb, leb→le, leb→gt, ==_refl, ==_iff, Bool-cases, Bool-ext, Option-cases, length, get_or, drop,
  take, All, length-append, length-drop, nil_of_length, length-take_le, take-append_le, take-append,
  drop-append, drop-append_le, drop-drop, All-append, Result, ok, fault, stuck, ◌>>=◌, Returns,
  Returns-value, >>=-Returns, if-Returns, drop-append_add, if-elim, is_nil, equal_bytes,
  equal_bytes→eq, equal_bytes_refl,
}
use cpptcpmultiplayer.Bytes.{
  IsU32, IsU16, IsByte, be32, be16, to_u32, read_u32, read_u16, read_bytes, load_u32, load_u16,
  load_bytes, load_u32-Returns, load_u16-Returns, load_bytes-Returns, read_u32-be32, read_u16-be16,
  read_bytes-append, read_bytes-take, load_u32_at, load_bytes_at, load_length_at,
}
use mathlib.Core.Path.{subst}
use cpptcpmultiplayer.Prelude.Maps.{find, contains, values, Distinct}
use cpptcpmultiplayer.Prelude.Maps.Every.{Every, Every-find}
use cpptcpmultiplayer.Packet.{Packet}
use cpptcpmultiplayer.PlayerState.{PlayerState, PlayerRole, liar, guesser}
use cpptcpmultiplayer.Serialization.Role.{RoleAssignment, create_role_assignment_packet}
use cpptcpmultiplayer.Server.{Network, Server, Sent, sent_bytes, send_packet}
use cpptcpmultiplayer.Server.Mail.{
  Owns, Tells, Tells-none, Tells-then, Owns-table, send_packet-Tells,
}
use cpptcpmultiplayer.GameState.{GameState, can_start_round, get_all_player_states}
use cpptcpmultiplayer.GameState.Round.{Random, InRange, topic_words, start_new_round}
use cpptcpmultiplayer.GameState.Invariant.{IsValid}
use cpptcpmultiplayer.GameState.Invariant.Start.{start_new_round-IsValid}
use cpptcpmultiplayer.GameState.Fresh.{IsTopic, IsFresh, start_new_round_lem}
use cpptcpmultiplayer.GameServer.{World}
use cpptcpmultiplayer.GameServer.Round.{assignment_for, send_roles, start_new_round_if_possible}

-- The packet for one player.
abbrev pub packet_of : Option RoleAssignment → List Packet
packet_of none = []
packet_of (some a) = create_role_assignment_packet a ∷ []

abbrev pub role_packet : List ℕ → List ℕ → PlayerState → List Packet
role_packet topic word p = packet_of (assignment_for topic word p)

-- The packets for an id, in the order of the players.
abbrev pub role_packets : List ℕ → List ℕ → ℕ → List PlayerState → List Packet
role_packets topic word id [] = []
role_packets topic word id (p ∷ players) =
    (if p.id == id then role_packet topic word p else []) ++ role_packets topic word id players

role_packets-none :
    (topic word : List ℕ) (id : ℕ) (m : List (ℕ × PlayerState))
    → Every (λ k p. p.id ≡ k) m
    → find id m ≡ none
    → role_packets topic word id (values m) ≡ []
unfolding values find
role_packets-none topic word id [] h e = refl
role_packets-none topic word id ((k, p) ∷ m) h e =
    let rest = role_packets-none topic word id m h.1 in ground (arith, h.0, rest)

-- A player of a well-formed table gets one packet at most, which is the player's own.
pub role_packets-one :
    (topic word : List ℕ) (id : ℕ) (p : PlayerState) (m : List (ℕ × PlayerState))
    → Every (λ k q. q.id ≡ k) m
    → Distinct m
    → find id m ≡ some p
    → role_packets topic word id (values m) ≡ role_packet topic word p
unfolding values find
role_packets-one topic word id p [] h d e = cc
role_packets-one topic word id p ((k, q) ∷ m) h d e = elim (Bool-cases (k == id)) [
  | inl w ↦
      let same : q ≡ p = ground arith in
      let own : (q.id == id) ≡ true = rw (h.0, w) in
      let rest : role_packets topic word id (values m) ≡ [] =
        role_packets-none topic word id m h.1
          (subst (λ n. find n m ≡ none) ((==_iff k id).0 w) d.0) in
      rw (own, rest) (append-nil (role_packet topic word q) ∙ ap (role_packet topic word) same)
  | inr w ↦
      let other : (q.id == id) ≡ false = rw (h.0, w) in
      rw other (role_packets-one topic word id p m h.1 d.1 (ground arith))
]

-- What a player is told at the start of a round: the topic, and the word to all but the liar.
abbrev pub role_for : ℕ → GameState → RoleAssignment
role_for k g =
    if k == g.current_liar_id
    then record { player_id = k; role = liar; topic = g.current_topic; secret_word = [] }
    else record {
      player_id = k;
      role = guesser;
      topic = g.current_topic;
      secret_word = g.current_word;
    }

pub role_for-packet :
    (id : ℕ) (g : GameState) (p : PlayerState)
    → p.id ≡ id
    → p.role ≡ (if id == g.current_liar_id then liar else guesser)
    → role_packet g.current_topic g.current_word p
      ≡ create_role_assignment_packet (role_for id g) ∷ []
unfolding assignment_for
role_for-packet id g p e r = elim (Bool-cases (id == g.current_liar_id)) [
  | inl q ↦
      let role : p.role ≡ liar = r ∙ rw q in rw q (ap (λ x. told x p.id) role ∙ ap (told liar) e)
  | inr q ↦
      let role : p.role ≡ guesser = r ∙ rw q in
      rw q (ap (λ x. told x p.id) role ∙ ap (told guesser) e)
]
  where
    told : PlayerRole → ℕ → List Packet
    told x k =
        packet_of (assignment_for g.current_topic g.current_word (record p { id = k; role = x }))

module _ (network : Network)
    (delivers : (log : List Sent) (socket : ℕ) (bytes : List ℕ)
      → network log socket bytes ≡ sent_bytes (length bytes))
    (id socket : ℕ) where
  role_packet-Tells :
      (topic word : List ℕ) (p : PlayerState) (s : Server)
      → Owns id socket s.connections
      → Tells socket
          (if p.id == id then role_packet topic word p else [])
          s
          (elim (assignment_for topic word p) [
            | none ↦ s
            | some a ↦ (send_packet network p.id (create_role_assignment_packet a) s).0
          ])
  role_packet-Tells topic word p s o = go (assignment_for topic word p)
    where
      go :
          (a : Option RoleAssignment)
          → Tells socket (if p.id == id then packet_of a else []) s (elim a [
            | none ↦ s
            | some b ↦ (send_packet network p.id (create_role_assignment_packet b) s).0
          ])
      go none =
          if-elim (λ ps. Tells socket ps s s) (p.id == id) _ _ (λ _. Tells-none s)
            (λ _. Tells-none s)
      go (some b) =
          send_packet-Tells network delivers id socket p.id (create_role_assignment_packet b) s o

  pub send_roles-Tells :
      (topic word : List ℕ) (players : List PlayerState) (s : Server)
      → Owns id socket s.connections
      → Tells socket
          (role_packets topic word id players)
          s
          (send_roles network topic word players s)
  unfolding send_roles
  send_roles-Tells topic word [] s o = Tells-none s
  send_roles-Tells topic word (p ∷ players) s o =
      let first = role_packet-Tells topic word p s o in
      Tells-then first (send_roles-Tells topic word players _ (Owns-table first o))

topic_filled :
    (table : List (List ℕ × List (List ℕ))) (topic word : List ℕ)
    → All (λ (row : List ℕ × List (List ℕ)). is_nil row.0 ≡ false) table
    → IsTopic table topic word
    → is_nil topic ≡ false
topic_filled [] topic word h i = absurd i
topic_filled ((t, words) ∷ table) topic word h (inl e) = ap is_nil (sym e.0) ∙ h.0
topic_filled ((t, words) ∷ table) topic word h (inr i) = topic_filled table topic word h.1 i

pub topics_filled : (topic word : List ℕ) → IsTopic topic_words topic word → is_nil topic ≡ false
topics_filled topic word i =
    topic_filled topic_words topic word (refl, (refl, (refl, (refl, (refl, (refl, tt)))))) i
