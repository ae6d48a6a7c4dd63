-- ===== src/ConnectionManager/Laws.antt =====
-- The table of connections, entry by entry.
use cpptcpmultiplayer.Prelude.{
  ℕ, suc, ◌+◌, ◌≡◌, refl, ◌∙◌, ◌⊎◌, inl, inr, Bool, true, false, ◌||◌, none, some, List, [], ◌∷◌,
  arith, ◌==◌, if◌then◌else◌, ==_iff, Bool-cases, Option-cases, length,
}
use mathlib.Core.Option
use cpptcpmultiplayer.Prelude.Maps.{find, contains, insert, find-insert, Distinct}
use cpptcpmultiplayer.Prelude.Maps.Every.{find-erase_if_lem}
use cpptcpmultiplayer.ConnectionManager.{
  Connections, ConnectionInfo, ConnectionStatus, is_active, is_disconnecting, with_status, update,
  set_status, get_active_connections, cleanup_inactive_connections, get_active_connection_count,
}

-- A connection is listed as active exactly when the table has it with that status.
abbrev pub is_listed : ℕ → List ℕ → Bool
is_listed id [] = false
is_listed id (k ∷ ids) = k == id || is_listed id ids

abbrev pub active_at : ℕ → Connections → Bool
active_at id m = elim (find id m) [ none ↦ false | some c ↦ is_active c.status ]

one_more : {a b : ℕ} → a ≡ b → suc a ≡ 1 + b
one_more h = omega arith

none_more : {a b : ℕ} → a ≡ b → a ≡ 0 + b
none_more h = omega arith

-- In a table without an id twice, `getActiveConnections` lists an id exactly if the table has the id with
-- the status ACTIVE, and
-- `getActiveConnectionCount` is the length of that list.
pub get_active_connections_lem :
    (m : Connections) (id : ℕ)
    → Distinct m
    → (is_listed id (get_active_connections m) ≡ active_at id m)
      × (length (get_active_connections m) ≡ get_active_connection_count m)
unfolding get_active_connections get_active_connection_count find
get_active_connections_lem [] id d = (refl, refl)
get_active_connections_lem ((k, c) ∷ m) id d = elim (Bool-cases (is_active c.status)) [
  | inl a ↦ rw a (elim (Bool-cases (k == id)) [
    | inl q ↦ rw (active_at, q) (rw a (refl), one_more (get_active_connections_lem m id d.1).1)
    | inr q ↦
        rw (active_at, q)
          (
            (get_active_connections_lem m id d.1).0,
            one_more (get_active_connections_lem m id d.1).1,
          )
  ])
  | inr a ↦ rw a (elim (Bool-cases (k == id)) [
    | inl q ↦
        rw (active_at, q)
          (
            rw a (unlisted id q (get_active_connections_lem m id d.1).0),
            none_more (get_active_connections_lem m id d.1).1,
          )
    | inr q ↦
        rw (active_at, q)
          (
            (get_active_connections_lem m id d.1).0,
            none_more (get_active_connections_lem m id d.1).1,
          )
  ])
]
  where
    unlisted :
        (id : ℕ)
        → (k == id) ≡ true
        → is_listed id (get_active_connections m) ≡ active_at id m
        → is_listed id (get_active_connections m) ≡ false
    unlisted id q e = e ∙ rw (← (==_iff k id).0 q) (rw (active_at, d.0))

-- A write through the pointer of an entry changes that entry alone.
update_lem :
    (f : ConnectionInfo → ConnectionInfo) (id k : ℕ) (m : Connections)
    → (find k (update id f m).0 ≡ (if id == k then Option.map f (find k m) else find k m))
      × ((update id f m).1 ≡ contains id m)
unfolding update contains
update_lem f id k m = elim (Option-cases (find id m)) [
  | inl e ↦ rw (update, e) (missing (Bool-cases (id == k)) e, refl)
  | inr (c, e) ↦ rw (update, e) (present c (Bool-cases (id == k)) e, refl)
]
  where
    missing :
        (id == k) ≡ true ⊎ (id == k) ≡ false
        → find id m ≡ none
        → find k m ≡ (if id == k then Option.map f (find k m) else find k m)
    missing (inl q) e = rw q (rw (← (==_iff id k).0 q) (rw e))
    missing (inr q) e = rw q

    present :
        (c : ConnectionInfo)
        → (id == k) ≡ true ⊎ (id == k) ≡ false
        → find id m ≡ some c
        → find k (insert id (f c) m) ≡ (if id == k then Option.map f (find k m) else find k m)
    present c (inl q) e = rw (find-insert, q) (rw (← (==_iff id k).0 q) (rw e))
    present c (inr q) e = rw (find-insert, q)

-- `setStatus` changes the status of the one entry and of no other, and says whether there was one.
pub set_status_lem :
    (id k : ℕ) (status : ConnectionStatus) (m : Connections)
    → (find k (set_status id status m).0
        ≡ (if id == k then Option.map (with_status status) (find k m) else find k m))
      × ((set_status id status m).1 ≡ contains id m)
unfolding set_status
set_status_lem id k status m = update_lem (with_status status) id k m

-- From a table without an id twice, `cleanupInactiveConnections` takes away exactly the entries that are DISCONNECTING.
pub cleanup_inactive_connections_lem :
    (k : ℕ) (m : Connections)
    → Distinct m
    → find k (cleanup_inactive_connections m) ≡ elim (find k m) [
      | none ↦ none
      | some c ↦ if is_disconnecting c.status then none else some c
    ]
unfolding cleanup_inactive_connections
cleanup_inactive_connections_lem k m d = find-erase_if_lem (λ c. is_disconnecting c.status) k m d
