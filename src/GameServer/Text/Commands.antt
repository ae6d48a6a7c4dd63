-- ===== src/GameServer/Text/Commands.antt =====
-- The vote commands that src/server/game_server.cpp reads.
use cpptcpmultiplayer.Prelude.{
  ℕ, ◌≡◌, refl, ap, ◌∙◌, inl, inr, true, false, some, List, [], ◌∷◌, ◌++◌, append_assoc, arith,
  ◌==◌, Bool-cases, get_or, All, length-append, All-append, equal_bytes, equal_bytes→eq,
  equal_bytes_refl,
}
use mathlib.Core.List.{reverse, reverse-append, reverse-cons, reverse-reverse}
use cpptcpmultiplayer.Prelude.Maps.{find, values}
use cpptcpmultiplayer.Prelude.Maps.Every.{Every}
use cpptcpmultiplayer.PlayerState.{PlayerState}
use cpptcpmultiplayer.GameServer.Text.{
  is_blank, drop_blanks, trim_back, trim_front, vote_prefix, is_vote_command, vote_target_name,
  find_target,
}

abbrev pub IsBlank : ℕ → Type 0
IsBlank c = is_blank c ≡ true

abbrev pub IsSpace : ℕ → Type 0
IsSpace c = (c == 32) ≡ true

-- A name that neither begins with a space nor ends with a blank, by its letters but the last, and that.
pub record IsName (letters : List ℕ) (last : ℕ) : Type 0 where
  pub ends : is_blank last ≡ false
  pub begins : (get_or (letters ++ (last ∷ [])) 0 0 == 32) ≡ false

drop_blanks-append :
    (blanks s : List ℕ) → All IsBlank blanks → drop_blanks (blanks ++ s) ≡ drop_blanks s
unfolding drop_blanks
drop_blanks-append [] s h = refl
drop_blanks-append (c ∷ blanks) s h = ground (arith, h.0, drop_blanks-append blanks s h.1)

All-reverse : (s : List ℕ) → All IsBlank s → All IsBlank (reverse s)
All-reverse [] h = tt
All-reverse (c ∷ s) h =
    rw (reverse-cons c s) (All-append IsBlank (reverse s) (c ∷ []) (All-reverse s h.1) (h.0, tt))

reverse-blanks :
    (letters : List ℕ) (last : ℕ) (blanks : List ℕ)
    → reverse (letters ++ (last ∷ blanks)) ≡ reverse blanks ++ (last ∷ reverse letters)
reverse-blanks letters last blanks =
    reverse-append letters (last ∷ blanks)
    ∙ ap (λ s. s ++ reverse letters) (reverse-cons last blanks)
    ∙ append_assoc (reverse blanks) (last ∷ []) (reverse letters)

drop_blanks-letter :
    (last : ℕ) (s : List ℕ) → is_blank last ≡ false → drop_blanks (last ∷ s) ≡ last ∷ s
unfolding drop_blanks
drop_blanks-letter last s e = rw e

-- Blanks at the end are taken off, up to the last letter.
trim_back-append :
    (letters : List ℕ) (last : ℕ) (blanks : List ℕ)
    → is_blank last ≡ false
    → All IsBlank blanks
    → trim_back (letters ++ (last ∷ blanks)) ≡ letters ++ (last ∷ [])
unfolding trim_back
trim_back-append letters last blanks e h =
    ap (λ s. reverse (drop_blanks s)) (reverse-blanks letters last blanks)
    ∙ ap reverse (
        drop_blanks-append (reverse blanks) (last ∷ reverse letters) (All-reverse blanks h)
        ∙ drop_blanks-letter last (reverse letters) e)
    ∙ reverse-cons last (reverse letters)
    ∙ ap (λ s. s ++ (last ∷ [])) (reverse-reverse letters)

trim_front-append :
    (spaces s : List ℕ) → All IsSpace spaces → trim_front (spaces ++ s) ≡ trim_front s
unfolding trim_front
trim_front-append [] s h = refl
trim_front-append (c ∷ spaces) s h = ground (arith, h.0, trim_front-append spaces s h.1)

trim_front-name :
    (letters : List ℕ) (last : ℕ)
    → IsName letters last
    → trim_front (letters ++ (last ∷ [])) ≡ letters ++ (last ∷ [])
unfolding trim_front
trim_front-name [] last n = (let e = n.begins in rw e)
trim_front-name (c ∷ letters) last n = (let e = n.begins in rw e)

-- What is typed to vote: the command, spaces, a name and blanks.
abbrev pub vote_message : List ℕ → List ℕ → ℕ → List ℕ → List ℕ
vote_message spaces letters last blanks = (vote_prefix ++ (spaces ++ letters)) ++ (last ∷ blanks)

module _ (spaces letters : List ℕ) (last : ℕ) (blanks : List ℕ) (name : IsName letters last)
    (front : All IsSpace spaces) (back : All IsBlank blanks) where
  abbrev typed : List ℕ
  typed = (vote_prefix ++ (spaces ++ letters)) ++ (last ∷ [])

  pub trim_back-vote_message : trim_back (vote_message spaces letters last blanks) ≡ typed
  trim_back-vote_message =
      trim_back-append (vote_prefix ++ (spaces ++ letters)) last blanks name.ends back

  pub vote_message-is_vote_command : is_vote_command typed ≡ true
  unfolding is_vote_command equal_bytes
  vote_message-is_vote_command = ground (arith, length-append (spaces ++ letters) (last ∷ []))

  -- The name that a vote command names, without the spaces before and the blanks behind it.
  pub vote_target_name-vote_message : vote_target_name typed ≡ letters ++ (last ∷ [])
  unfolding vote_target_name
  vote_target_name-vote_message =
      ap (λ s. trim_back (trim_front s)) (append_assoc spaces letters (last ∷ []))
      ∙ ap trim_back (
          trim_front-append spaces (letters ++ (last ∷ [])) front
          ∙ trim_front-name letters last name)
      ∙ trim_back-append letters last [] name.ends tt

-- The only player of a name is found.
pub find_target-one :
    (name : List ℕ) (id : ℕ) (p : PlayerState) (m : List (ℕ × PlayerState))
    → Every (λ k q. q.id ≡ k) m
    → Every (λ k q. q.username ≡ name → k ≡ id) m
    → find id m ≡ some p
    → p.username ≡ name
    → find_target name (values m) ≡ id
unfolding find_target values find
find_target-one name id p [] ids one e u = cc
find_target-one name id p ((k, q) ∷ m) ids one e u =
    elim (Bool-cases (equal_bytes q.username name)) [
      | inl w ↦ rw w (ids.0 ∙ one.0 (equal_bytes→eq q.username name w))
      | inr w ↦ rw w (
          find_target-one name id p m ids.1 one.1
            (elim (Bool-cases (k == id)) [
              | inl v ↦
                  let same : q ≡ p = ground arith in
                  let own : equal_bytes q.username name ≡ true =
                    ap (λ (r : PlayerState). equal_bytes r.username name) same
                    ∙ ap (λ n. equal_bytes n name) u
                    ∙ equal_bytes_refl name in
                  cc
              | inr v ↦ ground arith
            ])
            u)
    ]
