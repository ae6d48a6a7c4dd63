-- ===== src/Prelude/Maps.antt =====
-- `std::unordered_map<uint32_t, V>` as the list of its entries in iteration order. Where a new key
-- goes is the library's business: it is put in front here, and what depends on the order says so.
pub mod Every
pub mod Sorted
use Prim.Native.Nat.{ℕ}
use mathlib.Core.Path.{◌≡◌, refl, ◌∙◌}
use mathlib.Core.Logic.{◌≢◌, inl, inr}
use mathlib.Core.Bool.{Bool, true, false}
use mathlib.Core.Option.{Option, none, some}
use mathlib.Core.List.{List, [], ◌∷◌}
use native.Mathlib.Omega.{arith}
use cpptcpmultiplayer.Prelude.Tests.{◌==◌, if◌then◌else◌, Bool-cases, ==_iff}

module _ {ℓ} {V : Type ℓ} where
  -- `m.find(k)`, with `none` for `m.end()`.
  unfoldable pub find : ℕ → List (ℕ × V) → Option V
  find k [] = none
  find k ((j, v) ∷ m) = if j == k then some v else find k m

  -- `m.find(k) != m.end()`.
  abbrev pub is_some : Option V → Bool
  is_some none = false
  is_some (some v) = true

  unfoldable pub contains : ℕ → List (ℕ × V) → Bool
  unfolding find
  contains k m = is_some (find k m)

  -- The value of a key that is there is replaced in its place.
  unfoldable pub replace : ℕ → V → List (ℕ × V) → List (ℕ × V)
  replace k v [] = []
  replace k v ((j, w) ∷ m) = if j == k then (j, v) ∷ m else (j, w) ∷ replace k v m

  -- `m[k] = v`.
  unfoldable pub insert : ℕ → V → List (ℕ × V) → List (ℕ × V)
  unfolding contains replace
  insert k v m = if contains k m then replace k v m else (k, v) ∷ m

  -- `m.erase(k)`.
  unfoldable pub erase : ℕ → List (ℕ × V) → List (ℕ × V)
  erase k [] = []
  erase k ((j, w) ∷ m) = if j == k then m else (j, w) ∷ erase k m

  -- The loop that erases the entries whose value passes a test.
  unfoldable pub erase_if : (V → Bool) → List (ℕ × V) → List (ℕ × V)
  erase_if p [] = []
  erase_if p ((j, w) ∷ m) = if p w then erase_if p m else (j, w) ∷ erase_if p m

  -- No key occurs twice.
  abbrev pub Distinct : List (ℕ × V) → Type ℓ
  Distinct [] = Unit
  Distinct ((k, v) ∷ m) = (find k m ≡ none) × Distinct m

-- `for (auto &pair : m)` that writes the value of each entry.
unfoldable pub map_values {ℓ κ} :
    {V : Type ℓ} {W : Type κ} → (ℕ → V → W) → List (ℕ × V) → List (ℕ × W)
map_values f [] = []
map_values f ((k, v) ∷ m) = (k, f k v) ∷ map_values f m

unfoldable pub values {ℓ} : {V : Type ℓ} → List (ℕ × V) → List V
values [] = []
values ((k, v) ∷ m) = v ∷ values m

unfoldable pub keys {ℓ} : {V : Type ℓ} → List (ℕ × V) → List ℕ
keys [] = []
keys ((k, v) ∷ m) = k ∷ keys m

module _ {ℓ} {V : Type ℓ} where
  pub find-replace :
      (j k : ℕ) (v : V) (m : List (ℕ × V))
      → find j (replace k v m)
        ≡ (if k == j then (if contains k m then some v else none) else find j m)
  unfolding find replace contains
  find-replace j k v [] = ground arith
  find-replace j k v ((i, w) ∷ m) = ground (arith, find-replace j k v m)

  pub find-insert :
      (j k : ℕ) (v : V) (m : List (ℕ × V))
      → find j (insert k v m) ≡ (if k == j then some v else find j m)
  unfolding insert find
  find-insert j k v m = ground (arith, find-replace j k v m)

  pub find-erase_ne : (j k : ℕ) (m : List (ℕ × V)) → j ≢ k → find j (erase k m) ≡ find j m
  unfolding find erase
  find-erase_ne j k [] h = refl
  find-erase_ne j k ((i, w) ∷ m) h = ground (arith, find-erase_ne j k m h)

  pub find-erase_self : (k : ℕ) (m : List (ℕ × V)) → Distinct m → find k (erase k m) ≡ none
  unfolding find erase
  find-erase_self k [] h = refl
  find-erase_self k ((i, w) ∷ m) h = ground (arith, find-erase_self k m h.1)

  pub find-erase :
      (j k : ℕ) (m : List (ℕ × V))
      → Distinct m
      → find j (erase k m) ≡ (if k == j then none else find j m)
  find-erase j k m h = elim (Bool-cases (k == j)) [
    | inl e ↦ rw (e, if◌then◌else◌) (rw (← (==_iff k j).0 e) (find-erase_self k m h))
    | inr e ↦ rw (e, if◌then◌else◌) (find-erase_ne j k m (λ p. ground arith))
  ]

  pub replace-Distinct : (k : ℕ) (v : V) (m : List (ℕ × V)) → Distinct m → Distinct (replace k v m)
  unfolding replace
  replace-Distinct k v [] h = tt
  replace-Distinct k v ((i, w) ∷ m) h =
      ground (arith, replace-Distinct k v m h.1, find-replace i k v m)

  pub insert-Distinct : (k : ℕ) (v : V) (m : List (ℕ × V)) → Distinct m → Distinct (insert k v m)
  unfolding insert
  insert-Distinct k v m h = ground (arith, replace-Distinct k v m h)

  pub erase-Distinct : (k : ℕ) (m : List (ℕ × V)) → Distinct m → Distinct (erase k m)
  unfolding erase
  erase-Distinct k [] h = tt
  erase-Distinct k ((i, w) ∷ m) h = elim (Bool-cases (i == k)) [
    | inl e ↦ rw e h.1
    | inr e ↦ rw e (find-erase_ne i k m (λ p. ground arith) ∙ h.0, erase-Distinct k m h.1)
  ]
