-- ===== src/Prelude/Maps/Sorted.antt =====
-- `std::map<uint32_t, V>` as the list of its entries in the order of their keys.
use Prim.Native.Nat.{ℕ, ◌+◌, ◌≤◌, ◌<◌}
use mathlib.Core.Path.{◌≡◌, refl}
use mathlib.Core.Logic.{inl, inr}
use mathlib.Core.Option.{none, some}
use mathlib.Core.List.{List, [], ◌∷◌}
use native.Mathlib.Omega.{arith}
use cpptcpmultiplayer.Prelude.Tests.{ltb, ◌==◌, if◌then◌else◌, Bool-cases}
use cpptcpmultiplayer.Prelude.Maps.{find, erase, Distinct}

module _ {ℓ} {V : Type ℓ} where
  -- `m[k] = v`.
  unfoldable pub put : ℕ → V → List (ℕ × V) → List (ℕ × V)
  put k v [] = (k, v) ∷ []
  put k v ((j, w) ∷ m) =
      let rest = put k v m in
      if k == j then (j, v) ∷ m else if ltb k j then (k, v) ∷ (j, w) ∷ m else (j, w) ∷ rest

  pub find-put :
      (j k : ℕ) (v : V) (m : List (ℕ × V))
      → find j (put k v m) ≡ (if k == j then some v else find j m)
  unfolding find put
  find-put j k v [] = ground arith
  find-put j k v ((i, w) ∷ m) = ground (arith, find-put j k v m)

  -- The keys ascend, and are at least a bound.
  abbrev pub IsAscending : ℕ → List (ℕ × V) → Type 0
  IsAscending low [] = Unit {0}
  IsAscending low ((k, v) ∷ m) = (low ≤ k) × IsAscending (k + 1) m

  pub IsAscending-weaken :
      (low high : ℕ) (m : List (ℕ × V)) → low ≤ high → IsAscending high m → IsAscending low m
  IsAscending-weaken low high [] h a = tt
  IsAscending-weaken low high ((k, v) ∷ m) h a = (omega arith, a.1)

  pub put-IsAscending :
      (low k : ℕ) (v : V) (m : List (ℕ × V))
      → low ≤ k
      → IsAscending low m
      → IsAscending low (put k v m)
  unfolding put
  put-IsAscending low k v [] h a = (h, tt)
  put-IsAscending low k v ((j, w) ∷ m) h a = ground (arith, put-IsAscending (j + 1) k v m)

  find-ascending : (low k : ℕ) (m : List (ℕ × V)) → k < low → IsAscending low m → find k m ≡ none
  unfolding find
  find-ascending low k [] h a = refl
  find-ascending low k ((j, w) ∷ m) h a = ground (arith, find-ascending (j + 1) k m)

  pub IsAscending-Distinct : (low : ℕ) (m : List (ℕ × V)) → IsAscending low m → Distinct m
  IsAscending-Distinct low [] a = tt
  IsAscending-Distinct low ((j, w) ∷ m) a =
      (find-ascending (j + 1) j m (omega arith) a.1, IsAscending-Distinct (j + 1) m a.1)

  pub erase-IsAscending :
      (low k : ℕ) (m : List (ℕ × V)) → IsAscending low m → IsAscending low (erase k m)
  unfolding erase
  erase-IsAscending low k [] a = tt
  erase-IsAscending low k ((j, w) ∷ m) a = elim (Bool-cases (j == k)) [
    | inl q ↦ rw q (IsAscending-weaken low (j + 1) m (omega arith) a.1)
    | inr q ↦ rw q (a.0, erase-IsAscending (j + 1) k m a.1)
  ]
