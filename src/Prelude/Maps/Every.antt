-- ===== src/Prelude/Maps/Every.antt =====
-- Predicates on all entries of a map, and the laws of the loops over a map.
use cpptcpmultiplayer.Prelude.Tests.{◌==◌, if◌then◌else◌, Bool-cases, ==_iff}
use cpptcpmultiplayer.Prelude.Lists.{length}
use Prim.Native.Nat.{ℕ, suc}
use mathlib.Core.Path.{◌≡◌, refl, ap, sym, subst}
use mathlib.Core.Logic.{inl, inr}
use mathlib.Core.Bool.{Bool, false}
use mathlib.Core.Option.{none, some}
use mathlib.Core.List.{List, [], ◌∷◌}
use native.Mathlib.Omega.{arith}
use cpptcpmultiplayer.Prelude.Maps.{
  find, contains, replace, insert, erase, erase_if, map_values, keys, Distinct,
}

abbrev pub Every {ℓ κ} : {V : Type ℓ} → (ℕ → V → Type κ) → List (ℕ × V) → Type κ
Every P [] = Unit
Every P ((k, v) ∷ m) = P k v × Every P m

module _ {ℓ κ} {V : Type ℓ} (P : ℕ → V → Type κ) where
  pub Every-find : (k : ℕ) (v : V) (m : List (ℕ × V)) → Every P m → find k m ≡ some v → P k v
  unfolding find
  Every-find k v [] h e = cc
  Every-find k v ((j, w) ∷ m) h e = elim (Bool-cases (j == k)) [
    | inl q ↦
        let p : w ≡ v = ground arith in subst (λ n. P n v) ((==_iff j k).0 q) (subst (P j) p h.0)
    | inr q ↦ Every-find k v m h.1 (ground arith)
  ]

  pub Every-insert : (k : ℕ) (v : V) (m : List (ℕ × V)) → P k v → Every P m → Every P (insert k v m)
  unfolding insert
  Every-insert k v m p h = elim (Bool-cases (contains k m)) [
    | inl q ↦ rw q (replaced m h)
    | inr q ↦ rw q (p, h)
  ]
    where
      replaced : (m : List (ℕ × V)) → Every P m → Every P (replace k v m)
      replaced [] h = tt
      replaced ((j, w) ∷ m) h = elim (Bool-cases (j == k)) [
        | inl q ↦ rw q (subst (λ n. P n v) (sym ((==_iff j k).0 q)) p, h.1)
        | inr q ↦ rw q (h.0, replaced m h.1)
      ]

  pub Every-erase : (k : ℕ) (m : List (ℕ × V)) → Every P m → Every P (erase k m)
  unfolding erase
  Every-erase k [] h = tt
  Every-erase k ((j, w) ∷ m) h = elim (Bool-cases (j == k)) [
    | inl q ↦ rw q h.1
    | inr q ↦ rw q (h.0, Every-erase k m h.1)
  ]

  pub Every-erase_if : (p : V → Bool) (m : List (ℕ × V)) → Every P m → Every P (erase_if p m)
  unfolding erase_if
  Every-erase_if p [] h = tt
  Every-erase_if p ((j, w) ∷ m) h = elim (Bool-cases (p w)) [
    | inl q ↦ rw q (Every-erase_if p m h.1)
    | inr q ↦ rw q (h.0, Every-erase_if p m h.1)
  ]

  pub Every-weaken {μ} :
      (Q : ℕ → V → Type μ) (m : List (ℕ × V))
      → ((k : ℕ) (v : V) → P k v → Q k v)
      → Every P m
      → Every Q m
  Every-weaken Q [] f h = tt
  Every-weaken Q ((k, v) ∷ m) f h = (f k v h.0, Every-weaken Q m f h.1)

  -- Of distinct keys, a predicate that holds wherever `find` leads holds of every entry.
  pub Every-of_find :
      (m : List (ℕ × V)) → Distinct m → ((k : ℕ) (v : V) → find k m ≡ some v → P k v) → Every P m
  unfolding find
  Every-of_find [] d f = tt
  Every-of_find ((j, w) ∷ m) d f =
      (f j w (ground arith), Every-of_find m d.1 (λ k v e. f k v (ground arith)))

module _ {ℓ κ} {V : Type ℓ} {W : Type κ} (f : ℕ → V → W) where
  pub Every-map_values {μ ν} :
      (P : ℕ → V → Type μ) (Q : ℕ → W → Type ν) (m : List (ℕ × V))
      → ((k : ℕ) (v : V) → P k v → Q k (f k v))
      → Every P m
      → Every Q (map_values f m)
  unfolding map_values
  Every-map_values P Q [] g h = tt
  Every-map_values P Q ((k, v) ∷ m) g h = (g k v h.0, Every-map_values P Q m g h.1)

  pub length-map_values : (m : List (ℕ × V)) → length (map_values f m) ≡ length m
  unfolding map_values
  length-map_values [] = refl
  length-map_values ((k, v) ∷ m) = ap suc (length-map_values m)

  pub keys-map_values : (m : List (ℕ × V)) → keys (map_values f m) ≡ keys m
  unfolding map_values keys
  keys-map_values [] = refl
  keys-map_values ((k, v) ∷ m) = ap (◌∷◌ k) (keys-map_values m)

  pub find-map_values :
      (k : ℕ) (m : List (ℕ × V))
      → find k (map_values f m) ≡ elim (find k m) [ none ↦ none | some v ↦ some (f k v) ]
  unfolding find map_values
  find-map_values k [] = refl
  find-map_values k ((j, v) ∷ m) = elim (Bool-cases (j == k)) [
    | inl q ↦ rw q (ap (λ n. some (f n v)) ((==_iff j k).0 q))
    | inr q ↦ rw q (find-map_values k m)
  ]

  pub contains-map_values : (k : ℕ) (m : List (ℕ × V)) → contains k (map_values f m) ≡ contains k m
  unfolding contains find map_values
  contains-map_values k [] = refl
  contains-map_values k ((j, v) ∷ m) = elim (Bool-cases (j == k)) [
    | inl q ↦ rw q
    | inr q ↦ rw q (contains-map_values k m)
  ]

  pub map_values-Distinct : (m : List (ℕ × V)) → Distinct m → Distinct (map_values f m)
  unfolding map_values
  map_values-Distinct [] d = tt
  map_values-Distinct ((k, v) ∷ m) d = (rw (find-map_values k m, d.0), map_values-Distinct m d.1)

module _ {ℓ} {V : Type ℓ} (p : V → Bool) where
  pub find-erase_if-none :
      (k : ℕ) (m : List (ℕ × V)) → find k m ≡ none → find k (erase_if p m) ≡ none
  unfolding find erase_if
  find-erase_if-none k [] h = refl
  find-erase_if-none k ((j, v) ∷ m) h = elim (Bool-cases (j == k)) [
    | inl q ↦ ground arith
    | inr q ↦ elim (Bool-cases (p v)) [
      | inl r ↦ rw r (find-erase_if-none k m (ground arith))
      | inr r ↦ rw (r, q) (find-erase_if-none k m (ground arith))
    ]
  ]

  pub erase_if-Distinct : (m : List (ℕ × V)) → Distinct m → Distinct (erase_if p m)
  unfolding erase_if
  erase_if-Distinct [] d = tt
  erase_if-Distinct ((k, v) ∷ m) d = elim (Bool-cases (p v)) [
    | inl r ↦ rw r (erase_if-Distinct m d.1)
    | inr r ↦ rw r (find-erase_if-none k m d.0, erase_if-Distinct m d.1)
  ]

  -- What is left does not pass the test.
  pub erase_if-Every : (m : List (ℕ × V)) → Every (λ _ v. p v ≡ false) (erase_if p m)
  unfolding erase_if
  erase_if-Every [] = tt
  erase_if-Every ((k, v) ∷ m) = elim (Bool-cases (p v)) [
    | inl r ↦ rw r (erase_if-Every m)
    | inr r ↦ rw r (r, erase_if-Every m)
  ]

  -- What does not pass the test is left.
  pub find-erase_if :
      (k : ℕ) (v : V) (m : List (ℕ × V))
      → Distinct m
      → find k m ≡ some v
      → p v ≡ false
      → find k (erase_if p m) ≡ some v
  unfolding find erase_if
  find-erase_if k v [] d h n = h
  find-erase_if k v ((j, w) ∷ m) d h n = elim (Bool-cases (j == k)) [
    | inl q ↦ ground arith
    | inr q ↦ elim (Bool-cases (p w)) [
      | inl r ↦ rw r (find-erase_if k v m d.1 (ground arith) n)
      | inr r ↦ rw (r, q) (find-erase_if k v m d.1 (ground arith) n)
    ]
  ]

  -- The entries that are left, key by key.
  pub find-erase_if_lem :
      (k : ℕ) (m : List (ℕ × V))
      → Distinct m
      → find k (erase_if p m)
        ≡ elim (find k m) [ none ↦ none | some v ↦ if p v then none else some v ]
  unfolding find erase_if
  find-erase_if_lem k [] d = refl
  find-erase_if_lem k ((j, w) ∷ m) d = elim (Bool-cases (j == k)) [
    | inl q ↦ elim (Bool-cases (p w)) [
      | inl r ↦
          rw (q, r) (find-erase_if-none k m (subst (λ n. find n m ≡ none) ((==_iff j k).0 q) d.0))
      | inr r ↦ rw (r, q) (rw r)
    ]
    | inr q ↦ elim (Bool-cases (p w)) [
      | inl r ↦ rw (q, r) (find-erase_if_lem k m d.1)
      | inr r ↦ rw (r, q) (find-erase_if_lem k m d.1)
    ]
  ]
