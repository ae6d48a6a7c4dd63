-- ===== src/Prelude/Results.antt =====
-- The result of a computation that reads memory and may loop: a value, an access outside the buffer,
-- or fuel that ran out. The program has neither of the last two; that it meets neither is proved.
use mathlib.Core.Path.{◌≡◌, refl}
use mathlib.Core.Bool.{Bool, true, false}
use cpptcpmultiplayer.Prelude.Tests.{if◌then◌else◌}

pub data Result {ℓ} (A : Type ℓ) : Type ℓ where
  ok : A → Result A
  fault : Result A
  stuck : Result A

infixl 5 ◌>>=◌
abbrev pub ◌>>=◌ {ℓ κ} : {A : Type ℓ} {B : Type κ} → Result A → (A → Result B) → Result B
ok a >>= f = f a
fault >>= f = fault
stuck >>= f = stuck

-- The computation returns a value.
abbrev pub Returns {ℓ} : {A : Type ℓ} → Result A → Type 0
Returns (ok a) = Unit
Returns fault = ⊥
Returns stuck = ⊥

pub Returns-value {ℓ} : {A : Type ℓ} (r : Result A) → Returns r → (a : A) × (r ≡ ok a)
Returns-value (ok a) h = (a, refl)
Returns-value fault h = absurd h
Returns-value stuck h = absurd h

pub >>=-Returns {ℓ κ} :
    {A : Type ℓ} {B : Type κ} (m : Result A) (f : A → Result B)
    → Returns m
    → ((a : A) → Returns (f a))
    → Returns (m >>= f)
>>=-Returns (ok a) f h k = k a
>>=-Returns fault f h k = h
>>=-Returns stuck f h k = h

-- An early return, and what follows its test.
pub if-Returns {ℓ} :
    {A : Type ℓ} (b : Bool) (r s : Result A)
    → (b ≡ true → Returns r)
    → (b ≡ false → Returns s)
    → Returns (if b then r else s)
if-Returns true r s h k = h refl
if-Returns false r s h k = k refl
