-- ===== src/Prelude/Text.antt =====
-- Strings as lists of bytes: literals, and numbers in decimal digits.
use Prim.Native.Nat.{ℕ, zero, suc, ◌+◌, ◌/◌, ◌%◌, ◌≤◌}
use native.Mathlib.Omega.{arith}
use cpptcpmultiplayer.Prelude.Lists.{length, length-append}
use Prim.Native.Char.{code}
use Prim.Native.String.{String}
use mathlib.Core.List.{List, [], ◌∷◌, ◌++◌}
use cpptcpmultiplayer.Prelude.Tests.{ltb, if◌then◌else◌}
use cpptcpmultiplayer.Prelude.Int.{ℤ, pos, negsuc}

-- The bytes of a literal.
abbrev pub codes : String → List ℕ
codes String.[] = []
codes (String.◌∷◌ c s) = code c ∷ codes s

-- A uint32_t has ten digits at most.
digits : ℕ → ℕ → List ℕ
digits zero n = []
digits (suc k) n =
    let front = digits k (n / 10) in
    if ltb n 10 then (48 + n) ∷ [] else front ++ ((48 + n % 10) ∷ [])

-- `std::to_string`, and `<<` on a number.
unfoldable pub to_string : ℕ → List ℕ
unfolding digits
to_string n = digits 10 n

-- `<<` on an int.
unfoldable pub int_to_string : ℤ → List ℕ
unfolding to_string
int_to_string (pos n) = to_string n
int_to_string (negsuc n) = b'-' ∷ to_string (n + 1)

length-digits : (k n : ℕ) → length (digits k n) ≤ k
unfolding digits
length-digits zero n = omega arith
length-digits (suc k) n =
    let front = length-digits k (n / 10) in
    ground (arith, length-append (digits k (n / 10)) ((48 + n % 10) ∷ []))

pub length-to_string : (n : ℕ) → length (to_string n) ≤ 10
unfolding to_string
length-to_string n = length-digits 10 n
