-- ===== src/Bytes.antt =====
-- Bytes in network order and reads from a buffer: `htonl`, `htons` and their inverses with the
-- `memcpy` and `insert` calls around them, in src/common/packet.cpp and src/common/serialization.cpp.
-- A byte is a number; a pointer into a vector is the list of the bytes from it to the vector's end.
use cpptcpmultiplayer.Prelude.{
  ℕ, zero, suc, ◌+◌, ◌*◌, ◌/◌, ◌%◌, ◌^◌, ◌≤◌, ◌<◌, ◌≡◌, refl, List, [], ◌∷◌, ◌++◌, arith, length,
  ap, ◌∙◌, take, drop, Result, ok, fault, ◌>>=◌, Returns, length-drop,
}

abbrev pub IsU32 : ℕ → Type 0
IsU32 n = n < 2 ^ 32

abbrev pub IsU16 : ℕ → Type 0
IsU16 n = n < 2 ^ 16

abbrev pub IsByte : ℕ → Type 0
IsByte b = b < 256

-- The four bytes of `htonl(n)` as they lie in memory, and the two of `htons(n)`.
unfoldable pub be32 : ℕ → List ℕ
be32 n = (n / 2 ^ 24 % 256) ∷ (n / 2 ^ 16 % 256) ∷ (n / 2 ^ 8 % 256) ∷ (n % 256) ∷ []

unfoldable pub be16 : ℕ → List ℕ
be16 n = (n / 2 ^ 8 % 256) ∷ (n % 256) ∷ []

-- `static_cast<uint32_t>(n)` of a size.
abbrev pub to_u32 : ℕ → ℕ
to_u32 n = n % 2 ^ 32

unfoldable pub read_u32 : List ℕ → Result ℕ
read_u32 (a ∷ b ∷ c ∷ d ∷ _) = ok (a * 2 ^ 24 + b * 2 ^ 16 + c * 2 ^ 8 + d)
read_u32 _ = fault

unfoldable pub read_u16 : List ℕ → Result ℕ
read_u16 (a ∷ b ∷ _) = ok (a * 2 ^ 8 + b)
read_u16 _ = fault

unfoldable pub read_bytes : ℕ → List ℕ → Result (List ℕ)
read_bytes zero p = ok []
read_bytes (suc n) [] = fault
read_bytes (suc n) (b ∷ p) = do bs ← read_bytes n p; ok (b ∷ bs)

-- `memcpy` of a word from `data + offset`, and `ntohl` or `ntohs` of it.
unfoldable pub load_u32 : List ℕ → ℕ → Result ℕ
unfolding read_u32
load_u32 buffer offset = read_u32 (drop offset buffer)

unfoldable pub load_u16 : List ℕ → ℕ → Result ℕ
unfolding read_u16
load_u16 buffer offset = read_u16 (drop offset buffer)

-- The `n` bytes from `data + offset`, as a string or a vector.
unfoldable pub load_bytes : List ℕ → ℕ → ℕ → Result (List ℕ)
unfolding read_bytes
load_bytes buffer offset n = read_bytes n (drop offset buffer)

-- A read inside the buffer returns.
read_u32-Returns : (p : List ℕ) → 4 ≤ length p → Returns (read_u32 p)
unfolding read_u32
read_u32-Returns (a ∷ b ∷ c ∷ d ∷ p) h = tt
read_u32-Returns _ h = absurd (omega arith)

read_u16-Returns : (p : List ℕ) → 2 ≤ length p → Returns (read_u16 p)
unfolding read_u16
read_u16-Returns (a ∷ b ∷ p) h = tt
read_u16-Returns _ h = absurd (omega arith)

read_bytes-Returns : (n : ℕ) (p : List ℕ) → n ≤ length p → Returns (read_bytes n p)
unfolding read_bytes
read_bytes-Returns zero p h = tt
read_bytes-Returns (suc n) [] h = absurd (omega arith)
read_bytes-Returns (suc n) (b ∷ p) h = ground (arith, read_bytes-Returns n p)

pub load_u32-Returns : (p : List ℕ) (i : ℕ) → i + 4 ≤ length p → Returns (load_u32 p i)
unfolding load_u32
load_u32-Returns p i h = read_u32-Returns (drop i p) (omega (arith, length-drop i p))

pub load_u16-Returns : (p : List ℕ) (i : ℕ) → i + 2 ≤ length p → Returns (load_u16 p i)
unfolding load_u16
load_u16-Returns p i h = read_u16-Returns (drop i p) (omega (arith, length-drop i p))

pub load_bytes-Returns : (p : List ℕ) (i n : ℕ) → i + n ≤ length p → Returns (load_bytes p i n)
unfolding load_bytes
load_bytes-Returns p i n h = read_bytes-Returns n (drop i p) (omega (arith, length-drop i p))

-- What was written is read back, whatever follows it.
pub read_u32-be32 : (n : ℕ) (rest : List ℕ) → IsU32 n → read_u32 (be32 n ++ rest) ≡ ok n
unfolding read_u32 be32
read_u32-be32 n rest h = ground arith

pub read_u16-be16 : (n : ℕ) (rest : List ℕ) → IsU16 n → read_u16 (be16 n ++ rest) ≡ ok n
unfolding read_u16 be16
read_u16-be16 n rest h = ground arith

pub read_bytes-append : (s rest : List ℕ) → read_bytes (length s) (s ++ rest) ≡ ok s
unfolding read_bytes
read_bytes-append [] rest = refl
read_bytes-append (b ∷ s) rest = ground (arith, read_bytes-append s rest)

pub read_bytes-take : (n : ℕ) (p : List ℕ) → n ≤ length p → read_bytes n p ≡ ok (take n p)
unfolding read_bytes
read_bytes-take zero p h = refl
read_bytes-take (suc n) [] h = absurd (omega arith)
read_bytes-take (suc n) (b ∷ p) h = rw (read_bytes-take n p (omega arith))

pub load_u32_at :
    (n : ℕ) (buffer : List ℕ) (offset : ℕ) (rest : List ℕ)
    → drop offset buffer ≡ be32 n ++ rest
    → IsU32 n
    → load_u32 buffer offset ≡ ok n
unfolding load_u32
load_u32_at n buffer offset rest e h = rw e (read_u32-be32 n rest h)

pub load_bytes_at :
    (s buffer : List ℕ) (offset : ℕ) (rest : List ℕ)
    → drop offset buffer ≡ s ++ rest
    → load_bytes buffer offset (length s) ≡ ok s
unfolding load_bytes
load_bytes_at s buffer offset rest e = rw e (read_bytes-append s rest)

-- The length of a string, as it is written.
pub load_length_at :
    (n : ℕ) (buffer : List ℕ) (offset : ℕ) (rest : List ℕ)
    → drop offset buffer ≡ be32 (to_u32 n) ++ rest
    → IsU32 n
    → load_u32 buffer offset ≡ ok n
load_length_at n buffer offset rest e h =
    load_u32_at (to_u32 n) buffer offset rest e (omega arith) ∙ ap ok (omega arith)
