-- ===== src/Packet/Wire.antt =====
-- The frames of src/common/packet.cpp as sequences of bytes.
use cpptcpmultiplayer.Prelude.{
  ℕ, suc, ◌+◌, ◌*◌, ◌^◌, ◌≤◌, ◌≡◌, ap, ◌∙◌, List, [], ◌∷◌, ◌++◌, arith, length, All, Result, ok,
}
use cpptcpmultiplayer.Bytes.{IsU32, IsU16, IsByte, be32, be16, to_u32, load_u32, read_u32-be32}
use std.HLevel.{Σ_prop_path}
use std.Equiv.{IsEquiv, iso_to_equiv}
use native.Mathlib.Bridge.{le_prop}
use native.Mathlib.Nat.{ℕ_set}
use cpptcpmultiplayer.Packet.{make_packet, serialize}
use cpptcpmultiplayer.Packet.Framing.{word16}

-- A type and a payload of bytes that fit their fields.
abbrev pub IsSendable : ℕ × List ℕ → Type 0
IsSendable m = IsU16 m.0 × IsU32 (6 + length m.1) × All IsByte m.1

-- A header and what it announces: the length field is the number of the bytes.
abbrev pub IsWhole : List ℕ → Type 0
IsWhole b = All IsByte b × IsU32 (length b) × (6 ≤ length b) × (load_u32 b 0 ≡ ok (length b))

abbrev pub Sendable : Type 0
Sendable = (m : ℕ × List ℕ) × IsSendable m

abbrev pub Whole : Type 0
Whole = (b : List ℕ) × IsWhole b

All-prop : {P : ℕ → Type 0} → ((n : ℕ) → IsProp (P n)) → (b : List ℕ) → IsProp (All P b)
All-prop h [] = hlevel
All-prop h (x ∷ b) = hlevel (h, All-prop h b)

IsByte-prop : (n : ℕ) → IsProp (IsByte n)
IsByte-prop n = le_prop

bytes-prop : (b : List ℕ) → IsProp (All IsByte b)
bytes-prop b = All-prop {P = IsByte} IsByte-prop b

IsSendable-prop : (m : ℕ × List ℕ) → IsProp (IsSendable m)
IsSendable-prop m = hlevel (
  le_prop {n = suc m.0} {m = 2 ^ 16},
  le_prop {n = suc (6 + length m.1)} {m = 2 ^ 32},
  bytes-prop m.1,
)

IsWhole-prop : (b : List ℕ) → IsProp (IsWhole b)
IsWhole-prop b =
    hlevel (
      le_prop {n = suc (length b)} {m = 2 ^ 32},
      le_prop {n = 6} {m = length b},
      bytes-prop b,
      ℕ_set,
    )

serialize-IsWhole : (m : ℕ × List ℕ) → IsSendable m → IsWhole (serialize (make_packet m.0 m.1))
unfolding serialize make_packet be32 be16 load_u32
serialize-IsWhole (type, payload) (t, l, bytes) = (
  (omega arith, (omega arith, (omega arith, (omega arith, (omega arith, (omega arith, bytes)))))),
  omega (arith, l),
  omega arith,
  read_u32-be32 (to_u32 (6 + length payload)) (be16 type ++ payload) (omega arith)
      ∙ ap ok (omega arith),
)

-- The frame of a message.
unfoldable encode : Sendable → Whole
encode (m, h) = (serialize (make_packet m.0 m.1), serialize-IsWhole m h)

abbrev number : Result ℕ → ℕ
number (ok n) = n
number r = 0

length_field :
    (b0 b1 b2 b3 b4 b5 : ℕ) (r : List ℕ)
    → load_u32 (b0 ∷ b1 ∷ b2 ∷ b3 ∷ b4 ∷ b5 ∷ r) 0 ≡ ok (length (b0 ∷ b1 ∷ b2 ∷ b3 ∷ b4 ∷ b5 ∷ r))
    → b0 * 2 ^ 24 + b1 * 2 ^ 16 + b2 * 2 ^ 8 + b3 ≡ 6 + length r
unfolding load_u32
length_field b0 b1 b2 b3 b4 b5 r e = omega (arith, ap number e)

unfoldable decode : Whole → Sendable
decode (b0 ∷ b1 ∷ b2 ∷ b3 ∷ b4 ∷ b5 ∷ r, ((x0, (x1, (x2, (x3, (x4, (x5, x)))))), l, n, e)) =
    ((word16 b4 b5, r), (omega (arith, x4, x5), omega (arith, l), x))
decode ([], h) = absurd (omega (arith, h.2))
decode (_ ∷ [], h) = absurd (omega (arith, h.2))
decode (_ ∷ _ ∷ [], h) = absurd (omega (arith, h.2))
decode (_ ∷ _ ∷ _ ∷ [], h) = absurd (omega (arith, h.2))
decode (_ ∷ _ ∷ _ ∷ _ ∷ [], h) = absurd (omega (arith, h.2))
decode (_ ∷ _ ∷ _ ∷ _ ∷ _ ∷ [], h) = absurd (omega (arith, h.2))

decode-encode : (m : Sendable) → decode (encode m) ≡ m
unfolding decode encode serialize make_packet be32 be16
decode-encode ((type, payload), (t, l, x)) =
    Σ_prop_path IsSendable-prop (ap {A = ℕ} {B = ℕ × List ℕ} (λ n. (n, payload)) (omega (arith, t)))

be32-word :
    (b0 b1 b2 b3 : ℕ)
    → IsByte b0
    → IsByte b1
    → IsByte b2
    → IsByte b3
    → be32 (b0 * 2 ^ 24 + b1 * 2 ^ 16 + b2 * 2 ^ 8 + b3) ≡ b0 ∷ b1 ∷ b2 ∷ b3 ∷ []
unfolding be32
be32-word b0 b1 b2 b3 x0 x1 x2 x3 = ground arith

be16-word : (b0 b1 : ℕ) → IsByte b0 → IsByte b1 → be16 (word16 b0 b1) ≡ b0 ∷ b1 ∷ []
unfolding be16
be16-word b0 b1 x0 x1 = ground arith

encode-decode : (b : Whole) → encode (decode b) ≡ b
unfolding decode encode serialize make_packet
encode-decode (b0 ∷ b1 ∷ b2 ∷ b3 ∷ b4 ∷ b5 ∷ r, ((x0, (x1, (x2, (x3, (x4, (x5, x)))))), l, n, e)) =
    let field = length_field b0 b1 b2 b3 b4 b5 r e in
    let same : to_u32 (6 + length r) ≡ b0 * 2 ^ 24 + b1 * 2 ^ 16 + b2 * 2 ^ 8 + b3 =
      omega (arith, field, l) in
    Σ_prop_path IsWhole-prop (
      ap (λ k. be32 k ++ (be16 (word16 b4 b5) ++ r)) same
      ∙ ap (λ k. k ++ (be16 (word16 b4 b5) ++ r)) (be32-word b0 b1 b2 b3 x0 x1 x2 x3)
      ∙ ap (λ k. (b0 ∷ b1 ∷ b2 ∷ b3 ∷ []) ++ (k ++ r)) (be16-word b4 b5 x4 x5))
encode-decode ([], h) = absurd (omega (arith, h.2))
encode-decode (_ ∷ [], h) = absurd (omega (arith, h.2))
encode-decode (_ ∷ _ ∷ [], h) = absurd (omega (arith, h.2))
encode-decode (_ ∷ _ ∷ _ ∷ [], h) = absurd (omega (arith, h.2))
encode-decode (_ ∷ _ ∷ _ ∷ _ ∷ [], h) = absurd (omega (arith, h.2))
encode-decode (_ ∷ _ ∷ _ ∷ _ ∷ _ ∷ [], h) = absurd (omega (arith, h.2))

-- `serialize` is an equivalence between the messages, that is, a type below 2 ^ 16 and bytes that fit
-- the length field, and the sequences of at least six and fewer than 2 ^ 32 bytes that begin with a length
-- field that is their own length: each such sequence is the frame of exactly one message.
encode-IsEquiv : IsEquiv encode
encode-IsEquiv =
    (iso_to_equiv
      (record { fun = encode; inv = decode; rinv = encode-decode; linv = decode-encode })).1
