-- ===== src/Packet/Framing.antt =====
-- What a receiver can rely on.
use cpptcpmultiplayer.Prelude.{
  ℕ, suc, ◌+◌, ◌-◌, ◌*◌, ◌/◌, ◌%◌, ◌^◌, ◌≤◌, ◌≡◌, ap, ◌∙◌, inl, inr, true, List, ◌∷◌, ◌++◌,
  append_assoc, arith, ltb, leb, le→leb, Bool-cases, length, take, length-append, length-take_le,
  take-append_le, take-append, ok, Returns, >>=-Returns,
}
use cpptcpmultiplayer.Bytes.{
  IsU32, IsU16, to_u32, load_u32-Returns, load_u16-Returns, load_bytes-Returns, read_bytes-take,
}
use mathlib.Core.Path.{subst}
use cpptcpmultiplayer.Packet.{
  Packet, header_size, make_packet, get_total_size, serialize, deserialize, is_complete_packet,
}

pub deserialize-Returns : (b : List ℕ) (n : ℕ) → n ≤ length b → Returns (deserialize b n)
unfolding deserialize
deserialize-Returns b n h = elim (Bool-cases (ltb n 6)) [
  | inl e ↦ rw e tt
  | inr e ↦ rw e (
      >>=-Returns _ _ (load_u32-Returns b 0 (ground arith)) λ len.
        >>=-Returns _ _ (load_u16-Returns b 4 (ground arith))
          λ type. ground (arith, load_bytes-Returns b 6 (len - 6)))
]

-- The words of a header, from its bytes.
abbrev pub word32 : ℕ → ℕ → ℕ → ℕ → ℕ
word32 a b c d = a * 2 ^ 24 + b * 2 ^ 16 + c * 2 ^ 8 + d

abbrev pub word16 : ℕ → ℕ → ℕ
word16 a b = a * 2 ^ 8 + b

-- The packet that a complete frame holds.
abbrev pub framed : ℕ → ℕ → List ℕ → Packet
framed len type r = record {
  header = record { length = len; type = type };
  payload = take (len - 6) r;
}

module _ (b0 b1 b2 b3 b4 b5 : ℕ) (r : List ℕ) where
  -- Six bytes, and what follows them.
  abbrev whole : List ℕ
  whole = b0 ∷ b1 ∷ b2 ∷ b3 ∷ b4 ∷ b5 ∷ r

  is_complete_packet_lem :
      is_complete_packet whole (length whole) ≡ ok (leb (word32 b0 b1 b2 b3) (length whole))
  unfolding is_complete_packet
  is_complete_packet_lem = ground arith

  deserialize_lem :
      word32 b0 b1 b2 b3 ≤ length whole
      → deserialize whole (length whole) ≡ ok (framed (word32 b0 b1 b2 b3) (word16 b4 b5) r)
  unfolding deserialize
  deserialize_lem h = ground (arith, read_bytes-take (word32 b0 b1 b2 b3 - 6) r)

-- What a receiver holds once `isCompletePacket` accepts its buffer: one packet, which lies inside the
-- buffer and takes six bytes at least, and which stays the same when more bytes arrive behind it.
pub record Frame (b : List ℕ) (p : Packet) : Type 0 where
  pub parsed : deserialize b (length b) ≡ ok p
  pub inside : get_total_size p ≤ length b
  pub stable_complete :
      (more : List ℕ) → is_complete_packet (b ++ more) (length (b ++ more)) ≡ ok true
  pub stable_parsed : (more : List ℕ) → deserialize (b ++ more) (length (b ++ more)) ≡ ok p

pub Frame-append : (b more : List ℕ) {p : Packet} → Frame b p → Frame (b ++ more) p
Frame-append b more f = record {
  parsed = f.stable_parsed more;
  inside = omega (arith, f.inside, length-append b more);
  stable_complete = λ last. rw (append_assoc b more last) (f.stable_complete (more ++ last));
  stable_parsed = λ last. rw (append_assoc b more last) (f.stable_parsed (more ++ last));
}

six-Frame :
    (b0 b1 b2 b3 b4 b5 : ℕ) (r : List ℕ)
    → word32 b0 b1 b2 b3 ≤ suc (suc (suc (suc (suc (suc (length r))))))
    → Frame (b0 ∷ b1 ∷ b2 ∷ b3 ∷ b4 ∷ b5 ∷ r) (framed (word32 b0 b1 b2 b3) (word16 b4 b5) r)
unfolding get_total_size
six-Frame b0 b1 b2 b3 b4 b5 r h = record {
  parsed = deserialize_lem b0 b1 b2 b3 b4 b5 r h;
  inside = omega (arith, length-take_le (word32 b0 b1 b2 b3 - 6) r (omega arith));
  stable_complete = λ more.
      is_complete_packet_lem b0 b1 b2 b3 b4 b5 (r ++ more)
      ∙ ap ok (le→leb _ _ (omega (arith, length-append r more)));
  stable_parsed = λ more.
      deserialize_lem b0 b1 b2 b3 b4 b5 (r ++ more) (omega (arith, length-append r more))
      ∙ rw (take-append_le (word32 b0 b1 b2 b3 - 6) r more (omega arith));
}

pub complete-Frame :
    (b : List ℕ) → is_complete_packet b (length b) ≡ ok true → (p : Packet) × Frame b p
complete-Frame (b0 ∷ b1 ∷ b2 ∷ b3 ∷ b4 ∷ b5 ∷ r) c =
    (_, six-Frame b0 b1 b2 b3 b4 b5 r (ground (arith, is_complete_packet_lem b0 b1 b2 b3 b4 b5 r)))
complete-Frame _ c = unfold is_complete_packet in cc

pub is_complete_packet-Returns : (b : List ℕ) → Returns (is_complete_packet b (length b))
unfolding is_complete_packet
is_complete_packet-Returns (b0 ∷ b1 ∷ b2 ∷ b3 ∷ b4 ∷ b5 ∷ r) =
    rw (is_complete_packet_lem b0 b1 b2 b3 b4 b5 r) tt
is_complete_packet-Returns _ = tt

-- Every packet that the constructor makes within the length field.
pub record Fits (type : ℕ) (payload : List ℕ) : Type 0 where
  pub type_fits : IsU16 type
  pub length_fits : IsU32 (6 + length payload)

word32-be32 :
    (n : ℕ) → IsU32 n → word32 (n / 2 ^ 24 % 256) (n / 2 ^ 16 % 256) (n / 2 ^ 8 % 256) (n % 256) ≡ n
word32-be32 n h = omega arith

word16-be16 : (n : ℕ) → IsU16 n → word16 (n / 2 ^ 8 % 256) (n % 256) ≡ n
word16-be16 n h = omega arith

module _ (type : ℕ) (payload rest : List ℕ) (fits : Fits type payload) where
  abbrev wire : List ℕ
  wire = serialize (make_packet type payload) ++ rest

  -- The frame of a made packet, with any bytes behind it, is complete and gives the packet back.
  pub serialize-Frame :
      Frame (serialize (make_packet type payload) ++ rest) (make_packet type payload)
  unfolding serialize make_packet
  serialize-Frame = subst (Frame _) same (
      six-Frame _ _ _ _ _ _ (payload ++ rest)
        (omega (arith, fits.length_fits, length-append payload rest)))
    where
      len : ℕ
      len = to_u32 (header_size + length payload)

      same :
          framed
            (word32 (len / 2 ^ 24 % 256) (len / 2 ^ 16 % 256) (len / 2 ^ 8 % 256) (len % 256))
            (word16 (type / 2 ^ 8 % 256) (type % 256))
            (payload ++ rest)
          ≡ make_packet type payload
      same =
          rw (word32-be32 len (omega arith), word16-be16 type fits.type_fits)
            (ground (arith, fits.length_fits, take-append payload rest))

  pub is_complete_packet-serialize : is_complete_packet wire (length wire) ≡ ok true
  unfolding serialize make_packet
  is_complete_packet-serialize =
      is_complete_packet_lem _ _ _ _ _ _ (payload ++ rest)
      ∙ ap ok (le→leb _ _ (omega (arith, fits.length_fits, length-append payload rest)))

-- The frame of a packet is as long as `getTotalSize` says.
pub length-serialize : (p : Packet) → length (serialize p) ≡ get_total_size p
unfolding serialize get_total_size
length-serialize p = omega arith

-- A packet made of a type below 2 ^ 16 and a payload whose frame is shorter than 2 ^ 32 bytes is, with any
-- bytes behind it, accepted by `isCompletePacket` and read back whole.
pub deserialize-serialize :
    (type : ℕ) (payload rest : List ℕ)
    → Fits type payload
    → let wire = serialize (make_packet type payload) ++ rest in
      (is_complete_packet wire (length wire) ≡ ok true)
      × (deserialize wire (length wire) ≡ ok (make_packet type payload))
deserialize-serialize type payload rest fits = (
  is_complete_packet-serialize type payload rest fits,
  (serialize-Frame type payload rest fits).parsed,
)

-- Any buffer that `isCompletePacket` accepts gives one packet, of six bytes at least, which lies inside
-- the buffer, and the answer to both calls stays the same when more bytes arrive.
pub complete_packet_lem :
    (b more : List ℕ)
    → is_complete_packet b (length b) ≡ ok true
    → (p : Packet) × (deserialize b (length b) ≡ ok p)
      × (6 ≤ get_total_size p)
      × (get_total_size p ≤ length b)
      × (is_complete_packet (b ++ more) (length (b ++ more)) ≡ ok true)
      × (deserialize (b ++ more) (length (b ++ more)) ≡ ok p)
complete_packet_lem b more h =
    let (p, f) = complete-Frame b h in
    (
      p,
      f.parsed,
      unfold get_total_size in omega arith,
      f.inside,
      f.stable_complete more,
      f.stable_parsed more,
    )
