-- ===== src/Serialization/Strings.antt =====
-- The part that the readers of strings in src/common/serialization.cpp share: a string behind its
-- length, which is taken only if it is not empty and lies inside the payload.
use cpptcpmultiplayer.Prelude.{
  ℕ, ◌+◌, ◌≤◌, ◌≡◌, ap, ◌&&◌, List, [], ◌∷◌, ◌++◌, arith, ltb, leb, if◌then◌else◌, lt→ltb, le→leb,
  length, drop, Result, ok, ◌>>=◌, Returns,
}
use cpptcpmultiplayer.Bytes.{load_bytes, load_bytes-Returns, load_bytes_at}

unfoldable pub optional_string : List ℕ → ℕ → ℕ → ℕ → Result (List ℕ × ℕ)
optional_string data_bytes size offset len =
    if ltb 0 len && leb (offset + len) size
    then (do s ← load_bytes data_bytes offset len; ok (s, offset + len))
    else ok ([], offset)

pub optional_string-Returns :
    (d : List ℕ) (size offset len : ℕ)
    → size ≤ length d
    → Returns (optional_string d size offset len)
unfolding optional_string
optional_string-Returns d size offset len h = ground (arith, load_bytes-Returns d offset len)

-- A string that is there is read, and the reader stands behind it.
pub optional_string_at :
    (s d : List ℕ) (size offset : ℕ) (rest : List ℕ)
    → drop offset d ≡ s ++ rest
    → offset + length s ≤ size
    → optional_string d size offset (length s) ≡ ok (s, offset + length s)
unfolding optional_string
optional_string_at [] d size offset rest e h = ap (λ n. ok ([], n)) (omega arith)
optional_string_at (b ∷ s) d size offset rest e h = rw (
  lt→ltb 0 (length (b ∷ s)) (omega arith),
  le→leb (offset + length (b ∷ s)) size h,
  load_bytes_at (b ∷ s) d offset rest e,
)
