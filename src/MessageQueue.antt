-- ===== src/MessageQueue.antt =====
-- The queue of received packets: src/server/message_queue.cpp, with the oldest packet first. `pop` waits
-- on the condition variable while the queue is empty: `none` means that the caller is still waiting.
mod Runs
use cpptcpmultiplayer.Prelude.{
  ℕ, zero, suc, ◌+◌, ◌-◌, ◌*◌, ◌/◌, ◌%◌, ◌^◌, ◌≤◌, ◌<◌, ◌≡◌, refl, sym, ap, ◌∙◌, ◌≢◌, ◌↔◌, ◌⊎◌, inl,
  inr, Bool, true, false, not, ◌&&◌, ◌||◌, Option, none, some, List, [], ◌∷◌, ◌++◌, map, append-nil,
  append_assoc, arith, ltb, leb, ◌==◌, if◌then◌else◌, ltb→lt, ltb→ge, lt→ltb, ge→ltb, le→leb,
  gt→leb, leb→le, leb→gt, ==_refl, ==_iff, Bool-cases, Option-cases, length, get_or, drop, take,
  All, length-append, length-drop, nil_of_length, length-take_le, take-append_le, take-append,
  drop-append, drop-append_le, drop-drop, All-append, Result, ok, fault, stuck, ◌>>=◌, Returns,
  Returns-value, >>=-Returns, if-Returns, drop-append_add, if-elim, equal_bytes, equal_bytes→eq,
  equal_bytes_refl,
}
use cpptcpmultiplayer.Bytes.{
  IsU32, IsU16, IsByte, be32, be16, to_u32, read_u32, read_u16, read_bytes, load_u32, load_u16,
  load_bytes, load_u32-Returns, load_u16-Returns, load_bytes-Returns, read_u32-be32, read_u16-be16,
  read_bytes-append, read_bytes-take, load_u32_at, load_bytes_at, load_length_at,
}
use cpptcpmultiplayer.Packet.{Packet}

abbrev pub MessageQueue : Type 0
MessageQueue = List Packet

unfoldable pub push : Packet → MessageQueue → MessageQueue
push packet q = q ++ (packet ∷ [])

unfoldable pub try_pop : MessageQueue → Option (Packet × MessageQueue)
try_pop [] = none
try_pop (p ∷ q) = some (p, q)

unfoldable pub pop : MessageQueue → Option (Packet × MessageQueue)
pop [] = none
pop (p ∷ q) = some (p, q)

unfoldable pub is_empty : MessageQueue → Bool
is_empty [] = true
is_empty (p ∷ q) = false

unfoldable pub size : MessageQueue → ℕ
size q = length q

unfoldable pub clear : MessageQueue → MessageQueue
clear q = []

unfoldable pub push_all : List Packet → MessageQueue → MessageQueue
unfolding push
push_all [] q = q
push_all (p ∷ ps) q = push_all ps (push p q)

-- Packets come out in the order in which they went in, behind those that were there.
pub pop-push_all :
    (p : Packet) (ps q : List Packet) → pop (push_all ps (p ∷ q)) ≡ some (p, push_all ps q)
unfolding push_all pop push
pop-push_all p [] q = refl
pop-push_all p (x ∷ ps) q = pop-push_all p ps (q ++ (x ∷ []))
