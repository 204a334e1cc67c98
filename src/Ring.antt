-- ===== src/Ring.antt =====
-- The ring buffer behind a node's console, of internal/hypervisor/ring.go. The capacity is the
-- length of the data.
pub mod Window
pub mod Refine
mod Tests
use talos_box.Base.{
  ℕ, zero, suc, ◌+◌, ◌-◌, ◌%◌, Bool, true, false, List, [], ◌∷◌, ◌++◌, Bytes, leb, ltb,
  if◌then◌else◌, length, set, drop, byte_at, replicate,
}

pub record Ring : Type 0 where
  pub contents : Bytes
  pub start : ℕ
  pub size : ℕ

-- `newRingBuffer`
abbrev pub new_ring_buffer : ℕ → Ring
new_ring_buffer capacity = record { contents = replicate capacity 0; start = 0; size = 0 }

-- The body of the loop of `Write`.
unfoldable pub write_byte : Ring → ℕ → Ring
write_byte r b =
    let capacity = length r.contents in
    let stored = set r.contents ((r.start + r.size) % capacity) b in
    if ltb r.size capacity
    then record { contents = stored; start = r.start; size = r.size + 1 }
    else record { contents = stored; start = (r.start + 1) % capacity; size = r.size }

unfoldable pub write_bytes : Ring → Bytes → Ring
unfolding write_byte
write_bytes r [] = r
write_bytes r (b ∷ p) = write_bytes (write_byte r b) p

-- `Write`
unfoldable pub write : Ring → Bytes → Ring
unfolding write_bytes
write r p =
    let capacity = length r.contents in
    if leb capacity (length p)
    then record { contents = drop (length p - capacity) p; start = 0; size = capacity }
    else write_bytes r p

-- The bytes at `n` positions from `start` on.
unfoldable pub read_from : Bytes → ℕ → ℕ → Bytes
read_from bytes start zero = []
read_from bytes start (suc n) = byte_at bytes (start % length bytes) ∷ read_from bytes (start + 1) n

-- `Snapshot`
unfoldable pub snapshot : Ring → Bytes
unfolding read_from
snapshot r = read_from r.contents r.start r.size
