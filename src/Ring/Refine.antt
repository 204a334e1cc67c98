-- ===== src/Ring/Refine.antt =====
-- The ring buffer is a queue that keeps the last bytes.
use mathlib.Core.List.{append_assoc, append-nil}
use native.Mathlib.Nat.{mod-lt, mod-mod, mod-eq_of_lt}
use talos_box.Base.{
  ℕ, zero, suc, ◌+◌, ◌-◌, ◌%◌, ◌<◌, ◌≤◌, [], ◌∷◌, ◌++◌, Bytes, ltb, leb, length, set, drop, byte_at,
  length-set, length-append, length-drop, drop-append_ge, drop-append, ◌≡◌, refl, sym, ◌∙◌, ap,
  arith, Bool-cases, inl, inr, leb→le, ltb→lt,
}
use talos_box.Ring.{Ring, new_ring_buffer, write_byte, write_bytes, write, read_from, snapshot}
use talos_box.Ring.Window.{read_from-mod, read_from-suc, read_from-set, byte_at-set_self}

-- The last `n` bytes.
abbrev pub last : ℕ → Bytes → Bytes
last n xs = drop (length xs - n) xs

pub record WellFormed (r : Ring) : Type 0 where
  pub within : r.size ≤ length r.contents

length-read_from : (xs : Bytes) (s n : ℕ) → length (read_from xs s n) ≡ n
unfolding read_from
length-read_from xs s zero = refl
length-read_from xs s (suc n) = ap suc (length-read_from xs (s + 1) n)

-- A window that the write extends by one byte.
grown :
    (xs : Bytes) (s n b : ℕ)
    → n < length xs
    → read_from (set xs ((s + n) % length xs) b) s (n + 1) ≡ read_from xs s n ++ (b ∷ [])
grown xs s n b h =
    let i = (s + n) % length xs in
    let new =
      ap (λ c. byte_at (set xs i b) ((s + n) % c)) (length-set xs i b)
      ∙ byte_at-set_self xs i b (mod-lt (s + n) (omega (arith, h))) in
    ap (read_from (set xs i b) s) {x = n + 1} {y = suc n} (omega arith)
    ∙ read_from-suc (set xs i b) s n
    ∙ rw (read_from-set xs s n n b (omega arith) h, new) refl

-- A full window that the write moves on by one byte.
moved :
    (xs : Bytes) (s k b : ℕ)
    → length xs ≡ suc k
    → read_from (set xs ((s + suc k) % length xs) b) (s + 1) (suc k)
      ≡ drop 1 (read_from xs s (suc k) ++ (b ∷ []))
unfolding read_from
moved xs s k b e =
    ap (λ j. read_from (set xs (j % length xs) b) (s + 1) (suc k)) {x = s + suc k} {y = s + 1 + k}
      (omega arith)
    ∙ ap (read_from (set xs ((s + 1 + k) % length xs) b) (s + 1)) {x = suc k} {y = k + 1}
        (omega arith)
    ∙ grown xs (s + 1) k b (omega (arith, e))

rotated :
    (xs : Bytes) (s n b : ℕ)
    → n ≡ length xs
    → 0 < n
    → read_from (set xs ((s + n) % length xs) b) (s + 1) n
      ≡ last (length xs) (read_from xs s n ++ (b ∷ []))
rotated xs s zero b e h = absurd (omega (arith, h))
rotated xs s (suc k) b e h =
    moved xs s k b (sym e)
    ∙ ap (λ j. drop j (read_from xs s (suc k) ++ (b ∷ []))) {x = 1}
        {y = length (read_from xs s (suc k) ++ (b ∷ [])) - length xs}
        (omega (
          arith,
          length-append (read_from xs s (suc k)) (b ∷ []),
          length-read_from xs s (suc k),
          e,
        ))

abbrev pub capacity : Ring → ℕ
capacity r = length r.contents

write_byte-capacity : (r : Ring) (b : ℕ) → capacity (write_byte r b) ≡ capacity r
unfolding write_byte
write_byte-capacity r b = elim (Bool-cases (ltb r.size (capacity r))) [
  | inl e ↦ rw (e) (length-set r.contents _ b)
  | inr e ↦ rw (e) (length-set r.contents _ b)
]

write_byte-WellFormed : (r : Ring) (b : ℕ) → WellFormed r → WellFormed (write_byte r b)
unfolding write_byte
write_byte-WellFormed r b w = elim (Bool-cases (ltb r.size (capacity r))) [
  | inl e ↦ rw (e) record {
    within = omega (arith, length-set r.contents ((r.start + r.size) % capacity r) b, ltb→lt _ _ e);
  }
  | inr e ↦ rw (e) record {
    within = omega (arith, length-set r.contents ((r.start + r.size) % capacity r) b, w.within);
  }
]

-- One byte: it goes behind the others, and the first one goes where there is no room.
snapshot-write_byte :
    (r : Ring) (b : ℕ)
    → WellFormed r
    → 0 < capacity r
    → snapshot (write_byte r b) ≡ last (capacity r) (snapshot r ++ (b ∷ []))
unfolding write_byte snapshot
snapshot-write_byte r b w h = elim (Bool-cases (ltb r.size (capacity r))) [
  | inl e ↦ rw (e) (
      grown r.contents r.start r.size b (ltb→lt _ _ e)
      ∙ ap (λ k. drop k (snapshot r ++ (b ∷ []))) {x = 0}
          {y = length (snapshot r ++ (b ∷ [])) - capacity r}
          (omega (
            arith,
            length-append (snapshot r) (b ∷ []),
            length-read_from r.contents r.start r.size,
            ltb→lt _ _ e,
          )))
  | inr e ↦
      let full : r.size ≡ capacity r = ground (arith, w.within) in
      rw (e) (
        read_from-mod _ _ (r.start + 1) r.size (
          rw (length-set r.contents ((r.start + r.size) % capacity r) b)
            (mod-mod (r.start + 1) (capacity r)))
        ∙ rotated r.contents r.start r.size b full (omega (arith, full, h)))
]

last-small : (n : ℕ) (xs : Bytes) → length xs ≤ n → last n xs ≡ xs
last-small n xs h = ap (λ k. drop k xs) {x = length xs - n} {y = 0} (omega arith)

-- Cutting before more bytes come is cutting once.
drop-append-drop :
    (a b : ℕ) (xs ys : Bytes) → b ≤ length xs → drop a (drop b xs ++ ys) ≡ drop (b + a) (xs ++ ys)
drop-append-drop a zero xs ys h = ap (λ k. drop k (xs ++ ys)) {x = a} {y = 0 + a} (omega arith)
drop-append-drop a (suc b) [] ys h = absurd (omega (arith, h))
drop-append-drop a (suc b) (x ∷ xs) ys h =
    drop-append-drop a b xs ys (omega (arith, h))
    ∙ ap (λ k. drop k (x ∷ (xs ++ ys))) {x = suc (b + a)} {y = suc b + a} (omega arith)

last-append-last : (n : ℕ) (xs ys : Bytes) → last n (last n xs ++ ys) ≡ last n (xs ++ ys)
last-append-last n xs ys =
    let cut = length xs - n in
    drop-append-drop (length (last n xs ++ ys) - n) cut xs ys (omega arith)
    ∙ ap (λ k. drop k (xs ++ ys)) {x = cut + (length (last n xs ++ ys) - n)}
        {y = length (xs ++ ys) - n}
        (omega (arith, length-append (last n xs) ys, length-append xs ys, length-drop cut xs))

write_bytes-last :
    (r : Ring) (p : Bytes)
    → WellFormed r
    → 0 < capacity r
    → snapshot (write_bytes r p) ≡ last (capacity r) (snapshot r ++ p)
unfolding write_bytes snapshot
write_bytes-last r [] w h = sym (
    last-small (capacity r) (snapshot r ++ []) (
      omega (
        arith,
        length-append (snapshot r) [],
        length-read_from r.contents r.start r.size,
        w.within,
      ))
    ∙ append-nil (snapshot r))
write_bytes-last r (b ∷ p) w h =
    write_bytes-last (write_byte r b) p (write_byte-WellFormed r b w)
      (omega (arith, write_byte-capacity r b, h))
    ∙ ap (λ c. last c (snapshot (write_byte r b) ++ p)) (write_byte-capacity r b)
    ∙ ap (λ xs. last (capacity r) (xs ++ p)) (snapshot-write_byte r b w h)
    ∙ last-append-last (capacity r) (snapshot r ++ (b ∷ [])) p
    ∙ ap (last (capacity r)) (append_assoc (snapshot r) (b ∷ []) p)

drop-byte_at : (xs : Bytes) (i : ℕ) → i < length xs → byte_at xs i ∷ drop (suc i) xs ≡ drop i xs
drop-byte_at [] i h = absurd (omega (arith, h))
drop-byte_at (x ∷ xs) zero h = refl
drop-byte_at (x ∷ xs) (suc i) h = drop-byte_at xs i (omega (arith, h))

-- A window that ends where the data ends.
read_from-drop : (xs : Bytes) (s n : ℕ) → s + n ≡ length xs → read_from xs s n ≡ drop s xs
unfolding read_from
read_from-drop xs s zero h =
    sym (drop-append xs [] {n = s} (omega (arith, h))) ∙ ap (drop s) (append-nil xs)
read_from-drop xs s (suc n) h =
    ap (λ i. byte_at xs i ∷ read_from xs (s + 1) n) {x = s % length xs} {y = s}
      (mod-eq_of_lt (omega (arith, h)))
    ∙ ap (λ zs. byte_at xs s ∷ zs) (read_from-drop xs (s + 1) n (omega (arith, h)))
    ∙ ap (λ i. byte_at xs s ∷ drop i xs) {x = s + 1} {y = suc s} (omega arith)
    ∙ drop-byte_at xs s (omega (arith, h))

-- What a bulk write leaves.
last-append_ge :
    (n : ℕ) (xs ys : Bytes) → n ≤ length ys → last n (xs ++ ys) ≡ drop (length ys - n) ys
last-append_ge n xs ys h =
    drop-append_ge xs ys (length (xs ++ ys) - n) (omega (arith, length-append xs ys, h))
    ∙ ap (λ k. drop k ys) {x = length (xs ++ ys) - n - length xs} {y = length ys - n}
        (omega (arith, length-append xs ys, h))

-- In a well-formed buffer a write makes the kept bytes the last ones, as many as the capacity, of
-- the kept bytes followed by the written ones.
pub snapshot-write :
    (r : Ring) (p : Bytes)
    → WellFormed r
    → snapshot (write r p) ≡ last (capacity r) (snapshot r ++ p)
unfolding write snapshot
snapshot-write r p w = elim (Bool-cases (leb (capacity r) (length p))) [
  | inl e ↦
      let h = leb→le (capacity r) (length p) e in
      let cut = length p - capacity r in
      rw (e) (
        read_from-drop (drop cut p) 0 (capacity r) (omega (arith, length-drop cut p, h))
        ∙ sym (last-append_ge (capacity r) (snapshot r) p h))
  | inr e ↦ rw (e) (write_bytes-last r p w (ground arith))
]

write_bytes-WellFormed :
    (r : Ring) (p : Bytes)
    → WellFormed r
    → WellFormed (write_bytes r p) × (capacity (write_bytes r p) ≡ capacity r)
unfolding write_bytes
write_bytes-WellFormed r [] w = (w, refl)
write_bytes-WellFormed r (b ∷ p) w =
    let rest = write_bytes-WellFormed (write_byte r b) p (write_byte-WellFormed r b w) in
    (rest.0, rest.1 ∙ write_byte-capacity r b)

-- A write of any length keeps a buffer well-formed and its capacity unchanged.
pub write-WellFormed :
    (r : Ring) (p : Bytes)
    → WellFormed r
    → WellFormed (write r p) × (capacity (write r p) ≡ capacity r)
unfolding write
write-WellFormed r p w = elim (Bool-cases (leb (capacity r) (length p))) [
  | inl e ↦
      let h = leb→le (capacity r) (length p) e in
      let cut = length p - capacity r in
      let kept : length (drop cut p) ≡ capacity r = omega (arith, length-drop cut p, h) in
      rw (e) (record { within = omega (arith, kept) }, kept)
  | inr e ↦ rw (e) (write_bytes-WellFormed r p w)
]

pub new_ring_buffer-WellFormed : (n : ℕ) → WellFormed (new_ring_buffer n)
new_ring_buffer-WellFormed n = record { within = omega arith }
