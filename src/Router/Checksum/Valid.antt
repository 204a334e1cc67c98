-- ===== src/Router/Checksum/Valid.antt =====
-- A checksum that is written into a header makes the header's checksum 0, the value that a
-- receiver, and `parseRouterIPv4Packet` itself, accepts.
use talos_box.Base.{
  ℕ, zero, suc, ◌+◌, ◌*◌, ◌/◌, ◌%◌, ◌^◌, ◌<◌, ◌≤◌, [], ◌∷◌, ◌++◌, Bytes, IsByte, All, ◌≡◌, refl,
  arith, length, put16,
}
use talos_box.Router.Checksum.{sum_words, fold_carries, internet_checksum}

-- The sum of the 16-bit words with no bound, the independent description of the sum.
abbrev pub word_sum : Bytes → ℕ
word_sum [] = 0
word_sum (x ∷ []) = x * 256
word_sum (x ∷ (y ∷ s)) = x * 256 + y + word_sum s

-- The uint32 sum does not wrap where the true sum fits.
sum_words-eq : (s : Bytes) (n : ℕ) → n + word_sum s < 2 ^ 32 → sum_words s n ≡ n + word_sum s
unfolding sum_words
sum_words-eq [] n h = omega arith
sum_words-eq (x ∷ []) n h = omega arith
sum_words-eq (x ∷ (y ∷ s)) n h = ground (arith, sum_words-eq s (n + (x * 256 + y)))

word_sum-le : (s : Bytes) → All IsByte s → word_sum s ≤ 65535 * length s
word_sum-le [] h = omega arith
word_sum-le (x ∷ []) h = omega arith
word_sum-le (x ∷ (y ∷ s)) h = omega (arith, word_sum-le s h.1.1)

-- Three rounds end the loop for every uint32.
fold_carries_ends : (n : ℕ) → n < 2 ^ 32 → fold_carries 3 n ≤ 65535
unfolding fold_carries
fold_carries_ends n h = ground arith

-- A round keeps the sum modulo 65535, and does not turn a positive sum to 0.
fold_carries-mod : (k n : ℕ) → fold_carries k n % 65535 ≡ n % 65535
unfolding fold_carries
fold_carries-mod zero n = refl
fold_carries-mod (suc k) n = ground (arith, fold_carries-mod k (n / 65536 + n % 65536))

fold_carries_pos : (k n : ℕ) → 0 < n → 0 < fold_carries k n
unfolding fold_carries
fold_carries_pos zero n h = h
fold_carries_pos (suc k) n h = ground (arith, fold_carries_pos k (n / 65536 + n % 65536))

fold_carries-le : (k n : ℕ) → fold_carries k n ≤ n
unfolding fold_carries
fold_carries-le zero n = omega arith
fold_carries-le (suc k) n = ground (arith, fold_carries-le k (n / 65536 + n % 65536))

checksum_of_sum :
    (s : Bytes) (n : ℕ)
    → word_sum s ≡ n
    → n < 2 ^ 32
    → (internet_checksum s + fold_carries 3 n ≡ 65535) × (fold_carries 3 n ≤ 65535)
unfolding internet_checksum
checksum_of_sum s n e h = ground (arith, sum_words-eq s 0, fold_carries_ends n h)

-- A header whose words add up to a positive multiple of 65535 has checksum 0.
checksum-zero :
    (s : Bytes)
    → 0 < word_sum s
    → word_sum s < 2 ^ 32
    → word_sum s % 65535 ≡ 0
    → internet_checksum s ≡ 0
checksum-zero s p h m = omega (
  arith,
  checksum_of_sum s (word_sum s) refl h,
  fold_carries-mod 3 (word_sum s),
  fold_carries_pos 3 (word_sum s) p,
)

word_sum-append :
    (front back : Bytes) (k : ℕ)
    → length front ≡ 2 * k
    → word_sum (front ++ back) ≡ word_sum front + word_sum back
word_sum-append [] back k e = omega arith
word_sum-append (x ∷ []) back k e = absurd (omega arith)
word_sum-append (x ∷ (y ∷ s)) back zero e = absurd (omega arith)
word_sum-append (x ∷ (y ∷ s)) back (suc k) e = omega (arith, word_sum-append s back k (omega arith))

internet_checksum-le : (s : Bytes) → internet_checksum s ≤ 65535
unfolding internet_checksum
internet_checksum-le s = omega arith

-- Writing the checksum of a header, computed with its checksum field cleared, into that field at
-- an even offset gives a header with checksum 0, for every header of at most 60 bytes.
pub checksum-put16 :
    (front back : Bytes) (k : ℕ)
    → length front ≡ 2 * k
    → All IsByte front
    → All IsByte back
    → length front + length back ≤ 58
    → let field = put16 (internet_checksum (front ++ (0 ∷ (0 ∷ back)))) in
      internet_checksum (front ++ (field ++ back)) ≡ 0
checksum-put16 front back k e hf hb len =
    let c = internet_checksum (front ++ (0 ∷ (0 ∷ back))) in
    let n = word_sum front + word_sum back in
    let cleared = word_sum-append front (0 ∷ (0 ∷ back)) k e in
    let filled = word_sum-append front (put16 c ++ back) k e in
    let small : n < 65536 * 60 = omega (arith, word_sum-le front hf, word_sum-le back hb) in
    let sum =
      checksum_of_sum (front ++ (0 ∷ (0 ∷ back))) n (omega (arith, cleared)) (omega arith) in
    let total : word_sum (front ++ (put16 c ++ back)) ≡ n + c =
      omega (arith, filled, internet_checksum-le (front ++ (0 ∷ (0 ∷ back)))) in
    checksum-zero (front ++ (put16 c ++ back)) (omega (arith, total, sum, fold_carries-le 3 n))
      (omega (arith, total, sum)) (omega (arith, total, sum, fold_carries-mod 3 n))
