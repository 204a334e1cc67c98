-- ===== src/Router/Checksum.antt =====
-- The Internet checksum, `routerInternetChecksum` of internal/helper/router.go.
pub mod Valid
use talos_box.Base.{
  ℕ, zero, suc, ◌+◌, ◌-◌, ◌*◌, ◌/◌, ◌%◌, ◌^◌, List, [], ◌∷◌, Bytes, ltb, if◌then◌else◌, ◌≡◌, refl,
}

-- `sum += …` in uint32
abbrev pub add32 : ℕ → ℕ → ℕ
add32 a b = (a + b) % 2 ^ 32

-- The loop over the pairs of bytes, and the odd byte behind them.
unfoldable pub sum_words : Bytes → ℕ → ℕ
sum_words [] sum = sum
sum_words (x ∷ []) sum = add32 sum (x * 256)
sum_words (x ∷ (y ∷ s)) sum = sum_words s (add32 sum (x * 256 + y))

-- `for sum > 0xffff { sum = (sum >> 16) + (sum & 0xffff) }`, with fuel.
unfoldable pub fold_carries : ℕ → ℕ → ℕ
fold_carries zero sum = sum
fold_carries (suc fuel) sum =
    let rest = fold_carries fuel (sum / 65536 + sum % 65536) in if ltb 65535 sum then rest else sum

-- Three rounds, one more than a uint32 needs.
unfoldable pub internet_checksum : Bytes → ℕ
unfolding sum_words fold_carries
internet_checksum s = 65535 - fold_carries 3 (sum_words s 0) % 65536

checksum_test : internet_checksum (0x12 ∷ (0x34 ∷ (0xf0 ∷ []))) ≡ 0xfdca
unfolding internet_checksum
checksum_test = refl
