-- ===== src/Pressure/Usage.antt =====
-- Used bytes and the percentage of them, of internal/hostpressure/pressure.go. `percentUsed`
-- computes in float64: on whole numbers each operation rounds to 53 bits, halves to even.
use talos_box.Base.{
  ℕ, zero, suc, ◌+◌, ◌-◌, ◌*◌, ◌/◌, ◌%◌, ◌^◌, ◌&&◌, ◌||◌, ltb, leb, ◌==◌, if◌then◌else◌, ◌≡◌, refl,
}

pub record Usage : Type 0 where
  pub total : ℕ
  pub available : ℕ

-- `UsedBytes`
unfoldable pub used_bytes : Usage → ℕ
used_bytes u = if leb u.total u.available then 0 else u.total - u.available

-- A quotient, rounded to the nearest whole number, halves to even.
abbrev pub round_div : ℕ → ℕ → ℕ
round_div n d =
    let q = n / d in
    let r = n % d in if ltb d (2 * r) || (2 * r == d && q % 2 == 1) then q + 1 else q

-- The number of low bits to drop, at most `fuel`, until 53 are left.
unfoldable pub excess : ℕ → ℕ → ℕ
excess zero n = 0
excess (suc fuel) n = let rest = excess fuel (n / 2) in if ltb n (2 ^ 53) then 0 else rest + 1

-- The float64 of a whole number below 2 ^ 73.
unfoldable pub round53 : ℕ → ℕ
unfolding excess
round53 n = let unit = 2 ^ excess 20 n in round_div n unit * unit

-- The largest power of two that is at most `n`, at most `fuel`.
unfoldable pub log2 : ℕ → ℕ → ℕ
log2 zero n = 0
log2 (suc fuel) n = let rest = log2 fuel (n / 2) in if ltb n 2 then 0 else rest + 1

-- `int(x / y)` for float64 values of whole numbers, the quotient below 2 ^ 53. A quotient below 1
-- does not round up to 1.
unfoldable pub int_div : ℕ → ℕ → ℕ
unfolding log2
int_div x y =
    let unit = 2 ^ (52 - log2 52 (x / y)) in if ltb x y then 0 else round_div (x * unit) y / unit

-- `percentUsed`
unfoldable pub percent_used : Usage → ℕ
unfolding used_bytes round53 int_div
percent_used u =
    if u.total == 0 then 0 else int_div (round53 (round53 (used_bytes u) * 100)) (round53 u.total)

percent_test : percent_used (record { total = 8589934592; available = 1288490188 }) ≡ 85
unfolding percent_used
percent_test = refl

percent_test_whole : percent_used (record { total = 2 ^ 64 - 1; available = 0 }) ≡ 100
unfolding percent_used
percent_test_whole = refl
