-- ===== src/Base/Ints.antt =====
-- Go's `int` on a 64-bit host as its bit pattern, a number below 2 ^ 64: the operations wrap, and
-- a pattern from 2 ^ 63 on stands for a negative number.
use Prim.Native.Nat.{ℕ, ◌+◌, ◌-◌, ◌*◌, ◌/◌, ◌%◌, ◌^◌, ◌≤◌, ◌<◌}
use mathlib.Core.Path.{◌≡◌, refl}
use mathlib.Core.Bool.{Bool, true, false}
use native.Mathlib.Omega.{arith}
use talos_box.Base.Tests.{leb, if◌then◌else◌}

unfoldable pub add_int : ℕ → ℕ → ℕ
add_int a b = (a + b) % 2 ^ 64

unfoldable pub sub_int : ℕ → ℕ → ℕ
sub_int a b = (a + 2 ^ 64 - b) % 2 ^ 64

unfoldable pub mul_int : ℕ → ℕ → ℕ
mul_int a b = a * b % 2 ^ 64

abbrev pub is_negative : ℕ → Bool
is_negative a = leb (2 ^ 63) a

abbrev pub magnitude : ℕ → ℕ
magnitude a = if is_negative a then 2 ^ 64 - a else a

-- `/` rounds towards 0.
abbrev pub signed_as : ℕ → Bool → Bool → ℕ
signed_as q true true = q
signed_as q true false = (2 ^ 64 - q) % 2 ^ 64
signed_as q false true = (2 ^ 64 - q) % 2 ^ 64
signed_as q false false = q

unfoldable pub quot_int : ℕ → ℕ → ℕ
quot_int a b = signed_as (magnitude a / magnitude b) (is_negative a) (is_negative b)

unfoldable pub le_int : ℕ → ℕ → Bool
le_int a b = leb ((a + 2 ^ 63) % 2 ^ 64) ((b + 2 ^ 63) % 2 ^ 64)

pub add_int-exact : (a b : ℕ) → a + b < 2 ^ 63 → add_int a b ≡ a + b
unfolding add_int
add_int-exact a b h = omega arith

pub sub_int-exact : (a b : ℕ) → b ≤ a → a < 2 ^ 63 → sub_int a b ≡ a - b
unfolding sub_int
sub_int-exact a b h l = omega arith

pub mul_int-exact : (a b : ℕ) → a * b < 2 ^ 63 → mul_int a b ≡ a * b
unfolding mul_int
mul_int-exact a b h = omega arith

not_negative : (a : ℕ) → a < 2 ^ 63 → is_negative a ≡ false
not_negative a h = ground arith

pub quot_int-exact : (a b : ℕ) → a < 2 ^ 63 → b < 2 ^ 63 → quot_int a b ≡ a / b
unfolding quot_int
quot_int-exact a b h k = rw (not_negative a h, not_negative b k) refl

pub le_int-exact : (a b : ℕ) → a < 2 ^ 63 → b < 2 ^ 63 → le_int a b ≡ leb a b
unfolding le_int
le_int-exact a b h k = ground arith

-- The difference of two numbers that are not negative, against a third.
pub le_int-sub_int :
    (a b c : ℕ) → a < 2 ^ 63 → b < 2 ^ 63 → c < 2 ^ 63 → le_int (sub_int a b) c ≡ leb a (c + b)
unfolding le_int sub_int
le_int-sub_int a b c h k l = ground arith
