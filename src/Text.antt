-- ===== src/Text.antt =====
-- What the program uses of Go's strings, strconv and fmt, over byte strings.
-- `itoa` is strconv.Itoa and the `%d` of fmt on a number that is not negative; `atoi` is
-- strconv.Atoi, with its signs and its int64 range.
pub mod Decimal
pub mod Sets
use mathlib.Core.Logic.{dite, ite, if_pos, if_neg}
use mathlib.Core.Bool.{false≢true}
use mathlib.Core.WellFounded.{Acc, WellFounded}
use talos_box.Base.{
  ℕ, zero, suc, ◌+◌, ◌-◌, ◌*◌, ◌/◌, ◌%◌, ◌^◌, ◌<◌, Bool, true, false, ◌&&◌, ◌||◌, Option, none,
  some, List, [], ◌∷◌, ◌++◌, ◌≡◌, ◌↔◌, sym, ◌∙◌, refl, arith, Bytes, codes, leb, ◌==◌,
  if◌then◌else◌, dec_lt, ℕ_discrete,
}

-- Equality of byte strings.
unfoldable pub Bytes-discrete : Discrete Bytes
Bytes-discrete = hlevel ℕ_discrete

Acc-below : (k n : ℕ) → n < k → Acc ◌<◌ n
Acc-below zero n h = absurd (omega arith)
Acc-below (suc k) n h = Acc.intro n (λ m hm. Acc-below k m (omega arith))

unfoldable pub lt_wf : WellFounded ◌<◌
unfolding Acc-below
lt_wf = record { apply = λ n. Acc-below (suc n) n (omega arith) }

itoa_acc : (n : ℕ) → Acc ◌<◌ n → Bytes
itoa_acc n (Acc.intro _ smaller) =
    dite (dec_lt n 10) (λ _. (b'0' + n) ∷ [])
      (λ h. itoa_acc (n / 10) (smaller (n / 10) (omega arith)) ++ ((b'0' + n % 10) ∷ []))

unfoldable pub itoa : ℕ → Bytes
unfolding itoa_acc lt_wf dec_lt
itoa n = itoa_acc n (lt_wf.apply n)

-- An `int` that strconv.Atoi may return; `negsuc n` is -(n + 1).
pub data ℤ : Type 0 where
  pos : ℕ → ℤ
  negsuc : ℕ → ℤ

abbrev pub negate : ℕ → ℤ
negate zero = pos 0
negate (suc n) = negsuc n

unfoldable pub read_digits : Bytes → ℕ → Option ℕ
read_digits [] n = some n
read_digits (c ∷ s) n =
    if leb b'0' c && leb c b'9' then read_digits s (n * 10 + (c - b'0')) else none

-- At least one digit, and nothing else.
unfoldable pub magnitude : Bytes → Option ℕ
unfolding read_digits
magnitude [] = none
magnitude (c ∷ s) = read_digits (c ∷ s) 0

-- The int64 range, for a sign and a magnitude.
abbrev pub in_range : (ℕ → ℤ) → ℕ → Option ℕ → Option ℤ
in_range sign limit none = none
in_range sign limit (some n) = if leb n limit then some (sign n) else none

unfoldable pub atoi : Bytes → Option ℤ
unfolding magnitude
atoi [] = none
atoi (c ∷ s) =
    if c == b'-'
    then in_range negate (2 ^ 63) (magnitude s)
    else if c == b'+'
    then in_range pos (2 ^ 63 - 1) (magnitude s)
    else in_range pos (2 ^ 63 - 1) (magnitude (c ∷ s))

-- strings.HasPrefix, with what strings.TrimPrefix leaves.
unfoldable pub cut_prefix : Bytes → Bytes → Option Bytes
cut_prefix [] s = some s
cut_prefix (p ∷ ps) [] = none
cut_prefix (p ∷ ps) (c ∷ s) = if p == c then cut_prefix ps s else none

itoa_test : itoa 1234 ≡ codes "1234"
unfolding itoa
itoa_test = refl

atoi_test : atoi (codes "-12") ≡ some (negsuc 11)
unfolding atoi
atoi_test = refl

cut_prefix_test : cut_prefix (codes "bridge") (codes "bridge100") ≡ some (codes "100")
unfolding cut_prefix
cut_prefix_test = refl

-- `==` on strings.
unfoldable pub same : Bytes → Bytes → Bool
unfolding Bytes-discrete ℕ_discrete
same s t = ite (Bytes-discrete s t) true false

pub same_iff : (s t : Bytes) → (same s t ≡ true) ↔ (s ≡ t)
unfolding same
same_iff s t = elim (Bytes-discrete s t) [
  | yes e ↦ (λ h. e, λ h. if_pos (Bytes-discrete s t) e true false)
  | no e ↦ (
    λ h. absurd (false≢true (sym (if_neg (Bytes-discrete s t) e true false) ∙ h)),
    λ h. absurd (e h),
  )
]

-- Membership in a set of strings.
unfoldable pub contains : List Bytes → Bytes → Bool
contains [] s = false
contains (t ∷ ts) s = same t s || contains ts s

-- strconv.Itoa of an `int`.
unfoldable pub itoa_int : ℤ → Bytes
itoa_int (pos n) = itoa n
itoa_int (negsuc n) = b'-' ∷ itoa (n + 1)

abbrev pub lower_byte : ℕ → ℕ
lower_byte c = if leb b'A' c && leb c b'Z' then c + 32 else c

-- `strings.ToLower`
unfoldable pub to_lower : Bytes → Bytes
to_lower [] = []
to_lower (c ∷ s) = lower_byte c ∷ to_lower s
