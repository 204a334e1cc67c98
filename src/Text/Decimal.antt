-- ===== src/Text/Decimal.antt =====
-- The decimal print of a number is read back, and the shape of a print.
use mathlib.Core.Logic.{ite, dite, if_pos, if_neg}
use mathlib.Core.WellFounded
use mathlib.Core.WellFounded.{Acc, Acc-prop}
use talos_box.Base.{
  ℕ, ◌+◌, ◌-◌, ◌*◌, ◌/◌, ◌%◌, ◌^◌, ◌<◌, ◌≤◌, some, [], ◌∷◌, ◌++◌, ◌≡◌, ◌≢◌, refl, arith, Bytes, All,
  All-append, dec_lt, ◌∙◌, ap,
}
use talos_box.Text.{lt_wf, itoa_acc, itoa, read_digits, atoi, pos, in_range}

itoa_acc_step :
    (n : ℕ) (w : Acc ◌<◌ n) (w' : Acc ◌<◌ (n / 10))
    → itoa_acc n w
      ≡ ite (dec_lt n 10) ((b'0' + n) ∷ []) (itoa_acc (n / 10) w' ++ ((b'0' + n % 10) ∷ []))
unfolding itoa_acc
itoa_acc_step n (Acc.intro _ smaller) w' = λ i.
    dite (dec_lt n 10) (λ _. (b'0' + n) ∷ [])
      (λ h.
        itoa_acc (n / 10) (Acc-prop (smaller (n / 10) (omega arith)) w' i)
        ++ ((b'0' + n % 10) ∷ []))

-- The equation of `itoa`: one digit, or the print of the tenth and the last digit.
pub itoa_step :
    (n : ℕ) → itoa n ≡ ite (dec_lt n 10) ((b'0' + n) ∷ []) (itoa (n / 10) ++ ((b'0' + n % 10) ∷ []))
unfolding itoa
itoa_step n = itoa_acc_step n (lt_wf.apply n) (lt_wf.apply (n / 10))

abbrev pub IsDigit : ℕ → Type 0
IsDigit c = (b'0' ≤ c) × (c ≤ b'9')

-- Every byte of a print is a digit.
pub itoa-IsDigit : (n : ℕ) → All IsDigit (itoa n)
itoa-IsDigit n = WellFounded.induction lt_wf {C = λ m. All IsDigit (itoa m)} n λ m ih.
    elim (dec_lt m 10) [
      | yes h ↦ rw (itoa_step m, if_pos (dec_lt m 10) h) (omega arith)
      | no h ↦
          rw (itoa_step m, if_neg (dec_lt m 10) h)
            (All-append IsDigit (itoa (m / 10)) _ (ih (m / 10) (omega arith)) (omega arith))
    ]

read_digits-snoc :
    (s : Bytes) (n m d : ℕ)
    → read_digits s n ≡ some m
    → d < 10
    → read_digits (s ++ ((b'0' + d) ∷ [])) n ≡ some (m * 10 + d)
unfolding read_digits
read_digits-snoc [] n m d h lt = ground arith
read_digits-snoc (c ∷ s) n m d h lt = ground (arith, read_digits-snoc s (n * 10 + (c - b'0')) m d)

-- Reading a print from 0 gives the number.
pub read_digits-itoa : (n : ℕ) → read_digits (itoa n) 0 ≡ some n
read_digits-itoa n =
    WellFounded.induction lt_wf {C = λ m. read_digits (itoa m) 0 ≡ some m} n λ m ih.
      elim (dec_lt m 10) [
        | yes h ↦ rw (itoa_step m, if_pos (dec_lt m 10) h) (unfold read_digits in ground arith)
        | no h ↦
            rw (itoa_step m, if_neg (dec_lt m 10) h)
              (read_digits-snoc (itoa (m / 10)) 0 (m / 10) (m % 10) (ih (m / 10) (omega arith))
                  (omega arith)
                ∙ ap some (omega arith))
      ]

append_snoc_ne_nil : (s : Bytes) (c : ℕ) → s ++ (c ∷ []) ≢ []
append_snoc_ne_nil [] c = cc
append_snoc_ne_nil (d ∷ s) c = cc

pub itoa-ne-nil : (n : ℕ) → itoa n ≢ []
itoa-ne-nil n = elim (dec_lt n 10) [
  | yes h ↦ rw (itoa_step n, if_pos (dec_lt n 10) h) (cc)
  | no h ↦ rw (itoa_step n, if_neg (dec_lt n 10) h) (append_snoc_ne_nil (itoa (n / 10)) _)
]

-- A text of digits has no sign.
atoi_digits :
    (s : Bytes) → s ≢ [] → All IsDigit s → atoi s ≡ in_range pos (2 ^ 63 - 1) (read_digits s 0)
unfolding atoi
atoi_digits [] ne h = absurd (ne refl)
atoi_digits (c ∷ s) ne h = ground arith

-- An `int` that is not negative is read back from its decimal print.
pub atoi-itoa : (n : ℕ) → n < 2 ^ 63 → atoi (itoa n) ≡ some (pos n)
atoi-itoa n h =
    rw (atoi_digits (itoa n) (itoa-ne-nil n) (itoa-IsDigit n), read_digits-itoa n) (ground arith)

-- Two numbers with one print are equal.
pub itoa-injective : (m n : ℕ) → itoa m ≡ itoa n → m ≡ n
itoa-injective m n e = cc (read_digits-itoa m, read_digits-itoa n)
