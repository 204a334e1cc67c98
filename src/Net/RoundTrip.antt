-- ===== src/Net/RoundTrip.antt =====
-- An address that is printed is read back.
use mathlib.Core.Logic.{if_pos, if_neg}
use mathlib.Core.List.{append-nil}
use talos_box.Base.{
  ℕ, ◌+◌, ◌*◌, ◌/◌, ◌%◌, ◌<◌, false, ◌&&◌, Option, none, some, List, [], ◌∷◌, ◌++◌, ◌≡◌, refl,
  arith, Bytes, ltb, ◌==◌, if◌then◌else◌, dec_lt, length, ◌∙◌, All,
}
use talos_box.Text.{itoa}
use talos_box.Text.Decimal.{itoa_step, itoa-IsDigit, IsDigit}
use talos_box.Net.{Ip, ip, IsOctets, Quad, read_quad, family, v4, parse_ip4, format_ip}

itoa_one : (n : ℕ) → n < 10 → itoa n ≡ (b'0' + n) ∷ []
itoa_one n h = rw (itoa_step n, if_pos (dec_lt n 10) h)

itoa_more : (n : ℕ) → ¬ (n < 10) → itoa n ≡ itoa (n / 10) ++ ((b'0' + n % 10) ∷ [])
itoa_more n h = rw (itoa_step n, if_neg (dec_lt n 10) h)

-- How many digits the print of a byte has.
digits_of : ℕ → ℕ
digits_of n = if ltb n 10 then 1 else if ltb n 100 then 2 else 3

quad : ℕ → ℕ → List ℕ → Quad
quad v k l = record { val = v; digits = k; fields = l }

-- A digit that follows a value which is not a leading zero, and keeps the field in a byte.
read_digit :
    (v k d : ℕ) (l : List ℕ) (s : Bytes)
    → d < 10
    → ((k == 1) && (v == 0)) ≡ false
    → v * 10 + d < 256
    → read_quad ((b'0' + d) ∷ s) (quad v k l) ≡ read_quad s (quad (v * 10 + d) (k + 1) l)
unfolding read_quad quad
read_digit v k d l s hd hz hv = ground arith

read_two :
    (m d : ℕ) (l : List ℕ) (s : Bytes)
    → 0 < m
    → m < 10
    → d < 10
    → read_quad ((b'0' + m) ∷ ((b'0' + d) ∷ s)) (quad 0 0 l) ≡ read_quad s (quad (m * 10 + d) 2 l)
read_two m d l s hp hm hd =
    ground (arith, read_digit 0 0 m l ((b'0' + d) ∷ s) hm refl, read_digit m 1 d l s hd)

-- Reading the print of a byte leaves its value, with at least one digit read.
read_byte :
    (n : ℕ) (l : List ℕ) (s : Bytes)
    → n < 256
    → read_quad (itoa n ++ s) (quad 0 0 l) ≡ read_quad s (quad n (digits_of n) l)
unfolding digits_of
read_byte n l s h = elim (dec_lt n 10) [
  | yes p ↦ rw (itoa_one n p) (ground (arith, read_digit 0 0 n l s p refl))
  | no p ↦ elim (dec_lt n 100) [
    | yes q ↦
        rw (itoa_more n p, itoa_one (n / 10) (omega arith))
          (ground (arith, read_two (n / 10) (n % 10) l s))
    | no q ↦
        rw (itoa_more n p, itoa_more (n / 10) (omega arith), itoa_one (n / 10 / 10) (omega arith))
          (ground (
            arith,
            read_two (n / 10 / 10) (n / 10 % 10) l ((b'0' + n % 10) ∷ s),
            read_digit (n / 10 / 10 * 10 + n / 10 % 10) 2 (n % 10) l s,
          ))
  ]
]

read_dot :
    (v k : ℕ) (l : List ℕ) (s : Bytes)
    → 0 < k
    → length l < 3
    → read_quad (b'.' ∷ s) (quad v k l) ≡ read_quad s (quad 0 0 (v ∷ l))
unfolding read_quad quad
read_dot v k l s hk hl = ground arith

digits_of_pos : (n : ℕ) → 0 < digits_of n
unfolding digits_of
digits_of_pos n = ground arith

-- A printed byte and a dot move the reader on to the next field.
read_field :
    (n : ℕ) (l : List ℕ) (s : Bytes)
    → n < 256
    → length l < 3
    → read_quad (itoa n ++ (b'.' ∷ s)) (quad 0 0 l) ≡ read_quad s (quad 0 0 (n ∷ l))
read_field n l s h hl =
    read_byte n l (b'.' ∷ s) h ∙ read_dot n (digits_of n) l s (digits_of_pos n) hl

-- The last field, behind which the text ends.
read_last :
    (n z y x : ℕ) → n < 256 → read_quad (itoa n) (quad 0 0 (z ∷ (y ∷ (x ∷ [])))) ≡ some (ip x y z n)
read_last n z y x h = rw (← append-nil (itoa n)) (read_byte n (z ∷ (y ∷ (x ∷ []))) [] h ∙ done)
  where
    done : read_quad [] (quad n (digits_of n) (z ∷ (y ∷ (x ∷ [])))) ≡ some (ip x y z n)
    done = unfold read_quad quad in ground (arith, digits_of_pos n)

-- The first byte that is no digit decides the family.
family_digits : (s t : Bytes) → All IsDigit s → family (s ++ (b'.' ∷ t)) ≡ v4
unfolding family
family_digits [] t h = refl
family_digits (c ∷ s) t h = ground (arith, family_digits s t h.1)

read_quad-format_ip : (x : Ip) → IsOctets x → read_quad (format_ip x) (quad 0 0 []) ≡ some x
unfolding format_ip
read_quad-format_ip x h =
    read_field x.a [] _ h.a (omega arith)
    ∙ read_field x.b (x.a ∷ []) _ h.b (omega arith)
    ∙ read_field x.c (x.b ∷ (x.a ∷ [])) (itoa x.d) h.c (omega arith)
    ∙ read_last x.d x.c x.b x.a h.d

family-format_ip : (x : Ip) → family (format_ip x) ≡ v4
unfolding format_ip
family-format_ip x = family_digits (itoa x.a) _ (itoa-IsDigit x.a)

-- Every IPv4 address, printed as a dotted quad, is read back as itself, whatever reads IPv6.
pub parse_ip4-format_ip :
    (parse_ip6 : Bytes → Option Ip) (x : Ip)
    → IsOctets x
    → parse_ip4 parse_ip6 (format_ip x) ≡ some x
unfolding parse_ip4 quad
parse_ip4-format_ip parse_ip6 x h = rw (family-format_ip x, parse_ip4) (read_quad-format_ip x h)

-- Two addresses with one print are equal.
pub format_ip-injective : (x y : Ip) → IsOctets x → IsOctets y → format_ip x ≡ format_ip y → x ≡ y
format_ip-injective x y hx hy e =
    cc (parse_ip4-format_ip (λ _. none) x hx, parse_ip4-format_ip (λ _. none) y hy)
