-- ===== src/Config/Size/Exact.antt =====
-- Sizes that are read exactly.
use talos_box.Base.{
  ℕ, zero, suc, ◌-◌, ◌*◌, ◌/◌, ◌%◌, ◌^◌, ◌<◌, true, false, some, [], ◌∷◌, ◌++◌, Bytes, codes, ltb,
  ltb→lt, ◌==◌, length, drop, length-append, take-append, drop-append, ◌≡◌, ◌≢◌, ◌↔◌, refl, ◌∙◌, ap,
  arith, Bool-cases, inl, inr,
}
use talos_box.Text.{ℤ, pos, negate, itoa}
use talos_box.Text.Sets.{same_refl, same-ne}
use talos_box.Text.Decimal.{atoi-itoa}
use talos_box.Dns.Resolve.{has_suffix}
use talos_box.Config.Size.{wrap, trim_suffix, parse_size_mib, size_string}

has_suffix-append : (s t : Bytes) → has_suffix (s ++ t) t ≡ true
unfolding has_suffix
has_suffix-append s t =
    let behind : drop (length (s ++ t) - length t) (s ++ t) ≡ t =
      drop-append s t (omega (arith, length-append s t)) in
    rw (behind, same_refl t) (ground (arith, length-append s t))

-- Behind another unit of the same length there is no such suffix.
has_suffix-other : (s t u : Bytes) → length t ≡ length u → u ≢ t → has_suffix (s ++ u) t ≡ false
unfolding has_suffix
has_suffix-other s t u h n =
    let behind : drop (length (s ++ u) - length t) (s ++ u) ≡ u =
      drop-append s u (omega (arith, h, length-append s u)) in
    rw (behind, same-ne u t n) (ground (arith, h))

trim_suffix-append : (s t : Bytes) → length t ≡ 3 → trim_suffix (s ++ t) 3 ≡ s
trim_suffix-append s t h = take-append s t (omega (arith, h, length-append s t))

parse_file-gib :
    (n : ℕ) → 0 < n → n < 2 ^ 63 → parse_size_mib (itoa n ++ codes "GiB") ≡ some (wrap (n * 1024))
unfolding parse_size_mib
parse_file-gib zero h k = absurd (omega (arith, h))
parse_file-gib (suc n) h k =
    rw (has_suffix-append (itoa (suc n)) (codes "GiB"))
      (rw (trim_suffix-append (itoa (suc n)) (codes "GiB") refl, atoi-itoa (suc n) k) refl)

mib≢gib : codes "MiB" ≢ codes "GiB"
mib≢gib e = omega (arith, ap (λ s. first s) e)
  where
    first : Bytes → ℕ
    first [] = 0
    first (c ∷ s) = c

parse_file-mib :
    (n : ℕ) → 0 < n → n < 2 ^ 63 → parse_size_mib (itoa n ++ codes "MiB") ≡ some (wrap (n * 1))
unfolding parse_size_mib
parse_file-mib zero h k = absurd (omega (arith, h))
parse_file-mib (suc n) h k =
    rw (has_suffix-other (itoa (suc n)) (codes "GiB") (codes "MiB") refl mib≢gib) (
      rw (has_suffix-append (itoa (suc n)) (codes "MiB"))
        (rw (trim_suffix-append (itoa (suc n)) (codes "MiB") refl, atoi-itoa (suc n) k) refl))

wrap-small : (n : ℕ) → n < 2 ^ 63 → wrap n ≡ pos n
wrap-small n h = ground (arith, h)

-- A size that sizeString prints is read back.
pub parse_size_mib-size_string :
    (mib : ℕ) → 0 < mib → mib < 2 ^ 63 → parse_size_mib (size_string mib) ≡ some (pos mib)
unfolding size_string
parse_size_mib-size_string mib h k = elim (Bool-cases (mib % 1024 == 0)) [
  | inl e ↦
      let whole : mib % 1024 ≡ 0 = ground (arith, e) in
      rw (e) (
        parse_file-gib (mib / 1024) (omega (arith, whole, h)) (omega (arith, k))
        ∙ ap some
            (ap wrap {x = mib / 1024 * 1024} {y = mib} (omega (arith, whole)) ∙ wrap-small mib k))
  | inr e ↦ rw (e) (
      parse_file-mib mib h k
      ∙ ap some (ap wrap {x = mib * 1} {y = mib} (omega arith) ∙ wrap-small mib k))
]

pos-inj : (m n : ℕ) → pos m ≡ pos n → m ≡ n
pos-inj m n e = cc

negate-ne : (k a : ℕ) → 0 < k → negate k ≢ pos a
negate-ne zero a h e = absurd (omega (arith, h))
negate-ne (suc k) a h e = cc

-- A product that is kept has not wrapped around.
wrap-pos : (k : ℕ) → wrap k ≡ pos k → k < 2 ^ 63
wrap-pos k e = elim (Bool-cases (ltb (k % 2 ^ 64) (2 ^ 63))) [
  | inl f ↦ omega (arith, pos-inj (k % 2 ^ 64) k (rw (f) at e), ltb→lt (k % 2 ^ 64) (2 ^ 63) f)
  | inr f ↦ absurd (negate-ne (2 ^ 64 - k % 2 ^ 64) k (omega arith) (rw (f) at e))
]

-- A positive number of GiB in the range of an int is read without an error; what is read is the
-- size exactly if the number is below 2^53.
pub parse_size_mib-exact :
    (n : ℕ)
    → 0 < n
    → n < 2 ^ 63
    → (v : ℤ) × (parse_size_mib (itoa n ++ codes "GiB") ≡ some v)
      × ((v ≡ pos (n * 1024)) ↔ (n < 2 ^ 53))
parse_size_mib-exact n h k = (
  wrap (n * 1024),
  parse_file-gib n h k,
  (exact_only, λ b. wrap-small (n * 1024) (omega (arith, b))),
)
  where
    exact_only : wrap (n * 1024) ≡ pos (n * 1024) → n < 2 ^ 53
    exact_only e = omega (arith, wrap-pos (n * 1024) e)
