-- ===== src/Ring/Window.antt =====
-- Windows of positions modulo the capacity.
use native.Mathlib.Nat.{mod-add-mod}
use talos_box.Base.{
  ℕ, zero, suc, ◌+◌, ◌-◌, ◌%◌, ◌<◌, ◌≤◌, [], ◌∷◌, ◌++◌, Bytes, length, set, byte_at, length-set,
  ◌≡◌, ◌≢◌, refl, sym, ◌∙◌, ap, arith,
}
use talos_box.Ring.{read_from}

-- Two positions less than the capacity apart are different.
pub mod-ne : (c s m : ℕ) → 0 < m → m < c → s % c ≢ (s + m) % c
mod-ne c s m h k e = grind arith

mod-step : (c s t : ℕ) → s % c ≡ t % c → (s + 1) % c ≡ (t + 1) % c
mod-step c s t e = sym (mod-add-mod s c 1) ∙ ap (λ k. (k + 1) % c) e ∙ mod-add-mod t c 1

pub byte_at-set_self : (xs : Bytes) (i b : ℕ) → i < length xs → byte_at (set xs i b) i ≡ b
byte_at-set_self [] i b h = absurd (omega (arith, h))
byte_at-set_self (x ∷ xs) zero b h = refl
byte_at-set_self (x ∷ xs) (suc i) b h = byte_at-set_self xs i b (omega (arith, h))

pub byte_at-set_ne : (xs : Bytes) (i j b : ℕ) → i ≢ j → byte_at (set xs i b) j ≡ byte_at xs j
byte_at-set_ne [] i j b h = refl
byte_at-set_ne (x ∷ xs) zero zero b h = absurd (h refl)
byte_at-set_ne (x ∷ xs) zero (suc j) b h = refl
byte_at-set_ne (x ∷ xs) (suc i) zero b h = refl
byte_at-set_ne (x ∷ xs) (suc i) (suc j) b h = byte_at-set_ne xs i j b (λ e. h (ap suc e))

-- A window depends on its start only up to the capacity.
pub read_from-mod :
    (xs : Bytes) (s t n : ℕ) → s % length xs ≡ t % length xs → read_from xs s n ≡ read_from xs t n
unfolding read_from
read_from-mod xs s t zero e = refl
read_from-mod xs s t (suc n) e =
    rw (e, read_from-mod xs (s + 1) (t + 1) n (mod-step (length xs) s t e)) refl

pub read_from-suc :
    (xs : Bytes) (s n : ℕ)
    → read_from xs s (suc n) ≡ read_from xs s n ++ (byte_at xs ((s + n) % length xs) ∷ [])
unfolding read_from
read_from-suc xs s zero = ap (λ k. byte_at xs (k % length xs) ∷ []) (omega arith)
read_from-suc xs s (suc n) =
    ap (λ zs. byte_at xs (s % length xs) ∷ zs)
      (read_from-suc xs (s + 1) n
        ∙ ap (λ k. read_from xs (s + 1) n ++ (byte_at xs (k % length xs) ∷ [])) (omega arith))

-- A write behind a window is not seen through it.
pub read_from-set :
    (xs : Bytes) (s n m b : ℕ)
    → n ≤ m
    → m < length xs
    → read_from (set xs ((s + m) % length xs) b) s n ≡ read_from xs s n
unfolding read_from
read_from-set xs s zero m b h k = refl
read_from-set xs s (suc n) m b h k =
    let i = (s + m) % length xs in
    let later =
      ap (λ j. read_from (set xs (j % length xs) b) (s + 1) n) {x = s + m} {y = s + 1 + (m - 1)}
        (omega (arith, h))
      ∙ read_from-set xs (s + 1) n (m - 1) b (omega (arith, h)) (omega (arith, k, h)) in
    let first =
      ap (λ c. byte_at (set xs i b) (s % c)) (length-set xs i b)
      ∙ byte_at-set_ne xs i (s % length xs) b
          (λ e. mod-ne (length xs) s m (omega (arith, h)) k (sym e)) in
    rw (first, later) refl
