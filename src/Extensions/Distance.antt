-- ===== src/Extensions/Distance.antt =====
-- The edit distance is the least number of edits.
use mathlib.Core.Option.{some_inj}
use talos_box.Base.{
  ℕ, zero, suc, ◌+◌, ◌≤◌, ◌<◌, some, List, [], ◌∷◌, Bytes, ltb, ◌==◌, length, get_elem?, get_or,
  ◌≡◌, refl, sym, ◌∙◌, ap, subst, arith, Bool-cases, inl, inr,
}
use talos_box.Extensions.{minimum, cost, columns, rows, count_from, edit_distance}

-- Edits that turn the first `i` bytes of `left` into the first `j` bytes of `right`, and how many:
-- from the front, a byte is kept, replaced, left out or put in.
pub data Edits (left right : Bytes) : ℕ → ℕ → ℕ → Type 0 where
  start : Edits left right 0 0 0
  keep_byte :
      (i j n a : ℕ)
      → get_elem? left i ≡ some a
      → get_elem? right j ≡ some a
      → Edits left right i j n
      → Edits left right (suc i) (suc j) n
  replace_byte : (i j n : ℕ) → Edits left right i j n → Edits left right (suc i) (suc j) (suc n)
  leave_out : (i j n : ℕ) → Edits left right i j n → Edits left right (suc i) j (suc n)
  put_in : (i j n : ℕ) → Edits left right i j n → Edits left right i (suc j) (suc n)

-- The least number of edits between two prefixes.
pub record Least (left right : Bytes) (i j v : ℕ) : Type 0 where
  pub edits : Edits left right i j v
  pub least : (n : ℕ) → Edits left right i j n → v ≤ n

module _ (left right : Bytes) where
  put_in_all : (j : ℕ) → Edits left right 0 j j
  put_in_all zero = Edits.start
  put_in_all (suc j) = Edits.put_in 0 j j (put_in_all j)

  put_in_least : (j n : ℕ) → Edits left right 0 j n → j ≤ n
  put_in_least j n Edits.start = omega arith
  put_in_least j n (Edits.put_in i k m e) = omega (arith, put_in_least k m e)

  leave_out_all : (i : ℕ) → Edits left right i 0 i
  leave_out_all zero = Edits.start
  leave_out_all (suc i) = Edits.leave_out i 0 i (leave_out_all i)

  leave_out_least : (i n : ℕ) → Edits left right i 0 n → i ≤ n
  leave_out_least i n Edits.start = omega arith
  leave_out_least i n (Edits.leave_out k j m e) = omega (arith, leave_out_least k m e)

minimum-cases : (P : ℕ → Type 0) (a b c : ℕ) → P a → P b → P c → P (minimum a b c)
minimum-cases P a b c pa pb pc = elim (Bool-cases (ltb b a)) [
  | inl e ↦ rw (e) (elim (Bool-cases (ltb c b)) [ inl f ↦ rw (f) pc | inr f ↦ rw (f) pb ])
  | inr e ↦ rw (e) (elim (Bool-cases (ltb c a)) [ inl f ↦ rw (f) pc | inr f ↦ rw (f) pa ])
]

minimum_le : (a b c : ℕ) → (minimum a b c ≤ a) × (minimum a b c ≤ b) × (minimum a b c ≤ c)
minimum_le a b c = ground arith

cost_same : (a b : ℕ) → a ≡ b → cost a b ≡ 0
cost_same a b h = ground (arith, h)

cost_le : (a b : ℕ) → cost a b ≤ 1
cost_le a b = ground arith

module _ (left right : Bytes) where
  -- The first of two last bytes is kept or replaced.
  diagonal :
      (i j a b x : ℕ)
      → get_elem? left i ≡ some a
      → get_elem? right j ≡ some b
      → Edits left right i j x
      → Edits left right (suc i) (suc j) (x + cost a b)
  diagonal i j a b x ga gb e = elim (Bool-cases (a == b)) [
    | inl f ↦
        let same : a ≡ b = ground (arith, f) in
        subst (λ n. Edits left right (suc i) (suc j) n) {x = x} {y = x + cost a b}
          (omega (arith, cost_same a b same))
          (Edits.keep_byte i j x a ga (gb ∙ ap some (sym same)) e)
    | inr f ↦
        subst (λ n. Edits left right (suc i) (suc j) n) {x = suc x} {y = x + cost a b}
          (ground (arith, f)) (Edits.replace_byte i j x e)
  ]

  no_less :
      (i j a b x y z n : ℕ)
      → get_elem? left i ≡ some a
      → get_elem? right j ≡ some b
      → Least left right i j x
      → Least left right i (suc j) y
      → Least left right (suc i) j z
      → Edits left right (suc i) (suc j) n
      → minimum (x + cost a b) (suc y) (suc z) ≤ n
  no_less i j a b x y z n ga gb lx ly lz (Edits.keep_byte k l m c gc gd e) =
      let same : a ≡ b = some_inj.0 (sym ga ∙ gc) ∙ some_inj.0 (sym gd ∙ gb) in
      omega (arith, lx.least m e, cost_same a b same, (minimum_le (x + cost a b) (suc y) (suc z)).0)
  no_less i j a b x y z n ga gb lx ly lz (Edits.replace_byte k l m e) =
      omega (arith, lx.least m e, cost_le a b, (minimum_le (x + cost a b) (suc y) (suc z)).0)
  no_less i j a b x y z n ga gb lx ly lz (Edits.leave_out k l m e) =
      omega (arith, ly.least m e, (minimum_le (x + cost a b) (suc y) (suc z)).1)
  no_less i j a b x y z n ga gb lx ly lz (Edits.put_in k l m e) =
      omega (arith, lz.least m e, (minimum_le (x + cost a b) (suc y) (suc z)).2)

  Least-minimum :
      (i j a b x y z : ℕ)
      → get_elem? left i ≡ some a
      → get_elem? right j ≡ some b
      → Least left right i j x
      → Least left right i (suc j) y
      → Least left right (suc i) j z
      → Least left right (suc i) (suc j) (minimum (x + cost a b) (suc y) (suc z))
  Least-minimum i j a b x y z ga gb lx ly lz = record {
    edits =
        minimum-cases (λ n. Edits left right (suc i) (suc j) n) (x + cost a b) (suc y) (suc z)
          (diagonal i j a b x ga gb lx.edits) (Edits.leave_out i (suc j) y ly.edits)
          (Edits.put_in (suc i) j z lz.edits);
    least = λ n e. no_less i j a b x y z n ga gb lx ly lz e;
  }

-- What is left of a string from an index on.
abbrev Rest : Bytes → Bytes → ℕ → Type 0
Rest xs [] i = Unit
Rest xs (y ∷ ys) i = (get_elem? xs i ≡ some y) × Rest xs ys (suc i)

Rest-cons : (x : ℕ) (xs ys : Bytes) (i : ℕ) → Rest xs ys i → Rest (x ∷ xs) ys (suc i)
Rest-cons x xs [] i r = tt
Rest-cons x xs (y ∷ ys) i r = (r.0, Rest-cons x xs ys (suc i) r.1)

Rest-whole : (xs : Bytes) → Rest xs xs 0
Rest-whole [] = tt
Rest-whole (x ∷ xs) = (refl, Rest-cons x xs xs 0 (Rest-whole xs))

module _ (left right : Bytes) where
  -- The entries of row `i` from column `j` on.
  abbrev Row : ℕ → ℕ → List ℕ → Type 0
  Row i j [] = Unit
  Row i j (p ∷ ps) = Least left right i j p × Row i (suc j) ps

  Row-count_from : (j n : ℕ) → Row 0 j (count_from j n)
  unfolding count_from
  Row-count_from j zero = tt
  Row-count_from j (suc n) = (
    record { edits = put_in_all left right j; least = λ m e. put_in_least left right j m e },
    Row-count_from (suc j) n,
  )

  Row-columns :
      (i j a l : ℕ) (bs : Bytes) (ps : List ℕ)
      → get_elem? left i ≡ some a
      → Rest right bs j
      → length ps ≡ suc (length bs)
      → Row i j ps
      → Least left right (suc i) j l
      → Row (suc i) (suc j) (columns a bs ps l) × (length (columns a bs ps l) ≡ length bs)
  unfolding columns
  Row-columns i j a l [] ps g r h row e = (tt, refl)
  Row-columns i j a l (b ∷ bs) [] g r h row e = absurd (omega (arith, h))
  Row-columns i j a l (b ∷ bs) (p ∷ []) g r h row e = absurd (omega (arith, h))
  Row-columns i j a l (b ∷ bs) (p ∷ q ∷ ps) g r h row e =
      let value = minimum (p + cost a b) (suc q) (suc l) in
      let here = Least-minimum left right i j a b p q l g r.0 row.0 row.1.0 e in
      let more = Row-columns i (suc j) a value bs (q ∷ ps) g r.1 (omega (arith, h)) row.1 here in
      ((here, more.0), ap suc more.1)

  Row-rows :
      (as' : Bytes) (i : ℕ) (ps : List ℕ)
      → Rest left as' i
      → length ps ≡ suc (length right)
      → Row i 0 ps
      → Row (i + length as') 0 (rows as' right i ps)
        × (length (rows as' right i ps) ≡ suc (length right))
  unfolding rows
  Row-rows [] i ps r h row = (subst (λ k. Row k 0 ps) {x = i} {y = i + 0} (omega arith) row, h)
  Row-rows (a ∷ rest) i ps r h row =
      let border : Least left right (suc i) 0 (suc i) = record {
        edits = leave_out_all left right (suc i);
        least = λ m e. leave_out_least left right (suc i) m e;
      } in
      let here = Row-columns i 0 a (suc i) right ps r.0 (Rest-whole right) h row border in
      let next = suc i ∷ columns a right ps (suc i) in
      let more = Row-rows rest (suc i) next r.1 (ap suc here.1) (border, here.0) in
      (
        subst (λ k. Row k 0 (rows rest right (suc i) next)) {x = suc i + length rest}
            {y = i + suc (length rest)} (omega arith) more.0,
        more.1,
      )

  entry :
      (i j k : ℕ) (ps : List ℕ)
      → k < length ps
      → Row i j ps
      → Least left right i (j + k) (get_or ps k 0)
  entry i j k [] h row = absurd (omega (arith, h))
  entry i j zero (p ∷ ps) h row =
      subst (λ n. Least left right i n p) {x = j} {y = j + 0} (omega arith) row.0
  entry i j (suc k) (p ∷ ps) h row =
      subst (λ n. Least left right i n (get_or ps k 0)) {x = suc j + k} {y = j + suc k}
        (omega arith) (entry i (suc j) k ps (omega (arith, h)) row.1)

  length-count_from : (j n : ℕ) → length (count_from j n) ≡ n
  unfolding count_from
  length-count_from j zero = refl
  length-count_from j (suc n) = ap suc (length-count_from (suc j) n)

  -- The edit distance of two names is the least number of edits that turn the first into the
  -- second, where an edit replaces, leaves out or puts in one byte.
  pub edit_distance-Least : Least left right (length left) (length right) (edit_distance left right)
  unfolding edit_distance
  edit_distance-Least =
      let all =
        Row-rows left 0 (count_from 0 (suc (length right))) (Rest-whole left)
          (length-count_from 0 (suc (length right))) (Row-count_from 0 (suc (length right))) in
      let last = rows left right 0 (count_from 0 (suc (length right))) in
      subst (λ k. Least left right k (length right) (get_or last (length right) 0))
        {x = 0 + length left} {y = length left} (omega arith)
        (subst (λ k. Least left right (0 + length left) k (get_or last (length right) 0))
          {x = 0 + length right} {y = length right} (omega arith)
          (entry (0 + length left) 0 (length right) last (omega (arith, all.1)) all.0))
