-- ===== src/Dns/Message/Query.antt =====
-- A query that is built is parsed back.
use talos_box.Base.{
  none≢some, ℕ, suc, ◌+◌, ◌/◌, ◌%◌, false, some, List, [], ◌∷◌, ◌++◌, Bytes, ltb, length, uint16_at,
  byte_at, length-append, ◌≡◌, refl, ◌∙◌, ap, subst, arith, Option-cases, inl, inr,
}
use talos_box.Dns.Message.{
  Question, trim_dot, split, join, encode_labels, encode_name, encode_query, parse_question,
  question_at,
}
use talos_box.Dns.Message.Labels.{join-split, parse-encode}

some-inj {ℓ} : {A : Type ℓ} {x y : A} → some x ≡ some y → x ≡ y
some-inj e = cc

-- The byte at an index behind a list.
get_or-append : (xs ys : Bytes) (i : ℕ) → byte_at (xs ++ ys) (length xs + i) ≡ byte_at ys i
get_or-append [] ys i = ap (byte_at ys) (omega arith)
get_or-append (x ∷ xs) ys i =
    ap (byte_at (x ∷ (xs ++ ys))) {x = suc (length xs) + i} {y = suc (length xs + i)} (omega arith)
    ∙ get_or-append xs ys i

abbrev header : ℕ → Bytes → Bytes
header id body = (id / 256 % 256) ∷ (id % 256) ∷ 1 ∷ 0 ∷ 0 ∷ 1 ∷ 0 ∷ 0 ∷ 0 ∷ 0 ∷ 0 ∷ 0 ∷ body

abbrev asked : Bytes → ℕ → Question
asked name end = record { name = name; record_type = 1; class = 1; end = end }

abbrev tail4 : Bytes
tail4 = 0 ∷ 1 ∷ 0 ∷ 1 ∷ []

-- A byte of the type and the class.
tail-byte :
    (id : ℕ) (encoded : Bytes) (i k : ℕ)
    → i ≡ 12 + (length encoded + k)
    → byte_at (header id (encoded ++ tail4)) i ≡ byte_at tail4 k
tail-byte id encoded i k e =
    ap (byte_at (header id (encoded ++ tail4))) e
    ∙ get_or-append (header id []) (encoded ++ tail4) (length encoded + k)
    ∙ get_or-append encoded tail4 k

tail-word :
    (id : ℕ) (encoded : Bytes) (i k : ℕ)
    → i ≡ 12 + (length encoded + k)
    → uint16_at (header id (encoded ++ tail4)) i ≡ uint16_at tail4 k
tail-word id encoded i k e =
    rw (tail-byte id encoded i k e, tail-byte id encoded (suc i) (suc k) (omega (arith, e))) refl

long-enough :
    (id : ℕ) (encoded : Bytes)
    → ltb (length (header id (encoded ++ tail4))) (12 + length encoded + 4) ≡ false
long-enough id encoded = ground (arith, length-append encoded tail4)

question-behind :
    (id : ℕ) (labels : List Bytes) (encoded : Bytes)
    → question_at (header id (encoded ++ tail4)) (some (labels, 12 + length encoded))
      ≡ some (asked (join labels) (12 + length encoded + 4))
question-behind id labels encoded =
    rw
      (
        long-enough id encoded,
        tail-word id encoded (12 + length encoded) 0 (omega arith),
        tail-word id encoded (12 + length encoded + 2) 2 (omega arith),
      )
      refl

has-header : (id : ℕ) (body : Bytes) → ltb (length (header id body)) 12 ≡ false
has-header id body = ground arith

parse-header :
    (id : ℕ) (labels : List Bytes) (encoded : Bytes)
    → encode_labels labels ≡ some encoded
    → parse_question (header id (encoded ++ tail4))
      ≡ some (asked (join labels) (12 + length encoded + 4))
unfolding parse_question
parse-header id labels encoded e =
    rw
      (
        has-header id (encoded ++ tail4),
        parse-encode labels encoded tail4 (length (header id (encoded ++ tail4))) 12 e
            (omega (arith, length-append encoded tail4)),
      )
      (question-behind id labels encoded)

-- What `encodeQuery` builds, `parseQuestion` reads back: the name without its final dot, an A
-- record of the Internet class, and an end behind the last byte.
pub parse_question-encode_query :
    (name : Bytes) (id : ℕ) (message : Bytes)
    → encode_query name id ≡ some message
    → parse_question message
      ≡ some record { name = trim_dot name; record_type = 1; class = 1; end = length message }
unfolding encode_query encode_name
parse_question-encode_query name id message e =
    elim (Option-cases (encode_labels (split (trim_dot name)))) [
      | inl g ↦ absurd (none≢some (rw (g) at e))
      | inr (encoded, g) ↦
          subst
            (λ m.
              parse_question m
              ≡ some record { name = trim_dot name; record_type = 1; class = 1; end = length m })
            (some-inj (rw (g) at e))
            (parse-header id (split (trim_dot name)) encoded g
              ∙ rw (join-split (trim_dot name)) (
                  ap (λ n. some (asked (trim_dot name) n))
                    (omega (arith, length-append encoded tail4))))
    ]
