-- ===== src/Dns/Message.antt =====
-- Names, queries and questions of internal/dns/message.go. A message is a byte string, and a label
-- is a string of bytes; an error is none.
pub mod Labels
pub mod Query
use talos_box.Base.{
  ℕ, zero, suc, ◌+◌, ◌-◌, ◌*◌, ◌/◌, ◌%◌, Bool, true, false, not, ◌&&◌, ◌||◌, Option, none, some,
  List, [], ◌∷◌, ◌++◌, Bytes, leb, ltb, ◌==◌, if◌then◌else◌, length, take, drop, uint16_at, put16,
  replicate,
}

pub record Question : Type 0 where
  pub name : Bytes
  pub record_type : ℕ
  pub class : ℕ
  pub end : ℕ

-- `strings.TrimSuffix(name, ".")`
unfoldable pub trim_dot : Bytes → Bytes
trim_dot [] = []
trim_dot (c ∷ []) = if c == b'.' then [] else c ∷ []
trim_dot (c ∷ d ∷ s) = c ∷ trim_dot (d ∷ s)

abbrev pub onto_first : ℕ → List Bytes → List Bytes
onto_first c [] = (c ∷ []) ∷ []
onto_first c (l ∷ ls) = (c ∷ l) ∷ ls

-- `strings.Split(name, ".")`
unfoldable pub split : Bytes → List Bytes
split [] = [] ∷ []
split (c ∷ s) = if c == b'.' then [] ∷ split s else onto_first c (split s)

-- `strings.Join(labels, ".")`
unfoldable pub join : List Bytes → Bytes
join [] = []
join (l ∷ []) = l
join (l ∷ m ∷ ls) = l ++ (b'.' ∷ join (m ∷ ls))

abbrev pub before_rest : Bytes → Option Bytes → Option Bytes
before_rest l none = none
before_rest l (some rest) = some (length l ∷ (l ++ rest))

-- The loop of `encodeName`, with the final zero.
unfoldable pub encode_labels : List Bytes → Option Bytes
encode_labels [] = some (0 ∷ [])
encode_labels (l ∷ ls) =
    let encoded = before_rest l (encode_labels ls) in
    if length l == 0 || ltb 63 (length l) then none else encoded

-- `encodeName`
unfoldable pub encode_name : Bytes → Option Bytes
unfolding encode_labels split trim_dot
encode_name name = encode_labels (split (trim_dot name))

abbrev pub query_of : ℕ → Option Bytes → Option Bytes
query_of id none = none
query_of id (some encoded) =
    some (put16 id ++ (1 ∷ 0 ∷ 0 ∷ 1 ∷ 0 ∷ 0 ∷ 0 ∷ 0 ∷ 0 ∷ 0 ∷ (encoded ++ (0 ∷ 1 ∷ 0 ∷ 1 ∷ []))))

-- `encodeQuery`
unfoldable pub encode_query : Bytes → ℕ → Option Bytes
unfolding encode_name
encode_query name id = query_of id (encode_name name)

abbrev pub with_label : Bytes → Option (List Bytes × ℕ) → Option (List Bytes × ℕ)
with_label l none = none
with_label l (some (ls, offset)) = some (l ∷ ls, offset)

-- The loop of `parseQuestion`, with the bytes from the offset on: the labels and the offset behind
-- them. Every round takes a byte, so as much fuel as bytes is enough.
unfoldable pub parse_labels : ℕ → Bytes → ℕ → Option (List Bytes × ℕ)
parse_labels zero rest offset = none
parse_labels (suc fuel) [] offset = none
parse_labels (suc fuel) (len ∷ rest) offset =
    let next = with_label (take len rest) (parse_labels fuel (drop len rest) (offset + 1 + len)) in
    if len == 0
    then some ([], offset + 1)
    else if ltb 63 len || ltb (length rest) len
    then none
    else next

abbrev pub question_at : Bytes → Option (List Bytes × ℕ) → Option Question
question_at message none = none
question_at message (some (labels, offset)) =
    if ltb (length message) (offset + 4)
    then none
    else some record {
      name = join labels;
      record_type = uint16_at message offset;
      class = uint16_at message (offset + 2);
      end = offset + 4;
    }

-- `parseQuestion`
unfoldable pub parse_question : Bytes → Option Question
unfolding parse_labels join
parse_question message =
    if ltb (length message) 12 || not (uint16_at message 4 == 1)
    then none
    else question_at message (parse_labels (length message) (drop 12 message) 12)
