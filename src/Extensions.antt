-- ===== src/Extensions.antt =====
-- The curated Talos extensions of internal/extensions/extensions.go. Bytes stand for the characters
-- of a name.
pub mod Distance
pub mod Suggest
mod Tests
use talos_box.Base.{
  ℕ, zero, suc, ◌+◌, Bool, true, false, not, ◌&&◌, ◌||◌, Option, none, some, List, [], ◌∷◌, ◌++◌,
  Bytes, codes, leb, ltb, ◌==◌, if◌then◌else◌, length, get_or,
}
use talos_box.Text.{same, contains, cut_prefix}
use talos_box.Balloon.{before}

-- `minimum` of three.
abbrev pub smaller : ℕ → ℕ → ℕ
smaller smallest value = if ltb value smallest then value else smallest

abbrev pub minimum : ℕ → ℕ → ℕ → ℕ
minimum a b c = smaller (smaller a b) c

abbrev pub cost : ℕ → ℕ → ℕ
cost a b = if a == b then 0 else 1

-- The inner loop: the columns of `current` behind the last one that is filled, which holds `left`.
unfoldable pub columns : ℕ → Bytes → List ℕ → ℕ → List ℕ
columns a (b ∷ bs) (p ∷ q ∷ ps) left =
    let value = minimum (p + cost a b) (suc q) (suc left) in value ∷ columns a bs (q ∷ ps) value
columns a bs ps left = []

-- The outer loop, from the row behind `row` on.
unfoldable pub rows : Bytes → Bytes → ℕ → List ℕ → List ℕ
unfolding columns
rows [] right row previous = previous
rows (a ∷ rest) right row previous =
    rows rest right (suc row) (suc row ∷ columns a right previous (suc row))

-- The first row, from a column on.
unfoldable pub count_from : ℕ → ℕ → List ℕ
count_from column zero = []
count_from column (suc n) = column ∷ count_from (suc column) n

-- `editDistance`
unfoldable pub edit_distance : Bytes → Bytes → ℕ
unfolding rows count_from
edit_distance left right =
    get_or (rows left right 0 (count_from 0 (suc (length right)))) (length right) 0

-- `curated`, by name.
abbrev pub Curated : Type 0
Curated = List (Bytes × Bytes)

abbrev pub curated : Curated
curated =
    (codes "gvisor", codes "siderolabs/gvisor")
    ∷ (codes "nfs-utils", codes "siderolabs/nfs-utils")
    ∷ (codes "qemu-guest-agent", codes "siderolabs/qemu-guest-agent")
    ∷ []

-- `Requested`
unfoldable pub requested : List Bytes → Bytes → Bool
requested [] name = false
requested (item ∷ items) name = same item name || requested items name

-- `Names`
unfoldable pub curated_names : Curated → List Bytes
curated_names [] = []
curated_names (c ∷ cs) = c.0 ∷ curated_names cs

-- `Ref`
unfoldable pub ref : Curated → Bytes → Option Bytes
ref [] name = none
ref (c ∷ cs) name = if same c.0 name then some c.1 else ref cs name

-- `sort.Strings`
unfoldable pub insert_string : Bytes → List Bytes → List Bytes
unfolding before
insert_string s [] = s ∷ []
insert_string s (t ∷ ts) = if before t s then t ∷ insert_string s ts else s ∷ (t ∷ ts)

unfoldable pub sort_strings : List Bytes → List Bytes
unfolding insert_string
sort_strings [] = []
sort_strings (s ∷ ss) = insert_string s (sort_strings ss)

-- The loop of `Resolve`, with the references that it has seen.
unfoldable pub collect : List Bytes → List Bytes → Option (List Bytes)
unfolding ref contains
collect [] refs = some refs
collect (name ∷ rest) refs = elim (ref curated name) [
  | none ↦ none
  | some r ↦ if contains refs r then collect rest refs else collect rest (refs ++ (r ∷ []))
]

-- `Resolve`; no name of the table is empty.
unfoldable pub resolve_extensions : List Bytes → Option (List Bytes)
unfolding collect sort_strings
resolve_extensions curated_names = elim (collect curated_names []) [
  | none ↦ none
  | some refs ↦ some (sort_strings refs)
]

abbrev pub is_prefix : Option Bytes → Bool
is_prefix none = false
is_prefix (some rest) = true

-- The loop of `suggest`, with the best name so far and its distance.
unfoldable pub suggest_from : Bytes → List Bytes → Option Bytes → ℕ → Option Bytes
unfolding edit_distance cut_prefix
suggest_from name [] best distance = best
suggest_from name (c ∷ cs) best distance =
    let here = edit_distance name c in
    if leb 3 (length name) && is_prefix (cut_prefix name c)
    then some c
    else if ltb here distance
    then suggest_from name cs (some c) here
    else suggest_from name cs best distance

-- `suggest`
unfoldable pub suggest : Bytes → Option Bytes
unfolding suggest_from curated_names
suggest name = suggest_from name (curated_names curated) none 4
