-- ===== src/Shell.antt =====
-- Shell words, of internal/shellquote/shellquote.go. The characters outside ASCII are not safe, so
-- the bytes that encode them are quoted one by one.
pub mod Word
mod Tests
use talos_box.Base.{
  ℕ, Bool, true, false, ◌&&◌, ◌||◌, List, [], ◌∷◌, ◌++◌, Bytes, codes, leb, ◌==◌, if◌then◌else◌,
}

unfoldable pub contains_byte : Bytes → ℕ → Bool
contains_byte [] c = false
contains_byte (d ∷ s) c = d == c || contains_byte s c

-- `isSafe`
unfoldable pub is_safe : ℕ → Bool
unfolding contains_byte
is_safe c =
    (leb b'a' c && leb c b'z')
    || ((leb b'A' c && leb c b'Z')
        || ((leb b'0' c && leb c b'9') || contains_byte (codes "_@%+=:,./-") c))

unfoldable pub all_safe : Bytes → Bool
unfolding is_safe
all_safe [] = true
all_safe (c ∷ s) = is_safe c && all_safe s

-- `strings.ReplaceAll(value, "'", "'\"'\"'")`
unfoldable pub escape : Bytes → Bytes
escape [] = []
escape (c ∷ s) = let rest = escape s in if c == 39 then 39 ∷ 34 ∷ 39 ∷ 34 ∷ 39 ∷ rest else c ∷ rest

-- `Quote`
unfoldable pub quote : Bytes → Bytes
unfolding all_safe escape
quote [] = 39 ∷ 39 ∷ []
quote (c ∷ s) = if all_safe (c ∷ s) then c ∷ s else 39 ∷ (escape (c ∷ s) ++ (39 ∷ []))
