-- ===== src/Cluster/Name.antt =====
-- `validName` of internal/cluster/store.go, with what it uses of path/filepath on Unix.
pub mod Accepts
use talos_box.Base.{
  ℕ, Bool, true, false, not, ◌&&◌, ◌||◌, List, [], ◌∷◌, Bytes, ◌==◌, if◌then◌else◌,
}
use talos_box.Text.{same}

abbrev is_empty : Bytes → Bool
is_empty [] = true
is_empty (c ∷ s) = false

-- The path without the slashes at its end.
unfoldable pub strip_slashes : Bytes → Bytes
strip_slashes [] = []
strip_slashes (c ∷ s) =
    let rest = strip_slashes s in if c == b'/' && is_empty rest then [] else c ∷ rest

unfoldable pub has_slash : Bytes → Bool
has_slash [] = false
has_slash (c ∷ s) = c == b'/' || has_slash s

-- What follows the last slash.
unfoldable pub last_element : Bytes → Bytes
unfolding has_slash
last_element [] = []
last_element (c ∷ s) =
    let rest = last_element s in if has_slash s then rest else if c == b'/' then s else c ∷ s

-- `filepath.Base`
unfoldable pub base : Bytes → Bytes
unfolding strip_slashes last_element
base [] = b'.' ∷ []
base (c ∷ s) =
    let element = last_element (strip_slashes (c ∷ s)) in
    if is_empty element then b'/' ∷ [] else element

-- `validName`, true where it returns no error.
unfoldable pub valid_name : Bytes → Bool
unfolding base
valid_name name =
    not (is_empty name)
    && not (not (same (base name) name) || same name (b'.' ∷ []) || same name (b'.' ∷ b'.' ∷ []))
