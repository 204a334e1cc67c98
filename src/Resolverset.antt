-- ===== src/Resolverset.antt =====
-- The plan of the resolver files on macOS, of internal/resolverset/resolverset.go. The observed files
-- are a map that is walked in any order.
pub mod Untouched
mod Tests
use talos_box.Base.{
  ℕ, Bool, true, false, not, ◌&&◌, ◌||◌, Option, none, some, List, [], ◌∷◌, ◌++◌, Bytes, codes,
  if◌then◌else◌,
}
use talos_box.Text.{same, contains, cut_prefix, itoa}
use talos_box.Extensions.{sort_strings}

pub record File : Type 0 where
  pub name : Bytes
  pub content : Bytes

abbrev pub marker : Bytes
marker = codes "# managed by talosbox"

-- `Content`
unfoldable pub content_for : ℕ → Bytes
unfolding itoa
content_for port =
    marker
    ++ (10 ∷ (codes "nameserver 127.0.0.1" ++ (10 ∷ (codes "port " ++ (itoa port ++ (10 ∷ []))))))

abbrev pub begins : Option Bytes → Bool
begins none = false
begins (some rest) = true

-- `Managed`
unfoldable pub managed : Bytes → Bool
unfolding cut_prefix
managed content = begins (cut_prefix (marker ++ (10 ∷ [])) content)

-- `observed[domain]`
unfoldable pub content_of : List File → Bytes → Option Bytes
unfolding same
content_of [] domain = none
content_of (f ∷ fs) domain = if same f.name domain then some f.content else content_of fs domain

abbrev pub to_write : Bytes → Option Bytes → Bool
to_write want none = true
to_write want (some content) = managed content && not (same content want)

unfoldable pub to_create : Bytes → List File → List Bytes → List Bytes
unfolding content_of managed
to_create want observed [] = []
to_create want observed (d ∷ ds) =
    let rest = to_create want observed ds in
    if to_write want (content_of observed d) then d ∷ rest else rest

unfoldable pub to_remove : List Bytes → List File → List Bytes
unfolding contains managed
to_remove wanted [] = []
to_remove wanted (f ∷ fs) =
    let rest = to_remove wanted fs in
    if not (contains wanted f.name) && managed f.content then f.name ∷ rest else rest

-- `Plan`
unfoldable pub plan : List Bytes → List File → ℕ → List Bytes × List Bytes
unfolding to_create to_remove sort_strings content_for
plan custom_domains observed port = (
  sort_strings (to_create (content_for port) observed custom_domains),
  sort_strings (to_remove custom_domains observed),
)
