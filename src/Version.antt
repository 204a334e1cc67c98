-- ===== src/Version.antt =====
-- Supported Talos versions, of internal/talosversion/talosversion.go. The regular expression
-- `versionShape` is written out as a reader.
pub mod Order
mod Tests
use talos_box.Base.{
  ◌>>=◌, ℕ, ◌+◌, ◌*◌, ◌-◌, Bool, true, false, not, ◌&&◌, ◌||◌, Option, none, some, List, [], ◌∷◌,
  Bytes, codes, ltb, leb, ◌==◌, if◌then◌else◌, ◌≡◌, refl,
}
use talos_box.Text.{ℤ, pos, negsuc, atoi}

pub record ParsedVersion : Type 0 where
  pub major : ℕ
  pub minor : ℕ
  pub patch : ℕ
  pub prerelease : Bool

abbrev is_digit : ℕ → Bool
is_digit c = leb b'0' c && leb c b'9'

-- The digits at the front, and the rest.
unfoldable pub digits : Bytes → Bytes × Bytes
digits [] = ([], [])
digits (c ∷ s) =
    let (front, rest) = digits s in if is_digit c then (c ∷ front, rest) else ([], c ∷ s)

-- A letter, a digit or a hyphen.
abbrev is_identifier : ℕ → Bool
is_identifier c =
    is_digit c || ((leb b'A' c && leb c b'Z') || ((leb b'a' c && leb c b'z') || c == b'-'))

-- Identifiers that dots separate, none of them empty; `open` tells whether the current one has a
-- character.
unfoldable pub identifiers : Bool → Bytes → Bool
identifiers started [] = started
identifiers started (c ∷ s) =
    let next = identifiers false s in
    let more = identifiers true s in
    if is_identifier c then more else (c == b'.' && started) && next

-- What follows the patch number: nothing, or a pre-release; none where it does not match.
unfoldable pub suffix : Bytes → Option Bool
unfolding identifiers
suffix [] = some false
suffix (c ∷ s) = if c == b'-' && identifiers false s then some true else none

-- `strconv.Atoi` of a group of digits: an empty group does not match.
abbrev number : Option ℤ → Option ℕ
number none = none
number (some (pos n)) = some n
number (some (negsuc n)) = none

abbrev after_dot : Bytes → Option Bytes
after_dot [] = none
after_dot (c ∷ s) = if c == b'.' then some s else none

unfoldable pub read_number : Bytes → Option (ℕ × Bytes)
unfolding digits atoi
read_number s = let (front, rest) = digits s in number (atoi front) >>= λ n. some (n, rest)

unfoldable triple : Bytes → Option ParsedVersion
unfolding read_number suffix
triple s = do
  (major, s1) ← read_number s
  s2 ← after_dot s1
  (minor, s3) ← read_number s2
  s4 ← after_dot s3
  (patch, s5) ← read_number s4
  prerelease ← suffix s5
  some record { major = major; minor = minor; patch = patch; prerelease = prerelease }

-- `parse`
unfoldable pub parse : Bytes → Option ParsedVersion
unfolding triple
parse [] = none
parse (c ∷ s) = if c == b'v' then triple s else none

-- The method `less`.
unfoldable pub less : ParsedVersion → ParsedVersion → Bool
less v w =
    if not (v.major == w.major)
    then ltb v.major w.major
    else if not (v.minor == w.minor)
    then ltb v.minor w.minor
    else if not (v.patch == w.patch)
    then ltb v.patch w.patch
    else v.prerelease && not w.prerelease

-- `Min` and `Default`, parsed.
abbrev pub floor : ParsedVersion
floor = record { major = 1; minor = 12; patch = 0; prerelease = false }

abbrev pub tested : ParsedVersion
tested = record { major = 1; minor = 13; patch = 9; prerelease = false }

abbrev accepts : Option ParsedVersion → Bool
accepts none = false
accepts (some v) = not (less v floor)

-- `Validate`, true where it returns no error.
unfoldable pub validate : Bytes → Bool
unfolding parse less
validate version = accepts (parse version)

abbrev newer : Option ParsedVersion → Bool
newer none = false
newer (some v) = less tested v

-- `NewerThanTestedWarning`, true where it warns.
unfoldable pub newer_than_tested_warning : Bytes → Bool
unfolding parse less
newer_than_tested_warning version = newer (parse version)

floor_test : parse (codes "v1.12.0") ≡ some floor
unfolding parse
floor_test = refl

tested_test : parse (codes "v1.13.9") ≡ some tested
unfolding parse
tested_test = refl

alpha_test :
    parse (codes "v1.14.0-alpha.1")
    ≡ some (record { major = 1; minor = 14; patch = 0; prerelease = true })
unfolding parse
alpha_test = refl

bad_test : parse (codes "v1.14.0-alpha..1") ≡ none
unfolding parse
bad_test = refl
