-- ===== src/Mirror/Digest.antt =====
-- Digest references, of internal/mirror/mirror.go and check.go. The two hashes, written in
-- hexadecimal, are parameters.
use talos_box.Base.{
  ℕ, Bool, true, false, ◌&&◌, ◌||◌, Option, none, some, [], ◌∷◌, ◌++◌, Bytes, codes, leb, ◌==◌,
  if◌then◌else◌, ◌>>=◌, guard, length,
}
use talos_box.Text.{same, to_lower}

pub record Hashes : Type 0 where
  pub sha256 : Bytes → Bytes
  pub sha512 : Bytes → Bytes

pub record Digest : Type 0 where
  pub algorithm : Bytes
  pub encoded : Bytes

abbrev is_letter : ℕ → Bool
is_letter c = (leb b'A' c && leb c b'Z') || (leb b'a' c && leb c b'z')

abbrev is_decimal : ℕ → Bool
is_decimal c = leb b'0' c && leb c b'9'

abbrev is_hex : ℕ → Bool
is_hex c = is_decimal c || ((leb b'A' c && leb c b'F') || (leb b'a' c && leb c b'f'))

abbrev is_separator : ℕ → Bool
is_separator c = (c == b'+' || c == b'.') || (c == b'_' || c == b'-')

-- Words of letters and digits that start with a letter, with separators between them; whether a
-- word has to start here.
unfoldable pub algorithm_shape : Bool → Bytes → Bool
algorithm_shape true [] = false
algorithm_shape false [] = true
algorithm_shape true (c ∷ s) = is_letter c && algorithm_shape false s
algorithm_shape false (c ∷ s) =
    ((is_letter c || is_decimal c) && algorithm_shape false s)
    || (is_separator c && algorithm_shape true s)

unfoldable pub all_hex : Bytes → Bool
all_hex [] = true
all_hex (c ∷ s) = is_hex c && all_hex s

abbrev pub not_empty : Bytes → Bool
not_empty [] = false
not_empty (c ∷ s) = true

abbrev pub onto_algorithm : ℕ → Option (Bytes × Bytes) → Option (Bytes × Bytes)
onto_algorithm c none = none
onto_algorithm c (some (a, rest)) = some (c ∷ a, rest)

-- What stands before and behind the first colon.
unfoldable pub at_colon : Bytes → Option (Bytes × Bytes)
at_colon [] = none
at_colon (c ∷ s) = if c == b':' then some ([], s) else onto_algorithm c (at_colon s)

-- `splitDigestReference`
unfoldable pub split_digest_reference : Bytes → Option Digest
unfolding algorithm_shape all_hex at_colon to_lower
split_digest_reference reference = at_colon reference >>= λ parts.
    guard (algorithm_shape true (parts.0) && (not_empty (parts.1) && all_hex (parts.1)))
      (some record { algorithm = to_lower (parts.0); encoded = to_lower (parts.1) })

abbrev pub is_sha256 : Digest → Bool
is_sha256 d = same d.algorithm (codes "sha256")

abbrev pub is_sha512 : Digest → Bool
is_sha512 d = same d.algorithm (codes "sha512")

-- `checkedSupportedDigest`
unfoldable pub checked_supported_digest : Bytes → Option Digest
unfolding split_digest_reference same
checked_supported_digest reference = split_digest_reference reference >>= λ d.
    guard ((is_sha256 d && length d.encoded == 64) || (is_sha512 d && length d.encoded == 128))
      (some d)

abbrev pub text_of : Digest → Bytes
text_of d = d.algorithm ++ (b':' ∷ d.encoded)

abbrev pub or_text : Bytes → Option Digest → Bytes
or_text reference none = reference
or_text reference (some d) = text_of d

-- `canonicalSupportedDigest`, or the reference itself.
unfoldable pub canonical_reference : Bytes → Bytes
unfolding checked_supported_digest
canonical_reference reference = or_text reference (checked_supported_digest reference)

abbrev pub digest_found : Option Digest → Bool
digest_found none = false
digest_found (some d) = true

-- `isDigestReference`
unfoldable pub is_digest_reference : Bytes → Bool
unfolding split_digest_reference
is_digest_reference reference = digest_found (split_digest_reference reference)

-- `verifySupportedDigest`: the canonical digest if the data has it.
unfoldable pub verify_supported_digest : Hashes → Bytes → Bytes → Option Bytes
unfolding split_digest_reference same
verify_supported_digest h bytes reference = split_digest_reference reference >>= λ d.
    guard
      ((is_sha256 d && same d.encoded (h.sha256 bytes))
        || (is_sha512 d && same d.encoded (h.sha512 bytes)))
      (some (text_of d))

abbrev pub first_of : Option Bytes → Bytes → Bytes
first_of none s = s
first_of (some t) s = t

abbrev pub verify_if : Hashes → Bool → Bytes → Bytes → Option Bytes
verify_if h b bytes reference = guard b (verify_supported_digest h bytes reference)

-- `cachedManifestDigest`
unfoldable pub cached_manifest_digest : Hashes → Bytes → Bytes → Bytes → Bytes
unfolding verify_supported_digest is_digest_reference
cached_manifest_digest h bytes requested stored =
    first_of (verify_if h (is_digest_reference requested) bytes requested)
      (first_of (verify_if h (not_empty stored) bytes stored) (codes "sha256:" ++ h.sha256 bytes))
