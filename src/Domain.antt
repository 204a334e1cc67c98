-- ===== src/Domain.antt =====
-- The policy on cluster domains, of internal/domain/domain.go, for ASCII names.
pub mod Canonical
use talos_box.Base.{
  ℕ, zero, suc, Bool, true, false, not, ◌&&◌, ◌||◌, Option, none, some, List, [], ◌∷◌, ◌++◌, Bytes,
  codes, leb, ltb, ◌==◌, guard, length,
}
use talos_box.Text.{same, to_lower}
use talos_box.Dns.Message.{trim_dot, split}
use talos_box.Dns.Resolve.{has_suffix}

abbrev pub is_alnum : ℕ → Bool
is_alnum c = (leb b'a' c && leb c b'z') || (leb b'0' c && leb c b'9')

abbrev pub label_end : Bytes → Bool
label_end [] = true
label_end (c ∷ []) = is_alnum c
label_end (c ∷ d ∷ s) = (is_alnum c || c == b'-') && label_end (d ∷ s)

-- `labelRe`, and `nameRe` of internal/config/config.go.
unfoldable pub valid_label : Bytes → Bool
valid_label [] = false
valid_label (c ∷ s) = is_alnum c && label_end s

unfoldable pub valid_labels : List Bytes → Bool
valid_labels [] = true
valid_labels (l ∷ ls) = (leb (length l) 63 && valid_label l) && valid_labels ls

-- `labels[len(labels)-1]`, and what stands behind the last dot of a name whose labels these are.
abbrev pub last_label : List Bytes → Bytes
last_label [] = []
last_label (l ∷ []) = l
last_label (l ∷ m ∷ ls) = last_label (m ∷ ls)

abbrev pub rejected_tld : Bytes → Bool
rejected_tld l = same l (codes "local") || (same l (codes "localhost") || same l (codes "invalid"))

-- `Safe`
unfoldable pub safe : Bytes → Bool
unfolding split has_suffix
safe name =
    let tld = last_label (split name) in
    (same tld (codes "test") || same tld (codes "internal"))
    || (same name (codes "home.arpa") || has_suffix name (codes ".home.arpa"))

-- The tests of `Validate` on the canonical name, in its order.
unfoldable pub acceptable : Bytes → Bool → Bool
unfolding split valid_labels safe
acceptable name allow_unsafe =
    let labels = split name in
    leb (length name) 253
    && (leb 2 (length labels)
        && (valid_labels labels
            && (not (rejected_tld (last_label labels))
                && (not (same name (codes "k8s.test")) && (safe name || allow_unsafe)))))

-- `Validate`
unfoldable pub validate_domain : Bytes → Bool → Option Bytes
unfolding to_lower trim_dot acceptable
validate_domain input allow_unsafe =
    let name = to_lower (trim_dot input) in guard (acceptable name allow_unsafe) (some name)
