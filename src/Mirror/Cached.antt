-- ===== src/Mirror/Cached.antt =====
-- `InspectCached` of internal/mirror/completeness.go, with the reads of check.go, for a request that
-- is not cancelled. A request path is a repository and a reference. The files of the cache and the
-- JSON decoder are parameters; what a gap says in words is left out.
pub mod Complete
use talos_box.Base.{
  ℕ, zero, suc, Bool, true, false, not, ◌&&◌, ◌||◌, Option, none, some, List, [], ◌∷◌, ◌++◌, Bytes,
  codes, if◌then◌else◌, ◌>>=◌, guard,
}
use talos_box.Text.{same, contains}
use talos_box.Mirror.Digest.{
  Hashes, checked_supported_digest, digest_found, canonical_reference, is_digest_reference,
  verify_supported_digest, cached_manifest_digest, not_empty,
}
use talos_box.Mirror.Manifest.{
  Child, RawManifestGraph, CachedGraph, Platform, supported, decode_graph, is_manifest_index,
  select_platform,
}

-- A file that is read, is not there, or cannot be read.
pub data Read : Type 0 where
  loaded : Bytes → Read
  absent unreadable : Read

-- The cache: manifests under their keys and under those of older versions, the digest beside a
-- manifest, and blobs.
pub record Cache : Type 0 where
  pub hashes : Hashes
  pub json : Bytes → Option RawManifestGraph
  pub manifest_file : Bytes → Bytes → Read
  pub legacy_file : Bytes → Bytes → Read
  pub stored_digest : Bytes → Bytes → Bytes
  pub blob_file : Bytes → Read

pub record CacheTarget : Type 0 where
  pub repository : Bytes
  pub tag : Bytes
  pub digest : Bytes
  pub platform : Platform

pub data CacheGapKind : Type 0 where
  tag_mapping root_manifest platform_manifest config layer corrupt : CacheGapKind

pub record CacheGap : Type 0 where
  pub kind : CacheGapKind
  pub digest : Bytes

pub record CacheStatus : Type 0 where
  pub root_digest : Bytes
  pub manifest_data : Bytes
  pub gaps : List CacheGap

abbrev pub is_some {ℓ} : {A : Type ℓ} → Option A → Bool
is_some none = false
is_some (some a) = true

abbrev pub verified : Cache → Bytes → Bytes → Bool
verified c bytes digest = is_some (verify_supported_digest c.hashes bytes digest)

-- `checkedCachedManifest`
abbrev pub legacy_read : Cache → Bytes → Read → Read
legacy_read c reference (Read.loaded bytes) =
    if is_digest_reference reference && not (verified c bytes reference)
    then Read.unreadable
    else Read.loaded bytes
legacy_read c reference Read.absent = Read.absent
legacy_read c reference Read.unreadable = Read.unreadable

abbrev pub or_legacy : Cache → Bytes → Bytes → Read → Read
or_legacy c repository reference (Read.loaded bytes) = Read.loaded bytes
or_legacy c repository reference Read.unreadable = Read.unreadable
or_legacy c repository reference Read.absent =
    if is_digest_reference reference
    then legacy_read c reference (c.legacy_file repository (canonical_reference reference))
    else Read.absent

unfoldable pub checked_cached_manifest : Cache → Bytes → Bytes → Read
unfolding canonical_reference is_digest_reference verify_supported_digest
checked_cached_manifest c repository reference =
    or_legacy c repository reference (c.manifest_file repository (canonical_reference reference))

-- A manifest that is cached under a digest, has it and can be decoded.
abbrev pub read_bytes : Read → Option Bytes
read_bytes (Read.loaded bytes) = some bytes
read_bytes Read.absent = none
read_bytes Read.unreadable = none

unfoldable pub manifest_at : Cache → Bytes → Bytes → Option (Bytes × CachedGraph)
unfolding checked_cached_manifest verify_supported_digest decode_graph
manifest_at c repository digest =
    read_bytes (checked_cached_manifest c repository digest) >>= λ bytes.
    guard (verified c bytes digest) (decode_graph c.json bytes >>= λ g. some (bytes, g))

-- What the walk to the selected platform finds.
pub data Walked : Type 0 where
  stopped : CacheGap → Walked
  reached : CachedGraph → Walked

abbrev pub platform_gap : Bytes → CacheGap
platform_gap digest = record { kind = CacheGapKind.platform_manifest; digest = digest }

abbrev pub inspect_next : (Child → Walked) → Option Child → Walked
inspect_next descend none = Walked.stopped (platform_gap [])
inspect_next descend (some child) = descend child

abbrev pub inspect_decoded :
    CacheTarget → Bytes → (Child → Walked) → Option (Bytes × CachedGraph) → Walked
inspect_decoded t digest descend none = Walked.stopped (platform_gap digest)
inspect_decoded t digest descend (some (bytes, g)) =
    if not (is_manifest_index g)
    then Walked.reached g
    else inspect_next descend (select_platform g.manifests t.platform)

-- `inspectSelectedManifest`, with the number of levels that are left of its limit.
unfoldable pub inspect_selected : Cache → CacheTarget → ℕ → Child → List Bytes → Walked
unfolding checked_supported_digest contains manifest_at is_manifest_index select_platform
inspect_selected c t zero child visited = Walked.stopped (platform_gap child.digest)
inspect_selected c t (suc levels) child visited =
    if not (supported child.digest)
    then Walked.stopped (platform_gap child.digest)
    else if contains visited child.digest
    then Walked.stopped (platform_gap child.digest)
    else inspect_decoded t child.digest
        (λ next. inspect_selected c t levels next (child.digest ∷ visited))
        (manifest_at c t.repository child.digest)

-- `inspectBlob`, where a deep inspection reads the data too.
abbrev pub read_blob : Cache → Bool → CacheGapKind → Bytes → Read → List CacheGap
read_blob c deep kind digest (Read.loaded bytes) =
    if deep && not (verified c bytes digest)
    then record { kind = CacheGapKind.corrupt; digest = digest } ∷ []
    else []
read_blob c deep kind digest Read.absent = record { kind = kind; digest = digest } ∷ []
read_blob c deep kind digest Read.unreadable = record { kind = kind; digest = digest } ∷ []

unfoldable pub inspect_blob : Cache → Bool → CacheGapKind → Bytes → List CacheGap
unfolding checked_supported_digest canonical_reference verify_supported_digest
inspect_blob c deep kind digest =
    if not (supported digest)
    then record { kind = kind; digest = digest } ∷ []
    else read_blob c deep kind digest (c.blob_file (canonical_reference digest))

unfoldable pub inspect_layers : Cache → Bool → List Bytes → List CacheGap
unfolding inspect_blob
inspect_layers c deep [] = []
inspect_layers c deep (l ∷ ls) =
    inspect_blob c deep CacheGapKind.layer l ++ inspect_layers c deep ls

-- `inspectBlobs`
unfoldable pub inspect_blobs : Cache → Bool → CachedGraph → List CacheGap
unfolding inspect_layers
inspect_blobs c deep g =
    (if not_empty g.config then inspect_blob c deep CacheGapKind.config g.config else [])
    ++ inspect_layers c deep g.layers

abbrev pub blob_gaps : Cache → Bool → Walked → List CacheGap
blob_gaps c deep (Walked.stopped gap) = gap ∷ []
blob_gaps c deep (Walked.reached g) = inspect_blobs c deep g

-- The walk from the root, at most four levels down.
abbrev pub walk_root : Cache → CacheTarget → Bytes → CachedGraph → Option Child → Walked
walk_root c t root_digest g none =
    if is_manifest_index g then Walked.stopped (platform_gap []) else Walked.reached g
walk_root c t root_digest g (some child) = inspect_selected c t 4 child (root_digest ∷ [])

abbrev pub one_gap : CacheGapKind → Bytes → Bytes → CacheStatus
one_gap kind root_digest digest = record {
  root_digest = root_digest;
  manifest_data = [];
  gaps = record { kind = kind; digest = digest } ∷ [];
}

abbrev pub root_decoded :
    Cache → CacheTarget → Bool → Bytes → Bytes → Option CachedGraph → CacheStatus
root_decoded c t deep digest bytes none = record {
  root_digest = digest;
  manifest_data = bytes;
  gaps = record { kind = CacheGapKind.root_manifest; digest = digest } ∷ [];
}
root_decoded c t deep digest bytes (some g) = record {
  root_digest = digest;
  manifest_data = bytes;
  gaps = blob_gaps c deep (walk_root c t digest g (select_platform g.manifests t.platform));
}

abbrev pub root_read : Cache → CacheTarget → Bool → Bytes → Option Bytes → CacheStatus
root_read c t deep digest none = one_gap CacheGapKind.root_manifest digest digest
root_read c t deep digest (some bytes) =
    if not (verified c bytes digest)
    then one_gap CacheGapKind.root_manifest digest digest
    else root_decoded c t deep digest bytes (decode_graph c.json bytes)

-- From the root digest on.
unfoldable pub inspect_root : Cache → CacheTarget → Bool → Bytes → CacheStatus
unfolding inspect_selected inspect_blobs
inspect_root c t deep digest =
    if not (supported digest)
    then one_gap CacheGapKind.root_manifest digest digest
    else root_read c t deep digest (read_bytes (checked_cached_manifest c t.repository digest))

-- The digest that a tag maps to, or the digest of the gap where it maps to none.
pub data Mapped : Type 0 where
  unmapped mapped_to : Bytes → Mapped

abbrev pub mapped_decoded : Cache → CacheTarget → Bytes → Bytes → Mapped
mapped_decoded c t bytes mapped =
    if not_empty t.digest && not (same mapped t.digest)
    then Mapped.unmapped mapped
    else if not (is_some (decode_graph c.json bytes))
    then Mapped.unmapped mapped
    else Mapped.mapped_to mapped

abbrev pub mapped_verified : Cache → CacheTarget → Bytes → Option Bytes → Mapped
mapped_verified c t bytes none = Mapped.unmapped []
mapped_verified c t bytes (some mapped) = mapped_decoded c t bytes mapped

abbrev pub mapped_read : Cache → CacheTarget → Option Bytes → Mapped
mapped_read c t none = Mapped.unmapped []
mapped_read c t (some bytes) = mapped_verified c t bytes (
    verify_supported_digest c.hashes bytes
      (cached_manifest_digest c.hashes bytes t.tag (c.stored_digest t.repository t.tag)))

unfoldable pub mapped_digest : Cache → CacheTarget → Mapped
unfolding checked_cached_manifest cached_manifest_digest decode_graph same
mapped_digest c t = mapped_read c t (read_bytes (checked_cached_manifest c t.repository t.tag))

abbrev pub root_of : Cache → CacheTarget → Mapped
root_of c t = if not_empty t.tag then mapped_digest c t else Mapped.mapped_to t.digest

abbrev pub status_of : Cache → CacheTarget → Bool → Mapped → CacheStatus
status_of c t deep (Mapped.unmapped digest) = one_gap CacheGapKind.tag_mapping [] digest
status_of c t deep (Mapped.mapped_to digest) = inspect_root c t deep digest

-- `InspectCached`
unfoldable pub inspect_cached : Cache → CacheTarget → Bool → CacheStatus
unfolding mapped_digest inspect_root
inspect_cached c t deep = status_of c t deep (root_of c t)

abbrev pub no_gap : List CacheGap → Bool
no_gap [] = true
no_gap (g ∷ gs) = false

-- `Complete`
abbrev pub is_complete : CacheStatus → Bool
is_complete s = no_gap s.gaps
