-- ===== src/Mirror/Cached/Complete.antt =====
-- What is reported complete is all there.
use mathlib.Core.Bool.{true≢false}
use mathlib.Core.Option.{some_inj}
use talos_box.Base.{
  ℕ, zero, suc, Bool, true, false, not, ◌&&◌, Option, none, some, List, [], ◌∷◌, ◌++◌, Bytes, All,
  if◌then◌else◌, bind-some, guard-some, ◌≡◌, ◌≢◌, ◌⊎◌, refl, sym, ◌∙◌, ap, subst, arith, Bool-cases,
  Option-cases, inl, inr,
}
use talos_box.Text.{contains}
use talos_box.Mirror.Digest.{canonical_reference, not_empty}
use talos_box.Mirror.Manifest.{
  Child, CachedGraph, supported, decode_graph, is_manifest_index, select_platform,
}
use talos_box.Mirror.Cached.{
  Read, Cache, CacheTarget, CacheGapKind, CacheGap, Walked, Mapped, verified, read_bytes,
  checked_cached_manifest, manifest_at, inspect_selected, inspect_decoded, read_blob, inspect_blob,
  inspect_layers, inspect_blobs, blob_gaps, walk_root, root_read, root_decoded, inspect_root,
  root_of, inspect_cached, is_complete, no_gap,
}

-- A manifest that the cache has under a digest: its bytes have the digest and decode to the graph.
pub record Manifest (c : Cache) (repository digest : Bytes) (g : CachedGraph) : Type 0 where
  pub bytes : Bytes
  pub cached : read_bytes (checked_cached_manifest c repository digest) ≡ some bytes
  pub checked : verified c bytes digest ≡ true
  pub decoded : decode_graph c.json bytes ≡ some g

-- The way from a graph to the manifest for a platform, over at most so many indexes.
pub data Selects (c : Cache) (t : CacheTarget) : ℕ → CachedGraph → CachedGraph → Type 0 where
  arrived : (n : ℕ) (g : CachedGraph) → is_manifest_index g ≡ false → Selects c t n g g
  through :
      (n : ℕ) (g h k : CachedGraph) (child : Child)
      → select_platform g.manifests t.platform ≡ some child
      → Manifest c t.repository child.digest h
      → Selects c t n h k
      → Selects c t (suc n) g k

-- A blob that is cached, and has its digest if the data is looked at.
pub record Blob (c : Cache) (deep : Bool) (digest : Bytes) : Type 0 where
  pub bytes : Bytes
  pub cached : c.blob_file (canonical_reference digest) ≡ Read.loaded bytes
  pub checked : (deep ≡ false) ⊎ (verified c bytes digest ≡ true)

-- An image with all its parts: the manifests down to the one for the platform, its config and its
-- layers.
pub record Whole (c : Cache) (t : CacheTarget) (deep : Bool) (digest : Bytes) : Type 0 where
  pub root : CachedGraph
  pub image : CachedGraph
  pub manifest : Manifest c t.repository digest root
  pub selects : Selects c t 4 root image
  pub config : (image.config ≡ []) ⊎ Blob c deep image.config
  pub layers : All (Blob c deep) image.layers

no_gap-append :
    (xs ys : List CacheGap) → no_gap (xs ++ ys) ≡ true → (no_gap xs ≡ true) × (no_gap ys ≡ true)
no_gap-append [] ys e = (refl, e)
no_gap-append (x ∷ xs) ys e = absurd (true≢false (sym e))

module _ (c : Cache) (deep : Bool) where
  read_blob-Blob :
      (kind : CacheGapKind) (digest : Bytes) (r : Read)
      → c.blob_file (canonical_reference digest) ≡ r
      → no_gap (read_blob c deep kind digest r) ≡ true
      → Blob c deep digest
  read_blob-Blob kind digest Read.absent f e = absurd (true≢false (sym e))
  read_blob-Blob kind digest Read.unreadable f e = absurd (true≢false (sym e))
  read_blob-Blob kind digest (Read.loaded bytes) f e =
      elim (Bool-cases (deep && not (verified c bytes digest))) [
        | inl h ↦ absurd (true≢false (sym (rw (h) at e)))
        | inr h ↦ record {
          bytes = bytes;
          cached = f;
          checked = fine deep (verified c bytes digest) h;
        }
      ]
    where
      fine : (a b : Bool) → (a && not b) ≡ false → (a ≡ false) ⊎ (b ≡ true)
      fine a b h = ground arith

  inspect_blob-Blob :
      (kind : CacheGapKind) (digest : Bytes)
      → no_gap (inspect_blob c deep kind digest) ≡ true
      → Blob c deep digest
  unfolding inspect_blob
  inspect_blob-Blob kind digest e = elim (Bool-cases (supported digest)) [
    | inl h ↦ read_blob-Blob kind digest _ refl (rw (h) at e)
    | inr h ↦ absurd (true≢false (sym (rw (h) at e)))
  ]

  inspect_layers-Blob :
      (ls : List Bytes) → no_gap (inspect_layers c deep ls) ≡ true → All (Blob c deep) ls
  unfolding inspect_layers
  inspect_layers-Blob [] e = tt
  inspect_layers-Blob (l ∷ ls) e =
      let (one, rest) =
        no_gap-append (inspect_blob c deep CacheGapKind.layer l) (inspect_layers c deep ls) e in
      (inspect_blob-Blob CacheGapKind.layer l one, inspect_layers-Blob ls rest)

  config-Blob :
      (digest : Bytes)
      → no_gap (if not_empty digest then inspect_blob c deep CacheGapKind.config digest else [])
        ≡ true
      → (digest ≡ []) ⊎ Blob c deep digest
  config-Blob [] e = inl refl
  config-Blob (b ∷ digest) e = inr (inspect_blob-Blob CacheGapKind.config (b ∷ digest) e)

  inspect_blobs-Blob :
      (g : CachedGraph)
      → no_gap (inspect_blobs c deep g) ≡ true
      → ((g.config ≡ []) ⊎ Blob c deep g.config) × All (Blob c deep) g.layers
  unfolding inspect_blobs
  inspect_blobs-Blob g e =
      let (config, layers) = no_gap-append _ (inspect_layers c deep g.layers) e in
      (config-Blob g.config config, inspect_layers-Blob g.layers layers)

module _ (c : Cache) (t : CacheTarget) where
  manifest_at-Manifest :
      (digest bytes : Bytes) (g : CachedGraph)
      → manifest_at c t.repository digest ≡ some (bytes, g)
      → Manifest c t.repository digest g
  unfolding manifest_at
  manifest_at-Manifest digest bytes g e =
      let (read, f, e1) =
        bind-some (read_bytes (checked_cached_manifest c t.repository digest)) _ (bytes, g) e in
      let (ok, e2) = guard-some _ _ (bytes, g) e1 in
      let (decoded, d, e3) = bind-some (decode_graph c.json read) _ (bytes, g) e2 in
      record {
        bytes = read;
        cached = f;
        checked = ok;
        decoded = d ∙ ap some (ap (λ p. p.1) (some_inj.0 e3));
      }

  stopped-reached : (gap : CacheGap) (k : CachedGraph) → Walked.stopped gap ≢ Walked.reached k
  stopped-reached gap k e = cc

  reached-inj : (h k : CachedGraph) → Walked.reached h ≡ Walked.reached k → h ≡ k
  reached-inj h k e = cc

  -- A walk that arrives has gone through cached manifests.
  inspect_selected-Selects :
      (n : ℕ) (child : Child) (visited : List Bytes) (g k : CachedGraph)
      → select_platform g.manifests t.platform ≡ some child
      → inspect_selected c t n child visited ≡ Walked.reached k
      → Selects c t n g k
  unfolding inspect_selected
  inspect_selected-Selects zero child visited g k s e = absurd cc
  inspect_selected-Selects (suc n) child visited g k s e =
      let descend : Child → Walked = λ next. inspect_selected c t n next (child.digest ∷ visited) in
      elim (Bool-cases (supported child.digest)) [
        | inr f ↦ absurd (stopped-reached _ k (rw (f) at e))
        | inl f ↦ elim (Bool-cases (contains visited child.digest)) [
          | inl v ↦ absurd (stopped-reached _ k (rw (f, v) at e))
          | inr v ↦ elim (Option-cases (manifest_at c t.repository child.digest)) [
            | inl m ↦ absurd (stopped-reached _ k (rw (f, v, m) at e))
            | inr (p, m) ↦
                let at_child = manifest_at-Manifest child.digest p.0 p.1 m in
                let here : inspect_decoded t child.digest descend (some p) ≡ Walked.reached k =
                  rw (f, v, m) at e in
                elim (Bool-cases (is_manifest_index p.1)) [
                  | inr x ↦
                      let same : p.1 ≡ k = reached-inj p.1 k (rw (x) at here) in
                      Selects.through n g p.1 k child s at_child
                        (subst (Selects c t n p.1) same (Selects.arrived n p.1 x))
                  | inl x ↦ elim (Option-cases (select_platform (p.1).manifests t.platform)) [
                    | inl z ↦ absurd (stopped-reached _ k (rw (x, z) at here))
                    | inr (next, z) ↦ Selects.through n g p.1 k child s at_child (
                        inspect_selected-Selects n next (child.digest ∷ visited) p.1 k z
                          (rw (x, z) at here))
                  ]
                ]
          ]
        ]
      ]

  -- What the walk from the root says.
  walk_root-Selects :
      (digest : Bytes) (g k : CachedGraph) (o : Option Child)
      → select_platform g.manifests t.platform ≡ o
      → walk_root c t digest g o ≡ Walked.reached k
      → Selects c t 4 g k
  walk_root-Selects digest g k none s e = elim (Bool-cases (is_manifest_index g)) [
    | inl f ↦ absurd (stopped-reached _ k (rw (f) at e))
    | inr f ↦ subst (Selects c t 4 g) (reached-inj g k (rw (f) at e)) (Selects.arrived 4 g f)
  ]
  walk_root-Selects digest g k (some child) s e =
      inspect_selected-Selects 4 child (digest ∷ []) g k s e

  Walked-cases :
      (w : Walked)
      → ((gap : CacheGap) × (w ≡ Walked.stopped gap)) ⊎ ((k : CachedGraph) × (w ≡ Walked.reached k))
  Walked-cases (Walked.stopped gap) = inl (gap, refl)
  Walked-cases (Walked.reached k) = inr (k, refl)

  root_decoded-Whole :
      (deep : Bool) (digest bytes : Bytes) (o : Option CachedGraph)
      → read_bytes (checked_cached_manifest c t.repository digest) ≡ some bytes
      → verified c bytes digest ≡ true
      → decode_graph c.json bytes ≡ o
      → is_complete (root_decoded c t deep digest bytes o) ≡ true
      → Whole c t deep digest
  root_decoded-Whole deep digest bytes none r v d e = absurd (true≢false (sym e))
  root_decoded-Whole deep digest bytes (some g) r v d e =
      let start = select_platform g.manifests t.platform in
      elim (Walked-cases (walk_root c t digest g start)) [
        | inl (gap, w) ↦
            absurd (true≢false (sym (ap (λ k. no_gap (blob_gaps c deep k)) (sym w) ∙ e)))
        | inr (k, w) ↦
            let blobs =
              inspect_blobs-Blob c deep k (ap (λ x. no_gap (blob_gaps c deep x)) (sym w) ∙ e) in
            record {
              root = g;
              image = k;
              manifest = record { bytes = bytes; cached = r; checked = v; decoded = d };
              selects = walk_root-Selects digest g k start refl w;
              config = blobs.0;
              layers = blobs.1;
            }
      ]

  root_read-Whole :
      (deep : Bool) (digest : Bytes) (o : Option Bytes)
      → read_bytes (checked_cached_manifest c t.repository digest) ≡ o
      → is_complete (root_read c t deep digest o) ≡ true
      → Whole c t deep digest
  root_read-Whole deep digest none r e = absurd (true≢false (sym e))
  root_read-Whole deep digest (some bytes) r e = elim (Bool-cases (verified c bytes digest)) [
    | inl v ↦ root_decoded-Whole deep digest bytes _ r v refl (rw (v) at e)
    | inr v ↦ absurd (true≢false (sym (rw (v) at e)))
  ]

  inspect_root-Whole :
      (deep : Bool) (digest : Bytes)
      → is_complete (inspect_root c t deep digest) ≡ true
      → Whole c t deep digest
  unfolding inspect_root
  inspect_root-Whole deep digest e = elim (Bool-cases (supported digest)) [
    | inl f ↦ root_read-Whole deep digest _ refl (rw (f) at e)
    | inr f ↦ absurd (true≢false (sym (rw (f) at e)))
  ]

  Mapped-cases :
      (m : Mapped)
      → ((digest : Bytes) × (m ≡ Mapped.unmapped digest))
        ⊎ ((digest : Bytes) × (m ≡ Mapped.mapped_to digest))
  Mapped-cases (Mapped.unmapped digest) = inl (digest, refl)
  Mapped-cases (Mapped.mapped_to digest) = inr (digest, refl)

  -- An image that is reported complete has a root digest, from its tag where it has one, under
  -- which the cache has a manifest; from it at most four steps through cached manifests for the
  -- platform lead to one that is no index, and its config and all its layers are cached, with
  -- their digests where the inspection is deep.
  pub inspect_cached-Whole :
      (deep : Bool)
      → is_complete (inspect_cached c t deep) ≡ true
      → (digest : Bytes) × (root_of c t ≡ Mapped.mapped_to digest) × Whole c t deep digest
  unfolding inspect_cached
  inspect_cached-Whole deep e = elim (Mapped-cases (root_of c t)) [
    | inl (digest, f) ↦ absurd (true≢false (sym (rw (f) at e)))
    | inr (digest, f) ↦ (digest, f, inspect_root-Whole deep digest (rw (f) at e))
  ]
