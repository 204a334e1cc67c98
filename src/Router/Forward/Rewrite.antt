-- ===== src/Router/Forward/Rewrite.antt =====
-- What the rewrite of a frame changes: the MAC addresses, the TTL and the checksum.
use talos_box.Base.{
  ℕ, zero, suc, ◌+◌, ◌-◌, ◌*◌, ◌/◌, ◌%◌, ◌≤◌, some, [], ◌∷◌, ◌++◌, Bytes, byte_at, uint16_at, take,
  drop, slice, length, put16, IsByte, All, ◌≡◌, refl, arith, ap, sym, ◌∙◌, take-append_ge,
  drop-append_ge, length-take,
}
use talos_box.Router.Frame.{Ipv4, parse_ipv4, ip_at, is_fragment}
use talos_box.Router.Checksum.{internet_checksum}
use talos_box.Router.Checksum.Valid.{checksum-put16}
use talos_box.Router.Forward.{rewrite_packet}

-- What a parsed packet says of its bytes.
pub record Parsed (p : Bytes) (k : Ipv4) : Type 0 where
  pub long : 20 ≤ length p
  pub version : byte_at p 0 / 16 ≡ 4
  pub header : k.header_len ≡ byte_at p 0 % 16 * 4
  pub header_min : 20 ≤ k.header_len
  pub header_in : k.header_len ≤ length p
  pub total_min : k.header_len ≤ uint16_at p 2
  pub total_in : uint16_at p 2 ≤ length p
  pub checked : internet_checksum (take k.header_len p) ≡ 0
  pub ttl : k.ttl ≡ byte_at p 8
  pub protocol : k.protocol ≡ byte_at p 9
  pub fragmented : k.fragmented ≡ is_fragment (uint16_at p 6)
  pub src : k.src ≡ ip_at p 12
  pub dst : k.dst ≡ ip_at p 16
  pub l4_payload : k.l4_payload ≡ slice p k.header_len (uint16_at p 2)

pub parse_ipv4-Parsed : (p : Bytes) (k : Ipv4) → parse_ipv4 p ≡ some k → Parsed p k
unfolding parse_ipv4
parse_ipv4-Parsed p k h = ground arith

pub Parsed-parse_ipv4 : (p : Bytes) (k : Ipv4) → Parsed p k → parse_ipv4 p ≡ some k
unfolding parse_ipv4
Parsed-parse_ipv4 p k h = ground arith

All-take : (n : ℕ) (s : Bytes) → All IsByte s → All IsByte (take n s)
All-take zero s h = tt
All-take (suc n) [] h = tt
All-take (suc n) (x ∷ s) h = (h.0, All-take n s h.1)

All-drop : (n : ℕ) (s : Bytes) → All IsByte s → All IsByte (drop n s)
All-drop zero s h = h
All-drop (suc n) [] h = tt
All-drop (suc n) (x ∷ s) h = All-drop n s h.1

-- The bytes that stay, and the TTL.
abbrev pub Untouched : Bytes → Bytes → Type 0
Untouched p q =
    (take 8 q ≡ take 8 p)
    × (byte_at q 8 ≡ byte_at p 8 - 1)
    × (byte_at q 9 ≡ byte_at p 9)
    × (drop 12 q ≡ drop 12 p)

-- A packet whose first twelve bytes are written out.
module _ (x0 x1 x2 x3 x4 x5 x6 x7 t x9 c0 c1 : ℕ) (rest : Bytes) where
  abbrev front : Bytes
  front = x0 ∷ (x1 ∷ (x2 ∷ (x3 ∷ (x4 ∷ (x5 ∷ (x6 ∷ (x7 ∷ ((t - 1) ∷ (x9 ∷ [])))))))))

  abbrev packet : Bytes
  packet = x0 ∷ (x1 ∷ (x2 ∷ (x3 ∷ (x4 ∷ (x5 ∷ (x6 ∷ (x7 ∷ (t ∷ (x9 ∷ (c0 ∷ (c1 ∷ rest)))))))))))

  -- The rewritten packet keeps every byte but the TTL and the checksum.
  abbrev rewritten : ℕ → Bytes
  rewritten header_len =
      front
      ++ (put16 (internet_checksum (front ++ (0 ∷ (0 ∷ take (header_len - 12) rest)))) ++ rest)

  rewrite_packet-eq :
      (header_len : ℕ) → 20 ≤ header_len → rewrite_packet packet header_len t ≡ rewritten header_len
  unfolding rewrite_packet
  rewrite_packet-eq n h = rw (take-append_ge (front ++ (0 ∷ (0 ∷ []))) rest n (omega arith)) refl

  rewritten-checksum :
      (n : ℕ)
      → 20 ≤ n
      → n ≤ 60
      → n ≤ length packet
      → All IsByte packet
      → internet_checksum (take n (rewritten n)) ≡ 0
  rewritten-checksum n h m l b =
      let back = take (n - 12) rest in
      let field = put16 (internet_checksum (front ++ (0 ∷ (0 ∷ back)))) in
      rw (take-append_ge (front ++ field) rest n (omega arith)) (
        checksum-put16 front back 5 refl (omega arith)
          (All-take (n - 12) rest (All-drop 12 packet b))
          (omega (arith, length-take (n - 12) rest)))

  -- Behind the header nothing changes.
  drop_same : (n : ℕ) → 20 ≤ n → drop n packet ≡ drop n (rewritten n)
  drop_same n h =
      drop-append_ge (take 12 packet) rest n (omega arith)
      ∙ sym (drop-append_ge (take 12 (rewritten n)) rest n (omega arith))

  -- What the parser read of the packet holds of the rewritten one, with the TTL one less.
  rewritten-Parsed :
      (k : Ipv4)
      → All IsByte packet
      → Parsed packet k
      → Parsed (rewritten k.header_len) (record k { ttl = k.ttl - 1 })
  rewritten-Parsed k b v = record {
    long = omega (arith, v.long);
    version = v.version;
    header = v.header;
    header_min = v.header_min;
    header_in = omega (arith, v.header_in);
    total_min = v.total_min;
    total_in = omega (arith, v.total_in);
    checked = rewritten-checksum k.header_len v.header_min (omega (arith, v.header)) v.header_in b;
    ttl = ap (λ n. n - 1) v.ttl;
    protocol = v.protocol;
    fragmented = v.fragmented;
    src = v.src;
    dst = v.dst;
    l4_payload =
        v.l4_payload
        ∙ ap (take (x2 * 256 + x3 - k.header_len)) (drop_same k.header_len v.header_min);
  }

  parse_rewritten :
      (k : Ipv4)
      → All IsByte packet
      → parse_ipv4 packet ≡ some k
      → parse_ipv4 (rewrite_packet packet k.header_len k.ttl) ≡ some (record k { ttl = k.ttl - 1 })
  parse_rewritten k b h =
      let v = parse_ipv4-Parsed packet k h in
      ap (λ n. parse_ipv4 (rewrite_packet packet k.header_len n)) v.ttl
      ∙ ap parse_ipv4 (rewrite_packet-eq k.header_len v.header_min)
      ∙ Parsed-parse_ipv4 _ _ (rewritten-Parsed k b v)

  rewritten-Untouched : (n : ℕ) → 20 ≤ n → Untouched packet (rewrite_packet packet n t)
  rewritten-Untouched n h = rw (rewrite_packet-eq n h) (refl, refl, refl, refl)

  length-rewritten : (n : ℕ) → 20 ≤ n → length (rewrite_packet packet n t) ≡ length packet
  length-rewritten n h = rw (rewrite_packet-eq n h)

-- For every packet that the parser accepts, the packet that the router makes of it is accepted
-- again, with a correct header checksum: the same addresses, protocol, fragment flag and payload,
-- the TTL one less, and the same length. Of all its bytes, only the TTL (byte 8) and the checksum
-- (bytes 10 and 11) differ from those of the packet.
pub parse_ipv4-rewrite_packet :
    (p : Bytes) (k : Ipv4)
    → All IsByte p
    → parse_ipv4 p ≡ some k
    → (parse_ipv4 (rewrite_packet p k.header_len k.ttl) ≡ some (record k { ttl = k.ttl - 1 }))
      × (length (rewrite_packet p k.header_len k.ttl) ≡ length p)
      × Untouched p (rewrite_packet p k.header_len k.ttl)
parse_ipv4-rewrite_packet
      (x0 ∷ (x1 ∷ (x2 ∷ (x3 ∷ (x4 ∷ (x5 ∷ (x6 ∷ (x7 ∷ (t ∷ (x9 ∷ (c0 ∷ (c1 ∷ rest)))))))))))) k b
      h =
    let v = parse_ipv4-Parsed _ k h in
    (
      parse_rewritten x0 x1 x2 x3 x4 x5 x6 x7 t x9 c0 c1 rest k b h,
      rw (v.ttl)
          (length-rewritten x0 x1 x2 x3 x4 x5 x6 x7 t x9 c0 c1 rest k.header_len v.header_min),
      rw (v.ttl)
          (rewritten-Untouched x0 x1 x2 x3 x4 x5 x6 x7 t x9 c0 c1 rest k.header_len v.header_min),
    )
parse_ipv4-rewrite_packet p k b h = absurd (omega (arith, parse_ipv4-Parsed _ k h))
