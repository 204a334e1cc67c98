-- ===== src/Net.antt =====
-- IPv4 addresses as the program uses Go's net package: a `net.IP` behind `To4()` is an
-- `Option Ip`, `none` for nil; `net.ParseIP(s).To4()` reads a dotted quad itself and hands a text
-- with a colon to `parse_ip6`, the IPv6 reader, which is a parameter.
pub mod RoundTrip
use talos_box.Base.{
  ℕ, zero, suc, ◌+◌, ◌-◌, ◌*◌, ◌<◌, Bool, true, false, ◌&&◌, ◌||◌, Option, none, some, List, [],
  ◌∷◌, ◌++◌, ◌≡◌, refl, arith, Bytes, codes, IsByte, ltb, leb, ◌==◌, if◌then◌else◌, ℕ_discrete,
  length,
}
use talos_box.Text.{itoa}

-- The four bytes of an IPv4 address, `routerIP [4]byte` of the frame router.
pub record Ip : Type 0 where
  pub a : ℕ
  pub b : ℕ
  pub c : ℕ
  pub d : ℕ

unfoldable pub Ip-discrete : Discrete Ip
Ip-discrete = hlevel ℕ_discrete

abbrev pub ip : ℕ → ℕ → ℕ → ℕ → Ip
ip a b c d = record { a = a; b = b; c = c; d = d }

pub record IsOctets (x : Ip) : Type 0 where
  pub a : IsByte x.a
  pub b : IsByte x.b
  pub c : IsByte x.c
  pub d : IsByte x.d

-- The reader's state: the value and the number of digits of the current field, and the fields
-- before it, last first.
pub record Quad : Type 0 where
  pub val : ℕ
  pub digits : ℕ
  pub fields : List ℕ

abbrev finish : Quad → List ℕ → Option Ip
finish q (z ∷ y ∷ x ∷ []) = if q.digits == 0 then none else some (ip x y z q.val)
finish q _ = none

read_quad : Bytes → Quad → Option Ip
read_quad [] q = finish q q.fields
read_quad (c ∷ s) q =
    let digit = q.val * 10 + (c - b'0') in
    let next = read_quad s (record q { val = digit; digits = q.digits + 1 }) in
    let field = read_quad s (record { val = 0; digits = 0; fields = q.val ∷ q.fields }) in
    if leb b'0' c && leb c b'9'
    then (if (q.digits == 1 && q.val == 0) || ltb 255 digit then none else next)
    else if c == b'.'
    then (if q.digits == 0 || length q.fields == 3 then none else field)
    else none

abbrev pub quad_start : Quad
quad_start = record { val = 0; digits = 0; fields = [] }

-- Which reader a text is for: the first of `.`, `:` and `%` decides.
pub data Family : Type 0 where
  v4 v6 unreadable : Family

pub family : Bytes → Family
family [] = unreadable
family (c ∷ s) =
    if c == b'.' then v4 else if c == b':' then v6 else if c == b'%' then unreadable else family s

-- `net.ParseIP(s).To4()`
unfoldable pub parse_ip4 : (Bytes → Option Ip) → Bytes → Option Ip
unfolding family read_quad
parse_ip4 parse_ip6 s = elim (family s) [
  | v4 ↦ read_quad s quad_start
  | v6 ↦ parse_ip6 s
  | unreadable ↦ none
]

-- `IP.String()` of an IPv4 address, and `fmt.Sprintf("%d.%d.%d.%d", …)`.
unfoldable pub format_ip : Ip → Bytes
format_ip x = itoa x.a ++ (b'.' ∷ (itoa x.b ++ (b'.' ∷ (itoa x.c ++ (b'.' ∷ itoa x.d)))))

parse_test : parse_ip4 (λ _. none) (codes "172.30.4.200") ≡ some (ip 172 30 4 200)
unfolding parse_ip4
parse_test = refl

parse_test_zero : parse_ip4 (λ _. none) (codes "172.030.4.200") ≡ none
unfolding parse_ip4
parse_test_zero = refl

format_test : format_ip (ip 172 30 4 200) ≡ codes "172.30.4.200"
unfolding format_ip itoa
format_test = refl
