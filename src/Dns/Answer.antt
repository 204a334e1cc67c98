-- ===== src/Dns/Answer.antt =====
-- Answers of internal/dns/message.go. The flag bits that the code joins with `|` are disjoint, so
-- they are added here; `lookup` is the table of addresses, a parameter.
use talos_box.Base.{
  ℕ, ◌+◌, ◌*◌, ◌/◌, ◌%◌, Bool, true, false, not, ◌&&◌, ◌||◌, Option, none, some, [], ◌∷◌, ◌++◌,
  Bytes, codes, ltb, ◌==◌, if◌then◌else◌, length, take, drop, byte_at, uint16_at, put16,
}
use talos_box.Net.{Ip, ip}
use talos_box.Dns.Message.{Question, encode_name, parse_question}

abbrev pub put32 : ℕ → Bytes
put32 n = put16 (n / 65536) ++ put16 n

abbrev pub is_empty : Bytes → Bool
is_empty [] = true
is_empty (c ∷ s) = false

abbrev soa_rdata : Bytes → Bytes → Bytes
soa_rdata owner mailbox =
    owner ++ (mailbox ++ (put32 1 ++ (put32 3600 ++ (put32 600 ++ (put32 86400 ++ put32 5)))))

abbrev soa_record : Option Bytes → Option Bytes → Option Bytes
soa_record none mailbox = none
soa_record (some owner) none = none
soa_record (some owner) (some mailbox) =
    let rdata = soa_rdata owner mailbox in
    some (owner ++ (put16 6 ++ (put16 1 ++ (put32 5 ++ (put16 (length rdata) ++ rdata)))))

-- `authoritySOA`; none is the nil slice.
unfoldable pub authority_soa : Bytes → Option Bytes
authority_soa zone = soa_record (encode_name zone) (encode_name (codes "hostmaster." ++ zone))

-- The bit of `0x0100`, recursion desired, of the query's flags.
unfoldable pub recursion_desired : Bytes → ℕ
recursion_desired query = uint16_at query 2 / 256 % 2 * 256

-- The question part of a query, under a new header.
unfoldable pub respond : Bytes → ℕ → ℕ → ℕ → ℕ → Bytes
respond query end flags answers authorities =
    take 2 query
    ++ (put16 flags
        ++ (put16 1
            ++ (put16 answers ++ (put16 authorities ++ (put16 0 ++ drop 12 (take end query))))))

abbrev pub a_record : Ip → Bytes
a_record x = 192 ∷ 12 ∷ 0 ∷ 1 ∷ 0 ∷ 1 ∷ 0 ∷ 0 ∷ 0 ∷ 30 ∷ 0 ∷ 4 ∷ x.a ∷ x.b ∷ x.c ∷ x.d ∷ []

abbrev with_soa : Bytes → Question → ℕ → Option Bytes → Bytes
with_soa query q flags none = respond query q.end flags 0 0
with_soa query q flags (some soa) = respond query q.end flags 0 1 ++ soa

-- A miss: the SOA of the zone, where there is one.
unfoldable pub miss : Bytes → Question → ℕ → Bytes → Bytes
unfolding respond authority_soa
miss query q flags zone =
    if is_empty zone
    then respond query q.end flags 0 0
    else with_soa query q flags (authority_soa zone)

abbrev pub found : Bytes → Question → Bytes → Option Ip → Bytes
found query q zone none = miss query q (33920 + recursion_desired query + 3) zone
found query q zone (some x) =
    if q.record_type == 1 && q.class == 1
    then respond query q.end (33920 + recursion_desired query) 1 0 ++ a_record x
    else miss query q (33920 + recursion_desired query) zone

abbrev answer_to : Bytes → (Bytes → Option Ip) → Bytes → Option Question → Option Bytes
answer_to query lookup zone none = none
answer_to query lookup zone (some q) = some (found query q zone (lookup q.name))

-- `answer`
unfoldable pub answer : Bytes → (Bytes → Option Ip) → Bytes → Option Bytes
unfolding parse_question miss recursion_desired
answer query lookup zone = answer_to query lookup zone (parse_question query)

abbrev error_to : Bytes → ℕ → Option Question → Option Bytes
error_to query rcode none = none
error_to query rcode (some q) =
    some (respond query q.end (32896 + recursion_desired query + rcode % 16) 0 0)

-- `errorAnswer`
unfoldable pub error_answer : Bytes → ℕ → Option Bytes
unfolding parse_question respond recursion_desired
error_answer query rcode = error_to query rcode (parse_question query)

abbrev answer_ip_at : Bytes → ℕ → Option Question → Option (Option Ip × ℕ)
answer_ip_at message rcode none = none
answer_ip_at message rcode (some q) =
    if uint16_at message 6 == 0
    then some (none, rcode)
    else if ltb (length message) (q.end + 16)
        || (not (byte_at message q.end == 192)
            || (not (uint16_at message (q.end + 2) == 1)
                || not (uint16_at message (q.end + 10) == 4)))
    then none
    else some (
      some (
          ip (byte_at message (q.end + 12)) (byte_at message (q.end + 13))
            (byte_at message (q.end + 14)) (byte_at message (q.end + 15))),
      rcode,
    )

-- `parseAnswerIP`: the address, if there is one, and the response code.
unfoldable pub parse_answer_ip : Bytes → ℕ → Option (Option Ip × ℕ)
unfolding parse_question
parse_answer_ip message id =
    if ltb (length message) 12
      || (not (uint16_at message 0 == id) || uint16_at message 2 / 32768 % 2 == 0)
    then none
    else answer_ip_at message (uint16_at message 2 % 16) (parse_question message)
