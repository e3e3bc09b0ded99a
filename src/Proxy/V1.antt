-- ===== src/Proxy/V1.antt =====
-- The header of version 1, one line of text: `_get_v1` (aiosmtpd/proxy_protocol.py).
use aiosmtpd.Prelude.{
  ℕ, ◌+◌, ◌-◌, ◌*◌, Bool, true, false, ◌&&◌, ◌||◌, not, Option, none, some, List, [], ◌∷◌, ◌++◌,
}
use aiosmtpd.Prelude.Tests.{ltb, leb, ◌==◌, if◌then◌else◌}
use aiosmtpd.Prelude.Lists.{length, is_empty, take, all}
use aiosmtpd.Prelude.Text.{
  Text, Bytes, codes, crlf, text_eq, starts_with, ends_with, split_on, join, strip,
}
use aiosmtpd.Proxy.Data.{
  index_error, Address, ipv4, ipv6, unix, ProxyData, create_proxy_data, with_error, af_unspec,
  af_inet, af_inet6, proto_unspec, proto_stream,
}
use aiosmtpd.Proxy.Reading.{Reading, Ending, returned, raised, readuntil, ◌>>=◌}

-- `RE_ADDR_ALLOWCHARS`
abbrev pub is_address_char : ℕ → Bool
is_address_char c =
    (leb 48 c && leb c 58) || (leb 97 c && leb c 102) || (leb 65 c && leb c 70) || c == 46

unfoldable pub address_allowed : Text → Bool
address_allowed t = not (is_empty t) && all is_address_char t

-- `RE_PORT_NOLEADZERO`: a match at the start, `[1-9]` with anything behind it, or `0` alone
unfoldable pub port_allowed : Text → Bool
port_allowed [] = false
port_allowed (c ∷ t) = (leb 49 c && leb c 57) || (c == 48 && is_empty t)

-- `int` of a text that starts with a digit: underscores may stand between digits, and spaces of
-- Latin-1 at the end
abbrev pub is_latin_space : ℕ → Bool
is_latin_space c = (leb 9 c && leb c 13) || (leb 28 c && leb c 32) || c == 133 || c == 160

unfoldable pub int_from : ℕ → Bool → Text → Option ℕ
int_from n behind_digit [] = if behind_digit then some n else none
int_from n behind_digit (c ∷ t) =
    let more = int_from (n * 10 + (c - 48)) true t in
    let joined = int_from n false t in
    if leb 48 c && leb c 57 then more else if c == 95 && behind_digit then joined else none

unfoldable pub int_of : Text → Option ℕ
unfolding int_from
int_of t = int_from 0 false (strip is_latin_space t)

-- `src_addr.version == dst_addr.version == …`
unfoldable pub is_version : ℕ → Address → Bool
is_version n (ipv4 b) = n == 4
is_version n (ipv6 b) = n == 6
is_version n (unix b) = false

-- What a parse of the fields ends with.
abbrev pub Parse : Type 0
Parse = Ending ProxyData

abbrev pub fault : Text → ProxyData → Parse
unfolding with_error
fault message d = returned (with_error message d)

-- A field, by `get_ap`: no field raises, and what does not match or does not convert is a fault.
unfoldable pub field_of :
    {A : Type 0}
    → (Text → Bool)
    → (Text → Option A)
    → Text
    → ProxyData
    → List Bytes
    → (A → List Bytes → Parse)
    → Parse
field_of matcher convert message d [] next = raised index_error
field_of matcher convert message d (chunk ∷ parts) next = elim (matcher chunk) [
  | false ↦ fault message d
  | true ↦ elim (convert chunk) [ none ↦ fault message d | some a ↦ next a parts ]
]

unfoldable pub bounds_check : ProxyData → ℕ → ℕ → List Bytes → Parse
bounds_check d src dst parts =
    if ltb 65535 src
    then fault (codes "PROXYv1 src port out of bounds") d
    else if ltb 65535 dst
    then fault (codes "PROXYv1 dst port out of bounds") d
    else if not (is_empty parts)
    then fault (codes "PROXYv1 unrecognized extraneous data") d
    else returned d

-- The ports, behind the addresses. A port that has been read stays in the data.
unfoldable pub ports : ProxyData → List Bytes → Parse
unfolding field_of bounds_check
ports d parts = field_of port_allowed int_of (codes "PROXYv1 port malformed") d parts λ src parts'.
    let d' = record d { src_port = some src } in
    field_of port_allowed int_of (codes "PROXYv1 port malformed") d' parts'
      λ dst parts''. bounds_check (record d' { dst_port = some dst }) src dst parts''

-- Both addresses are of the version that the family says.
unfoldable pub addresses_match : ℕ → Address → Address → ProxyData → List Bytes → Parse
unfolding is_version ports
addresses_match af src dst d parts =
    if af == af_inet && not (is_version 4 src && is_version 4 dst)
    then fault (codes "PROXYv1 address not IPv4") d
    else if af == af_inet6 && not (is_version 6 src && is_version 6 dst)
    then fault (codes "PROXYv1 address not IPv6") d
    else ports (record d { src_addr = some src; dst_addr = some dst }) parts

-- `ip_address` is Python's; it gives nothing for a `ValueError`.
module _ (ip_address : Text → Option Address) where
  unfoldable pub addresses : ℕ → ProxyData → List Bytes → Parse
  unfolding field_of addresses_match
  addresses af d parts =
      field_of address_allowed ip_address (codes "PROXYv1 address malformed") d parts λ src parts'.
        field_of address_allowed ip_address (codes "PROXYv1 address malformed") d parts'
          λ dst parts''. addresses_match af src dst d parts''

  -- the protocol is TCP, and the family is known
  unfoldable pub of_family : ℕ → Bytes → ProxyData → List Bytes → Parse
  unfolding addresses
  of_family af proto d parts =
      let d' = record d { family = some af } in
      if not (starts_with (codes "TCP") proto)
      then fault (codes "PROXYv1 unrecognized protocol") d'
      else addresses af (record d' { protocol = some proto_stream }) parts

  unfoldable pub unknown : ProxyData → List Bytes → Parse
  unknown d parts = returned (record d {
    protocol = some proto_unspec;
    family = some af_unspec;
    rest = if is_empty parts then [] else 32 ∷ join (32 ∷ []) parts;
  })

  unfoldable pub proto_field : ProxyData → List Bytes → Parse
  unfolding unknown of_family
  proto_field d [] = raised index_error
  proto_field d (proto ∷ parts) =
      if text_eq proto (codes "UNKNOWN")
      then unknown d parts
      else if ends_with (codes "4") proto
      then of_family af_inet proto d parts
      else if ends_with (codes "6") proto
      then of_family af_inet6 proto d parts
      else fault (codes "PROXYv1 unrecognized family") d

  -- `data_parts`, of which `split` gives one at least
  unfoldable pub signature_field : ProxyData → List Bytes → Parse
  unfolding proto_field
  signature_field d [] = raised index_error
  signature_field d (signature ∷ parts) =
      if is_empty signature then proto_field d parts else fault (codes "PROXYv1 wrong signature") d

  -- The line behind the signature; `initial` is the signature.
  unfoldable pub parse_v1 : Bytes → Bytes → Parse
  unfolding signature_field
  parse_v1 initial data_ =
      let d = record (create_proxy_data (some 1)) { whole_raw = initial ++ data_ } in
      if ltb 107 (length (initial ++ data_))
      then fault (codes "PROXYv1 header too long") d
      else if not (ends_with crlf data_)
      then fault (codes "PROXYv1 malformed") d
      else signature_field d (split_on 32 (take (length data_ - 2) data_))

  unfoldable pub get_v1 : ℕ → Bytes → Reading ProxyData
  unfolding parse_v1 ◌>>=◌
  get_v1 limit initial = readuntil limit >>= λ data_ r. (parse_v1 initial data_, r)
