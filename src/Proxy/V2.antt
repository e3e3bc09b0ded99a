-- ===== src/Proxy/V2.antt =====
-- The binary header of version 2, and the choice of the version: `_get_v2` and `get_proxy`
-- (aiosmtpd/proxy_protocol.py).
use Prim.Native.Nat.{◌/◌, ◌%◌}
use aiosmtpd.Prelude.{ℕ, ◌+◌, ◌*◌, Bool, ◌&&◌, not, Option, none, some, [], ◌∷◌, ◌++◌}
use aiosmtpd.Prelude.Tests.{ltb, leb, ◌==◌, if◌then◌else◌}
use aiosmtpd.Prelude.Lists.{length, is_empty, take, drop}
use aiosmtpd.Prelude.Text.{Text, Bytes, codes, text_eq}
use aiosmtpd.Stream.{Reader}
use aiosmtpd.Proxy.Data.{
  Failure, value_error, Address, ipv4, ipv6, unix, ProxyData, create_proxy_data, with_error,
  af_inet, af_inet6, from_bytes,
}
use aiosmtpd.Proxy.Reading.{Reading, Ending, readexactly, read_rest, recover, ◌>>=◌, pure, raise}
use aiosmtpd.Proxy.V1.{get_v1}

-- `V2_SIGNATURE`
abbrev pub v2_signature : Bytes
v2_signature = 13 ∷ 10 ∷ 13 ∷ 10 ∷ 0 ∷ 13 ∷ 10 ∷ 81 ∷ 85 ∷ 73 ∷ 84 ∷ 10 ∷ []

-- The three fields of the header behind the signature.
pub record Header : Type 0 where
  pub ver_cmd : ℕ
  pub fam_proto : ℕ
  pub len_tail : ℕ

-- `struct.unpack("!BBH", header)`
unfoldable pub unpack_header : Bytes → Option Header
unpack_header (a ∷ b ∷ c ∷ d ∷ []) =
    some (record { ver_cmd = a; fam_proto = b; len_tail = from_bytes 0 (c ∷ d ∷ []) })
unpack_header _ = none

-- `V2_PARSE_ADDR_FAMPRO`: a family with addresses, and a transport
unfoldable pub has_addresses : ℕ → Bool
has_addresses fam_proto =
    let family = fam_proto / 16 in
    let proto = fam_proto % 16 in leb 1 family && leb family 3 && leb 1 proto && leb proto 2

-- The checks of the header, and the data that they leave; `none` is for no fault.
unfoldable pub check_header : ProxyData → Header → Option Text × ProxyData
check_header d h =
    let with_command = record d { command = some (h.ver_cmd % 16) } in
    let with_family = record with_command { family = some (h.fam_proto / 16) } in
    let with_protocol = record with_family { protocol = some (h.fam_proto % 16) } in
    if not (h.ver_cmd / 16 == 2)
    then (some (codes "PROXYv2 illegal version"), d)
    else if ltb 1 (h.ver_cmd % 16)
    then (some (codes "PROXYv2 unsupported command"), with_command)
    else if ltb 3 (h.fam_proto / 16)
    then (some (codes "PROXYv2 unsupported family"), with_family)
    else if ltb 2 (h.fam_proto % 16)
    then (some (codes "PROXYv2 unsupported protocol"), with_protocol)
    else (none, with_protocol)

-- The size of one address of a family, and of the ports behind the two.
abbrev pub addr_size : ℕ → ℕ
addr_size family = if family == af_inet then 4 else if family == af_inet6 then 16 else 108

abbrev pub ports_size : ℕ → ℕ
ports_size family = if family == af_inet then 4 else if family == af_inet6 then 4 else 0

-- `struct.calcsize(unpacker)`
unfoldable pub addr_len : ℕ → ℕ
addr_len family = 2 * addr_size family + ports_size family

abbrev pub address_of : ℕ → Bytes → Address
address_of family b =
    if family == af_inet then ipv4 b else if family == af_inet6 then ipv6 b else unix b

-- A port in two bytes, if the family has ports.
abbrev pub port_of : ℕ → Bytes → Option ℕ
port_of family b = if ports_size family == 4 then some (from_bytes 0 b) else none

-- The addresses and ports in the tail, and the vectors behind them.
unfoldable pub unpack_tail : ℕ → Bytes → ProxyData → ProxyData
unfolding addr_len with_error
unpack_tail family tail_part d =
    let n = addr_size family in
    let behind = drop n (drop n tail_part) in
    let vectors = drop (ports_size family) behind in
    if ltb (length (take (addr_len family) tail_part)) (addr_len family)
    then with_error (codes "PROXYv2 truncated address") d
    else record d {
      src_addr = some (address_of family (take n tail_part));
      dst_addr = some (address_of family (take n (drop n tail_part)));
      src_port = port_of family (take 2 behind);
      dst_port = port_of family (take 2 (drop 2 behind));
      rest = vectors;
      tlv_start = if is_empty vectors then d.tlv_start else some (16 + addr_len family);
    }

-- What the tail gives; `whole` is what was read in all.
unfoldable pub finish_v2 : Header → Bytes → Bytes → ProxyData → ProxyData
unfolding has_addresses unpack_tail
finish_v2 h whole tail_part d =
    let d' = record d { whole_raw = whole } in
    if has_addresses h.fam_proto
    then unpack_tail (h.fam_proto / 16) tail_part d'
    else record d' { rest = tail_part }

-- The tail behind a header that has been checked.
abbrev pub read_tail : Header → Bytes → Bytes → Option Text × ProxyData → Reading ProxyData
read_tail h whole tail_part (some message, d) = pure (with_error message d)
read_tail h whole tail_part (none, d) =
    read_rest (codes "tail part") tail_part h.len_tail >>= λ (tail, more).
    pure (finish_v2 h (whole ++ tail) tail d)

abbrev pub read_header : Bytes → Bytes × Bytes → Reading ProxyData
read_header signature (header, tail_part) = elim (unpack_header header) [
  | none ↦ raise value_error
  | some h ↦
      read_tail h (signature ++ header) tail_part (check_header (create_proxy_data (some 2)) h)
]

unfoldable pub get_v2 : Bytes → Reading ProxyData
unfolding unpack_header check_header read_rest finish_v2 ◌>>=◌ with_error
get_v2 initial = read_rest (codes "signature") initial 12 >>= λ (signature, header).
    if text_eq signature v2_signature
    then read_rest (codes "header") header 4 >>= read_header signature
    else pure (with_error (codes "PROXYv2 wrong signature") (create_proxy_data (some 2)))

-- `ip_address` and the text of an exception are Python's; the limit is that of the stream.
module _ (ip_address : Text → Option Address) (describe : Failure → Text) (limit : ℕ) where
  -- The version that the first five bytes say.
  unfoldable pub by_signature : Bytes → Reading ProxyData
  unfolding get_v2 get_v1 with_error
  by_signature signature =
      if text_eq signature (codes "PROXY")
      then get_v1 ip_address limit signature
      else if text_eq signature (take 5 v2_signature)
      then get_v2 signature
      else pure (with_error (codes "PROXY unrecognized signature") (create_proxy_data none))

  -- `except Exception`
  abbrev pub on_failure : Failure → ProxyData
  unfolding with_error
  on_failure e = with_error (codes "PROXY exception: " ++ describe e) (create_proxy_data none)

  abbrev pub recovered : Ending ProxyData × Reader → Ending ProxyData × Reader
  recovered (x, r) = (recover x on_failure, r)

  unfoldable pub get_proxy : Reading ProxyData
  unfolding by_signature ◌>>=◌
  get_proxy = readexactly 5 >>= λ signature r. recovered (by_signature signature r)
