-- ===== src/Proxy/Headers.antt =====
-- A version 2 header that a proxy writes is read as it was meant, however it arrives: `get_proxy` and
-- `_get_v2` (aiosmtpd/proxy_protocol.py).
use Prim.Native.Nat.{◌/◌, ◌%◌}
use aiosmtpd.Prelude.{
  ℕ, ◌+◌, ◌*◌, ◌≤◌, ◌<◌, ◌≡◌, refl, sym, ap, ◌∙◌, true, false, Option, none, some, [], ◌∷◌, ◌++◌,
  arith,
}
use aiosmtpd.Prelude.Tests.{ltb, if◌then◌else◌}
use aiosmtpd.Prelude.Lists.{
  length, is_empty, take, drop, length-append, length-take, take-length_append, drop-length_append,
}
use aiosmtpd.Prelude.Text.{Text, Bytes, text_eq, codes}
use aiosmtpd.Stream.{Reader}
use aiosmtpd.Stream.Chunks.{Holds}
use aiosmtpd.Proxy.Data.{Failure, Address, ProxyData, create_proxy_data, from_bytes}
use aiosmtpd.Proxy.Reading.{returned, ◌>>=◌, pure}
use aiosmtpd.Proxy.Chunks.{Gives, ltb-le, readexactly-Gives, read_rest-Gives}
use aiosmtpd.Proxy.V2.{
  v2_signature, Header, unpack_header, has_addresses, check_header, addr_size, ports_size, addr_len,
  address_of, unpack_tail, finish_v2, get_v2, by_signature, get_proxy,
}

-- What a proxy has to say of a connection over IPv4 or IPv6.
pub record Connection : Type 0 where
  pub command : ℕ
  pub family : ℕ
  pub protocol : ℕ
  pub src : Bytes
  pub dst : Bytes
  pub src_port : ℕ
  pub dst_port : ℕ
  pub vectors : Bytes

abbrev pub two_bytes : ℕ → Bytes
two_bytes n = n / 256 ∷ n % 256 ∷ []

abbrev pub write_tail : Connection → Bytes
write_tail c = c.src ++ (c.dst ++ (two_bytes c.src_port ++ (two_bytes c.dst_port ++ c.vectors)))

abbrev pub write_fields : Connection → Bytes
write_fields c = (32 + c.command) ∷ (16 * c.family + c.protocol) ∷ two_bytes (length (write_tail c))

-- The header, as the protocol's document lays it out.
abbrev pub write_header : Connection → Bytes
write_header c = v2_signature ++ (write_fields c ++ write_tail c)

pub record IsConnection (c : Connection) : Type 0 where
  pub command : c.command ≤ 1
  pub family : (1 ≤ c.family) × (c.family ≤ 2)
  pub protocol : (1 ≤ c.protocol) × (c.protocol ≤ 2)
  pub src : length c.src ≡ addr_size c.family
  pub dst : length c.dst ≡ addr_size c.family
  pub src_port : c.src_port < 65536
  pub dst_port : c.dst_port < 65536
  pub whole : length (write_tail c) < 65536

-- The data that is meant.
abbrev pub meant : Connection → ProxyData
meant c = record {
  version = some 2;
  command = some c.command;
  family = some c.family;
  protocol = some c.protocol;
  src_addr = some (address_of c.family c.src);
  dst_addr = some (address_of c.family c.dst);
  src_port = some c.src_port;
  dst_port = some c.dst_port;
  rest = c.vectors;
  whole_raw = write_header c;
  tlv_start = if is_empty c.vectors then none else some (16 + addr_len c.family);
  error = [];
}

two_bytes_lem : (n : ℕ) → n < 65536 → from_bytes 0 (two_bytes n) ≡ n
two_bytes_lem n h = omega arith

abbrev header_of : Connection → Header
header_of c = record {
  ver_cmd = 32 + c.command;
  fam_proto = 16 * c.family + c.protocol;
  len_tail = from_bytes 0 (two_bytes (length (write_tail c)));
}

abbrev checked : Connection → ProxyData
checked c = record (create_proxy_data (some 2)) {
  command = some c.command;
  family = some c.family;
  protocol = some c.protocol;
}

module _ (c : Connection) (is : IsConnection c) where
  command_bits : ((32 + c.command) / 16 ≡ 2) × ((32 + c.command) % 16 ≡ c.command)
  command_bits = (omega (arith, is.command), omega (arith, is.command))

  family_bits :
      ((16 * c.family + c.protocol) / 16 ≡ c.family)
      × ((16 * c.family + c.protocol) % 16 ≡ c.protocol)
  family_bits = (omega (arith, is.protocol.1), omega (arith, is.protocol.1))

  check_header-fine : check_header (create_proxy_data (some 2)) (header_of c) ≡ (none, checked c)
  unfolding check_header
  check_header-fine =
      rw (command_bits.0, command_bits.1, family_bits.0, family_bits.1)
        (ground (arith, is.command, is.family, is.protocol))

  has_addresses-fine : has_addresses (16 * c.family + c.protocol) ≡ true
  unfolding has_addresses
  has_addresses-fine = rw (family_bits.0, family_bits.1) (ground (arith, is.family, is.protocol))

  src_part :
      (take (addr_size c.family) (write_tail c) ≡ c.src)
      × (drop (addr_size c.family) (write_tail c)
          ≡ c.dst ++ (two_bytes c.src_port ++ (two_bytes c.dst_port ++ c.vectors)))
  src_part = (
    ap (λ n. take n (write_tail c)) (sym is.src) ∙ take-length_append c.src _,
    ap (λ n. drop n (write_tail c)) (sym is.src) ∙ drop-length_append c.src _,
  )

  dst_part :
      (xs : Bytes)
      → (take (addr_size c.family) (c.dst ++ xs) ≡ c.dst)
        × (drop (addr_size c.family) (c.dst ++ xs) ≡ xs)
  dst_part xs = (
    ap (λ n. take n (c.dst ++ xs)) (sym is.dst) ∙ take-length_append c.dst _,
    ap (λ n. drop n (c.dst ++ xs)) (sym is.dst) ∙ drop-length_append c.dst _,
  )

  four : ports_size c.family ≡ 4
  four = ground (arith, is.family)

  tail_length : addr_len c.family ≤ length (write_tail c)
  unfolding addr_len
  tail_length =
      let ports : Bytes = two_bytes c.src_port ++ (two_bytes c.dst_port ++ c.vectors) in
      omega (
        arith,
        length-append c.src (c.dst ++ ports),
        length-append c.dst ports,
        is.src,
        is.dst,
        four,
      )

  long_enough : ltb (length (take (addr_len c.family) (write_tail c))) (addr_len c.family) ≡ false
  long_enough =
      ltb-le (length (take (addr_len c.family) (write_tail c))) (addr_len c.family)
        (omega (arith, length-take (addr_len c.family) (write_tail c), tail_length))

  unpack_tail-fine :
      unpack_tail c.family (write_tail c) (record (checked c) { whole_raw = write_header c })
      ≡ meant c
  unfolding unpack_tail addr_len
  unpack_tail-fine =
      rw
        (
          long_enough,
          src_part.0,
          src_part.1,
          (dst_part (two_bytes c.src_port ++ (two_bytes c.dst_port ++ c.vectors))).0,
          (dst_part (two_bytes c.src_port ++ (two_bytes c.dst_port ++ c.vectors))).1,
          four,
        )
        (rw (two_bytes_lem c.src_port is.src_port, two_bytes_lem c.dst_port is.dst_port))

  size_of_tail : from_bytes 0 (two_bytes (length (write_tail c))) ≡ length (write_tail c)
  size_of_tail = two_bytes_lem (length (write_tail c)) is.whole

  finish_v2-fine : finish_v2 (header_of c) (write_header c) (write_tail c) (checked c) ≡ meant c
  unfolding finish_v2
  finish_v2-fine = rw (has_addresses-fine, family_bits.0) unpack_tail-fine

  get_v2-header :
      (rest : Bytes) (r : Reader)
      → Holds r (drop 5 v2_signature ++ (write_fields c ++ (write_tail c ++ rest)))
      → Gives (get_v2 (take 5 v2_signature) r) (meant c) rest
  unfolding get_v2 ◌>>=◌ pure unpack_header text_eq
  get_v2-header rest r h =
      let (r1, e1, h1) =
        read_rest-Gives (codes "signature") (take 5 v2_signature) (drop 5 v2_signature)
          (write_fields c ++ (write_tail c ++ rest)) r 12 refl h in
      let (r2, e2, h2) =
        read_rest-Gives (codes "header") [] (write_fields c) (write_tail c ++ rest) r1 4 refl h1 in
      let (r3, e3, h3) =
        read_rest-Gives (codes "tail part") [] (write_tail c) rest r2
          (from_bytes 0 (two_bytes (length (write_tail c)))) (omega (arith, size_of_tail)) h2 in
      (
        r3,
        rw e1 (
            rw e2 (
              rw check_header-fine
                (rw e3 (ap (λ (d : ProxyData). (returned d, r3)) finish_v2-fine)))),
        h3,
      )

  -- A proxy says of a connection over IPv4 or IPv6 its command, protocol, addresses, ports and
  -- vectors, each within what the header has room for. Then `get_proxy` reads the header that the
  -- proxy writes, in whatever chunks it arrives, as exactly that, finds it free of errors, and leaves
  -- in the reader what the client sent after it.
  pub get_proxy-header :
      (ip_address : Text → Option Address) (describe : Failure → Text) (limit : ℕ) (rest : Bytes)
      (r : Reader)
      → Holds r (write_header c ++ rest)
      → Gives (get_proxy ip_address describe limit r) (meant c) rest
  unfolding get_proxy by_signature ◌>>=◌ text_eq codes
  get_proxy-header ip_address describe limit rest r h =
      let (r1, e1, h1) =
        readexactly-Gives (take 5 v2_signature)
          (drop 5 v2_signature ++ (write_fields c ++ (write_tail c ++ rest))) r h in
      let (r2, e2, h2) = get_v2-header rest r1 h1 in (r2, rw e1 (rw e2), h2)
