-- ===== src/Proxy/Tests.antt =====
-- The theorems on PROXY headers at concrete inputs, and odd inputs that are accepted or refused.
use aiosmtpd.Prelude.{
  ℕ, ◌≡◌, refl, ◌≢◌, ◌↔◌, ◌⊎◌, true, false, Option, none, some, List, [], ◌∷◌, ◌++◌, arith,
}
use aiosmtpd.Prelude.Text.{Text, Bytes, Dict, codes, text_eq, strip, ends_with, split_on, get}
use aiosmtpd.Prelude.Tests.{◌==◌}
use aiosmtpd.Proxy.Attribs.{answers, mismatch, same_attribs, all_same, same_attribs-answers}
use aiosmtpd.Stream.{Reader, received, eof}
use aiosmtpd.Proxy.Data.{
  Address, ipv4, ProxyData, index_error, connection_error, out_of_fuel, proto_unspec,
}
use aiosmtpd.Proxy.Reading.{raised, read_rest}
use aiosmtpd.Proxy.V1.{parse_v1, int_of, port_allowed, address_allowed}
use aiosmtpd.Proxy.V2.{get_proxy}
use aiosmtpd.Proxy.Tlv.{parse}
use aiosmtpd.Proxy.Tlv.Vectors.{Vector, write_vectors, noted, parse-vectors}
use aiosmtpd.Proxy.Tlv.Ending.{parse-ends}
use aiosmtpd.Proxy.Chunks.{Gives}
use aiosmtpd.Proxy.Filling.{read_rest-ends}
use aiosmtpd.Proxy.Headers.{Connection, meant, get_proxy-header}
use aiosmtpd.Proxy.Lines.{IsTcp, parse_v1-IsTcp}

-- An underscore in a port is accepted, since the pattern is not tied to the end of the field.
port_with_underscore : (port_allowed (codes "1_0") ≡ true) × (int_of (codes "1_0") ≡ some 10)
unfolding port_allowed int_of codes strip
port_with_underscore = (refl, refl)

-- An SSL vector without a value raises an `IndexError`.
empty_ssl : (parse (32 ∷ 0 ∷ 0 ∷ []) true false).0 ≡ some index_error
unfolding parse codes text_eq
empty_ssl = refl

abbrev two_vectors : List Vector
two_vectors =
    record { typ = 2; name = codes "AUTHORITY"; val = codes "mx" }
    ∷ record { typ = 16; name = codes "x10"; val = [] }
    ∷ []

parse-vectors_example :
    parse (write_vectors two_vectors) false false
    ≡ (none, noted 0 0 two_vectors (record { rslt = []; tlv_loc = [] }))
unfolding parse codes text_eq
parse-vectors_example =
    parse-vectors false false two_vectors (refl, refl, omega arith, (refl, refl, omega arith, tt))

parse-ends_example : (parse (32 ∷ 0 ∷ 9 ∷ 1 ∷ []) true false).0 ≢ some out_of_fuel
parse-ends_example = parse-ends (32 ∷ 0 ∷ 9 ∷ 1 ∷ []) true false

abbrev client : Connection
client = record {
  command = 1;
  family = 1;
  protocol = 1;
  src = 10 ∷ 0 ∷ 0 ∷ 1 ∷ [];
  dst = 10 ∷ 0 ∷ 0 ∷ 2 ∷ [];
  src_port = 40000;
  dst_port = 25;
  vectors = 4 ∷ 0 ∷ 0 ∷ [];
}

abbrev reader : Reader
reader = record {
  buffer = 13 ∷ 10 ∷ 13 ∷ [];
  arriving =
      received (10 ∷ 0 ∷ 13 ∷ 10 ∷ 81 ∷ [])
      ∷ received (85 ∷ 73 ∷ 84 ∷ 10 ∷ 33 ∷ 17 ∷ 0 ∷ 15 ∷ 10 ∷ 0 ∷ [])
      ∷ received (0 ∷ 1 ∷ 10 ∷ 0 ∷ 0 ∷ 2 ∷ 156 ∷ 64 ∷ 0 ∷ 25 ∷ 4 ∷ 0 ∷ 0 ∷ 69 ∷ [])
      ∷ [];
}

abbrev by_text : Text → Option Address
by_text t = some (ipv4 t)

get_proxy-header_example : Gives (get_proxy by_text (λ e. []) 1001 reader) (meant client) (69 ∷ [])
get_proxy-header_example =
    get_proxy-header client
      (record {
        command = omega arith;
        family = (omega arith, omega arith);
        protocol = (omega arith, omega arith);
        src = refl;
        dst = refl;
        src_port = omega arith;
        dst_port = omega arith;
        whole = omega arith;
      })
      by_text (λ e. []) 1001 (69 ∷ []) reader (record { plain = tt; content = refl })

abbrev v1_line : Bytes
v1_line = codes " TCP4 10.0.0.1 10.0.0.2 40000 25" ++ 13 ∷ 10 ∷ []

abbrev v1_data : ProxyData
v1_data = record {
  version = some 1;
  command = none;
  family = some 1;
  protocol = some 1;
  src_addr = some (ipv4 (codes "10.0.0.1"));
  dst_addr = some (ipv4 (codes "10.0.0.2"));
  src_port = some 40000;
  dst_port = some 25;
  rest = [];
  whole_raw = codes "PROXY" ++ v1_line;
  tlv_start = none;
  error = [];
}

parse_v1-IsTcp_example : IsTcp v1_data ⊎ (v1_data.protocol ≡ some proto_unspec)
unfolding parse_v1 codes ends_with split_on text_eq address_allowed port_allowed int_of strip
parse_v1-IsTcp_example = parse_v1-IsTcp by_text (codes "PROXY") v1_line v1_data refl refl

-- A stream that ends behind three bytes, and one that ends within a field.
abbrev cut : Reader
cut = record { buffer = codes "PRO"; arriving = eof ∷ [] }

abbrev cut_field : Reader
cut_field = record { buffer = 81 ∷ []; arriving = eof ∷ [] }

read_rest-ends_example : (read_rest (codes "header") (13 ∷ []) 4 cut_field).0 ≢ raised out_of_fuel
read_rest-ends_example = read_rest-ends (codes "header") (13 ∷ []) 4 cut_field

cut_field_raises :
    (read_rest (codes "header") (13 ∷ []) 4 cut_field).0
    ≡ raised (connection_error (codes "header"))
unfolding read_rest
cut_field_raises = refl

-- A header's attributes, compared with some that are expected.
abbrev expected : Dict ℕ
expected = (codes "version", 2) ∷ []

abbrev version_of : Text → Option ℕ
version_of k = get k ((codes "version", 1) ∷ [])

same_attribs-answers_example :
    (same_attribs ◌==◌ false version_of expected ≡ answers (all_same ◌==◌ version_of expected))
    × ((same_attribs ◌==◌ true version_of expected ≡ answers true)
        ↔ (all_same ◌==◌ version_of expected ≡ true))
    × (same_attribs ◌==◌ true version_of expected ≢ answers false)
same_attribs-answers_example = same_attribs-answers ◌==◌ version_of expected

version_mismatch : same_attribs ◌==◌ true version_of expected ≡ mismatch (codes "version")
unfolding same_attribs get codes text_eq
version_mismatch = refl
