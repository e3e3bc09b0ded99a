-- ===== src/Proxy/Data.antt =====
-- What a PROXY header says: `ProxyData` and its constants (aiosmtpd/proxy_protocol.py).
use aiosmtpd.Prelude.{ℕ, ◌+◌, ◌*◌, Bool, ◌&&◌, Option, none, [], ◌∷◌}
use aiosmtpd.Prelude.Tests.{is_some}
use aiosmtpd.Prelude.Lists.{is_empty}
use aiosmtpd.Prelude.Text.{Text, Bytes}

-- The exceptions of the module and of what it calls. `out_of_fuel` is none of them: a loop of the
-- model would end with it if its fuel were too small.
pub data Failure : Type 0 where
  malformed_tlv unknown_type_tlv index_error value_error limit_overrun incomplete_read : Failure
  connection_error : Text → Failure
  out_of_fuel : Failure

-- `IPv4Address`, `IPv6Address` and the path of a Unix socket, by their packed bytes.
pub data Address : Type 0 where
  ipv4 ipv6 unix : Bytes → Address

-- `AF` and `PROTO`
abbrev pub af_unspec : ℕ
af_unspec = 0

abbrev pub af_inet : ℕ
af_inet = 1

abbrev pub af_inet6 : ℕ
af_inet6 = 2

abbrev pub af_unix : ℕ
af_unix = 3

abbrev pub proto_unspec : ℕ
proto_unspec = 0

abbrev pub proto_stream : ℕ
proto_stream = 1

pub record ProxyData : Type 0 where
  pub version : Option ℕ
  pub command : Option ℕ
  pub family : Option ℕ
  pub protocol : Option ℕ
  pub src_addr : Option Address
  pub dst_addr : Option Address
  pub src_port : Option ℕ
  pub dst_port : Option ℕ
  pub rest : Bytes
  pub whole_raw : Bytes
  pub tlv_start : Option ℕ
  pub error : Text

-- `ProxyData(version=…)`
abbrev pub create_proxy_data : Option ℕ → ProxyData
create_proxy_data version = record {
  version = version;
  command = none;
  family = none;
  protocol = none;
  src_addr = none;
  dst_addr = none;
  src_port = none;
  dst_port = none;
  rest = [];
  whole_raw = [];
  tlv_start = none;
  error = [];
}

-- `valid`, which is the truth of the object too
unfoldable pub valid : ProxyData → Bool
valid d = is_empty d.error && is_some d.version && is_some d.protocol

unfoldable pub with_error : Text → ProxyData → ProxyData
with_error message d = record d { error = message }

-- `int.from_bytes(b, "big")`, behind the number `n`
abbrev pub from_bytes : ℕ → Bytes → ℕ
from_bytes n [] = n
from_bytes n (c ∷ b) = from_bytes (n * 256 + c) b
