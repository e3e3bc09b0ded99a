-- ===== src/Main/Listen.antt =====
-- Where to listen: the `host:port` part of `parseargs` (aiosmtpd/main.py).
use aiosmtpd.Prelude.{ℕ, Bool, true, false, ◌||◌, Option, none, some, [], ◌∷◌, ◌++◌}
use aiosmtpd.Prelude.Tests.{◌==◌, if◌then◌else◌}
use aiosmtpd.Prelude.Text.{Text, codes}

abbrev pub default_host : Text
default_host = codes "localhost"

abbrev pub default_port : ℕ
default_port = 8025

unfoldable pub has_char : ℕ → Text → Bool
has_char c [] = false
has_char c (x ∷ xs) = x == c || has_char c xs

-- `rpartition(c)` for one character: what stands before the last one, whether there is one, what
-- stands behind it
unfoldable pub rpartition : ℕ → Text → Text × Bool × Text
unfolding has_char
rpartition c [] = ([], false, [])
rpartition c (x ∷ xs) =
    let (a, found, b) = rpartition c xs in
    if found then (x ∷ a, true, b) else if x == c then ([], true, xs) else ([], false, x ∷ xs)

-- A value; `parser.error`, which prints its message and leaves; or an exception of the import.
pub data ParseResult {ℓ} (A : Type ℓ) : Type ℓ where
  parsed : A → ParseResult A
  usage : Text → ParseResult A
  raises : Text → ParseResult A

-- `int(port)`: a number, `negsuc n` being -(n + 1), or a `ValueError`.
pub data ℤ : Type 0 where
  pos : ℕ → ℤ
  negsuc : ℕ → ℤ

abbrev pub Address : Type 0
Address = Text × ℤ

-- the port; `to_int` is Python's `int`
unfoldable pub port_or_default : (Text → Option ℤ) → Text → Option ℤ
port_or_default to_int [] = some (pos default_port)
port_or_default to_int (c ∷ cs) = to_int (c ∷ cs)

unfoldable pub host_of : Text → Text
host_of [] = default_host
host_of (c ∷ cs) = c ∷ cs

unfoldable pub with_port : Text → Text → Option ℤ → ParseResult Address
with_port host port none = usage (codes "Invalid port number: " ++ port)
with_port host port (some n) = parsed (host, n)

-- `parsed.host` and `parsed.port`, from `parsed.listen`
unfoldable pub listen_on : (Text → Option ℤ) → Option Text → ParseResult Address
unfolding port_or_default host_of with_port rpartition
listen_on to_int none = parsed (default_host, pos default_port)
listen_on to_int (some listen) =
    let (host, colon, port) = rpartition 58 listen in
    if colon
    then with_port (host_of host) port (port_or_default to_int port)
    else parsed (port, pos default_port)
