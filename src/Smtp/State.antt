-- ===== src/Smtp/State.antt =====
-- The state of one connection: `Session`, `Envelope` and the attributes of `SMTP` that its methods
-- change (aiosmtpd/smtp.py), and the values that hooks and authenticators hand back.
use aiosmtpd.Prelude.{ℕ, Bool, false, Option, none, List, []}
use aiosmtpd.Prelude.Text.{Text, Bytes, Dict}
use aiosmtpd.Stream.{Reader}
use aiosmtpd.Proxy.Data.{ProxyData}

-- The Python values that cross the border to code outside the package.
pub data Value : Type 0 where
  missing : Value
  none_value : Value
  bool : Bool → Value
  str : Text → Value
  bytes : Bytes → Value
  strs : List Text → Value
  login_password : Bytes → Bytes → Value
  proxy : ProxyData → Value

-- `AuthResult`
pub record AuthResult : Type 0 where
  pub success : Bool
  pub handled : Bool
  pub message : Option Text
  pub auth_data : Value

-- What an `auth_*` method returns: the new system's object, or a value of the old one.
pub data AuthOutcome : Type 0 where
  result : AuthResult → AuthOutcome
  value : Value → AuthOutcome

-- `session.peer`: a pair that starts with a host, or the name of a Unix socket, empty for a client
-- that has bound none.
pub data Peer : Type 0 where
  inet : Text → Peer
  unix : Text → Peer

-- `Session`; `ssl` tells whether the TLS data is there.
pub record Session : Type 0 where
  pub peer : Peer
  pub ssl : Bool
  pub host_name : Option Text
  pub extended_smtp : Bool
  pub login_data : Value
  pub auth_data : Value
  pub authenticated : Bool
  pub proxy_data : Option ProxyData

unfoldable pub create_session : Peer → Session
create_session peer = record {
  peer = peer;
  ssl = false;
  host_name = none;
  extended_smtp = false;
  login_data = none_value;
  auth_data = none_value;
  authenticated = false;
  proxy_data = none;
}

-- `Envelope`; a content of type `str` or `bytes`
pub data Content : Type 0 where
  decoded : Text → Content
  raw : Bytes → Content

pub record Envelope : Type 0 where
  pub mail_from : Option Text
  pub mail_options : List Text
  pub smtp_utf8 : Bool
  pub content : Option Content
  pub original_content : Option Bytes
  pub rcpt_tos : List Text
  pub rcpt_options : List Text

unfoldable pub create_envelope : Envelope
create_envelope = record {
  mail_from = none;
  mail_options = [];
  smtp_utf8 = false;
  content = none;
  original_content = none;
  rcpt_tos = [];
  rcpt_options = [];
}

-- The transport: in use, closed by the server with `connection_lost` still to be called, or gone
-- (`self.transport is None`).
pub data Connection : Type 0 where
  live closing lost : Connection

-- The attributes of `SMTP` that change. `written` is what was given to the transport to be sent, oldest
-- first; `flushing` is the client's choice: how many more replies a transport that is being closed takes
-- into its send buffer before that has been sent, none where it was empty at the close; `timer` is the
-- duration that the timer was last set to; a `tls_protocol` and an `original_transport` are there
-- or not.
pub record Smtp : Type 0 where
  pub session : Session
  pub envelope : Envelope
  pub reader : Reader
  pub written : List Bytes
  pub connection : Connection
  pub flushing : ℕ
  pub tls_protocol : Bool
  pub original_transport : Bool
  pub tls_handshake_okay : Bool
  pub timer : Option ℕ
  pub command_size_limits : Dict ℕ

-- Exceptions. `cancelled` is `CancelledError`; `raised` is an exception of a hook or of an
-- authenticator, by its class and its text. `out_of_fuel` is no exception of the program: a loop of
-- the model would end with it if its fuel were too small.
pub data Error : Type 0 where
  cancelled connection_reset tls_setup : Error
  limit_overrun : ℕ → Error
  unicode_error value_error type_error assertion_error index_error : Error
  raised : Text → Text → Error
  out_of_fuel : Error

pub data Result {ℓ} (A : Type ℓ) : Type ℓ where
  ok : A → Result A
  err : Error → Result A
