-- ===== src/Smtp/Server.antt =====
-- What a server is built from (`SMTP.__init__`): its settings, the handler's hooks, and what it uses
-- of code that is not in the package.
use aiosmtpd.Prelude.{ℕ, Bool, Option, List}
use aiosmtpd.Prelude.Text.{Text, Bytes, Dict}
use aiosmtpd.Proxy.Data.{Failure, Address}
use aiosmtpd.Smtp.State.{Peer, Value, AuthResult, AuthOutcome, Error}
use aiosmtpd.Smtp.Exec.{Exec, Done}

-- The methods `smtp_*` of `SMTP`, and of `LMTP` (aiosmtpd/lmtp.py) where it has its own.
pub data Method : Type 0 where
  helo ehlo noop quit starttls auth help vrfy mail rcpt rset data_method expn : Method
  lmtp_lhlo lmtp_helo lmtp_ehlo : Method

-- A hook may change the connection's state in any way, and raise.
abbrev pub Hook : Type 0
Hook = List Value → Exec Value

-- The built-in mechanisms and the handler's own.
pub data AuthMechanism : Type 0 where
  plain login : AuthMechanism
  custom : (List Text → Exec AuthOutcome) → AuthMechanism

pub data EhloHook : Type 0 where
  old_style new_style : EhloHook

-- Python's and the email package's tables and codecs. A parser of addresses returns the address
-- and what follows it, or nothing for `HeaderParseError`.
pub record Library : Type 0 where
  pub upper : Text → Text
  pub is_alnum : ℕ → Bool
  pub is_digit : ℕ → Bool
  pub is_space : ℕ → Bool
  pub parse_int : Text → Option ℕ
  pub decode_utf8 : Bytes → Text
  pub encode_utf8 : Text → Option Bytes
  pub b64encode : Bytes → Bytes
  pub b64decode : Bytes → Option Bytes
  pub get_angle_addr : Text → Option (Text × Text)
  pub get_addr_spec : Text → Option (Text × Text)
  pub describe : Error → Text

-- `command_call_limit`: the limits given, and the one for other commands.
pub record CallLimit : Type 0 where
  pub base : Dict ℕ
  pub default : ℕ

-- A server behind a proxy: how long it waits for the header, and Python's `ip_address` and texts of
-- exceptions, which reading the header uses.
pub record Proxying : Type 0 where
  pub timeout : ℕ
  pub ip_address : Text → Option Address
  pub describe : Failure → Text

pub record Server : Type 0 where
  pub library : Library
  pub hostname : Text
  pub ident : Text
  pub peer : Peer
  pub data_size_limit : Option ℕ
  pub enable_smtputf8 : Bool
  pub decode_data : Bool
  pub tls_context : Bool
  pub require_starttls : Bool
  pub timeout : ℕ
  pub auth_required : Bool
  pub auth_require_tls : Bool
  pub authenticator : Option (Text → Value → Exec AuthResult)
  pub auth_callback : Text → Bytes → Bytes → Exec Bool
  pub auth_methods : Dict AuthMechanism
  pub handle_hooks : Dict Hook
  pub starttls_hook : Option (Exec Bool)
  pub exception_hook : Option (Error → Exec Value)
  pub process_message : Option (Exec Value)
  pub ehlo_hook_ver : Option EhloHook
  pub ehlo_hook : Option (Exec Done)
  pub rset_hook : Option (Exec Done)
  pub smtp_methods : Dict Method
  pub command_call_limit : Option CallLimit
  pub command_size_limit : ℕ
  pub line_length_limit : ℕ
  pub local_part_limit : ℕ
  pub proxy : Option Proxying
