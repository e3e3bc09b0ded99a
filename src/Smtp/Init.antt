-- ===== src/Smtp/Init.antt =====
-- `SMTP.__init__` of aiosmtpd/smtp.py: the server that its arguments and the handler make.
pub mod Members
pub mod Checks
pub mod Mechanisms
mod Tests
use aiosmtpd.Prelude.{
  ℕ, zero, suc, ◌-◌, ◌*◌, ◌≡◌, refl, Bool, true, false, ◌&&◌, ◌||◌, not, Option, none, some, List,
  [], ◌∷◌, ◌++◌, map,
}
use aiosmtpd.Prelude.Tests.{◌==◌, leb, ltb, if◌then◌else◌}
use aiosmtpd.Prelude.Lists.{length, all, is_empty}
use aiosmtpd.Prelude.Text.{Text, Bytes, Dict, codes, starts_with, get, put, remove}
use aiosmtpd.Smtp.State.{Peer, Value, AuthResult, Error}
use aiosmtpd.Smtp.Exec.{Exec, Done, pure}
use aiosmtpd.Smtp.Server.{
  Method, helo, ehlo, noop, quit, starttls, auth, help, vrfy, mail, rcpt, rset, data_method, expn,
  lmtp_lhlo, lmtp_helo, lmtp_ehlo, Hook, AuthMechanism, plain, login, EhloHook, old_style,
  new_style, Library, CallLimit, Proxying, Server,
}
use aiosmtpd.Smtp.Init.Members.{Member, auth_methods, builtin_members, handle_hooks}
use aiosmtpd.Smtp.Init.Checks.{
  Construction, made, refuses, ◌>>=◌, ehlo_hook_version, LimitGiven, call_limit, or_value,
  proxy_timeout,
}

-- `login_always_fail`
unfoldable pub login_always_fail : Text → Bytes → Bytes → Exec Bool
login_always_fail mechanism name password = pure false

-- `text or default`
unfoldable pub or_text : Option Text → Text → Text
or_text none t = t
or_text (some []) t = t
or_text (some (c ∷ cs)) t = c ∷ cs

-- The handler: its members, and the hooks that are called with other arguments than the rest.
pub record Handler : Type 0 where
  pub members : List (Text × Hook)
  pub mechanisms : List Member
  pub ehlo_parameters : Option ℕ
  pub ehlo_hook : Option (Exec Done)
  pub rset_hook : Option (Exec Done)
  pub starttls_hook : Option (Exec Bool)
  pub exception_hook : Option (Error → Exec Value)
  pub process_message : Option (Exec Value)

-- The arguments of `__init__`, the class's attributes that a subclass may set, and the peer of the
-- connection that the instance serves. `fqdn` is `socket.getfqdn()`.
pub record Arguments : Type 0 where
  pub handler : Handler
  pub library : Library
  pub methods : Dict Method
  pub fqdn : Text
  pub default_ident : Text
  pub peer : Peer
  pub data_size_limit : Option ℕ
  pub enable_smtputf8 : Bool
  pub decode_data : Bool
  pub hostname : Option Text
  pub ident : Option Text
  pub tls_context : Bool
  pub require_starttls : Bool
  pub timeout : ℕ
  pub auth_required : Bool
  pub auth_require_tls : Bool
  pub auth_exclude_mechanism : List Text
  pub auth_callback : Option (Text → Bytes → Bytes → Exec Bool)
  pub command_call_limit : LimitGiven
  pub authenticator : Option (Text → Value → Exec AuthResult)
  pub proxy : Option Proxying
  pub command_size_limit : ℕ
  pub line_length_limit : ℕ
  pub local_part_limit : ℕ

-- What the arguments say, once they have been found good. Where there is an authenticator, the
-- source leaves `_auth_callback` empty; nothing reads it then.
unfoldable pub settings : Arguments → Option Proxying → Option EhloHook → Option CallLimit → Server
settings a proxy version limit = record {
  library = a.library;
  hostname = or_text a.hostname a.fqdn;
  ident = or_text a.ident a.default_ident;
  peer = a.peer;
  data_size_limit = a.data_size_limit;
  enable_smtputf8 = a.enable_smtputf8;
  decode_data = a.decode_data;
  tls_context = a.tls_context;
  require_starttls = a.tls_context && a.require_starttls;
  timeout = a.timeout;
  auth_required = a.auth_required;
  auth_require_tls = a.auth_require_tls;
  authenticator = a.authenticator;
  auth_callback = or_value a.auth_callback login_always_fail;
  auth_methods = auth_methods builtin_members a.handler.mechanisms a.auth_exclude_mechanism;
  handle_hooks = handle_hooks a.handler.members [];
  starttls_hook = a.handler.starttls_hook;
  exception_hook = a.handler.exception_hook;
  process_message = a.handler.process_message;
  ehlo_hook_ver = version;
  ehlo_hook = a.handler.ehlo_hook;
  rset_hook = a.handler.rset_hook;
  smtp_methods = a.methods;
  command_call_limit = limit;
  command_size_limit = a.command_size_limit;
  line_length_limit = a.line_length_limit;
  local_part_limit = a.local_part_limit;
  proxy = proxy;
}

-- `__init__`
unfoldable pub create_server : Arguments → Construction Server
create_server a = do
  proxy ← proxy_timeout a.proxy
  version ← ehlo_hook_version a.handler.ehlo_parameters
  limit ← call_limit a.command_call_limit
  made (settings a proxy version limit)
