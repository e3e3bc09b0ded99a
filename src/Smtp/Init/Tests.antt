-- ===== src/Smtp/Init/Tests.antt =====
-- Servers made by `SMTP.__init__`, and lines made fit for a log, at concrete inputs.
use aiosmtpd.Prelude.{◌≡◌, refl, ◌<◌, true, false, none, some, [], ◌∷◌, ◌++◌, arith}
use aiosmtpd.Prelude.Tests.{if◌then◌else◌}
use aiosmtpd.Smtp.State.{inet}
use aiosmtpd.Prelude.Text.{Text, Bytes, codes, crlf, starts_with, get, is_space_byte}
use aiosmtpd.Prelude.Lists.{all, length}
use aiosmtpd.Smtp.Server.{Server, login, new_style}
use aiosmtpd.Smtp.Examples.{server}
use aiosmtpd.Smtp.Sanitize.{
  is_blank, is_word, auth_word, Authm, text_of, IsAuthm, StopsAt, sanitize, sanitize-hides,
}
use aiosmtpd.Smtp.Init.{Handler, Arguments, settings, create_server}
use aiosmtpd.Smtp.Init.Members.{smtp_methods, mechanism_name}
use aiosmtpd.Smtp.Init.Checks.{
  made, one_limit, limits, int, not_int, refuses, type_error, call_limit, proxy_timeout,
  ehlo_hook_version,
}
use aiosmtpd.Smtp.Init.Mechanisms.{offered, create_server-mechanisms}

abbrev handler : Handler
handler = record {
  members = [];
  mechanisms = record { name = codes "auth_PLAIN"; given = none; mechanism = login } ∷ [];
  ehlo_parameters = some 5;
  ehlo_hook = none;
  rset_hook = none;
  starttls_hook = none;
  exception_hook = none;
  process_message = none;
}

abbrev arguments : Arguments
arguments = record {
  handler = handler;
  library = server.library;
  methods = smtp_methods;
  fqdn = codes "mx";
  default_ident = codes "SMTP";
  peer = inet (codes "peer");
  data_size_limit = some 1000;
  enable_smtputf8 = false;
  decode_data = false;
  hostname = none;
  ident = none;
  tls_context = false;
  require_starttls = true;
  timeout = 300;
  auth_required = false;
  auth_require_tls = true;
  auth_exclude_mechanism = codes "LOGIN" ∷ [];
  auth_callback = none;
  command_call_limit = one_limit 10;
  authenticator = none;
  proxy = none;
  command_size_limit = 512;
  line_length_limit = 1001;
  local_part_limit = 0;
}

abbrev made_server : Server
made_server = settings arguments none (some new_style) (some (record { base = []; default = 10 }))

is_made : create_server arguments ≡ made made_server
unfolding create_server proxy_timeout ehlo_hook_version call_limit
is_made = refl

create_server-mechanisms_example :
    ((k : Text) → get k made_server.auth_methods ≡ offered arguments k)
    × (made_server.require_starttls ≡ true → made_server.tls_context ≡ true)
unfolding settings
create_server-mechanisms_example = create_server-mechanisms arguments made_server is_made

-- A double underscore stands for a dash.
dashed : mechanism_name none (codes "auth_CRAM__MD5") ≡ codes "CRAM-MD5"
unfolding mechanism_name codes
dashed = refl

mixed_limits :
    call_limit (limits ((codes "NOOP", int 3) ∷ (codes "*", not_int) ∷ []))
    ≡ refuses (type_error (codes "All command_call_limit values must be int"))
unfolding call_limit
mixed_limits = refl

abbrev authm : Authm
authm = record {
  before = [];
  word = codes "auth";
  spaces = codes " ";
  mechanism = codes "PLAIN";
  blanks = codes " ";
}

authm-IsAuthm : IsAuthm authm
unfolding codes is_blank is_word is_space_byte auth_word
authm-IsAuthm = record {
  before = refl;
  word = refl;
  spaces = (refl, omega arith);
  mechanism = (refl, omega arith);
  blanks = (refl, omega arith);
}

abbrev secret : Bytes
secret = codes "AGEAYg=="

secret_word : all is_word secret ≡ true
unfolding codes is_word
secret_word = refl

secret_there : 0 < length secret
unfolding codes
secret_there = omega arith

end-StopsAt : StopsAt is_word crlf
unfolding is_word
end-StopsAt = refl

sanitize-hides_example :
    sanitize (text_of authm ++ (secret ++ crlf))
    ≡ text_of authm ++ (codes "********" ++ (if starts_with crlf crlf then crlf else []))
sanitize-hides_example =
    sanitize-hides authm secret crlf authm-IsAuthm secret_word secret_there end-StopsAt
