-- ===== src/Smtp/Examples.antt =====
-- A server without hooks over ASCII, and a client that sends one message to it.
use aiosmtpd.Prelude.{
  ℕ, ◌+◌, ◌-◌, ◌*◌, Bool, true, false, ◌&&◌, ◌||◌, Option, none, some, List, [], ◌∷◌, ◌++◌, map,
}
use aiosmtpd.Prelude.Tests.{leb, if◌then◌else◌}
use aiosmtpd.Prelude.Text.{Text, codes, upper_ascii, is_space_byte, partition}
use aiosmtpd.Stream.{Event, received}
use aiosmtpd.Smtp.State.{inet, Smtp, live, create_session, create_envelope}
use aiosmtpd.Smtp.Exec.{pure}
use aiosmtpd.Smtp.Server.{
  Library, Server, Method, plain, login, helo, ehlo, noop, quit, starttls, auth, help, vrfy, mail,
  rcpt, rset, data_method, expn,
}

abbrev is_digit : ℕ → Bool
is_digit c = leb 48 c && leb c 57

abbrev parse_from : ℕ → Text → Option ℕ
parse_from n [] = some n
parse_from n (c ∷ t) = if is_digit c then parse_from (n * 10 + (c - 48)) t else none

-- an address in angle brackets, up to the bracket
abbrev angle : Text → Option (Text × Text)
angle [] = none
angle (c ∷ t) =
    let (address, closed, rest) = partition 62 t in if closed then some (address, rest) else none

abbrev ascii_library : Library
ascii_library = record {
  upper = map upper_ascii;
  is_alnum = λ c. is_digit c || (leb 65 c && leb c 90) || (leb 97 c && leb c 122);
  is_digit = is_digit;
  is_space = is_space_byte;
  parse_int = parse_from 0;
  decode_utf8 = λ b. b;
  encode_utf8 = λ t. some t;
  b64encode = λ b. b;
  b64decode = λ b. some b;
  get_angle_addr = angle;
  get_addr_spec = λ t. some (t, []);
  describe = λ e. codes "(Exception)";
}

abbrev methods : List (Text × Method)
methods =
    (codes "AUTH", auth)
    ∷ (codes "DATA", data_method)
    ∷ (codes "EHLO", ehlo)
    ∷ (codes "EXPN", expn)
    ∷ (codes "HELO", helo)
    ∷ (codes "HELP", help)
    ∷ (codes "MAIL", mail)
    ∷ (codes "NOOP", noop)
    ∷ (codes "QUIT", quit)
    ∷ (codes "RCPT", rcpt)
    ∷ (codes "RSET", rset)
    ∷ (codes "STARTTLS", starttls)
    ∷ (codes "VRFY", vrfy)
    ∷ []

abbrev pub server : Server
server = record {
  library = ascii_library;
  hostname = codes "mx";
  ident = codes "SMTP";
  peer = inet (codes "peer");
  data_size_limit = some 1000;
  enable_smtputf8 = false;
  decode_data = false;
  tls_context = false;
  require_starttls = false;
  timeout = 300;
  auth_required = false;
  auth_require_tls = true;
  authenticator = none;
  auth_callback = λ m l p. pure false;
  auth_methods = (codes "LOGIN", login) ∷ (codes "PLAIN", plain) ∷ [];
  handle_hooks = [];
  starttls_hook = none;
  exception_hook = none;
  process_message = none;
  ehlo_hook_ver = none;
  ehlo_hook = none;
  rset_hook = none;
  smtp_methods = methods;
  command_call_limit = none;
  command_size_limit = 512;
  line_length_limit = 1001;
  local_part_limit = 0;
  proxy = none;
}

abbrev pub connected : List Event → Smtp
connected events = record {
  session = create_session (inet (codes "peer"));
  envelope = create_envelope;
  reader = record { buffer = []; arriving = events };
  written = [];
  connection = live;
  flushing = 0;
  tls_protocol = false;
  original_transport = false;
  tls_handshake_okay = true;
  timer = some 300;
  command_size_limits = [];
}

abbrev pub nl : Text
nl = 13 ∷ 10 ∷ []

abbrev pub session : List Event
session =
    received (codes "EHLO me" ++ nl ++ codes "MAIL FROM:<a@b> SIZE=10" ++ nl)
    ∷ received (codes "RCPT TO:<c@d>" ++ nl ++ codes "DATA" ++ nl ++ codes "hi" ++ nl)
    ∷ received (codes "..x" ++ nl ++ codes "." ++ nl ++ codes "QUIT" ++ nl)
    ∷ []
