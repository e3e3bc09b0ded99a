-- ===== src/Smtp/Approval/Tests.antt =====
-- A client that logs in, by the word of a callback that accepts everyone.
use aiosmtpd.Prelude.{true, false, some, [], ◌∷◌, ◌++◌}
use aiosmtpd.Prelude.Text.{codes}
use aiosmtpd.Stream.{received}
use aiosmtpd.Smtp.State.{inet, Smtp, create_session}
use aiosmtpd.Smtp.Exec.{pure}
use aiosmtpd.Smtp.Server.{Server, plain, auth}
use aiosmtpd.Smtp.Examples.{server, connected, nl}

abbrev open_server : Server
open_server = record server {
  auth_require_tls = false;
  auth_callback = λ m l p. pure true;
  smtp_methods = (codes "AUTH", auth) ∷ [];
  auth_methods = (codes "PLAIN", plain) ∷ [];
}

-- It has greeted the server already.
abbrev client : Smtp
client = record (connected (received (codes "AUTH PLAIN " ++ 0 ∷ 97 ∷ 0 ∷ 98 ∷ [] ++ nl) ∷ [])) {
  session = record (create_session (inet (codes "peer"))) {
    host_name = some (codes "me");
    extended_smtp = true;
  };
}
