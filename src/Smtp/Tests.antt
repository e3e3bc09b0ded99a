-- ===== src/Smtp/Tests.antt =====
-- Runs of the server of Smtp/Examples, and the theorems at concrete inputs.
use aiosmtpd.Prelude.{
  ◌+◌, ◌*◌, ◌≤◌, ◌≡◌, refl, ◌≢◌, true, false, none, some, List, [], ◌∷◌, ◌++◌, arith,
}
use aiosmtpd.Prelude.Lists.{length}
use aiosmtpd.Prelude.Text.{
  Text, Bytes, codes, get, text_eq, find, is_ascii, rstrip, partition, upper_ascii, strip,
  is_space_byte, contains,
}
use aiosmtpd.Stream.{Reader, received, read_until, line}
use aiosmtpd.Stream.Chunks.{Holds, read_until-line}
use aiosmtpd.Smtp.State.{Smtp, err, out_of_fuel}
use aiosmtpd.Smtp.Exec.{◌>>=◌}
use aiosmtpd.Smtp.Exec.Moves.{Law, Moves-pure}
use aiosmtpd.Smtp.Server.{Server, ehlo, Hook}
use aiosmtpd.Smtp.Wire.{push, encode, or_default, call_handler_hook}
use aiosmtpd.Smtp.State.{create_envelope, create_session}
use aiosmtpd.Smtp.Greeting.{given}
use aiosmtpd.Smtp.Basic.{smtp_quit}
use aiosmtpd.Smtp.Data.Delivery.{hand_on, invited, smtp_data-wire}
use aiosmtpd.Smtp.Data.{receive_message, data_accept}
use aiosmtpd.Smtp.Exec.{handle}
use aiosmtpd.Smtp.Wire.{readuntil, set_post_data_state}
use aiosmtpd.Prelude.Text.{ends_with}
use aiosmtpd.Smtp.Data.Fresh.{receive_message-fresh}
use aiosmtpd.Proxy.V2.{get_proxy}
use aiosmtpd.Proxy.Reading.{readexactly}
use aiosmtpd.Proxy.Data.{valid}
use aiosmtpd.Smtp.Connection.{handle_client}
use aiosmtpd.Smtp.Connection.Refusing.{Refused, handle_client-Refused}
use aiosmtpd.Smtp.Verdicts.{bare, command_of, IsAllowed, judge-call, calls, calls-bound}
use aiosmtpd.Smtp.Limits.{greet, mail_limit, room, greet-limit}
use aiosmtpd.Smtp.Data.{smtp_data, receive, is_over}
use aiosmtpd.Smtp.Judge.{judge, limit_for, goodbye}
use aiosmtpd.Smtp.Client.{serve, client_loop, first_budget, act}
use aiosmtpd.Smtp.Steps.{Hooks}
use aiosmtpd.Smtp.Closing.{closing_law, SendsWithin, quit_is_final, goodbye_is_final}
use aiosmtpd.Smtp.Ordering.{ordered_law, IsOrdered}
use aiosmtpd.Smtp.Ordering.Gates.{serve-IsOrdered}
use aiosmtpd.Smtp.Ending.Loops.{pending_law}
use aiosmtpd.Smtp.Ending.Serve.{serve-ends}
use aiosmtpd.Smtp.Examples.{server, connected, session, nl}

-- A server without hooks follows any law.
no-Hooks : (L : Law) → Hooks L server
unfolding get
no-Hooks L = record {
  hook = λ k h e args. cc;
  starttls = λ h e. cc;
  exception = λ h e x. cc;
  process = λ h e. cc;
  ehlo = λ h e. cc;
  rset = λ h e. cc;
  authenticator = λ h e m v. cc;
  auth_callback = λ m l p. Moves-pure false;
  mechanism = λ k h e args. ground arith;
}

-- A client that does not read: the transport takes two more replies when it is being closed.
abbrev after_quit : Smtp
after_quit = record (connected (received (codes "NOOP" ++ nl) ∷ [])) { flushing = 2 }

quit_is_final_example :
    let t = (smtp_quit server none after_quit).1 in
    SendsWithin t (client_loop server 9 (first_budget server) t).1
unfolding smtp_quit push encode ◌>>=◌ call_handler_hook get or_default is_ascii codes
quit_is_final_example = quit_is_final (no-Hooks closing_law) 9 (first_budget server) after_quit refl

goodbye_is_final_example :
    let t = (act server (goodbye (codes "502 bye")) after_quit).1 in
    SendsWithin t (client_loop server 9 (first_budget server) t).1
unfolding act push encode ◌>>=◌ is_ascii codes
goodbye_is_final_example =
    goodbye_is_final (no-Hooks closing_law) 9 (first_budget server) after_quit (codes "502 bye")
      refl

no_hook : (k : Text) (h : Hook) → get k server.handle_hooks ≡ some h → ⊥
unfolding get
no_hook k h e = cc

serve-IsOrdered_example : IsOrdered server (serve server (connected session)).1
unfolding given create_envelope
serve-IsOrdered_example =
    serve-IsOrdered (λ k h e args s. absurd (no_hook k h e)) (no-Hooks (ordered_law server))
      (connected session)
      (record { behind_sender = λ h. cc; behind_greeting = λ h. cc; behind_auth = λ h. cc })

serve-ends_example : (serve server (connected session)).0 ≢ err out_of_fuel
serve-ends_example = serve-ends (no-Hooks pending_law) (connected session)

read_until-line_example :
    (r : Reader) × (read_until 80
        (13 ∷ 10 ∷ [])
        (codes "NO")
        (received (codes "OP" ++ 13 ∷ []) ∷ received (10 ∷ codes "QUIT") ∷ [])
      ≡ line (codes "NOOP" ++ 13 ∷ 10 ∷ []) r)
    × Holds r (codes "QUIT")
unfolding find codes
read_until-line_example =
    read_until-line (codes "NOOP") (codes "QUIT") refl 80 (codes "NO")
      (received (codes "OP" ++ 13 ∷ []) ∷ received (10 ∷ codes "QUIT") ∷ []) (omega arith) tt refl

-- Two lines, one of which starts with a dot, in chunks that part a CR from its LF.
abbrev two_lines : List Bytes
two_lines = codes "hi" ∷ codes ".x" ∷ []

abbrev sending : Smtp
sending = connected (
    received (codes "hi" ++ 13 ∷ [])
    ∷ received (10 ∷ codes "..x" ++ nl)
    ∷ received (codes "." ++ nl)
    ∷ [])

-- A client that is greeted and has named a recipient.
abbrev may_send : Smtp
may_send = record sending {
  session = record sending.session { host_name = some (codes "me") };
  envelope = record sending.envelope { rcpt_tos = codes "c@d" ∷ [] };
}

smtp_data-wire_example :
    (r : Reader) × (smtp_data server none may_send
      ≡ hand_on server two_lines
          (invited server (codes "354 End data with <CR><LF>.<CR><LF>") r may_send))
    × Holds r []
unfolding find is_over codes given encode is_ascii create_session
smtp_data-wire_example =
    smtp_data-wire server two_lines [] (codes "354 End data with <CR><LF>.<CR><LF>") may_send refl
      (omega arith) refl
      (record { name = codes "me"; greeted = refl; authenticated = refl; recipients = refl })
      (refl, omega arith, (refl, omega arith, tt)) refl
      (record { is_live = refl; holds = record { plain = tt; content = refl } })

-- A server that wants STARTTLS first, at most twice a command.
abbrev strict : Server
strict = record server {
  require_starttls = true;
  command_call_limit = some (record { base = []; default = 2 });
}

judge-call_example :
    (is_ascii (command_of (codes "ehlo me" ++ nl)) ≡ true)
    × IsAllowed strict
        (connected [])
        (length (bare (codes "ehlo me" ++ nl)))
        (command_of (codes "ehlo me" ++ nl))
        ehlo
unfolding judge rstrip codes is_ascii partition upper_ascii strip is_space_byte create_session
    contains text_eq get first_budget
judge-call_example =
    judge-call strict (connected []) (first_budget strict) (codes "ehlo me" ++ nl) ehlo
      (some (codes "me")) refl

calls-bound_example :
    calls strict (codes "NOOP") (first_budget strict) (
      (connected [], codes "NOOP")
      ∷ (connected [], codes "noop")
      ∷ (connected [], codes "NOOP")
      ∷ [])
    ≤ limit_for strict (record { base = []; default = 2 }) (first_budget strict) (codes "NOOP")
calls-bound_example =
    calls-bound strict (record { base = []; default = 2 }) refl (codes "NOOP") (first_budget strict)
      ((connected [], codes "NOOP")
        ∷ (connected [], codes "noop")
        ∷ (connected [], codes "NOOP")
        ∷ [])

greet-limit_example :
    mail_limit server (greet server 109 (codes "e") refl refl 3 (connected []))
    ≡ mail_limit server (connected []) + 3 * room server
greet-limit_example = greet-limit server 109 (codes "e") refl refl 3 (connected [])

-- An empty message, and a client that sends no more.
abbrev lone : Smtp
lone = connected (received (codes "." ++ nl) ∷ [])

receive_message-fresh_example : (receive_message server lone).1.envelope ≡ create_envelope
unfolding receive codes ◌>>=◌ push is_ascii handle readuntil read_until find ends_with text_eq
    data_accept get or_default set_post_data_state
receive_message-fresh_example = receive_message-fresh server refl lone refl

-- A server behind a proxy, and a client that comes without one.
abbrev behind : Server
behind = record server {
  proxy = some (record { timeout = 5; ip_address = λ t. none; describe = λ e. [] });
}

abbrev direct : Smtp
direct = connected (received (codes "EHLO me" ++ nl) ∷ [])

handle_client-Refused_example : Refused direct (handle_client behind direct)
unfolding get_proxy codes readexactly text_eq valid
handle_client-Refused_example =
    handle_client-Refused behind
      (record { timeout = 5; ip_address = λ t. none; describe = λ e. [] }) direct refl refl
