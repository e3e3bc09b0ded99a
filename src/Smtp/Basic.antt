-- ===== src/Smtp/Basic.antt =====
-- NOOP, QUIT, STARTTLS, HELP, VRFY, RSET and EXPN (aiosmtpd/smtp.py).
use aiosmtpd.Prelude.{ℕ, Bool, true, false, Option, none, some, List, [], ◌∷◌, ◌++◌}
use aiosmtpd.Prelude.Tests.{if◌then◌else◌}
use aiosmtpd.Prelude.Text.{Text, codes, get, sorted, join, Dict}
use aiosmtpd.Stream.{Event, received, timed_out, handshake, eof}
use aiosmtpd.Smtp.State.{
  Peer, str, Smtp, live, closing, lost, create_session, cancelled, tls_setup, Result, ok, err,
}
use aiosmtpd.Smtp.Exec.{Exec, Done, pure, gets, modify, ◌>>=◌, ◌>>◌, choose, match_option}
use aiosmtpd.Smtp.Server.{
  Server, Method, helo, ehlo, noop, quit, starttls, auth, help, vrfy, mail, rcpt, rset, data_method,
  expn, lmtp_lhlo, lmtp_helo, lmtp_ehlo,
}
use aiosmtpd.Smtp.Wire.{
  push, call_handler_hook, close_transport, set_rset_state, reset_timeout, or_default,
}
use aiosmtpd.Smtp.Greeting.{given, check_auth_needed}
use aiosmtpd.Smtp.Address.{getaddr}

unfoldable pub set_tls_protocol : Smtp → Smtp
set_tls_protocol s = record s { tls_protocol = true; original_transport = true }

unfoldable pub set_handshake_okay : Bool → Smtp → Smtp
set_handshake_okay b s = record s { tls_handshake_okay = b }

-- How the wait for the handshake ends, with the events that are left. Bytes that arrive belong to
-- the handshake.
abbrev pub await_handshake : List Event → Result Done × List Event
await_handshake [] = (err cancelled, [])
await_handshake (received b ∷ events) = await_handshake events
await_handshake (timed_out ∷ events) = (err cancelled, events)
await_handshake (handshake true ∷ events) = (ok tt, events)
await_handshake (handshake false ∷ events) = (err tls_setup, events)
await_handshake (eof ∷ events) = (err cancelled, events)

abbrev pub settle : Result Done × List Event → Smtp → Result Done × Smtp
settle (ok _, events) s = (ok tt, record s { reader = record s.reader { arriving = events } })
settle (err tls_setup, events) s =
    (err tls_setup, record s { reader = record s.reader { arriving = events } })
settle (err e, events) s = (
  err e,
  record s { reader = record s.reader { arriving = events }; connection = lost; timer = none },
)

-- `await waiter`
unfoldable pub wait_for_tls : Exec Done
wait_for_tls s = elim s.connection [
  | live ↦ settle (await_handshake s.reader.arriving) s
  | closing ↦ settle (err cancelled, []) s
  | lost ↦ settle (err cancelled, []) s
]

-- What `connection_made` does before it asks the STARTTLS hook: the session and the envelope are
-- new, and what was received before the handshake is dropped.
unfoldable pub restart_over_tls : Peer → ℕ → Smtp → Smtp
unfolding create_session set_rset_state reset_timeout
restart_over_tls peer duration s =
    let t = reset_timeout duration (set_rset_state s) in
    record t {
      session = record (create_session peer) { ssl = true };
      reader = record t.reader { buffer = [] };
    }

-- The help texts that `@syntax` attaches: the text, the text for ESMTP, and whether the command is
-- there only with a TLS context.
pub record Syntax : Type 0 where
  pub text : Text
  pub extended : Text
  pub when_tls : Bool

abbrev pub plain_syntax : Text → Option Syntax
plain_syntax t = some (record { text = t; extended = []; when_tls = false })

unfoldable pub smtp_syntax : Method → Option Syntax
smtp_syntax helo = plain_syntax (codes "HELO hostname")
smtp_syntax ehlo = plain_syntax (codes "EHLO hostname")
smtp_syntax noop = plain_syntax (codes "NOOP [ignored]")
smtp_syntax quit = plain_syntax (codes "QUIT")
smtp_syntax starttls = some (record { text = codes "STARTTLS"; extended = []; when_tls = true })
smtp_syntax auth = plain_syntax (codes "AUTH <mechanism>")
smtp_syntax help = plain_syntax (codes "HELP [command]")
smtp_syntax vrfy = plain_syntax (codes "VRFY <address>")
smtp_syntax mail = some (record {
  text = codes "MAIL FROM: <address>";
  extended = codes " [SP <mail-parameters>]";
  when_tls = false;
})
smtp_syntax rcpt = some (record {
  text = codes "RCPT TO: <address>";
  extended = codes " [SP <mail-parameters>]";
  when_tls = false;
})
smtp_syntax rset = plain_syntax (codes "RSET")
smtp_syntax data_method = plain_syntax (codes "DATA")
smtp_syntax expn = none
smtp_syntax lmtp_lhlo = plain_syntax (codes "LHLO hostname")
smtp_syntax lmtp_helo = none
smtp_syntax lmtp_ehlo = none

module _ (srv : Server) where
  unfoldable pub smtp_noop : Option Text → Exec Done
  smtp_noop arg = do
    status ← call_handler_hook srv (codes "NOOP") (elim arg [ none ↦ [] | some t ↦ str t ∷ [] ])
    push srv (or_default status (codes "250 OK"))

  unfoldable pub smtp_quit : Option Text → Exec Done
  unfolding given
  smtp_quit arg =
      match_option (given arg)
        (do
          status ← call_handler_hook srv (codes "QUIT") []
          push srv (or_default status (codes "221 Bye"))
          modify close_transport)
        (λ _. push srv (str (codes "501 Syntax: QUIT")))

  -- `connection_made` on the TLS transport
  unfoldable pub connection_made_tls : Exec Done
  unfolding restart_over_tls set_handshake_okay
  connection_made_tls = do
    modify (restart_over_tls srv.peer srv.timeout)
    okay ← match_option srv.starttls_hook (pure true) (λ hook. hook)
    modify (set_handshake_okay okay)

  -- the reply, the new protocol, the wait for the handshake, eof, and what it leads to
  abbrev pub start_tls : Exec Done
  start_tls = do
    push srv (str (codes "220 Ready to start TLS"))
    modify set_tls_protocol
    wait_for_tls
    connection_made_tls

  unfoldable pub smtp_starttls : Option Text → Exec Done
  unfolding given set_tls_protocol wait_for_tls connection_made_tls
  smtp_starttls arg =
      match_option (given arg)
        (choose srv.tls_context start_tls (push srv (str (codes "454 TLS not available"))))
        (λ _. push srv (str (codes "501 Syntax: STARTTLS")))

  unfoldable pub syntax_available : Method → Bool
  unfolding smtp_syntax
  syntax_available m = elim (smtp_syntax m) [
    | none ↦ false
    | some x ↦ if x.when_tls then srv.tls_context else true
  ]

  -- the names of the commands that HELP lists
  unfoldable pub available : Dict Method → List Text
  unfolding syntax_available
  available [] = []
  available ((name, m) ∷ rest) =
      if syntax_available m then name ∷ available rest else available rest

  abbrev pub help_list : Text → Exec Done
  help_list code = push srv (
      str (
        code
        ++ codes " Supported commands: "
        ++ join (32 ∷ []) (sorted (available srv.smtp_methods))))

  abbrev pub help_text : Bool → Method → Text
  help_text extended m = elim (smtp_syntax m) [
    | none ↦ []
    | some x ↦ x.text ++ (if extended then x.extended else [])
  ]

  abbrev pub help_for : Text → Method → Exec Done
  help_for name m =
      choose (syntax_available m)
        (do
          extended ← gets (λ s. s.session.extended_smtp)
          push srv (str (codes "250 Syntax: " ++ help_text extended m)))
        (help_list (codes "501"))

  unfoldable pub smtp_help : Option Text → Exec Done
  unfolding given available
  smtp_help arg = do
    needed ← check_auth_needed srv
    choose needed (pure tt) (
        match_option (given arg) (help_list (codes "250")) λ name.
          match_option (get (srv.library.upper name) srv.smtp_methods) (help_list (codes "501"))
            (help_for name))

  unfoldable pub smtp_vrfy : Option Text → Exec Done
  unfolding given
  smtp_vrfy arg = do
    needed ← check_auth_needed srv
    choose needed (pure tt) (
        match_option (given arg) (push srv (str (codes "501 Syntax: VRFY <address>"))) λ text.
          match_option (getaddr srv text) (push srv (str (codes "502 Could not VRFY " ++ text)))
            λ (address, params). do
              status ← call_handler_hook srv (codes "VRFY") (str address ∷ [])
              push srv (
                  or_default status
                    (codes "252 Cannot VRFY user, but will accept message and attempt delivery")))

  unfoldable pub smtp_rset : Option Text → Exec Done
  unfolding given
  smtp_rset arg =
      match_option (given arg)
        (do
          modify set_rset_state
          match_option srv.rset_hook (pure tt) (λ hook. hook)
          status ← call_handler_hook srv (codes "RSET") []
          push srv (or_default status (codes "250 OK")))
        (λ _. push srv (str (codes "501 Syntax: RSET")))

  unfoldable pub smtp_expn : Option Text → Exec Done
  smtp_expn arg = push srv (str (codes "502 EXPN not implemented"))
