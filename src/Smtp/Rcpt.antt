-- ===== src/Smtp/Rcpt.antt =====
-- RCPT (aiosmtpd/smtp.py).
use aiosmtpd.Prelude.{Bool, ◌&&◌, not, Option, List, [], ◌∷◌, ◌++◌}
use aiosmtpd.Prelude.Tests.{is_some}
use aiosmtpd.Prelude.Lists.{is_empty}
use aiosmtpd.Prelude.Text.{Text, codes, split}
use aiosmtpd.Smtp.State.{Value, missing, str, strs, Smtp}
use aiosmtpd.Smtp.Exec.{Exec, Done, pure, gets, modify, ◌>>=◌, ◌>>◌, choose, match_option}
use aiosmtpd.Smtp.Server.{Server}
use aiosmtpd.Smtp.Wire.{push, call_handler_hook}
use aiosmtpd.Smtp.Greeting.{given, check_helo_needed, check_auth_needed}
use aiosmtpd.Smtp.Address.{strip_command_keyword, getaddr, getparams}
use aiosmtpd.Smtp.Mail.{mail_syntax}

-- What an accepted RCPT does to the envelope.
unfoldable pub add_recipient : Text → List Text → Smtp → Smtp
add_recipient address options s = record s {
  envelope = record s.envelope {
    rcpt_tos = s.envelope.rcpt_tos ++ address ∷ [];
    rcpt_options = s.envelope.rcpt_options ++ options;
  };
}

module _ (srv : Server) where
  abbrev pub reply : Text → Exec Done
  reply t = push srv (str t)

  abbrev pub rcpt_hooked : Text → List Text → Value → Exec Value
  rcpt_hooked address options missing = do
    modify (add_recipient address options)
    pure (str (codes "250 OK"))
  rcpt_hooked address options status = pure status

  -- The hook, or the new recipient.
  unfoldable pub rcpt_accept : Text → List Text → Exec Done
  unfolding add_recipient
  rcpt_accept address options = do
    hooked ← call_handler_hook srv (codes "RCPT") (str address ∷ strs options ∷ [])
    status ← rcpt_hooked address options hooked
    push srv status

  -- A parsed address with what follows it; no parameter is recognised.
  unfoldable pub rcpt_address : Text → Bool → Text → Text → Exec Done
  unfolding rcpt_accept
  rcpt_address syntaxerr extended address rest = choose (is_empty address) (reply syntaxerr) (
      choose (not extended && not (is_empty rest)) (reply syntaxerr) (
        let options = split srv.library.is_space (srv.library.upper rest) in
        match_option (getparams srv options) (reply syntaxerr) λ params.
          choose (is_empty params) (rcpt_accept address options)
            (reply (codes "555 RCPT TO parameters not recognized or not implemented"))))

  unfoldable pub rcpt_arg : Option Text → Exec Done
  unfolding rcpt_address
  rcpt_arg arg = do
    extended ← gets (λ s. s.session.extended_smtp)
    let syntaxerr = mail_syntax srv (codes "501 Syntax: RCPT TO: <address>") extended
    match_option arg (reply syntaxerr) λ text.
        match_option (strip_command_keyword srv (codes "TO:") text) (reply syntaxerr) λ addr.
          match_option (getaddr srv addr) (reply (codes "553 5.1.3 Error: malformed address"))
            (λ (address, rest). rcpt_address syntaxerr extended address rest)

  unfoldable pub smtp_rcpt : Option Text → Exec Done
  unfolding rcpt_arg given
  smtp_rcpt arg = do
    helo_needed ← check_helo_needed srv (codes "HELO")
    choose helo_needed (pure tt) do
      auth_needed ← check_auth_needed srv
      choose auth_needed (pure tt) do
        sender ← gets (λ s. given s.envelope.mail_from)
        choose (is_some sender) (rcpt_arg arg) (reply (codes "503 Error: need MAIL command"))
