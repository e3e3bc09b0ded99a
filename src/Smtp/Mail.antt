-- ===== src/Smtp/Mail.antt =====
-- MAIL (aiosmtpd/smtp.py).
use aiosmtpd.Prelude.{Bool, true, false, ◌&&◌, not, Option, none, some, List, [], ◌∷◌, ◌++◌}
use aiosmtpd.Prelude.Tests.{ltb, is_some, if◌then◌else◌}
use aiosmtpd.Prelude.Lists.{is_empty, all}
use aiosmtpd.Prelude.Text.{Text, codes, contains, get, remove, split, Dict}
use aiosmtpd.Smtp.State.{Value, missing, str, strs, Smtp, value_error}
use aiosmtpd.Smtp.Exec.{Exec, Done, pure, raise, gets, modify, ◌>>=◌, ◌>>◌, choose, match_option}
use aiosmtpd.Smtp.Server.{Server}
use aiosmtpd.Smtp.Wire.{push, call_handler_hook}
use aiosmtpd.Smtp.Greeting.{given, limit_of, check_helo_needed, check_auth_needed}
use aiosmtpd.Smtp.Address.{Param, flag, text_value, strip_command_keyword, getaddr, getparams}

unfoldable pub set_smtp_utf8 : Bool → Smtp → Smtp
set_smtp_utf8 b s = record s { envelope = record s.envelope { smtp_utf8 = b } }

-- What an accepted MAIL does to the envelope.
unfoldable pub set_sender : Text → List Text → Smtp → Smtp
set_sender address options s = record s {
  envelope = record s.envelope {
    mail_from = some address;
    mail_options = s.envelope.mail_options ++ options;
  };
}

-- `body not in ['7BIT', '8BITMIME']`, negated; a missing BODY is `7BIT`
unfoldable pub body_allowed : Option Param → Bool
body_allowed none = true
body_allowed (some flag) = false
body_allowed (some (text_value t)) = contains (codes "7BIT" ∷ codes "8BITMIME" ∷ []) t

module _ (srv : Server) where
  abbrev pub reply : Text → Exec Done
  reply t = push srv (str t)

  unfoldable pub mail_syntax : Text → Bool → Text
  mail_syntax text extended = text ++ (if extended then codes " [SP <mail-parameters>]" else [])

  abbrev pub mail_hooked : Text → List Text → Value → Exec Value
  mail_hooked address options missing = do
    modify (set_sender address options)
    pure (str (codes "250 OK"))
  mail_hooked address options status = pure status

  -- The hook, or the new sender.
  unfoldable pub mail_accept : Text → List Text → Exec Done
  unfolding set_sender
  mail_accept address options = do
    hooked ← call_handler_hook srv (codes "MAIL") (str address ∷ strs options ∷ [])
    status ← mail_hooked address options hooked
    push srv status

  -- the check that no parameter is left, after SIZE
  abbrev pub mail_rest : Text → List Text → Dict Param → Exec Done
  mail_rest address options params =
      choose (is_empty params) (mail_accept address options)
        (reply (codes "555 MAIL FROM parameters not recognized or not implemented"))

  -- The parameter SIZE: `True` and what has no digits only are malformed.
  unfoldable pub mail_size : Text → Text → List Text → Dict Param → Option Param → Exec Done
  unfolding mail_accept limit_of
  mail_size syntaxerr address options params none = mail_rest address options params
  mail_size syntaxerr address options params (some flag) = reply syntaxerr
  mail_size syntaxerr address options params (some (text_value size)) =
      choose (is_empty size) (mail_rest address options params) (
        choose (not (all srv.library.is_digit size)) (reply syntaxerr) (
          match_option (limit_of srv.data_size_limit) (mail_rest address options params) λ limit.
            match_option (srv.library.parse_int size) (raise value_error) λ n.
              choose (ltb limit n)
                (reply (codes "552 Error: message size exceeds fixed maximum message size"))
                (mail_rest address options params)))

  abbrev mail_utf8_value : Bool → Text → Text → List Text → Dict Param → Exec Done
  mail_utf8_value smtputf8 syntaxerr address options params =
      choose (smtputf8 && not srv.enable_smtputf8) (reply (codes "501 Error: SMTPUTF8 disabled"))
        (do
          modify (set_smtp_utf8 smtputf8)
          mail_size syntaxerr address options (remove (codes "SIZE") params)
              (get (codes "SIZE") params))

  -- The parameter SMTPUTF8, which takes no value.
  unfoldable pub mail_utf8 : Text → Text → List Text → Dict Param → Option Param → Exec Done
  unfolding mail_size set_smtp_utf8
  mail_utf8 syntaxerr address options params none =
      mail_utf8_value false syntaxerr address options params
  mail_utf8 syntaxerr address options params (some flag) =
      mail_utf8_value true syntaxerr address options params
  mail_utf8 syntaxerr address options params (some (text_value t)) =
      reply (codes "501 Error: SMTPUTF8 takes no arguments")

  abbrev mail_utf8_in : Text → Text → List Text → Dict Param → Exec Done
  mail_utf8_in syntaxerr address options params =
      mail_utf8 syntaxerr address options (remove (codes "SMTPUTF8") params)
        (get (codes "SMTPUTF8") params)

  -- The parameter BODY, which a server that decodes its data leaves among the unknown ones.
  unfoldable pub mail_params : Text → Text → List Text → Dict Param → Exec Done
  unfolding mail_utf8 body_allowed
  mail_params syntaxerr address options params =
      choose srv.decode_data (mail_utf8_in syntaxerr address options params) (
        choose (body_allowed (get (codes "BODY") params))
          (mail_utf8_in syntaxerr address options (remove (codes "BODY") params))
          (reply (codes "501 Error: BODY can only be one of 7BIT, 8BITMIME")))

  -- A parsed address with what follows it; no second MAIL in one transaction.
  unfoldable pub mail_address : Text → Bool → Text → Text → Exec Done
  unfolding mail_params given
  mail_address syntaxerr extended address rest = choose (is_empty address) (reply syntaxerr) (
      choose (not extended && not (is_empty rest)) (reply syntaxerr) do
        sender ← gets (λ s. given s.envelope.mail_from)
        choose (is_some sender) (reply (codes "503 Error: nested MAIL command")) (
            let options = split srv.library.is_space (srv.library.upper rest) in
            match_option (getparams srv options) (reply syntaxerr)
              (mail_params syntaxerr address options)))

  unfoldable pub mail_arg : Option Text → Exec Done
  unfolding mail_address mail_syntax
  mail_arg arg = do
    extended ← gets (λ s. s.session.extended_smtp)
    let syntaxerr = mail_syntax (codes "501 Syntax: MAIL FROM: <address>") extended
    match_option arg (reply syntaxerr) λ text.
        match_option (strip_command_keyword srv (codes "FROM:") text) (reply syntaxerr) λ addr.
          match_option (getaddr srv addr) (reply (codes "553 5.1.3 Error: malformed address"))
            (λ (address, rest). mail_address syntaxerr extended address rest)

  unfoldable pub smtp_mail : Option Text → Exec Done
  unfolding mail_arg
  smtp_mail arg = do
    helo_needed ← check_helo_needed srv (codes "HELO")
    choose helo_needed (pure tt)
        do auth_needed ← check_auth_needed srv; choose auth_needed (pure tt) (mail_arg arg)
