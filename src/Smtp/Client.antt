-- ===== src/Smtp/Client.antt =====
-- `_handle_client`: one command line after another (aiosmtpd/smtp.py), with the methods of LMTP
-- (aiosmtpd/lmtp.py) beside those of SMTP.
use aiosmtpd.Prelude.{ℕ, zero, suc, Bool, true, false, Option, none, some, [], ◌∷◌, ◌++◌}
use aiosmtpd.Prelude.Tests.{if◌then◌else◌}
use aiosmtpd.Prelude.Text.{Text, Bytes, codes}
use aiosmtpd.Smtp.State.{
  Value, none_value, str, Smtp, Connection, live, closing, lost, Error, cancelled, connection_reset,
  tls_setup, limit_overrun, out_of_fuel, Result, ok, err,
}
use aiosmtpd.Smtp.Exec.{Exec, Done, pure, raise, modify, ◌>>=◌, ◌>>◌, handle, choose, match_option}
use aiosmtpd.Smtp.Server.{
  Server, Method, helo, ehlo, noop, quit, starttls, auth, help, vrfy, mail, rcpt, rset, data_method,
  expn, lmtp_lhlo, lmtp_helo, lmtp_ehlo,
}
use aiosmtpd.Smtp.Wire.{push, read, readuntil, reset_timeout, close_transport, connection_lost}
use aiosmtpd.Smtp.Greeting.{smtp_helo, smtp_ehlo}
use aiosmtpd.Smtp.Basic.{
  smtp_noop, smtp_quit, smtp_starttls, smtp_help, smtp_vrfy, smtp_rset, smtp_expn,
}
use aiosmtpd.Smtp.Auth.{smtp_auth}
use aiosmtpd.Smtp.Mail.{smtp_mail}
use aiosmtpd.Smtp.Rcpt.{smtp_rcpt}
use aiosmtpd.Smtp.Data.{smtp_data, pending}
use aiosmtpd.Smtp.Judge.{Budget, Verdict, answer, goodbye, call, bogus_limit, judge}

-- `self.transport is None`
unfoldable pub is_lost : Connection → Bool
is_lost live = false
is_lost closing = false
is_lost lost = true

module _ (srv : Server) where
  -- The method of the class that serves a command.
  unfoldable pub run_method : Method → Option Text → Exec Done
  run_method helo arg = smtp_helo srv arg
  run_method ehlo arg = smtp_ehlo srv arg
  run_method noop arg = smtp_noop srv arg
  run_method quit arg = smtp_quit srv arg
  run_method starttls arg = smtp_starttls srv arg
  run_method auth arg = smtp_auth srv arg
  run_method help arg = smtp_help srv arg
  run_method vrfy arg = smtp_vrfy srv arg
  run_method mail arg = smtp_mail srv arg
  run_method rcpt arg = smtp_rcpt srv arg
  run_method rset arg = smtp_rset srv arg
  run_method data_method arg = smtp_data srv arg
  run_method expn arg = smtp_expn srv arg
  run_method lmtp_lhlo arg = smtp_ehlo srv arg
  run_method lmtp_helo arg = push srv (str (codes "500 Error: command \"HELO\" not recognized"))
  run_method lmtp_ehlo arg = push srv (str (codes "500 Error: command \"EHLO\" not recognized"))

  unfoldable pub act : Verdict → Exec Done
  unfolding run_method
  act (answer t) = push srv (str t)
  act (goodbye t) = do push srv (str t); modify close_transport
  act (call m arg) = do modify (reset_timeout srv.timeout); run_method m arg

  -- the rest of a line that is too long, and the reply
  abbrev pub skip_overrun : Exec Done → Error → Exec Done
  skip_overrun again (limit_overrun consumed) = do dropped ← read consumed; again
  skip_overrun again e = raise e

  unfoldable pub skip_line : ℕ → Exec Done
  skip_line zero = raise out_of_fuel
  skip_line (suc fuel) =
      handle (do line ← readuntil srv (10 ∷ []); pure tt) (skip_overrun (skip_line fuel))

  unfoldable pub skip : Exec Done
  unfolding skip_line
  skip s = skip_line (suc (pending s)) s

  abbrev pub refuse_line : Exec (Option Bytes)
  refuse_line = do skip; push srv (str (codes "500 Command line too long")); pure none

  abbrev pub on_long_line : Error → Exec (Option Bytes)
  on_long_line (limit_overrun consumed) = do dropped ← read consumed; refuse_line
  on_long_line e = raise e

  -- A line, or `none` where it was too long and has been answered.
  unfoldable pub read_command : Exec (Option Bytes)
  unfolding skip
  read_command = handle (do line ← readuntil srv (10 ∷ []); pure (some line)) on_long_line

  -- `handle_exception`
  unfoldable pub handle_exception : Error → Exec Value
  handle_exception e =
      match_option srv.exception_hook (pure (str (codes "500 Error: " ++ srv.library.describe e)))
        (λ hook. hook e)

  -- An exception in `handle_exception`: a cancellation goes on behind the `finally` block.
  abbrev pub describe_inner : Error → Exec (Value × Bool)
  describe_inner cancelled = pure (none_value, true)
  describe_inner e = pure (str (codes "500 Error: " ++ srv.library.describe e), false)

  -- the `finally` block
  abbrev pub finish : Error → Value → Exec Done
  finish tls_setup status = do modify close_transport; modify connection_lost
  finish e status = push srv status

  abbrev pub report : Error → Exec Done
  report e = do
    (status, stopped) ← handle (do status ← handle_exception e; pure (status, false)) describe_inner
    finish e status
    choose stopped (raise cancelled) (pure tt)

  unfoldable pub on_error : Error → Exec Done
  unfolding handle_exception
  on_error cancelled = do modify close_transport; raise cancelled
  on_error out_of_fuel = raise out_of_fuel
  on_error connection_reset = do modify close_transport; raise connection_reset
  on_error e = report e

  abbrev pub obey : Budget → Option Bytes → Smtp → Budget × Result Done × Smtp
  obey b none s = (b, ok tt, s)
  obey b (some line) s =
      let (b', verdict) = judge srv s b line in let (r, s') = act verdict s in (b', r, s')

  abbrev pub guarded : Budget × Result Done × Smtp → Budget × Result Done × Smtp
  guarded (b, ok _, s) = (b, ok tt, s)
  guarded (b, err e, s) = let (r, s') = on_error e s in (b, r, s')

  abbrev pub obeyed : Budget → Result (Option Bytes) × Smtp → Budget × Result Done × Smtp
  obeyed b (ok line, s) = obey b line s
  obeyed b (err e, s) = (b, err e, s)

  -- One turn of the loop: what is left of the budgets, and how the turn ended.
  unfoldable pub client_round : Budget → Smtp → Budget × Result Done × Smtp
  unfolding read_command judge act on_error
  client_round b s = guarded (obeyed b (read_command s))

  abbrev pub ended : Budget × Result Done × Smtp → (Budget → Exec Done) → Result Done × Smtp
  ended (b, ok _, s) again = again b s
  ended (b, err e, s) again = (err e, s)

  -- `while self.transport is not None`
  unfoldable pub client_loop : ℕ → Budget → Exec Done
  client_loop zero b s = (err out_of_fuel, s)
  client_loop (suc fuel) b s =
      let next = ended (client_round b s) (client_loop fuel) in
      if is_lost s.connection then (ok tt, s) else next

  -- the budgets of a new connection
  unfoldable pub first_budget : Budget
  first_budget = record {
    call_limit = elim srv.command_call_limit [ none ↦ [] | some limits ↦ limits.base ];
    bogus_budget = bogus_limit;
  }

  -- `_handle_client` from the greeting on
  unfoldable pub serve : Exec Done
  unfolding client_loop first_budget client_round
  serve = do
    push srv (str (codes "220 " ++ srv.hostname ++ codes " " ++ srv.ident))
    (λ s. client_loop (suc (pending s)) first_budget s)
