-- ===== src/Smtp/Steps/Client.antt =====
-- The loop over the commands follows a law, if MAIL and RCPT do.
use aiosmtpd.Prelude.{ℕ, zero, suc, Bool, true, false, Option, none, some, []}
use aiosmtpd.Prelude.Tests.{if◌then◌else◌}
use aiosmtpd.Prelude.Text.{Text, Bytes}
use aiosmtpd.Smtp.State.{
  Smtp, Value, Error, cancelled, connection_reset, tls_setup, limit_overrun, out_of_fuel, Result,
  ok, err,
}
use aiosmtpd.Smtp.Exec.{Exec, Done}
use aiosmtpd.Smtp.Exec.Moves.{
  Law, Moves, Permits, moves_rules, Moves-pure, Moves-bind, Moves-raise, Moves-handle, Moves-modify,
  Moves-match_option_eq,
}
use aiosmtpd.Smtp.Server.{
  Server, Method, helo, ehlo, noop, quit, starttls, auth, help, vrfy, mail, rcpt, rset, data_method,
  expn, lmtp_lhlo, lmtp_helo, lmtp_ehlo,
}
use aiosmtpd.Smtp.Wire.{read, readuntil}
use aiosmtpd.Smtp.Data.{pending}
use aiosmtpd.Smtp.Judge.{Budget, Verdict, answer, goodbye, call, judge}
use aiosmtpd.Smtp.Client.{
  run_method, act, skip_overrun, skip_line, skip, on_long_line, read_command, handle_exception,
  describe_inner, finish, on_error, obey, guarded, obeyed, client_round, ended, client_loop,
  first_budget, is_lost, report, serve,
}
use aiosmtpd.Smtp.Mail.{smtp_mail}
use aiosmtpd.Smtp.Rcpt.{smtp_rcpt}
use aiosmtpd.Smtp.Steps.{Steps}
use aiosmtpd.Smtp.Steps.Greeting.{Moves-push, Moves-smtp_helo, Moves-smtp_ehlo}
use aiosmtpd.Smtp.Steps.Basic.{
  Moves-smtp_noop, Moves-smtp_quit, Moves-smtp_starttls, Moves-smtp_help, Moves-smtp_vrfy,
  Moves-smtp_rset, Moves-smtp_expn,
}
use aiosmtpd.Smtp.Steps.Auth.{Moves-smtp_auth}
use aiosmtpd.Smtp.Steps.Data.{Moves-smtp_data}

module _ {L : Law} (srv : Server) (allows : (e : Error) → L.allowed e)
    (reads_until : (sep : Bytes) → Moves L (readuntil srv sep))
    (reads : (n : ℕ) → Moves L (read n)) where
  Moves-skip_overrun :
      (again : Exec Done) → Moves L again → (e : Error) → Moves L (skip_overrun srv again e)
  Moves-skip_overrun again m (limit_overrun n) = Moves-bind _ _ (reads n) (λ _. m)
  Moves-skip_overrun again m e = Moves-raise e (allows e)

  Moves-skip_line : (fuel : ℕ) → Moves L (skip_line srv fuel)
  unfolding skip_line
  Moves-skip_line zero = Moves-raise out_of_fuel (allows out_of_fuel)
  Moves-skip_line (suc fuel) =
      Moves-handle _ _ (search (moves_rules, reads_until))
        (λ e h. Moves-skip_overrun (skip_line srv fuel) (Moves-skip_line fuel) e)

  -- The rest of a line that is too long, under a law that lets fuel run out.
  pub Moves-skip : Moves L (skip srv)
  unfolding skip
  Moves-skip = record {
    at = λ s. (Moves-skip_line (suc (pending s))).at s;
    ends = λ s. (Moves-skip_line (suc (pending s))).ends s;
  }

module _ {L : Law} {srv : Server} (st : Steps L srv)
    (moves_mail : (arg : Option Text) → Moves L (smtp_mail srv arg))
    (moves_rcpt : (arg : Option Text) → Moves L (smtp_rcpt srv arg)) where
  Moves-run : (m : Method) (arg : Option Text) → Moves L (run_method srv m arg)
  unfolding run_method
  Moves-run helo arg = Moves-smtp_helo st arg
  Moves-run ehlo arg = Moves-smtp_ehlo st arg
  Moves-run noop arg = Moves-smtp_noop st arg
  Moves-run quit arg = Moves-smtp_quit st arg
  Moves-run starttls arg = Moves-smtp_starttls st arg
  Moves-run auth arg = Moves-smtp_auth st arg
  Moves-run help arg = Moves-smtp_help st arg
  Moves-run vrfy arg = Moves-smtp_vrfy st arg
  Moves-run mail arg = moves_mail arg
  Moves-run rcpt arg = moves_rcpt arg
  Moves-run rset arg = Moves-smtp_rset st arg
  Moves-run data_method arg = Moves-smtp_data st arg
  Moves-run expn arg = Moves-smtp_expn st arg
  Moves-run lmtp_lhlo arg = Moves-smtp_ehlo st arg
  Moves-run lmtp_helo arg = Moves-push st.core _
  Moves-run lmtp_ehlo arg = Moves-push st.core _

  pub Moves-act : (v : Verdict) → Moves L (act srv v)
  unfolding act
  Moves-act (answer t) = Moves-push st.core _
  Moves-act (goodbye t) =
      Moves-bind _ _ (Moves-push st.core _) (λ _. Moves-modify _ st.close_transport)
  Moves-act (call m arg) =
      Moves-bind _ _ (Moves-modify _ (st.reset_timeout _)) (λ _. Moves-run m arg)

  Moves-on_long_line : (e : Error) → L.allowed e → Moves L (on_long_line srv e)
  Moves-on_long_line (limit_overrun n) h =
      Moves-bind _ _ (st.read n) λ _.
        Moves-bind _ _ st.skip λ _. Moves-bind _ _ (Moves-push st.core _) (λ _. Moves-pure none)
  Moves-on_long_line e h = Moves-raise e h

  Moves-read_command : Moves L (read_command srv)
  unfolding read_command
  Moves-read_command =
      Moves-handle _ _ (Moves-bind _ _ (st.readuntil 10 []) (λ line. Moves-pure (some line)))
        Moves-on_long_line

  Moves-handle_exception : (e : Error) → Moves L (handle_exception srv e)
  unfolding handle_exception
  Moves-handle_exception e =
      Moves-match_option_eq srv.exception_hook _ _ (Moves-pure _) (λ h p. st.hooks.exception h p e)

  Moves-describe : (e : Error) → Moves L (describe_inner srv e)
  Moves-describe cancelled = Moves-pure _
  Moves-describe e = Moves-pure _

  Moves-finish : (e : Error) (v : Value) → Moves L (finish srv e v)
  Moves-finish tls_setup v =
      Moves-bind _ _ (Moves-modify _ st.close_transport) (λ _. Moves-modify _ st.connection_lost)
  Moves-finish e v = Moves-push st.core v

  Moves-report : (e : Error) → Moves L (report srv e)
  Moves-report e =
      Moves-bind _ _
        (Moves-handle _ _ (Moves-bind _ _ (Moves-handle_exception e) (λ v. Moves-pure (v, false)))
          (λ inner h. Moves-describe inner))
        λ r.
          Moves-bind _ _ (Moves-finish e r.0)
            λ _. search (moves_rules, Moves-raise, st.core.allows cancelled (λ h. cc))

  pub Moves-on_error : (e : Error) → L.allowed e → Moves L (on_error srv e)
  unfolding on_error
  Moves-on_error cancelled h =
      Moves-bind _ _ (Moves-modify _ st.close_transport) (λ _. Moves-raise cancelled h)
  Moves-on_error out_of_fuel h = Moves-raise out_of_fuel h
  Moves-on_error connection_reset h =
      Moves-bind _ _ (Moves-modify _ st.close_transport) (λ _. Moves-raise connection_reset h)
  Moves-on_error e h = Moves-report e

  -- What one turn has done.
  abbrev Turned : Smtp → Budget × Result Done × Smtp → Type 0
  Turned s (b, r, t) = L.rel s t × Permits L r

  Turned-obey :
      (b : Budget) (line : Option Bytes) (s t : Smtp) → L.rel s t → Turned s (obey srv b line t)
  Turned-obey b none s t h = (h, tt)
  Turned-obey b (some line) s t h =
      let m = Moves-act (judge srv t b line).1 in
      (L.next s t (act srv (judge srv t b line).1 t).1 h (m.at t), m.ends t)

  Turned-obeyed :
      (b : Budget) (r : Result (Option Bytes)) (s t : Smtp)
      → L.rel s t
      → Permits L r
      → Turned s (obeyed srv b (r, t))
  Turned-obeyed b (ok line) s t h p = Turned-obey b line s t h
  Turned-obeyed b (err e) s t h p = (h, p)

  Turned-guarded :
      (x : Budget × Result Done × Smtp) (s : Smtp) → Turned s x → Turned s (guarded srv x)
  Turned-guarded (b, ok _, t) s h = h
  Turned-guarded (b, err e, t) s h =
      let m = Moves-on_error e h.1 in (L.next s t (on_error srv e t).1 h.0 (m.at t), m.ends t)

  pub client_round-Turned : (b : Budget) (s : Smtp) → Turned s (client_round srv b s)
  unfolding client_round
  client_round-Turned b s = Turned-guarded (obeyed srv b (read_command srv s)) s (
      Turned-obeyed b (read_command srv s).0 s (read_command srv s).1 (Moves-read_command.at s)
        (Moves-read_command.ends s))

  module _ (fuel_allowed : L.allowed out_of_fuel) where
    Turned-ended :
        (x : Budget × Result Done × Smtp) (again : Budget → Exec Done) (s : Smtp)
        → Turned s x
        → ((b : Budget) → Moves L (again b))
        → L.rel s (ended srv x again).1 × Permits L (ended srv x again).0
    Turned-ended (b, ok _, t) again s h m =
        (L.next s t (again b t).1 h.0 ((m b).at t), (m b).ends t)
    Turned-ended (b, err e, t) again s h m = h

    turned_if :
        (b : Bool) (s : Smtp) (x : Result Done × Smtp)
        → L.rel s x.1 × Permits L x.0
        → let y = if b then (ok tt, s) else x in L.rel s y.1 × Permits L y.0
    turned_if true s x h = (L.stay s, tt)
    turned_if false s x h = h

    pub Moves-client_loop : (fuel : ℕ) (b : Budget) → Moves L (client_loop srv fuel b)
    unfolding client_loop
    Moves-client_loop zero b = record { at = λ s. L.stay s; ends = λ s. fuel_allowed }
    Moves-client_loop (suc fuel) b =
        let again = Moves-client_loop fuel in
        record { at = λ s. (next again s).0; ends = λ s. (next again s).1 }
      where
        next :
            ((c : Budget) → Moves L (client_loop srv fuel c))
            → (s : Smtp)
            → L.rel s (client_loop srv (suc fuel) b s).1
              × Permits L (client_loop srv (suc fuel) b s).0
        next again s = turned_if (is_lost s.connection) s _ (
            Turned-ended (client_round srv b s) (client_loop srv fuel) s (client_round-Turned b s)
              again)

    -- The whole of `_handle_client` from the greeting on.
    pub Moves-serve : Moves L (serve srv)
    unfolding serve
    Moves-serve = Moves-bind _ _ (Moves-push st.core _) λ _. record {
      at = λ s. (Moves-client_loop (suc (pending s)) (first_budget srv)).at s;
      ends = λ s. (Moves-client_loop (suc (pending s)) (first_budget srv)).ends s;
    }
