-- ===== src/Smtp/Ordering/Gates.antt =====
-- MAIL and RCPT keep the order of the commands, because of the checks that they make first; and so
-- does the whole of a connection.
use aiosmtpd.Prelude.{◌≡◌, inl, inr, true, false, Option, ◌∷◌, arith}
use aiosmtpd.Prelude.Tests.{is_some, Bool-cases, Option-cases}
use aiosmtpd.Prelude.Text.{Text}
use aiosmtpd.Smtp.State.{Smtp, Value, Result, ok, err}
use aiosmtpd.Smtp.Exec.{Exec, Done, pure, gets, continue, choose, ◌>>=◌}
use aiosmtpd.Smtp.Exec.Moves.{Moves}
use aiosmtpd.Smtp.Server.{Server}
use aiosmtpd.Smtp.Wire.{push, reset_timeout, connection_lost}
use aiosmtpd.Smtp.Greeting.{given, check_helo_needed, check_auth_needed, set_extended}
use aiosmtpd.Smtp.Basic.{set_tls_protocol, set_handshake_okay}
use aiosmtpd.Smtp.Auth.{set_login_data}
use aiosmtpd.Smtp.Mail.{smtp_mail}
use aiosmtpd.Smtp.Rcpt.{smtp_rcpt}
use aiosmtpd.Smtp.Data.{set_content}
use aiosmtpd.Smtp.Client.{serve}
use aiosmtpd.Smtp.Steps.{Hooks, Steps}
use aiosmtpd.Smtp.Steps.Greeting.{Moves-push}
use aiosmtpd.Smtp.Steps.Auth.{Moves-auth_status}
use aiosmtpd.Smtp.Steps.Data.{Moves-receive}
use aiosmtpd.Smtp.Steps.Client.{Moves-skip, Moves-serve}
use aiosmtpd.Smtp.Ordering.{
  is_greeted, needs_auth, has_sender, IsOrdered, ordered_law, ordered-Permits, ordered_readuntil,
  ordered_readline, ordered_read, ordered_wait, IsOrdered-close, IsOrdered-restart, IsOrdered-reset,
  IsOrdered-authenticated, IsOrdered-limits, IsOrdered-host,
}
use aiosmtpd.Smtp.Ordering.Ready.{Patience, ordered-Core, mail_arg-IsReady, rcpt_arg-IsSending}

module _ {srv : Server} (patience : Patience srv) where
  -- A check that stops: the reply has been sent, and the rest is not run.
  stopped-IsOrdered :
      (r : Result Done) (t : Smtp) (m : Exec Done)
      → IsOrdered srv t
      → IsOrdered srv
          (continue
            (continue r (λ _. pure true) t).0
            (λ b. choose b (pure tt) m)
            (continue r (λ _. pure true) t).1).1
  unfolding pure
  stopped-IsOrdered (ok tt) t m h = h
  stopped-IsOrdered (err e) t m h = h

  push-IsOrdered : (v : Value) (s : Smtp) → IsOrdered srv s → IsOrdered srv (push srv v s).1
  push-IsOrdered v s = (Moves-push (ordered-Core patience) v).at s

  -- Behind the check for a greeting the connection is greeted, and nothing has changed.
  helo_gate :
      (t : Text) (m : Exec Done) (s : Smtp)
      → (is_greeted s ≡ true → IsOrdered srv (m s).1)
      → IsOrdered srv s
      → IsOrdered srv ((check_helo_needed srv t >>= λ b. choose b (pure tt) m) s).1
  unfolding check_helo_needed ◌>>=◌
  helo_gate t m s next h = elim (Option-cases (given s.session.host_name)) [
    | inl e ↦ rw e (stopped-IsOrdered (push srv _ s).0 (push srv _ s).1 m (push-IsOrdered _ s h))
    | inr (x, e) ↦ rw e (next (rw e))
  ]

  auth_gate :
      (m : Exec Done) (s : Smtp)
      → (needs_auth srv s ≡ false → IsOrdered srv (m s).1)
      → IsOrdered srv s
      → IsOrdered srv ((check_auth_needed srv >>= λ b. choose b (pure tt) m) s).1
  unfolding check_auth_needed ◌>>=◌
  auth_gate m s next h = elim (Bool-cases (needs_auth srv s)) [
    | inl e ↦ rw e (stopped-IsOrdered (push srv _ s).0 (push srv _ s).1 m (push-IsOrdered _ s h))
    | inr e ↦ rw e (next e)
  ]

  Moves-mail_ordered : (arg : Option Text) → Moves (ordered_law srv) (smtp_mail srv arg)
  unfolding smtp_mail
  Moves-mail_ordered arg = record {
    at = λ s h.
        helo_gate _ _ s
          (λ g.
            auth_gate _ s
              (λ a.
                ((mail_arg-IsReady patience) arg s
                  (record { ordered = h; greeted = g; authenticated = a })).ordered)
              h)
          h;
    ends = λ s. ordered-Permits srv _;
  }

  -- RCPT's check for a sender, which stands in the method itself.
  sender_gate :
      (refusal : Value) (m : Exec Done) (s : Smtp)
      → (has_sender s ≡ true → IsOrdered srv (m s).1)
      → IsOrdered srv s
      → IsOrdered srv
          ((gets (λ t. given t.envelope.mail_from) >>= λ sender.
              choose (is_some sender) m (push srv refusal))
            s).1
  unfolding ◌>>=◌
  sender_gate refusal m s next h = elim (Bool-cases (has_sender s)) [
    | inl e ↦ rw e (next e)
    | inr e ↦ rw e (push-IsOrdered refusal s h)
  ]

  Moves-rcpt_ordered : (arg : Option Text) → Moves (ordered_law srv) (smtp_rcpt srv arg)
  unfolding smtp_rcpt
  Moves-rcpt_ordered arg = record {
    at = λ s h.
        helo_gate _ _ s
          (λ g.
            auth_gate _ s
              (λ a.
                sender_gate _ _ s
                  (λ e.
                    ((rcpt_arg-IsSending patience) arg s
                      (record { ordered = h; sender = e })).ordered)
                  h)
              h)
          h;
    ends = λ s. ordered-Permits srv _;
  }

  module _ (hooks : Hooks (ordered_law srv) srv) where
    ordered-Steps : Steps (ordered_law srv) srv
    unfolding set_extended set_tls_protocol set_handshake_okay set_login_data set_content
        reset_timeout connection_lost
    ordered-Steps = record {
      core = (ordered-Core patience);
      hooks = hooks;
      readuntil = λ c sep. ordered_readuntil srv (c ∷ sep);
      readline = ordered_readline srv;
      read = ordered_read srv;
      wait_for_tls = ordered_wait srv;
      receive = Moves-receive srv (λ e. tt) (ordered_readuntil srv) (ordered_read srv);
      skip = Moves-skip srv (λ e. tt) (ordered_readuntil srv) (ordered_read srv);
      set_rset_state = IsOrdered-reset srv;
      set_extended = λ b s h. ground arith;
      set_host_name = IsOrdered-host srv;
      ehlo_limits = IsOrdered-limits srv;
      set_tls_protocol = λ s h. ground arith;
      restart_over_tls = IsOrdered-restart srv;
      set_handshake_okay = λ b s h. ground arith;
      auth_status =
          Moves-auth_status (ordered-Core patience) hooks (ordered_readline srv)
            (λ v s h. ground arith) (IsOrdered-authenticated srv);
      set_content = λ c b s h. ground arith;
      reset_timeout = λ n s h. ground arith;
      close_transport = IsOrdered-close srv;
      connection_lost = λ s h. ground arith;
    }

    -- In a state in which a recipient stands behind a sender, and a sender behind a greeting and,
    -- where it is required, an authentication, the whole conversation ends in such a state, however
    -- it ends and whatever the client sends, if the hooks of commands are patient and the other
    -- code that the server calls keeps that order.
    pub serve-IsOrdered : (s : Smtp) → IsOrdered srv s → IsOrdered srv (serve srv s).1
    serve-IsOrdered = (Moves-serve ordered-Steps Moves-mail_ordered Moves-rcpt_ordered tt).at
