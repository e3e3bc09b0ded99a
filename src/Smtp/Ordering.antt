-- ===== src/Smtp/Ordering.antt =====
-- The order of the commands: a recipient stands behind a sender, and a sender behind a greeting and,
-- where it is required, an authentication (the checks of aiosmtpd/smtp.py).
pub mod Ready
pub mod Gates
use aiosmtpd.Prelude.{
  ℕ, ◌≡◌, refl, ◌≢◌, Bool, true, false, ◌&&◌, not, Option, none, some, List, [], ◌∷◌, arith,
}
use aiosmtpd.Prelude.Tests.{is_some}
use aiosmtpd.Prelude.Lists.{is_empty}
use aiosmtpd.Prelude.Text.{Text, Bytes, get}
use aiosmtpd.Smtp.State.{
  Peer, Smtp, Value, Error, Result, ok, err, Connection, live, closing, lost, tls_setup, cancelled,
}
use aiosmtpd.Smtp.Exec.{Exec, Done}
use aiosmtpd.Smtp.Exec.Moves.{Law, Moves, Permits}
use aiosmtpd.Smtp.Server.{Server, Hook}
use aiosmtpd.Smtp.Wire.{
  write, readuntil, readline, read, set_rset_state, reset_timeout, close_transport, connection_lost,
}
use aiosmtpd.Stream.{Event}
use aiosmtpd.Smtp.Basic.{
  set_tls_protocol, set_handshake_okay, wait_for_tls, restart_over_tls, settle, await_handshake,
}
use aiosmtpd.Smtp.Auth.{set_login_data, set_authenticated}
use aiosmtpd.Smtp.Mail.{set_sender, set_smtp_utf8, mail_accept, mail_arg, smtp_mail}
use aiosmtpd.Smtp.Rcpt.{add_recipient, rcpt_accept, rcpt_arg, smtp_rcpt}
use aiosmtpd.Smtp.Data.{set_content}
use aiosmtpd.Smtp.Greeting.{given, set_extended, set_host_name, ehlo_limits}

-- Whether the connection is greeted, authenticated as far as the server asks, and has a sender.
abbrev pub is_greeted : Smtp → Bool
is_greeted s = is_some (given s.session.host_name)

abbrev pub needs_auth : Server → Smtp → Bool
needs_auth srv s = srv.auth_required && not s.session.authenticated

abbrev pub has_sender : Smtp → Bool
has_sender s = is_some (given s.envelope.mail_from)

pub record IsOrdered (srv : Server) (s : Smtp) : Type 0 where
  pub behind_sender : is_empty s.envelope.rcpt_tos ≡ false → has_sender s ≡ true
  pub behind_greeting : has_sender s ≡ true → is_greeted s ≡ true
  pub behind_auth : has_sender s ≡ true → needs_auth srv s ≡ false

module _ (srv : Server) where
  abbrev pub ordered_law : Law
  ordered_law = record {
    rel = λ s t. IsOrdered srv s → IsOrdered srv t;
    allowed = λ e. Unit;
    stay = λ s h. h;
    next = λ s t u h k p. k (h p);
  }

  ordered-Permits {ℓ} : {A : Type ℓ} (r : Result A) → Permits ordered_law r
  ordered-Permits (ok a) = tt
  ordered-Permits (err e) = tt

  ordered_write : (b : Bytes) → Moves ordered_law (write b)
  unfolding write
  ordered_write b = record { at = λ s h. ground arith; ends = λ s. ordered-Permits _ }

  ordered_readuntil : (sep : Bytes) → Moves ordered_law (readuntil srv sep)
  unfolding readuntil
  ordered_readuntil sep = record { at = λ s h. ground arith; ends = λ s. ordered-Permits _ }

  IsOrdered-limits : (s : Smtp) → IsOrdered srv s → IsOrdered srv (ehlo_limits srv s)
  unfolding ehlo_limits
  IsOrdered-limits s h = ground arith

  IsOrdered-host :
      (c : ℕ) (t : Text) (s : Smtp) → IsOrdered srv s → IsOrdered srv (set_host_name (c ∷ t) s)
  unfolding set_host_name given
  IsOrdered-host c t s h = ground arith

  ordered_readline : Moves ordered_law (readline srv)
  unfolding readline
  ordered_readline = record { at = λ s h. ground arith; ends = λ s. ordered-Permits _ }

  ordered_read : (n : ℕ) → Moves ordered_law (read n)
  unfolding read
  ordered_read n = record { at = λ s h. ground arith; ends = λ s. tt }

  IsOrdered-settle :
      (x : Result Done × List Event) (s : Smtp) → IsOrdered srv s → IsOrdered srv (settle x s).1
  IsOrdered-settle (ok _, events) s h = ground arith
  IsOrdered-settle (err tls_setup, events) s h = ground arith
  IsOrdered-settle (err e, events) s h = ground arith

  ordered_wait : Moves ordered_law wait_for_tls
  unfolding wait_for_tls
  ordered_wait = record {
    at = λ s h. ground (
      arith,
      IsOrdered-settle (await_handshake s.reader.arriving) s h,
      IsOrdered-settle (err cancelled, []) s h,
    );
    ends = λ s. ordered-Permits _;
  }

  IsOrdered-close : (s : Smtp) → IsOrdered srv s → IsOrdered srv (close_transport s)
  unfolding close_transport
  IsOrdered-close s h = ground arith

  IsOrdered-restart :
      (p : Peer) (n : ℕ) (s : Smtp) → IsOrdered srv s → IsOrdered srv (restart_over_tls p n s)
  unfolding restart_over_tls given
  IsOrdered-restart p n s h = ground arith

  IsOrdered-reset : (s : Smtp) → IsOrdered srv s → IsOrdered srv (set_rset_state s)
  unfolding set_rset_state given
  IsOrdered-reset s h = ground arith

  IsOrdered-authenticated :
      (v : Value) (s : Smtp) → IsOrdered srv s → IsOrdered srv (set_authenticated v s)
  unfolding set_authenticated
  IsOrdered-authenticated v s h = ground arith
