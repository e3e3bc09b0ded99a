-- ===== src/Smtp/Ending/Steps.antt =====
-- What each way to touch the connection takes from the input (aiosmtpd/smtp.py).
use aiosmtpd.Prelude.{ℕ, ◌≤◌, true, false, List, [], ◌∷◌, arith}
use aiosmtpd.Prelude.Lists.{length-drop}
use aiosmtpd.Prelude.Text.{Text, Bytes}
use aiosmtpd.Stream
use aiosmtpd.Stream.{
  Event, received, timed_out, handshake, eof, discard_line, Read, line, too_long, stopped,
  incomplete, read_until,
}
use aiosmtpd.Smtp.State.{Smtp, cancelled, limit_overrun, Result, ok, err, tls_setup}
use aiosmtpd.Smtp.Exec.{Done}
use aiosmtpd.Smtp.Exec.Moves.{Moves, Permits}
use aiosmtpd.Smtp.Server.{Server}
use aiosmtpd.Smtp.Wire.{
  write, readuntil, readline, read, resume_line, events_of, close_transport, connection_lost,
  set_rset_state, reset_timeout,
}
use aiosmtpd.Smtp.Greeting.{set_extended, set_host_name, ehlo_limits}
use aiosmtpd.Smtp.Basic.{
  set_tls_protocol, set_handshake_okay, wait_for_tls, restart_over_tls, settle, await_handshake,
}
use aiosmtpd.Smtp.Auth.{set_login_data, set_authenticated}
use aiosmtpd.Smtp.Mail.{set_sender, set_smtp_utf8}
use aiosmtpd.Smtp.Rcpt.{add_recipient}
use aiosmtpd.Smtp.Data.{pending, pending_events, receive, set_content}
use aiosmtpd.Smtp.Client.{skip}
use aiosmtpd.Smtp.Steps.{Core, Hooks, Steps}
use aiosmtpd.Smtp.Steps.Auth.{Moves-auth_status}
use aiosmtpd.Smtp.Ending.Reads.{read_until-Leaves}
use aiosmtpd.Smtp.Ending.Loops.{
  pending_law, Reads, readuntil-Reads, receive-Ends, pending_events_of,
}
use aiosmtpd.Smtp.Ending.Skip.{Ends-at, Ends-Permits, skip-Ends, shrinking_line}

module _ (srv : Server) where
  shrinking_write : (b : Bytes) → Moves pending_law (write b)
  unfolding write connection_lost
  shrinking_write b = record { at = λ s. ground arith; ends = λ s. ground arith }

  Reads-at : (s : Smtp) (r : Result Bytes) (t : Smtp) → Reads s (r, t) → pending t ≤ pending s
  Reads-at s (ok a) t h = omega arith
  Reads-at s (err e) t h = h.0

  Reads-ends : (s : Smtp) (r : Result Bytes) (t : Smtp) → Reads s (r, t) → Permits pending_law r
  Reads-ends s (ok a) t h = tt
  Reads-ends s (err (limit_overrun k)) t h = λ p. cc
  Reads-ends s (err cancelled) t h = λ p. cc
  Reads-ends s (err e) t h = absurd h.1

  line_ends : (x : Read) (s : Smtp) → Permits pending_law (resume_line srv x s).0
  line_ends (line b r) s = tt
  line_ends (too_long n r) s = λ p. cc
  line_ends (stopped r) s = λ p. cc
  line_ends (incomplete r) s = λ p. cc

  shrinking_readuntil : (c : ℕ) (sep : Bytes) → Moves pending_law (readuntil srv (c ∷ sep))
  shrinking_readuntil c sep = record {
    at = λ s. Reads-at s _ _ (readuntil-Reads srv c sep s);
    ends = λ s. Reads-ends s _ (readuntil srv (c ∷ sep) s).1 (readuntil-Reads srv c sep s);
  }

  shrinking_readline : Moves pending_law (readline srv)
  unfolding readline
  shrinking_readline = record {
    at = λ s.
        shrinking_line srv _ _ s
          (read_until-Leaves srv.line_length_limit 10 [] s.reader.buffer (events_of s))
          (pending_events_of s);
    ends = λ s. line_ends _ s;
  }

  shrinking_read : (n : ℕ) → Moves pending_law (read n)
  unfolding read Stream.read
  shrinking_read n = record {
    at = λ s. omega (arith, length-drop n s.reader.buffer);
    ends = λ s. tt;
  }

  handshake_shrinks :
      (events : List Event) → pending_events (await_handshake events).1 ≤ pending_events events
  handshake_shrinks [] = omega arith
  handshake_shrinks (received b ∷ events) = omega (arith, handshake_shrinks events)
  handshake_shrinks (timed_out ∷ events) = omega arith
  handshake_shrinks (handshake true ∷ events) = omega arith
  handshake_shrinks (handshake false ∷ events) = omega arith
  handshake_shrinks (eof ∷ events) = omega arith

  handshake_ends : (events : List Event) → Permits pending_law (await_handshake events).0
  handshake_ends [] = λ p. cc
  handshake_ends (received b ∷ events) = handshake_ends events
  handshake_ends (timed_out ∷ events) = λ p. cc
  handshake_ends (handshake true ∷ events) = tt
  handshake_ends (handshake false ∷ events) = λ p. cc
  handshake_ends (eof ∷ events) = λ p. cc

  settle_at :
      (x : Result Done × List Event) (s : Smtp)
      → pending_events x.1 ≤ pending_events s.reader.arriving
      → pending (settle x s).1 ≤ pending s
  settle_at (ok _, events) s h = omega arith
  settle_at (err tls_setup, events) s h = omega arith
  settle_at (err e, events) s h = omega arith

  settle_ends :
      (x : Result Done × List Event) (s : Smtp)
      → Permits pending_law x.0
      → Permits pending_law (settle x s).0
  settle_ends (ok _, events) s h = tt
  settle_ends (err tls_setup, events) s h = h
  settle_ends (err e, events) s h = h

  shrinking_wait : Moves pending_law wait_for_tls
  unfolding wait_for_tls
  shrinking_wait = record {
    at = λ s. ground (
      arith,
      settle_at (await_handshake s.reader.arriving) s (handshake_shrinks s.reader.arriving),
      settle_at (err cancelled, []) s (omega arith),
    );
    ends = λ s. ground (
      arith,
      settle_ends (await_handshake s.reader.arriving) s (handshake_ends s.reader.arriving),
      settle_ends (err cancelled, []) s (λ p. cc),
    );
  }

  shrinking_limits : (s : Smtp) → pending (ehlo_limits srv s) ≤ pending s
  unfolding ehlo_limits
  shrinking_limits s = ground arith

  shrinking_close : (s : Smtp) → pending (close_transport s) ≤ pending s
  unfolding close_transport
  shrinking_close s = ground arith

pub shrinking_sender :
    (a : Text) (os : List Text) (s : Smtp) → pending (set_sender a os s) ≤ pending s
unfolding set_sender
shrinking_sender a os s = omega arith

pub shrinking_recipient :
    (a : Text) (os : List Text) (s : Smtp) → pending (add_recipient a os s) ≤ pending s
unfolding add_recipient
shrinking_recipient a os s = omega arith

module _ {srv : Server} (hooks : Hooks pending_law srv) where
  shrinking-Core : Core pending_law srv
  unfolding set_smtp_utf8
  shrinking-Core = record {
    hook = hooks.hook;
    allows = λ e h. h;
    write = shrinking_write srv;
    set_smtp_utf8 = λ b s. omega arith;
  }

  pub shrinking-Steps : Steps pending_law srv
  unfolding set_rset_state set_extended set_host_name set_tls_protocol restart_over_tls
      set_handshake_okay set_login_data set_authenticated set_smtp_utf8 set_content reset_timeout
      connection_lost
  shrinking-Steps = record {
    core = shrinking-Core;
    hooks = hooks;
    readuntil = shrinking_readuntil srv;
    readline = shrinking_readline srv;
    read = shrinking_read srv;
    wait_for_tls = shrinking_wait srv;
    receive = record {
      at = λ s. Ends-at srv s _ _ (receive-Ends srv s);
      ends = λ s. Ends-Permits srv s _ (receive srv s).1 (receive-Ends srv s);
    };
    skip = record {
      at = λ s. Ends-at srv s _ _ (skip-Ends srv s);
      ends = λ s. Ends-Permits srv s _ (skip srv s).1 (skip-Ends srv s);
    };
    set_rset_state = λ s. omega arith;
    set_extended = λ b s. omega arith;
    set_host_name = λ c t s. omega arith;
    ehlo_limits = shrinking_limits srv;
    set_tls_protocol = λ s. omega arith;
    restart_over_tls = λ p n s. omega arith;
    set_handshake_okay = λ b s. omega arith;
    auth_status =
        Moves-auth_status shrinking-Core hooks (shrinking_readline srv) (λ v s. omega arith)
          (λ v s. omega arith);
    set_content = λ c b s. omega arith;
    reset_timeout = λ n s. omega arith;
    close_transport = shrinking_close srv;
    connection_lost = λ s. omega arith;
  }
