-- ===== src/Smtp/Closing.antt =====
-- What is still sent once the server has closed its transport: QUIT and the replies that end a
-- connection (`transport.close()` in aiosmtpd/smtp.py), with whatever the client has sent ahead.
use aiosmtpd.Prelude.{ℕ, ◌≡◌, refl, ◌≢◌, ◌∙◌, ap, ◌+◌, ◌≤◌, zero, suc, none, [], ◌∷◌, ◌++◌, arith}
use aiosmtpd.Prelude.Lists.{length, length-append}
use aiosmtpd.Prelude.Text.{Text, Bytes, crlf}
use aiosmtpd.Smtp.State.{Smtp, live, Result, ok, err}
use aiosmtpd.Smtp.Exec.{Exec, Done, modify, ◌>>=◌, continue}
use aiosmtpd.Smtp.Exec.Moves.{Law, Moves, Permits}
use aiosmtpd.Smtp.Server.{Server}
use aiosmtpd.Smtp.Wire.{
  write, write_closing, readuntil, readline, read, set_rset_state, reset_timeout, close_transport,
  connection_lost,
}
use aiosmtpd.Smtp.Greeting.{set_extended, set_host_name, ehlo_limits}
use aiosmtpd.Smtp.Basic.{
  set_tls_protocol, set_handshake_okay, wait_for_tls, restart_over_tls, smtp_quit,
}
use aiosmtpd.Smtp.Auth.{set_login_data, set_authenticated}
use aiosmtpd.Smtp.Mail.{set_sender, set_smtp_utf8}
use aiosmtpd.Smtp.Rcpt.{add_recipient}
use aiosmtpd.Smtp.Data.{set_content}
use aiosmtpd.Smtp.Judge.{Budget, goodbye}
use aiosmtpd.Smtp.Client.{act, client_loop}
use aiosmtpd.Smtp.Steps.{Core, Hooks, Steps}
use aiosmtpd.Smtp.Steps.Auth.{Moves-auth_status}
use aiosmtpd.Smtp.Steps.Mail.{Moves-smtp_mail, Moves-smtp_rcpt}
use aiosmtpd.Smtp.Steps.Data.{Moves-receive}
use aiosmtpd.Smtp.Steps.Client.{Moves-skip, Moves-client_loop}

-- The transport is not live, and no more has been written to it since `s` than its send buffer takes.
pub record IsQuiet (s t : Smtp) : Type 0 where
  pub gone : t.connection ≢ live
  pub total : length t.written + t.flushing ≡ length s.written + s.flushing
  pub same : s.flushing ≡ 0 → t.written ≡ s.written

-- Not live before, then quiet after.
abbrev pub Silent : Smtp → Smtp → Type 0
Silent s t = s.connection ≢ live → IsQuiet s t

pub Silent-trans : (s t u : Smtp) → Silent s t → Silent t u → Silent s u
Silent-trans s t u h k p =
    let q = h p in
    let r = k q.gone in
    record {
      gone = r.gone;
      total = r.total ∙ q.total;
      same = λ z. r.same (omega (arith, q.total, ap length (q.same z))) ∙ q.same z;
    }

pub stay-IsQuiet :
    {s t : Smtp}
    → t.connection ≢ live
    → t.written ≡ s.written
    → t.flushing ≡ s.flushing
    → IsQuiet s t
stay-IsQuiet {s} {t} g w f = record {
  gone = g;
  total = omega (arith, ap length w, f);
  same = λ z. w;
}

abbrev pub closing_law : Law
closing_law = record {
  rel = Silent;
  allowed = λ e. Unit;
  stay = λ s h. stay-IsQuiet h refl refl;
  next = Silent-trans;
}

Permits-all {ℓ} : {A : Type ℓ} (r : Result A) → Permits closing_law r
Permits-all (ok a) = tt
Permits-all (err e) = tt

module _ (srv : Server) where
  silent_closing :
      (b : Bytes) (n : ℕ) (s : Smtp)
      → s.flushing ≡ n
      → s.connection ≢ live
      → IsQuiet s (write_closing b n s).1
  unfolding write_closing connection_lost
  silent_closing b zero s f h = stay-IsQuiet (λ p. cc) refl refl
  silent_closing b (suc n) s f h = record {
    gone = h;
    total = omega (arith, length-append s.written ((b ++ crlf) ∷ []), f);
    same = λ z. absurd (omega arith);
  }

  silent_write : (b : Bytes) → Moves closing_law (write b)
  unfolding write
  silent_write b = record {
    at = λ s h. ground (arith, silent_closing b s.flushing s refl h);
    ends = λ s. Permits-all _;
  }

  silent_readuntil : (sep : Bytes) → Moves closing_law (readuntil srv sep)
  unfolding readuntil
  silent_readuntil sep = record { at = λ s h. ground arith; ends = λ s. Permits-all _ }

  silent_readline : Moves closing_law (readline srv)
  unfolding readline
  silent_readline = record { at = λ s h. ground arith; ends = λ s. Permits-all _ }

  silent_read : (n : ℕ) → Moves closing_law (read n)
  unfolding read
  silent_read n = record { at = λ s h. stay-IsQuiet h refl refl; ends = λ s. tt }

  silent_wait : Moves closing_law wait_for_tls
  unfolding wait_for_tls
  silent_wait = record { at = λ s h. ground arith; ends = λ s. Permits-all _ }

  Silent-limits : (s : Smtp) → Silent s (ehlo_limits srv s)
  unfolding ehlo_limits
  Silent-limits s h = ground arith

  Silent-close : (s : Smtp) → Silent s (close_transport s)
  unfolding close_transport
  Silent-close s h = ground arith

module _ {srv : Server} (hooks : Hooks closing_law srv) where
  silent-Core : Core closing_law srv
  unfolding set_smtp_utf8
  silent-Core = record {
    hook = hooks.hook;
    allows = λ e h. tt;
    write = silent_write srv;
    set_smtp_utf8 = λ b s h. stay-IsQuiet h refl refl;
  }

  silent-Steps : Steps closing_law srv
  unfolding set_rset_state set_extended set_host_name set_tls_protocol restart_over_tls
      set_handshake_okay set_login_data set_authenticated set_smtp_utf8 set_content reset_timeout
      connection_lost
  silent-Steps = record {
    core = silent-Core;
    hooks = hooks;
    readuntil = λ c sep. silent_readuntil srv (c ∷ sep);
    readline = silent_readline srv;
    read = silent_read srv;
    wait_for_tls = silent_wait srv;
    receive = Moves-receive srv (λ e. tt) (silent_readuntil srv) (silent_read srv);
    skip = Moves-skip srv (λ e. tt) (silent_readuntil srv) (silent_read srv);
    set_rset_state = λ s h. stay-IsQuiet h refl refl;
    set_extended = λ b s h. stay-IsQuiet h refl refl;
    set_host_name = λ c t s h. stay-IsQuiet h refl refl;
    ehlo_limits = Silent-limits srv;
    set_tls_protocol = λ s h. stay-IsQuiet h refl refl;
    restart_over_tls = λ p n s h. stay-IsQuiet h refl refl;
    set_handshake_okay = λ b s h. stay-IsQuiet h refl refl;
    auth_status =
        Moves-auth_status silent-Core hooks (silent_readline srv)
          (λ v s h. stay-IsQuiet h refl refl) (λ v s h. stay-IsQuiet h refl refl);
    set_content = λ c b s h. stay-IsQuiet h refl refl;
    reset_timeout = λ n s h. stay-IsQuiet h refl refl;
    close_transport = Silent-close srv;
    connection_lost = λ s h. stay-IsQuiet (λ p. cc) refl refl;
  }

  pub client_loop-silent : (fuel : ℕ) (b : Budget) → Moves closing_law (client_loop srv fuel b)
  unfolding set_sender add_recipient
  client_loop-silent fuel b =
      Moves-client_loop silent-Steps
        (Moves-smtp_mail silent-Steps.core (λ a os s h. stay-IsQuiet h refl refl))
        (Moves-smtp_rcpt silent-Steps.core (λ a os s h. stay-IsQuiet h refl refl)) tt fuel b

close_transport-ne-live : (s : Smtp) → (close_transport s).connection ≢ live
unfolding close_transport
close_transport-ne-live s h = ground arith

-- If `m` returns, the transport is not live.
abbrev Closes : Exec Done → Type 0
Closes m = (s : Smtp) → (m s).0 ≡ ok tt → (m s).1.connection ≢ live

Closes-close : Closes (modify close_transport)
unfolding modify
Closes-close s h = close_transport-ne-live s

Closes-bind {ℓ} :
    {A : Type ℓ} (m : Exec A) (f : A → Exec Done) → ((a : A) → Closes (f a)) → Closes (m >>= f)
unfolding ◌>>=◌
Closes-bind {A} m f cf s h = go (m s).0 (m s).1 h
  where
    go :
        (r : Result A) (t : Smtp)
        → (continue r f t).0 ≡ ok tt
        → (continue r f t).1.connection ≢ live
    go (ok a) t h = cf a t h
    go (err e) t h = λ p. cc

Closes-quit : (srv : Server) → Closes (smtp_quit srv none)
unfolding smtp_quit
Closes-quit srv = Closes-bind _ _ (λ v. Closes-bind _ _ (λ d. Closes-close))

Closes-goodbye : (srv : Server) (t : Text) → Closes (act srv (goodbye t))
unfolding act
Closes-goodbye srv t = Closes-bind _ _ (λ d. Closes-close)

-- How much is sent between two states.
abbrev pub SendsWithin : Smtp → Smtp → Type 0
SendsWithin t u =
    (length u.written ≤ length t.written + t.flushing) × (t.flushing ≡ 0 → u.written ≡ t.written)

quiet-SendsWithin : {s t : Smtp} → IsQuiet s t → SendsWithin s t
quiet-SendsWithin q = (omega (arith, q.total), q.same)

module _ {srv : Server} (hooks : Hooks closing_law srv) (fuel : ℕ) (b : Budget) (s : Smtp) where
  -- If the hooks send no more on a transport that is closing than its send buffer takes, and QUIT has
  -- returned (no hook and no codec raised), then whatever the client sent after QUIT, no more replies
  -- are sent after the one to QUIT than the buffer takes before it has been sent; and none at all,
  -- if it had been sent when the transport was closed.
  pub quit_is_final :
      (smtp_quit srv none s).0 ≡ ok tt
      → let t = (smtp_quit srv none s).1 in SendsWithin t (client_loop srv fuel b t).1
  quit_is_final h =
      quiet-SendsWithin
        ((client_loop-silent hooks fuel b).at (smtp_quit srv none s).1 (Closes-quit srv s h))

  -- The same of a reply that ends the connection (too many calls of one command, too many commands
  -- that do not exist): if it could be sent, no more is sent after it than the send buffer takes
  -- before it has been sent, and nothing if that was empty at the close.
  pub goodbye_is_final :
      (reply : Text)
      → (act srv (goodbye reply) s).0 ≡ ok tt
      → let t = (act srv (goodbye reply) s).1 in SendsWithin t (client_loop srv fuel b t).1
  goodbye_is_final reply h = quiet-SendsWithin (
      (client_loop-silent hooks fuel b).at (act srv (goodbye reply) s).1
        (Closes-goodbye srv reply s h))
