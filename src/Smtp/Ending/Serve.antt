-- ===== src/Smtp/Ending/Serve.antt =====
-- The conversation comes to an end when its input does (`_handle_client` in aiosmtpd/smtp.py).
use aiosmtpd.Prelude.{
  ℕ, zero, suc, ◌≤◌, ◌<◌, ◌≡◌, refl, ◌≢◌, inl, inr, Bool, true, false, Option, none, some, [], ◌∷◌,
  ◌++◌, arith,
}
use aiosmtpd.Prelude.Tests.{if◌then◌else◌}
use aiosmtpd.Prelude.Lists.{drop, length-drop}
use aiosmtpd.Prelude.Text.{Bytes, codes}
use aiosmtpd.Stream
use aiosmtpd.Stream.{
  Event, received, timed_out, handshake, eof, discard_line, Read, line, too_long, stopped,
  incomplete, read_until,
}
use aiosmtpd.Smtp.State.{Smtp, str, Error, cancelled, limit_overrun, out_of_fuel, Result, ok, err}
use aiosmtpd.Smtp.Exec.{Exec, Done, pure, raise, handle, recover, continue, ◌>>=◌}
use aiosmtpd.Smtp.Exec.Moves.{Moves, Permits, Moves-bind, Moves-pure}
use aiosmtpd.Smtp.Server.{Server}
use aiosmtpd.Smtp.Wire.{push, readuntil, read}
use aiosmtpd.Smtp.Data.{pending}
use aiosmtpd.Smtp.Judge.{Budget, judge}
use aiosmtpd.Smtp.Client.{
  refuse_line, on_long_line, read_command, act, on_error, obey, obeyed, guarded, client_round,
  ended, client_loop, first_budget, is_lost, serve,
}
use aiosmtpd.Smtp.Steps.{Hooks}
use aiosmtpd.Smtp.Steps.Greeting.{Moves-push}
use aiosmtpd.Smtp.Steps.Mail.{Moves-smtp_mail, Moves-smtp_rcpt}
use aiosmtpd.Smtp.Steps.Client.{Moves-act, Moves-on_error}
use aiosmtpd.Smtp.Ending.Loops.{pending_law, Takes, Fits, Reads, readuntil-Reads}
use aiosmtpd.Smtp.Ending.Steps.{shrinking-Steps, shrinking_sender, shrinking_recipient}

error_of : {e d : Error} → ◌≡◌ {A = Result Done} (err e) (err d) → e ≡ d
error_of p = cc

module _ {srv : Server} (hooks : Hooks pending_law srv) where
  -- What follows the law takes something in all, if something was taken before it.
  Moves-Takes {ℓ} :
      {A : Type ℓ} (m : Exec A)
      → Moves pending_law m
      → (s t : Smtp) → pending t < pending s
      → Takes s (m t)
  Moves-Takes {A} m mm s t h = out (m t).0 (m t).1 (mm.at t) (mm.ends t)
    where
      out :
          (r : Result A) (u : Smtp) → pending u ≤ pending t → Permits pending_law r → Takes s (r, u)
      out (ok a) u k p = omega arith
      out (err e) u k p = (omega arith, p, inr (omega arith))

  refuse_line-Moves : Moves pending_law (refuse_line srv)
  refuse_line-Moves =
      Moves-bind _ _ (shrinking-Steps hooks).skip
        λ d. Moves-bind _ _ (Moves-push (shrinking-Steps hooks).core _) (λ d. Moves-pure none)

  long_line-Takes :
      (e : Error) (s t : Smtp) → pending t ≤ pending s → Fits e t → Takes s (on_long_line srv e t)
  unfolding read Stream.read ◌>>=◌
  long_line-Takes (limit_overrun k) s t h f =
      let u = record t { reader = record t.reader { buffer = drop k t.reader.buffer } } in
      Moves-Takes (refuse_line srv) refuse_line-Moves s u
        (omega (arith, length-drop k t.reader.buffer))
  long_line-Takes cancelled s t h f = (h, (λ p. cc), inl refl)
  long_line-Takes e s t h f = absurd f

  -- Reading a command takes something, or the task is cancelled.
  read_command-Takes : (s : Smtp) → Takes s (read_command srv s)
  unfolding read_command handle ◌>>=◌
  read_command-Takes s =
      out (readuntil srv (10 ∷ []) s).0 (readuntil srv (10 ∷ []) s).1 (readuntil-Reads srv 10 [] s)
    where
      out :
          (r : Result Bytes) (t : Smtp)
          → Reads s (r, t)
          → let y = continue {B = Option Bytes} r (λ l. pure (some l)) t in
            Takes s (recover y.0 (on_long_line srv) y.1)
      out (ok l) t k = k
      out (err e) t k = long_line-Takes e s t k.0 k.1

  -- One turn of the loop: it takes something if the loop goes on.
  abbrev Progress : Smtp → Budget × Result Done × Smtp → Type 0
  Progress s (b, ok _, t) = pending t < pending s
  Progress s (b, err e, t) = e ≢ out_of_fuel

  moves_act : (b : Budget) (l : Bytes) (t : Smtp) → Moves pending_law (act srv (judge srv t b l).1)
  moves_act b l t =
      Moves-act (shrinking-Steps hooks)
        (Moves-smtp_mail (shrinking-Steps hooks).core (λ a os s. shrinking_sender a os s))
        (Moves-smtp_rcpt (shrinking-Steps hooks).core (λ a os s. shrinking_recipient a os s))
        (judge srv t b l).1

  obey-Takes :
      (b : Budget) (l : Option Bytes) (s t : Smtp)
      → pending t < pending s
      → let y = obey srv b l t in Takes s (y.1, y.2)
  obey-Takes b none s t h = h
  obey-Takes b (some l) s t h = Moves-Takes (act srv (judge srv t b l).1) (moves_act b l t) s t h

  Progress-of_Takes :
      (b : Budget) (s : Smtp) (r : Result Done) (u : Smtp) → Takes s (r, u) → Progress s (b, r, u)
  Progress-of_Takes b s (ok _) u h = h
  Progress-of_Takes b s (err e) u h = h.1

  cancelled_error :
      (b : Budget) (s t : Smtp)
      → Progress s (b, (on_error srv cancelled t).0, (on_error srv cancelled t).1)
  unfolding on_error raise ◌>>=◌
  cancelled_error b s t = λ p. cc

  guarded-Progress :
      (y : Budget × Result Done × Smtp) (s : Smtp) → Takes s (y.1, y.2) → Progress s (guarded srv y)
  guarded-Progress (b, ok _, t) s h = h
  guarded-Progress (b, err e, t) s (less, real, inl stopped_) = rw stopped_ (cancelled_error b s t)
  guarded-Progress (b, err e, t) s (less, real, inr taken) =
      Progress-of_Takes b s (on_error srv e t).0 (on_error srv e t).1 (
        Moves-Takes (on_error srv e)
          (Moves-on_error (shrinking-Steps hooks)
            (Moves-smtp_mail (shrinking-Steps hooks).core shrinking_sender)
            (Moves-smtp_rcpt (shrinking-Steps hooks).core shrinking_recipient) e real)
          s t taken)

  obeyed-Takes :
      (b : Budget) (r : Result (Option Bytes)) (s t : Smtp)
      → Takes s (r, t)
      → let y = obeyed srv b (r, t) in Takes s (y.1, y.2)
  obeyed-Takes b (ok l) s t h = obey-Takes b l s t h
  obeyed-Takes b (err e) s t h = h

  client_round-Progress : (b : Budget) (s : Smtp) → Progress s (client_round srv b s)
  unfolding client_round
  client_round-Progress b s =
      guarded-Progress (obeyed srv b (read_command srv s)) s
        (obeyed-Takes b (read_command srv s).0 s (read_command srv s).1 (read_command-Takes s))

  -- Enough fuel for what is pending is enough for the loop.
  client_loop-ends :
      (fuel : ℕ) (b : Budget) (s : Smtp)
      → pending s < fuel
      → (client_loop srv fuel b s).0 ≢ err out_of_fuel
  unfolding client_loop
  client_loop-ends zero b s h = absurd (omega arith)
  client_loop-ends (suc fuel) b s h =
      unless_lost (is_lost s.connection) _
        (turn (client_loop-ends fuel) (client_round srv b s) (client_round-Progress b s))
    where
      unless_lost :
          (x : Bool) (y : Result Done × Smtp)
          → y.0 ≢ err out_of_fuel
          → (if x then (ok tt, s) else y).0 ≢ err out_of_fuel
      unless_lost true y k = λ p. cc
      unless_lost false y k = k

      turn :
          ((b : Budget) (s : Smtp)
            → pending s < fuel
            → (client_loop srv fuel b s).0 ≢ err out_of_fuel)
          → (y : Budget × Result Done × Smtp) → Progress s y
          → (ended srv y (client_loop srv fuel)).0 ≢ err out_of_fuel
      turn ih (c, ok _, t) k = ih c t (omega arith)
      turn ih (c, err e, t) k = λ p. k (error_of p)

  -- If the code that the server calls puts nothing back into the input and no exception of it is the
  -- model's own, then the conversation of any connection, from the greeting on, ends by itself, and
  -- never because the model's fuel is used up.
  pub serve-ends : (s : Smtp) → (serve srv s).0 ≢ err out_of_fuel
  unfolding serve ◌>>=◌
  serve-ends s = greeted_ends (push srv _ s).0 (push srv _ s).1 (greeting.ends s)
    where
      greeting :
          Moves pending_law
            (push srv (str (codes "220 " ++ srv.hostname ++ codes " " ++ srv.ident)))
      greeting = Moves-push (shrinking-Steps hooks).core _

      greeted_ends :
          (r : Result Done) (t : Smtp)
          → Permits pending_law r
          → (continue {B = Done} r
              (λ _ u. client_loop srv (suc (pending u)) (first_budget srv) u)
              t).0
            ≢ err out_of_fuel
      greeted_ends (ok _) t k =
          client_loop-ends (suc (pending t)) (first_budget srv) t (omega arith)
      greeted_ends (err e) t k = λ p. k (error_of p)
