-- ===== src/Smtp/Ending/Skip.antt =====
-- The rest of a line that is too long is taken to its end (`_handle_client` in aiosmtpd/smtp.py).
use aiosmtpd.Prelude.{ℕ, zero, suc, ◌≤◌, ◌<◌, [], ◌∷◌, arith}
use aiosmtpd.Prelude.Lists.{drop, length-drop}
use aiosmtpd.Prelude.Text.{Bytes}
use aiosmtpd.Stream
use aiosmtpd.Stream.{
  Event, received, timed_out, handshake, eof, discard_line, Read, line, too_long, stopped,
  incomplete, read_until,
}
use aiosmtpd.Smtp.State.{Smtp, cancelled, limit_overrun, Result, ok, err}
use aiosmtpd.Smtp.Exec.{Done, pure, handle, recover, continue, ◌>>=◌}
use aiosmtpd.Smtp.Exec.Moves.{Permits}
use aiosmtpd.Smtp.Server.{Server}
use aiosmtpd.Smtp.Wire.{readuntil, read, resume_line}
use aiosmtpd.Smtp.Data.{pending}
use aiosmtpd.Smtp.Client.{skip_overrun, skip_line, skip}
use aiosmtpd.Smtp.Ending.Reads.{Leaves}
use aiosmtpd.Smtp.Ending.Loops.{pending_law, Reads, Ends, readuntil-Reads}

pub Ends-at {ℓ} :
    {A : Type ℓ} (srv : Server) (s : Smtp) (r : Result A) (t : Smtp)
    → Ends srv s (r, t)
    → pending t ≤ pending s
Ends-at srv s (ok a) t h = h
Ends-at srv s (err e) t h = h.0

pub Ends-Permits {ℓ} :
    {A : Type ℓ} (srv : Server) (s : Smtp) (r : Result A) (t : Smtp)
    → Ends srv s (r, t)
    → Permits pending_law r
Ends-Permits srv s (ok a) t h = tt
Ends-Permits srv s (err e) t h = h.1

module _ (srv : Server) where
  skip_line-Ends : (fuel : ℕ) (s : Smtp) → pending s < fuel → Ends srv s (skip_line srv fuel s)
  unfolding skip_line handle ◌>>=◌ read Stream.read
  skip_line-Ends zero s h = absurd (omega arith)
  skip_line-Ends (suc fuel) s h =
      turn (skip_line-Ends fuel) (readuntil srv (10 ∷ []) s).0 (readuntil srv (10 ∷ []) s).1
        (readuntil-Reads srv 10 [] s)
    where
      later :
          (s t : Smtp) (y : Result Done × Smtp)
          → pending t ≤ pending s
          → Ends srv t y
          → Ends srv s y
      later s t (ok a, u) k e = omega arith
      later s t (err a, u) k e = (omega arith, e.1)

      turn :
          ((s : Smtp) → pending s < fuel → Ends srv s (skip_line srv fuel s))
          → (r : Result Bytes) (t : Smtp) → Reads s (r, t)
          → let y = continue {B = Done} r (λ l. pure tt) t in
            Ends srv s (recover y.0 (skip_overrun srv (skip_line srv fuel)) y.1)
      turn ih (ok l) t k = omega arith
      turn ih (err (limit_overrun n)) t k =
          let u = record t { reader = record t.reader { buffer = drop n t.reader.buffer } } in
          let less : pending u < pending s = omega (arith, length-drop n t.reader.buffer) in
          later s u (skip_line srv fuel u) (omega arith) (ih u (omega arith))
      turn ih (err cancelled) t k = (k.0, λ p. cc)
      turn ih (err e) t k = absurd k.1

  pub skip-Ends : (s : Smtp) → Ends srv s (skip srv s)
  unfolding skip
  skip-Ends s = skip_line-Ends (suc (pending s)) s (omega arith)

  pub shrinking_line :
      (n : ℕ) (x : Read) (s : Smtp)
      → Leaves n x
      → n ≤ pending s
      → pending (resume_line srv x s).1 ≤ pending s
  unfolding discard_line
  shrinking_line n (line b r) s h k = omega arith
  shrinking_line n (too_long m r) s h k = ground (arith, length-drop m r.buffer)
  shrinking_line n (stopped r) s h k = omega arith
  shrinking_line n (incomplete r) s h k = omega arith
