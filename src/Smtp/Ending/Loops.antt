-- ===== src/Smtp/Ending/Loops.antt =====
-- The loop that receives a message takes something in every turn and comes to an end (`smtp_DATA` in
-- aiosmtpd/smtp.py).
use aiosmtpd.Prelude.{
  ℕ, zero, suc, ◌+◌, ◌≤◌, ◌<◌, ◌≡◌, refl, ◌≢◌, ◌⊎◌, inl, inr, Bool, true, false, [], ◌∷◌, arith,
}
use aiosmtpd.Prelude.Lists.{length, take, length-drop}
use aiosmtpd.Prelude.Text.{Bytes, crlf, ends_with}
use aiosmtpd.Stream
use aiosmtpd.Stream.{
  Event, received, timed_out, handshake, eof, Reader, Read, line, too_long, stopped, incomplete,
  read_until, discard_line,
}
use aiosmtpd.Smtp.State.{
  Smtp, Error, cancelled, limit_overrun, assertion_error, out_of_fuel, Result, ok, err,
}
use aiosmtpd.Smtp.Exec.{Exec, pure, raise, handle, recover, continue, choose, ◌>>=◌}
use aiosmtpd.Smtp.Exec.Moves.{Law}
use aiosmtpd.Smtp.Server.{Server}
use aiosmtpd.Smtp.Wire.{readuntil, read, resume, events_of}
use aiosmtpd.Smtp.Data.{
  pending, pending_events, Collected, on_overrun, next_line, is_end, collect, data_loop, receive,
}
use aiosmtpd.Smtp.Ending.Reads.{Leaves, read_until-Leaves}

-- Nothing is put back into the input, and no loop runs out of fuel.
abbrev pub pending_law : Law
pending_law = record {
  rel = λ s t. pending t ≤ pending s;
  allowed = λ e. e ≢ out_of_fuel;
  stay = λ s. omega arith;
  next = λ s t u h k. omega arith;
}

-- What a read or a turn of a loop has taken: something if it returns, and something or nothing if it
-- raises, where only a cancellation takes nothing.
abbrev pub Takes {ℓ} : {A : Type ℓ} → Smtp → Result A × Smtp → Type 0
Takes s (ok a, t) = pending t < pending s
Takes s (err e, t) =
    (pending t ≤ pending s) × (e ≢ out_of_fuel) × ((e ≡ cancelled) ⊎ (pending t < pending s))

-- A limit that was overrun leaves something to take.
abbrev pub Fits : Error → Smtp → Type 0
Fits (limit_overrun k) t = (0 < k) × (k ≤ length t.reader.buffer)
Fits cancelled t = Unit
Fits e t = ⊥

abbrev pub Reads : Smtp → Result Bytes × Smtp → Type 0
Reads s (ok a, t) = pending t < pending s
Reads s (err e, t) = (pending t ≤ pending s) × Fits e t

pub pending_events_of :
    (s : Smtp) → length s.reader.buffer + pending_events (events_of s) ≤ pending s
pending_events_of s = ground arith

resume-Reads : (n : ℕ) (x : Read) (s : Smtp) → Leaves n x → n ≤ pending s → Reads s (resume x s)
resume-Reads n (line b r) s h k = omega arith
resume-Reads n (too_long m r) s h k = (omega arith, (h.1, h.2))
resume-Reads n (stopped r) s h k = (omega arith, tt)
resume-Reads n (incomplete r) s h k = (omega arith, tt)

module _ (srv : Server) where
  pub readuntil-Reads : (c : ℕ) (sep : Bytes) (s : Smtp) → Reads s (readuntil srv (c ∷ sep) s)
  unfolding readuntil
  readuntil-Reads c sep s =
      resume-Reads _ _ s
        (read_until-Leaves srv.line_length_limit c sep s.reader.buffer (events_of s))
        (pending_events_of s)

  assert_not-Takes {ℓ} :
      {A : Type ℓ} (b : Bool) (x : A) (s t : Smtp)
      → pending t < pending s
      → Takes s (choose b (raise assertion_error) (pure x) t)
  unfolding raise pure
  assert_not-Takes true x s t h = (omega arith, (λ p. cc), inr h)
  assert_not-Takes false x s t h = h

  assert-Takes {ℓ} :
      {A : Type ℓ} (b : Bool) (x : A) (s t : Smtp)
      → pending t < pending s
      → Takes s (choose b (pure x) (raise assertion_error) t)
  unfolding raise pure
  assert-Takes true x s t h = h
  assert-Takes false x s t h = (omega arith, (λ p. cc), inr h)

  -- After an overrun, `read(e.consumed)` takes something.
  overrun-Takes :
      (d : Collected) (e : Error) (s t : Smtp)
      → pending t ≤ pending s
      → Fits e t
      → Takes s (on_overrun srv d e t)
  unfolding read Stream.read ◌>>=◌
  overrun-Takes d (limit_overrun k) s t h f =
      assert_not-Takes (ends_with crlf (take k t.reader.buffer)) _ s _
        (omega (arith, length-drop k t.reader.buffer))
  overrun-Takes d cancelled s t h f = (h, (λ p. cc), inl refl)
  overrun-Takes d e s t h f = absurd f

  next_line-Takes : (d : Collected) (s : Smtp) → Takes s (next_line srv d s)
  unfolding next_line handle ◌>>=◌
  next_line-Takes d s =
      next (readuntil srv crlf s).0 (readuntil srv crlf s).1 (readuntil-Reads 13 (10 ∷ []) s)
    where
      again :
          (x : Collected × Bytes) (b : Bool) (t : Smtp)
          → pending t < pending s
          → let y = choose b (pure x) (raise assertion_error) t in
            Takes s (recover y.0 (on_overrun srv d) y.1)
      again x true t h = h
      again x false t h = (omega arith, (λ p. cc), inr h)

      next :
          (r : Result Bytes) (t : Smtp)
          → Reads s (r, t)
          → let y =
              continue {B = Collected × Bytes} r
                (λ l. choose (ends_with crlf l) (pure (d, l)) (raise assertion_error))
                t in
            Takes s (recover y.0 (on_overrun srv d) y.1)
      next (ok l) t h = again (d, l) (ends_with crlf l) t h
      next (err e) t h = overrun-Takes d e s t h.0 h.1

  -- What a loop has done that came to an end.
  abbrev pub Ends {ℓ} : {A : Type ℓ} → Smtp → Result A × Smtp → Type 0
  Ends s (ok a, t) = pending t ≤ pending s
  Ends s (err e, t) = (pending t ≤ pending s) × (e ≢ out_of_fuel)

  data_loop-Ends :
      (fuel : ℕ) (d : Collected) (s : Smtp) → pending s < fuel → Ends s (data_loop srv fuel d s)
  unfolding data_loop ◌>>=◌
  data_loop-Ends zero d s h = absurd (omega arith)
  data_loop-Ends (suc fuel) d s h =
      turn (data_loop-Ends fuel) (next_line srv d s).0 (next_line srv d s).1 (next_line-Takes d s)
    where
      later :
          (s t : Smtp) (y : Result Collected × Smtp) → pending t < pending s → Ends t y → Ends s y
      later s t (ok a, u) k e = omega arith
      later s t (err a, u) k e = (omega arith, e.1)

      branch :
          (b : Bool) (d : Collected) (m : Exec Collected) (t : Smtp)
          → pending t < pending s
          → Ends t (m t)
          → Ends s (choose b (pure d) m t)
      branch true d m t k e = omega arith
      branch false d m t k e = later s t (m t) k e

      turn :
          ((d : Collected) (s : Smtp) → pending s < fuel → Ends s (data_loop srv fuel d s))
          → (r : Result (Collected × Bytes)) (t : Smtp) → Takes s (r, t)
          → Ends s (
              continue r
                (λ x.
                  choose (is_end x.0 x.1) (pure x.0) (
                    data_loop srv fuel (collect srv.data_size_limit srv.line_length_limit x.1 x.0)))
                t)
      turn ih (ok (d', l)) t k = branch (is_end d' l) d' _ t k (ih _ t (omega arith))
      turn ih (err e) t k = (k.0, k.1)

  -- With the fuel that the model gives, the loop that receives a message ends by itself.
  pub receive-Ends : (s : Smtp) → Ends s (receive srv s)
  unfolding receive
  receive-Ends s = data_loop-Ends (suc (pending s)) _ s (omega arith)
