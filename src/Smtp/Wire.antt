-- ===== src/Smtp/Wire.antt =====
-- `push`, the reads, `_call_handler_hook` and the life of the connection (aiosmtpd/smtp.py).
use aiosmtpd.Prelude.{ℕ, zero, suc, Option, none, some, List, [], ◌∷◌, ◌++◌}
use aiosmtpd.Prelude.Tests.{if◌then◌else◌}
use aiosmtpd.Prelude.Text.{Text, Bytes, crlf, is_ascii, get}
use aiosmtpd.Stream.{
  Reader, Event, Read, line, too_long, stopped, incomplete, read_until, discard_line,
}
use aiosmtpd.Stream
use aiosmtpd.Smtp.State.{
  Value, missing, str, bytes, Smtp, live, closing, lost, create_envelope, cancelled, limit_overrun,
  unicode_error, value_error, assertion_error, Result, ok, err,
}
use aiosmtpd.Smtp.Exec.{Exec, Done, pure, lift, ◌>>=◌, match_option}
use aiosmtpd.Smtp.Server.{Server}

-- `connection_lost`: the timer is cancelled and the transport is gone.
unfoldable pub connection_lost : Smtp → Smtp
connection_lost s = record s { connection = lost; timer = none }

-- `self.transport.close()`
unfoldable pub close_transport : Smtp → Smtp
close_transport s = elim s.connection [
  | live ↦ record s { connection = closing }
  | closing ↦ s
  | lost ↦ s
]

-- `_set_post_data_state` and `_set_rset_state`
unfoldable pub set_post_data_state : Smtp → Smtp
unfolding create_envelope
set_post_data_state s = record s { envelope = create_envelope }

unfoldable pub set_rset_state : Smtp → Smtp
unfolding set_post_data_state
set_rset_state s = set_post_data_state s

unfoldable pub reset_timeout : ℕ → Smtp → Smtp
reset_timeout duration s = record s { timer = some duration }

-- `_writer.write` and `drain` on a transport that is being closed: while its send buffer is not empty
-- it takes what is written; once all has been sent, it takes nothing, and `drain` lets the event
-- loop run, which calls `connection_lost`, and that cancels the task.
unfoldable pub write_closing : Bytes → ℕ → Exec Done
unfolding connection_lost
write_closing response zero s = (err cancelled, connection_lost s)
write_closing response (suc n) s =
    (ok tt, record s { written = s.written ++ (response ++ crlf) ∷ []; flushing = n })

-- `_writer.write` and `drain`
unfoldable pub write : Bytes → Exec Done
unfolding write_closing
write response s = elim s.connection [
  | live ↦ (ok tt, record s { written = s.written ++ (response ++ crlf) ∷ [] })
  | closing ↦ write_closing response s.flushing s
  | lost ↦ (err cancelled, s)
]

-- How a read ends for the coroutine: a cancelled one leaves a lost connection, and the end of the
-- stream cancels it (`eof_received`).
abbrev pub resume : Read → Smtp → Result Bytes × Smtp
resume (line b r) s = (ok b, record s { reader = r })
resume (too_long n r) s = (err (limit_overrun n), record s { reader = r })
resume (stopped r) s = (err cancelled, record s { reader = r; connection = lost; timer = none })
resume (incomplete r) s = (err cancelled, record s { reader = r; connection = lost; timer = none })

-- On a transport that is being closed nothing more arrives.
abbrev pub events_of : Smtp → List Event
events_of s = elim s.connection [ live ↦ s.reader.arriving | closing ↦ [] | lost ↦ [] ]

-- the strict UTF-8 codec, which fails on lone surrogates
abbrev pub match_result : Option Bytes → Result Bytes
match_result none = err unicode_error
match_result (some b) = ok b

module _ (srv : Server) where
  -- `bytes(status, 'utf-8' or 'ascii')` for a `str`
  unfoldable pub encode : Value → Result Bytes
  encode (str t) =
      if srv.enable_smtputf8
      then match_result (srv.library.encode_utf8 t)
      else (if is_ascii t then ok t else err unicode_error)
  encode (bytes b) = ok b
  encode _ = err assertion_error

  unfoldable pub push : Value → Exec Done
  unfolding encode write
  push status = do response ← lift (encode status); write response

  unfoldable pub readuntil : Bytes → Exec Bytes
  readuntil sep s = resume (read_until srv.line_length_limit sep s.reader.buffer (events_of s)) s

  abbrev pub resume_line : Read → Smtp → Result Bytes × Smtp
  resume_line (line b r) s = (ok b, record s { reader = r })
  resume_line (too_long n r) s = (err value_error, record s { reader = discard_line n r })
  resume_line (stopped r) s =
      (err cancelled, record s { reader = r; connection = lost; timer = none })
  resume_line (incomplete r) s =
      (err cancelled, record s { reader = r; connection = lost; timer = none })

  unfoldable pub readline : Exec Bytes
  readline s =
      resume_line (read_until srv.line_length_limit (10 ∷ []) s.reader.buffer (events_of s)) s

  unfoldable pub call_handler_hook : Text → List Value → Exec Value
  call_handler_hook command args =
      match_option (get command srv.handle_hooks) (pure missing) (λ hook. hook args)

-- `_reader.read(n)`
unfoldable pub read : ℕ → Exec Bytes
read n s = let (b, r) = Stream.read n s.reader in (ok b, record s { reader = r })

-- a status, or the default where the hook is missing
unfoldable pub or_default : Value → Text → Value
or_default missing t = str t
or_default v t = v
