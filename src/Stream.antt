-- ===== src/Stream.antt =====
-- asyncio.StreamReader, as aiosmtpd/smtp.py uses it: what has been received and not yet read, and
-- what the peer and the clock will still do. `readuntil`, `read` and `readline` wait for an event
-- when the buffer does not decide.
pub mod Chunks
use aiosmtpd.Prelude.{ℕ, ◌+◌, ◌-◌, Bool, ◌&&◌, none, some, List, [], ◌∷◌, ◌++◌}
use aiosmtpd.Prelude.Tests.{ltb, leb, ◌==◌, if◌then◌else◌}
use aiosmtpd.Prelude.Lists.{length, take, drop}
use aiosmtpd.Prelude.Text.{Bytes, find}

-- What can happen while the server waits: bytes arrive, the timer runs out, or a TLS handshake ends
-- (well or not). `eof` is the end of a stream that is read by a task which is not cancelled at it, as
-- `get_proxy` may be; in a server the task is cancelled, and that is the end of the events.
pub data Event : Type 0 where
  received : Bytes → Event
  timed_out : Event
  handshake : Bool → Event
  eof : Event

pub record Reader : Type 0 where
  pub buffer : Bytes
  pub arriving : List Event

-- What `readuntil` finds in the buffer: the separator at an index, more than the limit before one
-- (the value is `LimitOverrunError.consumed`), or neither.
pub data Scan : Type 0 where
  found : ℕ → Scan
  overrun : ℕ → Scan
  more : Scan

unfoldable pub scan : ℕ → Bytes → Bytes → Scan
scan limit sep buffer = elim (find sep buffer) [
  | some isep ↦ if ltb limit isep then overrun isep else found isep
  | none ↦
      let offset = length buffer + 1 - length sep in
      if leb (length sep) (length buffer) && ltb limit offset then overrun offset else more
]

-- How a read ends. `stopped` is the cancellation of the task: the peer closed the stream
-- (`eof_received`), or the timer closed the connection (`_timeout_cb`). `incomplete` is an
-- `IncompleteReadError`, which empties the buffer.
pub data Read : Type 0 where
  line : Bytes → Reader → Read
  too_long : ℕ → Reader → Read
  stopped : Reader → Read
  incomplete : Reader → Read

-- What `readuntil` makes of a scan; `wait` is how it goes on if the buffer does not decide.
abbrev pub decide : Bytes → Bytes → List Event → Read → Scan → Read
decide sep buffer events wait (found n) =
    line (take (n + length sep) buffer)
      (record { buffer = drop (n + length sep) buffer; arriving = events })
decide sep buffer events wait (overrun n) =
    too_long n (record { buffer = buffer; arriving = events })
decide sep buffer events wait more = wait

-- `readuntil(sep)` with the events that are still to come; a handshake is no concern of it.
unfoldable pub read_until : ℕ → Bytes → Bytes → List Event → Read
unfolding scan
read_until limit sep buffer [] =
    decide sep buffer [] (stopped (record { buffer = buffer; arriving = [] }))
      (scan limit sep buffer)
read_until limit sep buffer (received bytes ∷ events) =
    let wait = read_until limit sep (buffer ++ bytes) events in
    decide sep buffer (received bytes ∷ events) wait (scan limit sep buffer)
read_until limit sep buffer (timed_out ∷ events) =
    decide sep buffer (timed_out ∷ events) (stopped (record { buffer = buffer; arriving = events }))
      (scan limit sep buffer)
read_until limit sep buffer (handshake done ∷ events) =
    let wait = read_until limit sep buffer events in
    decide sep buffer (handshake done ∷ events) wait (scan limit sep buffer)
read_until limit sep buffer (eof ∷ events) =
    decide sep buffer (eof ∷ events) (incomplete (record { buffer = []; arriving = eof ∷ events }))
      (scan limit sep buffer)

-- `read(n)` for an `n` that `LimitOverrunError.consumed` gave: that much is in the buffer.
unfoldable pub read : ℕ → Reader → Bytes × Reader
read n r = (take n r.buffer, record r { buffer = drop n r.buffer })

abbrev after_newline : Bytes → Bytes
after_newline [] = []
after_newline (c ∷ rest) = if c == 10 then rest else []

-- What `readline` does to the buffer when the line is longer than the limit, before it raises.
unfoldable pub discard_line : ℕ → Reader → Reader
discard_line consumed r = record r { buffer = after_newline (drop consumed r.buffer) }
