-- ===== src/Smtp/Ending/Reads.antt =====
-- How much of the input the reads take (aiosmtpd/smtp.py, on asyncio's StreamReader).
use aiosmtpd.Prelude.{
  ℕ, suc, ◌+◌, ◌≤◌, ◌<◌, ◌≡◌, refl, Option, none, some, List, [], ◌∷◌, ◌++◌, arith,
}
use aiosmtpd.Prelude.Lists.{length, drop, length-drop, length-append}
use aiosmtpd.Prelude.Text.{Bytes, find}
use aiosmtpd.Prelude.Find.{find-bound}
use aiosmtpd.Stream.{
  Event, received, timed_out, handshake, eof, Reader, Scan, found, overrun, more, scan, Read, line,
  too_long, stopped, incomplete, read_until, decide,
}
use aiosmtpd.Smtp.Data.{pending_events}

-- What is in a reader and still to come.
abbrev pub size : Reader → ℕ
size r = length r.buffer + pending_events r.arriving

-- A scan that is decided leaves at most what there was: a line is not empty, and neither is what is
-- read of a line that is too long.
abbrev pub Decides : Bytes → Bytes → Scan → Type 0
Decides sep buffer (found n) = n + length sep ≤ length buffer
Decides sep buffer (overrun n) = (0 < n) × (n ≤ length buffer)
Decides sep buffer more = Unit

scan-Decides :
    (limit c : ℕ) (sep buffer : Bytes) → Decides (c ∷ sep) buffer (scan limit (c ∷ sep) buffer)
unfolding scan
scan-Decides limit c sep buffer = at (find (c ∷ sep) buffer) refl
  where
    at :
        (o : Option ℕ)
        → find (c ∷ sep) buffer ≡ o
        → Decides (c ∷ sep) buffer (scan limit (c ∷ sep) buffer)
    at none e = rw (e, scan) (ground arith)
    at (some n) e = rw (e, scan) (ground (arith, find-bound (c ∷ sep) buffer n e))

-- What a read leaves, of `n` that there was.
abbrev pub Leaves : ℕ → Read → Type 0
Leaves n (line b r) = size r < n
Leaves n (too_long k r) = (size r ≤ n) × (0 < k) × (k ≤ length r.buffer)
Leaves n (stopped r) = size r ≤ n
Leaves n (incomplete r) = size r ≤ n

line_leaves :
    (n k : ℕ) (buffer : Bytes) (events : List Event)
    → n + suc k ≤ length buffer
    → length (drop (n + suc k) buffer) + pending_events events
      < length buffer + pending_events events
line_leaves n k buffer events h = omega (arith, length-drop (n + suc k) buffer)

decide-Leaves :
    (c : ℕ) (sep buffer : Bytes) (events : List Event) (wait : Read) (x : Scan)
    → Decides (c ∷ sep) buffer x
    → Leaves (length buffer + pending_events events) wait
    → Leaves (length buffer + pending_events events) (decide (c ∷ sep) buffer events wait x)
decide-Leaves c sep buffer events wait (found n) d w = line_leaves n (length sep) buffer events d
decide-Leaves c sep buffer events wait (overrun n) d w = (omega arith, d.0, d.1)
decide-Leaves c sep buffer events wait more d w = w

Leaves-eq : {m n : ℕ} (x : Read) → m ≡ n → Leaves m x → Leaves n x
Leaves-eq (line b r) e h = omega arith
Leaves-eq (too_long k r) e h = (omega arith, h.1, h.2)
Leaves-eq (stopped r) e h = omega arith
Leaves-eq (incomplete r) e h = omega arith

-- `readuntil` takes something, or stops.
pub read_until-Leaves :
    (limit c : ℕ) (sep buffer : Bytes) (events : List Event)
    → Leaves (length buffer + pending_events events) (read_until limit (c ∷ sep) buffer events)
unfolding read_until
read_until-Leaves limit c sep buffer [] =
    decide-Leaves c sep buffer [] _ (scan limit (c ∷ sep) buffer) (scan-Decides limit c sep buffer)
      (omega arith)
read_until-Leaves limit c sep buffer (received bytes ∷ events) =
    decide-Leaves c sep buffer (received bytes ∷ events) _ (scan limit (c ∷ sep) buffer)
      (scan-Decides limit c sep buffer)
      (Leaves-eq _ (omega (arith, length-append buffer bytes))
        (read_until-Leaves limit c sep (buffer ++ bytes) events))
read_until-Leaves limit c sep buffer (timed_out ∷ events) =
    decide-Leaves c sep buffer (timed_out ∷ events) _ (scan limit (c ∷ sep) buffer)
      (scan-Decides limit c sep buffer) (omega arith)
read_until-Leaves limit c sep buffer (handshake done ∷ events) =
    decide-Leaves c sep buffer (handshake done ∷ events) _ (scan limit (c ∷ sep) buffer)
      (scan-Decides limit c sep buffer) (read_until-Leaves limit c sep buffer events)
read_until-Leaves limit c sep buffer (eof ∷ events) =
    decide-Leaves c sep buffer (eof ∷ events) _ (scan limit (c ∷ sep) buffer)
      (scan-Decides limit c sep buffer) (omega arith)
