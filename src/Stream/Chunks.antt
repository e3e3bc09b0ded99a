-- ===== src/Stream/Chunks.antt =====
-- `readuntil` does not depend on how the bytes arrive.
use mathlib.Core.List.{append_assoc}
use native.Mathlib.Decide.{dec_lt}
use aiosmtpd.Prelude.{
  ℕ, ◌+◌, ◌≤◌, ◌<◌, ◌≡◌, sym, ap, ◌∙◌, ◌⊎◌, inl, inr, none, some, List, [], ◌∷◌, ◌++◌, arith,
}
use aiosmtpd.Prelude.Tests.{Option-cases}
use aiosmtpd.Prelude.Lists.{
  length, take, drop, length-append, take-length_append, drop-length_append,
}
use aiosmtpd.Prelude.Text.{Bytes, crlf, find}
use aiosmtpd.Prelude.Find.{find-append, find-restrict, find-bound, IsLine, take-append, drop-append}
use aiosmtpd.Stream.{
  Event, received, timed_out, handshake, eof, Reader, found, more, scan, Read, line, decide,
  read_until,
}

-- Only bytes arrive.
abbrev pub IsPlain : List Event → Type 0
IsPlain [] = Unit
IsPlain (received b ∷ events) = IsPlain events
IsPlain (timed_out ∷ events) = ⊥
IsPlain (handshake h ∷ events) = ⊥
IsPlain (eof ∷ events) = ⊥

-- The bytes that arrive.
abbrev pub incoming : List Event → Bytes
incoming [] = []
incoming (received b ∷ events) = b ++ incoming events
incoming (timed_out ∷ events) = incoming events
incoming (handshake h ∷ events) = incoming events
incoming (eof ∷ events) = []

-- A reader that holds these bytes, read or on their way.
pub record Holds (r : Reader) (b : Bytes) : Type 0 where
  pub plain : IsPlain r.arriving
  pub content : r.buffer ++ incoming r.arriving ≡ b

module _ (l rest : Bytes) (is_line : IsLine l) where
  whole_line : find crlf (l ++ crlf ++ rest) ≡ some (length l)
  whole_line = find-append 13 (10 ∷ []) (l ++ crlf) rest (length l) is_line

  -- A buffer that holds a part of a line and of what follows either has the line or waits.
  module _ (buffer later : Bytes) (e : buffer ++ later ≡ l ++ crlf ++ rest) where
    found_at : (n : ℕ) → find crlf buffer ≡ some n → n ≡ length l
    found_at n p = cc (find-append 13 (10 ∷ []) buffer later n p, whole_line, ap (find crlf) e)

    not_found : find crlf buffer ≡ none → length buffer < length l + 2
    not_found p = elim (dec_lt (length buffer) (length l + 2)) [
      | yes h ↦ h
      | no h ↦
          cc (p, find-restrict 13 (10 ∷ []) buffer later (length l) (rw e whole_line) (omega arith))
    ]

    scan_part :
        (limit : ℕ)
        → length l ≤ limit
        → (scan limit crlf buffer ≡ found (length l)) × (length l + 2 ≤ length buffer)
          ⊎ (scan limit crlf buffer ≡ more) × (length buffer < length l + 2)
    unfolding scan
    scan_part limit fits = elim (Option-cases (find crlf buffer)) [
      | inl p ↦ inr (rw (p, scan) (ground (arith, not_found p)), not_found p)
      | inr (n, p) ↦ inl (
        rw (p, scan) (ground (arith, found_at n p)),
        omega (arith, found_at n p, find-bound crlf buffer n p),
      )
    ]

  take_line :
      (buffer later : Bytes)
      → buffer ++ later ≡ l ++ crlf ++ rest
      → length l + 2 ≤ length buffer
      → (take (length l + 2) buffer ≡ l ++ crlf) × (drop (length l + 2) buffer ++ later ≡ rest)
  take_line buffer later e h =
      let n : length (l ++ crlf) ≡ length l + 2 = length-append l crlf in
      (
        sym (take-append (length l + 2) buffer later h)
            ∙ ap (take (length l + 2)) e
            ∙ ap (λ k. take k (l ++ crlf ++ rest)) (sym n)
            ∙ take-length_append (l ++ crlf) rest,
        sym (drop-append (length l + 2) buffer later h)
            ∙ ap (drop (length l + 2)) e
            ∙ ap (λ k. drop k (l ++ crlf ++ rest)) (sym n)
            ∙ drop-length_append (l ++ crlf) rest,
      )

  -- What `decide` makes of a scan that waits or has found the line.
  decide_line :
      (limit : ℕ) (buffer : Bytes) (events : List Event) (wait : Read)
      → length l ≤ limit
      → IsPlain events
      → buffer ++ incoming events ≡ l ++ crlf ++ rest
      → (length buffer < length l + 2 → (r : Reader) × (wait ≡ line (l ++ crlf) r) × Holds r rest)
      → (r : Reader) × (decide crlf buffer events wait (scan limit crlf buffer)
          ≡ line (l ++ crlf) r)
        × Holds r rest
  decide_line limit buffer events wait fits plain e waits =
      elim (scan_part buffer (incoming events) e limit fits) [
        | inl (p, h) ↦
            let t = take_line buffer (incoming events) e h in
            (
              record { buffer = drop (length l + 2) buffer; arriving = events },
              rw p (rw t.0),
              record { plain = plain; content = t.1 },
            )
        | inr (p, h) ↦ let w = waits h in (w.0, rw p w.1, w.2)
      ]

  -- However the bytes are cut into chunks, `readuntil(b"\r\n")` gives the first line that is on its
  -- way, if it is within the limit, and leaves exactly what follows it.
  pub read_until-line :
      (limit : ℕ) (buffer : Bytes) (events : List Event)
      → length l ≤ limit
      → IsPlain events
      → buffer ++ incoming events ≡ l ++ crlf ++ rest
      → (r : Reader) × (read_until limit crlf buffer events ≡ line (l ++ crlf) r) × Holds r rest
  unfolding read_until
  read_until-line limit buffer [] fits plain e =
      decide_line limit buffer [] _ fits plain e (λ h. absurd (omega (arith, short h)))
    where
      short : length buffer < length l + 2 → length l + 2 ≤ length buffer
      short h = omega (
        arith,
        ap length e,
        length-append buffer [],
        length-append (l ++ crlf) rest,
        length-append l crlf,
      )
  read_until-line limit buffer (received b ∷ events) fits plain e =
      decide_line limit buffer (received b ∷ events) _ fits plain e (λ h.
        read_until-line limit (buffer ++ b) events fits plain
          (append_assoc buffer b (incoming events) ∙ e))
  read_until-line limit buffer (timed_out ∷ events) fits plain e = absurd plain
  read_until-line limit buffer (handshake x ∷ events) fits plain e = absurd plain
  read_until-line limit buffer (eof ∷ events) fits plain e = absurd plain
