-- ===== src/Smtp/Data/Transfer.antt =====
-- DATA is transparent: what a client sends as RFC 5321 section 4.5.2 says arrives as it was, however
-- it is cut into chunks, and the data ends at the lone dot and nowhere else (`smtp_DATA` in
-- aiosmtpd/smtp.py).
use mathlib.Core.List.{append_assoc, append-nil}
use native.Mathlib.Nat.{add_assoc, add-zero, zero-add}
use aiosmtpd.Prelude.{
  ℕ, zero, suc, ◌+◌, ◌≤◌, ◌<◌, ◌≡◌, refl, ap, ◌∙◌, false, Option, none, some, List, [], ◌∷◌, ◌++◌,
  map, arith,
}
use aiosmtpd.Prelude.Tests.{◌==◌, if◌then◌else◌}
use aiosmtpd.Prelude.Lists.{length, length-append}
use aiosmtpd.Prelude.Text.{Bytes, crlf, text_eq, text_eq_refl, find, starts_with}
use aiosmtpd.Prelude.Find.{IsLine, ends_with-crlf}
use aiosmtpd.Stream.{Reader, Event, received, timed_out, handshake, eof}
use aiosmtpd.Stream.Chunks.{IsPlain, incoming, Holds, read_until-line}
use aiosmtpd.Smtp.State.{Smtp, live, ok}
use aiosmtpd.Smtp.Exec.{pure, handle, ◌>>=◌}
use aiosmtpd.Smtp.Server.{Server}
use aiosmtpd.Smtp.Wire.{readuntil}
use aiosmtpd.Smtp.Greeting.{limit_of}
use aiosmtpd.Smtp.Data.{
  Collected, nominal, concat, lone_dot, is_end, is_over, count_line, finish_line, collect, unstuff,
  next_line, data_loop, receive, pending, pending_events, is_nominal,
}

-- RFC 5321 section 4.5.2: the client doubles a dot that begins a line.
abbrev pub stuff : Bytes → Bytes
stuff [] = []
stuff (c ∷ l) = if c == 46 then 46 ∷ c ∷ l else c ∷ l

-- A line on the wire, and a message.
abbrev pub wire_line : Bytes → Bytes
wire_line l = stuff l ++ crlf

abbrev pub wire : List Bytes → Bytes
wire [] = lone_dot
wire (l ∷ ls) = wire_line l ++ wire ls

pub unstuff-wire_line : (l : Bytes) → unstuff (wire_line l) ≡ l ++ crlf
unfolding unstuff
unstuff-wire_line [] = refl
unstuff-wire_line (c ∷ l) = ground arith

-- The length of a message on the wire, without the lone dot.
abbrev pub wire_length : List Bytes → ℕ
wire_length [] = 0
wire_length (l ∷ ls) = length (wire_line l) + wire_length ls

-- What a client may send: each line is one line, within the limit, and the message is within its.
abbrev pub Sendable : Server → List Bytes → Type 0
Sendable srv [] = Unit
Sendable srv (l ∷ ls) =
    IsLine (stuff l) × (length (wire_line l) ≤ srv.line_length_limit) × Sendable srv ls

abbrev pub Within : Option ℕ → ℕ → Type 0
Within limit n = is_over limit nominal n ≡ false

-- Its input is live and holds these bytes.
pub record Input (s : Smtp) (b : Bytes) : Type 0 where
  pub is_live : s.connection ≡ live
  pub holds : Holds s.reader b

module _ (srv : Server) where
  -- The next line of the data, with the state that reading it leaves.
  next_line-line :
      (d : Collected) (l rest : Bytes) (s : Smtp)
      → IsLine l
      → length l ≤ srv.line_length_limit
      → Input s (l ++ crlf ++ rest)
      → (r : Reader) × (next_line srv d s ≡ (ok (d, l ++ crlf), record s { reader = r }))
        × Holds r rest
  unfolding next_line readuntil handle ◌>>=◌ pure
  next_line-line d l rest s is_line fits input =
      let (r, e, holds) =
        read_until-line l rest is_line srv.line_length_limit s.reader.buffer s.reader.arriving fits
          input.holds.plain input.holds.content in
      (r, rw input.is_live (rw e (rw (ends_with-crlf l))), holds)

stuffed-not_end : (l : Bytes) → text_eq (wire_line l) lone_dot ≡ false
unfolding text_eq
stuffed-not_end [] = refl
stuffed-not_end (c ∷ l) = ground arith

is_over_mono : (limit : Option ℕ) (m n : ℕ) → m ≤ n → Within limit n → Within limit m
unfolding is_over limit_of
is_over_mono none m n h w = refl
is_over_mono (some zero) m n h w = refl
is_over_mono (some (suc k)) m n h w = ground arith

-- The loop's variables between two lines of which all is well.
abbrev pub between : List Bytes → ℕ → Collected
between xs n = record { lines = xs; num_bytes = n; line_fragments = []; state = nominal }

collect-line :
    (limit : Option ℕ) (width : ℕ) (l : Bytes) (xs : List Bytes) (n : ℕ)
    → length (wire_line l) ≤ width
    → Within limit (n + length (wire_line l))
    → collect limit width (wire_line l) (between xs n)
      ≡ between (xs ++ wire_line l ∷ []) (n + length (wire_line l))
unfolding collect count_line finish_line is_nominal
collect-line limit width l xs n fits within =
    rw (within, ends_with-crlf (stuff l), append-nil (wire_line l)) (ground arith)

Input-assoc :
    (s : Smtp) (x y rest : Bytes) → Input s ((x ++ y) ++ rest) → Input s (x ++ (y ++ rest))
Input-assoc s x y rest i = record {
  is_live = i.is_live;
  holds = record { plain = i.holds.plain; content = i.holds.content ∙ append_assoc x y rest };
}

dot-IsLine : IsLine (46 ∷ [])
unfolding find starts_with
dot-IsLine = refl

module _ (srv : Server) where
  -- The lines of a message one after another, to the lone dot.
  data_loop-wire :
      (ls xs : List Bytes) (n fuel : ℕ) (rest : Bytes) (s : Smtp)
      → length ls < fuel
      → 3 ≤ srv.line_length_limit
      → Sendable srv ls
      → Within srv.data_size_limit (n + wire_length ls)
      → Input s (wire ls ++ rest)
      → (r : Reader) × (data_loop srv fuel (between xs n) s
          ≡ (ok (between (xs ++ map wire_line ls) (n + wire_length ls)), record s { reader = r }))
        × Holds r rest
  unfolding data_loop ◌>>=◌ is_end pure
  data_loop-wire [] xs n zero rest s h wide send within input = absurd (omega arith)
  data_loop-wire [] xs n (suc fuel) rest s h wide send within input =
      let (r, e, holds) =
        next_line-line srv (between xs n) (46 ∷ []) rest s dot-IsLine (omega arith) input in
      (r, rw (e, text_eq_refl lone_dot, append-nil xs, add-zero n), holds)
  data_loop-wire (l ∷ ls) xs n zero rest s h wide send within input = absurd (omega arith)
  data_loop-wire (l ∷ ls) xs n (suc fuel) rest s h wide send within input =
      let (r, e, holds) =
        next_line-line srv (between xs n) (stuff l) (wire ls ++ rest) s send.0
          (omega (arith, length-append (stuff l) crlf))
          (Input-assoc s (wire_line l) (wire ls) rest input) in
      let t = record s { reader = r } in
      let (r', e', holds') =
        data_loop-wire ls (xs ++ wire_line l ∷ []) (n + length (wire_line l)) fuel rest t
          (omega arith) wide send.2
          (is_over_mono srv.data_size_limit _ (n + wire_length (l ∷ ls)) (omega arith) within)
          (record { is_live = input.is_live; holds = holds }) in
      (
        r',
        rw (
          e,
          stuffed-not_end l,
          collect-line srv.data_size_limit srv.line_length_limit l xs n send.1
              (is_over_mono srv.data_size_limit _ (n + wire_length (l ∷ ls)) (omega arith) within),
          e',
          append_assoc xs (wire_line l ∷ []) (map wire_line ls),
          add_assoc n (length (wire_line l)) (wire_length ls),
        ),
        holds',
      )

  -- The fuel that the model gives is enough for a message.
  lines-pending : (ls : List Bytes) (rest : Bytes) → length ls ≤ length (wire ls ++ rest)
  lines-pending [] rest = omega arith
  lines-pending (l ∷ ls) rest = omega (
    arith,
    lines-pending ls rest,
    length-append (wire_line l ++ wire ls) rest,
    length-append (wire_line l) (wire ls),
    length-append (wire ls) rest,
    length-append (stuff l) crlf,
  )

  incoming-pending :
      (events : List Event) → IsPlain events → length (incoming events) ≡ pending_events events
  incoming-pending [] p = refl
  incoming-pending (received b ∷ events) p =
      omega (arith, length-append b (incoming events), incoming-pending events p)
  incoming-pending (timed_out ∷ events) p = absurd p
  incoming-pending (handshake h ∷ events) p = absurd p
  incoming-pending (eof ∷ events) p = absurd p

  -- If the input holds a message as a client sends it, whose lines are within the limit of a line and
  -- whose length is within the limit of the data, then, however the input is cut into chunks, the
  -- loop collects exactly the lines of the message, stops behind the lone dot, and leaves what the
  -- client sent after it.
  pub receive-wire :
      (ls : List Bytes) (rest : Bytes) (s : Smtp)
      → 3 ≤ srv.line_length_limit
      → Sendable srv ls
      → Within srv.data_size_limit (wire_length ls)
      → Input s (wire ls ++ rest)
      → (r : Reader) × (receive srv s
          ≡ (ok (between (map wire_line ls) (wire_length ls)), record s { reader = r }))
        × Holds r rest
  unfolding receive
  receive-wire ls rest s wide send within input =
      let (r, e, holds) =
        data_loop-wire ls [] 0 (suc (pending s)) rest s
          (omega (
            arith,
            lines-pending ls rest,
            ap length input.holds.content,
            length-append s.reader.buffer (incoming s.reader.arriving),
            incoming-pending s.reader.arriving input.holds.plain,
          ))
          wide send (is_over_mono srv.data_size_limit _ (wire_length ls) (omega arith) within)
          input in
      (
        r,
        e
            ∙ ap (λ n. (ok (between (map wire_line ls) n), record s { reader = r }))
                (zero-add (wire_length ls)),
        holds,
      )

-- The message that is handed on: its lines, each with its CRLF.
abbrev pub message : List Bytes → Bytes
message [] = []
message (l ∷ ls) = (l ++ crlf) ++ message ls

pub unstuff-message : (ls : List Bytes) → concat (map unstuff (map wire_line ls)) ≡ message ls
unstuff-message [] = refl
unstuff-message (l ∷ ls) = rw (unstuff-wire_line l, unstuff-message ls)
