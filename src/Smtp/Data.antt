-- ===== src/Smtp/Data.antt =====
-- DATA: the loop that receives the message, and what is done with it (aiosmtpd/smtp.py).
pub mod Transfer
pub mod Delivery
pub mod Fresh
use aiosmtpd.Prelude.{
  ℕ, zero, suc, ◌+◌, Bool, true, false, ◌&&◌, not, Option, none, some, List, [], ◌∷◌, ◌++◌, map,
}
use aiosmtpd.Prelude.Tests.{ltb, ◌==◌, if◌then◌else◌}
use aiosmtpd.Prelude.Lists.{length, is_empty}
use aiosmtpd.Prelude.Text.{Text, Bytes, codes, crlf, text_eq, ends_with, is_ascii, get}
use aiosmtpd.Stream.{Event, received, timed_out, handshake, eof, Reader}
use aiosmtpd.Smtp.State.{
  Value, missing, none_value, str, Content, decoded, raw, Smtp, Error, cancelled, limit_overrun,
  assertion_error, out_of_fuel, Result, ok, err,
}
use aiosmtpd.Smtp.Exec.{
  Exec, Done, pure, raise, gets, modify, ◌>>=◌, ◌>>◌, handle, choose, match_option,
}
use aiosmtpd.Smtp.Server.{Server}
use aiosmtpd.Smtp.Wire.{push, read, readuntil, call_handler_hook, set_post_data_state, or_default}
use aiosmtpd.Smtp.Greeting.{given, limit_of, check_helo_needed, check_auth_needed}

-- `_DataState`
pub data DataState : Type 0 where
  nominal too_long too_much : DataState

-- The variables of the loop; `lines` is `data`.
pub record Collected : Type 0 where
  pub lines : List Bytes
  pub num_bytes : ℕ
  pub line_fragments : List Bytes
  pub state : DataState

abbrev pub collected_empty : Collected
collected_empty = record { lines = []; num_bytes = 0; line_fragments = []; state = nominal }

unfoldable pub is_nominal : DataState → Bool
is_nominal nominal = true
is_nominal too_long = false
is_nominal too_much = false

abbrev pub concat : List Bytes → Bytes
concat [] = []
concat (l ∷ ls) = l ++ concat ls

abbrev pub lone_dot : Bytes
lone_dot = 46 ∷ 13 ∷ 10 ∷ []

-- The end of the data: a lone dot where a line begins.
unfoldable pub is_end : Collected → Bytes → Bool
is_end d line = is_empty d.line_fragments && text_eq line lone_dot

-- A line longer than the stream's limit: what was collected is dropped.
unfoldable pub overrun_state : Collected → Collected
unfolding is_nominal
overrun_state d = record d { lines = []; state = if is_nominal d.state then too_long else d.state }

-- `state == NOMINAL and limit and num_bytes > limit`
unfoldable pub is_over : Option ℕ → DataState → ℕ → Bool
unfolding is_nominal limit_of
is_over limit state n =
    is_nominal state && elim (limit_of limit) [ none ↦ false | some m ↦ ltb m n ]

-- the count of the bytes, and the change to TOO_MUCH
unfoldable pub count_line : Option ℕ → Bytes → Collected → Collected
unfolding is_over
count_line limit line d =
    let n = d.num_bytes + length line in
    if is_over limit d.state n
    then record d { num_bytes = n; state = too_much; lines = [] }
    else record d { num_bytes = n }

-- a line that is whole: it is kept while nothing is wrong
unfoldable pub finish_line : ℕ → Collected → Collected
unfolding is_nominal
finish_line line_length_limit d =
    let whole = concat d.line_fragments in
    if is_nominal d.state
    then (if ltb line_length_limit (length whole)
        then record d { state = too_long; lines = []; line_fragments = [] }
        else record d { lines = d.lines ++ whole ∷ []; line_fragments = [] })
    else record d { line_fragments = [] }

-- One turn of the loop, after the test for the end.
unfoldable pub collect : Option ℕ → ℕ → Bytes → Collected → Collected
unfolding count_line finish_line
collect limit line_length_limit line d =
    let counted = count_line limit line d in
    let added = record counted { line_fragments = counted.line_fragments ++ line ∷ [] } in
    if ends_with crlf line then finish_line line_length_limit added else added

-- `del text[0]` of a line that starts with a dot
unfoldable pub unstuff : Bytes → Bytes
unstuff [] = []
unstuff (c ∷ line) = if c == 46 then line else c ∷ line

unfoldable pub set_content : Content → Bytes → Smtp → Smtp
set_content content original s = record s {
  envelope = record s.envelope { content = some content; original_content = some original };
}

-- The number of turns that reading can take at most.
abbrev pub pending_events : List Event → ℕ
pending_events [] = 0
pending_events (received b ∷ events) = length b + pending_events events
pending_events (timed_out ∷ events) = pending_events events
pending_events (handshake b ∷ events) = pending_events events
pending_events (eof ∷ events) = pending_events events

abbrev pub pending : Smtp → ℕ
pending s = length s.reader.buffer + pending_events s.reader.arriving

module _ (srv : Server) where
  -- `except asyncio.LimitOverrunError` of the loop; other exceptions go on (a
  -- cancellation closes the writer when it passes `_handle_client`).
  abbrev pub on_overrun : Collected → Error → Exec (Collected × Bytes)
  on_overrun d (limit_overrun consumed) = do
    line ← read consumed
    choose (ends_with crlf line) (raise assertion_error) (pure (overrun_state d, line))
  on_overrun d e = raise e

  unfoldable pub next_line : Collected → Exec (Collected × Bytes)
  unfolding overrun_state
  next_line d =
      handle
        (do
          line ← readuntil srv crlf
          choose (ends_with crlf line) (pure (d, line)) (raise assertion_error))
        (on_overrun d)

  -- `while self.transport is not None`
  unfoldable pub data_loop : ℕ → Collected → Exec Collected
  unfolding next_line is_end collect
  data_loop zero d = raise out_of_fuel
  data_loop (suc fuel) d = do
    (d', line) ← next_line d
    choose (is_end d' line) (pure d')
        (data_loop fuel (collect srv.data_size_limit srv.line_length_limit line d'))

  -- The replies for data that are out of the nominal.
  abbrev pub complaint : DataState → Exec Done
  complaint nominal = pure tt
  complaint too_long = push srv (str (codes "500 Line too long (see RFC5321 4.5.3.1.6)"))
  complaint too_much = push srv (str (codes "552 Error: Too much mail data"))

  -- `original_content.decode(…)`, or `none` where ASCII is demanded and not given
  unfoldable pub decode_content : Bytes → Option Content
  decode_content original =
      if srv.decode_data
      then (if srv.enable_smtputf8
          then some (decoded (srv.library.decode_utf8 original))
          else (if is_ascii original then some (decoded original) else none))
      else some (raw original)

  -- `process_message` may return `None`, for the default status.
  abbrev pub legacy : Value → Value
  legacy none_value = missing
  legacy v = v

  abbrev pub process_legacy : Exec Value → Exec Value
  process_legacy process = do status ← process; pure (legacy status)

  unfoldable pub deliver : Exec Value
  deliver =
      match_option (get (codes "DATA") srv.handle_hooks)
        (match_option srv.process_message (pure missing) process_legacy)
        (λ hook. call_handler_hook srv (codes "DATA") [])

  -- The message without its transparency dots, to the hook.
  unfoldable pub data_accept : List Bytes → Exec Done
  unfolding unstuff decode_content set_content deliver
  data_accept lines =
      let original = concat (map unstuff lines) in
      match_option (decode_content original) (push srv (str (codes "500 Error: strict ASCII mode")))
        λ content. do
          modify (set_content content original)
          status ← deliver
          modify set_post_data_state
          push srv (or_default status (codes "250 OK"))

  abbrev pub data_end : Collected → Exec Done
  data_end d =
      choose (is_nominal d.state)
        (choose (is_empty d.line_fragments) (data_accept d.lines) (raise assertion_error))
        (do complaint d.state; modify set_post_data_state)

  -- the loop with the fuel that what is pending needs
  unfoldable pub receive : Exec Collected
  unfolding data_loop
  receive s = data_loop (suc (pending s)) collected_empty s

  -- the reply, the message, and what is done with it
  abbrev pub receive_message : Exec Done
  receive_message = do
    push srv (str (codes "354 End data with <CR><LF>.<CR><LF>"))
    d ← receive
    data_end d

  unfoldable pub smtp_data : Option Text → Exec Done
  unfolding given receive data_accept
  smtp_data arg = do
    helo_needed ← check_helo_needed srv (codes "HELO")
    choose helo_needed (pure tt) do
      auth_needed ← check_auth_needed srv
      choose auth_needed (pure tt) do
        recipients ← gets (λ s. s.envelope.rcpt_tos)
        choose (is_empty recipients) (push srv (str (codes "503 Error: need RCPT command"))) (
            match_option (given arg) receive_message
              (λ _. push srv (str (codes "501 Syntax: DATA"))))
