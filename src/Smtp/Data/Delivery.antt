-- ===== src/Smtp/Data/Delivery.antt =====
-- What becomes of a message that a client sends as it should: `smtp_DATA` from the greeting's check to
-- the hook (aiosmtpd/smtp.py).
use aiosmtpd.Prelude.{
  ℕ, ◌≤◌, ◌≡◌, refl, ap, ◌∙◌, ◌&&◌, not, false, none, some, List, [], ◌∷◌, ◌++◌, map, arith,
}
use aiosmtpd.Prelude.Lists.{is_empty}
use aiosmtpd.Prelude.Text.{Text, Bytes, codes, crlf}
use aiosmtpd.Stream.{Reader}
use aiosmtpd.Stream.Chunks.{Holds}
use aiosmtpd.Smtp.State.{Smtp, Value, live, raw, str, Result, ok}
use aiosmtpd.Smtp.Exec.{Exec, Done, modify, ◌>>=◌, ◌>>◌, continue}
use aiosmtpd.Smtp.Server.{Server}
use aiosmtpd.Smtp.Wire.{push, write, encode, set_post_data_state, or_default}
use aiosmtpd.Smtp.Greeting.{given, check_helo_needed, check_auth_needed}
use aiosmtpd.Smtp.Data.{
  Collected, set_content, deliver, decode_content, data_accept, data_end, receive, is_nominal,
  smtp_data,
}
use aiosmtpd.Smtp.Data.Transfer.{
  wire, wire_line, wire_length, message, unstuff-message, Sendable, Within, Input, between,
  receive-wire,
}

-- A client that may send data: it is greeted, authenticated as far as the server asks, and has named
-- recipients.
pub record MaySend (srv : Server) (s : Smtp) : Type 0 where
  pub name : Text
  pub greeted : given s.session.host_name ≡ some name
  pub authenticated : (srv.auth_required && not s.session.authenticated) ≡ false
  pub recipients : is_empty s.envelope.rcpt_tos ≡ false

module _ (srv : Server) where
  -- The message is the envelope's content, raw and original; it goes to the handler, whose status is
  -- the reply, and the envelope is new.
  abbrev pub hand_on : List Bytes → Exec Done
  hand_on ls = do
    modify (set_content (raw (message ls)) (message ls))
    status ← deliver srv
    modify set_post_data_state
    push srv (or_default status (codes "250 OK"))

  -- The state behind the reply 354, with the reader that the message leaves.
  abbrev pub invited : Bytes → Reader → Smtp → Smtp
  invited reply r s = record s { written = s.written ++ (reply ++ crlf) ∷ []; reader = r }

  data_end-message :
      (ls : List Bytes) (s : Smtp) (n : ℕ)
      → srv.decode_data ≡ false
      → data_end srv (between (map wire_line ls) n) s ≡ hand_on ls s
  unfolding data_accept decode_content is_nominal
  data_end-message ls s n e = rw (unstuff-message ls) (rw e refl)

  push-live :
      (v : Value) (reply : Bytes) (s : Smtp)
      → encode srv v ≡ ok reply
      → s.connection ≡ live
      → push srv v s ≡ (ok tt, record s { written = s.written ++ (reply ++ crlf) ∷ [] })
  unfolding push write ◌>>=◌
  push-live v reply s e l = rw e (ground arith)

  received_then :
      (t u : Smtp) (d : Collected)
      → receive srv t ≡ (ok d, u)
      → (receive srv >>= data_end srv) t ≡ data_end srv d u
  unfolding ◌>>=◌
  received_then t u d e = ap (λ (x : Result Collected × Smtp). continue x.0 (data_end srv) x.1) e

  module _ (ls : List Bytes) (rest reply : Bytes) (s : Smtp) where
    -- A client that is greeted, authenticated where that is required, and has named recipients sends
    -- DATA and a message whose lines are within the limits, with its dots doubled and a lone dot
    -- behind it, in any chunks. Then a server that does not decode data, and can encode its own
    -- reply, hands exactly the message on, once, and what the client sent after the lone dot is left
    -- in the reader.
    pub smtp_data-wire :
        srv.decode_data ≡ false
        → 3 ≤ srv.line_length_limit
        → encode srv (str (codes "354 End data with <CR><LF>.<CR><LF>")) ≡ ok reply
        → MaySend srv s
        → Sendable srv ls
        → Within srv.data_size_limit (wire_length ls)
        → Input s (wire ls ++ rest)
        → (r : Reader) × (smtp_data srv none s ≡ hand_on ls (invited reply r s)) × Holds r rest
    unfolding smtp_data check_helo_needed check_auth_needed ◌>>=◌ given
    smtp_data-wire raw_data wide encoded may send within input =
        let t = record s { written = s.written ++ (reply ++ crlf) ∷ [] } in
        let (r, e, holds) =
          receive-wire srv ls rest t wide send within
            (record { is_live = input.is_live; holds = input.holds }) in
        (
          r,
          rw
              (
                may.greeted,
                may.authenticated,
                may.recipients,
                push-live (str (codes "354 End data with <CR><LF>.<CR><LF>")) reply s encoded
                    input.is_live,
              )
              (received_then t _ _ e
                ∙ data_end-message ls (invited reply r s) (wire_length ls) raw_data),
          holds,
        )
