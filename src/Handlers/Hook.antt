-- ===== src/Handlers/Hook.antt =====
-- `Proxy` of aiosmtpd/handlers.py as the handler of a server (aiosmtpd/smtp.py): from the client's
-- message on the wire to the one that is passed on.
use aiosmtpd.Prelude.{◌≤◌, ◌≡◌, refl, ap, ◌∙◌, true, false, Option, none, some, List, [], ◌∷◌, ◌++◌}
use mathlib.Core.List.{append_assoc}
use aiosmtpd.Prelude.Text.{Text, Bytes, codes, crlf, get, is_ascii}
use aiosmtpd.Stream.{Reader}
use aiosmtpd.Stream.Chunks.{Holds}
use aiosmtpd.Smtp.State.{inet, Smtp, Value, str, raw, Result, ok, err}
use aiosmtpd.Smtp.Exec.{Exec, Done, lift, modify, ◌>>=◌, ◌>>◌, continue}
use aiosmtpd.Smtp.Server.{Hook, Server}
use aiosmtpd.Smtp.Wire.{push, encode, call_handler_hook, set_post_data_state, or_default}
use aiosmtpd.Smtp.Data.{set_content, deliver, smtp_data}
use aiosmtpd.Smtp.Data.Transfer.{wire, wire_length, message, Sendable, Within, Input}
use aiosmtpd.Smtp.Data.Delivery.{MaySend, invited, smtp_data-wire}
use aiosmtpd.Handlers.Relay.{relayed, header_lines, AreHeaders, relayed-headers}
use aiosmtpd.Handlers.Deliver.{Remote, deliver_message}
use aiosmtpd.Handlers.Forward.{status_of, forward_parts, forward}

unfoldable pub hook_result : Result Text → Result Value
hook_result (ok t) = ok (str t)
hook_result (err e) = err e

-- `handle_DATA` as the server calls it
unfoldable pub proxy_hook : (Text → List Text → Bytes → Remote) → Hook
unfolding hook_result
proxy_hook remote args s = (hook_result (forward remote s.session.peer s.envelope), s)

message-headers :
    (hs bs : List Bytes) → message (hs ++ [] ∷ bs) ≡ header_lines hs ++ crlf ++ message bs
unfolding header_lines
message-headers [] bs = refl
message-headers (h ∷ hs) bs = rw (message-headers hs bs) (simp append_assoc)

module _ (remote : Text → List Text → Bytes → Remote) (host : Text)
    (ascii : is_ascii host ≡ true) where
  -- The message as it is passed on.
  abbrev pub passed_on : List Bytes → List Bytes → Bytes
  passed_on hs bs = header_lines hs ++ codes "X-Peer: " ++ host ++ crlf ++ crlf ++ message bs

  forward_raw :
      (b : Bytes) (original : Option Bytes) (sender : Text) (rcpt_tos : List Text)
      → forward_parts remote (inet host) (some (raw b)) original (some sender) rcpt_tos
        ≡ status_of (deliver_message rcpt_tos (remote sender rcpt_tos (relayed host b)))
  unfolding forward_parts
  forward_raw b original sender rcpt_tos = rw ascii refl

  -- What the server is told of a message that has been passed on.
  abbrev pub told : Text → List Text → Bytes → Result Value
  told sender rcpt_tos text =
      hook_result (status_of (deliver_message rcpt_tos (remote sender rcpt_tos text)))

  hook_told :
      (hs bs : List Bytes) (sender : Text) (t : Smtp)
      → AreHeaders hs
      → t.session.peer ≡ inet host
      → t.envelope.mail_from ≡ some sender
      → t.envelope.content ≡ some (raw (message (hs ++ [] ∷ bs)))
      → proxy_hook remote [] t ≡ (told sender t.envelope.rcpt_tos (passed_on hs bs), t)
  unfolding proxy_hook forward
  hook_told hs bs sender t h peer from content =
      let c = message (hs ++ [] ∷ bs) in
      let o = t.envelope.original_content in
      let rs = t.envelope.rcpt_tos in
      ap (λ (x : Result Text). (hook_result x, t))
        (ap (λ p. forward_parts remote p t.envelope.content o t.envelope.mail_from rs) peer
          ∙ ap (λ k. forward_parts remote (inet host) k o t.envelope.mail_from rs) content
          ∙ ap (λ m. forward_parts remote (inet host) (some (raw c)) o m rs) from
          ∙ forward_raw c o sender rs
          ∙ ap (λ b. status_of (deliver_message rs (remote sender rs b)))
              (ap (relayed host) (message-headers hs bs) ∙ relayed-headers host hs (message bs) h))

deliver-hook :
    (srv : Server) (h : Hook) (t : Smtp)
    → get (codes "DATA") srv.handle_hooks ≡ some h
    → deliver srv t ≡ h [] t
unfolding deliver call_handler_hook
deliver-hook srv h t e = rw e refl

-- How DATA ends when the handler has returned this.
abbrev pub concluded : Server → Result Value → Exec Done
concluded srv result = do
  status ← lift result
  modify set_post_data_state
  push srv (or_default status (codes "250 OK"))

-- The envelope with the message, behind the reply 354.
abbrev pub with_message : Server → List Bytes → Bytes → Reader → Smtp → Smtp
with_message srv ls reply r s = set_content (raw (message ls)) (message ls) (invited srv reply r s)

told_then :
    (srv : Server) (result : Result Value) (t : Smtp)
    → deliver srv t ≡ (result, t)
    → (deliver srv >>= (λ status.
          modify set_post_data_state >> push srv (or_default status (codes "250 OK"))))
        t
      ≡ concluded srv result t
unfolding ◌>>=◌ lift
told_then srv result t e =
    ap
      (λ (x : Result Value × Smtp).
        continue x.0
          (λ status. modify set_post_data_state >> push srv (or_default status (codes "250 OK")))
          x.1)
      e

module _ (remote : Text → List Text → Bytes → Remote) (host : Text) (srv : Server)
    (hs bs : List Bytes) (rest reply : Bytes) (sender : Text) (s : Smtp) where
  -- On a server whose handler passes messages on, for a session whose peer is a pair that starts with
  -- an ASCII host: when a client that may send data has named a sender, and sends headers, an empty line and a body, with its dots
  -- doubled and a lone dot behind it, within the limits and in any chunks, then what the other
  -- server is given is the sender, the recipients and the message with the client's address behind
  -- its headers, and nothing else changed. The client is answered by 250 whoever was refused, and by
  -- what an exception makes of it that `_deliver` lets through.
  pub smtp_data-passed_on :
      is_ascii host ≡ true
      → get (codes "DATA") srv.handle_hooks ≡ some (proxy_hook remote)
      → s.session.peer ≡ inet host
      → AreHeaders hs
      → s.envelope.mail_from ≡ some sender
      → srv.decode_data ≡ false
      → 3 ≤ srv.line_length_limit
      → encode srv (str (codes "354 End data with <CR><LF>.<CR><LF>")) ≡ ok reply
      → MaySend srv s
      → Sendable srv (hs ++ [] ∷ bs)
      → Within srv.data_size_limit (wire_length (hs ++ [] ∷ bs))
      → Input s (wire (hs ++ [] ∷ bs) ++ rest)
      → (r : Reader) × (smtp_data srv none s
          ≡ concluded srv
              (hook_result (
                status_of (
                  deliver_message s.envelope.rcpt_tos (
                    remote sender s.envelope.rcpt_tos (
                      header_lines hs ++ codes "X-Peer: " ++ host ++ crlf ++ crlf ++ message bs)))))
              (with_message srv (hs ++ [] ∷ bs) reply r s))
        × Holds r rest
  unfolding set_content ◌>>=◌
  smtp_data-passed_on ascii hooked peer headers from raw_data wide encoded may send within input =
      let ls = hs ++ [] ∷ bs in
      let (r, e, holds) =
        smtp_data-wire srv ls rest reply s raw_data wide encoded may send within input in
      let t = with_message srv ls reply r s in
      let result =
        told remote host ascii sender s.envelope.rcpt_tos (passed_on remote host ascii hs bs) in
      (
        r,
        e
            ∙ told_then srv result t (
                deliver-hook srv (proxy_hook remote) t hooked
                ∙ hook_told remote host ascii hs bs sender t headers peer from refl),
        holds,
      )
