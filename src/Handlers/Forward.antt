-- ===== src/Handlers/Forward.antt =====
-- `Proxy.handle_DATA` of aiosmtpd/handlers.py as a whole.
use aiosmtpd.Prelude.{Option, none, some, List, [], ◌∷◌}
use aiosmtpd.Prelude.Tests.{if◌then◌else◌}
use aiosmtpd.Prelude.Text.{Text, Bytes, Dict, codes, is_ascii}
use aiosmtpd.Smtp.State.{
  Peer, inet, unix, Content, decoded, raw, Envelope, unicode_error, assertion_error, index_error,
  raised, Result, ok, err,
}
use aiosmtpd.Handlers.Relay.{relayed}
use aiosmtpd.Handlers.Deliver.{
  Refusal, Remote, Call, returns, throws, foreign, recipients_refused, failed, deliver_message,
}

-- `session.peer[0]`
unfoldable pub first_of_peer : Peer → Result Text
first_of_peer (inet host) = ok host
first_of_peer (unix []) = err index_error
first_of_peer (unix (c ∷ cs)) = ok (c ∷ [])

-- `encode("ascii")`
unfoldable pub encode_ascii : Text → Result Bytes
encode_ascii t = if is_ascii t then ok t else err unicode_error

-- The bytes of the message: those that were received, where `content` has been decoded.
unfoldable pub message_bytes : Option Content → Option Bytes → Result Bytes
message_bytes none original = err assertion_error
message_bytes (some (raw b)) original = ok b
message_bytes (some (decoded t)) none = err assertion_error
message_bytes (some (decoded t)) (some b) = ok b

infixl 5 ◌>>=◌
abbrev ◌>>=◌ : {A B : Type 0} → Result A → (A → Result B) → Result B
ok a >>= f = f a
err e >>= f = err e

-- `assert envelope.mail_from is not None`
unfoldable pub asserted : Option Text → Result Text
asserted none = err assertion_error
asserted (some t) = ok t

-- an exception that `_deliver` lets through
unfoldable pub status_of : Call (Dict Refusal) → Result Text
status_of (returns refused) = ok (codes "250 OK")
status_of (throws (foreign t)) = err (raised [] t)
status_of (throws (recipients_refused d)) = err (raised (codes "SMTPRecipientsRefused") [])
status_of (throws (failed code text)) = err (raised (codes "SMTPException") [])

-- `handle_DATA`, on the fields of the envelope that it reads; `remote` is the server that the message is
-- passed on to: what it does, given the sender, the recipients and the message.
unfoldable pub forward_parts :
    (Text → List Text → Bytes → Remote)
    → Peer
    → Option Content
    → Option Bytes
    → Option Text
    → List Text
    → Result Text
unfolding first_of_peer encode_ascii message_bytes asserted
forward_parts remote peer content_ original sender rcpt_tos = do
  content ← message_bytes content_ original
  host ← first_of_peer peer
  peer_bytes ← encode_ascii host
  mail_from ← asserted sender
  status_of (deliver_message rcpt_tos (remote mail_from rcpt_tos (relayed peer_bytes content)))

-- `handle_DATA`
unfoldable pub forward : (Text → List Text → Bytes → Remote) → Peer → Envelope → Result Text
unfolding forward_parts
forward remote peer e =
    forward_parts remote peer e.content e.original_content e.mail_from e.rcpt_tos
