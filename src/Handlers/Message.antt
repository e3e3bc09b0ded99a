-- ===== src/Handlers/Message.antt =====
-- `MessageBase.prepare_message` of aiosmtpd/handlers.py. Parsing is the `email` package's.
use aiosmtpd.Prelude.{Option, none, some, List, [], ◌∷◌, ◌++◌}
use aiosmtpd.Prelude.Text.{Text, Bytes, codes, join}
use aiosmtpd.Smtp.State.{Content, decoded, raw, Envelope}

-- A text, or `None`.
abbrev pub HeaderValue : Type 0
HeaderValue = Option Text

-- An `email.message.Message`: its headers in their order, and what else there is.
pub record Mail : Type 0 where
  pub headers : List (Text × HeaderValue)
  pub payload : Bytes

-- The two parsers of `email`.
pub record Email : Type 0 where
  pub parse_bytes : Bytes → Mail
  pub parse_text : Text → Mail

-- `message[name] = value` adds a header behind the others, and takes none away.
unfoldable pub add_header : Text → HeaderValue → Mail → Mail
add_header name v m = record m { headers = m.headers ++ (name, v) ∷ [] }

module _ (em : Email) where
  unfoldable pub parse_content : Content → Mail
  parse_content (raw data_) = em.parse_bytes data_
  parse_content (decoded data_) = em.parse_text data_

  -- `prepare_message`; `peer` is `str(session.peer)`. `none` is the `TypeError` of a content that is
  -- neither `bytes` nor `str`.
  unfoldable pub prepare : Text → Option Text → List Text → Option Content → Option Mail
  unfolding parse_content add_header
  prepare peer mail_from rcpt_tos none = none
  prepare peer mail_from rcpt_tos (some data_) =
      let m = add_header (codes "X-Peer") (some peer) (parse_content data_) in
      let m' = add_header (codes "X-MailFrom") mail_from m in
      some (add_header (codes "X-RcptTo") (some (join (codes ", ") rcpt_tos)) m')

  unfoldable pub prepare_message : Text → Envelope → Option Mail
  unfolding prepare
  prepare_message peer e = prepare peer e.mail_from e.rcpt_tos e.content
