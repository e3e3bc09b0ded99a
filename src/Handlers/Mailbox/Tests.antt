-- ===== src/Handlers/Mailbox/Tests.antt =====
-- The theorem about a mailbox at concrete inputs.
use aiosmtpd.Prelude.{◌≡◌, refl, some, List, [], ◌∷◌, ◌++◌}
use aiosmtpd.Prelude.Tests.{if◌then◌else◌}
use aiosmtpd.Prelude.Text.{codes, join}
use aiosmtpd.Smtp.State.{raw, Envelope, create_envelope}
use aiosmtpd.Handlers.Message.{Mail, Email, prepare_message}
use aiosmtpd.Handlers.Mailbox.{
  Mailbox, written, fails, Request, handle_data, reset_all, requests, all_answered, has_reset,
  since_reset, requests-mailbox,
}

-- A parser that finds no headers.
abbrev plain : Email
plain = record {
  parse_bytes = λ b. record { headers = []; payload = b };
  parse_text = λ t. record { headers = []; payload = t };
}

abbrev envelope : Envelope
envelope = record create_envelope {
  mail_from = some (codes "c@d");
  content = some (raw (codes "hello"));
}

abbrev used : Mailbox
used = record { mail_dir = codes "/var/mail"; mailbox = record { headers = []; payload = [] } ∷ [] }

-- A message before a reset, one that cannot be written, one without a content, and a good one.
abbrev asked : List Request
asked =
    handle_data (codes "p") envelope written
    ∷ reset_all
    ∷ handle_data (codes "p") envelope (fails (codes "OSError") (codes "full"))
    ∷ handle_data (codes "p") create_envelope written
    ∷ handle_data (codes "p") envelope written
    ∷ []

requests-mailbox_example :
    (requests plain asked used).mailbox
    ≡ (if has_reset asked then [] else used.mailbox) ++ all_answered plain used (since_reset asked)
requests-mailbox_example = requests-mailbox plain asked used used

-- What that is.
abbrev kept : Mail
kept = record {
  headers =
      (codes "X-Peer", some (codes "p"))
      ∷ (codes "X-MailFrom", some (codes "c@d"))
      ∷ (codes "X-RcptTo", some [])
      ∷ [];
  payload = codes "hello";
}

asked-kept : (requests plain asked used).mailbox ≡ kept ∷ []
unfolding requests codes prepare_message create_envelope join
asked-kept = refl
