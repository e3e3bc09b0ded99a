-- ===== src/Handlers/Tests.antt =====
-- The theorems about handlers at concrete inputs.
use aiosmtpd.Prelude.{◌≡◌, refl, inl, inr, true, not, none, some, List, [], ◌∷◌, ◌++◌, map, arith}
use aiosmtpd.Prelude.Tests.{if◌then◌else◌}
use aiosmtpd.Prelude.Text.{Text, Bytes, codes, crlf, contains, get, text_eq}
use aiosmtpd.Prelude.Text.{is_ascii, find}
use aiosmtpd.Stream.{Reader, received}
use aiosmtpd.Stream.Chunks.{Holds}
use aiosmtpd.Smtp.State.{Smtp, create_session}
use aiosmtpd.Smtp.Server.{Server}
use aiosmtpd.Smtp.Wire.{encode}
use aiosmtpd.Smtp.Greeting.{given}
use aiosmtpd.Smtp.Data.{is_over, smtp_data}
use aiosmtpd.Smtp.Data.Transfer.{wire, message}
use aiosmtpd.Smtp.Examples.{server, connected}
use aiosmtpd.Handlers.Forward.{status_of}
use aiosmtpd.Handlers.Hook.{proxy_hook, hook_result, concluded, with_message, smtp_data-passed_on}
use aiosmtpd.Smtp.State.{inet, unix, raw, Envelope, create_envelope, index_error, err}
use aiosmtpd.Prelude.Lists.{all, is_empty}
use aiosmtpd.Handlers.Lines.{is_bytes_end, kept_lines}
use aiosmtpd.Handlers.Relay.{relayed, starts_newline, header_lines, AreHeaders, relayed-headers}
use aiosmtpd.Handlers.Deliver.{
  Refusal, Remote, returns, throws, failed, deliver_message, error_text, earlier, deliver-failed,
}
use aiosmtpd.Handlers.Forward.{forward}
use aiosmtpd.Handlers.Debugging.{Formats, format_peer, print_lines, print_lines-headers}

abbrev headers : List Bytes
headers = codes "Subject: a" ∷ codes "To: b" ∷ []

headers-AreHeaders : AreHeaders headers
unfolding is_bytes_end codes
headers-AreHeaders = (refl, omega arith, (refl, omega arith, tt))

relayed-headers_example :
    relayed (codes "::1") (header_lines headers ++ crlf ++ codes "body")
    ≡ header_lines headers ++ codes "X-Peer: " ++ codes "::1" ++ crlf ++ crlf ++ codes "body"
relayed-headers_example = relayed-headers (codes "::1") headers (codes "body") headers-AreHeaders

-- Headers without an empty line behind them: the peer stands before a folded header's second line.
relayed_folded :
    relayed (codes "p") (codes "S: a" ++ crlf ++ codes " b" ++ crlf)
    ≡ codes "S: a" ++ crlf ++ codes "X-Peer: p" ++ crlf ++ codes " b" ++ crlf
unfolding relayed kept_lines starts_newline codes is_bytes_end
relayed_folded = refl

-- A server that refuses one recipient, and drops the connection before its leave is taken.
abbrev dropping : Remote
dropping = record {
  connect = returns tt;
  sendmail =
      returns ((codes "bob@example.com", record { code = some 550; text = codes "no" }) ∷ []);
  quit = throws (failed none (some (codes "down")));
}

abbrev anne : List Text
anne = codes "anne@example.com" ∷ []

deliver-failed_example :
    (d : List (Text × Refusal)) × (deliver_message anne dropping ≡ returns d)
    × ((rcpt : Text)
        → get rcpt d ≡ (
            if contains anne rcpt
            then some (record { code = none; text = error_text (some (codes "down")) })
            else get rcpt (earlier dropping)))
deliver-failed_example =
    deliver-failed anne dropping none (some (codes "down")) (inr (inl (refl, refl)))

abbrev formats : Formats
formats = record { repr = λ t. t; repr_options = λ ts. []; decode_replace = λ t. t }

abbrev subject : List Text
subject = codes "Subject: a" ∷ []

subject_full : all (λ h. not (is_empty h)) subject ≡ true
unfolding codes
subject_full = refl

print_lines-headers_example :
    (print_lines formats (λ l. l) (codes "p") true subject ≡ map (λ l. l) subject)
    × (print_lines formats (λ l. l) (codes "p") true (subject ++ [] ∷ codes "body" ∷ [])
        ≡ map (λ l. l) subject
          ++ format_peer formats (codes "p") ∷ map (λ l. l) ([] ∷ codes "body" ∷ []))
print_lines-headers_example =
    print_lines-headers formats (λ l. l) (codes "p") subject (codes "body" ∷ []) subject_full

abbrev forged : Envelope
forged = record create_envelope { content = some (raw []) }

-- A client on a Unix socket without a name.
unix_forward :
    (remote : Text → List Text → Bytes → Remote) → forward remote (unix []) forged ≡ err index_error
unfolding forward
unix_forward remote = refl

-- A remote server that takes every message.
abbrev accepting : Text → List Text → Bytes → Remote
accepting sender rcpt_tos text = record {
  connect = returns tt;
  sendmail = returns [];
  quit = returns tt;
}

abbrev passing : Server
passing = record server { handle_hooks = (codes "DATA", proxy_hook accepting) ∷ [] }

abbrev one_header : List Bytes
one_header = codes "Subject: a" ∷ []

abbrev one_body : List Bytes
one_body = codes ".hi" ∷ []

-- A client that may send, with its message already on the way.
abbrev sending : Smtp
sending = record (connected (received (wire (one_header ++ [] ∷ one_body)) ∷ [])) {
  session = record (create_session (inet (codes "::1"))) { host_name = some (codes "me") };
  envelope = record create_envelope { mail_from = some (codes "a@b"); rcpt_tos = codes "c@d" ∷ [] };
}

one_header-AreHeaders : AreHeaders one_header
unfolding is_bytes_end codes
one_header-AreHeaders = (refl, omega arith, tt)

passing_hook : get (codes "DATA") passing.handle_hooks ≡ some (proxy_hook accepting)
unfolding get text_eq codes
passing_hook = refl

localhost_ascii : is_ascii (codes "::1") ≡ true
unfolding is_ascii codes
localhost_ascii = refl

abbrev invitation : Bytes
invitation = codes "354 End data with <CR><LF>.<CR><LF>"

smtp_data-passed_on_example :
    (r : Reader) × (smtp_data passing none sending
      ≡ concluded passing
          (hook_result (
            status_of (
              deliver_message sending.envelope.rcpt_tos (
                accepting (codes "a@b") sending.envelope.rcpt_tos (
                  header_lines one_header
                  ++ codes "X-Peer: "
                  ++ codes "::1"
                  ++ crlf
                  ++ crlf
                  ++ message one_body)))))
          (with_message passing (one_header ++ [] ∷ one_body) invitation r sending))
    × Holds r []
unfolding find is_over codes given encode is_ascii create_session
smtp_data-passed_on_example =
    smtp_data-passed_on accepting (codes "::1") passing one_header one_body [] invitation
      (codes "a@b") sending localhost_ascii passing_hook refl one_header-AreHeaders refl refl
      (omega arith) refl
      (record { name = codes "me"; greeted = refl; authenticated = refl; recipients = refl })
      (refl, omega arith, (refl, omega arith, (refl, omega arith, tt))) refl
      (record { is_live = refl; holds = record { plain = tt; content = refl } })
