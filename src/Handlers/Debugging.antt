-- ===== src/Handlers/Debugging.antt =====
-- `Debugging` and the `from_cli` of the handlers (aiosmtpd/handlers.py).
use aiosmtpd.Prelude.{
  ◌≡◌, refl, ap, Bool, true, false, ◌&&◌, not, Option, none, some, List, [], ◌∷◌, ◌++◌, map,
}
use aiosmtpd.Prelude.Tests.{if◌then◌else◌}
use aiosmtpd.Prelude.Lists.{is_empty, all}
use aiosmtpd.Prelude.Text.{Text, codes, text_eq}
use aiosmtpd.Smtp.State.{Content, decoded, raw, Envelope}
use aiosmtpd.Handlers.Lines.{is_bytes_end, is_text_end, splitlines}

-- A class's `from_cli` makes a handler, or has the parser print its usage and leave.
pub data FromCli (A : Type 0) : Type 0 where
  handler : A → FromCli A
  usage_error : Text → FromCli A

pub data Stream : Type 0 where
  stdout stderr : Stream

-- `stream` of `Debugging`: none is given, or one of the two.
unfoldable pub debugging_stream : Text → FromCli (Option Stream)
debugging_stream t =
    if text_eq t (codes "stdout")
    then handler (some stdout)
    else if text_eq t (codes "stderr")
    then handler (some stderr)
    else usage_error (codes "Debugging usage: [stdout|stderr]")

unfoldable pub debugging_from_cli : List Text → FromCli (Option Stream)
unfolding debugging_stream
debugging_from_cli [] = handler none
debugging_from_cli (t ∷ []) = debugging_stream t
debugging_from_cli (t ∷ u ∷ ts) = usage_error (codes "Debugging usage: [stdout|stderr]")

unfoldable pub sink_from_cli : List Text → FromCli Unit
sink_from_cli [] = handler tt
sink_from_cli (t ∷ ts) = usage_error (codes "Sink handler does not accept arguments")

-- A `Mailbox` has the directory of its argument.
unfoldable pub mailbox_from_cli : List Text → FromCli Text
mailbox_from_cli [] = usage_error (codes "The directory for the maildir is required")
mailbox_from_cli (t ∷ []) = handler t
mailbox_from_cli (t ∷ u ∷ ts) = usage_error (codes "Too many arguments for Mailbox handler")

-- Python's `repr` of a peer and of a list of options, and `decode("utf-8", "replace")`.
pub record Formats : Type 0 where
  pub repr : Text → Text
  pub repr_options : List Text → Text
  pub decode_replace : Text → Text

module _ (f : Formats) where
  -- `_format_peer`
  unfoldable pub format_peer : Text → Text
  format_peer peer = codes "X-Peer: " ++ f.repr peer

  -- The loop of `_print_message_content`, on the lines of the message; `show` is what is printed
  -- of one.
  unfoldable pub print_lines : (Text → Text) → Text → Bool → List Text → List Text
  unfolding format_peer
  print_lines show peer in_headers [] = []
  print_lines show peer in_headers (l ∷ ls) =
      if in_headers && is_empty l
      then format_peer peer ∷ show l ∷ print_lines show peer false ls
      else show l ∷ print_lines show peer in_headers ls

  unfoldable pub print_message_content : Text → Content → List Text
  unfolding print_lines
  print_message_content peer (decoded t) = print_lines (λ l. l) peer true (splitlines is_text_end t)
  print_message_content peer (raw t) =
      print_lines f.decode_replace peer true (splitlines is_bytes_end t)

  unfoldable pub print_options : Text → List Text → List Text
  print_options label [] = []
  print_options label (o ∷ os) = (label ++ codes " " ++ f.repr_options (o ∷ os)) ∷ []

  -- `any(rcpt_options)`
  unfoldable pub print_rcpt_options : List Text → List Text
  print_rcpt_options os =
      if all is_empty os then [] else (codes "rcpt options: " ++ f.repr_options os) ∷ []

  -- an empty line behind the options, if any were printed
  unfoldable pub separated : List Text → List Text
  separated [] = []
  separated (l ∷ ls) = (l ∷ ls) ++ [] ∷ []

  -- What `handle_DATA` prints, a text for each `print`; `content` is there, or an assertion fails.
  unfoldable pub debugging_output : Text → Envelope → Content → List Text
  unfolding print_message_content print_options print_rcpt_options separated
  debugging_output peer e content =
      codes "---------- MESSAGE FOLLOWS ----------"
        ∷ separated (
            print_options (codes "mail options:") e.mail_options
            ++ print_rcpt_options e.rcpt_options)
      ++ print_message_content peer content
      ++ codes "------------ END MESSAGE ------------" ∷ []

  print_lines-body :
      (show : Text → Text) (peer : Text) (ls : List Text)
      → print_lines show peer false ls ≡ map show ls
  unfolding print_lines
  print_lines-body show peer [] = refl
  print_lines-body show peer (l ∷ ls) = ap (λ k. show l ∷ k) (print_lines-body show peer ls)

  -- Of a message whose lines before the first empty one are `hs`, these, the peer, and the rest are
  -- printed in this order; a message without an empty line is printed without the peer.
  pub print_lines-headers :
      (show : Text → Text) (peer : Text) (hs body : List Text)
      → all (λ h. not (is_empty h)) hs ≡ true
      → (print_lines show peer true hs ≡ map show hs)
        × (print_lines show peer true (hs ++ [] ∷ body)
            ≡ map show hs ++ format_peer peer ∷ map show ([] ∷ body))
  unfolding print_lines
  print_lines-headers show peer [] body h =
      (refl, ap (λ k. format_peer peer ∷ show [] ∷ k) (print_lines-body show peer body))
  print_lines-headers show peer ([] ∷ hs) body h = cc
  print_lines-headers show peer ((c ∷ t) ∷ hs) body h =
      let (alone, whole) = print_lines-headers show peer hs body h in
      (ap (λ k. show (c ∷ t) ∷ k) alone, ap (λ k. show (c ∷ t) ∷ k) whole)
