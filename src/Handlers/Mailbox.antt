-- ===== src/Handlers/Mailbox.antt =====
-- `Message` and `Mailbox` of aiosmtpd/handlers.py: a message that is prepared and put into a maildir.
mod Tests
use aiosmtpd.Prelude.{
  ◌≡◌, refl, ap, sym, ◌∙◌, Bool, true, false, ◌||◌, Option, none, some, List, [], ◌∷◌, ◌++◌, arith,
}
use mathlib.Core.List.{append_assoc, append-nil}
use aiosmtpd.Prelude.Tests.{if◌then◌else◌}
use aiosmtpd.Prelude.Text.{Text, codes}
use aiosmtpd.Smtp.State.{Envelope, Error, type_error, raised, Result, ok, err}
use aiosmtpd.Handlers.Message.{Mail, Email, prepare_message}

-- `mailbox` holds the messages in the order in which they were added, which a maildir forgets.
pub record Mailbox : Type 0 where
  pub mail_dir : Text
  pub mailbox : List Mail

-- What the file system lets `Maildir.add` do: it writes the message, or raises, an exception
-- of this class and text, and adds nothing.
pub data Writing : Type 0 where
  written : Writing
  fails : Text → Text → Writing

-- `Mailbox.handle_message`: the mailbox, and what it raises.
unfoldable pub handle_message : Writing → Mail → Mailbox → Mailbox × Option Error
handle_message written m b = (record b { mailbox = b.mailbox ++ m ∷ [] }, none)
handle_message (fails name t) m b = (b, some (raised name t))

-- `Mailbox.reset`
unfoldable pub reset : Mailbox → Mailbox
reset b = record b { mailbox = [] }

-- What `Message.handle_DATA` returns behind `handle_message`.
unfoldable pub replied : Mailbox × Option Error → Mailbox × Result Text
replied (b, none) = (b, ok (codes "250 OK"))
replied (b, some e) = (b, err e)

unfoldable pub handle_prepared : Writing → Option Mail → Mailbox → Mailbox × Result Text
unfolding replied handle_message
handle_prepared w none b = (b, err type_error)
handle_prepared w (some m) b = replied (handle_message w m b)

-- What a mailbox is asked for: `handle_DATA`, for a peer and an envelope, and `reset`.
pub data Request : Type 0 where
  handle_data : Text → Envelope → Writing → Request
  reset_all : Request

-- The message of a preparation that has not failed.
unfoldable pub messages : Option Mail → List Mail
messages none = []
messages (some m) = m ∷ []

unfoldable pub is_ok : Result Text → Bool
is_ok (ok t) = true
is_ok (err e) = false

unfoldable pub is_reset : Request → Bool
is_reset (handle_data peer e w) = false
is_reset reset_all = true

unfoldable pub has_reset : List Request → Bool
unfolding is_reset
has_reset [] = false
has_reset (r ∷ rs) = is_reset r || has_reset rs

-- The requests behind the last reset.
unfoldable pub since_reset : List Request → List Request
unfolding has_reset is_reset
since_reset [] = []
since_reset (r ∷ rs) =
    let rest = since_reset rs in if has_reset rs then rest else if is_reset r then rs else r ∷ rs

module _ (em : Email) where
  -- `Message.handle_DATA` of a `Mailbox`
  unfoldable pub mailbox_data : Text → Envelope → Writing → Mailbox → Mailbox × Result Text
  unfolding handle_prepared
  mailbox_data peer e w b = handle_prepared w (prepare_message em peer e) b

  unfoldable pub request : Request → Mailbox → Mailbox
  unfolding mailbox_data reset
  request (handle_data peer e w) b = (mailbox_data peer e w b).0
  request reset_all b = reset b

  unfoldable pub requests : List Request → Mailbox → Mailbox
  unfolding request
  requests [] b = b
  requests (r ∷ rs) b = requests rs (request r b)

  -- The message of a request, if the client is answered by 250.
  unfoldable pub answered : Mailbox → Request → List Mail
  unfolding mailbox_data messages is_ok
  answered b (handle_data peer e w) =
      if is_ok (mailbox_data peer e w b).1 then messages (prepare_message em peer e) else []
  answered b reset_all = []

  unfoldable pub all_answered : Mailbox → List Request → List Mail
  unfolding answered
  all_answered b [] = []
  all_answered b (r ∷ rs) = answered b r ++ all_answered b rs

  prepared-mailbox :
      (w : Writing) (o : Option Mail) (b c : Mailbox)
      → (handle_prepared w o b).0.mailbox
        ≡ b.mailbox ++ (if is_ok (handle_prepared w o c).1 then messages o else [])
  unfolding handle_prepared replied handle_message is_ok messages
  prepared-mailbox w none b c = sym (append-nil b.mailbox)
  prepared-mailbox written (some m) b c = refl
  prepared-mailbox (fails name t) (some m) b c = sym (append-nil b.mailbox)

  unreset : (rs : List Request) → has_reset rs ≡ false → since_reset rs ≡ rs
  unfolding has_reset since_reset
  unreset [] h = refl
  unreset (r ∷ rs) h = ground arith

  -- A maildir holds, in their order, the messages whose `handle_DATA` was answered by 250 behind the
  -- last `reset`, and before them, where there was no `reset`, what it held at first: nothing that
  -- was acknowledged is lost, and nothing that was refused is kept.
  pub requests-mailbox :
      (rs : List Request) (b c : Mailbox)
      → (requests rs b).mailbox
        ≡ (if has_reset rs then [] else b.mailbox) ++ all_answered c (since_reset rs)
  unfolding requests has_reset all_answered since_reset request
  requests-mailbox [] b c = sym (append-nil b.mailbox)
  requests-mailbox (reset_all ∷ rs) b c =
      ground (arith, requests-mailbox rs (reset b) c, unreset rs)
  requests-mailbox (handle_data peer e w ∷ rs) b c = ground (
    arith,
    requests-mailbox rs (mailbox_data peer e w b).0 c,
    unreset rs,
    prepared-mailbox w (prepare_message em peer e) b c,
    append_assoc b.mailbox (answered c (handle_data peer e w)) (all_answered c rs),
  )
