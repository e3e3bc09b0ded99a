-- ===== src/Handlers/Deliver.antt =====
-- `Proxy._deliver` of aiosmtpd/handlers.py: who was refused, by what `smtplib` does.
use aiosmtpd.Prelude.{ℕ, ◌≡◌, refl, ◌⊎◌, Option, none, some, List, [], ◌∷◌, arith}
use aiosmtpd.Prelude.Tests.{if◌then◌else◌}
use aiosmtpd.Prelude.Text.{Text, Bytes, Dict, codes, text_eq_iff, contains, get, put, get-put}

-- The code and the text of a refusal; `none` is the code -1.
pub record Refusal : Type 0 where
  pub code : Option ℕ
  pub text : Bytes

-- What a call of `smtplib` raises: `SMTPRecipientsRefused` with what it carries; another
-- `SMTPException` or an `OSError`, with the `smtp_code` and `smtp_error` that it may have; or
-- anything else.
pub data Raised : Type 0 where
  recipients_refused : Dict Refusal → Raised
  failed : Option ℕ → Option Bytes → Raised
  foreign : Text → Raised

-- A call that returns a value, or raises.
pub data Call (A : Type 0) : Type 0 where
  returns : A → Call A
  throws : Raised → Call A

-- `connect`, `sendmail` and `quit`, as they go this time.
pub record Remote : Type 0 where
  pub connect : Call Unit
  pub sendmail : Call (Dict Refusal)
  pub quit : Call Unit

-- the inner `try`: an exception of `quit` takes the place of what came before; the second part
-- is what `refused` is then
unfoldable pub after_quit : Call Unit → Call (Dict Refusal) → Call Unit × Dict Refusal
after_quit (throws e) (returns d) = (throws e, d)
after_quit (throws e) (throws e') = (throws e, [])
after_quit (returns _) (returns d) = (returns tt, d)
after_quit (returns _) (throws e') = (throws e', [])

unfoldable pub converse : Call Unit → Remote → Call Unit × Dict Refusal
unfolding after_quit
converse (throws e) r = (throws e, [])
converse (returns _) r = after_quit r.quit r.sendmail

-- `getattr(e, "smtp_error", b"ignore")`
unfoldable pub error_text : Option Bytes → Bytes
error_text none = codes "ignore"
error_text (some t) = t

-- the loop over the recipients
unfoldable pub refuse_all : Refusal → List Text → Dict Refusal → Dict Refusal
refuse_all e [] d = d
refuse_all e (r ∷ rs) d = refuse_all e rs (put r e d)

-- the two `except`s; what they do not catch goes on
unfoldable pub by_exception : List Text → Call Unit → Dict Refusal → Call (Dict Refusal)
unfolding error_text refuse_all
by_exception rcpt_tos (returns _) d = returns d
by_exception rcpt_tos (throws (recipients_refused d')) d = returns d'
by_exception rcpt_tos (throws (failed code text)) d =
    returns (refuse_all (record { code = code; text = error_text text }) rcpt_tos d)
by_exception rcpt_tos (throws (foreign t)) d = throws (foreign t)

-- `_deliver`
unfoldable pub deliver_message : List Text → Remote → Call (Dict Refusal)
unfolding converse by_exception
deliver_message rcpt_tos r = let (c, d) = converse r.connect r in by_exception rcpt_tos c d

get-refuse_all :
    (e : Refusal) (rs : List Text) (d : Dict Refusal) (r : Text)
    → get r (refuse_all e rs d) ≡ (if contains rs r then some e else get r d)
unfolding refuse_all contains
get-refuse_all e [] d r = refl
get-refuse_all e (s ∷ rs) d r =
    ground
      (arith, get-refuse_all e rs (put s e d) r, get-put s r e d, text_eq_iff s r, text_eq_iff r s)

-- A call fails by this code and this text.
abbrev pub FailsBy : {A : Type 0} → Option ℕ → Option Bytes → Call A → Type 0
FailsBy code text c = c ≡ throws (failed code text)

-- The failure of the conversation that `_deliver` sees: of connecting; behind that, of taking leave,
-- which is tried whatever became of sending; or of sending alone.
abbrev pub Fails : Remote → Option ℕ → Option Bytes → Type 0
Fails r code text =
    FailsBy code text r.connect
    ⊎ ((r.connect ≡ returns tt) × FailsBy code text r.quit)
    ⊎ ((r.connect ≡ returns tt) × (r.quit ≡ returns tt) × FailsBy code text r.sendmail)

-- Whom the remote server had refused: what `sendmail` returned, if there was a connection.
abbrev pub refused_of : Call (Dict Refusal) → Dict Refusal
refused_of (returns d) = d
refused_of (throws e) = []

abbrev pub earlier : Remote → Dict Refusal
earlier r = elim r.connect [ returns c ↦ refused_of r.sendmail | throws e ↦ [] ]

converse-Fails :
    (r : Remote) (code : Option ℕ) (text : Option Bytes)
    → Fails r code text
    → converse r.connect r ≡ (throws (failed code text), earlier r)
unfolding converse after_quit
converse-Fails r code text h = ground arith

-- When connecting, taking leave or, with neither of these, sending fails by an error other than the
-- refusal of all recipients, then every recipient is said to be refused with the error's code and text,
-- or with -1 and "ignore" where it has none; of others nothing is said that the server has not said
-- in answer to `sendmail`.
pub deliver-failed :
    (rcpt_tos : List Text) (r : Remote) (code : Option ℕ) (text : Option Bytes)
    → Fails r code text
    → (d : Dict Refusal) × (deliver_message rcpt_tos r ≡ returns d)
      × ((rcpt : Text)
          → get rcpt d ≡ (
              if contains rcpt_tos rcpt
              then some (record { code = code; text = error_text text })
              else get rcpt (earlier r)))
unfolding deliver_message
deliver-failed rcpt_tos r code text h =
    let e : Refusal = record { code = code; text = error_text text } in
    (
      refuse_all e rcpt_tos (earlier r),
      rw (converse-Fails r code text h) refl,
      get-refuse_all e rcpt_tos (earlier r),
    )
