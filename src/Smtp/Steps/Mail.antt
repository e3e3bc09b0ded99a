-- ===== src/Smtp/Steps/Mail.antt =====
-- MAIL and RCPT follow a law that allows any sender and any recipient.
use aiosmtpd.Prelude.{ℕ, Bool, Option, none, some, List, [], ◌∷◌}
use aiosmtpd.Prelude.Text.{Text, Dict}
use aiosmtpd.Smtp.State.{Smtp, Value, missing, value_error}
use aiosmtpd.Smtp.Exec.Moves.{Law, Moves, moves_rules, Moves-raise}
use aiosmtpd.Smtp.Server.{Server}
use aiosmtpd.Smtp.Address.{Param, flag, text_value}
use aiosmtpd.Smtp.Mail.{
  set_sender, mail_hooked, mail_accept, mail_size, mail_utf8, mail_params, mail_address, mail_arg,
  smtp_mail,
}
use aiosmtpd.Smtp.Rcpt.{add_recipient, rcpt_hooked, rcpt_accept, rcpt_address, rcpt_arg, smtp_rcpt}
use aiosmtpd.Smtp.Steps.{Core}
use aiosmtpd.Smtp.Steps.Greeting.{Moves-push, Moves-hook, Moves-check_helo, Moves-check_auth}

module _ {L : Law} {srv : Server} (c : Core L srv) where
  module _
      (accept : (x : ℕ) (address : Text) (options : List Text)
        → Moves L (mail_accept srv (x ∷ address) options)) where
    Moves-mail_size :
        (e : Text) (x : ℕ) (a : Text) (os : List Text) (ps : Dict Param) (p : Option Param)
        → Moves L (mail_size srv e (x ∷ a) os ps p)
    unfolding mail_size
    Moves-mail_size e x a os ps none = search (moves_rules, Moves-push c, accept)
    Moves-mail_size e x a os ps (some flag) = Moves-push c _
    Moves-mail_size e x a os ps (some (text_value t)) =
        search (moves_rules, Moves-push c, accept, Moves-raise, c.allows value_error (λ h. cc))
          depth 9

    Moves-mail_utf8 :
        (e : Text) (x : ℕ) (a : Text) (os : List Text) (ps : Dict Param) (p : Option Param)
        → Moves L (mail_utf8 srv e (x ∷ a) os ps p)
    unfolding mail_utf8
    Moves-mail_utf8 e x a os ps none =
        search (moves_rules, Moves-push c, Moves-mail_size, c.set_smtp_utf8)
    Moves-mail_utf8 e x a os ps (some flag) =
        search (moves_rules, Moves-push c, Moves-mail_size, c.set_smtp_utf8)
    Moves-mail_utf8 e x a os ps (some (text_value t)) = Moves-push c _

    Moves-mail_params :
        (e : Text) (x : ℕ) (a : Text) (os : List Text) (ps : Dict Param)
        → Moves L (mail_params srv e (x ∷ a) os ps)
    unfolding mail_params
    Moves-mail_params e x a os ps = search (moves_rules, Moves-push c, Moves-mail_utf8)

    pub Moves-mail_address : (e : Text) (x : Bool) (a r : Text) → Moves L (mail_address srv e x a r)
    unfolding mail_address
    Moves-mail_address e x [] r = Moves-push c _
    Moves-mail_address e x (y ∷ a) r = search (moves_rules, Moves-push c, Moves-mail_params) depth 9

    pub Moves-mail_arg : (arg : Option Text) → Moves L (mail_arg srv arg)
    unfolding mail_arg
    Moves-mail_arg arg = search (moves_rules, Moves-push c, Moves-mail_address) depth 9

  Moves-mail_hooked :
      (a : Text)
      → ((os : List Text) (s : Smtp) → L.rel s (set_sender a os s))
      → (os : List Text) (v : Value) → Moves L (mail_hooked srv a os v)
  Moves-mail_hooked a sets os missing = search (moves_rules, sets)
  Moves-mail_hooked a sets os v = search moves_rules

  pub Moves-mail_accept :
      (a : Text)
      → ((os : List Text) (s : Smtp) → L.rel s (set_sender a os s))
      → (os : List Text) → Moves L (mail_accept srv a os)
  unfolding mail_accept
  Moves-mail_accept a sets os =
      search (moves_rules, Moves-push c, Moves-hook c, Moves-mail_hooked a sets)

  pub Moves-smtp_mail :
      ((a : Text) (os : List Text) (s : Smtp) → L.rel s (set_sender a os s))
      → (arg : Option Text) → Moves L (smtp_mail srv arg)
  unfolding smtp_mail
  Moves-smtp_mail sets arg =
      search
        (
          moves_rules,
          Moves-check_helo c,
          Moves-check_auth,
          Moves-mail_arg (λ x a. Moves-mail_accept (x ∷ a) (sets (x ∷ a))),
        )
        depth 9

  module _
      (accept : (address : Text) (options : List Text)
        → Moves L (rcpt_accept srv address options)) where
    Moves-rcpt_address : (e : Text) (x : Bool) (a r : Text) → Moves L (rcpt_address srv e x a r)
    unfolding rcpt_address
    Moves-rcpt_address e x a r = search (moves_rules, Moves-push c, accept) depth 9

    pub Moves-rcpt_arg : (arg : Option Text) → Moves L (rcpt_arg srv arg)
    unfolding rcpt_arg
    Moves-rcpt_arg arg = search (moves_rules, Moves-push c, Moves-rcpt_address) depth 9

  Moves-rcpt_hooked :
      ((a : Text) (os : List Text) (s : Smtp) → L.rel s (add_recipient a os s))
      → (a : Text) (os : List Text) (v : Value) → Moves L (rcpt_hooked srv a os v)
  Moves-rcpt_hooked adds a os missing = search (moves_rules, adds)
  Moves-rcpt_hooked adds a os v = search moves_rules

  pub Moves-rcpt_accept :
      ((a : Text) (os : List Text) (s : Smtp) → L.rel s (add_recipient a os s))
      → (a : Text) (os : List Text) → Moves L (rcpt_accept srv a os)
  unfolding rcpt_accept
  Moves-rcpt_accept adds a os =
      search (moves_rules, Moves-push c, Moves-hook c, Moves-rcpt_hooked adds)

  pub Moves-smtp_rcpt :
      ((a : Text) (os : List Text) (s : Smtp) → L.rel s (add_recipient a os s))
      → (arg : Option Text) → Moves L (smtp_rcpt srv arg)
  unfolding smtp_rcpt
  Moves-smtp_rcpt adds arg =
      search
        (
          moves_rules,
          Moves-push c,
          Moves-check_helo c,
          Moves-check_auth,
          Moves-rcpt_arg (Moves-rcpt_accept adds),
        )
        depth 12
