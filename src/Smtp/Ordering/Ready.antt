-- ===== src/Smtp/Ordering/Ready.antt =====
-- What MAIL and RCPT have checked before they change the envelope, and that their last steps keep it
-- (aiosmtpd/smtp.py).
use aiosmtpd.Prelude.{ℕ, ◌≡◌, true, false, Option, some, List, ◌∷◌, arith}
use aiosmtpd.Prelude.Text.{Text, get}
use aiosmtpd.Smtp.State.{Smtp, Value, Result, ok, err}
use aiosmtpd.Smtp.Exec.Moves.{Law, Permits}
use aiosmtpd.Smtp.Server.{Server, Hook}
use aiosmtpd.Smtp.Wire.{write}
use aiosmtpd.Smtp.Greeting.{given}
use aiosmtpd.Smtp.Mail.{set_sender, set_smtp_utf8, mail_arg}
use aiosmtpd.Smtp.Rcpt.{add_recipient, rcpt_arg}
use aiosmtpd.Smtp.Steps.{Core}
use aiosmtpd.Smtp.Steps.Mail.{Moves-mail_arg, Moves-mail_accept, Moves-rcpt_arg, Moves-rcpt_accept}
use aiosmtpd.Smtp.Ordering.{
  is_greeted, needs_auth, has_sender, IsOrdered, ordered_law, ordered-Permits, ordered_write,
}

-- What MAIL has checked before it changes the envelope, and what RCPT has.
pub record IsReady (srv : Server) (s : Smtp) : Type 0 where
  pub ordered : IsOrdered srv s
  pub greeted : is_greeted s ≡ true
  pub authenticated : needs_auth srv s ≡ false

pub record IsSending (srv : Server) (s : Smtp) : Type 0 where
  pub ordered : IsOrdered srv s
  pub sender : has_sender s ≡ true

-- What is asked of the hooks of commands: that they keep the order, and take away neither the
-- greeting, nor the authentication, nor the sender.
pub record IsPatient (srv : Server) (s t : Smtp) : Type 0 where
  pub ordered : IsOrdered srv s → IsOrdered srv t
  pub greeted : is_greeted s ≡ true → is_greeted t ≡ true
  pub authenticated : needs_auth srv s ≡ false → needs_auth srv t ≡ false
  pub sender : has_sender s ≡ true → has_sender t ≡ true

abbrev pub Patience : Server → Type 0
Patience srv =
    (k : Text) (h : Hook)
    → get k srv.handle_hooks ≡ some h
    → (args : List Value) (s : Smtp) → IsPatient srv s (h args s).1

module _ (srv : Server) (P : Smtp → Type 0) where
  abbrev keeps : Law
  keeps = record {
    rel = λ s t. P s → P t;
    allowed = λ e. Unit;
    stay = λ s h. h;
    next = λ s t u h k p. k (h p);
  }

  keeps_Permits {ℓ} : {A : Type ℓ} (r : Result A) → Permits keeps r
  keeps_Permits (ok a) = tt
  keeps_Permits (err e) = tt

module _ {srv : Server} (patience : Patience srv) where
  pub IsReady-Core : Core (keeps srv (IsReady srv)) srv
  unfolding write set_smtp_utf8
  IsReady-Core = record {
    hook = λ k h e args. record {
      at = λ s r.
          let p = patience k h e args s in
          record {
            ordered = p.ordered r.ordered;
            greeted = p.greeted r.greeted;
            authenticated = p.authenticated r.authenticated;
          };
      ends = λ s. keeps_Permits srv (IsReady srv) _;
    };
    allows = λ e h. tt;
    write = λ b. record { at = λ s h. ground arith; ends = λ s. keeps_Permits srv (IsReady srv) _ };
    set_smtp_utf8 = λ b s h. ground arith;
  }

  pub IsSending-Core : Core (keeps srv (IsSending srv)) srv
  unfolding write set_smtp_utf8
  IsSending-Core = record {
    hook = λ k h e args. record {
      at = λ s r.
          let p = patience k h e args s in
          record { ordered = p.ordered r.ordered; sender = p.sender r.sender };
      ends = λ s. keeps_Permits srv (IsSending srv) _;
    };
    allows = λ e h. tt;
    write =
        λ b. record { at = λ s h. ground arith; ends = λ s. keeps_Permits srv (IsSending srv) _ };
    set_smtp_utf8 = λ b s h. ground arith;
  }

  pub IsReady-sender :
      (c : ℕ) (a : Text) (os : List Text) (s : Smtp)
      → IsReady srv s
      → IsReady srv (set_sender (c ∷ a) os s)
  unfolding set_sender given
  IsReady-sender c a os s h = ground arith

  pub IsSending-recipient :
      (a : Text) (os : List Text) (s : Smtp)
      → IsSending srv s
      → IsSending srv (add_recipient a os s)
  unfolding add_recipient
  IsSending-recipient a os s h = ground arith

  pub mail_arg-IsReady :
      (arg : Option Text) (s : Smtp) → IsReady srv s → IsReady srv (mail_arg srv arg s).1
  mail_arg-IsReady arg =
      (Moves-mail_arg IsReady-Core
        (λ x a. Moves-mail_accept IsReady-Core (x ∷ a) (IsReady-sender x a)) arg).at

  pub rcpt_arg-IsSending :
      (arg : Option Text) (s : Smtp) → IsSending srv s → IsSending srv (rcpt_arg srv arg s).1
  rcpt_arg-IsSending arg =
      (Moves-rcpt_arg IsSending-Core (Moves-rcpt_accept IsSending-Core IsSending-recipient) arg).at

  pub ordered-Core : Core (ordered_law srv) srv
  unfolding set_smtp_utf8
  ordered-Core = record {
    hook = λ k h e args. record {
      at = λ s. (patience k h e args s).ordered;
      ends = λ s. ordered-Permits srv _;
    };
    allows = λ e h. tt;
    write = ordered_write srv;
    set_smtp_utf8 = λ b s h. ground arith;
  }
