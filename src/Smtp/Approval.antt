-- ===== src/Smtp/Approval.antt =====
-- Nothing authenticates a session but AUTH, by the word of a mechanism (aiosmtpd/smtp.py).
mod Tests
use aiosmtpd.Prelude.{◌≡◌, refl, inl, inr, arith}
use aiosmtpd.Smtp.State.{Smtp}
use aiosmtpd.Smtp.Exec.Moves.{Moves}
use aiosmtpd.Smtp.Server.{Server}
use aiosmtpd.Smtp.Greeting.{grow_mail_limit}
use aiosmtpd.Smtp.Auth.Outcome.{Traced}
use aiosmtpd.Smtp.Steps.{Steps}

module _ (srv : Server) where
  -- The flag as it was.
  Traced-same : (s t : Smtp) → t.session.authenticated ≡ s.session.authenticated → Traced srv s t
  Traced-same s t e h = inl (ground arith)
