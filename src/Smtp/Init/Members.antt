-- ===== src/Smtp/Init/Members.antt =====
-- What `SMTP.__init__` (aiosmtpd/smtp.py) finds among the members of the server and of its handler.
use aiosmtpd.Prelude.{ℕ, zero, suc, ◌-◌, Bool, Option, none, some, List, [], ◌∷◌, ◌++◌}
use aiosmtpd.Prelude.Tests.{if◌then◌else◌}
use aiosmtpd.Prelude.Lists.{length}
use aiosmtpd.Prelude.Text.{Text, Dict, codes, starts_with, put, remove}
use aiosmtpd.Smtp.Server.{
  Method, helo, ehlo, noop, quit, starttls, auth, help, vrfy, mail, rcpt, rset, data_method, expn,
  lmtp_lhlo, lmtp_helo, lmtp_ehlo, Hook, AuthMechanism, plain, login,
}

-- `t.replace(old, new)`; `skip` counts the characters of an occurrence that are still to be passed.
unfoldable pub replace_from : Text → Text → ℕ → Text → Text
unfolding starts_with
replace_from old new skip [] = []
replace_from old new (suc k) (x ∷ xs) = replace_from old new k xs
replace_from old new zero (x ∷ xs) =
    let hit = starts_with old (x ∷ xs) in
    let rest = replace_from old new (if hit then length old - 1 else 0) xs in
    if hit then new ++ rest else x ∷ rest

unfoldable pub replace : Text → Text → Text → Text
unfolding replace_from
replace old new t = replace_from old new 0 t

-- A member of the server or of its handler that may be an AUTH mechanism: its name, the name that the
-- decorator `auth_mechanism` gave it, and what it does.
pub record Member : Type 0 where
  pub name : Text
  pub given : Option Text
  pub mechanism : AuthMechanism

-- `getattr(mfunc, "__auth_mechanism_name__", …)`
unfoldable pub mechanism_name : Option Text → Text → Text
unfolding replace
mechanism_name (some n) name = n
mechanism_name none name = replace (codes "__") (codes "-") (replace (codes "auth_") [] name)

unfoldable pub is_mechanism : Member → Bool
unfolding starts_with
is_mechanism m = starts_with (codes "auth_") m.name

-- One turn of the comprehension of `_auth_methods`.
unfoldable pub add_mechanism : Member → Dict AuthMechanism → Dict AuthMechanism
add_mechanism m d = if is_mechanism m then put (mechanism_name m.given m.name) m.mechanism d else d

-- The comprehension over the members of one object.
unfoldable pub add_mechanisms : List Member → Dict AuthMechanism → Dict AuthMechanism
add_mechanisms [] d = d
add_mechanisms (m ∷ ms) d = add_mechanisms ms (add_mechanism m d)

unfoldable pub exclude : List Text → Dict AuthMechanism → Dict AuthMechanism
exclude [] d = d
exclude (m ∷ ms) d = exclude ms (remove m d)

-- `_auth_methods`
unfoldable pub auth_methods : List Member → List Member → List Text → Dict AuthMechanism
auth_methods own handlers excluded =
    exclude excluded (add_mechanisms handlers (add_mechanisms own []))

-- The mechanisms of `SMTP` itself.
unfoldable pub builtin_members : List Member
builtin_members =
    record { name = codes "auth_LOGIN"; given = none; mechanism = login }
    ∷ record { name = codes "auth_PLAIN"; given = none; mechanism = plain }
    ∷ []

-- `_handle_hooks`, of the members of the handler
unfoldable pub handle_hooks : List (Text × Hook) → Dict Hook → Dict Hook
unfolding replace starts_with
handle_hooks [] d = d
handle_hooks ((m, h) ∷ ms) d =
    handle_hooks ms
      (if starts_with (codes "handle_") m then put (replace (codes "handle_") [] m) h d else d)

-- `_smtp_methods` of `SMTP`, and of `LMTP`
unfoldable pub smtp_methods : Dict Method
smtp_methods =
    (codes "AUTH", auth)
    ∷ (codes "DATA", data_method)
    ∷ (codes "EHLO", ehlo)
    ∷ (codes "EXPN", expn)
    ∷ (codes "HELO", helo)
    ∷ (codes "HELP", help)
    ∷ (codes "MAIL", mail)
    ∷ (codes "NOOP", noop)
    ∷ (codes "QUIT", quit)
    ∷ (codes "RCPT", rcpt)
    ∷ (codes "RSET", rset)
    ∷ (codes "STARTTLS", starttls)
    ∷ (codes "VRFY", vrfy)
    ∷ []

unfoldable pub lmtp_methods : Dict Method
unfolding smtp_methods
lmtp_methods =
    put (codes "LHLO") lmtp_lhlo
      (put (codes "HELO") lmtp_helo (put (codes "EHLO") lmtp_ehlo smtp_methods))
