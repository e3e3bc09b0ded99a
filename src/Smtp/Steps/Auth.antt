-- ===== src/Smtp/Steps/Auth.antt =====
-- AUTH follows a law.
use aiosmtpd.Prelude.{◌≡◌, Bool, true, false, Option, some, List, [], ◌∷◌}
use aiosmtpd.Prelude.Text.{Text, Bytes, get}
use aiosmtpd.Smtp.State.{Smtp, AuthOutcome, result, value, index_error, Value, missing, none_value}
use aiosmtpd.Smtp.Exec.Moves.{
  Law, Moves, moves_rules, Moves-pure, Moves-bind, Moves-raise, Moves-choose, Moves-match_option_eq,
}
use aiosmtpd.Smtp.Server.{Server, AuthMechanism, plain, login, custom}
use aiosmtpd.Smtp.Auth.{
  challenge_auth, authenticate, plain_fields, initial, auth_plain, auth_login, auth_method,
  conclude, set_login_data, set_authenticated, auth_status, push_status, auth_args, smtp_auth,
}
use aiosmtpd.Smtp.Wire.{readline}
use aiosmtpd.Smtp.Steps.{Core, Hooks, Steps}
use aiosmtpd.Smtp.Steps.Greeting.{Moves-push, Moves-hook, Moves-check_helo}

module _ {L : Law} {srv : Server} (core : Core L srv) (hooks : Hooks L srv)
    (moves_readline : Moves L (readline srv)) where
  Moves-challenge : (c : Bytes) (b : Bool) → Moves L (challenge_auth srv c b)
  unfolding challenge_auth
  Moves-challenge c b =
      Moves-bind _ _ (Moves-push core _)
        λ _. Moves-bind _ _ moves_readline λ line. search (moves_rules, Moves-push core) depth 9

  Moves-authenticate : (m : Text) (l p : Bytes) → Moves L (authenticate srv m l p)
  unfolding authenticate
  Moves-authenticate m l p =
      Moves-match_option_eq srv.authenticator _ _
        (Moves-bind _ _ (hooks.auth_callback m l p) (λ b. search moves_rules))
        (λ h e. hooks.authenticator h e m _)

  Moves-plain_fields : (fs : List Bytes) → Moves L (plain_fields srv fs)
  Moves-plain_fields (a ∷ n ∷ p ∷ []) = Moves-authenticate _ n p
  Moves-plain_fields fs = search (moves_rules, Moves-push core)

  Moves-initial : (c : Text) (args : List Text) → Moves L (initial srv c args)
  Moves-initial c (m ∷ r ∷ rest) = search (moves_rules, Moves-push core)
  Moves-initial c args = Moves-challenge c true

  Moves-auth_plain : (args : List Text) → Moves L (auth_plain srv args)
  unfolding auth_plain
  Moves-auth_plain args = search (moves_rules, Moves-initial, Moves-plain_fields)

  Moves-auth_login : (args : List Text) → Moves L (auth_login srv args)
  unfolding auth_login
  Moves-auth_login args =
      search (moves_rules, Moves-initial, Moves-challenge, Moves-authenticate) depth 7

  pub Moves-auth_method :
      (m : AuthMechanism) (k : Text)
      → get k srv.auth_methods ≡ some m
      → (args : List Text) → Moves L (auth_method srv m args)
  unfolding auth_method
  Moves-auth_method plain k e args = search (moves_rules, Moves-auth_plain)
  Moves-auth_method login k e args = search (moves_rules, Moves-auth_login)
  Moves-auth_method (custom h) k e args = hooks.mechanism k h e args

  module _ (sets_login_data : (v : Value) (s : Smtp) → L.rel s (set_login_data v s))
      (sets_authenticated : (v : Value) (s : Smtp) → L.rel s (set_authenticated v s)) where
    Moves-conclude : (o : AuthOutcome) → Moves L (conclude srv o)
    unfolding conclude
    Moves-conclude (result r) = search (moves_rules, sets_authenticated)
    Moves-conclude (value none_value) = Moves-pure _
    Moves-conclude (value missing) = Moves-pure _
    Moves-conclude (value (Value.bool false)) = Moves-pure _
    Moves-conclude (value v) = search (moves_rules, sets_login_data)

    pub Moves-auth_status :
        (m : AuthMechanism) (k : Text)
        → get k srv.auth_methods ≡ some m
        → (args : List Text) (v : Value) → Moves L (auth_status srv m args v)
    Moves-auth_status m k e args missing =
        Moves-bind _ _ (Moves-auth_method m k e args) Moves-conclude
    Moves-auth_status m k e args v = Moves-pure v

module _ {L : Law} {srv : Server} (st : Steps L srv) where
  Moves-push_status : (v : Value) → Moves L (push_status srv v)
  Moves-push_status none_value = Moves-pure tt
  Moves-push_status v = Moves-push st.core v

  Moves-auth_args : (args : List Text) → Moves L (auth_args srv args)
  unfolding auth_args
  Moves-auth_args [] = Moves-raise index_error (st.core.allows index_error (λ h. cc))
  Moves-auth_args (k ∷ rest) = Moves-choose _ _ _ (Moves-push st.core _) (
      Moves-match_option_eq (get k srv.auth_methods) _ _ (Moves-push st.core _) (λ m e.
        Moves-bind _ _ (Moves-hook st.core _ _)
          λ hooked. Moves-bind _ _ (st.auth_status m k e _ hooked) Moves-push_status))

  pub Moves-smtp_auth : (arg : Option Text) → Moves L (smtp_auth srv arg)
  unfolding smtp_auth
  Moves-smtp_auth arg =
      search (moves_rules, Moves-push st.core, Moves-check_helo st.core, Moves-auth_args) depth 12
