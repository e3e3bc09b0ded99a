-- ===== src/Smtp/Auth.antt =====
-- AUTH and its built-in mechanisms: `smtp_AUTH`, `challenge_auth`, `_authenticate`, `auth_PLAIN` and
-- `auth_LOGIN` (aiosmtpd/smtp.py).
pub mod Outcome
use aiosmtpd.Prelude.{Bool, true, false, ◌&&◌, not, Option, none, some, List, [], ◌∷◌, ◌++◌}
use aiosmtpd.Prelude.Tests.{ltb, if◌then◌else◌}
use aiosmtpd.Prelude.Lists.{length}
use aiosmtpd.Prelude.Text.{Text, Bytes, codes, text_eq, get, split, split_on, strip, is_space_byte}
use aiosmtpd.Smtp.State.{
  Value, missing, none_value, bool, str, bytes, strs, login_password, AuthResult, AuthOutcome,
  result, value, Smtp, index_error,
}
use aiosmtpd.Smtp.Exec.{Exec, Done, pure, raise, gets, modify, ◌>>=◌, ◌>>◌, choose, match_option}
use aiosmtpd.Smtp.Server.{Server, AuthMechanism, plain, login, custom}
use aiosmtpd.Smtp.Wire.{push, readline, call_handler_hook}
use aiosmtpd.Smtp.Greeting.{given, check_helo_needed}

-- `AuthResult(success=False)`, which has been handled
abbrev pub handled_failure : AuthResult
handled_failure = record { success = false; handled = true; message = none; auth_data = none_value }

abbrev pub rejected : AuthResult
rejected = record { success = false; handled = false; message = none; auth_data = none_value }

abbrev pub accepted : Value → AuthResult
accepted data_ = record { success = true; handled = true; message = none; auth_data = data_ }

unfoldable pub set_login_data : Value → Smtp → Smtp
set_login_data v s = record s { session = record s.session { login_data = v } }

-- `getattr(_auth_data, "login", None)`
unfoldable pub login_of : Value → Value
login_of (login_password l p) = bytes l
login_of _ = none_value

unfoldable pub set_authenticated : Value → Smtp → Smtp
unfolding login_of
set_authenticated v s = record s {
  session = record s.session { authenticated = true; auth_data = v; login_data = login_of v };
}

module _ (srv : Server) where
  -- The client's answer to a challenge, or `none` for `MISSING`.
  unfoldable pub challenge_auth : Bytes → Bool → Exec (Option Bytes)
  challenge_auth challenge encode_to_b64 = do
    push srv (
        bytes
          (codes "334 " ++ (if encode_to_b64 then srv.library.b64encode challenge else challenge)))
    line ← readline srv
    let blob = strip is_space_byte line
    choose (text_eq blob (42 ∷ [])) (do push srv (str (codes "501 5.7.0 Auth aborted")); pure none)
        (match_option (srv.library.b64decode blob)
          (do push srv (str (codes "501 5.5.2 Can't decode base64")); pure none)
          (λ decoded. pure (some decoded)))

  unfoldable pub authenticate : Text → Bytes → Bytes → Exec AuthResult
  authenticate mechanism name password =
      match_option srv.authenticator
        (do
          good ← srv.auth_callback mechanism name password
          choose good (pure (accepted (login_password name password))) (pure rejected))
        (λ check. check mechanism (login_password name password))

  -- `_, login, password = login_and_password.split(b"\x00")`
  abbrev pub plain_fields : List Bytes → Exec AuthResult
  plain_fields (authz ∷ name ∷ password ∷ []) = authenticate (codes "PLAIN") name password
  plain_fields _ = do
    push srv (str (codes "501 5.5.2 Can't split auth value"))
    pure handled_failure

  -- The initial response, `args[1]`, or the answer to a challenge. `encode()` of the argument fails
  -- on what is not UTF-8, and any failure is answered alike.
  abbrev pub initial : Text → List Text → Exec (Option Bytes)
  initial challenge (mechanism ∷ response ∷ rest) =
      let decoded : Option Bytes = elim (srv.library.encode_utf8 response) [
        | none ↦ none
        | some b ↦ srv.library.b64decode b
      ] in
      match_option decoded (do push srv (str (codes "501 5.5.2 Can't decode base64")); pure none)
        (λ b. pure (some b))
  initial challenge _ = challenge_auth challenge true

  unfoldable pub auth_plain : List Text → Exec AuthResult
  unfolding authenticate
  auth_plain args = do
    credentials ← initial [] args
    match_option credentials (pure handled_failure) (λ b. plain_fields (split_on 0 b))

  unfoldable pub auth_login : List Text → Exec AuthResult
  unfolding authenticate
  auth_login args = do
    name ← initial (codes "User Name" ++ 0 ∷ []) args
    match_option name (pure handled_failure) λ n. do
      password ← challenge_auth (codes "Password" ++ 0 ∷ []) true
      match_option password (pure handled_failure) (λ p. authenticate (codes "LOGIN") n p)

  unfoldable pub auth_method : AuthMechanism → List Text → Exec AuthOutcome
  unfolding auth_plain auth_login
  auth_method plain args = do r ← auth_plain args; pure (result r)
  auth_method login args = do r ← auth_login args; pure (result r)
  auth_method (custom m) args = m args

  -- `auth_result.message or CODE_SUCCESS`
  abbrev pub success_status : Option Text → Value
  success_status message = elim (given message) [
    | none ↦ str (codes "235 2.7.0 Authentication successful")
    | some t ↦ str t
  ]

  abbrev pub invalid : Value
  invalid = str (codes "535 5.7.8 Authentication credentials invalid")

  abbrev pub failure_status : Bool → Option Text → Value
  failure_status true message = none_value
  failure_status false message = elim (given message) [ none ↦ invalid | some t ↦ str t ]

  -- The status for what a mechanism returned: by the new system, or by the old one.
  unfoldable pub conclude : AuthOutcome → Exec Value
  unfolding given set_authenticated set_login_data
  conclude (result r) =
      choose r.success (do modify (set_authenticated r.auth_data); pure (success_status r.message))
        (pure (failure_status r.handled r.message))
  conclude (value none_value) = pure none_value
  conclude (value missing) = pure invalid
  conclude (value (bool false)) = pure invalid
  conclude (value v) = do
    modify (set_login_data v)
    pure (str (codes "235 2.7.0 Authentication successful"))

  -- `status` is the AUTH hook's; without a hook the mechanism decides.
  abbrev pub auth_status : AuthMechanism → List Text → Value → Exec Value
  auth_status m args missing = do outcome ← auth_method m args; conclude outcome
  auth_status m args status = pure status

  abbrev pub push_status : Value → Exec Done
  push_status none_value = pure tt
  push_status status = push srv status

  -- the arguments, once there are some; `args[0]` of none raises
  unfoldable pub auth_args : List Text → Exec Done
  unfolding auth_method conclude
  auth_args [] = raise index_error
  auth_args (mechanism ∷ rest) =
      choose (ltb 1 (length rest)) (push srv (str (codes "501 Too many values"))) (
        match_option (get mechanism srv.auth_methods)
          (push srv (str (codes "504 5.5.4 Unrecognized authentication type")))
          λ m. do
            hooked ← call_handler_hook srv (codes "AUTH") (strs (mechanism ∷ rest) ∷ [])
            status ← auth_status m (mechanism ∷ rest) hooked
            push_status status)

  unfoldable pub smtp_auth : Option Text → Exec Done
  unfolding given auth_args
  smtp_auth arg = do
    needed ← check_helo_needed srv (codes "EHLO")
    s ← gets (λ t. t)
    choose needed (pure tt) (
        choose (not s.session.extended_smtp)
          (push srv (str (codes "500 Error: command 'AUTH' not recognized")))
          (choose (srv.auth_require_tls && not s.tls_protocol)
            (push srv
              (str (codes "538 5.7.11 Encryption required for requested authentication mechanism")))
            (choose s.session.authenticated (push srv (str (codes "503 Already authenticated"))) (
              match_option (given arg) (push srv (str (codes "501 Not enough value")))
                (λ text. auth_args (split srv.library.is_space text))))))
