-- ===== src/Smtp/Greeting.antt =====
-- HELO and EHLO, and the checks that other commands make first (aiosmtpd/smtp.py).
use aiosmtpd.Prelude.{
  ℕ, zero, suc, ◌+◌, Bool, true, false, ◌&&◌, ◌||◌, not, Option, none, some, List, [], ◌∷◌, ◌++◌,
  map,
}
use aiosmtpd.Prelude.Tests.{if◌then◌else◌}
use aiosmtpd.Prelude.Text.{Text, codes, decimal, get, put, sorted, join}
use aiosmtpd.Smtp.State.{
  Value, missing, none_value, str, bytes, strs, login_password, Smtp, type_error, Result, ok, err,
}
use aiosmtpd.Smtp.Exec.{Exec, Done, pure, gets, lift, modify, ◌>>=◌, ◌>>◌, choose, match_option}
use aiosmtpd.Smtp.Server.{Server, EhloHook, old_style, new_style}
use aiosmtpd.Smtp.Wire.{push, call_handler_hook, set_rset_state}

-- An optional text that is there and not empty.
unfoldable pub given : Option Text → Option Text
given none = none
given (some []) = none
given (some (c ∷ t)) = some (c ∷ t)

-- An optional limit that is there and not zero.
unfoldable pub limit_of : Option ℕ → Option ℕ
limit_of none = none
limit_of (some zero) = none
limit_of (some (suc n)) = some (suc n)

-- The assignments to attributes of the session.
unfoldable pub set_extended : Bool → Smtp → Smtp
set_extended b s = record s { session = record s.session { extended_smtp = b } }

unfoldable pub set_host_name : Text → Smtp → Smtp
set_host_name t s = record s { session = record s.session { host_name = some t } }

module _ (srv : Server) where
  unfoldable pub check_helo_needed : Text → Exec Bool
  unfolding given
  check_helo_needed helo = do
    host ← gets (λ s. given s.session.host_name)
    match_option host
        (do push srv (str (codes "503 Error: send " ++ helo ++ codes " first")); pure true)
        (λ _. pure false)

  unfoldable pub check_auth_needed : Exec Bool
  check_auth_needed = do
    authenticated ← gets (λ s. s.session.authenticated)
    choose (srv.auth_required && not authenticated)
        (do push srv (str (codes "530 5.7.0 Authentication required")); pure true) (pure false)

  abbrev pub greeted : Text → Value → Exec Value
  greeted hostname missing = do
    modify (set_host_name hostname)
    pure (str (codes "250 " ++ srv.hostname))
  greeted hostname status = pure status

  unfoldable pub smtp_helo : Option Text → Exec Done
  unfolding given
  smtp_helo hostname =
      match_option (given hostname) (push srv (str (codes "501 Syntax: HELO hostname"))) λ name. do
        modify set_rset_state
        modify (set_extended false)
        status ← call_handler_hook srv (codes "HELO") (str name ∷ [])
        reply ← greeted name status
        push srv reply

  -- `self.command_size_limits['MAIL'] += n`, on a `defaultdict`
  unfoldable pub grow_mail_limit : ℕ → Smtp → Smtp
  grow_mail_limit n s =
      let now : ℕ = elim (get (codes "MAIL") s.command_size_limits) [
        | none ↦ srv.command_size_limit
        | some k ↦ k
      ] in
      record s { command_size_limits = put (codes "MAIL") (now + n) s.command_size_limits }

  -- The responses of EHLO before the hook, in the order in which they are appended.
  unfoldable pub ehlo_response : Smtp → List Text
  unfolding limit_of
  ehlo_response s =
      (codes "250-" ++ srv.hostname) ∷ elim (limit_of srv.data_size_limit) [
        | none ↦ []
        | some n ↦ (codes "250-SIZE " ++ decimal n) ∷ []
      ]
      ++ (if srv.decode_data then [] else codes "250-8BITMIME" ∷ [])
      ++ (if srv.enable_smtputf8 then codes "250-SMTPUTF8" ∷ [] else [])
      ++ (if srv.tls_context && not s.tls_protocol then codes "250-STARTTLS" ∷ [] else [])
      ++ (if not srv.auth_require_tls || s.tls_protocol
          then (codes "250-AUTH " ++ join (32 ∷ []) (sorted (map (λ m. m.0) srv.auth_methods))) ∷ []
          else [])

  -- The room that MAIL gets for the parameters that EHLO announces.
  unfoldable pub ehlo_limits : Smtp → Smtp
  unfolding grow_mail_limit limit_of
  ehlo_limits s =
      let sized : Smtp = elim (limit_of srv.data_size_limit) [
        | none ↦ s
        | some n ↦ grow_mail_limit 26 s
      ] in
      if srv.enable_smtputf8 then grow_mail_limit 10 sized else sized

  -- `for r in response: await self.push(r)`
  unfoldable pub push_all : List Value → Exec Done
  push_all [] = pure tt
  push_all (r ∷ rs) = push srv r >> push_all rs

  -- What a `for` loop over a hook's value goes through.
  unfoldable pub items : Value → Result (List Value)
  items (strs ts) = ok (map str ts)
  items (str t) = ok (map (λ c. str (c ∷ [])) t)
  items (bytes b) = ok (map (λ c. none_value) b)
  items (login_password l p) = ok (bytes l ∷ bytes p ∷ [])
  items _ = err type_error

  unfoldable pub ehlo_reply : Option EhloHook → Text → List Text → Exec Done
  unfolding push_all items set_host_name
  ehlo_reply none hostname response = do
    modify (set_host_name hostname)
    push_all (map str (response ++ codes "250 HELP" ∷ []))
  ehlo_reply (some old_style) hostname response = do
    push_all (map str response)
    status ← call_handler_hook srv (codes "EHLO") (str hostname ∷ [])
    push_all (status ∷ [])
  ehlo_reply (some new_style) hostname response = do
    replaced ←
        call_handler_hook srv (codes "EHLO")
          (str hostname ∷ strs (response ++ codes "250 HELP" ∷ []) ∷ [])
    responses ← lift (items replaced)
    push_all responses

  unfoldable pub smtp_ehlo : Option Text → Exec Done
  unfolding given ehlo_limits ehlo_response
  smtp_ehlo hostname =
      match_option (given hostname) (push srv (str (codes "501 Syntax: EHLO hostname"))) λ name. do
        modify set_rset_state
        modify (set_extended true)
        response ← gets ehlo_response
        modify ehlo_limits
        match_option srv.ehlo_hook (pure tt) (λ hook. hook)
        ehlo_reply srv.ehlo_hook_ver name response
