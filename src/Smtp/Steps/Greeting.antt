-- ===== src/Smtp/Steps/Greeting.antt =====
-- HELO, EHLO and the helpers of all commands follow a law.
use aiosmtpd.Prelude.{ℕ, Bool, true, false, Option, none, some, List, [], ◌∷◌}
use aiosmtpd.Prelude.Tests.{if◌then◌else◌}
use aiosmtpd.Prelude.Text.{Text, Bytes, get, is_ascii}
use aiosmtpd.Smtp.State.{Value, missing, ok, err, unicode_error, assertion_error, type_error}
use aiosmtpd.Smtp.Exec.{pure, match_option}
use aiosmtpd.Smtp.Exec.Moves.{
  Law, Moves, Permits, moves_rules, Moves-lift, Moves-pure, Moves-bind, Moves-match_option_eq,
}
use aiosmtpd.Smtp.Server.{Server, EhloHook, old_style, new_style}
use aiosmtpd.Smtp.Wire.{push, encode, match_result, call_handler_hook}
use aiosmtpd.Smtp.Greeting.{
  check_helo_needed, check_auth_needed, smtp_helo, smtp_ehlo, push_all, items, ehlo_reply, greeted,
}
use aiosmtpd.Smtp.Steps.{Core, Steps}

module _ {L : Law} {srv : Server} (c : Core L srv) where
  encode_option : (o : Option Bytes) → Permits L (match_result o)
  encode_option none = c.allows unicode_error (λ h. cc)
  encode_option (some b) = tt

  encode_ascii : (b : Bool) (t : Text) → Permits L (if b then ok t else err unicode_error)
  encode_ascii true t = tt
  encode_ascii false t = c.allows unicode_error (λ h. cc)

  encode_str :
      (b : Bool) (t : Text)
      → Permits L (
          if b
          then match_result (srv.library.encode_utf8 t)
          else (if is_ascii t then ok t else err unicode_error))
  encode_str true t = encode_option (srv.library.encode_utf8 t)
  encode_str false t = encode_ascii (is_ascii t) t

  encode-Permits : (v : Value) → Permits L (encode srv v)
  unfolding encode
  encode-Permits (Value.str t) = encode_str srv.enable_smtputf8 t
  encode-Permits (Value.bytes b) = tt
  encode-Permits v = c.allows assertion_error (λ h. cc)

  pub Moves-push : (v : Value) → Moves L (push srv v)
  unfolding push
  Moves-push v = search (Moves-bind, Moves-lift, encode-Permits, c.write)

  pub Moves-hook : (k : Text) (args : List Value) → Moves L (call_handler_hook srv k args)
  unfolding call_handler_hook
  Moves-hook k args =
      Moves-match_option_eq (get k srv.handle_hooks) _ _ (Moves-pure missing)
        (λ h e. c.hook k h e args)

  pub Moves-check_helo : (t : Text) → Moves L (check_helo_needed srv t)
  unfolding check_helo_needed
  Moves-check_helo t = search (moves_rules, Moves-push)

  pub Moves-check_auth : Moves L (check_auth_needed srv)
  unfolding check_auth_needed
  Moves-check_auth = search (moves_rules, Moves-push)

module _ {L : Law} {srv : Server} (st : Steps L srv) where
  Moves-greeted : (c : ℕ) (t : Text) (v : Value) → Moves L (greeted srv (c ∷ t) v)
  Moves-greeted c t missing = search (moves_rules, st.set_host_name)
  Moves-greeted c t v = search moves_rules

  pub Moves-smtp_helo : (arg : Option Text) → Moves L (smtp_helo srv arg)
  unfolding smtp_helo
  Moves-smtp_helo none = Moves-push st.core _
  Moves-smtp_helo (some []) = Moves-push st.core _
  Moves-smtp_helo (some (c ∷ t)) =
      search
        (
          moves_rules,
          Moves-push st.core,
          Moves-hook st.core,
          Moves-greeted,
          st.set_rset_state,
          st.set_extended,
        )
        depth 9

  Moves-push_all : (vs : List Value) → Moves L (push_all srv vs)
  unfolding push_all
  Moves-push_all [] = Moves-pure tt
  Moves-push_all (v ∷ vs) = Moves-bind _ _ (Moves-push st.core v) (λ _. Moves-push_all vs)

  items-Permits : (v : Value) → Permits L (items srv v)
  unfolding items
  items-Permits (Value.strs ts) = tt
  items-Permits (Value.str t) = tt
  items-Permits (Value.bytes b) = tt
  items-Permits (Value.login_password l p) = tt
  items-Permits v = st.core.allows type_error (λ h. cc)

  Moves-ehlo_reply :
      (ver : Option EhloHook) (c : ℕ) (t : Text) (response : List Text)
      → Moves L (ehlo_reply srv ver (c ∷ t) response)
  unfolding ehlo_reply
  Moves-ehlo_reply none c t response = search (moves_rules, Moves-push_all, st.set_host_name)
  Moves-ehlo_reply (some old_style) c t response =
      search (moves_rules, Moves-push_all, Moves-hook st.core)
  Moves-ehlo_reply (some new_style) c t response =
      search (moves_rules, Moves-push_all, Moves-hook st.core, Moves-lift, items-Permits)

  Moves-ehlo_hook : Moves L (match_option srv.ehlo_hook (pure tt) (λ hook. hook))
  Moves-ehlo_hook =
      Moves-match_option_eq srv.ehlo_hook _ _ (Moves-pure tt) (λ h e. st.hooks.ehlo h e)

  pub Moves-smtp_ehlo : (arg : Option Text) → Moves L (smtp_ehlo srv arg)
  unfolding smtp_ehlo
  Moves-smtp_ehlo none = Moves-push st.core _
  Moves-smtp_ehlo (some []) = Moves-push st.core _
  Moves-smtp_ehlo (some (c ∷ t)) =
      search
        (
          moves_rules, Moves-ehlo_reply, Moves-ehlo_hook, st.set_rset_state, st.set_extended,
          st.ehlo_limits,
        )
        depth 9
