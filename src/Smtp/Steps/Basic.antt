-- ===== src/Smtp/Steps/Basic.antt =====
-- NOOP, QUIT, STARTTLS, HELP, VRFY, RSET and EXPN follow a law.
use aiosmtpd.Prelude.{true, Option}
use aiosmtpd.Prelude.Text.{Text}
use aiosmtpd.Smtp.Exec.{pure, match_option}
use aiosmtpd.Smtp.Exec.Moves.{
  Law, Moves, moves_rules, Moves-pure, Moves-bind, Moves-modify, Moves-match_option_eq,
}
use aiosmtpd.Smtp.Server.{Server, Method}
use aiosmtpd.Smtp.Basic.{
  smtp_noop, smtp_quit, smtp_starttls, smtp_help, smtp_vrfy, smtp_rset, smtp_expn,
  connection_made_tls, start_tls, help_for,
}
use aiosmtpd.Smtp.Steps.{Steps}
use aiosmtpd.Smtp.Steps.Greeting.{Moves-push, Moves-hook, Moves-check_auth}

module _ {L : Law} {srv : Server} (st : Steps L srv) where
  pub Moves-smtp_noop : (arg : Option Text) → Moves L (smtp_noop srv arg)
  unfolding smtp_noop
  Moves-smtp_noop arg = search (moves_rules, Moves-push st.core, Moves-hook st.core)

  pub Moves-smtp_quit : (arg : Option Text) → Moves L (smtp_quit srv arg)
  unfolding smtp_quit
  Moves-smtp_quit arg =
      search (moves_rules, Moves-push st.core, Moves-hook st.core, st.close_transport) depth 9

  Moves-starttls_hook : Moves L (match_option srv.starttls_hook (pure true) (λ hook. hook))
  Moves-starttls_hook =
      Moves-match_option_eq srv.starttls_hook _ _ (Moves-pure true) (λ h e. st.hooks.starttls h e)

  pub Moves-connection_made_tls : Moves L (connection_made_tls srv)
  unfolding connection_made_tls
  Moves-connection_made_tls =
      search (moves_rules, Moves-starttls_hook, st.restart_over_tls, st.set_handshake_okay)

  Moves-start_tls : Moves L (start_tls srv)
  Moves-start_tls = Moves-bind _ _ (Moves-push st.core _) λ _.
      Moves-bind _ _ (Moves-modify _ st.set_tls_protocol)
        λ _. Moves-bind _ _ st.wait_for_tls λ _. Moves-connection_made_tls

  pub Moves-smtp_starttls : (arg : Option Text) → Moves L (smtp_starttls srv arg)
  unfolding smtp_starttls
  Moves-smtp_starttls arg = search (moves_rules, Moves-push st.core, Moves-start_tls)

  Moves-help_for : (t : Text) (m : Method) → Moves L (help_for srv t m)
  Moves-help_for t m = search (moves_rules, Moves-push st.core)

  pub Moves-smtp_help : (arg : Option Text) → Moves L (smtp_help srv arg)
  unfolding smtp_help
  Moves-smtp_help arg =
      Moves-bind _ _ (Moves-check_auth st.core)
        λ needed. search (moves_rules, Moves-push st.core, Moves-help_for) depth 9

  pub Moves-smtp_vrfy : (arg : Option Text) → Moves L (smtp_vrfy srv arg)
  unfolding smtp_vrfy
  Moves-smtp_vrfy arg =
      Moves-bind _ _ (Moves-check_auth st.core)
        λ needed. search (moves_rules, Moves-push st.core, Moves-hook st.core) depth 9

  Moves-rset_hook : Moves L (match_option srv.rset_hook (pure tt) (λ hook. hook))
  Moves-rset_hook =
      Moves-match_option_eq srv.rset_hook _ _ (Moves-pure tt) (λ h e. st.hooks.rset h e)

  pub Moves-smtp_rset : (arg : Option Text) → Moves L (smtp_rset srv arg)
  unfolding smtp_rset
  Moves-smtp_rset arg =
      search
        (moves_rules, Moves-push st.core, Moves-hook st.core, Moves-rset_hook, st.set_rset_state)
        depth 9

  pub Moves-smtp_expn : (arg : Option Text) → Moves L (smtp_expn srv arg)
  unfolding smtp_expn
  Moves-smtp_expn arg = Moves-push st.core _
