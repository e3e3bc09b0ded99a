-- ===== src/Smtp/Steps/Data.antt =====
-- DATA follows a law; so does the loop that receives the data, under a law that lets fuel run out.
use aiosmtpd.Prelude.{ℕ, zero, suc, Option, List, []}
use aiosmtpd.Prelude.Text.{Text, Bytes, codes, get}
use aiosmtpd.Smtp.State.{missing, Error, limit_overrun, assertion_error, out_of_fuel}
use aiosmtpd.Smtp.Exec.Moves.{
  Law, Moves, moves_rules, Moves-pure, Moves-bind, Moves-raise, Moves-handle, Moves-match_option_eq,
  Moves-choose, Moves-gets, Moves-match_option,
}
use aiosmtpd.Smtp.Server.{Server}
use aiosmtpd.Smtp.Wire.{read, readuntil, set_rset_state}
use aiosmtpd.Smtp.Data.{
  DataState, nominal, too_long, too_much, Collected, collected_empty, on_overrun, next_line,
  data_loop, complaint, deliver, data_accept, data_end, receive_message, process_legacy, legacy,
  smtp_data, receive, pending,
}
use aiosmtpd.Smtp.Steps.{Steps}
use aiosmtpd.Smtp.Steps.Greeting.{Moves-push, Moves-hook, Moves-check_helo, Moves-check_auth}

module _ {L : Law} (srv : Server) (allows : (e : Error) → L.allowed e)
    (reads_until : (sep : Bytes) → Moves L (readuntil srv sep))
    (reads : (n : ℕ) → Moves L (read n)) where
  Moves-on_overrun : (d : Collected) (e : Error) → Moves L (on_overrun srv d e)
  Moves-on_overrun d (limit_overrun n) = search (moves_rules, Moves-raise, allows, reads)
  Moves-on_overrun d e = Moves-raise e (allows e)

  Moves-next_line : (d : Collected) → Moves L (next_line srv d)
  unfolding next_line
  Moves-next_line d =
      Moves-handle _ _ (search (moves_rules, Moves-raise, allows, reads_until))
        (λ e h. Moves-on_overrun d e)

  Moves-data_loop : (fuel : ℕ) (d : Collected) → Moves L (data_loop srv fuel d)
  unfolding data_loop
  Moves-data_loop zero d = Moves-raise out_of_fuel (allows out_of_fuel)
  Moves-data_loop (suc fuel) d =
      Moves-bind _ _ (Moves-next_line d) λ r. search (moves_rules, Moves-data_loop fuel)

  pub Moves-receive : Moves L (receive srv)
  unfolding receive
  Moves-receive = record {
    at = λ s. (Moves-data_loop (suc (pending s)) collected_empty).at s;
    ends = λ s. (Moves-data_loop (suc (pending s)) collected_empty).ends s;
  }

module _ {L : Law} {srv : Server} (st : Steps L srv) where
  Moves-complaint : (x : DataState) → Moves L (complaint srv x)
  Moves-complaint nominal = Moves-pure tt
  Moves-complaint too_long = Moves-push st.core _
  Moves-complaint too_much = Moves-push st.core _

  Moves-deliver : Moves L (deliver srv)
  unfolding deliver
  Moves-deliver =
      Moves-match_option_eq (get (codes "DATA") srv.handle_hooks) _ _
        (Moves-match_option_eq srv.process_message _ (process_legacy srv) (Moves-pure missing)
          (λ h e. Moves-bind _ _ (st.hooks.process h e) (λ v. Moves-pure (legacy srv v))))
        (λ h e. Moves-hook st.core (codes "DATA") [])

  Moves-data_accept : (lines : List Bytes) → Moves L (data_accept srv lines)
  unfolding data_accept set_rset_state
  Moves-data_accept lines =
      search (moves_rules, Moves-push st.core, Moves-deliver, st.set_content, st.set_rset_state)
        depth 9

  Moves-data_end : (d : Collected) → Moves L (data_end srv d)
  unfolding set_rset_state
  Moves-data_end d =
      search
        (
          moves_rules,
          Moves-raise,
          st.core.allows assertion_error (λ h. cc),
          Moves-data_accept,
          Moves-complaint,
          st.set_rset_state,
        )
        depth 9

  Moves-receive_message : Moves L (receive_message srv)
  Moves-receive_message =
      Moves-bind _ _ (Moves-push st.core _) (λ _. Moves-bind _ _ st.receive Moves-data_end)

  pub Moves-smtp_data : (arg : Option Text) → Moves L (smtp_data srv arg)
  unfolding smtp_data
  Moves-smtp_data arg = Moves-bind _ _ (Moves-check_helo st.core _) λ needed.
      Moves-choose _ _ _ (Moves-pure tt) (
        Moves-bind _ _ (Moves-check_auth st.core) λ wanted. Moves-choose _ _ _ (Moves-pure tt) (
          Moves-bind _ _ (Moves-gets _) λ recipients.
            Moves-choose _ _ _ (Moves-push st.core _)
              (Moves-match_option _ _ _ Moves-receive_message (λ _. Moves-push st.core _))))
