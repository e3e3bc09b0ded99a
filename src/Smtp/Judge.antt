-- ===== src/Smtp/Judge.antt =====
-- What a command line asks for: the guards of `_handle_client` before a method runs
-- (aiosmtpd/smtp.py).
use aiosmtpd.Prelude.{ℕ, ◌-◌, Bool, ◌&&◌, ◌||◌, not, Option, none, some, List, [], ◌∷◌, ◌++◌, map}
use aiosmtpd.Prelude.Tests.{ltb, ◌==◌, if◌then◌else◌}
use aiosmtpd.Prelude.Lists.{length, is_empty}
use aiosmtpd.Prelude.Text.{
  Text, Bytes, codes, text_eq, contains, rstrip, strip, partition, upper_ascii, is_space_byte,
  is_ascii, get, put, Dict,
}
use aiosmtpd.Smtp.State.{Smtp}
use aiosmtpd.Smtp.Server.{Server, CallLimit, Method}

-- The variables of `_handle_client`.
pub record Budget : Type 0 where
  pub call_limit : Dict ℕ
  pub bogus_budget : ℕ

-- What is to be done about a line.
pub data Verdict : Type 0 where
  answer : Text → Verdict
  goodbye : Text → Verdict
  call : Method → Option Text → Verdict

abbrev pub bogus_limit : ℕ
bogus_limit = 5

abbrev pub allowed_before_starttls : List Text
allowed_before_starttls = codes "NOOP" ∷ codes "EHLO" ∷ codes "STARTTLS" ∷ codes "QUIT" ∷ []

abbrev pub is_newline : ℕ → Bool
is_newline c = c == 13 || c == 10

module _ (srv : Server) where
  -- The argument of a command: `none` is an argument that is not ASCII where ASCII is demanded.
  unfoldable pub decode_arg : Bytes → Option (Option Text)
  decode_arg [] = some none
  decode_arg (c ∷ b) =
      let stripped = strip is_space_byte (c ∷ b) in
      if srv.enable_smtputf8
      then some (some (srv.library.decode_utf8 stripped))
      else (if is_ascii stripped then some (some stripped) else none)

  -- `self.command_size_limits[command]`, for an extended session
  unfoldable pub size_limit : Smtp → Text → ℕ
  size_limit s command =
      if s.session.extended_smtp
      then elim (get command s.command_size_limits) [ none ↦ srv.command_size_limit | some n ↦ n ]
      else srv.command_size_limit

  abbrev pub limit_for : CallLimit → Budget → Text → ℕ
  limit_for limits b command = elim (get command b.call_limit) [
    | none ↦ limits.default
    | some n ↦ n
  ]

  -- the lookup of the method, and the budget for commands that have none
  unfoldable pub lookup_method : Budget → Text → Option Text → Budget × Verdict
  lookup_method b command arg = elim (get command srv.smtp_methods) [
    | some m ↦ (b, call m arg)
    | none ↦
        let left = record b { bogus_budget = b.bogus_budget - 1 } in
        if ltb left.bogus_budget 1
        then (left, goodbye (codes "502 5.5.1 Too many unrecognized commands, goodbye."))
        else (left, answer (codes "500 Error: command \"" ++ command ++ codes "\" not recognized"))
  ]

  -- the budget of calls of one command
  unfoldable pub spend : Budget → Text → Option Text → Budget × Verdict
  unfolding lookup_method
  spend b command arg = elim srv.command_call_limit [
    | none ↦ lookup_method b command arg
    | some limits ↦
        let budget = limit_for limits b command in
        if ltb budget 1
        then (b, goodbye (codes "421 4.7.0 " ++ command ++ codes " sent too many times"))
        else lookup_method (record b { call_limit = put command (budget - 1) b.call_limit }) command
            arg
  ]

  -- The guards on a command that has been decoded.
  unfoldable pub guard_command : Smtp → Budget → ℕ → Text → Option Text → Budget × Verdict
  unfolding spend size_limit
  guard_command s b size command arg =
      if ltb (size_limit s command) size
      then (b, answer (codes "500 Command line too long"))
      else if not s.tls_handshake_okay && not (text_eq command (codes "QUIT"))
      then (b, answer (codes "554 Command refused due to lack of security"))
      else if srv.require_starttls
          && not s.tls_protocol
          && not (contains allowed_before_starttls command)
      then (b, answer (codes "530 Must issue a STARTTLS command first"))
      else spend b command arg

  -- What a line asks for, before any method runs.
  unfoldable pub judge : Smtp → Budget → Bytes → Budget × Verdict
  unfolding guard_command decode_arg
  judge s b received_line =
      let line = rstrip is_newline received_line in
      let (command_bytes, _, arg_bytes) = partition 32 line in
      let command = map upper_ascii command_bytes in
      if is_empty line
      then (b, answer (codes "500 Error: bad syntax"))
      else if not (is_ascii command)
      then (b, answer (codes "500 Error: bad syntax"))
      else elim (decode_arg arg_bytes) [
        | none ↦ (b, answer (codes "500 Error: strict ASCII mode"))
        | some arg ↦ guard_command s b (length line) command arg
      ]
