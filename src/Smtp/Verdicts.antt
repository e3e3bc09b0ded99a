-- ===== src/Smtp/Verdicts.antt =====
-- Which lines reach a method, and how often: the guards of `_handle_client` (aiosmtpd/smtp.py).
use aiosmtpd.Prelude.{
  ℕ, ◌+◌, ◌-◌, ◌≤◌, ◌≡◌, refl, ap, ◌⊎◌, inl, inr, Bool, true, false, ◌&&◌, not, Option, none, some,
  List, [], ◌∷◌, map, arith,
}
use aiosmtpd.Prelude.Tests.{ltb, if◌then◌else◌, Option-cases}
use aiosmtpd.Prelude.Lists.{length, is_empty}
use aiosmtpd.Prelude.Text.{
  Text, Bytes, codes, text_eq, text_eq_iff, contains, rstrip, partition, upper_ascii, is_ascii, get,
  put, get-put,
}
use aiosmtpd.Smtp.State.{Smtp}
use aiosmtpd.Smtp.Server.{Server, Method, CallLimit}
use aiosmtpd.Smtp.Judge.{
  Budget, Verdict, answer, goodbye, call, is_newline, allowed_before_starttls, size_limit,
  limit_for, lookup_method, spend, guard_command, decode_arg, judge,
}

-- A line without its end, and the command that it gives.
abbrev pub bare : Bytes → Bytes
bare received_line = rstrip is_newline received_line

abbrev pub command_of : Bytes → Text
command_of received_line = map upper_ascii (partition 32 (bare received_line)).0

-- What the guards have found when they let a command of some length through.
pub record IsAllowed (srv : Server) (s : Smtp) (size : ℕ) (command : Text) (m : Method)
    : Type 0 where
  pub known : get command srv.smtp_methods ≡ some m
  pub fits : size ≤ size_limit srv s command
  pub secure : (s.tls_handshake_okay ≡ true) ⊎ (text_eq command (codes "QUIT") ≡ true)
  pub starttls :
      srv.require_starttls ≡ true
      → s.tls_protocol ≡ false
      → contains allowed_before_starttls command ≡ true

-- One call of a command, of the calls that a line leads to.
abbrev pub called : Text → Bytes → Verdict → ℕ
called command received_line (call m arg) =
    if text_eq (command_of received_line) command then 1 else 0
called command received_line (answer t) = 0
called command received_line (goodbye t) = 0

-- Three guards in a row: what they have found when the last alternative is a call.
passed :
    (p q r : Bool) (b : Budget) (t u v : Text) (x : Budget × Verdict) (m : Method) (a : Option Text)
    → (if p then (b, answer t) else if q then (b, answer u) else if r then (b, answer v) else x).1
      ≡ call m a
    → (p ≡ false) × (q ≡ false) × (r ≡ false) × (x.1 ≡ call m a)
passed p q r b t u v x m a h = ground arith

module _ (srv : Server) where
  lookup_call :
      (b : Budget) (command : Text) (arg a : Option Text) (m : Method)
      → (lookup_method srv b command arg).1 ≡ call m a
      → get command srv.smtp_methods ≡ some m
  unfolding lookup_method
  lookup_call b command arg a m h = ground arith

  spend-call :
      (b : Budget) (command : Text) (arg a : Option Text) (m : Method)
      → (spend srv b command arg).1 ≡ call m a
      → get command srv.smtp_methods ≡ some m
  unfolding spend
  spend-call b command arg a m h = elim (Option-cases srv.command_call_limit) [
    | inl e ↦ ground (arith, lookup_call b command arg a m)
    | inr (limits, e) ↦ ground (
      arith,
      lookup_call
          (record b { call_limit = put command (limit_for srv limits b command - 1) b.call_limit })
          command arg a m,
    )
  ]

  guard_call :
      (s : Smtp) (b : Budget) (size : ℕ) (command : Text) (arg a : Option Text) (m : Method)
      → (guard_command srv s b size command arg).1 ≡ call m a
      → IsAllowed srv s size command m
  unfolding guard_command
  guard_call s b size command arg a m h =
      let (p, q, r, c) =
        passed (ltb (size_limit srv s command) size)
          (not s.tls_handshake_okay && not (text_eq command (codes "QUIT")))
          (srv.require_starttls
            && not s.tls_protocol
            && not (contains allowed_before_starttls command))
          b (codes "500 Command line too long")
          (codes "554 Command refused due to lack of security")
          (codes "530 Must issue a STARTTLS command first") (spend srv b command arg) m a h in
      record {
        known = spend-call b command arg a m c;
        fits = ground (arith, p);
        secure = ground (arith, q);
        starttls = λ e f. ground (arith, r);
      }

  -- The tests that come before the guards.
  judged :
      (p q : Bool) (b : Budget) (t u v : Text) (o : Option (Option Text))
      (f : Option Text → Budget × Verdict) (m : Method) (a : Option Text)
      → (let x : Budget × Verdict =
            if p
            then (b, answer t)
            else if q
            then (b, answer u)
            else elim o [ none ↦ (b, answer v) | some arg ↦ f arg ] in
          x.1 ≡ call m a)
      → (p ≡ false) × (q ≡ false) × (arg : Option Text) × ((f arg).1 ≡ call m a)
  judged true q b t u v o f m a h = cc
  judged false true b t u v o f m a h = cc
  judged false false b t u v none f m a h = cc
  judged false false b t u v (some arg) f m a h = (refl, refl, arg, h)

  -- If a line makes the server call a method, then the line's command is an ASCII word that the
  -- class has this method for, the line is within the limit of its command, the TLS handshake has
  -- been found okay or the command is QUIT, and, where STARTTLS is required and has not been done,
  -- the command is one that is allowed before it.
  pub judge-call :
      (s : Smtp) (b : Budget) (received_line : Bytes) (m : Method) (arg : Option Text)
      → (judge srv s b received_line).1 ≡ call m arg
      → (is_ascii (command_of received_line) ≡ true)
        × IsAllowed srv s (length (bare received_line)) (command_of received_line) m
  unfolding judge
  judge-call s b received_line m arg h =
      let (p, q, a, c) =
        judged (is_empty (bare received_line)) (not (is_ascii (command_of received_line))) b
          (codes "500 Error: bad syntax") (codes "500 Error: bad syntax")
          (codes "500 Error: strict ASCII mode")
          (decode_arg srv (partition 32 (bare received_line)).2)
          (guard_command srv s b (length (bare received_line)) (command_of received_line)) m arg
          h in
      (
        ground (arith, q),
        guard_call s b (length (bare received_line)) (command_of received_line) a arg m c,
      )

  -- The calls of a command in a row of lines, each with the state in which it is read.
  abbrev pub calls : Text → Budget → List (Smtp × Bytes) → ℕ
  calls command b [] = 0
  calls command b ((s, received_line) ∷ rest) =
      let (b', verdict) = judge srv s b received_line in
      called command received_line verdict + calls command b' rest

  module _ (limits : CallLimit) (limited : srv.command_call_limit ≡ some limits) (c : Text) where
    lookup_limit :
        (b : Budget) (command : Text) (arg : Option Text)
        → limit_for srv limits (lookup_method srv b command arg).0 c ≡ limit_for srv limits b c
    unfolding lookup_method
    lookup_limit b command arg = ground arith

    lookup_called :
        (b : Budget) (line : Bytes) (arg : Option Text)
        → called c line (lookup_method srv b (command_of line) arg).1
          ≤ (if text_eq (command_of line) c then 1 else 0)
    unfolding lookup_method
    lookup_called b line arg = ground arith

    limit_put :
        (b : Budget) (command : Text) (n : ℕ)
        → limit_for srv limits (record b { call_limit = put command n b.call_limit }) c
          ≡ (if text_eq command c then n else limit_for srv limits b c)
    limit_put b command n = ground (arith, get-put command c n b.call_limit)

    limit_same :
        (b : Budget) (command : Text)
        → text_eq command c ≡ true
        → limit_for srv limits b command ≡ limit_for srv limits b c
    limit_same b command h = ap (limit_for srv limits b) ((text_eq_iff command c).0 h)

    spend_limit :
        (b : Budget) (line : Bytes) (arg : Option Text)
        → called c line (spend srv b (command_of line) arg).1
            + limit_for srv limits (spend srv b (command_of line) arg).0 c
          ≤ limit_for srv limits b c
    unfolding spend
    spend_limit b line arg =
        let left = limit_for srv limits b (command_of line) - 1 in
        let b' = record b { call_limit = put (command_of line) left b.call_limit } in
        ground (
          arith,
          limited,
          lookup_called b' line arg,
          lookup_limit b' (command_of line) arg,
          limit_put b (command_of line) left,
          limit_same b (command_of line),
        )

    -- What a line takes from the calls that are left for the command.
    record Spends (line : Bytes) (b : Budget) (y : Budget × Verdict) : Type 0 where
      pub spent : called c line y.1 + limit_for srv limits y.0 c ≤ limit_for srv limits b c

    Spends-if :
        (p : Bool) (line : Bytes) (b : Budget) (t : Text) (x : Budget × Verdict)
        → Spends line b x
        → Spends line b (if p then (b, answer t) else x)
    Spends-if true line b t x h = record { spent = omega arith }
    Spends-if false line b t x h = h

    Spends-guard :
        (s : Smtp) (b : Budget) (size : ℕ) (line : Bytes) (arg : Option Text)
        → Spends line b (guard_command srv s b size (command_of line) arg)
    unfolding guard_command
    Spends-guard s b size line arg =
        Spends-if (ltb (size_limit srv s (command_of line)) size) line b
          (codes "500 Command line too long") _
          (Spends-if (not s.tls_handshake_okay && not (text_eq (command_of line) (codes "QUIT")))
            line b (codes "554 Command refused due to lack of security") _
            (Spends-if
              (srv.require_starttls
                && not s.tls_protocol
                && not (contains allowed_before_starttls (command_of line)))
              line b (codes "530 Must issue a STARTTLS command first")
              (spend srv b (command_of line) arg) (record { spent = spend_limit b line arg })))

    Spends-arg :
        (o : Option (Option Text)) (line : Bytes) (b : Budget) (t : Text)
        (f : Option Text → Budget × Verdict)
        → ((a : Option Text) → Spends line b (f a))
        → Spends line b (elim o [ none ↦ (b, answer t) | some a ↦ f a ])
    Spends-arg none line b t f h = record { spent = omega arith }
    Spends-arg (some a) line b t f h = h a

    Spends-judge : (s : Smtp) (b : Budget) (line : Bytes) → Spends line b (judge srv s b line)
    unfolding judge
    Spends-judge s b line =
        Spends-if (is_empty (bare line)) line b (codes "500 Error: bad syntax") _ (
          Spends-if (not (is_ascii (command_of line))) line b (codes "500 Error: bad syntax") _ (
            Spends-arg (decode_arg srv (partition 32 (bare line)).2) line b
              (codes "500 Error: strict ASCII mode")
              (guard_command srv s b (length (bare line)) (command_of line))
              (λ a. Spends-guard s b (length (bare line)) line a)))

    -- Where calls are limited, the method of a command is called at most as often as the limit of
    -- the command says, in any row of lines and whatever the states in which they are read.
    pub calls-bound :
        (b : Budget) (lines : List (Smtp × Bytes)) → calls c b lines ≤ limit_for srv limits b c
    calls-bound b [] = omega arith
    calls-bound b ((s, line) ∷ rest) =
        let (b', v) = judge srv s b line in
        omega (arith, (Spends-judge s b line).spent, calls-bound (judge srv s b line).0 rest)
