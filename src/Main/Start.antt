-- ===== src/Main/Start.antt =====
-- `main` (aiosmtpd/main.py), behind `parseargs`: what it does, in which order, and how it ends.
use aiosmtpd.Prelude.{
  ℕ, ◌≡◌, Bool, true, false, ◌&&◌, not, Option, none, some, List, [], ◌∷◌, ◌++◌, arith,
}
use aiosmtpd.Prelude.Tests.{ltb, if◌then◌else◌}
use aiosmtpd.Prelude.Text.{Text, codes}
use aiosmtpd.Main.Listen.{ℤ, Address}
use aiosmtpd.Main.Arguments.{Namespace}

-- What `main` does that is seen outside: the user is changed; a certificate and a key are loaded; the
-- server's socket listens; the loop runs; the server and the loop are closed.
pub data Effect : Type 0 where
  set_user : ℕ → Effect
  load_chain : Text → Text → Effect
  listens : Address → Effect
  loop_runs server_closes loop_closes : Effect

-- `main` leaves by `sys.exit(1)` with a message, or by an exception.
pub data Exit : Type 0 where
  exits : Text → Exit
  throws : Text → Exit

-- What the system answers: whether there is a module `pwd`, the number of `nobody`, whether `setuid`
-- is permitted, and the exceptions of loading a chain, of binding and of the loop, if they come. A
-- `KeyboardInterrupt` of the loop is none.
pub record System : Type 0 where
  pub has_pwd : Bool
  pub nobody : Option ℕ
  pub may_setuid : Bool
  pub chain_error : Text → Text → Option Text
  pub bind_error : Address → Option Text
  pub loop_error : Option Text

-- A part of `main`: its effects, and how it leaves, if it does.
abbrev pub Part : Type 0
Part = List Effect × Option Exit

infixl 5 ◌>>◌
unfoldable pub ◌>>◌ : Part → Part → Part
(es, some x) >> q = (es, some x)
(es, none) >> (fs, r) = (es ++ fs, r)

abbrev pub error_exit : Option Text → Option Exit
error_exit none = none
error_exit (some t) = some (throws t)

module _ (sys : System) where
  -- `os.setuid(nobody)`
  unfoldable pub become : Option ℕ → Part
  become none = ([], some (throws (codes "KeyError")))
  become (some n) =
      if sys.may_setuid
      then (set_user n ∷ [], none)
      else ([], some (exits (codes "Cannot setuid \"nobody\"; try running with -n option.")))

  -- `if ns.setuid`
  unfoldable pub drop_privileges : Bool → Part
  unfolding become
  drop_privileges setuid =
      if not setuid
      then ([], none)
      else if not sys.has_pwd
      then ([], some (exits (codes "Cannot import module \"pwd\"; try running with -n option.")))
      else become sys.nobody

  -- the context of STARTTLS or of SMTPS, where both files are given
  unfoldable pub load_context : Option Text → Option Text → Part
  load_context (some c) (some k) = (load_chain c k ∷ [], error_exit (sys.chain_error c k))
  load_context _ _ = ([], none)

  unfoldable pub bind : Option Text → Address → Part
  bind none a = (listens a ∷ [], none)
  bind (some t) a = ([], some (throws t))

  -- from `run_forever` on
  unfoldable pub serve_forever : Option Text → Part
  serve_forever none = (loop_runs ∷ server_closes ∷ loop_closes ∷ [], none)
  serve_forever (some t) = (loop_runs ∷ [], some (throws t))

  unfoldable pub main : {H : Type 0} → Namespace H → Part
  unfolding drop_privileges load_context bind serve_forever ◌>>◌
  main ns =
      drop_privileges ns.options.setuid
      >> load_context ns.options.tlscert ns.options.tlskey
      >> load_context ns.options.smtpscert ns.options.smtpskey
      >> bind (sys.bind_error ns.address) ns.address
      >> serve_forever sys.loop_error

-- The arguments of the `SMTP` that the factory makes.
pub record Factory (H : Type 0) : Type 0 where
  pub handler : H
  pub data_size_limit : Option ℤ
  pub enable_smtputf8 : Bool
  pub tls_context : Option (Text × Text)
  pub require_starttls : Bool

unfoldable pub context_files : Option Text → Option Text → Option (Text × Text)
context_files (some c) (some k) = some (c, k)
context_files _ _ = none

unfoldable pub factory : {H : Type 0} → Namespace H → Factory H
unfolding context_files
factory ns = record {
  handler = ns.handler;
  data_size_limit = ns.options.size;
  enable_smtputf8 = ns.options.smtputf8;
  tls_context = context_files ns.options.tlscert ns.options.tlskey;
  require_starttls = ns.options.requiretls;
}

pub data Level : Type 0 where
  error_level info_level debug_level : Level

-- The level of the log, and whether the loop is set to debug.
unfoldable pub log_level : ℕ → Level
log_level debug =
    if ltb 1 debug then debug_level else if ltb 0 debug then info_level else error_level

unfoldable pub loop_debug : ℕ → Bool
loop_debug debug = ltb 2 debug

-- Whether, in a row of effects, nothing is loaded and nothing listens before the user is changed;
-- `dropped` tells whether it needs no change any more.
abbrev pub in_order : Bool → List Effect → Bool
in_order dropped [] = true
in_order dropped (set_user n ∷ es) = in_order true es
in_order dropped (load_chain c k ∷ es) = dropped && in_order dropped es
in_order dropped (listens a ∷ es) = dropped && in_order dropped es
in_order dropped (loop_runs ∷ es) = dropped && in_order dropped es
in_order dropped (_ ∷ es) = in_order dropped es

-- Whether what listens is closed again.
abbrev pub left_open : Bool → List Effect → Bool
left_open opened [] = opened
left_open opened (listens a ∷ es) = left_open true es
left_open opened (server_closes ∷ es) = left_open false es
left_open opened (_ ∷ es) = left_open opened es

-- Unless it is told not to change the user, `main` loads no key, listens nowhere and runs no loop
-- before it has become `nobody`; where it cannot, it leaves before any of them. When it returns,
-- the server that listened has been closed.
pub main-in_order :
    {H : Type 0} (sys : System) (ns : Namespace H)
    → (in_order (not ns.options.setuid) (main sys ns).0 ≡ true)
      × ((main sys ns).1 ≡ none → left_open false (main sys ns).0 ≡ false)
unfolding main
main-in_order sys ns = ground arith
