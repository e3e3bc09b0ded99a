-- ===== src/Controller/Threaded/Safety.antt =====
-- What a caller may rely on when `start` or `stop` has returned.
use aiosmtpd.Prelude.{
  ℕ, ◌+◌, ◌≤◌, ◌≡◌, refl, ◌≢◌, Bool, true, false, not, none, List, [], ◌∷◌, arith,
}
use aiosmtpd.Prelude.Lists.{all}
use aiosmtpd.Controller.Base.{Made, instance_of, new_base, cleanup}
use aiosmtpd.Controller.Threaded.State.{
  Caller, outside, start_returned, stop_returned, Worker, absent, serving, World, new_world,
  Trigger, Binding, cancelled, Action, call_start, call_stop, turn, work, connect,
}
use aiosmtpd.Controller.Threaded.Calls.{start, stop, take_turn}
use aiosmtpd.Controller.Threaded.Thread.{run_worker, accept}
use aiosmtpd.Controller.Threaded.{step, run}
use aiosmtpd.Controller.Threaded.Invariant.{Inv, is_idle, call-case, Inv-new, run-Inv}

-- The thread serves: the server listens on an open loop, and a factory has been called.
pub record Serves (w : World) : Type 0 where
  pub thread : w.thread ≡ true
  pub worker : w.worker ≡ serving
  pub listening : w.loop.listening ≡ 1
  pub loop_open : w.loop.closed ≡ false
  pub server : w.base.server ≡ true
  pub invoked : w.base.factory_invoked ≡ true

-- The controller's attributes are as `__init__` leaves them; no thread runs, and no
-- server that it has had listens.
pub record IsFresh (w : World) : Type 0 where
  pub thread : w.thread ≡ false
  pub base : w.base ≡ new_base
  pub idle : is_idle w.worker ≡ true
  pub listening : w.loop.listening ≡ 0

returned-Serves : {w : World} → w.caller ≡ outside start_returned → Inv w → Serves w
returned-Serves h v = ground arith

returned-IsFresh : {w : World} → w.caller ≡ outside stop_returned → Inv w → IsFresh w
unfolding cleanup
returned-IsFresh h v = ground arith

-- Whatever the order of the steps of the two threads, the outcomes of binding, triggering and
-- `factory()`, and the calls made before: when `start` has been the last call and has returned, the
-- thread is at its `run_forever` with one server that listens on an open loop, and `factory()` has
-- been called.
pub start-Serves :
    (es : List Action)
    → (run new_world es).caller ≡ outside start_returned
    → Serves (run new_world es)
start-Serves es h = returned-Serves h (run-Inv es Inv-new)

abbrev leaks : Action → ℕ
leaks (work (cancelled true)) = 1
leaks _ = 0

-- How often the creation of a server is cancelled when its sockets listen already.
abbrev pub leaks_of : List Action → ℕ
leaks_of [] = 0
leaks_of (e ∷ es) = leaks e + leaks_of es

start-leaked : (w : World) → (start w).leaked ≡ w.leaked
unfolding start
start-leaked w = ground arith

stop-leaked : (w : World) (b : Bool) → (stop b w).leaked ≡ w.leaked
unfolding stop
stop-leaked w b = ground arith

take_turn-leaked :
    (w : World) (c : Caller) (t : Trigger) (late : Bool) → (take_turn c t late w).leaked ≡ w.leaked
unfolding take_turn
take_turn-leaked w (outside l) t late = refl
take_turn-leaked w _ t late = ground arith

run_worker-leaked :
    (w : World) (k : Worker) (b : Binding) → (run_worker k b w).leaked ≤ leaks (work b) + w.leaked
unfolding run_worker
run_worker-leaked w absent b = omega arith
run_worker-leaked w _ b = ground arith

accept-leaked : (w : World) (k : Worker) (m : Made) → (accept k m w).leaked ≡ w.leaked
unfolding accept
accept-leaked w absent m = refl
accept-leaked w _ m = ground arith

step-leaked : (e : Action) (w : World) → (step e w).leaked ≤ leaks e + w.leaked
unfolding step
step-leaked call_start w =
    call-case (λ x. x.leaked ≤ 0 + w.leaked) {w = w} w.caller start refl
      (λ l h. omega (arith, start-leaked w)) (omega arith)
step-leaked (call_stop b) w =
    call-case (λ x. x.leaked ≤ 0 + w.leaked) {w = w} w.caller (stop b) refl
      (λ l h. omega (arith, stop-leaked w b)) (omega arith)
step-leaked (turn t late) w = omega (arith, take_turn-leaked w w.caller t late)
step-leaked (work b) w = run_worker-leaked w w.worker b
step-leaked (connect m) w = omega (arith, accept-leaked w w.worker m)

run-leaked : (es : List Action) (w : World) → (run w es).leaked ≤ leaks_of es + w.leaked
unfolding run
run-leaked [] w = omega arith
run-leaked (e ∷ es) w = omega (arith, run-leaked es (step e w), step-leaked e w)

-- Whatever came before: when `stop` has been the last call and has returned, the attributes of the
-- controller are those of a new one, there is no thread, none runs, and nothing listens but what a
-- cancelled creation of a server has left: nothing at all, if none was cancelled when its sockets
-- listened already.
pub stop-IsFresh :
    (es : List Action)
    → (run new_world es).caller ≡ outside stop_returned
    → IsFresh (run new_world es) × ((run new_world es).leaked ≤ leaks_of es)
stop-IsFresh es h =
    (returned-IsFresh h (run-Inv es Inv-new), omega (arith, run-leaked es new_world))

abbrev makes_instance : Action → Bool
makes_instance (connect (instance_of _)) = true
makes_instance _ = false

-- No call of `factory()` makes an instance of `SMTP`.
abbrev pub NoInstance : List Action → Type 0
NoInstance es = all (λ e. not (makes_instance e)) es ≡ true

record IsVoid (w : World) : Type 0 where
  smtpd : w.base.smtpd ≡ none
  caller : w.caller ≢ outside start_returned

start-IsVoid : {w : World} → IsVoid w → IsVoid (start w)
unfolding start
start-IsVoid s = ground arith

stop-IsVoid : {w : World} (b : Bool) → IsVoid w → IsVoid (stop b w)
unfolding stop cleanup
stop-IsVoid b s = ground arith

take_turn-IsVoid :
    {w : World} (c : Caller) (t : Trigger) (late : Bool) → IsVoid w → IsVoid (take_turn c t late w)
unfolding take_turn cleanup
take_turn-IsVoid (outside l) t late s = s
take_turn-IsVoid _ t late s = ground arith

run_worker-IsVoid : {w : World} (k : Worker) (b : Binding) → IsVoid w → IsVoid (run_worker k b w)
unfolding run_worker
run_worker-IsVoid absent b s = s
run_worker-IsVoid _ b s = ground arith

accept-IsVoid :
    {w : World} (k : Worker) (m : Made)
    → makes_instance (connect m) ≡ false
    → IsVoid w
    → IsVoid (accept k m w)
unfolding accept
accept-IsVoid absent m n s = s
accept-IsVoid _ m n s = ground arith

step-IsVoid : (e : Action) {w : World} → makes_instance e ≡ false → IsVoid w → IsVoid (step e w)
unfolding step
step-IsVoid call_start {w} n s = call-case IsVoid w.caller start refl (λ l h. start-IsVoid s) s
step-IsVoid (call_stop b) {w} n s =
    call-case IsVoid w.caller (stop b) refl (λ l h. stop-IsVoid b s) s
step-IsVoid (turn t late) {w} n s = take_turn-IsVoid w.caller t late s
step-IsVoid (work b) {w} n s = run_worker-IsVoid w.worker b s
step-IsVoid (connect m) {w} n s = accept-IsVoid w.worker m n s

run-IsVoid : (es : List Action) {w : World} → NoInstance es → IsVoid w → IsVoid (run w es)
unfolding run
run-IsVoid [] n s = s
run-IsVoid (e ∷ es) n s = run-IsVoid es (ground arith) (step-IsVoid e (ground arith) s)

new-IsVoid : IsVoid new_world
new-IsVoid = ground arith

-- A server that is never made is never said to be started: as long as each call of `factory()`
-- raises or returns `None`, whatever else happens and is called, no call of `start` returns.
pub start-needs_instance :
    (es : List Action) → NoInstance es → (run new_world es).caller ≢ outside start_returned
start-needs_instance es n = (run-IsVoid es n new-IsVoid).caller
