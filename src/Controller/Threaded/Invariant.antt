-- ===== src/Controller/Threaded/Invariant.antt =====
-- What holds of a controller and its thread, whatever the order of their steps.
use aiosmtpd.Prelude.{ℕ, ◌≡◌, refl, Bool, true, false, not, ◌++◌, List, [], ◌∷◌, arith}
use aiosmtpd.Prelude.Lists.{all}
use aiosmtpd.Controller.Base.{Callback, set_ready, cancel_tasks, Made, has_cancel, cleanup}
use aiosmtpd.Controller.Threaded.State.{
  Caller, outside, awaiting_ready, triggering, awaiting_factory, checking_exception, checking_smtpd,
  joining, Last, start_returned, stop_returned, Worker, absent, starting, creating, serving,
  closing, waiting, ended, World, new_world, Trigger, Binding, Action, call_start, call_stop, turn,
  work, connect,
}
use aiosmtpd.Controller.Threaded.Calls.{start, stop, take_turn}
use aiosmtpd.Controller.Threaded.Thread.{run_worker, accept}
use aiosmtpd.Controller.Threaded.{call, step, run}

-- The thread has not run, or has ended.
abbrev pub is_idle : Worker → Bool
is_idle absent = true
is_idle ended = true
is_idle _ = false

-- The server's coroutine has returned, and `server` is still set.
abbrev pub is_up : Worker → Bool
is_up serving = true
is_up closing = true
is_up waiting = true
is_up _ = false

abbrev pub count_up : Worker → ℕ
count_up serving = 1
count_up closing = 1
count_up _ = 0

-- The loop runs.
abbrev pub is_running : Worker → Bool
is_running creating = true
is_running serving = true
is_running closing = true
is_running waiting = true
is_running _ = false

abbrev pub is_joining : Caller → Bool
is_joining joining = true
is_joining _ = false

abbrev pub is_call : Action → Bool
is_call call_start = true
is_call (call_stop _) = true
is_call _ = false

-- What other threads, the loop and the clock do while the caller is in a call.
abbrev pub NoCalls : List Action → Type 0
NoCalls es = all (λ e. not (is_call e)) es ≡ true

pub has_cancel-append : (cs : List Callback) → has_cancel (cs ++ cancel_tasks ∷ []) ≡ true
unfolding has_cancel
has_cancel-append [] = refl
has_cancel-append (set_ready ∷ cs) = has_cancel-append cs
has_cancel-append (cancel_tasks ∷ cs) = refl

-- `start` has made its thread and has not raised.
abbrev pub past_thread : Caller → Bool
past_thread (outside start_returned) = true
past_thread (outside _) = false
past_thread _ = true

-- It has also seen `ready_event`.
abbrev pub past_ready : Caller → Bool
past_ready (outside start_returned) = true
past_ready (outside _) = false
past_ready awaiting_ready = false
past_ready joining = false
past_ready _ = true

-- It has also seen `_factory_invoked`.
abbrev pub past_factory : Caller → Bool
past_factory (outside start_returned) = true
past_factory checking_exception = true
past_factory checking_smtpd = true
past_factory _ = false

pub record Inv (w : World) : Type 0 where
  pub idle : w.thread ≡ false → is_idle w.worker ≡ true
  pub threaded : past_thread w.caller ≡ true → w.thread ≡ true
  pub readied : past_ready w.caller ≡ true → w.ready ≡ true
  pub invoked : past_factory w.caller ≡ true → w.base.factory_invoked ≡ true
  pub ready_up : w.ready ≡ true → w.thread ≡ true → is_joining w.caller ≡ false → w.worker ≡ serving
  pub unstopped :
      is_running w.worker ≡ true → is_joining w.caller ≡ false → has_cancel w.loop.scheduled ≡ false
  pub leaving : w.worker ≡ closing → is_joining w.caller ≡ true
  pub leaving_last : w.worker ≡ waiting → is_joining w.caller ≡ true
  pub counted : w.loop.listening ≡ count_up w.worker
  pub served : w.base.server ≡ is_up w.worker
  pub opened : is_running w.worker ≡ true → w.loop.closed ≡ false
  pub stopped : w.caller ≡ outside stop_returned → w.thread ≡ false
  pub cleaned : w.caller ≡ outside stop_returned → w.base ≡ cleanup w.base

pub Inv-new : Inv new_world
unfolding cleanup has_cancel
Inv-new = ground arith

start-Inv : {w : World} (l : Last) → w.caller ≡ outside l → Inv w → Inv (start w)
unfolding start cleanup
start-Inv l h v = ground arith

stop-Inv : {w : World} (l : Last) (b : Bool) → w.caller ≡ outside l → Inv w → Inv (stop b w)
unfolding stop cleanup
stop-Inv l b h v = ground arith

-- A call is made from outside, or not at all.
pub call-case :
    (P : World → Type 0) {w : World} (c : Caller) (f : World → World)
    → w.caller ≡ c
    → ((l : Last) → w.caller ≡ outside l → P (f w))
    → P w
    → P (call c f w)
unfolding call
call-case P (outside l) f h g v = g l h
call-case P awaiting_ready f h g v = v
call-case P triggering f h g v = v
call-case P awaiting_factory f h g v = v
call-case P checking_exception f h g v = v
call-case P checking_smtpd f h g v = v
call-case P joining f h g v = v

take_turn-Inv :
    {w : World} (c : Caller) (t : Trigger) (late : Bool)
    → w.caller ≡ c
    → Inv w
    → Inv (take_turn c t late w)
unfolding take_turn cleanup
take_turn-Inv (outside l) t late h v = v
take_turn-Inv awaiting_ready t late h v = ground arith
take_turn-Inv triggering t late h v = ground arith
take_turn-Inv awaiting_factory t late h v = ground arith
take_turn-Inv checking_exception t late h v = ground arith
take_turn-Inv checking_smtpd t late h v = ground arith
take_turn-Inv joining t late h v = ground arith

run_worker-Inv :
    {w : World} (k : Worker) (b : Binding) → w.worker ≡ k → Inv w → Inv (run_worker k b w)
unfolding run_worker cleanup
run_worker-Inv absent b h v = v
run_worker-Inv starting b h v = ground arith
run_worker-Inv creating b h v = ground arith
run_worker-Inv serving b h v = ground arith
run_worker-Inv closing b h v = ground arith
run_worker-Inv waiting b h v = ground arith
run_worker-Inv ended b h v = v

accept-Inv : {w : World} (k : Worker) (m : Made) → w.worker ≡ k → Inv w → Inv (accept k m w)
unfolding accept cleanup
accept-Inv serving m h v = ground arith
accept-Inv absent m h v = v
accept-Inv starting m h v = v
accept-Inv creating m h v = v
accept-Inv closing m h v = v
accept-Inv waiting m h v = v
accept-Inv ended m h v = v

pub step-Inv : (e : Action) {w : World} → Inv w → Inv (step e w)
unfolding step
step-Inv call_start {w} v = call-case Inv w.caller start refl (λ l h. start-Inv l h v) v
step-Inv (call_stop b) {w} v = call-case Inv w.caller (stop b) refl (λ l h. stop-Inv l b h v) v
step-Inv (turn t late) {w} v = take_turn-Inv w.caller t late refl v
step-Inv (work b) {w} v = run_worker-Inv w.worker b refl v
step-Inv (connect m) {w} v = accept-Inv w.worker m refl v

pub run-Inv : (es : List Action) {w : World} → Inv w → Inv (run w es)
unfolding run
run-Inv [] v = v
run-Inv (e ∷ es) v = run-Inv es (step-Inv e v)
