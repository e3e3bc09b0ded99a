-- ===== src/Controller/Threaded/Restart.antt =====
-- A controller that has been stopped is not started again.
use aiosmtpd.Prelude.{◌≡◌, refl, ◌≢◌, ◌⊎◌, Bool, true, false, List, [], ◌∷◌, arith}
use aiosmtpd.Controller.Base.{Made}
use aiosmtpd.Controller.Threaded.State.{
  Caller, outside, awaiting_ready, start_returned, stop_returned, Worker, absent, World, new_world,
  Trigger, Binding, Action, call_start, call_stop, turn, work, connect,
}
use aiosmtpd.Controller.Threaded.Calls.{start, stop, take_turn}
use aiosmtpd.Controller.Threaded.Thread.{run_worker, accept}
use aiosmtpd.Controller.Threaded.{step, run}
use aiosmtpd.Controller.Threaded.Invariant.{
  Inv, is_up, is_running, past_ready, call-case, Inv-new, step-Inv, run-Inv,
}

-- The server is up, or was, and its loop is closed.
abbrev IsUsed : World → Type 0
IsUsed w = (is_up w.worker ≡ true) ⊎ (w.loop.closed ≡ true)

start-IsUsed : (w : World) → Inv w → IsUsed w → IsUsed (start w)
unfolding start
start-IsUsed w v u = ground arith

stop-IsUsed : (w : World) (b : Bool) → IsUsed w → IsUsed (stop b w)
unfolding stop
stop-IsUsed w b u = ground arith

take_turn-IsUsed :
    (w : World) (c : Caller) (t : Trigger) (late : Bool) → IsUsed w → IsUsed (take_turn c t late w)
unfolding take_turn
take_turn-IsUsed w (outside l) t late u = u
take_turn-IsUsed w _ t late u = ground arith

run_worker-IsUsed :
    (w : World) (k : Worker) (b : Binding) → w.worker ≡ k → IsUsed w → IsUsed (run_worker k b w)
unfolding run_worker
run_worker-IsUsed w absent b h u = u
run_worker-IsUsed w _ b h u = ground arith

accept-IsUsed : (w : World) (k : Worker) (m : Made) → IsUsed w → IsUsed (accept k m w)
unfolding accept
accept-IsUsed w absent m u = u
accept-IsUsed w _ m u = ground arith

step-IsUsed : (e : Action) {w : World} → Inv w → IsUsed w → IsUsed (step e w)
unfolding step
step-IsUsed call_start {w} v u = call-case IsUsed w.caller start refl (λ l h. start-IsUsed w v u) u
step-IsUsed (call_stop b) {w} v u =
    call-case IsUsed w.caller (stop b) refl (λ l h. stop-IsUsed w b u) u
step-IsUsed (turn t late) {w} v u = take_turn-IsUsed w w.caller t late u
step-IsUsed (work b) {w} v u = run_worker-IsUsed w w.worker b refl u
step-IsUsed (connect m) {w} v u = accept-IsUsed w w.worker m u

run-IsUsed : (es : List Action) {w : World} → Inv w → IsUsed w → IsUsed (run w es)
unfolding run
run-IsUsed [] v u = u
run-IsUsed (e ∷ es) v u = run-IsUsed es (step-Inv e v) (step-IsUsed e v u)

-- The loop is closed, and no thread will set `ready_event` again.
record IsSpent (w : World) : Type 0 where
  loop_closed : w.loop.closed ≡ true
  quiet : is_running w.worker ≡ false
  early : past_ready w.caller ≡ false
  unready : w.caller ≡ awaiting_ready → w.ready ≡ false

start-IsSpent : {w : World} → IsSpent w → IsSpent (start w)
unfolding start
start-IsSpent s = ground arith

stop-IsSpent : {w : World} (b : Bool) → IsSpent w → IsSpent (stop b w)
unfolding stop
stop-IsSpent b s = ground arith

take_turn-IsSpent :
    {w : World} (c : Caller) (t : Trigger) (late : Bool)
    → w.caller ≡ c
    → IsSpent w
    → IsSpent (take_turn c t late w)
unfolding take_turn
take_turn-IsSpent (outside l) t late h s = s
take_turn-IsSpent _ t late h s = ground arith

run_worker-IsSpent :
    {w : World} (k : Worker) (b : Binding) → w.worker ≡ k → IsSpent w → IsSpent (run_worker k b w)
unfolding run_worker
run_worker-IsSpent absent b h s = s
run_worker-IsSpent _ b h s = ground arith

accept-IsSpent :
    {w : World} (k : Worker) (m : Made) → w.worker ≡ k → IsSpent w → IsSpent (accept k m w)
unfolding accept
accept-IsSpent absent m h s = s
accept-IsSpent _ m h s = ground arith

step-IsSpent : (e : Action) {w : World} → IsSpent w → IsSpent (step e w)
unfolding step
step-IsSpent call_start {w} s = call-case IsSpent w.caller start refl (λ l h. start-IsSpent s) s
step-IsSpent (call_stop b) {w} s =
    call-case IsSpent w.caller (stop b) refl (λ l h. stop-IsSpent b s) s
step-IsSpent (turn t late) {w} s = take_turn-IsSpent w.caller t late refl s
step-IsSpent (work b) {w} s = run_worker-IsSpent w.worker b refl s
step-IsSpent (connect m) {w} s = accept-IsSpent w.worker m refl s

run-IsSpent : (es : List Action) {w : World} → IsSpent w → IsSpent (run w es)
unfolding run
run-IsSpent [] s = s
run-IsSpent (e ∷ es) s = run-IsSpent es (step-IsSpent e s)

used_stopped-IsSpent : {w : World} → Inv w → IsUsed w → w.caller ≡ outside stop_returned → IsSpent w
used_stopped-IsSpent v u h = ground arith

returned-IsUsed : {w : World} → Inv w → w.caller ≡ outside start_returned → IsUsed w
returned-IsUsed v h = ground arith

spent-ne : {w : World} → IsSpent w → w.caller ≢ outside start_returned
spent-ne s h = ground arith

-- When `start` has returned, and `stop` after it (with anything between them), no later call of
-- `start` returns, whatever is called and whatever happens: `stop` closes the loop, and nothing makes
-- another one.
pub never_restarts :
    (es fs gs : List Action)
    → (run new_world es).caller ≡ outside start_returned
    → (run (run new_world es) fs).caller ≡ outside stop_returned
    → (run (run (run new_world es) fs) gs).caller ≢ outside start_returned
never_restarts es fs gs up down =
    let v = run-Inv es Inv-new in
    let used = run-IsUsed fs v (returned-IsUsed v up) in
    spent-ne (run-IsSpent gs (used_stopped-IsSpent (run-Inv fs v) used down))
