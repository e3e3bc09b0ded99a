-- ===== src/Controller/Threaded/Stopping.antt =====
-- `stop` ends.
use aiosmtpd.Prelude.{
  ℕ, suc, ◌+◌, ◌-◌, ◌≤◌, ◌≡◌, refl, sym, ◌∙◌, Bool, true, false, List, [], ◌∷◌, ◌++◌, arith,
}
use mathlib.Core.Path.{subst}
use aiosmtpd.Prelude.Lists.{length}
use aiosmtpd.Controller.Base.{Made, Callback, set_ready, cancel_tasks, has_cancel}
use aiosmtpd.Controller.Threaded.State.{
  outside, joining, start_returned, stop_returned, Worker, absent, starting, creating, serving,
  closing, waiting, ended, World, new_world, Trigger, Binding, pending, Action, call_start,
  call_stop, turn, work, connect,
}
use aiosmtpd.Controller.Threaded.Calls.{stop, take_turn}
use aiosmtpd.Controller.Threaded.Thread.{run_worker, run_callback, close, wait_closed, accept}
use aiosmtpd.Controller.Threaded.{call, step, run}
use aiosmtpd.Controller.Threaded.Invariant.{
  Inv, is_call, NoCalls, has_cancel-append, Inv-new, run-Inv,
}

run_worker-caller : (w : World) (k : Worker) (b : Binding) → (run_worker k b w).caller ≡ w.caller
unfolding run_worker
run_worker-caller w absent b = refl
run_worker-caller w _ b = ground arith

-- How many turns a loop needs to come to `cancel_tasks` and run it.
abbrev turns_to_cancel : List Callback → ℕ
turns_to_cancel [] = 0
turns_to_cancel (set_ready ∷ cs) = suc (turns_to_cancel cs)
turns_to_cancel (cancel_tasks ∷ cs) = 1

turns_to_cancel-append :
    (cs : List Callback) → turns_to_cancel (cs ++ cancel_tasks ∷ []) ≤ length cs + 1
turns_to_cancel-append [] = omega arith
turns_to_cancel-append (set_ready ∷ cs) = omega (arith, turns_to_cancel-append cs)
turns_to_cancel-append (cancel_tasks ∷ cs) = omega arith

-- `stop` has returned, or needs the thread to take `n` turns at most.
data Stopping (n : ℕ) (w : World) : Type 0 where
  done : w.caller ≡ outside stop_returned → Stopping n w
  in_loop :
      w.caller ≡ joining
      → w.worker ≡ serving
      → has_cancel w.loop.scheduled ≡ true
      → turns_to_cancel w.loop.scheduled + 2 ≤ n
      → Stopping n w
  behind : w.caller ≡ joining → w.worker ≡ closing → 2 ≤ n → Stopping n w
  last_wait : w.caller ≡ joining → w.worker ≡ waiting → 1 ≤ n → Stopping n w
  over : w.caller ≡ joining → w.worker ≡ ended → Stopping n w

abbrev thread_turn : Action → ℕ
thread_turn (work pending) = 0
thread_turn (work _) = 1
thread_turn _ = 0

-- The turns of the controller's thread, but for those at which a coroutine has not come to its end.
abbrev pub thread_turns : List Action → ℕ
thread_turns [] = 0
thread_turns (e ∷ es) = thread_turn e + thread_turns es

sub-sub : (a b c : ℕ) → a - b - c ≡ a - (b + c)
sub-sub a b c = omega arith

sub_nothing : (a : ℕ) → a ≡ a - 0
sub_nothing a = omega arith

turn-Stopping :
    (t : Trigger) (late : Bool) {n : ℕ} {w : World}
    → Stopping n w
    → Stopping n (take_turn w.caller t late w)
unfolding take_turn
turn-Stopping t late (done h) = done (ground arith)
turn-Stopping t late (in_loop c k h l) =
    in_loop (ground arith) (ground arith) (ground arith) (ground arith)
turn-Stopping t late (behind c k h) = behind (ground arith) (ground arith) h
turn-Stopping t late (last_wait c k h) = last_wait (ground arith) (ground arith) h
turn-Stopping t late (over c k) = done (ground arith)

serve-Stopping :
    {n : ℕ} (w : World) (cs : List Callback)
    → w.caller ≡ joining
    → w.worker ≡ serving
    → has_cancel cs ≡ true
    → turns_to_cancel cs + 2 ≤ n
    → Stopping (n - 1) (run_callback cs w)
unfolding run_callback has_cancel
serve-Stopping w [] c k h l = cc
serve-Stopping w (set_ready ∷ cs) c k h l = in_loop c k h (omega arith)
serve-Stopping w (cancel_tasks ∷ cs) c k h l = behind c refl (omega arith)

close-Stopping : {n : ℕ} (w : World) → w.caller ≡ joining → 2 ≤ n → Stopping (n - 1) (close w)
unfolding close
close-Stopping w c h = last_wait c refl (omega arith)

weaken : {m n : ℕ} {w : World} → m ≤ n → Stopping m w → Stopping n w
weaken h (done c) = done c
weaken h (in_loop c k t l) = in_loop c k t (omega arith)
weaken h (behind c k l) = behind c k (omega arith)
weaken h (last_wait c k l) = last_wait c k (omega arith)
weaken h (over c k) = over c k

wait_closed-Stopping :
    (b : Binding) {n : ℕ} (w : World)
    → w.caller ≡ joining
    → w.worker ≡ waiting
    → 1 ≤ n
    → Stopping (n - thread_turn (work b)) (wait_closed b w)
unfolding wait_closed
wait_closed-Stopping pending w c k h = last_wait c k (omega arith)
wait_closed-Stopping _ w c k h = over c refl

thread_turn-le : (b : Binding) → thread_turn (work b) ≤ 1
thread_turn-le pending = omega arith
thread_turn-le _ = omega arith

work-Stopping :
    (b : Binding) {n : ℕ} {w : World}
    → Stopping n w
    → Stopping (n - thread_turn (work b)) (run_worker w.worker b w)
unfolding run_worker
work-Stopping b {n} {w} (done h) = done (run_worker-caller w w.worker b ∙ h)
work-Stopping b {n} {w} (in_loop c k h l) =
    subst (λ x. Stopping (n - thread_turn (work b)) (run_worker x b w)) (sym k)
      (weaken (omega (arith, thread_turn-le b)) (serve-Stopping w w.loop.scheduled c k h l))
work-Stopping b {n} {w} (behind c k h) =
    subst (λ x. Stopping (n - thread_turn (work b)) (run_worker x b w)) (sym k)
      (weaken (omega (arith, thread_turn-le b)) (close-Stopping w c h))
work-Stopping b {n} {w} (last_wait c k h) =
    subst (λ x. Stopping (n - thread_turn (work b)) (run_worker x b w)) (sym k)
      (wait_closed-Stopping b w c k h)
work-Stopping b {n} {w} (over c k) =
    subst (λ x. Stopping (n - thread_turn (work b)) (run_worker x b w)) (sym k) (over c k)

accept-Stopping :
    (k : Worker) (m : Made) {n : ℕ} {w : World}
    → w.worker ≡ k
    → Stopping n w
    → Stopping n (accept k m w)
unfolding accept
accept-Stopping absent m h s = s
accept-Stopping starting m h s = s
accept-Stopping creating m h s = s
accept-Stopping serving m h (done c) = done c
accept-Stopping serving m h (in_loop c k t l) = in_loop c k t l
accept-Stopping serving m h (behind c k l) = behind c k l
accept-Stopping serving m h (last_wait c k l) = last_wait c k l
accept-Stopping serving m h (over c k) = over c k
accept-Stopping closing m h s = s
accept-Stopping waiting m h s = s
accept-Stopping ended m h s = s

step-Stopping :
    (e : Action) {n : ℕ} {w : World}
    → is_call e ≡ false
    → Stopping n w
    → Stopping (n - thread_turn e) (step e w)
unfolding step
step-Stopping call_start h s = cc
step-Stopping (call_stop b) h s = cc
step-Stopping (turn t late) {n} {w} h s =
    subst (λ k. Stopping k (take_turn w.caller t late w)) (sub_nothing n) (turn-Stopping t late s)
step-Stopping (work b) h s = work-Stopping b s
step-Stopping (connect m) {n} {w} h s =
    subst (λ k. Stopping k (accept w.worker m w)) (sub_nothing n)
      (accept-Stopping w.worker m refl s)

run-Stopping :
    (es : List Action) {n : ℕ} {w : World}
    → NoCalls es
    → Stopping n w
    → Stopping (n - thread_turns es) (run w es)
unfolding run
run-Stopping [] {n} {w} h s = subst (λ k. Stopping k w) (sub_nothing n) s
run-Stopping (e ∷ es) {n} {w} h s =
    subst (λ k. Stopping k (run w (e ∷ es))) (sub-sub n (thread_turn e) (thread_turns es))
      (run-Stopping es (ground arith) (step-Stopping e (ground arith) s))

stopped_turn :
    (t : Trigger) (late : Bool) {w : World}
    → Stopping 0 w
    → (step (turn t late) w).caller ≡ outside stop_returned
unfolding step take_turn
stopped_turn t late (done h) = ground arith
stopped_turn t late (in_loop c k h l) = absurd (omega arith)
stopped_turn t late (behind c k h) = absurd (omega arith)
stopped_turn t late (last_wait c k h) = absurd (omega arith)
stopped_turn t late (over c k) = ground arith

stop-Stopping :
    {w : World} (b : Bool)
    → Inv w
    → w.caller ≡ outside start_returned
    → Stopping (length w.loop.scheduled + 3) (step (call_stop b) w)
unfolding step call stop
stop-Stopping {w} b v h =
    in_loop (ground (arith, v)) (ground (arith, v))
      (ground (arith, has_cancel-append w.loop.scheduled))
      (ground (arith, turns_to_cancel-append w.loop.scheduled))

-- `stop` ends when the server serves, unless `wait_closed()` waits for ever: once the thread has taken
-- three turns more than its loop had callbacks, not counting those at which a coroutine has not come
-- to its end, among any steps of the rest, the next turn of the caller sees `stop` return.
pub stop-ends :
    (es fs : List Action) (b late : Bool) (t : Trigger)
    → (run new_world es).caller ≡ outside start_returned
    → NoCalls fs
    → length (run new_world es).loop.scheduled + 3 ≤ thread_turns fs
    → (step (turn t late) (run (step (call_stop b) (run new_world es)) fs)).caller
      ≡ outside stop_returned
stop-ends es fs b late t up n h = stopped_turn t late (
    subst (λ k. Stopping k (run (step (call_stop b) (run new_world es)) fs)) (omega arith)
      (run-Stopping fs n (stop-Stopping b (run-Inv es Inv-new) up)))
