-- ===== src/Controller/Threaded/Retry.antt =====
-- A controller whose thread has ended early, and that is stopped, is not started by the next call.
use aiosmtpd.Prelude.{◌≡◌, refl, ◌⊎◌, Bool, true, false, none, List, [], ◌∷◌, arith}
use aiosmtpd.Controller.Base.{never_ready, Made, has_cancel, cleanup}
use aiosmtpd.Controller.Threaded.State.{
  Caller, outside, awaiting_ready, Last, start_raised, Worker, absent, starting, ended, World,
  Trigger, Binding, Action, call_start, call_stop, turn, work, connect,
}
use aiosmtpd.Controller.Threaded.Calls.{start, stop, take_turn}
use aiosmtpd.Controller.Threaded.Thread.{run_worker, accept}
use aiosmtpd.Controller.Threaded.{call, step, run}
use aiosmtpd.Controller.Threaded.Invariant.{is_call, NoCalls, has_cancel-append}

-- Where a call of `start` on a loop with a `cancel_tasks` left stands.
abbrev pub Doomed : Caller → Type 0
Doomed c = (c ≡ awaiting_ready) ⊎ (c ≡ outside (start_raised never_ready))

record IsDoomed (w : World) : Type 0 where
  place : Doomed w.caller
  silent : w.base.thread_exception ≡ none
  unready : w.ready ≡ false
  doom :
      ((w.worker ≡ starting) × (has_cancel w.loop.scheduled ≡ true) × (w.loop.closed ≡ false))
      ⊎ (w.worker ≡ ended)

take_turn-IsDoomed :
    {w : World} (c : Caller) (t : Trigger) (late : Bool)
    → w.caller ≡ c
    → IsDoomed w
    → IsDoomed (take_turn c t late w)
unfolding take_turn
take_turn-IsDoomed (outside l) t late h s = s
take_turn-IsDoomed _ t late h s = ground arith

run_worker-IsDoomed :
    {w : World} (k : Worker) (b : Binding) → w.worker ≡ k → IsDoomed w → IsDoomed (run_worker k b w)
unfolding run_worker
run_worker-IsDoomed absent b h s = s
run_worker-IsDoomed _ b h s = ground arith

accept-IsDoomed :
    {w : World} (k : Worker) (m : Made) → w.worker ≡ k → IsDoomed w → IsDoomed (accept k m w)
unfolding accept
accept-IsDoomed absent m h s = s
accept-IsDoomed _ m h s = ground arith

step-IsDoomed : (e : Action) {w : World} → is_call e ≡ false → IsDoomed w → IsDoomed (step e w)
unfolding step
step-IsDoomed call_start h s = cc
step-IsDoomed (call_stop b) h s = cc
step-IsDoomed (turn t late) {w} h s = take_turn-IsDoomed w.caller t late refl s
step-IsDoomed (work b) {w} h s = run_worker-IsDoomed w.worker b refl s
step-IsDoomed (connect m) {w} h s = accept-IsDoomed w.worker m refl s

run-IsDoomed : (es : List Action) {w : World} → NoCalls es → IsDoomed w → IsDoomed (run w es)
unfolding run
run-IsDoomed [] h s = s
run-IsDoomed (e ∷ es) h s = run-IsDoomed es (ground arith) (step-IsDoomed e (ground arith) s)

retry-IsDoomed :
    (w : World) (l : Last) (b late : Bool) (t : Trigger)
    → w.caller ≡ outside l
    → w.thread ≡ true
    → w.worker ≡ ended
    → w.loop.closed ≡ false
    → IsDoomed (step call_start (step (turn t late) (step (call_stop b) w)))
unfolding step call stop start take_turn cleanup
retry-IsDoomed w l b late t h th k o = ground (arith, has_cancel-append w.loop.scheduled)

-- When the thread has ended and its loop is not closed, as after a `bind` that was refused, `stop`
-- returns and leaves its `cancel_tasks` in the loop. So the next call of `start` never gets
-- further than its first wait, and can only raise the first `TimeoutError`, whatever the outcome of
-- binding would be.
pub failed_start_blocks :
    (w : World) (l : Last) (b late : Bool) (t : Trigger) (es : List Action)
    → w.caller ≡ outside l
    → w.thread ≡ true
    → w.worker ≡ ended
    → w.loop.closed ≡ false
    → NoCalls es
    → Doomed (run w (call_stop b ∷ turn t late ∷ call_start ∷ es)).caller
unfolding run
failed_start_blocks w l b late t es h th k o n =
    (run-IsDoomed es n (retry-IsDoomed w l b late t h th k o)).place
