-- ===== src/Controller/Threaded.antt =====
-- `BaseThreadedController` (aiosmtpd/controller.py): the thread that calls `start` and `stop`, and
-- the thread that runs the loop. An action is a step of one of them, or of the world around; a
-- schedule is a list of actions.
pub mod State
pub mod Calls
pub mod Thread
pub mod Invariant
pub mod Safety
pub mod Stopping
pub mod Restart
pub mod Retry
use aiosmtpd.Prelude.{
  ℕ, ◌+◌, ◌-◌, Bool, true, false, ◌&&◌, not, Option, none, some, List, [], ◌∷◌, ◌++◌,
}
use aiosmtpd.Prelude.Tests.{if◌then◌else◌}
use aiosmtpd.Prelude.Text.{Text}
use aiosmtpd.Controller.Base.{
  Fault, already_running, not_running, never_ready, never_responding, unknown, loop_closed,
  external, Base, new_base, Made, factory_invoker, cleanup, Callback, set_ready, cancel_tasks, Loop,
  has_cancel,
}
use aiosmtpd.Controller.Threaded.State.{
  Last, no_call, start_returned, stop_returned, start_raised, stop_raised, Caller, outside,
  awaiting_ready, triggering, awaiting_factory, checking_exception, checking_smtpd, joining, Worker,
  absent, starting, creating, serving, closing, waiting, ended, World, new_world, Trigger, answered,
  timed_out, silent, failed, Binding, bound, pending, cancelled, refused, Action, call_start,
  call_stop, turn, work, connect,
}
use aiosmtpd.Controller.Threaded.Calls.{
  start, not_ready, wait_ready, trigger, wait_factory, check_exception, check_smtpd, finish_stop,
  stop, join_worker, take_turn,
}
use aiosmtpd.Controller.Threaded.Thread.{
  begin_work, create, run_callback, close, wait_closed, run_worker, accept,
}

-- A call is made from outside only.
unfoldable pub call : Caller → (World → World) → World → World
call (outside l) f w = f w
call _ f w = w

unfoldable pub step : Action → World → World
unfolding call start stop take_turn run_worker accept
step call_start w = call w.caller start w
step (call_stop no_assert) w = call w.caller (stop no_assert) w
step (turn t late) w = take_turn w.caller t late w
step (work b) w = run_worker w.worker b w
step (connect m) w = accept w.worker m w

unfoldable pub run : World → List Action → World
run w [] = w
run w (e ∷ es) = run (step e w) es
