-- ===== src/Controller/Threaded/Calls.antt =====
-- `start` and `stop` of `BaseThreadedController` (aiosmtpd/controller.py), a wait or a test at a time.
use aiosmtpd.Prelude.{ℕ, Bool, true, false, ◌&&◌, not, Option, none, some, [], ◌∷◌, ◌++◌}
use aiosmtpd.Prelude.Tests.{if◌then◌else◌}
use aiosmtpd.Controller.Base.{
  Fault, already_running, not_running, never_ready, never_responding, unknown, loop_closed,
  external, cleanup, cancel_tasks,
}
use aiosmtpd.Controller.Threaded.State.{
  start_returned, stop_returned, start_raised, stop_raised, Caller, outside, awaiting_ready,
  triggering, awaiting_factory, checking_exception, checking_smtpd, joining, Worker, starting,
  ended, World, Trigger, answered, timed_out, silent, failed,
}

-- `start`, up to its first wait
unfoldable pub start : World → World
start w =
    if w.thread then record w { caller = outside (start_raised already_running) } else record w {
      base = record (w.base) { factory_invoked = false };
      ready = false;
      thread = true;
      worker = starting;
      caller = awaiting_ready;
    }

-- what `start` raises when the event has not been set in time
unfoldable pub not_ready : Option Fault → Fault
not_ready none = never_ready
not_ready (some e) = e

-- `if not ready_event.wait(self.ready_timeout)`
unfoldable pub wait_ready : Bool → World → World
unfolding not_ready
wait_ready late w =
    if w.ready
    then record w { caller = triggering }
    else if late
    then record w { caller = outside (start_raised (not_ready w.base.thread_exception)) }
    else w

-- `self._trigger_server()`, whose `socket_timeout` does not matter
unfoldable pub trigger : Trigger → World → World
trigger answered w = record w { caller = awaiting_factory }
trigger timed_out w = record w { caller = awaiting_factory }
trigger silent w = w
trigger (failed e) w = record w { caller = outside (start_raised (external e)) }

-- `if not self._factory_invoked.wait(respond_timeout)`
unfoldable pub wait_factory : Bool → World → World
wait_factory late w =
    if w.base.factory_invoked
    then record w { caller = checking_exception }
    else if late
    then record w { caller = outside (start_raised never_responding) }
    else w

-- `if self._thread_exception is not None`
unfoldable pub check_exception : Option Fault → World → World
check_exception none w = record w { caller = checking_smtpd }
check_exception (some e) w = record w { caller = outside (start_raised e) }

-- `if self.smtpd is None`
unfoldable pub check_smtpd : Option ℕ → World → World
check_smtpd none w = record w { caller = outside (start_raised unknown) }
check_smtpd (some i) w = record w { caller = outside start_returned }

-- `self._cleanup()` at the end of `stop`
unfoldable pub finish_stop : World → World
unfolding cleanup
finish_stop w = record w { thread = false; base = cleanup w.base; caller = outside stop_returned }

-- `stop`, up to the `join` where there is a thread
unfoldable pub stop : Bool → World → World
unfolding finish_stop
stop no_assert w =
    let told = record w {
      loop = record (w.loop) { scheduled = w.loop.scheduled ++ cancel_tasks ∷ [] };
    } in
    if not no_assert && not w.thread
    then record w { caller = outside (stop_raised not_running) }
    else if w.loop.closed
    then record w { caller = outside (stop_raised loop_closed) }
    else if w.thread
    then record told { caller = joining }
    else finish_stop told

-- `self._thread.join()`
unfoldable pub join_worker : Worker → World → World
unfolding finish_stop
join_worker ended w = finish_stop w
join_worker _ w = w

unfoldable pub take_turn : Caller → Trigger → Bool → World → World
unfolding wait_ready trigger wait_factory check_exception check_smtpd join_worker
take_turn (outside l) t late w = w
take_turn awaiting_ready t late w = wait_ready late w
take_turn triggering t late w = trigger t w
take_turn awaiting_factory t late w = wait_factory late w
take_turn checking_exception t late w = check_exception w.base.thread_exception w
take_turn checking_smtpd t late w = check_smtpd w.base.smtpd w
take_turn joining t late w = join_worker w.worker w
