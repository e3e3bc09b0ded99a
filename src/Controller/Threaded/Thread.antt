-- ===== src/Controller/Threaded/Thread.antt =====
-- `_run` of `BaseThreadedController` (aiosmtpd/controller.py), and the loop that it runs.
use aiosmtpd.Prelude.{◌+◌, ◌-◌, true, false, some, List, [], ◌∷◌}
use aiosmtpd.Prelude.Tests.{if◌then◌else◌}
use aiosmtpd.Controller.Base.{
  loop_closed, external, Made, factory_invoker, Callback, set_ready, cancel_tasks, has_cancel,
}
use aiosmtpd.Controller.Threaded.State.{
  Worker, starting, creating, serving, closing, waiting, ended, World, Binding, bound, pending,
  cancelled, refused,
}

-- The first turn of the loop in `run_until_complete`. A loop that is closed raises. A `cancel_tasks`
-- that is left from before runs before the server's task takes a step, and cancels it:
-- `CancelledError` is no `Exception`, so the thread ends and says nothing.
unfoldable pub begin_work : World → World
unfolding has_cancel
begin_work w =
    let tried = record (w.base) { server_coro = true } in
    if w.loop.closed
    then record w { base = record tried { thread_exception = some loop_closed }; worker = ended }
    else if has_cancel w.loop.scheduled
    then record w { base = tried; loop = record (w.loop) { scheduled = [] }; worker = ended }
    else record w { base = tried; worker = creating }

-- The end of `run_until_complete`, and the `except`; where the server is made, the
-- `call_soon` behind it is of the same step. A `cancel_tasks` that comes meanwhile cancels the
-- server's task, or comes too late for it; either way it has run. A task that is cancelled when its
-- sockets listen already leaves them so.
unfoldable pub create : Binding → World → World
unfolding has_cancel
create bound w = record w {
  base = record (w.base) { server = true };
  loop = record (w.loop) { scheduled = set_ready ∷ []; listening = w.loop.listening + 1 };
  worker = serving;
}
create (refused e) w = record w {
  base = record (w.base) { thread_exception = some (external e) };
  loop = record (w.loop) { scheduled = [] };
  worker = ended;
}
create pending w = w
create (cancelled listens) w =
    if has_cancel w.loop.scheduled
    then record w {
      loop = record (w.loop) { scheduled = [] };
      leaked = if listens then w.leaked + 1 else w.leaked;
      worker = ended;
    }
    else w

-- `run_forever` takes the next callback.
unfoldable pub run_callback : List Callback → World → World
run_callback [] w = w
run_callback (set_ready ∷ cs) w = record w {
  ready = true;
  loop = record (w.loop) { scheduled = cs };
}
run_callback (cancel_tasks ∷ cs) w = record w {
  loop = record (w.loop) { scheduled = cs };
  worker = closing;
}

-- `self.server.close()`, behind `run_forever`
unfoldable pub close : World → World
close w = record w { loop = record (w.loop) { listening = w.loop.listening - 1 }; worker = waiting }

-- `run_until_complete(self.server.wait_closed())`, and what comes behind it; `wait_closed` raises
-- nothing, and no `cancel_tasks` runs any more, so that it has come to its end or it has not.
unfoldable pub wait_closed : Binding → World → World
wait_closed pending w = w
wait_closed _ w = record w {
  base = record (w.base) { server = false };
  loop = record (w.loop) { closed = true; scheduled = [] };
  worker = ended;
}

-- `_run`
unfoldable pub run_worker : Worker → Binding → World → World
unfolding begin_work create run_callback close wait_closed
run_worker starting b w = begin_work w
run_worker creating b w = create b w
run_worker serving b w = run_callback w.loop.scheduled w
run_worker closing b w = close w
run_worker waiting b w = wait_closed b w
run_worker _ b w = w

-- The loop accepts a connection while it runs, and asks the factory for a protocol.
unfoldable pub accept : Worker → Made → World → World
unfolding factory_invoker
accept serving m w = record w { base = (factory_invoker m w.base).0 }
accept _ m w = w
