-- ===== src/Controller/Unthreaded.antt =====
-- `BaseUnthreadedController` (aiosmtpd/controller.py): the loop is the caller's, and may run or not.
use aiosmtpd.Prelude.{ℕ, ◌+◌, ◌-◌, ◌≡◌, Bool, true, false, not, Option, none, some}
use aiosmtpd.Prelude.Tests.{◌==◌, if◌then◌else◌}
use aiosmtpd.Prelude.Text.{Text}
use aiosmtpd.Controller.Base.{
  Fault, no_server, no_coro, loop_closed, already_in_loop, external, Base, new_base, cleanup, Loop,
}

-- `finalizers` counts the tasks for `finalize` that `end` has made and that have not run.
pub record Unthreaded : Type 0 where
  pub base : Base
  pub loop : Loop
  pub loop_running : Bool
  pub finalizers : ℕ
  pub ended : Bool

-- A method returns, or raises a failure.
abbrev pub Outcome : Type 0
Outcome = Option Fault

-- What `create_server` comes to.
pub data BindOutcome : Type 0 where
  bound : BindOutcome
  refused : Text → BindOutcome

-- the assignment to `self.server` in `begin`, unless the coroutine raises
unfoldable pub bind_server : BindOutcome → Unthreaded → Unthreaded × Outcome
bind_server bound c = (
  record c {
    base = record (c.base) { server = true };
    loop = record (c.loop) { listening = c.loop.listening + 1 };
  },
  none,
)
bind_server (refused e) c = (c, some (external e))

-- `begin`: asyncio runs a coroutine to its end on a loop that is neither closed nor running.
unfoldable pub begin : BindOutcome → Unthreaded → Unthreaded × Outcome
unfolding bind_server
begin b c =
    let c' = record c { base = record (c.base) { server_coro = true } } in
    if c.loop.closed
    then (c', some loop_closed)
    else if c.loop_running
    then (c', some already_in_loop)
    else bind_server b c'

-- `finalize`, in one step: nothing else runs while it waits for the server to close.
unfoldable pub finalize : Unthreaded → Unthreaded × Outcome
unfolding cleanup
finalize c =
    let cleared = record c { ended = false } in
    let shut = record cleared { loop = record (c.loop) { listening = c.loop.listening - 1 } } in
    if not c.base.server
    then (cleared, some no_server)
    else if not c.base.server_coro
    then (shut, some no_coro)
    else (record shut { base = cleanup c.base; ended = true }, none)

-- `end`; where the loop does not run, the coroutine is alone on it: an earlier task has run.
unfoldable pub end : Unthreaded → Unthreaded × Outcome
unfolding finalize
end c =
    let cleared = record c { ended = false } in
    if c.loop_running
    then (record cleared { finalizers = c.finalizers + 1 }, none)
    else if c.loop.closed
    then (cleared, some loop_closed)
    else finalize cleared

-- The loop runs a task that `end` has made; what it raises stays in the task.
unfoldable pub run_finalizer : Unthreaded → Unthreaded
unfolding finalize
run_finalizer c =
    if c.finalizers == 0 then c else (finalize (record c { finalizers = c.finalizers - 1 })).0

-- A controller that has been ended and has no task left, on a loop with as many servers as before.
abbrev pub Ended : Unthreaded → ℕ → Type 0
Ended c n = (c.base ≡ new_base) × (c.loop.listening ≡ n) × (c.ended ≡ true)
