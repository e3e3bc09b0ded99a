-- ===== src/Controller/Threaded/State.antt =====
-- Where the two threads of a `BaseThreadedController` (aiosmtpd/controller.py) stand, and what may
-- happen.
use aiosmtpd.Prelude.{ℕ, Bool, false, []}
use aiosmtpd.Prelude.Text.{Text}
use aiosmtpd.Controller.Base.{Fault, Base, new_base, Made, Loop}

-- How the last call of the controller ended.
pub data Last : Type 0 where
  no_call start_returned stop_returned : Last
  start_raised stop_raised : Fault → Last

-- Where the caller stands: outside of the controller, at one of the waits and tests of `start`, or
-- at the `join` of `stop`.
pub data Caller : Type 0 where
  outside : Last → Caller
  awaiting_ready triggering awaiting_factory checking_exception checking_smtpd joining : Caller

-- Where `_run` stands: not started yet; at its first line; in `run_until_complete` with the server's
-- coroutine; in `run_forever`; behind it; in `run_until_complete` with `wait_closed()`; at its end.
pub data Worker : Type 0 where
  absent starting creating serving closing waiting ended : Worker

-- `thread` tells whether `_thread` is there, `ready` whether `ready_event` is set. `leaked` counts
-- the servers that listen and that nobody has: their creation was cancelled behind `listen`.
pub record World : Type 0 where
  pub base : Base
  pub thread : Bool
  pub ready : Bool
  pub loop : Loop
  pub leaked : ℕ
  pub caller : Caller
  pub worker : Worker

-- A new controller on a new loop.
abbrev pub new_world : World
new_world = record {
  base = new_base;
  thread = false;
  ready = false;
  loop = record { closed = false; scheduled = []; listening = 0 };
  leaked = 0;
  caller = outside no_call;
  worker = absent;
}

-- What `_trigger_server` comes to: an answer, a `socket.timeout`, or another exception; `silent`
-- tells that nothing has come so far, which may stay so for ever where the socket has no timeout.
pub data Trigger : Type 0 where
  answered timed_out silent : Trigger
  failed : Text → Trigger

-- What `run_until_complete` comes to, for the server's coroutine or `wait_closed()`: a value, the
-- cancellation of the coroutine, before or behind the point from which its server listens, or an
-- exception; `pending` tells that the coroutine has not come to its end so far. From Python 3.12 on
-- `wait_closed()` comes to its end only when the last connection is closed.
pub data Binding : Type 0 where
  bound pending : Binding
  cancelled : (listens : Bool) → Binding
  refused : Text → Binding

-- `turn t late` is a step of the caller inside a call; `late` tells that the time of its wait is
-- over. `connect` is a connection that the loop accepts.
pub data Action : Type 0 where
  call_start : Action
  call_stop : (no_assert : Bool) → Action
  turn : Trigger → (late : Bool) → Action
  work : Binding → Action
  connect : Made → Action
