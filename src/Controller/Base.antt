-- ===== src/Controller/Base.antt =====
-- `BaseController` (aiosmtpd/controller.py): the attributes that change, the wrapper round
-- `factory()`, and what `_cleanup` puts back. The event loop is asyncio's, as far as a controller
-- sees it.
use aiosmtpd.Prelude.{ℕ, Bool, true, false, Option, none, some, List, [], ◌∷◌}
use aiosmtpd.Prelude.Text.{Text}

-- What the methods raise. `already_running` and `not_running` are the assertions of `start` and
-- `stop`, `no_server` and `no_coro` those of `finalize`; `never_ready` and `never_responding` are the
-- two `TimeoutError`s of `start`; `returned_none` and `unknown` are the `RuntimeError`s of this
-- module, `loop_closed` and `already_in_loop` those of asyncio; `external` is an exception of other code, by its text.
pub data Fault : Type 0 where
  already_running not_running no_server no_coro : Fault
  never_ready never_responding : Fault
  returned_none unknown loop_closed already_in_loop : Fault
  external : Text → Fault

-- An instance of `SMTP` is named by a number; of `server` and `server_coro` it matters whether they
-- are there.
pub record Base : Type 0 where
  pub smtpd : Option ℕ
  pub server : Bool
  pub server_coro : Bool
  pub thread_exception : Option Fault
  pub factory_invoked : Bool

-- The attributes as the class and `__init__` set them.
abbrev pub new_base : Base
new_base = record {
  smtpd = none;
  server = false;
  server_coro = false;
  thread_exception = none;
  factory_invoked = false;
}

-- What a call of `factory()` comes to: an instance, `None`, or an exception.
pub data Made : Type 0 where
  instance_of : ℕ → Made
  nothing : Made
  raises : Text → Made

-- What serves the connection: an instance, or a `_FakeServer` that does nothing.
pub data Protocol : Type 0 where
  smtp : ℕ → Protocol
  fake_server : Protocol

-- `_factory_invoker`; the `finally` sets the event on every path.
unfoldable pub factory_invoker : Made → Base → Base × Protocol
factory_invoker (instance_of i) c = (record c { smtpd = some i; factory_invoked = true }, smtp i)
factory_invoker nothing c = (
  record c { smtpd = none; thread_exception = some returned_none; factory_invoked = true },
  fake_server,
)
factory_invoker (raises e) c =
    (record c { thread_exception = some (external e); factory_invoked = true }, fake_server)

-- `_cleanup`
unfoldable pub cleanup : Base → Base
cleanup c = record c {
  thread_exception = none;
  factory_invoked = false;
  server_coro = false;
  server = false;
  smtpd = none;
}

-- What the loop is to call: `ready_event.set`, or `cancel_tasks`, which also stops the loop.
pub data Callback : Type 0 where
  set_ready cancel_tasks : Callback

-- `scheduled` holds the callbacks that have not run, the next one first; `listening` counts the
-- servers that listen on the loop.
pub record Loop : Type 0 where
  pub closed : Bool
  pub scheduled : List Callback
  pub listening : ℕ

unfoldable pub has_cancel : List Callback → Bool
has_cancel [] = false
has_cancel (set_ready ∷ cs) = has_cancel cs
has_cancel (cancel_tasks ∷ cs) = true
