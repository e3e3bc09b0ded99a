-- ===== src/Controller/Tests.antt =====
-- The theorems about controllers at concrete inputs.
use aiosmtpd.Prelude.{
  ◌+◌, ◌≤◌, ◌≡◌, refl, ◌≢◌, ◌↔◌, Bool, ◌↔◌, true, false, none, some, List, [], ◌∷◌, ◌++◌, arith,
}
use aiosmtpd.Prelude.Tests.{or_else}
use aiosmtpd.Prelude.Text.{Dict, codes, text_eq, get, put}
use aiosmtpd.Prelude.Lists.{length}
use aiosmtpd.Smtp.State.{Value, bool, str}
use aiosmtpd.Controller.Base.{external, instance_of, raises, new_base, has_cancel}
use aiosmtpd.Controller.Settings.{
  smtp_kwargs, starting_kwargs, host_value, latest, default_value, get-smtp_kwargs,
}
use aiosmtpd.Controller.Threaded.State.{
  outside, start_returned, stop_returned, start_raised, ended, World, new_world, answered,
  timed_out, Binding, pending, cancelled, refused, Action, call_start, call_stop, turn, work,
  connect,
}
use aiosmtpd.Controller.Threaded.{step, run}
use aiosmtpd.Controller.Threaded.Safety.{
  Serves, IsFresh, leaks_of, start-Serves, stop-IsFresh, start-needs_instance,
}
use aiosmtpd.Controller.Threaded.Stopping.{thread_turns, stop-ends}
use aiosmtpd.Controller.Threaded.Restart.{never_restarts}
use aiosmtpd.Controller.Threaded.Retry.{Doomed, failed_start_blocks}
use aiosmtpd.Controller.Trigger.{
  succeeds, times_out, Calls, opened, wrapped, unwrapped, closed, inet_trigger, unix_trigger,
  left_behind, trigger-closes,
}
use aiosmtpd.Controller.Unthreaded
use aiosmtpd.Controller.Unthreaded.{Unthreaded}

-- The two turns of the thread that bring the server up, its callback, and a connection.
abbrev up : List Action
up =
    call_start
    ∷ work Binding.bound
    ∷ work Binding.bound
    ∷ work Binding.bound
    ∷ turn answered false
    ∷ connect (instance_of 7)
    ∷ turn timed_out false
    ∷ turn answered false
    ∷ turn answered false
    ∷ turn answered false
    ∷ []

abbrev down : List Action
down =
    call_stop false
    ∷ work Binding.bound
    ∷ work Binding.bound
    ∷ work pending
    ∷ work Binding.bound
    ∷ turn answered false
    ∷ []

up_returned : (run new_world up).caller ≡ outside start_returned
unfolding run step has_cancel
up_returned = refl

down_returned : (run (run new_world up) down).caller ≡ outside stop_returned
unfolding run step has_cancel
down_returned = refl

start-Serves_example : Serves (run new_world up)
start-Serves_example = start-Serves up up_returned

stopped_returned : (run new_world (up ++ down)).caller ≡ outside stop_returned
unfolding run step has_cancel
stopped_returned = refl

stop-IsFresh_example :
    IsFresh (run new_world (up ++ down))
    × ((run new_world (up ++ down)).leaked ≤ leaks_of (up ++ down))
stop-IsFresh_example = stop-IsFresh (up ++ down) stopped_returned

-- `start` gives up while the server is made, and `stop` cancels that: the server may listen on.
abbrev impatient : List Action
impatient =
    call_start
    ∷ work Binding.bound
    ∷ turn answered true
    ∷ call_stop false
    ∷ work (cancelled true)
    ∷ turn answered false
    ∷ []

impatient_leaks :
    ((run new_world impatient).caller ≡ outside stop_returned)
    × ((run new_world impatient).leaked ≡ 1)
unfolding run step has_cancel
impatient_leaks = (refl, refl)

never_restarts_example : (run (run (run new_world up) down) up).caller ≢ outside start_returned
never_restarts_example = never_restarts up down up up_returned down_returned

-- The server comes up, and its factory raises.
abbrev no_instance : List Action
no_instance =
    call_start
    ∷ work Binding.bound
    ∷ work Binding.bound
    ∷ work Binding.bound
    ∷ turn answered false
    ∷ turn answered false
    ∷ connect (raises (codes "TypeError"))
    ∷ turn answered true
    ∷ turn answered false
    ∷ []

no_instance_raises :
    (run new_world no_instance).caller ≡ outside (start_raised (external (codes "TypeError")))
unfolding run step has_cancel
no_instance_raises = refl

start-needs_instance_example : (run new_world no_instance).caller ≢ outside start_returned
start-needs_instance_example = start-needs_instance no_instance refl

-- The port is taken: `bind` is refused.
abbrev taken : World
taken =
    run new_world
      (call_start ∷ work Binding.bound ∷ work (refused (codes "OSError")) ∷ turn answered true ∷ [])

taken_raises : taken.caller ≡ outside (start_raised (external (codes "OSError")))
unfolding run step has_cancel
taken_raises = refl

taken_ended : (taken.thread ≡ true) × (taken.worker ≡ ended) × (taken.loop.closed ≡ false)
unfolding run step has_cancel
taken_ended = (refl, refl, refl)

abbrev patience : List Action
patience =
    turn answered true
    ∷ turn answered true
    ∷ turn answered true
    ∷ turn answered true
    ∷ turn answered true
    ∷ []

abbrev after_stop : List Action
after_stop = work Binding.bound ∷ patience

failed_start_blocks_example :
    Doomed (run taken (call_stop false ∷ turn answered false ∷ call_start ∷ after_stop)).caller
failed_start_blocks_example =
    failed_start_blocks taken (start_raised (external (codes "OSError"))) false false answered
      after_stop taken_raises taken_ended.0 taken_ended.1 taken_ended.2 refl

abbrev busy : List Action
busy =
    work Binding.bound
    ∷ connect (instance_of 8)
    ∷ work Binding.bound
    ∷ work pending
    ∷ work Binding.bound
    ∷ []

none_scheduled : (run new_world up).loop.scheduled ≡ []
unfolding run step has_cancel
none_scheduled = refl

enough : length (run new_world up).loop.scheduled + 3 ≤ thread_turns busy
enough = rw none_scheduled (omega arith)

stop-ends_example :
    (step (turn answered false) (run (step (call_stop false) (run new_world up)) busy)).caller
    ≡ outside stop_returned
stop-ends_example = stop-ends up busy false false answered up_returned refl enough

abbrev idle_unthreaded : Unthreaded
idle_unthreaded = record {
  base = new_base;
  loop = record { closed = false; scheduled = []; listening = 2 };
  loop_running = false;
  finalizers = 0;
  ended = false;
}

abbrev given : Dict Value
given = (codes "hostname", str (codes "a.example")) ∷ (codes "ident", str (codes "x")) ∷ []

abbrev old : Dict Value
old = (codes "enable_SMTPUTF8", bool false) ∷ []

get-smtp_kwargs_example :
    get (codes "hostname") (smtp_kwargs (some old) given (some (codes "b.example")))
    ≡ or_else (host_value (some (codes "b.example")) (codes "hostname")) (
        or_else (latest (codes "hostname") given) (
          or_else
            (get (codes "hostname") (starting_kwargs (some old)))
            (default_value (codes "hostname"))))
get-smtp_kwargs_example =
    get-smtp_kwargs (codes "hostname") (some old) given (some (codes "b.example"))

-- What that value is.
kwargs_hostname :
    get (codes "hostname") (smtp_kwargs (some old) given (some (codes "b.example")))
    ≡ some (str (codes "b.example"))
unfolding smtp_kwargs get codes text_eq put
kwargs_hostname = refl

kwargs_utf8 : get (codes "enable_SMTPUTF8") (smtp_kwargs (some old) given none) ≡ some (bool false)
unfolding smtp_kwargs get codes text_eq put
kwargs_utf8 = refl

abbrev no_answer : Calls
no_answer = record { create = succeeds; connect = succeeds; wrap = succeeds; recv = times_out }

trigger-closes_example :
    (left_behind false false (inet_trigger true no_answer).0 ≡ false)
    × (left_behind false false (unix_trigger true no_answer).0 ≡ false)
    × (((inet_trigger true no_answer).1 ≡ answered) ↔ (◌≡◌ {A = Bool} false true))
    × (((unix_trigger true no_answer).1 ≡ answered) ↔ (◌≡◌ {A = Bool} false true))
trigger-closes_example = trigger-closes true no_answer

no_answer_times_out :
    unix_trigger true no_answer ≡ (opened ∷ wrapped ∷ unwrapped ∷ closed ∷ [], timed_out)
unfolding unix_trigger
no_answer_times_out = refl
