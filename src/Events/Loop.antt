-- ===== src/Events/Loop.antt =====
-- common/events/EventLoop.cc: the loop's rounds and its posted tasks. Tasks and channels are numbers; the
-- wakeup channel is 0. What a channel's callbacks or a task do to the loop are later operations, made
-- from its thread. The channels that `poll` answers come in the order after `sort`; the trace contexts
-- of the tasks are left out. A read of the eventfd clears it, a write makes it readable.
pub mod Wakeups
mod Tests
use claire.Prelude.{
  ℕ, Bool, true, false, not, ◌&&◌, ◌||◌, List, [], ◌∷◌, ◌++◌, Option, none, some, ◌==◌,
  if◌then◌else◌, ◌>>=◌,
}

-- Where the loop stands: before `loop`, in `poll`, at a channel with others left, or at its tasks.
pub data Phase : Type 0 where
  starting polling : Phase
  handling : List ℕ → Phase
  running : List ℕ → Phase

-- `ran` are the posted tasks that have run, `ran_at_once` those that `Run` ran itself.
pub record EventLoop : Type 0 where
  pub phase : Phase
  pub current_active_channel : Option ℕ
  pub pending_tasks : List ℕ
  pub wakeup_readable : Bool
  pub quit : Bool
  pub ran : List ℕ
  pub ran_at_once : List ℕ

abbrev pub new_loop : EventLoop
new_loop = record {
  phase = starting;
  current_active_channel = none;
  pending_tasks = [];
  wakeup_readable = false;
  quit = false;
  ran = [];
  ran_at_once = [];
}

abbrev pub is_null : Option ℕ → Bool
is_null none = true
is_null (some c) = false

unfoldable pub wakeup : EventLoop → EventLoop
wakeup e = record e { wakeup_readable = true }

unfoldable pub on_wakeup : EventLoop → EventLoop
on_wakeup e = record e { wakeup_readable = false }

-- `Post`, from the loop's thread or from another.
unfoldable pub post : Bool → ℕ → EventLoop → EventLoop
post in_loop task e =
    let e' = record e { pending_tasks = e.pending_tasks ++ task ∷ [] } in
    if not in_loop || is_null e.current_active_channel then wakeup e' else e'

unfoldable pub run : Bool → ℕ → EventLoop → EventLoop
run true task e = record e { ran_at_once = e.ran_at_once ++ task ∷ [] }
run false task e = post false task e

unfoldable pub quit_loop : Bool → EventLoop → EventLoop
quit_loop true e = record e { quit = true }
quit_loop false e = wakeup (record e { quit = true })

-- The head of the `while`: another round, or the end.
unfoldable pub next_round : Bool → EventLoop → EventLoop
next_round true e = record e { phase = starting }
next_round false e = record e { phase = polling }

unfoldable pub start : Phase → EventLoop → Option EventLoop
start starting e = some (next_round e.quit e)
start _ e = none

-- `poll` answers.
unfoldable pub poll : Phase → List ℕ → EventLoop → Option EventLoop
poll polling channels e = some (record e { phase = handling channels })
poll _ channels e = none

-- The next channel becomes the active one; where it is the wakeup channel, it reads the eventfd.
abbrev pub on_event : ℕ → EventLoop → EventLoop
on_event c e = if c == 0 then on_wakeup e else e

unfoldable pub handle : Phase → EventLoop → Option EventLoop
handle (handling (c ∷ cs)) e =
    some (on_event c (record e { current_active_channel = some c; phase = handling cs }))
handle _ e = none

-- No channel is left: `RunPendingTasks` takes the tasks.
unfoldable pub take_tasks : Phase → EventLoop → Option EventLoop
take_tasks (handling []) e = some (record e {
  current_active_channel = none;
  pending_tasks = [];
  phase = running e.pending_tasks;
})
take_tasks _ e = none

-- It runs the next, or is done.
unfoldable pub run_task : Phase → EventLoop → Option EventLoop
run_task (running (t ∷ ts)) e = some (record e { ran = e.ran ++ t ∷ []; phase = running ts })
run_task (running []) e = some (next_round e.quit e)
run_task _ e = none
