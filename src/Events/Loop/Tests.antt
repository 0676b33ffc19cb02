-- ===== src/Events/Loop/Tests.antt =====
-- Tests of the loop, and its theorem at a concrete input.
use claire.Prelude.{◌≡◌, refl, true, false, List, [], ◌∷◌, ◌++◌, none}
use claire.Events.Loop.{
  EventLoop, polling, post, next_round, start, poll, handle, take_tasks, run_task, on_wakeup,
  wakeup,
}
use claire.Events.Loop.Wakeups.{
  Operation, posts, starts, polls, handles, takes_tasks, runs_task, steps, step, taken, posted_all,
  Awake, steps_lem,
}

-- Another thread posts, the loop wakes up, a channel posts without a write to the eventfd, and the first
-- task posts again while it runs.
abbrev a_round : List Operation
a_round =
    starts
    ∷ posts false 1
    ∷ polls (0 ∷ 5 ∷ [])
    ∷ handles
    ∷ handles
    ∷ posts true 2
    ∷ takes_tasks
    ∷ runs_task
    ∷ posts true 3
    ∷ runs_task
    ∷ runs_task
    ∷ []

abbrev after_round : EventLoop
after_round = record {
  phase = polling;
  current_active_channel = none;
  pending_tasks = 3 ∷ [];
  wakeup_readable = true;
  quit = false;
  ran = 1 ∷ 2 ∷ [];
  ran_at_once = [];
}

steps_lem_example :
    (after_round.ran ++ (taken after_round.phase ++ after_round.pending_tasks) ≡ posted_all a_round)
    × (after_round.phase ≡ polling → Awake after_round.pending_tasks after_round.wakeup_readable)
unfolding steps step start next_round post poll handle on_wakeup wakeup take_tasks run_task
steps_lem_example = steps_lem a_round after_round refl
