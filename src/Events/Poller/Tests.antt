-- ===== src/Events/Poller/Tests.antt =====
-- Tests of the poller, and its theorems at concrete inputs. The kernel is a function from descriptors.
use claire.Prelude.{
  ℕ, ◌≡◌, ◌≢◌, refl, arith, true, false, List, [], ◌∷◌, Option, none, some, ◌==◌, ==_self, ==_iff,
  Bool-cases, inl, inr, if◌then◌else◌, All, Returns,
}
use claire.Events.Poller.{
  Events, none_event, new, Channel, Control, add, modify, delete, Epoll, new_poller, update_channel,
  enable_reading, enable_writing, disable_all, on_event, on_event_with_guard, closes, errors,
}
use claire.Events.Poller.Runs.{
  Operation, changes, removes, run, fds, IsWatched, run-IsWatched, update_channel_beyond,
}

abbrev Kernel : Type 0
Kernel = ℕ → Option Events

abbrev asked : Control → Events → Option Events
asked delete e = none
asked _ e = some e

abbrev control : Control → ℕ → Events → Kernel → Kernel
control o fd e k j = if j == fd then asked o e else k j

control_same : (o : Control) (fd : ℕ) (e : Events) (k : Kernel) → control o fd e k fd ≡ asked o e
control_same o fd e k = rw (==_self fd) refl

control_other :
    (o : Control) (fd other : ℕ) (e : Events) (k : Kernel)
    → other ≢ fd
    → control o fd e k other ≡ k other
control_other o fd other e k n = elim (Bool-cases (other == fd)) [
  | inl h ↦ absurd (n ((==_iff other fd).0 h))
  | inr h ↦ rw (h) refl
]

abbrev kernel : Epoll Kernel
kernel = record {
  control = control;
  watched = λ fd k. k fd;
  add_lem = λ fd e k n. control_same add fd e k;
  modify_lem = λ fd e k n. control_same modify fd e k;
  delete_lem = λ fd e k n. control_same delete fd e k;
  other_lem = control_other;
}

abbrev nothing : Kernel
nothing fd = none

abbrev a_channel : ℕ → ℕ → Channel
a_channel id fd = record { id = id; fd = fd; events = none_event; context = new }

-- The second channel's descriptor is beyond the first 64 slots.
abbrev two_channels : List Channel
two_channels = a_channel 1 5 ∷ a_channel 2 100 ∷ []

abbrev some_changes : List (Operation kernel)
some_changes =
    changes 0 enable_reading
    ∷ changes 1 enable_writing
    ∷ changes 0 enable_writing
    ∷ removes 1
    ∷ changes 0 disable_all
    ∷ changes 0 enable_reading
    ∷ []

run-IsWatched_example :
    Returns
      (run kernel some_changes two_channels (new_poller nothing))
      (λ (cs', p'). All (IsWatched kernel p') cs' × (fds kernel cs' ≡ fds kernel two_channels))
run-IsWatched_example =
    run-IsWatched kernel some_changes two_channels nothing
      ((refl, refl, refl), ((refl, refl, refl), tt)) (omega arith, (omega arith, tt))
      (refl, (refl, tt))

update_channel_beyond_example : update_channel kernel (a_channel 3 128) (new_poller nothing) ≡ none
update_channel_beyond_example =
    update_channel_beyond kernel (a_channel 3 128) (new_poller nothing) refl (omega arith)

-- A hangup without data closes; an error calls the error callback behind it.
hang_up_test :
    on_event none
      (record { has_close = true; has_error = true; has_read = true; has_write = true })
      (record {
        pollin = false;
        pollpri = false;
        pollout = false;
        pollrdhup = false;
        pollerr = true;
        pollhup = true;
        pollnval = false;
      })
    ≡ closes ∷ errors ∷ []
unfolding on_event on_event_with_guard
hang_up_test = refl
