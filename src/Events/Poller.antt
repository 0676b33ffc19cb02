-- ===== src/Events/Poller.antt =====
-- common/events/poller/EPollPoller.cc and common/events/Channel.cc, Channel.h: the channels' masks of
-- events, the table of channels by descriptor, and what the kernel is told. `epoll_ctl` enters as the
-- record `Epoll`. A pointer to a channel is its id; a null slot of the table is `none`, and an access out
-- of the table's bounds has no result. The loop's thread is not checked.
pub mod Watched
pub mod Runs
mod Tests
use claire.Prelude.{
  ℕ, zero, suc, ◌+◌, ◌*◌, ◌≡◌, ◌≢◌, Bool, true, false, not, ◌&&◌, ◌||◌, List, [], ◌∷◌, ◌++◌, Option,
  none, some, ◌==◌, leb, ltb, if◌then◌else◌, ◌>>=◌, ◌>>◌, check, length, get_elem?,
}

-- `events_`: made of `kReadEvent` and `kWriteEvent`.
pub record Events : Type 0 where
  pub reading : Bool
  pub writing : Bool

abbrev pub none_event : Events
none_event = record { reading = false; writing = false }

abbrev pub is_none_event : Events → Bool
is_none_event e = not (e.reading || e.writing)

-- `kNew`, `kAdded` and `kDeleted`.
pub data Context : Type 0 where
  new added deleted : Context

pub record Channel : Type 0 where
  pub id : ℕ
  pub fd : ℕ
  pub events : Events
  pub context : Context

pub data Control : Type 0 where
  add modify delete : Control

-- `epoll_ctl` on a descriptor that can be watched: what it does, and what is watched, by its manual.
pub record Epoll (K : Type 0) : Type 0 where
  pub control : Control → ℕ → Events → K → K
  pub watched : ℕ → K → Option Events
  pub add_lem :
      (fd : ℕ) (e : Events) (k : K) → watched fd k ≡ none → watched fd (control add fd e k) ≡ some e
  pub modify_lem :
      (fd : ℕ) (e : Events) (k : K)
      → watched fd k ≢ none
      → watched fd (control modify fd e k) ≡ some e
  pub delete_lem :
      (fd : ℕ) (e : Events) (k : K)
      → watched fd k ≢ none
      → watched fd (control delete fd e k) ≡ none
  pub other_lem :
      (o : Control) (fd other : ℕ) (e : Events) (k : K)
      → other ≢ fd
      → watched other (control o fd e k) ≡ watched other k

pub record Poller (K : Type 0) : Type 0 where
  pub channels : List (Option ℕ)
  pub kernel : K
  pub capacity : ℕ

abbrev pub empty_slots : ℕ → List (Option ℕ)
empty_slots zero = []
empty_slots (suc n) = none ∷ empty_slots n

abbrev pub new_poller : {K : Type 0} → K → Poller K
new_poller k = record { channels = empty_slots 64; kernel = k; capacity = 64 }

-- `channels_[fd] = slot`.
abbrev pub set_slot : ℕ → Option ℕ → List (Option ℕ) → Option (List (Option ℕ))
set_slot fd slot [] = none
set_slot zero slot (x ∷ xs) = some (slot ∷ xs)
set_slot (suc fd) slot (x ∷ xs) = set_slot fd slot xs >>= λ ys. some (x ∷ ys)

-- `channels_[channel->fd()] == channel`.
abbrev pub holds : ℕ → Option (Option ℕ) → Bool
holds id (some (some j)) = j == id
holds id _ = false

module _ {K : Type 0} (k : Epoll K) where
  abbrev pub slot_holds : Channel → Poller K → Bool
  slot_holds c p = holds c.id (get_elem? p.channels c.fd)

  abbrev pub update : Control → Channel → Poller K → Poller K
  update o c p = record p { kernel = k.control o c.fd c.events p.kernel }

  -- `UpdateChannel` of a channel whose slot is there, by its context.
  unfoldable pub update_as : Context → Channel → Poller K → Option (Channel × Poller K)
  update_as new c p = set_slot c.fd (some c.id) p.channels >>= λ slots.
      some (record c { context = added }, update add c (record p { channels = slots }))
  update_as deleted c p =
      check (slot_holds c p) >> some (record c { context = added }, update add c p)
  update_as added c p =
      check (slot_holds c p)
      >> (if is_none_event c.events
          then some (record c { context = deleted }, update delete c p)
          else some (c, update modify c p))

  -- The slots are doubled, once, for a channel that is new.
  unfoldable pub update_beyond : Context → Channel → Poller K → Option (Channel × Poller K)
  update_beyond new c p =
      update_as new c (record p { channels = p.channels ++ empty_slots (length p.channels) })
  update_beyond _ c p = some (c, p)

  unfoldable pub update_channel : Channel → Poller K → Option (Channel × Poller K)
  update_channel c p =
      if leb (length p.channels) c.fd then update_beyond c.context c p else update_as c.context c p

  unfoldable pub remove_as : Context → Channel → Poller K → Option (Channel × Poller K)
  remove_as new c p = none
  remove_as added c p = set_slot c.fd none p.channels >>= λ slots.
      some (record c { context = new }, update delete c (record p { channels = slots }))
  remove_as deleted c p = set_slot c.fd none p.channels >>= λ slots.
      some (record c { context = new }, record p { channels = slots })

  unfoldable pub remove_channel : Channel → Poller K → Option (Channel × Poller K)
  remove_channel c p =
      check (slot_holds c p) >> check (is_none_event c.events) >> remove_as c.context c p

-- `EnableReading` and the others: the new mask, with which the channel updates itself.
pub data Change : Type 0 where
  enable_reading enable_writing disable_reading disable_writing disable_all : Change

unfoldable pub change : Change → Events → Events
change enable_reading e = record e { reading = true }
change enable_writing e = record e { writing = true }
change disable_reading e = record e { reading = false }
change disable_writing e = record e { writing = false }
change disable_all e = none_event

-- The bits that `epoll_wait` answers.
pub record Revents : Type 0 where
  pub pollin : Bool
  pub pollpri : Bool
  pub pollout : Bool
  pub pollrdhup : Bool
  pub pollerr : Bool
  pub pollhup : Bool
  pub pollnval : Bool

-- `poll` with the answer of `epoll_wait`: the active channels with their bits. A descriptor beyond the
-- table is passed over; a null slot would be dereferenced, and a channel that is there is of this
-- descriptor: `fd_of` has the descriptors of the channels.
abbrev pub activate :
    (ℕ → ℕ)
    → ℕ
    → Option (Option ℕ)
    → Revents
    → Option (List (ℕ × Revents))
    → Option (List (ℕ × Revents))
activate fd_of fd none e rest = rest
activate fd_of fd (some none) e rest = none
activate fd_of fd (some (some id)) e rest =
    check (fd_of id == fd) >> rest >>= λ xs. some ((id, e) ∷ xs)

unfoldable pub active_channels :
    (ℕ → ℕ) → List (Option ℕ) → List (ℕ × Revents) → Option (List (ℕ × Revents))
active_channels fd_of slots [] = some []
active_channels fd_of slots ((fd, e) ∷ es) =
    activate fd_of fd (get_elem? slots fd) e (active_channels fd_of slots es)

unfoldable pub poll :
    {K : Type 0} → (ℕ → ℕ) → List (ℕ × Revents) → Poller K → Option (List (ℕ × Revents) × Poller K)
poll fd_of es p = active_channels fd_of p.channels es >>= λ xs.
    some (xs, if p.capacity == length es then record p { capacity = length es * 2 } else p)

-- `OnEvent`: the callbacks that are set, and those that are called, in their order. A tied channel whose
-- owner is gone calls none.
pub data Called : Type 0 where
  closes errors reads writes : Called

pub record Callbacks : Type 0 where
  pub has_close : Bool
  pub has_error : Bool
  pub has_read : Bool
  pub has_write : Bool

abbrev pub call_if : Bool → Called → List Called
call_if true x = x ∷ []
call_if false x = []

unfoldable pub on_event_with_guard : Callbacks → Revents → List Called
on_event_with_guard c r =
    call_if (r.pollhup && not r.pollin && c.has_close) closes
    ++ call_if ((r.pollerr || r.pollnval) && c.has_error) errors
    ++ call_if ((r.pollin || r.pollpri || r.pollrdhup) && c.has_read) reads
    ++ call_if (r.pollout && c.has_write) writes

unfoldable pub on_event : Option Bool → Callbacks → Revents → List Called
on_event none c r = on_event_with_guard c r
on_event (some alive) c r = if alive then on_event_with_guard c r else []
