-- ===== src/Events/Poller/Runs.antt =====
-- Any sequence of updates and removals of channels, and a descriptor beyond the table.
use claire.Prelude.{
  ℕ, zero, suc, ◌+◌, ◌≤◌, ◌<◌, ◌≡◌, ◌≢◌, refl, sym, ap, ◌∙◌, subst, true, false, List, [], ◌∷◌,
  ◌++◌, Option, none, some, leb, ◌>>=◌, arith, length, length-append, has, All, inl, inr, ◌⊎◌,
  Returns, Returns->>=, Returns-map, Returns-both,
}
use claire.Events.Poller.{
  none_event, is_none_event, Context, new, added, deleted, Channel, Epoll, Poller, new_poller,
  empty_slots, set_slot, update_as, update_beyond, update_channel, remove_channel, Change,
  disable_all, change,
}
use claire.Events.Poller.Watched.{
  length-empty_slots, MirrorsAs, Mirrors, Others, other-Mirrors, Others-trans, Updated, Fits,
  update_channel_lem, remove_channel_lem, Settled, update_channel-Settled,
}

module _ {K : Type 0} (k : Epoll K) where
  -- What is done to a channel: its mask changes, or all is disabled and it is removed.
  pub data Operation : Type 0 where
    changes : ℕ → Change → Operation
    removes : ℕ → Operation

  unfoldable pub change_channel : Change → Channel → Poller K → Option (Channel × Poller K)
  change_channel x c p = update_channel k (record c { events = change x c.events }) p

  unfoldable pub disable_and_remove : Channel → Poller K → Option (Channel × Poller K)
  disable_and_remove c p = change_channel disable_all c p >>= λ (c', p'). remove_channel k c' p'

  -- It is done to a channel of a list.
  unfoldable pub at :
      ℕ
      → (Channel → Poller K → Option (Channel × Poller K))
      → List Channel
      → Poller K
      → Option (List Channel × Poller K)
  at i f [] p = some ([], p)
  at zero f (c ∷ cs) p = f c p >>= λ (c', p'). some (c' ∷ cs, p')
  at (suc i) f (c ∷ cs) p = at i f cs p >>= λ (cs', p'). some (c ∷ cs', p')

  unfoldable pub step : Operation → List Channel → Poller K → Option (List Channel × Poller K)
  step (changes i x) cs p = at i (change_channel x) cs p
  step (removes i) cs p = at i disable_and_remove cs p

  unfoldable pub run : List Operation → List Channel → Poller K → Option (List Channel × Poller K)
  run [] cs p = some (cs, p)
  run (o ∷ os) cs p = step o cs p >>= λ (cs', p'). run os cs' p'

  abbrev pub fds : List Channel → List ℕ
  fds [] = []
  fds (c ∷ cs) = c.fd ∷ fds cs

  change_channel_lem :
      (x : Change) (c : Channel) (p : Poller K)
      → Fits k c p
      → Mirrors k c p
      → Returns (change_channel x c p) (Updated k c p)
  unfolding change_channel
  change_channel_lem x c p f m = update_channel_lem k c (change x c.events) p f m

  disable_and_remove_lem :
      (c : Channel) (p : Poller K)
      → Fits k c p
      → Mirrors k c p
      → Returns (disable_and_remove c p) (Updated k c p)
  unfolding disable_and_remove change
  disable_and_remove_lem c p f m =
      Returns->>= (λ o. Updated k c p o × Settled k none_event o) (Updated k c p)
        (change_channel disable_all c p) (λ (c', p'). remove_channel k c' p')
        (Returns-both (Updated k c p) (Settled k none_event) (change_channel disable_all c p)
          (change_channel_lem disable_all c p f m)
          (unfold change_channel in update_channel-Settled k c none_event p))
        (λ (c', p') (u, (kept, none_left)).
          let (m', same, o) = u in
          Returns-map (Updated k c' p') (Updated k c p) (remove_channel k c' p')
            (remove_channel_lem k c' p' kept (ap is_none_event none_left) m')
            (λ (c2, p2) (m2, same2, o2). (
              m2,
              same2 ∙ same,
              Others-trans k c.fd p p' p2 o (subst (λ fd. Others k fd p' p2) same o2),
            )))

  -- Wherever each is done to one channel of a list, every channel goes on agreeing.
  abbrev pub Apart : List ℕ → Type 0
  Apart [] = Unit
  Apart (x ∷ xs) = (has x xs ≡ false) × Apart xs

  -- All agree, and fit a table that has that many slots.
  abbrev pub Agree : List Channel → Poller K → Type 0
  Agree cs p =
      All (λ c. Mirrors k c p) cs
      × All (λ c. c.fd < 128) cs
      × Apart (fds cs)
      × (64 ≤ length p.channels)

  abbrev pub Kept : List Channel → Poller K → List Channel × Poller K → Type 0
  Kept cs p (cs', p') =
      Agree cs' p'
      × (fds cs' ≡ fds cs)
      × ((d : Channel) → has d.fd (fds cs) ≡ false → Mirrors k d p → Mirrors k d p')

  not_there : (d x : ℕ) (xs : List ℕ) → has d (x ∷ xs) ≡ false → (d ≢ x) × (has d xs ≡ false)
  not_there d x xs h = ((λ e. ground (arith, h, e)), ground (arith, h))

  Others-agree :
      (fd : ℕ) (p p' : Poller K) (cs : List Channel)
      → Others k fd p p'
      → has fd (fds cs) ≡ false
      → All (λ c. Mirrors k c p) cs
      → All (λ c. Mirrors k c p') cs
  Others-agree fd p p' [] o h all = tt
  Others-agree fd p p' (c ∷ cs) o h (m, all) =
      let (apart, rest) = not_there fd c.fd (fds cs) h in
      (
        other-Mirrors k fd p p' c.context c o (λ e. apart (sym e)) m,
        Others-agree fd p p' cs o rest all,
      )

  at-Agree :
      (i : ℕ) (f : Channel → Poller K → Option (Channel × Poller K)) (cs : List Channel)
      (p : Poller K)
      → ((c : Channel) (p : Poller K)
          → Fits k c p
          → Mirrors k c p
          → Returns (f c p) (Updated k c p))
      → Agree cs p
      → Returns (at i f cs p) (Kept cs p)
  unfolding at
  at-Agree i f [] p h v = (v, refl, (λ d n m. m))
  at-Agree zero f (c ∷ cs) p h ((m, all), (small, smalls), (apart, aparts), wide) =
      Returns->>= (Updated k c p) (Kept (c ∷ cs) p) (f c p) (λ (c', p'). some (c' ∷ cs, p'))
        (h c p (omega (arith, small, wide)) m)
        (λ (c', p') (m', same, o). (
          (
            (m', Others-agree c.fd p p' cs o apart all),
            (subst (λ x. x < 128) (sym same) small, smalls),
            (subst (λ x. has x (fds cs) ≡ false) (sym same) apart, aparts),
            omega (arith, wide, o.2),
          ),
          ap (λ x. x ∷ fds cs) same,
          (λ d n. other-Mirrors k c.fd p p' d.context d o (not_there d.fd c.fd (fds cs) n).0),
        ))
  at-Agree (suc i) f (c ∷ cs) p h ((m, all), (small, smalls), (apart, aparts), wide) =
      Returns->>= (Kept cs p) (Kept (c ∷ cs) p) (at i f cs p) (λ (cs', p'). some (c ∷ cs', p'))
        (at-Agree i f cs p h (all, smalls, aparts, wide))
        (λ (cs', p') (agree, same, others). (
          (
            (others c apart m, agree.0),
            (small, agree.1),
            (subst (λ xs. has c.fd xs ≡ false) (sym same) apart, agree.2),
            agree.3,
          ),
          ap (λ xs. c.fd ∷ xs) same,
          (λ d n. others d (not_there d.fd c.fd (fds cs) n).1),
        ))

  run-Agree :
      (os : List Operation) (cs : List Channel) (p : Poller K)
      → Agree cs p
      → Returns (run os cs p) (λ (cs', p'). Agree cs' p' × (fds cs' ≡ fds cs))
  unfolding run step
  run-Agree [] cs p v = (v, refl)
  run-Agree (o ∷ os) cs p v =
      Returns->>= (Kept cs p) (λ (cs', p'). Agree cs' p' × (fds cs' ≡ fds cs)) (step o cs p)
        (λ (cs', p'). run os cs' p') (once o)
        (λ (cs1, p1) (agree, same, others).
          Returns-map (λ (cs', p'). Agree cs' p' × (fds cs' ≡ fds cs1))
            (λ (cs', p'). Agree cs' p' × (fds cs' ≡ fds cs)) (run os cs1 p1)
            (run-Agree os cs1 p1 agree) (λ (cs2, p2) (agree2, same2). (agree2, same2 ∙ same)))
    where
      once : (o : Operation) → Returns (step o cs p) (Kept cs p)
      once (changes i x) = at-Agree i (change_channel x) cs p (change_channel_lem x) v
      once (removes i) = at-Agree i disable_and_remove cs p disable_and_remove_lem v

  -- What is watched of a channel is what it asks for; of one that asks for nothing, nothing may be.
  abbrev pub IsWatched : Poller K → Channel → Type 0
  IsWatched p c =
      (k.watched c.fd p.kernel ≡ some c.events)
      ⊎ ((k.watched c.fd p.kernel ≡ none) × (is_none_event c.events ≡ true))

  IsWatched-of : (x : Context) (c : Channel) (p : Poller K) → MirrorsAs k x c p → IsWatched p c
  IsWatched-of new c p (w, n) = inr (w, n)
  IsWatched-of added c p (s, w) = inl w
  IsWatched-of deleted c p (s, w, n) = inr (w, n)

  All-IsWatched :
      (cs : List Channel) (p : Poller K) → All (λ c. Mirrors k c p) cs → All (IsWatched p) cs
  All-IsWatched [] p v = tt
  All-IsWatched (c ∷ cs) p (m, v) = (IsWatched-of c.context c p m, All-IsWatched cs p v)

  abbrev pub IsNew : K → Channel → Type 0
  IsNew x c = (c.context ≡ new) × (c.events ≡ none_event) × (k.watched c.fd x ≡ none)

  start-Agree :
      (cs : List Channel) (x : K) → All (IsNew x) cs → All (λ c. Mirrors k c (new_poller x)) cs
  start-Agree [] x v = tt
  start-Agree (c ∷ cs) x ((e, n, w), v) = (
    subst (λ y. MirrorsAs k y c (new_poller x)) (sym e) (w, ap is_none_event n),
    start-Agree cs x v,
  )

  -- New channels with different descriptors below 128, on a new poller: whatever changes of their masks
  -- and removals are made, in any order, no check fails, no access is out of the table's bounds, and the
  -- kernel watches each channel for exactly the events that its mask asks for. For a channel that asks
  -- for none, it may watch nothing.
  pub run-IsWatched :
      (os : List Operation) (cs : List Channel) (x : K)
      → All (IsNew x) cs
      → All (λ c. c.fd < 128) cs
      → Apart (fds cs)
      → Returns
          (run os cs (new_poller x))
          (λ (cs', p'). All (IsWatched p') cs' × (fds cs' ≡ fds cs))
  run-IsWatched os cs x fresh small apart =
      Returns-map (λ (cs', p'). Agree cs' p' × (fds cs' ≡ fds cs))
        (λ (cs', p'). All (IsWatched p') cs' × (fds cs' ≡ fds cs)) (run os cs (new_poller x))
        (run-Agree os cs (new_poller x)
          (start-Agree cs x fresh, small, apart, omega (arith, length-empty_slots 64)))
        (λ (cs', p') (agree, same). (All-IsWatched cs' p' agree.0, same))

  set_slot_beyond :
      (fd : ℕ) (slot : Option ℕ) (xs : List (Option ℕ))
      → length xs ≤ fd
      → set_slot fd slot xs ≡ none
  set_slot_beyond fd slot [] h = refl
  set_slot_beyond zero slot (x ∷ xs) h = absurd (omega (arith, h))
  set_slot_beyond (suc fd) slot (x ∷ xs) h = rw (set_slot_beyond fd slot xs (omega (arith, h))) refl

  -- A new channel whose descriptor is at least twice the table's slots: the table is doubled once, and
  -- the channel is written beyond its end.
  pub update_channel_beyond :
      (c : Channel) (p : Poller K)
      → c.context ≡ new
      → length p.channels + length p.channels ≤ c.fd
      → update_channel k c p ≡ none
  unfolding update_channel update_beyond update_as
  update_channel_beyond c p e h =
      let b : leb (length p.channels) c.fd ≡ true = ground (arith, h) in
      let far : length (p.channels ++ empty_slots (length p.channels)) ≤ c.fd = omega (
        arith,
        h,
        length-append p.channels (empty_slots (length p.channels)),
        length-empty_slots (length p.channels),
      ) in
      rw
        (b, e, set_slot_beyond c.fd (some c.id) (p.channels ++ empty_slots (length p.channels)) far)
        refl
