-- ===== src/Events/Poller/Watched.antt =====
-- The kernel watches for each channel what the channel asks for.
use claire.Prelude.{
  ℕ, zero, suc, ◌+◌, ◌≤◌, ◌<◌, ◌≡◌, ◌≢◌, refl, sym, ap, ◌∙◌, subst, true, List, [], ◌∷◌, ◌++◌,
  Option, none, some, leb, ◌>>◌, check, arith, length, length-append, get_elem?, Bool-cases,
  ==_self, inl, inr, Returns, Returns-map, IfReturns, IfReturns->>=,
}
use claire.Events.Poller.{
  Events, is_none_event, Context, new, added, deleted, Channel, Control, add, modify, delete, Epoll,
  Poller, empty_slots, set_slot, slot_holds, update, update_as, update_beyond, update_channel,
  remove_as, remove_channel,
}

pub length-empty_slots : (n : ℕ) → length (empty_slots n) ≡ n
length-empty_slots zero = refl
length-empty_slots (suc n) = ap suc (length-empty_slots n)

pub below :
    (slots : List (Option ℕ)) (fd : ℕ) (v : Option ℕ)
    → get_elem? slots fd ≡ some v
    → fd < length slots
below [] fd v e = absurd (cc)
below (x ∷ xs) zero v e = omega arith
below (x ∷ xs) (suc fd) v e = let h = below xs fd v e in omega (arith, h)

get_elem?-append_left :
    (xs ys : List (Option ℕ)) (j : ℕ) (v : Option ℕ)
    → get_elem? xs j ≡ some v
    → get_elem? (xs ++ ys) j ≡ some v
get_elem?-append_left [] ys j v e = absurd (cc)
get_elem?-append_left (x ∷ xs) ys zero v e = e
get_elem?-append_left (x ∷ xs) ys (suc j) v e = get_elem?-append_left xs ys j v e

-- A slot within the table is set, and no other changes.
set_slot_lem :
    (fd : ℕ) (slot : Option ℕ) (xs : List (Option ℕ))
    → fd < length xs
    → (ys : List (Option ℕ)) × (set_slot fd slot xs ≡ some ys)
      × (get_elem? ys fd ≡ some slot)
      × ((j : ℕ) (v : Option ℕ) → j ≢ fd → get_elem? xs j ≡ some v → get_elem? ys j ≡ some v)
      × (length ys ≡ length xs)
set_slot_lem fd slot [] h = absurd (omega (arith, h))
set_slot_lem zero slot (x ∷ xs) h = (slot ∷ xs, refl, refl, keep, refl)
  where
    keep :
        (j : ℕ) (v : Option ℕ)
        → j ≢ zero
        → get_elem? (x ∷ xs) j ≡ some v
        → get_elem? (slot ∷ xs) j ≡ some v
    keep zero v n e = absurd (n refl)
    keep (suc j) v n e = e
set_slot_lem (suc fd) slot (x ∷ xs) h =
    let (ys, set, got, keep, long) = set_slot_lem fd slot xs (omega (arith, h)) in
    (x ∷ ys, rw (set) refl, got, also ys keep, ap suc long)
  where
    also :
        (ys : List (Option ℕ))
        → ((j : ℕ) (v : Option ℕ) → j ≢ fd → get_elem? xs j ≡ some v → get_elem? ys j ≡ some v)
        → (j : ℕ) (v : Option ℕ) → j ≢ suc fd
        → get_elem? (x ∷ xs) j ≡ some v
        → get_elem? (x ∷ ys) j ≡ some v
    also ys keep zero v n e = e
    also ys keep (suc j) v n e = keep j v (λ q. n (ap suc q)) e

module _ {K : Type 0} (k : Epoll K) where
  -- The table, the kernel and a channel agree.
  abbrev pub MirrorsAs : Context → Channel → Poller K → Type 0
  MirrorsAs new c p = (k.watched c.fd p.kernel ≡ none) × (is_none_event c.events ≡ true)
  MirrorsAs added c p =
      (get_elem? p.channels c.fd ≡ some (some c.id)) × (k.watched c.fd p.kernel ≡ some c.events)
  MirrorsAs deleted c p =
      (get_elem? p.channels c.fd ≡ some (some c.id))
      × (k.watched c.fd p.kernel ≡ none)
      × (is_none_event c.events ≡ true)

  abbrev pub Mirrors : Channel → Poller K → Type 0
  Mirrors c p = MirrorsAs c.context c p

  -- Nothing changes but what is a descriptor's.
  abbrev pub Others : ℕ → Poller K → Poller K → Type 0
  Others fd p p' =
      ((j : ℕ) (v : Option ℕ)
        → j ≢ fd
        → get_elem? p.channels j ≡ some v
        → get_elem? p'.channels j ≡ some v)
      × ((j : ℕ) → j ≢ fd → k.watched j p'.kernel ≡ k.watched j p.kernel)
      × (length p.channels ≤ length p'.channels)

  pub other-Mirrors :
      (fd : ℕ) (p p' : Poller K) (x : Context) (d : Channel)
      → Others fd p p'
      → d.fd ≢ fd
      → MirrorsAs x d p
      → MirrorsAs x d p'
  other-Mirrors fd p p' new d (slots, kernel, long) n (w, e) = (kernel d.fd n ∙ w, e)
  other-Mirrors fd p p' added d (slots, kernel, long) n (s, w) =
      (slots d.fd (some d.id) n s, kernel d.fd n ∙ w)
  other-Mirrors fd p p' deleted d (slots, kernel, long) n (s, w, e) =
      (slots d.fd (some d.id) n s, kernel d.fd n ∙ w, e)

  pub Others-trans :
      (fd : ℕ) (p p1 p2 : Poller K) → Others fd p p1 → Others fd p1 p2 → Others fd p p2
  Others-trans fd p p1 p2 (s, w, n) (s', w', n') =
      ((λ j v h e. s' j v h (s j v h e)), (λ j h. w' j h ∙ w j h), omega (arith, n, n'))

  abbrev pub Updated : Channel → Poller K → Channel × Poller K → Type 0
  Updated c p (c', p') = Mirrors c' p' × (c'.fd ≡ c.fd) × Others c.fd p p'

  slot_holds_lem :
      (c : Channel) (p : Poller K)
      → get_elem? p.channels c.fd ≡ some (some c.id)
      → slot_holds k c p ≡ true
  slot_holds_lem c p e = rw (e) (==_self c.id)

  -- What is left to show where only the kernel is told.
  told : (o : Control) (c : Channel) (p : Poller K) → Others c.fd p (update k o c p)
  told o c p = ((λ j v n e. e), (λ j n. k.other_lem o c.fd j c.events p.kernel n), omega arith)

  some_watched : {e : Events} (fd : ℕ) (x : K) → k.watched fd x ≡ some e → k.watched fd x ≢ none
  some_watched {e} fd x h n = (let q : ◌≡◌ {A = Option Events} (some e) none = sym h ∙ n in cc)

  update_new :
      (c : Channel) (p : Poller K)
      → c.fd < length p.channels
      → k.watched c.fd p.kernel ≡ none
      → Returns (update_as k new c p) (Updated c p)
  unfolding update_as
  update_new c p h w =
      let (slots, set, got, keep, long) = set_slot_lem c.fd (some c.id) p.channels h in
      rw (set, Returns)
        (
          (got, k.add_lem c.fd c.events p.kernel w),
          refl,
          (keep, (λ j n. k.other_lem add c.fd j c.events p.kernel n), omega (arith, long)),
        )

  -- A channel with a new mask updates itself.
  update_as_lem :
      (x : Context) (c : Channel) (e : Events) (p : Poller K)
      → c.context ≡ x
      → c.fd < length p.channels
      → MirrorsAs x c p
      → Returns (update_as k x (record c { events = e }) p) (Updated c p)
  update_as_lem new c e p q h (w, n) = update_new (record c { events = e }) p h w
  update_as_lem deleted c e p q h (s, w, n) =
      unfold update_as in
      rw (slot_holds_lem c p s, Returns)
        ((s, k.add_lem c.fd e p.kernel w), refl, told add (record c { events = e }) p)
  update_as_lem added c e p q h (s, w) =
      unfold update_as in
      elim (Bool-cases (is_none_event e)) [
        | inl n ↦
            rw (slot_holds_lem c p s, n, Returns)
              (
                (s, k.delete_lem c.fd e p.kernel (some_watched c.fd p.kernel w), n),
                refl,
                told delete (record c { events = e }) p,
              )
        | inr n ↦
            rw (slot_holds_lem c p s, n, Returns)
              (
                subst
                    (λ y.
                      MirrorsAs y (record c { events = e })
                        (update k modify (record c { events = e }) p))
                    (sym q) (s, k.modify_lem c.fd e p.kernel (some_watched c.fd p.kernel w)),
                refl,
                told modify (record c { events = e }) p,
              )
      ]

  -- A channel's descriptor is within the table, or will be when the table has doubled.
  abbrev pub Fits : Channel → Poller K → Type 0
  Fits c p = c.fd < length p.channels + length p.channels

  pub update_channel_lem :
      (c : Channel) (e : Events) (p : Poller K)
      → Fits c p
      → Mirrors c p
      → Returns (update_channel k (record c { events = e }) p) (Updated c p)
  unfolding update_channel
  update_channel_lem c e p f m = elim (Bool-cases (leb (length p.channels) c.fd)) [
    | inr b ↦ rw (b) (update_as_lem c.context c e p refl (ground (arith, b)) m)
    | inl b ↦ rw (b) (beyond b c.context refl m)
  ]
    where
      p2 : Poller K
      p2 = record p { channels = p.channels ++ empty_slots (length p.channels) }

      wider : Others c.fd p p2
      wider = (
        (λ j v n q. get_elem?-append_left p.channels (empty_slots (length p.channels)) j v q),
        (λ j n. refl),
        omega (arith, length-append p.channels (empty_slots (length p.channels))),
      )

      beyond :
          leb (length p.channels) c.fd ≡ true
          → (x : Context) → c.context ≡ x
          → MirrorsAs x c p
          → Returns (update_beyond k x (record c { events = e }) p) (Updated c p)
      beyond b new q (w, n) =
          unfold update_beyond in
          Returns-map (Updated (record c { events = e }) p2) (Updated c p)
            (update_as k new (record c { events = e }) p2)
            (update_new (record c { events = e }) p2
              (omega (
                arith,
                f,
                length-append p.channels (empty_slots (length p.channels)),
                length-empty_slots (length p.channels),
              ))
              w)
            (λ (c', p') (m', same, o). (m', same, Others-trans c.fd p p2 p' wider o))
      beyond b added q (s, w) =
          absurd (let h = below p.channels c.fd (some c.id) s in ground (arith, b, h))
      beyond b deleted q (s, w, n) =
          absurd (let h = below p.channels c.fd (some c.id) s in ground (arith, b, h))

  pub remove_channel_lem :
      (c : Channel) (p : Poller K)
      → c.context ≢ new
      → is_none_event c.events ≡ true
      → Mirrors c p
      → Returns (remove_channel k c p) (Updated c p)
  unfolding remove_channel
  remove_channel_lem c p notnew n m = go c.context refl m
    where
      go :
          (x : Context)
          → c.context ≡ x
          → MirrorsAs x c p
          → Returns
              (check (slot_holds k c p) >> check (is_none_event c.events) >> remove_as k x c p)
              (Updated c p)
      go new q m = absurd (notnew q)
      go added q (s, w) =
          let (slots, set, got, keep, long) =
            set_slot_lem c.fd none p.channels (below p.channels c.fd (some c.id) s) in
          rw (slot_holds_lem c p s, n)
            (unfold remove_as in
              rw (set, Returns)
                (
                  (k.delete_lem c.fd c.events p.kernel (some_watched c.fd p.kernel w), n),
                  refl,
                  (
                    keep,
                    (λ j d. k.other_lem delete c.fd j c.events p.kernel d),
                    omega (arith, long),
                  ),
                ))
      go deleted q (s, w, e) =
          let (slots, set, got, keep, long) =
            set_slot_lem c.fd none p.channels (below p.channels c.fd (some c.id) s) in
          rw (slot_holds_lem c p s, n)
            (unfold remove_as in
              rw (set, Returns) ((w, n), refl, (keep, (λ j d. refl), omega (arith, long))))

  -- After an update a channel is not new, and has the mask it was updated with.
  abbrev pub Settled : Events → Channel × Poller K → Type 0
  Settled e (c', p') = (c'.context ≢ new) × (c'.events ≡ e)

  any_slots : (o : Option (List (Option ℕ))) → IfReturns o (λ slots. Unit {0})
  any_slots none = tt
  any_slots (some slots) = tt

  update_as-Settled :
      (x : Context) (c : Channel) (e : Events) (p : Poller K)
      → c.context ≡ x
      → IfReturns (update_as k x (record c { events = e }) p) (Settled e)
  unfolding update_as
  update_as-Settled new c e p q =
      IfReturns->>= (λ slots. Unit {0}) (Settled e) (set_slot c.fd (some c.id) p.channels)
        (λ slots. some (
          record c { events = e; context = added },
          update k add (record c { events = e }) (record p { channels = slots }),
        ))
        (any_slots (set_slot c.fd (some c.id) p.channels)) (λ slots u. ((λ h. cc), refl))
  update_as-Settled deleted c e p q = elim (Bool-cases (slot_holds k c p)) [
    | inl h ↦ rw (h, IfReturns) ((λ h. cc), refl)
    | inr h ↦ rw (h, IfReturns) tt
  ]
  update_as-Settled added c e p q = elim (Bool-cases (slot_holds k c p)) [
    | inl h ↦ elim (Bool-cases (is_none_event e)) [
      | inl n ↦ rw (h, n, IfReturns) ((λ h. cc), refl)
      | inr n ↦ rw (h, n, IfReturns) ((λ h. (let f : added ≡ new = sym q ∙ h in cc)), refl)
    ]
    | inr h ↦ rw (h, IfReturns) tt
  ]

  pub update_channel-Settled :
      (c : Channel) (e : Events) (p : Poller K)
      → IfReturns (update_channel k (record c { events = e }) p) (Settled e)
  unfolding update_channel
  update_channel-Settled c e p = elim (Bool-cases (leb (length p.channels) c.fd)) [
    | inr b ↦ rw (b) (update_as-Settled c.context c e p refl)
    | inl b ↦ rw (b) (go c.context refl)
  ]
    where
      go :
          (x : Context)
          → c.context ≡ x
          → IfReturns (update_beyond k x (record c { events = e }) p) (Settled e)
      go new q =
          unfold update_beyond in
          update_as-Settled new c e
            (record p { channels = p.channels ++ empty_slots (length p.channels) }) q
      go added q = unfold update_beyond in ((λ h. (let f : added ≡ new = sym q ∙ h in cc)), refl)
      go deleted q =
          unfold update_beyond in ((λ h. (let f : deleted ≡ new = sym q ∙ h in cc)), refl)
