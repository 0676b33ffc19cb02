-- ===== src/Tcp/Server/Balance.antt =====
-- The count of connections, their bound, and that each connection is destroyed once.
use claire.Prelude.{
  ℕ, zero, suc, ◌+◌, ◌≤◌, ◌<◌, ◌≡◌, refl, sym, ap, ◌∙◌, subst, true, false, not, ◌&&◌, ◌||◌, List,
  [], ◌∷◌, ◌++◌, Option, some, ◌==◌, leb, if◌then◌else◌, ◌>>=◌, arith, length, length-append,
  get_elem?, is_nil, has, has-append, has-find, find, keys, keys-append, erase_key,
  erase_key_absent, erase_key-Once, All-keys-erase_key, has-erase_key, assign, Once,
  Once-append_new, count, count-append, All, All-append, Bool-cases, inl, inr, ◌⊎◌, ==_self, ==_iff,
  Returns, Returns->>=, Returns-map,
}
use claire.Prelude.Int.{ℤ, pos, ◌+ℤ◌, ◌-ℤ◌, ltb_ℤ, int_laws}
use claire.Tcp.Server.{
  LoopPool, next_loop, TcpServer, new_server, connect_in, new_connection, remove_connection,
  remove_found, remove_connection_in_loop, run_removal,
}

-- Each id below the next one.
absent : (n : ℕ) (xs : List ℕ) → All (λ k. k < n) xs → has n xs ≡ false
absent n [] v = refl
absent n (x ∷ xs) (h, v) = ground (arith, h, absent n xs v)

below_suc : (n : ℕ) (xs : List ℕ) → All (λ k. k < n) xs → All (λ k. k < suc n) xs
below_suc n [] v = tt
below_suc n (x ∷ xs) (h, v) = (omega (arith, h), below_suc n xs v)

-- Taking out what is there once.
erase_key_lem :
    (id loop : ℕ) (m : List (ℕ × ℕ))
    → Once (keys m)
    → find id m ≡ some loop
    → (length m ≡ suc (length (erase_key id m)))
      × ((n : ℕ) → count n (keys m) ≡ count n (id ∷ []) + count n (keys (erase_key id m)))
erase_key_lem id loop [] o e = absurd (cc)
erase_key_lem id loop ((j, l) ∷ m) (new, o) e = elim (Bool-cases (j == id)) [
  | inl b ↦
      let q : j ≡ id = (==_iff j id).0 b in
      let gone : erase_key id m ≡ m =
        erase_key_absent id m (subst (λ x. has x (keys m) ≡ false) q new) in
      rw (b, gone)
        (refl, (λ n. ap (λ x. count n (x ∷ keys m)) q ∙ count-append n (id ∷ []) (keys m)))
  | inr b ↦
      let (long, counts) = erase_key_lem id loop m o (rw (b) at (e)) in
      rw (b) (ap suc long, (λ n. omega (arith, counts n)))
]

abbrev pub ValidPool : LoopPool → Type 0
ValidPool p = (is_nil p.loops ≡ true) ⊎ (p.next < length p.loops)

get_elem?_there : (xs : List ℕ) (i : ℕ) → i < length xs → (x : ℕ) × (get_elem? xs i ≡ some x)
get_elem?_there [] i h = absurd (omega (arith, h))
get_elem?_there (x ∷ xs) zero h = (x, refl)
get_elem?_there (x ∷ xs) (suc i) h = get_elem?_there xs i (omega (arith, h))

-- The pool always has a loop.
next_loop_lem : (p : LoopPool) → ValidPool p → Returns (next_loop p) (λ (loop, p'). ValidPool p')
unfolding next_loop
next_loop_lem p v = elim (Bool-cases (is_nil p.loops)) [
  | inl n ↦ rw (n, Returns) (inl n)
  | inr n ↦
      let small : p.next < length p.loops = elim v [
        | inl m ↦ absurd (let q : true ≡ false = sym m ∙ n in cc)
        | inr s ↦ s
      ] in
      let (x, e) = get_elem?_there p.loops p.next small in
      rw (n, e, Returns) (inr (wrapped (Bool-cases (leb (length p.loops) (suc p.next))) small))
]
  where
    wrapped :
        (leb (length p.loops) (suc p.next) ≡ true) ⊎ (leb (length p.loops) (suc p.next) ≡ false)
        → p.next < length p.loops
        → (if leb (length p.loops) (suc p.next) then 0 else suc p.next) < length p.loops
    wrapped (inl b) s = rw (b) (omega (arith, s))
    wrapped (inr b) s = rw (b) (ground (arith, b))

-- No id below the next one was given twice, and the maximum is the one that was given.
abbrev pub NamedOnce : ℕ → TcpServer → Type 0
NamedOnce max s =
    Once (keys s.established)
    × All (λ k. k < s.next_id) (keys s.established)
    × (s.max_input_connections ≡ max)

-- The removals that wait are of different connections that are there.
abbrev pub Inv : ℕ → TcpServer → Type 0
Inv max s =
    (s.total_connections ≡ pos (length s.connections))
    × (length s.connections ≤ s.max_input_connections)
    × Once (keys s.connections)
    × All (λ k. k < s.next_id) (keys s.connections)
    × (Once s.removals × ((x : ℕ) → has x s.removals ≡ true → has x (keys s.connections) ≡ true))
    × ValidPool s.pool
    × ((n : ℕ)
        → count n (keys s.established) ≡ count n (keys s.connections) + count n (keys s.destroyed))
    × NamedOnce max s

up : (n : ℕ) → pos n +ℤ pos 1 ≡ pos (suc n)
up n = omega int_laws

down : (n : ℕ) → pos (suc n) -ℤ pos 1 ≡ pos n
down n = omega int_laws

under : (t : ℤ) (n max : ℕ) → t ≡ pos n → ltb_ℤ t (pos max) ≡ true → n < max
under t n max e h =
    let h2 : ltb_ℤ (pos n) (pos max) ≡ true = subst (λ z. ltb_ℤ z (pos max) ≡ true) e h in
    ground (arith, h2)

connect_in-Inv :
    (max loop : ℕ) (p : LoopPool) (s : TcpServer)
    → ltb_ℤ s.total_connections (pos s.max_input_connections) ≡ true
    → ValidPool p
    → Inv max s
    → Inv max (connect_in (loop, p) s)
connect_in-Inv max loop p s room vp
      (total, bound, once, below, (distinct, there), pool, balance, named) =
    let new = absent s.next_id (keys s.connections) below in
    let same : erase_key s.next_id s.connections ≡ s.connections =
      erase_key_absent s.next_id s.connections new in
    let ks : keys (assign s.next_id loop s.connections) ≡ keys s.connections ++ s.next_id ∷ [] =
      ap (λ m. keys (m ++ (s.next_id, loop) ∷ [])) same
      ∙ keys-append s.connections ((s.next_id, loop) ∷ []) in
    let long : length (assign s.next_id loop s.connections) ≡ suc (length s.connections) =
      ap (λ m. length (m ++ (s.next_id, loop) ∷ [])) same
      ∙ length-append s.connections ((s.next_id, loop) ∷ [])
      ∙ omega arith in
    let left =
      under s.total_connections (length s.connections) s.max_input_connections total room in
    (
      ap (λ z. z +ℤ pos 1) total ∙ up (length s.connections) ∙ ap pos (sym long),
      omega (arith, long, left),
      subst Once (sym ks) (Once-append_new s.next_id (keys s.connections) new once),
      subst (All (λ k. k < suc s.next_id)) (sym ks) (
          All-append (λ k. k < suc s.next_id) (keys s.connections) (s.next_id ∷ [])
            (below_suc s.next_id (keys s.connections) below) (omega arith, tt)),
      (
        distinct,
        (λ x h.
            ap (has x) ks
            ∙ has-append x (keys s.connections) (s.next_id ∷ [])
            ∙ ground (arith, there x h)),
      ),
      vp,
      (λ n.
          let e : keys (s.established ++ (s.next_id, loop) ∷ [])
              ≡ keys s.established ++ s.next_id ∷ [] =
            keys-append s.established ((s.next_id, loop) ∷ []) in
          omega (
            arith,
            ap (count n) e,
            ap (count n) ks,
            balance n,
            count-append n (keys s.established) (s.next_id ∷ []),
            count-append n (keys s.connections) (s.next_id ∷ []),
          )),
      given_once named,
    )
  where
    given_once : NamedOnce max s → NamedOnce max (connect_in (loop, p) s)
    given_once (names, low, same) =
        let e : keys (s.established ++ (s.next_id, loop) ∷ [])
            ≡ keys s.established ++ s.next_id ∷ [] =
          keys-append s.established ((s.next_id, loop) ∷ []) in
        (
          subst Once (sym e) (
              Once-append_new s.next_id (keys s.established)
                (absent s.next_id (keys s.established) low) names),
          subst (All (λ k. k < suc s.next_id)) (sym e) (
              All-append (λ k. k < suc s.next_id) (keys s.established) (s.next_id ∷ [])
                (below_suc s.next_id (keys s.established) low) (omega arith, tt)),
          same,
        )

new_connection-Inv : (max : ℕ) (s : TcpServer) → Inv max s → Returns (new_connection s) (Inv max)
unfolding new_connection
new_connection-Inv max s v =
    elim (Bool-cases (ltb_ℤ s.total_connections (pos s.max_input_connections))) [
      | inl b ↦ rw (b) (
          Returns->>= (λ (loop, p'). ValidPool p') (Inv max) (next_loop s.pool)
            (λ r. some (connect_in r s)) (next_loop_lem s.pool v.5)
            (λ (loop, p') vp. connect_in-Inv max loop p' s b vp v))
      | inr b ↦ rw (b, Returns) v
    ]

-- The first of the removals is of a connection that is there.
removed-Inv :
    (max id loop : ℕ) (ids : List ℕ) (s : TcpServer)
    → s.removals ≡ id ∷ ids
    → find id s.connections ≡ some loop
    → Inv max s
    → Inv max (remove_found (some loop) id (record s { removals = ids }))
unfolding remove_found
removed-Inv max id loop ids s e f
      (total, bound, once, below, (distinct, there), pool, balance, named) =
    let (long, counts) = erase_key_lem id loop s.connections once f in
    let (new, distinct') : Once (id ∷ ids) = subst Once e distinct in
    (
      ap (λ z. z -ℤ pos 1) (total ∙ ap pos long) ∙ down (length (erase_key id s.connections)),
      omega (arith, long, bound),
      erase_key-Once id s.connections once,
      All-keys-erase_key (λ k. k < s.next_id) id s.connections below,
      (
        distinct',
        (λ x h.
            let was : has x (id ∷ ids) ≡ true = ground (arith, h) in
            let kept : has x (keys s.connections) ≡ true = there x (ap (has x) e ∙ was) in
            let other : (x == id) ≡ false = differs x h new in
            has-erase_key x id s.connections ∙ ground (arith, kept, other)),
      ),
      pool,
      (λ n.
          let d : keys (s.destroyed ++ (id, loop) ∷ []) ≡ keys s.destroyed ++ id ∷ [] =
            keys-append s.destroyed ((id, loop) ∷ []) in
          omega (
            arith,
            balance n,
            counts n,
            ap (count n) d,
            count-append n (keys s.destroyed) (id ∷ []),
          )),
      named,
    )
  where
    differs : (x : ℕ) → has x ids ≡ true → has id ids ≡ false → (x == id) ≡ false
    differs x h new = elim (Bool-cases (x == id)) [
      | inl b ↦ absurd (
          let q : true ≡ false = sym (subst (λ z. has z ids ≡ true) ((==_iff x id).0 b) h) ∙ new in
          cc)
      | inr b ↦ b
    ]

run_removal-Inv :
    (max : ℕ) (ids : List ℕ) (s : TcpServer)
    → s.removals ≡ ids
    → Inv max s
    → Inv max (run_removal ids s)
unfolding run_removal remove_connection_in_loop
run_removal-Inv max [] s e v = v
run_removal-Inv max (id ∷ ids) s e v =
    let there : has id (keys s.connections) ≡ true =
      v.4.1 id (ap (has id) e ∙ rw (==_self id) refl) in
    let (loop, f) = has-find id s.connections there in rw (f) (removed-Inv max id loop ids s e f v)

-- What happens to the server: a socket is accepted, a connection closes, unless it is not there or has
-- closed before, and the loop runs a removal.
pub data Operation : Type 0 where
  accepts : Operation
  closes : ℕ → Operation
  removes : Operation

unfoldable pub step : Operation → TcpServer → Option TcpServer
step accepts s = new_connection s
step (closes id) s =
    some
      (if has id (keys s.connections) && not (has id s.removals) then remove_connection id s else s)
step removes s = some (run_removal s.removals s)

unfoldable pub run : List Operation → TcpServer → Option TcpServer
run [] s = some s
run (o ∷ os) s = step o s >>= λ s'. run os s'

closes-Inv :
    (max id : ℕ) (s : TcpServer)
    → Inv max s
    → Inv max (
        if has id (keys s.connections) && not (has id s.removals)
        then remove_connection id s
        else s)
unfolding remove_connection
closes-Inv max id s v = elim (Bool-cases (has id (keys s.connections) && not (has id s.removals))) [
  | inl b ↦
      let there : has id (keys s.connections) ≡ true = ground (arith, b) in
      let fresh : has id s.removals ≡ false = ground (arith, b) in
      rw (b) (
        v.0,
        v.1,
        v.2,
        v.3,
        (
          Once-append_new id s.removals fresh v.4.0,
          (λ x h. elim (Bool-cases (has x s.removals)) [
            | inl old ↦ v.4.1 x old
            | inr n ↦
                let q : has x s.removals || (id == x || false) ≡ true =
                  sym (has-append x s.removals (id ∷ [])) ∙ h in
                let p : (id == x) ≡ true = ground (arith, q, n) in
                subst (λ z. has z (keys s.connections) ≡ true) ((==_iff id x).0 p) there
          ]),
        ),
        v.5,
        v.6,
        v.7,
      )
  | inr b ↦ rw (b) v
]

run-Inv : (max : ℕ) (os : List Operation) (s : TcpServer) → Inv max s → Returns (run os s) (Inv max)
unfolding run step
run-Inv max [] s v = v
run-Inv max (accepts ∷ os) s v =
    Returns->>= (Inv max) (Inv max) (new_connection s) (λ s'. run os s')
      (new_connection-Inv max s v) (λ s1 v1. run-Inv max os s1 v1)
run-Inv max (closes id ∷ os) s v =
    run-Inv max os
      (if has id (keys s.connections) && not (has id s.removals) then remove_connection id s else s)
      (closes-Inv max id s v)
run-Inv max (removes ∷ os) s v =
    run-Inv max os (run_removal s.removals s) (run_removal-Inv max s.removals s refl v)

-- A new server, on a pool that has just started, after any accepted sockets, connections that close and
-- removals, in any order: no access is out of bounds. The count of connections is that of the table and
-- never above the maximum, which stays as it was given; the table has each id once; no id was given to
-- two of all the connections that were ever established; and of each id, as many connections were
-- established as are in the table and were destroyed.
pub run_balanced :
    (os : List Operation) (pool : LoopPool) (max : ℕ)
    → pool.next ≡ 0
    → Returns (run os (new_server pool max)) (λ s.
      (s.total_connections ≡ pos (length s.connections))
      × (length s.connections ≤ max)
      × (s.max_input_connections ≡ max)
      × Once (keys s.connections)
      × Once (keys s.established)
      × ((n : ℕ)
          → count n (keys s.established)
            ≡ count n (keys s.connections) + count n (keys s.destroyed)))
run_balanced os pool max e =
    Returns-map (Inv max)
      (λ s.
        (s.total_connections ≡ pos (length s.connections))
        × (length s.connections ≤ max)
        × (s.max_input_connections ≡ max)
        × Once (keys s.connections)
        × Once (keys s.established)
        × ((n : ℕ)
            → count n (keys s.established)
              ≡ count n (keys s.connections) + count n (keys s.destroyed)))
      (run os (new_server pool max))
      (run-Inv max os (new_server pool max) (
        refl,
        omega arith,
        tt,
        tt,
        (tt, (λ x h. h)),
        fresh pool.loops refl,
        (λ n. refl),
        (tt, tt, refl),
      ))
      (λ s v. (v.0, omega (arith, v.1, v.7.2), v.7.2, v.2, v.7.0, v.6))
  where
    fresh : (xs : List ℕ) → pool.loops ≡ xs → ValidPool pool
    fresh [] q = inl (ap is_nil q)
    fresh (x ∷ xs) q = inr (omega (arith, e, ap length q))
