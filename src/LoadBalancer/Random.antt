-- ===== src/LoadBalancer/Random.antt =====
-- netty/loadbalancer/RandomLoadBalancer.h. The generator is a parameter: its next number in a range,
-- and its next state.
use claire.Prelude.{
  ℕ, ◌-◌, ◌≤◌, ◌<◌, ◌≡◌, ◌≢◌, refl, sym, ap, ◌∙◌, subst, true, false, not, ◌&&◌, ◌||◌, List, [],
  ◌∷◌, Option, none, some, leb, ◌==◌, if◌then◌else◌, ◌>>=◌, length, get_elem?, has, Once, arith,
  Bool-cases, Option-cases, inl, inr, ==_iff,
}
use claire.LoadBalancer.{LoadBalancer}
use claire.LoadBalancer.RoundRobin.{has-get_elem?, get_elem?_there}

pub record RandomBackends : Type 0 where
  pub backends : List ℕ
  pub generator : ℕ

-- `std::sort` of a sorted list with a new last element.
unfoldable pub insert_sorted : ℕ → List ℕ → List ℕ
insert_sorted a [] = a ∷ []
insert_sorted a (x ∷ xs) = let rest = insert_sorted a xs in if leb x a then x ∷ rest else a ∷ x ∷ xs

unfoldable pub add_backend : ℕ → RandomBackends → RandomBackends
add_backend a b = if has a b.backends then b else record b { backends = insert_sorted a b.backends }

-- `std::find` and `erase`: the first alone.
unfoldable pub remove_first : ℕ → List ℕ → List ℕ
remove_first a [] = []
remove_first a (x ∷ xs) = let rest = remove_first a xs in if x == a then xs else x ∷ rest

unfoldable pub release_backend : ℕ → RandomBackends → RandomBackends
release_backend a b = record b { backends = remove_first a b.backends }

has-insert_sorted : (a x : ℕ) (xs : List ℕ) → has x (insert_sorted a xs) ≡ (a == x || has x xs)
unfolding insert_sorted
has-insert_sorted a x [] = refl
has-insert_sorted a x (y ∷ ys) = elim (Bool-cases (leb y a)) [
  | inl e ↦ rw (e) (ground (arith, has-insert_sorted a x ys))
  | inr e ↦ rw (e) refl
]

insert_sorted-Once : (a : ℕ) (xs : List ℕ) → has a xs ≡ false → Once xs → Once (insert_sorted a xs)
unfolding insert_sorted
insert_sorted-Once a [] new o = (refl, tt)
insert_sorted-Once a (y ∷ ys) new (first, o) = elim (Bool-cases (leb y a)) [
  | inl e ↦ rw (e) (
    has-insert_sorted a y ys ∙ ground (arith, new, first),
    insert_sorted-Once a ys (ground (arith, new)) o,
  )
  | inr e ↦ rw (e) (new, (first, o))
]

has-remove_first :
    (a x : ℕ) (xs : List ℕ) → Once xs → has x (remove_first a xs) ≡ (not (a == x) && has x xs)
unfolding remove_first
has-remove_first a x [] o = ground arith
has-remove_first a x (y ∷ ys) (first, o) = elim (Bool-cases (y == a)) [
  | inl e ↦ rw (e) (elim (Bool-cases (a == x)) [
    | inl q ↦
        let p : y ≡ x = (==_iff y a).0 e ∙ (==_iff a x).0 q in
        let h : has x ys ≡ false = subst (λ t. has t ys ≡ false) p first in rw (h, q) refl
    | inr q ↦ let r : (y == x) ≡ false = ground (arith, e, q) in rw (q, r) refl
  ])
  | inr e ↦ rw (e) (ground (arith, e, has-remove_first a x ys o))
]

remove_first-Once : (a : ℕ) (xs : List ℕ) → Once xs → Once (remove_first a xs)
unfolding remove_first
remove_first-Once a [] o = tt
remove_first-Once a (y ∷ ys) (first, o) = elim (Bool-cases (y == a)) [
  | inl e ↦ rw (e) o
  | inr e ↦ rw (e) (has-remove_first a y ys o ∙ ground (arith, first), remove_first-Once a ys o)
]

-- `uniform_int_distribution(0, n)` and the state that it leaves.
pub record Generator : Type 0 where
  pub pick : ℕ → ℕ → ℕ
  pub pick_le : (g n : ℕ) → pick g n ≤ n
  pub advance : ℕ → ℕ

module _ (r : Generator) where
  -- On no backend the index that is picked is out of bounds.
  unfoldable pub next_backend : RandomBackends → Option (ℕ × RandomBackends)
  next_backend b = get_elem? b.backends (r.pick b.generator (length b.backends - 1)) >>= λ a.
      some (a, record b { generator = r.advance b.generator })

  abbrev pub OnceEach : RandomBackends → Type 0
  OnceEach b = Once b.backends

  pub add_valid : (a : ℕ) (b : RandomBackends) → OnceEach b → OnceEach (add_backend a b)
  unfolding add_backend
  add_valid a b o = elim (Bool-cases (has a b.backends)) [
    | inl e ↦ rw (e) o
    | inr e ↦ rw (e) (insert_sorted-Once a b.backends e o)
  ]

  pub add_has :
      (a x : ℕ) (b : RandomBackends)
      → OnceEach b
      → has x (add_backend a b).backends ≡ (a == x || has x b.backends)
  unfolding add_backend
  add_has a x b o = elim (Bool-cases (has a b.backends)) [
    | inl e ↦ rw (e) (elim (Bool-cases (a == x)) [
      | inl q ↦
          let p : a ≡ x = (==_iff a x).0 q in
          let h : has x b.backends ≡ true = subst (λ t. has t b.backends ≡ true) p e in
          rw (q, h) refl
      | inr q ↦ rw (q) refl
    ])
    | inr e ↦ rw (e) (has-insert_sorted a x b.backends)
  ]

  pub release_valid : (a : ℕ) (b : RandomBackends) → OnceEach b → OnceEach (release_backend a b)
  unfolding release_backend
  release_valid a b o = remove_first-Once a b.backends o

  pub release_has :
      (a x : ℕ) (b : RandomBackends)
      → OnceEach b
      → has x (release_backend a b).backends ≡ (not (a == x) && has x b.backends)
  unfolding release_backend
  release_has a x b o = has-remove_first a x b.backends o

  pub next_law :
      (b : RandomBackends) (a : ℕ) (b' : RandomBackends)
      → OnceEach b
      → next_backend b ≡ some (a, b')
      → (has a b.backends ≡ true) × (b'.backends ≡ b.backends) × OnceEach b'
  unfolding next_backend
  next_law b a b' o e =
      elim (Option-cases (get_elem? b.backends (r.pick b.generator (length b.backends - 1)))) [
        | inl n ↦ absurd (let f : none ≡ some (a, b') = rw (n) at (e) in cc)
        | inr (x, h) ↦
            let f : ◌≡◌ {A = Option (ℕ × RandomBackends)}
                (some (x, record b { generator = r.advance b.generator })) (some (a, b')) =
              rw (h) at (e) in
            let p : x ≡ a = cc in
            let q : record b { generator = r.advance b.generator } ≡ b' = cc in
            (
              has-get_elem? b.backends (r.pick b.generator (length b.backends - 1)) a
                  (h ∙ ap some p),
              sym (ap (λ t. t.backends) q),
              subst OnceEach q o,
            )
      ]

  pub next_there : (b : RandomBackends) → OnceEach b → b.backends ≢ [] → next_backend b ≢ none
  unfolding next_backend
  next_there b o h e =
      elim (Option-cases (get_elem? b.backends (r.pick b.generator (length b.backends - 1)))) [
        | inl n ↦
            get_elem?_there b.backends (r.pick b.generator (length b.backends - 1))
              (ground (arith, filled b.backends h, r.pick_le b.generator (length b.backends - 1))) n
        | inr (x, g) ↦
            let f : ◌≡◌ {A = Option (ℕ × RandomBackends)}
                (some (x, record b { generator = r.advance b.generator })) none =
              rw (g) at (e) in
            cc
      ]
    where
      filled : (xs : List ℕ) → xs ≢ [] → 0 < length xs
      filled [] h = absurd (h refl)
      filled (x ∷ xs) h = ground arith

  unfoldable pub random_backends : LoadBalancer RandomBackends
  random_backends = record {
    add_backend = add_backend;
    release_backend = release_backend;
    next_backend = next_backend;
    backends = λ b. b.backends;
    IsValid = OnceEach;
    add_valid = add_valid;
    add_has = add_has;
    release_valid = release_valid;
    release_has = release_has;
    next_lem = next_law;
    next_there = next_there;
  }
