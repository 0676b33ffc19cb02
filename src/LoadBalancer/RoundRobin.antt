-- ===== src/LoadBalancer/RoundRobin.antt =====
-- netty/loadbalancer/RoundRobinLoadBalancer.h.
use claire.Prelude.{
  ℕ, suc, zero, ◌+◌, ◌<◌, ◌≡◌, ◌≢◌, refl, sym, ap, ◌∙◌, subst, true, false, not, ◌&&◌, ◌||◌, List,
  [], ◌∷◌, ◌++◌, Option, none, some, leb, ◌==◌, if◌then◌else◌, ◌>>=◌, ◌>>◌, check, length,
  get_elem?, has, has-append, is_nil, arith, Bool-cases, Option-cases, Returns, append_assoc,
  length-append, ◌⊎◌, le→leb, inl, inr, ==_iff,
}
use claire.LoadBalancer.{LoadBalancer}

pub record RoundRobin : Type 0 where
  pub backends : List ℕ
  pub current : ℕ

abbrev pub new_round_robin : RoundRobin
new_round_robin = record { backends = []; current = 0 }

unfoldable pub add_backend : ℕ → RoundRobin → RoundRobin
add_backend a b = if has a b.backends then b else record b { backends = b.backends ++ a ∷ [] }

-- `erase(remove(…))`.
unfoldable pub remove : ℕ → List ℕ → List ℕ
remove a [] = []
remove a (x ∷ xs) = let rest = remove a xs in if x == a then rest else x ∷ rest

unfoldable pub release_backend : ℕ → RoundRobin → RoundRobin
release_backend a b = record b { backends = remove a b.backends }

-- The place to hand out, and the backend at a place.
abbrev pub place : RoundRobin → ℕ
place b = if leb (length b.backends) b.current then 0 else b.current

unfoldable pub backend_at : ℕ → RoundRobin → Option (ℕ × RoundRobin)
backend_at i b = get_elem? b.backends i >>= λ a. some (a, record b { current = suc i })

unfoldable pub next_backend : RoundRobin → Option (ℕ × RoundRobin)
next_backend b = check (not (is_nil b.backends)) >> backend_at (place b) b

has-remove : (a x : ℕ) (xs : List ℕ) → has x (remove a xs) ≡ (not (a == x) && has x xs)
unfolding remove
has-remove a x [] = ground arith
has-remove a x (y ∷ ys) = elim (Bool-cases (y == a)) [
  | inl e ↦ rw (e) (ground (arith, e, has-remove a x ys))
  | inr e ↦ rw (e) (ground (arith, e, has-remove a x ys))
]

pub release_has :
    (a x : ℕ) (b : RoundRobin)
    → has x (release_backend a b).backends ≡ (not (a == x) && has x b.backends)
unfolding release_backend
release_has a x b = has-remove a x b.backends

pub has-get_elem? : (xs : List ℕ) (i a : ℕ) → get_elem? xs i ≡ some a → has a xs ≡ true
has-get_elem? [] i a e = absurd (cc)
has-get_elem? (x ∷ xs) zero a e = ground arith
has-get_elem? (x ∷ xs) (suc i) a e = ground (arith, has-get_elem? xs i a e)

pub get_elem?_there : (xs : List ℕ) (i : ℕ) → i < length xs → get_elem? xs i ≢ none
get_elem?_there [] i h e = ground arith
get_elem?_there (x ∷ xs) zero h e = cc
get_elem?_there (x ∷ xs) (suc i) h e = get_elem?_there xs i (ground arith) e

pub add_has :
    (a x : ℕ) (b : RoundRobin) → has x (add_backend a b).backends ≡ (a == x || has x b.backends)
unfolding add_backend
add_has a x b = elim (Bool-cases (has a b.backends)) [
  | inl e ↦ rw (e) (elim (Bool-cases (a == x)) [
    | inl q ↦
        let p : a ≡ x = (==_iff a x).0 q in
        let h : has x b.backends ≡ true = subst (λ t. has t b.backends ≡ true) p e in rw (q, h) refl
    | inr q ↦ rw (q) refl
  ])
  | inr e ↦ rw (e, has-append x b.backends (a ∷ [])) (ground arith)
]

backend_at_lem :
    (i : ℕ) (b : RoundRobin) (a : ℕ) (b' : RoundRobin)
    → backend_at i b ≡ some (a, b')
    → (get_elem? b.backends i ≡ some a) × (b' ≡ record b { current = suc i })
unfolding backend_at
backend_at_lem i b a b' e = elim (Option-cases (get_elem? b.backends i)) [
  | inl n ↦ absurd (let f : none ≡ some (a, b') = rw (n) at (e) in cc)
  | inr (x, h) ↦
      let f : ◌≡◌ {A = Option (ℕ × RoundRobin)} (some (x, record b { current = suc i }))
          (some (a, b')) =
        rw (h) at (e) in
      let p : x ≡ a = cc (f) in
      let q : record b { current = suc i } ≡ b' = cc (f) in (h ∙ ap some p, sym q)
]

pub next_lem :
    (b : RoundRobin) (a : ℕ) (b' : RoundRobin)
    → next_backend b ≡ some (a, b')
    → (get_elem? b.backends (place b) ≡ some a) × (b' ≡ record b { current = suc (place b) })
unfolding next_backend
next_lem b a b' e = elim (Bool-cases (is_nil b.backends)) [
  | inl n ↦ absurd (let f : none ≡ some (a, b') = rw (n) at (e) in cc)
  | inr n ↦ backend_at_lem (place b) b a b' (rw (n) at (e))
]

pub next_there : (b : RoundRobin) → b.backends ≢ [] → next_backend b ≢ none
unfolding next_backend backend_at
next_there b h e =
    let nil = filled b.backends h in
    let small : place b < length b.backends = ground (arith, nil.1) in
    elim (Option-cases (get_elem? b.backends (place b))) [
      | inl n ↦ get_elem?_there b.backends (place b) small n
      | inr (x, g) ↦
          let f : ◌≡◌ {A = Option (ℕ × RoundRobin)} (some (x, record b { current = suc (place b) }))
              none =
            rw (nil.0, g) at (e) in
          cc
    ]
  where
    filled : (xs : List ℕ) → xs ≢ [] → (is_nil xs ≡ false) × (0 < length xs)
    filled [] h = absurd (h refl)
    filled (x ∷ xs) h = (refl, ground arith)

abbrev pub IsAny : RoundRobin → Type 0
IsAny b = Unit {0}

pub next_law :
    (b : RoundRobin) (a : ℕ) (b' : RoundRobin)
    → IsAny b
    → next_backend b ≡ some (a, b')
    → (has a b.backends ≡ true) × (b'.backends ≡ b.backends) × Unit {0}
next_law b a b' v e =
    let (at_place, same) = next_lem b a b' e in
    (has-get_elem? b.backends (place b) a at_place, ap (λ t. t.backends) same, tt)

unfoldable pub round_robin : LoadBalancer RoundRobin
round_robin = record {
  add_backend = add_backend;
  release_backend = release_backend;
  next_backend = next_backend;
  backends = λ b. b.backends;
  IsValid = IsAny;
  add_valid = λ a b v. tt;
  add_has = λ a x b v. add_has a x b;
  release_valid = λ a b v. tt;
  release_has = λ a x b v. release_has a x b;
  next_lem = next_law;
  next_there = λ b v h. next_there b h;
}

-- So many calls one after the other: the backends that they hand out.
unfoldable pub turns : ℕ → RoundRobin → Option (List ℕ × RoundRobin)
turns zero b = some ([], b)
turns (suc n) b = next_backend b >>= λ (a, b'). turns n b' >>= λ (given, b''). some (a ∷ given, b'')

get_elem?_at :
    (before rest : List ℕ) (x : ℕ) → get_elem? (before ++ x ∷ rest) (length before) ≡ some x
get_elem?_at [] rest x = refl
get_elem?_at (y ∷ before) rest x = get_elem?_at before rest x

next_at :
    (before rest : List ℕ) (x i : ℕ)
    → i ≡ length before
    → next_backend (record { backends = before ++ x ∷ rest; current = i })
      ≡ some (x, record { backends = before ++ x ∷ rest; current = suc i })
unfolding next_backend backend_at
next_at before rest x i e =
    let some_left : is_nil (before ++ x ∷ rest) ≡ false = filled before in
    let low : leb (length (before ++ x ∷ rest)) i ≡ false =
      ground (arith, e, length-append before (x ∷ rest)) in
    let hit : get_elem? (before ++ x ∷ rest) i ≡ some x =
      ap (λ j. get_elem? (before ++ x ∷ rest) j) e ∙ get_elem?_at before rest x in
    rw (some_left, low, hit) refl
  where
    filled : (before : List ℕ) → is_nil (before ++ x ∷ rest) ≡ false
    filled [] = refl
    filled (y ∷ ys) = refl

turns_from :
    (before rest : List ℕ) (i : ℕ)
    → i ≡ length before
    → turns (length rest) (record { backends = before ++ rest; current = i })
      ≡ some (rest, record { backends = before ++ rest; current = i + length rest })
unfolding turns
turns_from before [] i e = let q : i + 0 ≡ i = omega arith in rw (q) refl
turns_from before (x ∷ rest) i e =
    let q : i + suc (length rest) ≡ suc i + length rest = omega arith in
    let ih =
      turns_from (before ++ x ∷ []) rest (suc i)
        (omega (arith, e, length-append before (x ∷ []))) in
    let later =
      subst
        (λ t.
          turns (length rest) (record { backends = t; current = suc i })
          ≡ some (rest, record { backends = t; current = suc i + length rest }))
        (append_assoc before (x ∷ []) rest) ih in
    rw (q, next_at before rest x i e, later) refl

abbrev pub Whole : List ℕ → Option (List ℕ × RoundRobin) → Type 0
Whole xs r = Returns r (λ (given, b'). (given ≡ xs) × (b'.backends ≡ xs) × (b'.current ≡ length xs))

from_first : (xs : List ℕ) → Whole xs (turns (length xs) (record { backends = xs; current = 0 }))
from_first xs =
    let q : 0 + length xs ≡ length xs = omega arith in rw (turns_from [] xs 0 refl) (refl, refl, q)

at_end :
    (x : ℕ) (xs : List ℕ)
    → next_backend (record { backends = x ∷ xs; current = suc (length xs) })
      ≡ some (x, record { backends = x ∷ xs; current = 1 })
unfolding next_backend backend_at
at_end x xs = rw (le→leb (suc (length xs)) (suc (length xs)) (omega arith)) refl

next_wraps :
    (x : ℕ) (xs : List ℕ)
    → next_backend (record { backends = x ∷ xs; current = suc (length xs) })
      ≡ next_backend (record { backends = x ∷ xs; current = 0 })
next_wraps x xs = at_end x xs ∙ sym (next_at [] xs x 0 refl)

from_end :
    (xs : List ℕ) → Whole xs (turns (length xs) (record { backends = xs; current = length xs }))
unfolding turns
from_end [] = (refl, refl, refl)
from_end (x ∷ xs) =
    subst
      (λ r.
        Whole (x ∷ xs)
          (r >>= λ (a, b'). turns (length xs) b' >>= λ (given, b''). some (a ∷ given, b'')))
      (sym (next_wraps x xs)) (from_first (x ∷ xs))

-- Where no backend is added or released, as many calls as there are backends hand out each of them once,
-- in their order, from the first on: of a new balancer, and of one that has just handed out the last.
pub turns_lem :
    (b : RoundRobin)
    → (b.current ≡ 0) ⊎ (b.current ≡ length b.backends)
    → Whole b.backends (turns (length b.backends) b)
turns_lem b h = elim h [
  | inl e ↦
      subst
        (λ c.
          Whole b.backends
            (turns (length b.backends) (record { backends = b.backends; current = c })))
        (sym e) (from_first b.backends)
  | inr e ↦
      subst
        (λ c.
          Whole b.backends
            (turns (length b.backends) (record { backends = b.backends; current = c })))
        (sym e) (from_end b.backends)
]
