-- ===== src/LoadBalancer/Tests.antt =====
-- Tests of the load balancers, and a theorem at concrete inputs.
use claire.Prelude.{◌≡◌, refl, inl, [], ◌∷◌, some, ◌>>=◌, length}
use claire.LoadBalancer.RoundRobin.{
  RoundRobin, remove, release_backend, next_backend, backend_at, turns, Whole, turns_lem,
}

abbrev three_backends : RoundRobin
three_backends = record { backends = 7 ∷ 8 ∷ 9 ∷ []; current = 0 }

-- The second backend is released after two calls: the next call starts over, and the third waits
-- for its next turn.
release_test :
    (turns 2 three_backends >>= λ (given, b). turns 2 (release_backend 8 b))
    ≡ some (7 ∷ 9 ∷ [], record { backends = 7 ∷ 9 ∷ []; current = 2 })
unfolding turns next_backend backend_at release_backend remove
release_test = refl

turns_lem_example :
    Whole three_backends.backends (turns (length three_backends.backends) three_backends)
turns_lem_example = turns_lem three_backends (inl refl)
