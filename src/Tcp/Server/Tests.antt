-- ===== src/Tcp/Server/Tests.antt =====
-- Tests of the server, and its theorem at a concrete input.
use claire.Prelude.{ℕ, ◌+◌, ◌≤◌, ◌≡◌, refl, List, [], ◌∷◌, some, Returns, length, keys, count, Once}
use claire.Prelude.Int.{pos, ◌+ℤ◌, ◌-ℤ◌}
use claire.Tcp.Server.{
  LoopPool, new_server, next_loop, new_connection, remove_connection, remove_found,
  remove_connection_in_loop, run_removal,
}
use claire.Tcp.Server.Balance.{Operation, accepts, closes, removes, step, run, run_balanced}

abbrev two_loops : LoopPool
two_loops = record { base_loop = 100; loops = 7 ∷ 8 ∷ []; next = 0 }

-- A third connection is refused, until the first has been removed; a second close of it is none.
abbrev some_connections : List Operation
some_connections = accepts ∷ accepts ∷ accepts ∷ closes 1 ∷ closes 1 ∷ removes ∷ accepts ∷ []

some_connections_test :
    run some_connections (new_server two_loops 2)
    ≡ some (record {
      pool = record { base_loop = 100; loops = 7 ∷ 8 ∷ []; next = 1 };
      next_id = 4;
      connections = (2, 8) ∷ (3, 7) ∷ [];
      total_connections = pos 2;
      max_input_connections = 2;
      removals = [];
      established = (1, 7) ∷ (2, 8) ∷ (3, 7) ∷ [];
      destroyed = (1, 7) ∷ [];
      refused = 1;
    })
unfolding run step new_connection next_loop remove_connection remove_found remove_connection_in_loop
    run_removal ◌+ℤ◌ ◌-ℤ◌
some_connections_test = refl

run_balanced_example : Returns (run some_connections (new_server two_loops 2)) (λ s.
    (s.total_connections ≡ pos (length s.connections))
    × (length s.connections ≤ 2)
    × (s.max_input_connections ≡ 2)
    × Once (keys s.connections)
    × Once (keys s.established)
    × ((n : ℕ)
        → count n (keys s.established) ≡ count n (keys s.connections) + count n (keys s.destroyed)))
run_balanced_example = run_balanced some_connections two_loops 2 refl
