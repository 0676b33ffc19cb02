-- ===== src/LoadBalancer.antt =====
-- netty/loadbalancer: what a load balancer promises, and the two that there are. An address is a
-- number; the weight of a backend, and the results of requests, are read by neither.
pub mod RoundRobin
pub mod Random
mod Tests
use claire.Prelude.{
  ℕ, ◌≡◌, ◌≢◌, Bool, true, false, not, ◌&&◌, ◌||◌, List, [], Option, none, some, ◌==◌, has,
}

-- `LoadBalancer`: its operations, and what its clients rely on. `next_backend` has no result where it
-- fails a check or reads out of bounds.
pub record LoadBalancer (B : Type 0) : Type 1 where
  pub add_backend : ℕ → B → B
  pub release_backend : ℕ → B → B
  pub next_backend : B → Option (ℕ × B)
  pub backends : B → List ℕ
  pub IsValid : B → Type 0
  pub add_valid : (a : ℕ) (b : B) → IsValid b → IsValid (add_backend a b)
  pub add_has :
      (a x : ℕ) (b : B)
      → IsValid b
      → has x (backends (add_backend a b)) ≡ (a == x || has x (backends b))
  pub release_valid : (a : ℕ) (b : B) → IsValid b → IsValid (release_backend a b)
  pub release_has :
      (a x : ℕ) (b : B)
      → IsValid b
      → has x (backends (release_backend a b)) ≡ (not (a == x) && has x (backends b))
  pub next_lem :
      (b : B) (a : ℕ) (b' : B)
      → IsValid b
      → next_backend b ≡ some (a, b')
      → (has a (backends b) ≡ true) × (backends b' ≡ backends b) × IsValid b'
  pub next_there : (b : B) → IsValid b → backends b ≢ [] → next_backend b ≢ none
