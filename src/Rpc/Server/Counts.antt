-- ===== src/Rpc/Server/Counts.antt =====
-- What the server has been asked, what runs, and what it has answered, counted.
use claire.Prelude.{
  ℕ, suc, zero, ◌+◌, ◌≡◌, ap, ◌∙◌, Bool, true, false, ◌&&◌, List, [], ◌∷◌, ◌++◌, Option, none, some,
  ◌==◌, ◌>>=◌, arith, length, Option-cases, inl, inr,
}
use claire.Rpc.Message.{RpcMessage, response_type, ErrorCode}
use claire.Rpc.Controller.{is_success}
use claire.Rpc.Server.{Running, Reply, fails, json, internal_server_error}

-- One of a list, and the others.
unfoldable pub take_at {ℓ} : {A : Type ℓ} → ℕ → List A → Option (A × List A)
take_at n [] = none
take_at zero (x ∷ xs) = some (x, xs)
take_at (suc n) (x ∷ xs) = take_at n xs >>= λ (y, ys). some (y, x ∷ ys)

abbrev pub one : Bool → ℕ
one true = 1
one false = 0

-- Whether a connection and an id are these.
abbrev pub concerns : ℕ → ℕ → ℕ → ℕ → Bool
concerns c i connection id = c == connection && i == id

-- How often a request of a connection and an id has been answered, and how often its method runs.
abbrev pub answers : ℕ → ℕ → List (ℕ × RpcMessage) → ℕ
answers c i [] = 0
answers c i ((a, m) ∷ xs) = one (concerns c i a m.id) + answers c i xs

abbrev pub is_failure : Option ErrorCode → ℕ
is_failure none = 0
is_failure (some e) = 1

abbrev pub failures : List (ℕ × RpcMessage) → ℕ
failures [] = 0
failures ((a, m) ∷ xs) = is_failure m.error + failures xs

-- Whether a reply completes a method that a browser called, and whether as an error.
abbrev pub completes_method : Reply → ℕ
completes_method (fails internal_server_error x) = 1
completes_method (json x) = 1
completes_method _ = 0

abbrev pub is_server_error : Reply → ℕ
is_server_error (fails internal_server_error x) = 1
is_server_error _ = 0

abbrev pub completed : List (ℕ × Reply) → ℕ
completed [] = 0
completed ((a, x) ∷ xs) = completes_method x + completed xs

abbrev pub server_errors : List (ℕ × Reply) → ℕ
server_errors [] = 0
server_errors ((a, x) ∷ xs) = is_server_error x + server_errors xs

abbrev pub OneOf : Option ErrorCode → Option (List ℕ) → Type 0
OneOf none (some xs) = Unit
OneOf (some e) none = is_success e ≡ false
OneOf _ _ = ⊥

-- A response has its bytes or an error that is not the success, never both.
abbrev pub Proper : RpcMessage → Type 0
Proper m = (m.type ≡ response_type) × OneOf m.error m.response

pub answers-append :
    (c i : ℕ) (xs : List (ℕ × RpcMessage)) (a : ℕ) (m : RpcMessage)
    → answers c i (xs ++ (a, m) ∷ []) ≡ answers c i xs + one (concerns c i a m.id)
answers-append c i [] a m = omega arith
answers-append c i ((b, d) ∷ xs) a m = omega (arith, answers-append c i xs a m)

pub failures-append :
    (xs : List (ℕ × RpcMessage)) (a : ℕ) (m : RpcMessage)
    → failures (xs ++ (a, m) ∷ []) ≡ failures xs + is_failure m.error
failures-append [] a m = omega arith
failures-append ((b, d) ∷ xs) a m = omega (arith, failures-append xs a m)

pub completed-append :
    (xs : List (ℕ × Reply)) (a : ℕ) (x : Reply)
    → completed (xs ++ (a, x) ∷ []) ≡ completed xs + completes_method x
completed-append [] a x = omega arith
completed-append ((b, y) ∷ xs) a x = omega (arith, completed-append xs a x)

pub server_errors-append :
    (xs : List (ℕ × Reply)) (a : ℕ) (x : Reply)
    → server_errors (xs ++ (a, x) ∷ []) ≡ server_errors xs + is_server_error x
server_errors-append [] a x = omega arith
server_errors-append ((b, y) ∷ xs) a x = omega (arith, server_errors-append xs a x)

abbrev pub runs : {K M : Type 0} → ℕ → ℕ → List (Running K M) → ℕ
runs c i [] = 0
runs c i (x ∷ xs) = one (concerns c i x.context.connection_id x.context.id) + runs c i xs

module _ {K M : Type 0} where
  pub runs-append :
      (c i : ℕ) (xs : List (Running K M)) (x : Running K M)
      → runs c i (xs ++ x ∷ [])
        ≡ runs c i xs + one (concerns c i x.context.connection_id x.context.id)
  runs-append c i [] x = omega arith
  runs-append c i (y ∷ xs) x = omega (arith, runs-append c i xs x)

  pub runs-take_at :
      (c i n : ℕ) (xs : List (Running K M)) (x : Running K M) (ys : List (Running K M))
      → take_at n xs ≡ some (x, ys)
      → (runs c i xs ≡ one (concerns c i x.context.connection_id x.context.id) + runs c i ys)
        × (length xs ≡ suc (length ys))
  unfolding take_at
  runs-take_at c i n [] x ys e = absurd (cc)
  runs-take_at c i zero (y ∷ xs) x ys e =
      let p : y ≡ x = cc (e) in
      let q : xs ≡ ys = cc (e) in
      (
        ap (λ z. one (concerns c i z.context.connection_id z.context.id) + runs c i xs) p
            ∙ ap (λ zs. one (concerns c i x.context.connection_id x.context.id) + runs c i zs) q,
        ap (λ zs. suc (length zs)) q,
      )
  runs-take_at c i (suc n) (y ∷ xs) x ys e = elim (Option-cases (take_at n xs)) [
    | inl h ↦ absurd (let f : none ≡ some (x, ys) = rw (h) at (e) in cc)
    | inr ((z, zs), h) ↦
        let f : ◌≡◌ {A = Option (Running K M × List (Running K M))} (some (z, y ∷ zs))
            (some (x, ys)) =
          rw (h) at (e) in
        let p : z ≡ x = cc (f) in
        let q : y ∷ zs ≡ ys = cc (f) in
        let (up, long) = runs-take_at c i n xs x zs (h ∙ ap (λ w. some (w, zs)) p) in
        (omega (arith, up, ap (λ ws. runs c i ws) q), omega (arith, long, ap (λ ws. length ws) q))
  ]
