-- ===== src/Tcp/Connection/Steps.antt =====
-- The operations on a connection in any order: each comes to its end and keeps the invariant.
use claire.Prelude.{
  ℕ, ◌≡◌, ◌≢◌, refl, subst, Bool, List, [], ◌∷◌, Option, some, arith, Option-cases, inl, inr, ◌⊎◌,
  true, Returns, ◌>>=◌,
}
use claire.Tcp.Connection.{
  disconnected, connected, connecting, Connection, Config, WriteResult, ReadResult, new_connection,
  send_buffer, send_string, shutdown, run_pending, connect_established, connect_destroyed, on_read,
  on_write,
}
use claire.Tcp.Connection.Invariant.{
  Inv, new_connection-Inv, send_buffer-Inv, send_string-Inv, shutdown-Inv, run_pending-Inv,
  connect_established-Inv, connect_destroyed-Inv, on_read-Inv, on_write-Inv,
}

-- What the loop, the user and other threads do with a connection.
pub data Op : Type 0 where
  sends_buffer sends_string : Bool → ℕ → List ℕ → WriteResult → Op
  shuts : Bool → Op
  runs_pending : ℕ → WriteResult → Op
  establishes destroys : Op
  becomes_readable : ReadResult → Op
  becomes_writable : List WriteResult → Op

-- `none`: a check failed, or `OnWrite` has not ended.
unfoldable pub step : Config → Op → Connection → Option Connection
step k (sends_buffer l before xs r) c = send_buffer k l before xs r c
step k (sends_string l before xs r) c = some (send_string k l before xs r c)
step k (shuts l) c = some (shutdown l c)
step k (runs_pending before r) c = run_pending k before r c
step k establishes c = connect_established k c
step k destroys c = connect_destroyed k c
step k (becomes_readable r) c = on_read k r c
step k (becomes_writable rs) c = on_write k rs c

unfoldable pub run : Config → List Op → Connection → Option Connection
run k [] c = some c
run k (o ∷ os) c = do c' ← step k o c; run k os c'

-- What the caller has to keep to: the connection is established once, is not read when it is down, and
-- is destroyed once, while it is connected or after it went down, not while it is on its way to either.
abbrev pub Allowed : Op → Connection → Type 0
Allowed establishes c = c.state ≡ connecting
Allowed destroys c = (c.state ≡ connected) ⊎ ((c.state ≡ disconnected) × (c.registered ≡ true))
Allowed (becomes_readable r) c = c.state ≢ disconnected
Allowed _ c = Unit {0}

pub step_total :
    (k : Config) (o : Op) (c : Connection)
    → Allowed o c
    → Inv c
    → ((rs : List WriteResult) → o ≢ becomes_writable rs)
    → Returns (step k o c) Inv
unfolding step
step_total k (sends_buffer l before xs r) c al v nw = send_buffer-Inv k l before xs r c v
step_total k (sends_string l before xs r) c al v nw = send_string-Inv k l before xs r c v
step_total k (shuts l) c al v nw = shutdown-Inv l c v
step_total k (runs_pending before r) c al v nw = run_pending-Inv k before r c.pending c refl v
step_total k establishes c al v nw = connect_established-Inv k c al v
step_total k destroys c al v nw = connect_destroyed-Inv k c al v
step_total k (becomes_readable r) c al v nw = on_read-Inv k r c al v
step_total k (becomes_writable rs) c al v nw = absurd (nw rs refl)

pub step-Inv :
    (k : Config) (o : Op) (c : Connection) {c' : Connection}
    → Allowed o c
    → Inv c
    → step k o c ≡ some c'
    → Inv c'
step-Inv k (becomes_writable rs) c al v e = on_write-Inv k rs c v (unfold step in e)
step-Inv k o c al v e = subst (λ m. Returns m Inv) e (step_total k o c al v (λ rs. cc))

-- The callers keep to the rules all along.
abbrev pub AllAllowed : Config → List Op → Connection → Type 0
AllAllowed k [] c = Unit {0}
AllAllowed k (o ∷ os) c =
    Allowed o c × ((c' : Connection) → step k o c ≡ some c' → AllAllowed k os c')

run-from :
    (k : Config) (os : List Op) (c : Connection) {c' : Connection}
    → AllAllowed k os c
    → Inv c
    → run k os c ≡ some c'
    → Inv c'
unfolding run
run-from k [] c al v e = subst Inv (ground arith) v
run-from k (o ∷ os) c {c'} al v e = elim (Option-cases (step k o c)) [
  | inl gone ↦ absurd (ground arith)
  | inr (d, done) ↦ run-from k os d (al.1 d done) (step-Inv k o c al.0 v done) (ground arith)
]

-- Every connection that operations make of a new one keeps the invariant: those of the loop's thread
-- and those that other threads post, the answers of the system, and the events, in any order in which
-- a connection is established once, is not read when it is down, and is destroyed while it is connected
-- or, once, when it is down.
pub run-Inv :
    (k : Config) (os : List Op) {c : Connection}
    → AllAllowed k os new_connection
    → run k os new_connection ≡ some c
    → Inv c
run-Inv k os al e = run-from k os new_connection al new_connection-Inv e
