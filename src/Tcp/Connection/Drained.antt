-- ===== src/Tcp/Connection/Drained.antt =====
-- When the write side is closed: the operations that do it, and what waits then.
use claire.Prelude.{
  ℕ, ◌≡◌, ◌≢◌, refl, ◌∙◌, subst, true, false, List, [], ◌∷◌, Option, none, some, arith, Bool-cases,
  Option-cases, inl, inr, ◌⊎◌,
}
use claire.Tcp.Connection.{
  ConnState, disconnected, disconnecting, connecting, connected, Connection, Config, WriteResult,
  wrote, would_block, broken, write_failed, got, end_of_stream, read_failed, Task, send_task,
  shutdown_task, is_disconnected, attempt, queue_rest, send_in_loop, send_buffer_in_loop,
  send_buffer, send_string, shutdown, shutdown_in_loop, run_pending, connect_established,
  connect_destroyed, on_close, on_read, flush, written, on_write,
}
use claire.Tcp.Connection.Invariant.{Inv}
use claire.Tcp.Connection.Steps.{
  Op, sends_buffer, sends_string, shuts, runs_pending, establishes, destroys, becomes_readable,
  becomes_writable, step,
}

nothing_waits :
    (bs : List (List ℕ)) (s : ConnState)
    → (s ≢ disconnected → bs ≢ [] → ⊥)
    → (bs ≡ []) ⊎ (s ≡ disconnected)
nothing_waits [] s h = inl refl
nothing_waits (b ∷ bs) disconnected h = inr refl
nothing_waits (b ∷ bs) disconnecting h = absurd (h (cc) (cc))
nothing_waits (b ∷ bs) connecting h = absurd (h (cc) (cc))
nothing_waits (b ∷ bs) connected h = absurd (h (cc) (cc))

-- Where the channel does not write, nothing waits, unless the connection is down.
drained : (c : Connection) → Inv c → c.writing ≡ false → (c.output ≡ []) ⊎ (c.state ≡ disconnected)
drained c v idle = nothing_waits c.output c.state (λ up ne. cc (v.watched up ne))

module _ (k : Config) where
  attempt-shut :
      (before : ℕ) (xs : List ℕ) (r : WriteResult) (c : Connection)
      → (attempt k before xs r c).1.write_shut ≡ c.write_shut
  unfolding attempt
  attempt-shut before xs (wrote n) c = ground arith
  attempt-shut before xs would_block c = ground arith
  attempt-shut before xs broken c = ground arith
  attempt-shut before xs write_failed c = ground arith

  queue_rest-shut :
      (o : Option (List ℕ)) (c : Connection) → (queue_rest k o c).write_shut ≡ c.write_shut
  unfolding queue_rest
  queue_rest-shut none c = refl
  queue_rest-shut (some []) c = refl
  queue_rest-shut (some (y ∷ ys)) c = ground arith

  send_in_loop-shut :
      (before : ℕ) (xs : List ℕ) (r : WriteResult) (c : Connection)
      → (send_in_loop k before xs r c).write_shut ≡ c.write_shut
  unfolding send_in_loop
  send_in_loop-shut before xs r c =
      let t = attempt k before xs r c in
      elim (Bool-cases (is_disconnected c.state)) [
        | inl down ↦ rw down refl
        | inr up ↦ rw up (queue_rest-shut t.0 t.1 ∙ attempt-shut before xs r c)
      ]

  send_buffer_in_loop-shut :
      (before : ℕ) (xs : List ℕ) (r : WriteResult) (c : Connection) {c' : Connection}
      → send_buffer_in_loop k before xs r c ≡ some c'
      → c'.write_shut ≡ c.write_shut
  unfolding send_buffer_in_loop
  send_buffer_in_loop-shut before xs r c {c'} e = ground (arith, send_in_loop-shut before xs r c)

  run_pending-drained :
      (before : ℕ) (r : WriteResult) (ts : List Task) (c : Connection) {c' : Connection}
      → c.pending ≡ ts
      → Inv c
      → run_pending k before r c ≡ some c'
      → c.write_shut ≡ false
      → c'.write_shut ≡ true
      → (c'.output ≡ []) ⊎ (c'.state ≡ disconnected)
  unfolding run_pending
  run_pending-drained before r [] c {c'} q v e closed shut = absurd (ground arith)
  run_pending-drained before r (send_task xs ∷ ts) c {c'} q v e closed shut =
      absurd
        (ground (arith, send_buffer_in_loop-shut before xs r (record c { pending = ts }) {c' = c'}))
  run_pending-drained before r (shutdown_task ∷ ts) c {c'} q v e closed shut =
      unfold shutdown_in_loop in ground (arith, drained c v)

  written-drained :
      (out : List (List ℕ)) (sent : List ℕ) (c : Connection)
      → c.write_shut ≡ false
      → (written k (record c { output = out; sent = sent })).write_shut ≡ true
      → (written k (record c { output = out; sent = sent })).output ≡ []
  unfolding written shutdown_in_loop
  written-drained [] sent c closed shut = ground arith
  written-drained (b ∷ bs) sent c closed shut = absurd (ground arith)

  on_write-drained :
      (rs : List WriteResult) (c : Connection) {c' : Connection}
      → on_write k rs c ≡ some c'
      → c.write_shut ≡ false
      → c'.write_shut ≡ true
      → c'.output ≡ []
  unfolding on_write
  on_write-drained rs c {c'} e closed shut = elim (Bool-cases c.writing) [
    | inr idle ↦ absurd (ground arith)
    | inl busy ↦ elim (Option-cases (flush rs c.output c.sent)) [
      | inl waits ↦ absurd (ground arith)
      | inr ((out, sent), done) ↦
          let e' : written k (record c { output = out; sent = sent }) ≡ c' = ground arith in
          subst (λ d. d.write_shut ≡ true → d.output ≡ []) e' (written-drained out sent c closed)
            shut
    ]
  ]

-- The write side is closed only with nothing waiting, or on a connection that is down: `Shutdown`
-- lets the bytes that wait go first.
pub shutdown_drained :
    (k : Config) (o : Op) (c : Connection) {c' : Connection}
    → Inv c
    → step k o c ≡ some c'
    → c.write_shut ≡ false
    → c'.write_shut ≡ true
    → (c'.output ≡ []) ⊎ (c'.state ≡ disconnected)
shutdown_drained k (shuts l) c {c'} v e closed shut =
    unfold step shutdown in ground (arith, drained c v)
shutdown_drained k (becomes_writable rs) c {c'} v e closed shut =
    inl (on_write-drained k rs c {c' = c'} (unfold step in e) closed shut)
shutdown_drained k (runs_pending before r) c {c'} v e closed shut =
    run_pending-drained k before r c.pending c {c' = c'} refl v (unfold step in e) closed shut
shutdown_drained k (sends_buffer l before xs r) c {c'} v e closed shut =
    absurd (
      unfold step send_buffer in ground (arith, send_buffer_in_loop-shut k before xs r c {c' = c'}))
shutdown_drained k (sends_string l before xs r) c {c'} v e closed shut =
    absurd (unfold step send_string in ground (arith, send_in_loop-shut k before xs r c))
shutdown_drained k establishes c {c'} v e closed shut =
    absurd (unfold step connect_established in ground arith)
shutdown_drained k destroys c {c'} v e closed shut =
    absurd (unfold step connect_destroyed in ground arith)
shutdown_drained k (becomes_readable (got x xs)) c {c'} v e closed shut =
    absurd (unfold step on_read in ground arith)
shutdown_drained k (becomes_readable end_of_stream) c {c'} v e closed shut =
    absurd (unfold step on_read on_close in ground arith)
shutdown_drained k (becomes_readable read_failed) c {c'} v e closed shut =
    absurd (unfold step on_read in ground arith)
