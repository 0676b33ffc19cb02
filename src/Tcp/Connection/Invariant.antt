-- ===== src/Tcp/Connection/Invariant.antt =====
-- What holds of a connection in every state that its operations reach.
use claire.Prelude.{
  ℕ, ◌≡◌, ◌≢◌, refl, sym, ◌∙◌, subst, Bool, true, false, not, List, [], ◌∷◌, ◌++◌, Option, none,
  some, arith, Bool-cases, Option-cases, inl, inr, ◌⊎◌, Returns, Returns-check, ◌>>◌, check,
  if◌then◌else◌,
}
use claire.Tcp.Connection.{
  disconnected, disconnecting, connecting, connected, Connection, Config, WriteResult, wrote,
  would_block, broken, write_failed, ReadResult, got, end_of_stream, read_failed, Task, send_task,
  shutdown_task, is_disconnected, is_nil, append_last, attempt, new_connection, queue_rest,
  send_in_loop, send_buffer_in_loop, send_buffer, send_string, shutdown, shutdown_in_loop,
  run_pending, connect_established, connect_destroyed, on_close, on_read, flush, written, on_write,
}

-- A posted `ShutdownInLoop` waits.
abbrev pub has_shutdown : List Task → Bool
has_shutdown [] = false
has_shutdown (shutdown_task ∷ ts) = true
has_shutdown (send_task xs ∷ ts) = has_shutdown ts

has_shutdown-send :
    (ts : List Task) (xs : List ℕ) → has_shutdown (ts ++ send_task xs ∷ []) ≡ has_shutdown ts
has_shutdown-send [] xs = refl
has_shutdown-send (shutdown_task ∷ ts) xs = refl
has_shutdown-send (send_task ys ∷ ts) xs = has_shutdown-send ts xs

-- The channel waits for the socket to be writable only while bytes wait, and, unless the connection
-- is down, whenever bytes wait. The write side is closed only behind a call of `Shutdown`. The
-- same for such a call that still waits. An open connection
-- reads, and one that is down waits for nothing.
pub record Inv (c : Connection) : Type 0 where
  pub waits : c.writing ≡ true → c.output ≢ []
  pub watched : c.state ≢ disconnected → c.output ≢ [] → c.writing ≡ true
  pub shut_late : c.write_shut ≡ true → (c.state ≡ disconnecting) ⊎ (c.state ≡ disconnected)
  pub asked : has_shutdown c.pending ≡ true → (c.state ≡ disconnecting) ⊎ (c.state ≡ disconnected)
  pub reads : c.state ≡ connected → c.reading ≡ true
  pub quiet : c.state ≡ disconnected → (c.reading ≡ false) × (c.writing ≡ false)

pub new_connection-Inv : Inv new_connection
unfolding new_connection
new_connection-Inv = record {
  waits = λ h. cc;
  watched = λ h k. absurd (k refl);
  shut_late = λ h. cc;
  asked = λ h. cc;
  reads = λ h. cc;
  quiet = λ h. cc;
}

append_last-ne-nil : (bs : List (List ℕ)) (ys : List ℕ) → append_last bs ys ≢ []
unfolding append_last
append_last-ne-nil [] ys = cc
append_last-ne-nil (b ∷ []) ys = cc
append_last-ne-nil (b ∷ b' ∷ bs) ys = cc

module _ (k : Config) where
  pub attempt-Inv :
      (before : ℕ) (xs : List ℕ) (r : WriteResult) (c : Connection)
      → Inv c
      → Inv (attempt k before xs r c).1
  unfolding attempt
  attempt-Inv before xs (wrote n) c v = ground arith
  attempt-Inv before xs would_block c v = ground arith
  attempt-Inv before xs broken c v = ground arith
  attempt-Inv before xs write_failed c v = ground arith

  attempt_state :
      (before : ℕ) (xs : List ℕ) (r : WriteResult) (c : Connection)
      → (attempt k before xs r c).1.state ≡ c.state
  unfolding attempt
  attempt_state before xs (wrote n) c = ground arith
  attempt_state before xs would_block c = ground arith
  attempt_state before xs broken c = ground arith
  attempt_state before xs write_failed c = ground arith

  pub queue_rest-Inv :
      (o : Option (List ℕ)) (c : Connection)
      → c.state ≢ disconnected
      → Inv c
      → Inv (queue_rest k o c)
  unfolding queue_rest
  queue_rest-Inv none c up v = v
  queue_rest-Inv (some []) c up v = v
  queue_rest-Inv (some (y ∷ ys)) c up v = ground (arith, append_last-ne-nil c.output (y ∷ ys))

  pub send_in_loop-Inv :
      (before : ℕ) (xs : List ℕ) (r : WriteResult) (c : Connection)
      → Inv c
      → Inv (send_in_loop k before xs r c)
  unfolding send_in_loop
  send_in_loop-Inv before xs r c v = elim (Bool-cases (is_disconnected c.state)) [
    | inl down ↦ rw down v
    | inr up ↦
        let t = attempt k before xs r c in
        let open_still : t.1.state ≢ disconnected =
          λ down. absurd (ground (arith, up, sym (attempt_state before xs r c) ∙ down)) in
        rw up (queue_rest-Inv t.0 t.1 open_still (attempt-Inv before xs r c v))
  ]

  -- The `CHECK` that a channel which is writing has something to write never fails.
  pub send_buffer_in_loop-Inv :
      (before : ℕ) (xs : List ℕ) (r : WriteResult) (c : Connection)
      → Inv c
      → Returns (send_buffer_in_loop k before xs r c) Inv
  unfolding send_buffer_in_loop
  send_buffer_in_loop-Inv before xs r c v = go c.writing refl
    where
      queued-Inv :
          (bs : List (List ℕ)) (ys : List ℕ) (c : Connection)
          → Inv c
          → bs ≢ []
          → c.writing ≡ true
          → Inv (record c { output = bs ++ ys ∷ [] })
      queued-Inv [] ys c v ne busy = absurd (ne refl)
      queued-Inv (b ∷ bs) ys c v ne busy = ground arith

      go :
          (t : Bool)
          → c.writing ≡ t
          → Returns
              (if t
                then (do
                  check (not (is_nil c.output))
                  some (record c { output = c.output ++ xs ∷ [] }))
                else some (send_in_loop k before xs r c))
              Inv
      go true busy =
          Returns-check Inv (not (is_nil c.output)) _ (ground (arith, v.waits busy))
            (queued-Inv c.output xs c v (v.waits busy) busy)
      go false idle = send_in_loop-Inv before xs r c v

  pub send_buffer-Inv :
      (in_loop : Bool) (before : ℕ) (xs : List ℕ) (r : WriteResult) (c : Connection)
      → Inv c
      → Returns (send_buffer k in_loop before xs r c) Inv
  unfolding send_buffer
  send_buffer-Inv true before xs r c v = send_buffer_in_loop-Inv before xs r c v
  send_buffer-Inv false before xs r c v = ground (arith, has_shutdown-send c.pending xs)

  pub send_string-Inv :
      (in_loop : Bool) (before : ℕ) (xs : List ℕ) (r : WriteResult) (c : Connection)
      → Inv c
      → Inv (send_string k in_loop before xs r c)
  unfolding send_string
  send_string-Inv in_loop before xs r c v =
      ground (arith, has_shutdown-send c.pending xs, send_in_loop-Inv before xs r c v)

pub shutdown-Inv : (in_loop : Bool) (c : Connection) → Inv c → Inv (shutdown in_loop c)
unfolding shutdown shutdown_in_loop
shutdown-Inv in_loop c v = ground arith

module _ (k : Config) where
  pub run_pending-Inv :
      (before : ℕ) (r : WriteResult) (ts : List Task) (c : Connection)
      → c.pending ≡ ts
      → Inv c
      → Returns (run_pending k before r c) Inv
  unfolding run_pending
  run_pending-Inv before r [] c e v = rw (e, run_pending, Returns) v
  run_pending-Inv before r (send_task xs ∷ ts) c e v =
      rw (e, run_pending, Returns)
        (send_buffer_in_loop-Inv k before xs r (record c { pending = ts }) (ground arith))
  run_pending-Inv before r (shutdown_task ∷ ts) c e v =
      rw (e, run_pending, Returns) (unfold shutdown_in_loop in ground arith)

  pub connect_established-Inv :
      (c : Connection) → c.state ≡ connecting → Inv c → Returns (connect_established k c) Inv
  unfolding connect_established
  connect_established-Inv c e v = ground arith

  pub connect_destroyed-Inv :
      (c : Connection)
      → (c.state ≡ connected) ⊎ ((c.state ≡ disconnected) × (c.registered ≡ true))
      → Inv c
      → Returns (connect_destroyed k c) Inv
  unfolding connect_destroyed
  connect_destroyed-Inv c (inl up) v = ground arith
  connect_destroyed-Inv c (inr (down, there)) v = ground (arith, v.quiet down)

  pub on_close-Inv : (c : Connection) → c.state ≢ disconnected → Inv c → Returns (on_close k c) Inv
  unfolding on_close
  on_close-Inv c up v = ground arith

  pub on_read-Inv :
      (r : ReadResult) (c : Connection)
      → c.state ≢ disconnected
      → Inv c
      → Returns (on_read k r c) Inv
  unfolding on_read
  on_read-Inv (got x xs) c up v = ground arith
  on_read-Inv end_of_stream c up v = on_close-Inv c up v
  on_read-Inv read_failed c up v = v

  pub written-Inv :
      (out : List (List ℕ)) (sent : List ℕ) (c : Connection)
      → c.writing ≡ true
      → Inv c
      → Inv (written k (record c { output = out; sent = sent }))
  unfolding written shutdown_in_loop
  written-Inv [] sent c busy v = ground arith
  written-Inv (b ∷ bs) sent c busy v = ground arith

  -- Where the loop of `OnWrite` ends.
  pub on_write-Inv :
      (rs : List WriteResult) (c : Connection) {c' : Connection}
      → Inv c
      → on_write k rs c ≡ some c'
      → Inv c'
  unfolding on_write
  on_write-Inv rs c {c'} v e = elim (Bool-cases c.writing) [
    | inr idle ↦ subst Inv (ground arith) v
    | inl busy ↦ elim (Option-cases (flush rs c.output c.sent)) [
      | inl waits ↦ absurd (ground arith)
      | inr ((out, sent), done) ↦ subst Inv (ground arith) (written-Inv out sent c busy v)
    ]
  ]
