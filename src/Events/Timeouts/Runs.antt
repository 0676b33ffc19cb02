-- ===== src/Events/Timeouts/Runs.antt =====
-- `Run` and `OnTimer`: which callbacks run, and what is kept.
use claire.Prelude.{
  ℕ, ◌<◌, ◌≡◌, sym, ◌∙◌, ap, List, [], ◌∷◌, ◌++◌, append-nil, append_assoc, map, Option, none, some,
  All,
}
use claire.Events.Timeouts.{Event, Queue, due, not_due, reinsert, call_back, run, on_timer}
use claire.Events.Timeouts.Firing.{Kept, Armed, reset-Armed}
use claire.Events.Timeouts.Due.{AsPutBack, AllPutBack, part_of_due, part_of_not_due, run_set}

module _ {C : Type 0} where
  put_back_below :
      (n now : ℕ) (es : List (Event C)) → All (λ e. e.id < n) es → AllPutBack (λ e. e.id < n) now es
  put_back_below n now [] h = tt
  put_back_below n now (e ∷ es) (lt, h) = (go e.repeat_interval, put_back_below n now es h)
    where
      go : (k : Option ℕ) → AsPutBack (λ e. e.id < n) now e k
      go none = tt
      go (some k) = lt

  reinserted-Kept :
      (now : ℕ) (q : Queue C)
      → Kept q
      → Kept (record q { timeouts = reinsert now (due now q.timeouts) (not_due now q.timeouts) })
  unfolding Kept
  reinserted-Kept now q k =
      let (whole, d, n, iff, s, ids) = run_set (λ e. e.id < q.next_id) now q k in
      (
        s,
        ids,
        iff.1 (
          put_back_below q.next_id now (due now q.timeouts)
              (part_of_due (λ e. e.id < q.next_id) now q.timeouts k.2),
          part_of_not_due (λ e. e.id < q.next_id) now q.timeouts k.2,
        ),
      )

  module _ (perform : C → Queue C → Queue C)
      (keeps : (c : C) (q : Queue C) → Kept q → Kept (perform c q))
      (quiet : (c : C) (q : Queue C) → (perform c q).fired ≡ q.fired) where
    call_back_lem :
        (es : List (Event C)) (q : Queue C)
        → Kept q
        → Kept (call_back perform es q)
          × ((call_back perform es q).fired ≡ q.fired ++ map (λ e. e.id) es)
    unfolding call_back
    call_back_lem [] q k = (k, sym (append-nil q.fired))
    call_back_lem (e ∷ es) q k =
        let q1 : Queue C = record q { fired = q.fired ++ e.id ∷ [] } in
        let k1 : Kept q1 = unfold Kept in k in
        let (kept, f) = call_back_lem es (perform e.callback q1) (keeps e.callback q1 k1) in
        (
          kept,
          f
              ∙ ap (λ xs. xs ++ map (λ e. e.id) es) (quiet e.callback q1)
              ∙ append_assoc q.fired (e.id ∷ []) (map (λ e. e.id) es),
        )

    -- When the timer goes off, the callbacks of the events that are due run, each once and in the order
    -- of the set, whatever the callbacks add or cancel; order and ids are kept, and the timer of the
    -- system is set again, at the time `clock`: it goes off no later than each event that is left is due,
    -- or within 100 microseconds from `clock` on, which is the least that it is set to. The callbacks
    -- keep order and ids and do not run the queue themselves.
    pub on_timer_lem :
        (now clock : ℕ) (q : Queue C)
        → Kept q
        → ((on_timer perform now clock q).fired ≡ q.fired ++ map (λ e. e.id) (due now q.timeouts))
          × Kept (on_timer perform now clock q)
          × Armed clock (on_timer perform now clock q)
    unfolding on_timer run
    on_timer_lem now clock q k =
        let (kept, f) =
          call_back_lem (due now q.timeouts)
            (record q { timeouts = reinsert now (due now q.timeouts) (not_due now q.timeouts) })
            (reinserted-Kept now q k) in
        (f, unfold Kept in kept, unfold Armed Kept in reset-Armed clock _ kept.0)
