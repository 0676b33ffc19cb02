-- ===== src/Events/Loop/Wakeups.antt =====
-- No posted task is forgotten: each runs once, in the order of posting, and the loop does not sleep
-- while one waits.
use claire.Prelude.{
  arith, ℕ, ◌≡◌, refl, sym, ap, ◌∙◌, Bool, true, false, not, ◌||◌, List, [], ◌∷◌, ◌++◌, Option,
  none, some, ◌>>=◌, ◌⊎◌, inl, inr, append_assoc, append-nil, ap₂, ◌==◌, IfReturns, IfReturns->>=,
  IfReturns-map, Bool-cases, subst,
}
use claire.Events.Loop.{
  EventLoop, new_loop, Phase, starting, polling, handling, running, post, quit_loop, next_round,
  start, poll, handle, take_tasks, run_task, on_event, on_wakeup, wakeup, is_null,
}

-- What happens to the loop. A post from its own thread is made by the channel or the task at hand.
pub data Operation : Type 0 where
  posts : Bool → ℕ → Operation
  runs : Bool → ℕ → Operation
  quits : Bool → Operation
  starts : Operation
  polls : List ℕ → Operation
  handles : Operation
  takes_tasks : Operation
  runs_task : Operation

unfoldable pub step : Operation → EventLoop → Option EventLoop
step (posts b t) e = some (post b t e)
step (runs b t) e = some (claire.Events.Loop.run b t e)
step (quits b) e = some (quit_loop b e)
step starts e = start e.phase e
step (polls cs) e = poll e.phase cs e
step handles e = handle e.phase e
step takes_tasks e = take_tasks e.phase e
step runs_task e = run_task e.phase e

unfoldable pub steps : List Operation → EventLoop → Option EventLoop
steps [] e = some e
steps (o ∷ os) e = step o e >>= λ e'. steps os e'

-- The tasks that an operation posts, in their order.
abbrev pub posted : Operation → List ℕ
posted (posts b t) = t ∷ []
posted (runs false t) = t ∷ []
posted _ = []

abbrev pub posted_all : List Operation → List ℕ
posted_all [] = []
posted_all (o ∷ os) = posted o ++ posted_all os

abbrev pub taken : Phase → List ℕ
taken (running ts) = ts
taken _ = []

-- Nothing waits, or the eventfd is readable.
abbrev pub Awake : List ℕ → Bool → Type 0
Awake tasks readable = (tasks ≡ []) ⊎ (readable ≡ true)

-- Outside the handling of channels, which the tasks follow in the same round; and only there is a
-- channel active.
abbrev pub Alert : Phase → Option ℕ → List ℕ → Bool → Type 0
Alert (handling cs) active tasks readable = Unit
Alert _ active tasks readable = (active ≡ none) × Awake tasks readable

abbrev pub Inv : List ℕ → EventLoop → Type 0
Inv given e =
    (e.ran ++ (taken e.phase ++ e.pending_tasks) ≡ given)
    × Alert e.phase e.current_active_channel e.pending_tasks e.wakeup_readable

-- What a post changes, and that it wakes the loop where no channel is active.
post_lem :
    (b : Bool) (t : ℕ) (e : EventLoop)
    → ((post b t e).pending_tasks ≡ e.pending_tasks ++ t ∷ [])
      × ((post b t e).phase ≡ e.phase)
      × ((post b t e).ran ≡ e.ran)
      × ((post b t e).current_active_channel ≡ e.current_active_channel)
      × (e.current_active_channel ≡ none → (post b t e).wakeup_readable ≡ true)
unfolding post wakeup
post_lem b t e = elim (Bool-cases (not b || is_null e.current_active_channel)) [
  | inl h ↦ rw (h) (refl, refl, refl, refl, (λ n. refl))
  | inr h ↦ rw (h) (refl, refl, refl, refl, (λ n. absurd (ground (arith, h, ap is_null n))))
]

Alert-post :
    (p : Phase) (active : Option ℕ) (tasks tasks' : List ℕ) (readable readable' : Bool)
    → (active ≡ none → readable' ≡ true)
    → Alert p active tasks readable
    → Alert p active tasks' readable'
Alert-post starting active tasks tasks' r r' h (n, a) = (n, inr (h n))
Alert-post polling active tasks tasks' r r' h (n, a) = (n, inr (h n))
Alert-post (running ts) active tasks tasks' r r' h (n, a) = (n, inr (h n))
Alert-post (handling cs) active tasks tasks' r r' h a = tt

post-Inv :
    (b : Bool) (t : ℕ) (given : List ℕ) (e : EventLoop)
    → Inv given e
    → Inv (given ++ t ∷ []) (post b t e)
post-Inv b t given e (all, alert) =
    let (tasks, phase, ran, active, woken) = post_lem b t e in
    (
      ap₂ (λ xs p. xs ++ (taken p ++ (post b t e).pending_tasks)) ran phase
          ∙ ap (λ ts. e.ran ++ (taken e.phase ++ ts)) tasks
          ∙ ap (λ ts. e.ran ++ ts) (sym (append_assoc (taken e.phase) e.pending_tasks (t ∷ [])))
          ∙ sym (append_assoc e.ran (taken e.phase ++ e.pending_tasks) (t ∷ []))
          ∙ ap (λ xs. xs ++ t ∷ []) all,
      subst
          (λ p.
            Alert p (post b t e).current_active_channel (post b t e).pending_tasks
              (post b t e).wakeup_readable)
          (sym phase)
          (subst (λ c. Alert e.phase c (post b t e).pending_tasks (post b t e).wakeup_readable)
            (sym active)
            (Alert-post e.phase e.current_active_channel e.pending_tasks (post b t e).pending_tasks
              e.wakeup_readable (post b t e).wakeup_readable woken alert)),
    )

no_more : (given : List ℕ) (e : EventLoop) → Inv given e → Inv (given ++ []) e
no_more given e v = (v.0 ∙ sym (append-nil given), v.1)

-- The next round begins as alert as the last one ended.
next_round-Inv :
    (q : Bool) (given : List ℕ) (e : EventLoop)
    → e.ran ++ e.pending_tasks ≡ given
    → (e.current_active_channel ≡ none) × Awake e.pending_tasks e.wakeup_readable
    → Inv given (next_round q e)
unfolding next_round
next_round-Inv true given e all alert = (all, alert)
next_round-Inv false given e all alert = (all, alert)

start-Inv :
    (p : Phase) (given : List ℕ) (e : EventLoop)
    → e.phase ≡ p
    → Inv given e
    → IfReturns (start p e) (Inv given)
unfolding start
start-Inv starting given e q (all, alert) =
    next_round-Inv e.quit given e (subst (λ p. e.ran ++ (taken p ++ e.pending_tasks) ≡ given) q all)
      (subst (λ p. Alert p e.current_active_channel e.pending_tasks e.wakeup_readable) q alert)
start-Inv polling given e q v = tt
start-Inv (handling cs) given e q v = tt
start-Inv (running ts) given e q v = tt

poll-Inv :
    (p : Phase) (cs : List ℕ) (given : List ℕ) (e : EventLoop)
    → e.phase ≡ p
    → Inv given e
    → IfReturns (poll p cs e) (Inv given)
unfolding poll
poll-Inv starting cs given e q v = tt
poll-Inv polling cs given e q (all, alert) =
    (subst (λ p. e.ran ++ (taken p ++ e.pending_tasks) ≡ given) q all, tt)
poll-Inv (handling xs) cs given e q v = tt
poll-Inv (running ts) cs given e q v = tt

handle-Inv :
    (p : Phase) (given : List ℕ) (e : EventLoop)
    → e.phase ≡ p
    → Inv given e
    → IfReturns (handle p e) (Inv given)
unfolding handle on_wakeup
handle-Inv starting given e q v = tt
handle-Inv polling given e q v = tt
handle-Inv (handling []) given e q v = tt
handle-Inv (handling (c ∷ cs)) given e q (all, alert) =
    let all' : e.ran ++ e.pending_tasks ≡ given =
      subst (λ p. e.ran ++ (taken p ++ e.pending_tasks) ≡ given) q all in
    elim (Bool-cases (c == 0)) [ inl h ↦ rw (h) (all', tt) | inr h ↦ rw (h) (all', tt) ]
handle-Inv (running ts) given e q v = tt

take_tasks-Inv :
    (p : Phase) (given : List ℕ) (e : EventLoop)
    → e.phase ≡ p
    → Inv given e
    → IfReturns (take_tasks p e) (Inv given)
unfolding take_tasks
take_tasks-Inv starting given e q v = tt
take_tasks-Inv polling given e q v = tt
take_tasks-Inv (handling []) given e q (all, alert) = (
  ap (λ ts. e.ran ++ ts) (append-nil e.pending_tasks)
      ∙ subst (λ p. e.ran ++ (taken p ++ e.pending_tasks) ≡ given) q all,
  (refl, inl refl),
)
take_tasks-Inv (handling (c ∷ cs)) given e q v = tt
take_tasks-Inv (running ts) given e q v = tt

run_task-Inv :
    (p : Phase) (given : List ℕ) (e : EventLoop)
    → e.phase ≡ p
    → Inv given e
    → IfReturns (run_task p e) (Inv given)
unfolding run_task
run_task-Inv starting given e q v = tt
run_task-Inv polling given e q v = tt
run_task-Inv (handling cs) given e q v = tt
run_task-Inv (running []) given e q (all, alert) =
    next_round-Inv e.quit given e (subst (λ p. e.ran ++ (taken p ++ e.pending_tasks) ≡ given) q all)
      (subst (λ p. Alert p e.current_active_channel e.pending_tasks e.wakeup_readable) q alert)
run_task-Inv (running (t ∷ ts)) given e q (all, alert) = (
  append_assoc e.ran (t ∷ []) (ts ++ e.pending_tasks)
      ∙ subst (λ p. e.ran ++ (taken p ++ e.pending_tasks) ≡ given) q all,
  subst (λ p. Alert p e.current_active_channel e.pending_tasks e.wakeup_readable) q alert,
)

quit_loop-Inv :
    (b : Bool) (given : List ℕ) (e : EventLoop) → Inv given e → Inv given (quit_loop b e)
unfolding quit_loop wakeup
quit_loop-Inv true given e v = v
quit_loop-Inv false given e (all, alert) = (
  all,
  Alert-post e.phase e.current_active_channel e.pending_tasks e.pending_tasks e.wakeup_readable true
      (λ n. refl) alert,
)

step-Inv :
    (o : Operation) (given : List ℕ) (e : EventLoop)
    → Inv given e
    → IfReturns (step o e) (Inv (given ++ posted o))
unfolding step
step-Inv (posts b t) given e v = post-Inv b t given e v
step-Inv (runs true t) given e v =
    unfold claire.Events.Loop.run in
    no_more given (record e { ran_at_once = e.ran_at_once ++ t ∷ [] }) v
step-Inv (runs false t) given e v = unfold claire.Events.Loop.run in post-Inv false t given e v
step-Inv (quits b) given e v = no_more given (quit_loop b e) (quit_loop-Inv b given e v)
step-Inv starts given e v =
    IfReturns-map (Inv given) (Inv (given ++ [])) (start e.phase e)
      (start-Inv e.phase given e refl v) (no_more given)
step-Inv (polls cs) given e v =
    IfReturns-map (Inv given) (Inv (given ++ [])) (poll e.phase cs e)
      (poll-Inv e.phase cs given e refl v) (no_more given)
step-Inv handles given e v =
    IfReturns-map (Inv given) (Inv (given ++ [])) (handle e.phase e)
      (handle-Inv e.phase given e refl v) (no_more given)
step-Inv takes_tasks given e v =
    IfReturns-map (Inv given) (Inv (given ++ [])) (take_tasks e.phase e)
      (take_tasks-Inv e.phase given e refl v) (no_more given)
step-Inv runs_task given e v =
    IfReturns-map (Inv given) (Inv (given ++ [])) (run_task e.phase e)
      (run_task-Inv e.phase given e refl v) (no_more given)

steps-Inv :
    (os : List Operation) (given : List ℕ) (e : EventLoop)
    → Inv given e
    → IfReturns (steps os e) (Inv (given ++ posted_all os))
unfolding steps
steps-Inv [] given e v = no_more given e v
steps-Inv (o ∷ os) given e v =
    IfReturns->>= (Inv (given ++ posted o)) (Inv (given ++ (posted o ++ posted_all os))) (step o e)
      (λ e'. steps os e') (step-Inv o given e v)
      (λ e1 w.
        subst (λ g. IfReturns (steps os e1) (Inv g)) (append_assoc given (posted o) (posted_all os))
          (steps-Inv os (given ++ posted o) e1 w))

-- A loop after any posts, from its own thread or others, any answers of `poll`, and any other steps of
-- its rounds: the tasks that have run, those that `RunPendingTasks` has taken, and those that wait are the
-- posted ones in the order of posting. Where the loop is in `poll`, no task waits, or the eventfd is
-- readable, so that `poll` answers.
pub steps_lem :
    (os : List Operation) (e : EventLoop)
    → steps os new_loop ≡ some e
    → (e.ran ++ (taken e.phase ++ e.pending_tasks) ≡ posted_all os)
      × (e.phase ≡ polling → Awake e.pending_tasks e.wakeup_readable)
steps_lem os e h =
    let v : Inv (posted_all os) e =
      subst (λ m. IfReturns m (Inv (posted_all os))) h
        (steps-Inv os [] new_loop (refl, (refl, inl refl))) in
    (
      v.0,
      (λ q.
          (subst (λ p. Alert p e.current_active_channel e.pending_tasks e.wakeup_readable) q
            v.1).1),
    )
