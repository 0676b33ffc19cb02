-- ===== src/Tcp/Connection/Stream.antt =====
-- The bytes of a connection in order: what the kernel has taken, and behind it what still waits.
use claire.Prelude.{
  ℕ, ◌<◌, ◌≡◌, ◌≢◌, refl, sym, ◌∙◌, ap, Bool, true, false, not, ◌&&◌, List, [], ◌∷◌, ◌++◌,
  append-nil, append_assoc, none, some, arith, length, take, drop, take-append-drop, length-drop,
  drop_all, take_all, flatten, map, Bool-cases, Option-cases, inl, inr, ◌⊎◌, All,
}
use claire.Tcp.Connection.{
  ConnState, disconnected, Connection, Config, WriteResult, wrote, would_block, broken,
  write_failed, is_disconnected, is_nil, Call, append_last, attempt, queue_rest, send_in_loop,
  send_buffer_in_loop, flush, written, on_write, shutdown_in_loop, call_if,
}

abbrev pub stream : Connection → List ℕ
stream c = c.sent ++ flatten c.output

flatten-append_last :
    (bs : List (List ℕ)) (ys : List ℕ) → flatten (append_last bs ys) ≡ flatten bs ++ ys
unfolding append_last
flatten-append_last [] ys = append-nil ys
flatten-append_last (b ∷ []) ys = append-nil (b ++ ys) ∙ ap (λ zs. zs ++ ys) (sym (append-nil b))
flatten-append_last (b ∷ b' ∷ bs) ys =
    ap (λ zs. b ++ zs) (flatten-append_last (b' ∷ bs) ys)
    ∙ sym (append_assoc b (flatten (b' ∷ bs)) ys)

flatten-snoc : (bs : List (List ℕ)) (ys : List ℕ) → flatten (bs ++ ys ∷ []) ≡ flatten bs ++ ys
flatten-snoc [] ys = append-nil ys
flatten-snoc (b ∷ bs) ys =
    ap (λ zs. b ++ zs) (flatten-snoc bs ys) ∙ sym (append_assoc b (flatten bs) ys)

stream-call_if : (b : Bool) (q : Call) (c : Connection) → stream (call_if b q c) ≡ stream c
stream-call_if true q c = refl
stream-call_if false q c = refl

joined :
    (sent xs : List ℕ) (bs : List (List ℕ)) (n : ℕ)
    → is_nil bs ≡ true
    → ((sent ++ take n xs) ++ flatten bs) ++ drop n xs ≡ (sent ++ flatten bs) ++ xs
joined sent xs [] n e =
    ap (λ ys. ys ++ drop n xs) (append-nil (sent ++ take n xs))
    ∙ append_assoc sent (take n xs) (drop n xs)
    ∙ ap (λ ys. sent ++ ys) (take-append-drop n xs)
    ∙ ap (λ ys. ys ++ xs) (sym (append-nil sent))
joined sent xs (b ∷ bs) n e = cc

up_lem : (s : ConnState) → s ≢ disconnected → is_disconnected s ≡ false
up_lem s h = ground arith

module _ (k : Config) where
  queue_rest-stream :
      (ys : List ℕ) (c : Connection) → stream (queue_rest k (some ys) c) ≡ stream c ++ ys
  unfolding queue_rest
  queue_rest-stream [] c = sym (append-nil (stream c))
  queue_rest-stream (y ∷ ys) c = ground (
    arith,
    flatten-append_last c.output (y ∷ ys),
    append_assoc c.sent (flatten c.output) (y ∷ ys),
  )

  attempt-stream :
      (before n : ℕ) (xs : List ℕ) (c : Connection)
      → (rest : List ℕ) × ((attempt k before xs (wrote n) c).0 ≡ some rest)
        × (stream (attempt k before xs (wrote n) c).1 ++ rest ≡ stream c ++ xs)
  unfolding attempt
  attempt-stream before n xs c = elim (Bool-cases (not c.writing && is_nil c.output)) [
    | inr waits ↦ rw waits (xs, refl, refl)
    | inl free ↦ rw free (
      drop n xs,
      refl,
      ap (λ ys. ys ++ drop n xs) (stream-call_if _ _ (record c { sent = c.sent ++ take n xs }))
          ∙ joined c.sent xs c.output n (ground arith),
    )
  ]

  -- Bytes that are sent while nothing goes wrong come behind all that were sent before, whether the
  -- kernel takes them at once, in part, or they wait behind others.
  pub send_in_loop-stream :
      (before n : ℕ) (xs : List ℕ) (c : Connection)
      → c.state ≢ disconnected
      → stream (send_in_loop k before xs (wrote n) c) ≡ stream c ++ xs
  unfolding send_in_loop
  send_in_loop-stream before n xs c up =
      let (rest, e, go) = attempt-stream before n xs c in
      rw (up_lem c.state up, e) (queue_rest-stream rest (attempt k before xs (wrote n) c).1 ∙ go)

  -- The same for a whole buffer.
  pub send_buffer_in_loop-stream :
      (before n : ℕ) (xs : List ℕ) (c : Connection)
      → c.state ≢ disconnected
      → (c.writing ≡ true → c.output ≢ [])
      → (c' : Connection) × (send_buffer_in_loop k before xs (wrote n) c ≡ some c')
        × (stream c' ≡ stream c ++ xs)
  unfolding send_buffer_in_loop
  send_buffer_in_loop-stream before n xs c up ne = elim (Bool-cases c.writing) [
    | inl busy ↦ (
      record c { output = c.output ++ xs ∷ [] },
      ground (arith, ne busy),
      ap (λ ys. c.sent ++ ys) (flatten-snoc c.output xs)
          ∙ sym (append_assoc c.sent (flatten c.output) xs),
    )
    | inr idle ↦
        (send_in_loop k before xs (wrote n) c, ground arith, send_in_loop-stream before n xs c up)
  ]

  -- A direct write that fails with `EWOULDBLOCK`, or with an error that is not that of a broken
  -- connection: what is queued begins with the byte before the data, and the last byte is lost.
  pub send_in_loop_would_block :
      (before x : ℕ) (xs : List ℕ) (r : WriteResult) (c : Connection)
      → c.state ≢ disconnected
      → c.writing ≡ false
      → c.output ≡ []
      → (r ≡ would_block) ⊎ (r ≡ write_failed)
      → stream (send_in_loop k before (x ∷ xs) r c) ≡ stream c ++ before ∷ take (length xs) (x ∷ xs)
  unfolding send_in_loop attempt
  send_in_loop_would_block before x xs would_block c up idle nil h =
      let e : not c.writing && is_nil c.output ≡ true = ground arith in
      rw (up_lem c.state up, e) (queue_rest-stream (before ∷ take (length xs) (x ∷ xs)) c)
  send_in_loop_would_block before x xs write_failed c up idle nil h =
      let e : not c.writing && is_nil c.output ≡ true = ground arith in
      rw (up_lem c.state up, e) (queue_rest-stream (before ∷ take (length xs) (x ∷ xs)) c)
  send_in_loop_would_block before x xs (wrote n) c up idle nil h = absurd (ground arith)
  send_in_loop_would_block before x xs broken c up idle nil h = absurd (ground arith)

regroup :
    (sent b rest : List ℕ) (n : ℕ) → (sent ++ take n b) ++ (drop n b ++ rest) ≡ sent ++ (b ++ rest)
regroup sent b rest n =
    append_assoc sent (take n b) (drop n b ++ rest)
    ∙ ap (λ ys. sent ++ ys)
        (sym (append_assoc (take n b) (drop n b) rest)
          ∙ ap (λ ys. ys ++ rest) (take-append-drop n b))

taken_whole :
    (sent b rest : List ℕ) (n : ℕ)
    → length (drop n b) ≡ 0
    → (sent ++ take n b) ++ rest ≡ sent ++ (b ++ rest)
taken_whole sent b rest n e =
    ap (λ ys. (sent ++ ys) ++ rest) (take_all n b (omega (arith, e, length-drop n b)))
    ∙ append_assoc sent b rest

flush-stream :
    (rs : List WriteResult) (out : List (List ℕ)) (sent : List ℕ) {out' : List (List ℕ)}
    {sent' : List ℕ}
    → flush rs out sent ≡ some (out', sent')
    → sent' ++ flatten out' ≡ sent ++ flatten out
unfolding flush
flush-stream rs [] sent e = ground arith
flush-stream [] (b ∷ bs) sent e = cc
flush-stream (would_block ∷ rs) (b ∷ bs) sent e = flush-stream rs (b ∷ bs) sent e
flush-stream (broken ∷ rs) (b ∷ bs) sent e = flush-stream rs (b ∷ bs) sent e
flush-stream (write_failed ∷ rs) (b ∷ bs) sent e = flush-stream rs (b ∷ bs) sent e
flush-stream (wrote n ∷ rs) (b ∷ bs) sent {out'} {sent'} e = ground (
  arith,
  flush-stream rs (b ∷ bs) sent {out' = out'} {sent' = sent'},
  flush-stream rs bs (sent ++ take n b) {out' = out'} {sent' = sent'},
  regroup sent b (flatten bs) n,
  taken_whole sent b (flatten bs) n,
)

stream-written : (k : Config) (c : Connection) → stream (written k c) ≡ stream c
unfolding written shutdown_in_loop
stream-written k c = ground arith

-- `OnWrite` moves bytes from the queue to the kernel and changes nothing else about their order:
-- none is lost, doubled or overtaken, whatever the system answers.
pub on_write-stream :
    (k : Config) (rs : List WriteResult) (c : Connection) {c' : Connection}
    → on_write k rs c ≡ some c'
    → stream c' ≡ stream c
unfolding on_write
on_write-stream k rs c {c'} e = elim (Bool-cases c.writing) [
  | inr idle ↦ ground arith
  | inl busy ↦ elim (Option-cases (flush rs c.output c.sent)) [
    | inl waits ↦ absurd (ground arith)
    | inr ((out, sent), done) ↦
        let d = record c { output = out; sent = sent } in
        let e' : written k d ≡ c' = ground arith in
        ap stream (sym e') ∙ stream-written k d ∙ flush-stream rs c.output c.sent done
  ]
]

-- Where the system takes each waiting buffer whole, the loop ends with nothing waiting.
flush_whole :
    (bs : List (List ℕ)) (sent : List ℕ)
    → All (λ b. 0 < length b) bs
    → flush (map (λ b. wrote (length b)) bs) bs sent ≡ some ([], sent ++ flatten bs)
unfolding flush
flush_whole [] sent h = ap (λ ys. some ([], ys)) (sym (append-nil sent))
flush_whole (b ∷ bs) sent h =
    let gone = drop_all (length b) b (omega arith) in
    let all = take_all (length b) b (omega arith) in
    ground (arith, gone, all, flush_whole bs (sent ++ b) h.1, append_assoc sent b (flatten bs))

-- The answers by which the kernel takes no byte.
abbrev pub TakesNothing : WriteResult → Type 0
TakesNothing (wrote n) = n ≡ 0
TakesNothing _ = Unit {0}

flush_spins :
    (rs : List WriteResult) (b : List ℕ) (bs : List (List ℕ)) (sent : List ℕ)
    → All TakesNothing rs
    → flush rs (b ∷ bs) sent ≡ none
unfolding flush
flush_spins [] b bs sent h = refl
flush_spins (would_block ∷ rs) b bs sent h = flush_spins rs b bs sent h.1
flush_spins (broken ∷ rs) b bs sent h = flush_spins rs b bs sent h.1
flush_spins (write_failed ∷ rs) b bs sent h = flush_spins rs b bs sent h.1
flush_spins (wrote n ∷ rs) b bs sent h = ground (arith, h.0, flush_spins rs b bs sent h.1)

-- A write that takes nothing, for whatever reason, is tried again: no number of such answers ends
-- the loop of `OnWrite`, so it holds up the event loop until the kernel takes a byte.
pub on_write_spins :
    (k : Config) (rs : List WriteResult) (b : List ℕ) (bs : List (List ℕ)) (c : Connection)
    → c.writing ≡ true
    → c.output ≡ b ∷ bs
    → All TakesNothing rs
    → on_write k rs c ≡ none
unfolding on_write
on_write_spins k rs b bs c busy out h = ground (arith, flush_spins rs b bs c.sent h)
