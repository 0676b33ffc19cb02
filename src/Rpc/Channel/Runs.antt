-- ===== src/Rpc/Channel/Runs.antt =====
-- Any sequence of what happens to the channel.
use claire.Prelude.{
  ℕ, suc, ◌+◌, ◌≡◌, ◌≢◌, refl, sym, ap, ◌∙◌, subst, true, List, [], ◌∷◌, Option, none, some, ◌>>=◌,
  arith, has, count, find, erase_key, keys, All, has-find, ==_self, Returns, Returns->>=,
  Returns-map, IfReturns, IfReturns->>=, IfReturns-map, Bool-cases, inl, inr,
}
use claire.LoadBalancer.{LoadBalancer}
use claire.Rpc.Controller.{Controller}
use claire.Rpc.Channel.{
  Reflection, user, OutstandingCall, Channel, new_channel, make_request, start_call,
  register_request, is_positive_int, get_request_timeout, hand_over, call_method, run_posted,
  run_next, on_disconnected, on_headers, on_timeout, time_out,
}
use claire.Rpc.Channel.Invariant.{
  Inv, Frame, below_suc, run_next-Inv, on_disconnected-Inv, on_headers_lem, hand_over-Inv,
}
use claire.Rpc.Channel.Answers.{
  waiting, keys-erase_first, answered, Operation, calls, runs_posted, disconnects, gets_headers,
  responds, fires, beats, step, made, Sound, Grown, on_response-Grown, time_out-Grown,
  start_call-Grown, send_heart_beat-Grown,
}

module _ {B P M : Type 0} (l : LoadBalancer B) (r : Reflection P M) where
  -- Sending changes neither what waits nor what is answered.
  same-Grown :
      (c c' : Channel B P M)
      → Sound l r c
      → Inv l r c'
      → c'.outstandings ≡ c.outstandings
      → c'.answers ≡ c.answers
      → Grown l r (λ n. 0) c c'
  same-Grown c c' v v' o a = (
    (v', subst (All (λ d. d.1.response_prototype ≢ none)) (sym o) v.1),
    (λ n. omega (arith, ap (λ x. count n (waiting x)) o, ap (λ x. count n (answered x)) a)),
  )

  without_controller :
      (f : ℕ → ℕ) (c : Channel B P M) (t : Controller) (o : Option (Channel B P M))
      → IfReturns o (Grown l r f c)
      → IfReturns ((o >>= λ c'. some (t, c')) >>= λ (t', c'). some c') (Grown l r f c)
  without_controller f c t none h = tt
  without_controller f c t (some c') h = h

  -- Whatever happens, a callback is called or waits as often as before, and once more where a call is
  -- made with it.
  pub step-Grown :
      (o : Operation P) (c : Channel B P M)
      → Sound l r c
      → IfReturns (step l r o c) (Grown l r (λ n. made l r n o) c)
  unfolding step
  step-Grown (calls b method t [] p k) c v =
      unfold call_method in
      (
        ((v.0.0, v.0.1, below_suc c.next_id (keys c.outstandings) v.0.2, v.0.3, v.0.4, v.0.5), v.1),
        (λ n. omega arith),
      )
  step-Grown (calls b method t (x ∷ xs) p k) c v =
      unfold call_method register_request in
      let call : OutstandingCall P = record {
        response_prototype = some p;
        callback = user k;
        controller = t;
      } in
      let m = record (make_request method (x ∷ xs) c.next_id) {
        compress_type = some t.compress_type;
      } in
      let c1 = start_call l r call c.next_id (record c { next_id = suc c.next_id }) in
      let h = start_call-Grown l r call c v (λ e. cc) in
      elim (Bool-cases (is_positive_int (get_request_timeout l r method))) [
        | inr z ↦ rw (z) tt
        | inl z ↦ rw (z) (
            without_controller (λ n. count n (k ∷ [])) c t (hand_over l r c.connected b m c1)
              (IfReturns-map (λ c'. Inv l r c' × Frame l r c1 c')
                (Grown l r (λ n. count n (k ∷ [])) c) (hand_over l r c.connected b m c1)
                (hand_over-Inv l r c.connected b m c1 h.0.0)
                (λ c' (v', f).
                  let g = same-Grown c1 c' h.0 v' f.0 f.1 in
                  (g.0, (λ n. omega (arith, h.1 n, g.1 n))))))
      ]
  step-Grown runs_posted c v =
      unfold run_posted in
      IfReturns-map (λ c'. Inv l r c' × Frame l r c c') (Grown l r (λ n. 0) c)
        (run_next l r c.posted c) (run_next-Inv l r c.posted c v.0)
        (λ c' (v', f). same-Grown c c' v v' f.0 f.1)
  step-Grown (disconnects a) c v =
      same-Grown c (on_disconnected l r a c) v (on_disconnected-Inv l r a c v.0)
        (unfold on_disconnected in refl) (unfold on_disconnected in refl)
  step-Grown (gets_headers ok a) c v =
      (IfReturns-map
        (λ c'. Inv l r c' × (c'.outstandings ≡ c.outstandings) × (c'.answers ≡ c.answers))
        (Grown l r (λ n. 0) c) (on_headers l r ok a c) (on_headers_lem l r ok a c v.0)
        (λ c' (v', o, a). same-Grown c c' v v' o a))
  step-Grown (responds a m) c v = on_response-Grown l r a m c v
  step-Grown (fires id) c v =
      unfold on_timeout in
      IfReturns-map
        (λ c'. Grown l r (λ n. 0) c c' × (c'.outstandings ≡ erase_key id c.outstandings))
        (Grown l r (λ n. 0) c) (time_out l r (find id c.outstandings) id c)
        (time_out-Grown l r id (find id c.outstandings) c v refl) (λ c' h. h.0)
  step-Grown (beats method bytes xs) c v = send_heart_beat-Grown l r method bytes xs c v

  unfoldable pub run : List (Operation P) → Channel B P M → Option (Channel B P M)
  run [] c = some c
  run (o ∷ os) c = step l r o c >>= λ c'. run os c'

  abbrev pub made_all : ℕ → List (Operation P) → ℕ
  made_all n [] = 0
  made_all n (o ∷ os) = made l r n o + made_all n os

  run-Grown :
      (os : List (Operation P)) (c : Channel B P M)
      → Sound l r c
      → IfReturns (run os c) (Grown l r (λ n. made_all n os) c)
  unfolding run
  run-Grown [] c v = (v, (λ n. omega arith))
  run-Grown (o ∷ os) c v =
      IfReturns->>= (Grown l r (λ n. made l r n o) c)
        (Grown l r (λ n. made l r n o + made_all n os) c) (step l r o c) (λ c'. run os c')
        (step-Grown o c v)
        (λ c1 h.
          IfReturns-map (Grown l r (λ n. made_all n os) c1)
            (Grown l r (λ n. made l r n o + made_all n os) c) (run os c1) (run-Grown os c1 h.0)
            (λ c2 k. (k.0, (λ n. omega (arith, h.1 n, k.1 n)))))

  -- The timers of these ids fire, one after the other.
  unfoldable pub fire_all : List ℕ → Channel B P M → Option (Channel B P M)
  fire_all [] c = some c
  fire_all (id ∷ ids) c = on_timeout l r id c >>= λ c'. fire_all ids c'

  fire_all-Grown :
      (ids : List ℕ) (c : Channel B P M)
      → Sound l r c
      → keys c.outstandings ≡ ids
      → Returns (fire_all ids c) (λ c'. Grown l r (λ n. 0) c c' × (c'.outstandings ≡ []))
  unfolding fire_all on_timeout time_out
  fire_all-Grown [] c v e = ((v, (λ n. omega arith)), nothing c.outstandings e)
    where
      nothing : (m : List (ℕ × OutstandingCall P)) → keys m ≡ [] → m ≡ []
      nothing [] e = refl
      nothing (x ∷ m) e = absurd (cc)
  fire_all-Grown (id ∷ ids) c v e =
      let there : has id (keys c.outstandings) ≡ true =
        ap (λ ks. has id ks) e ∙ rw (==_self id) refl in
      let (call, found) = has-find id c.outstandings there in
      let fired : Returns (on_timeout l r id c)
          (λ c'. Grown l r (λ n. 0) c c' × (c'.outstandings ≡ erase_key id c.outstandings)) =
        subst
          (λ o.
            Returns (time_out l r o id c)
              (λ c'. Grown l r (λ n. 0) c c' × (c'.outstandings ≡ erase_key id c.outstandings)))
          (sym found) (time_out-Grown l r id (some call) c v found) in
      Returns->>= (λ c'. Grown l r (λ n. 0) c c' × (c'.outstandings ≡ erase_key id c.outstandings))
        (λ c'. Grown l r (λ n. 0) c c' × (c'.outstandings ≡ [])) (on_timeout l r id c)
        (λ c'. fire_all ids c') fired
        (λ c1 (h, left).
          Returns-map (λ c'. Grown l r (λ n. 0) c1 c' × (c'.outstandings ≡ []))
            (λ c'. Grown l r (λ n. 0) c c' × (c'.outstandings ≡ [])) (fire_all ids c1)
            (fire_all-Grown ids c1 h.0
              (ap keys left ∙ keys-erase_first id ids c.outstandings e v.0.1))
            (λ c2 (k, nil). ((k.0, (λ n. omega (arith, h.1 n, k.1 n))), nil)))

  -- Any channel that was reached from a new one, by whatever happened to it and in whatever order, and
  -- whose timers then all fire: every callback has been called exactly as often as a call was made with
  -- it, and no call waits any more. A call whose request has no bytes is not counted.
  pub run_answers :
      (b : B) (os : List (Operation P)) (c : Channel B P M)
      → l.IsValid b
      → l.backends b ≡ []
      → run os (new_channel b) ≡ some c
      → Returns
          (fire_all c.timers c)
          (λ c'. ((n : ℕ) → count n (answered c'.answers) ≡ made_all n os) × (c'.outstandings ≡ []))
  run_answers b os c valid empty e =
      let start : Sound l r (new_channel b) = (
        (
          refl,
          tt,
          tt,
          valid,
          (λ x h. absurd (let f : has x [] ≡ true = subst (λ bs. has x bs ≡ true) empty h in cc)),
          refl,
        ),
        tt,
      ) in
      let g : IfReturns (some c) (Grown l r (λ n. made_all n os) (new_channel b)) =
        subst (λ m. IfReturns m (Grown l r (λ n. made_all n os) (new_channel b))) e
          (run-Grown os (new_channel b) start) in
      Returns-map (λ c'. Grown l r (λ n. 0) c c' × (c'.outstandings ≡ []))
        (λ c'. ((n : ℕ) → count n (answered c'.answers) ≡ made_all n os) × (c'.outstandings ≡ []))
        (fire_all c.timers c) (fire_all-Grown c.timers c g.0 (sym g.0.0.0))
        (λ c' (h, nil).
          ((λ n. omega (arith, h.1 n, g.1 n, ap (λ m. count n (waiting m)) nil)), nil))
