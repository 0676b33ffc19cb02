-- ===== src/Tcp/Connector/Stopped.antt =====
-- A connector that is stopped, and one that loses its channel.
use claire.Prelude.{
  ◌≡◌, refl, ◌∙◌, true, false, List, [], ◌∷◌, Option, none, some, ◌>>=◌, arith, Option-cases, inl,
  inr, Returns,
}
use claire.Tcp.Connector.{
  disconnected, connecting, in_progress, retry_later, Connector, remove_and_reset_channel,
  reset_channel, reset_and_retry, answered, connect_in_loop, connect, stop_in_loop, stop, report,
  on_write, on_error, on_connect_timeout, Happening, stops, errs, times_out, resets_channel,
  retries, writable, happen,
}

happen_quiet :
    (h : Happening) (c : Connector) {c' : Connector}
    → c.connect_wanted ≡ false
    → happen h c ≡ some c'
    → (c'.connect_wanted ≡ false) × (c'.new_connections ≡ c.new_connections)
unfolding happen stop stop_in_loop on_error on_connect_timeout reset_channel connect_in_loop
    answered on_write report reset_and_retry remove_and_reset_channel
happen_quiet stops c q e = ground arith
happen_quiet errs c q e = ground arith
happen_quiet times_out c q e = ground arith
happen_quiet resets_channel c q e = ground arith
happen_quiet (retries r) c q e = ground arith
happen_quiet (writable f) c q e = ground arith

abbrev pub happen_all : List Happening → Connector → Option Connector
happen_all [] c = some c
happen_all (h ∷ hs) c = happen h c >>= λ c'. happen_all hs c'

-- Once a connector is stopped, and until `Connect` or `Restart` is called, it reports no connection and
-- stays unwanted: whatever its timers, the events of its channel and the posted tasks are, in any order.
pub stopped_quiet :
    (hs : List Happening) (c : Connector) {c1 c2 : Connector}
    → stop c ≡ some c1
    → happen_all hs c1 ≡ some c2
    → (c2.connect_wanted ≡ false) × (c2.new_connections ≡ c.new_connections)
stopped_quiet hs c {c1} {c2} e f =
    let (unwanted, same) = stop_lem c e in
    let (unwanted', same') = later hs c1 unwanted f in (unwanted', same' ∙ same)
  where
    stop_lem :
        (c : Connector) {c1 : Connector}
        → stop c ≡ some c1
        → (c1.connect_wanted ≡ false) × (c1.new_connections ≡ c.new_connections)
    stop_lem c e = unfold stop stop_in_loop reset_and_retry remove_and_reset_channel in ground arith

    later :
        (hs : List Happening) (c : Connector) {c2 : Connector}
        → c.connect_wanted ≡ false
        → happen_all hs c ≡ some c2
        → (c2.connect_wanted ≡ false) × (c2.new_connections ≡ c.new_connections)
    later [] c q f = ground arith
    later (h ∷ hs) c {c2} q f = elim (Option-cases (happen h c)) [
      | inl n ↦ absurd (let g : none ≡ some c2 = rw (n) at (f) in cc)
      | inr (d, g) ↦
          let (qd, sd) = happen_quiet h c q g in
          let (q2, s2) = later hs d qd (rw (g) at (f)) in (q2, s2 ∙ sd)
    ]

-- A connector that has no channel yet fails where its attempt is refused at once: `ResetAndRetry` calls
-- the null channel.
pub connect_refused :
    (c : Connector)
    → c.connect_wanted ≡ false
    → c.state ≡ disconnected
    → c.channel ≡ false
    → connect retry_later c ≡ none
unfolding connect connect_in_loop answered reset_and_retry remove_and_reset_channel
connect_refused c w s n = rw (w, s, n) refl

-- A connecting connector that is stopped and connected again before the loop runs its posted tasks
-- loses its new channel to the `ResetChannel` of the old one: it is connecting, its channel is still
-- watched by the loop, but is destroyed.
pub reconnect_loses_channel :
    (c : Connector)
    → c.connect_wanted ≡ true
    → c.state ≡ connecting
    → c.channel ≡ true
    → Returns
        (stop c >>= λ c'. connect in_progress c' >>= λ c''. happen resets_channel c'')
        (λ d. (d.state ≡ connecting) × (d.watched ≡ true) × (d.channel ≡ false))
unfolding stop stop_in_loop connect connect_in_loop answered reset_and_retry
    remove_and_reset_channel reset_channel happen
reconnect_loses_channel c w s h = rw (w, s, h, Returns) (refl, refl, refl)
