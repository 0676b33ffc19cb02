-- ===== src/Tcp/Connector.antt =====
-- netty/Connector.cc: one client's attempts to connect, in the loop's thread. What `connect` answers
-- and what the socket says of its error are arguments. A call of a channel that is null is `none`, as
-- a failed check is. `resets` counts the posted calls of `ResetChannel`, and `new_connections` those of
-- the new-connection callback. The delay of a retry is random and left out.
pub mod Stopped
mod Tests
use claire.Prelude.{
  ℕ, suc, ◌+◌, ◌-◌, ◌≡◌, Bool, true, false, not, ◌&&◌, ◌||◌, Option, none, some, if◌then◌else◌,
  ◌>>=◌, ◌>>◌, check,
}

pub data ConnectorState : Type 0 where
  disconnected connecting connected : ConnectorState

-- What `connect` answers: 0; EINPROGRESS, EINTR or EISCONN; EAGAIN, EADDRINUSE, EADDRNOTAVAIL,
-- ECONNREFUSED or ENETUNREACH; or another error.
pub data ConnectAnswer : Type 0 where
  at_once in_progress retry_later other_error : ConnectAnswer

pub record Connector : Type 0 where
  pub connect_wanted : Bool
  pub state : ConnectorState
  pub channel : Bool
  pub watched : Bool
  pub retry_timer : Bool
  pub connect_timer : Bool
  pub callback_set : Bool
  pub new_connections : ℕ
  pub resets : ℕ

abbrev pub is_disconnected : ConnectorState → Bool
is_disconnected disconnected = true
is_disconnected _ = false

abbrev pub is_connecting : ConnectorState → Bool
is_connecting connecting = true
is_connecting _ = false

unfoldable pub new_connector : Bool → Connector
new_connector callback = record {
  connect_wanted = false;
  state = disconnected;
  channel = false;
  watched = false;
  retry_timer = false;
  connect_timer = false;
  callback_set = callback;
  new_connections = 0;
  resets = 0;
}

unfoldable pub remove_and_reset_channel : Connector → Option Connector
remove_and_reset_channel c =
    check c.channel >> some (record c { watched = false; resets = suc c.resets })

unfoldable pub reset_channel : Connector → Connector
reset_channel c = record c { channel = false; resets = c.resets - 1 }

-- Where the connector is still wanted, a timer calls `ConnectInLoop` later.
unfoldable pub reset_and_retry : Connector → Option Connector
reset_and_retry c = remove_and_reset_channel c >>= λ c'.
    some (record c' { state = disconnected; retry_timer = c'.connect_wanted || c'.retry_timer })

unfoldable pub answered : ConnectAnswer → Connector → Option Connector
answered at_once c = some (record c { state = connecting; channel = true; watched = true })
answered in_progress c =
    some (record c { state = connecting; channel = true; watched = true; connect_timer = true })
answered retry_later c = reset_and_retry c
answered other_error c = some c

unfoldable pub connect_in_loop : ConnectAnswer → Connector → Option Connector
connect_in_loop r c =
    check (is_disconnected c.state) >> (if not c.connect_wanted then some c else answered r c)

unfoldable pub connect : ConnectAnswer → Connector → Option Connector
connect r c =
    if c.connect_wanted then some c else connect_in_loop r (record c { connect_wanted = true })

unfoldable pub stop_in_loop : Connector → Option Connector
stop_in_loop c =
    if is_connecting c.state then reset_and_retry (record c { state = disconnected }) else some c

unfoldable pub stop : Connector → Option Connector
stop c = if c.connect_wanted then stop_in_loop (record c { connect_wanted = false }) else some c

unfoldable pub restart : ConnectAnswer → Connector → Option Connector
restart r c = connect_in_loop r (record c { state = disconnected; connect_wanted = true })

-- The socket is connected: the callback is called where one is set and the connector is wanted.
unfoldable pub report : Connector → Connector
report c = record c {
  state = connected;
  new_connections =
      if c.connect_wanted && c.callback_set then suc c.new_connections else c.new_connections;
}

-- `failed` says whether the socket has an error or is connected to itself.
unfoldable pub on_write : Bool → Connector → Option Connector
on_write failed c =
    check c.channel
    >> (let c' = record c { connect_timer = false } in
        if is_connecting c.state
        then (remove_and_reset_channel c' >>= λ d.
            (if failed then reset_and_retry d else some (report d)))
        else check (is_disconnected c.state) >> some c')

unfoldable pub on_error : Connector → Option Connector
on_error c = check c.channel >> (check (is_connecting c.state) >> reset_and_retry c)

unfoldable pub on_connect_timeout : Connector → Option Connector
on_connect_timeout c = on_error (record c { connect_timer = false })

-- What can happen to a connector, apart from `Connect` and `Restart`: `Stop`, its two timers, its
-- channel's events, and the posted `ResetChannel`.
pub data Happening : Type 0 where
  stops errs times_out resets_channel : Happening
  retries : ConnectAnswer → Happening
  writable : Bool → Happening

unfoldable pub happen : Happening → Connector → Option Connector
happen stops c = stop c
happen errs c = on_error c
happen times_out c = on_connect_timeout c
happen resets_channel c = some (reset_channel c)
happen (retries r) c = connect_in_loop r c
happen (writable failed) c = on_write failed c
