-- ===== src/Tcp/Connector/Tests.antt =====
-- Tests of a connector, and its theorems at concrete inputs.
use claire.Prelude.{◌≡◌, refl, true, false, [], ◌∷◌, none, some, ◌>>=◌, Returns}
use claire.Tcp.Connector.{
  disconnected, connecting, connected, in_progress, retry_later, Connector, new_connector,
  remove_and_reset_channel, reset_channel, reset_and_retry, answered, connect_in_loop, connect,
  stop_in_loop, stop, report, on_write, happen, resets_channel, retries, writable,
}
use claire.Tcp.Connector.Stopped.{
  happen_all, stopped_quiet, connect_refused, reconnect_loses_channel,
}

abbrev waiting_connector : Connector
waiting_connector = record {
  connect_wanted = true;
  state = connecting;
  channel = true;
  watched = true;
  retry_timer = false;
  connect_timer = true;
  callback_set = true;
  new_connections = 0;
  resets = 0;
}

-- A first attempt that the socket finds connected.
connected_test :
    (connect in_progress (new_connector true) >>= λ c. on_write false c)
    ≡ some (record waiting_connector {
      state = connected;
      watched = false;
      connect_timer = false;
      new_connections = 1;
      resets = 1;
    })
unfolding connect connect_in_loop answered on_write report remove_and_reset_channel new_connector
connected_test = refl

stopped_connector : Connector
stopped_connector = record waiting_connector {
  connect_wanted = false;
  state = disconnected;
  watched = false;
  resets = 1;
}

stop_runs : stop waiting_connector ≡ some stopped_connector
unfolding stop stop_in_loop reset_and_retry remove_and_reset_channel stopped_connector
stop_runs = refl

later_runs :
    happen_all (retries in_progress ∷ writable false ∷ resets_channel ∷ []) stopped_connector
    ≡ some (record stopped_connector { channel = false; connect_timer = false; resets = 0 })
unfolding happen connect_in_loop on_write reset_channel stopped_connector
later_runs = refl

stopped_quiet_example :
    ((record stopped_connector {
      channel = false;
      connect_timer = false;
      resets = 0;
    }).connect_wanted
      ≡ false)
    × ((record stopped_connector {
      channel = false;
      connect_timer = false;
      resets = 0;
    }).new_connections
        ≡ 0)
stopped_quiet_example =
    stopped_quiet (retries in_progress ∷ writable false ∷ resets_channel ∷ []) waiting_connector
      stop_runs later_runs

connect_refused_example : connect retry_later (new_connector true) ≡ none
unfolding new_connector
connect_refused_example = connect_refused (new_connector true) refl refl refl

reconnect_loses_channel_example :
    Returns
      (stop waiting_connector >>= λ c'. connect in_progress c' >>= λ c''. happen resets_channel c'')
      (λ d. (d.state ≡ connecting) × (d.watched ≡ true) × (d.channel ≡ false))
reconnect_loses_channel_example = reconnect_loses_channel waiting_connector refl refl refl
