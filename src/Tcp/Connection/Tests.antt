-- ===== src/Tcp/Connection/Tests.antt =====
-- Tests of a connection, and its theorems at concrete inputs.
use claire.Prelude.{◌≡◌, refl, ◌⊎◌, inl, true, false, List, [], ◌∷◌, some, none}
use claire.Tcp.Connection.{
  Connection, Config, disconnected, disconnecting, connecting, connected, wrote, would_block,
  broken, WriteResult, got, ReadResult, send_in_loop, send_buffer_in_loop, on_write, run_pending,
  new_connection, connect_established, shutdown, flush, written, send_buffer, append_last,
  output_size,
}
use claire.Tcp.Connection.Stream.{
  stream, send_in_loop-stream, send_in_loop_would_block, on_write-stream,
}
use claire.Tcp.Connection.Invariant.{Inv}
use claire.Tcp.Connection.Steps.{
  Op, sends_buffer, becomes_writable, establishes, runs_pending, step, run, run-Inv,
}
use claire.Tcp.Connection.Drained.{shutdown_drained}

abbrev all_set : Config
all_set = record {
  on_connection = true;
  on_message = some (λ xs. []);
  on_write_complete = true;
  on_high_watermark = true;
  on_close = true;
  watermark = 3;
}

abbrev open_connection : Connection
open_connection = record {
  state = connected;
  reading = true;
  writing = false;
  registered = true;
  input = [];
  output = [];
  sent = 9 ∷ [];
  write_shut = false;
  calls = [];
  pending = [];
}

-- The user has called `Shutdown` while two buffers wait.
abbrev closing : Connection
closing = record open_connection {
  state = disconnecting;
  writing = true;
  output = (1 ∷ 2 ∷ []) ∷ (3 ∷ []) ∷ [];
  pending = [];
}

-- The kernel takes one byte of three, so two wait and the channel is watched.
partial_write :
    send_in_loop all_set 0 (5 ∷ 6 ∷ 7 ∷ []) (wrote 1) open_connection
    ≡ record open_connection { sent = 9 ∷ 5 ∷ []; output = (6 ∷ 7 ∷ []) ∷ []; writing = true }
unfolding send_in_loop append_last output_size
partial_write = refl

send_in_loop-stream_example :
    stream (send_in_loop all_set 0 (5 ∷ 6 ∷ 7 ∷ []) (wrote 1) open_connection) ≡ 9 ∷ 5 ∷ 6 ∷ 7 ∷ []
send_in_loop-stream_example = send_in_loop-stream all_set 0 1 (5 ∷ 6 ∷ 7 ∷ []) open_connection (cc)

send_in_loop_would_block_example :
    stream (send_in_loop all_set 0 (5 ∷ 6 ∷ 7 ∷ []) would_block open_connection)
    ≡ 9 ∷ 0 ∷ 5 ∷ 6 ∷ []
send_in_loop_would_block_example =
    send_in_loop_would_block all_set 0 5 (6 ∷ 7 ∷ []) would_block open_connection (cc) refl refl
      (inl refl)

abbrev closing_later : Connection
closing_later = record closing { sent = 9 ∷ 1 ∷ 2 ∷ []; output = (3 ∷ []) ∷ [] }

on_write_part : on_write all_set (wrote 2 ∷ would_block ∷ wrote 0 ∷ []) closing ≡ none
unfolding on_write flush
on_write_part = refl

on_write-stream_example :
    stream (record closing { sent = 9 ∷ 1 ∷ []; output = (2 ∷ []) ∷ (3 ∷ []) ∷ [] })
    ≡ 9 ∷ 1 ∷ 2 ∷ 3 ∷ []
unfolding on_write flush written
on_write-stream_example =
    on_write-stream all_set (wrote 1 ∷ []) closing
      {c' = record closing { sent = 9 ∷ 1 ∷ []; output = (2 ∷ []) ∷ (3 ∷ []) ∷ [] }} refl

closing-Inv : Inv closing
closing-Inv = record {
  waits = λ h. cc;
  watched = λ h k. refl;
  shut_late = λ h. inl refl;
  asked = λ h. inl refl;
  reads = λ h. cc;
  quiet = λ h. cc;
}

-- The rest goes out, and then the write side is closed.
abbrev closed : Connection
closed = record closing {
  sent = 9 ∷ 1 ∷ 2 ∷ 3 ∷ [];
  output = [];
  writing = false;
  write_shut = true;
  calls = claire.Tcp.Connection.write_complete_callback ∷ [];
}

shutdown_drained_example : (closed.output ≡ []) ⊎ (closed.state ≡ disconnected)
unfolding step on_write flush written
shutdown_drained_example =
    shutdown_drained all_set (becomes_writable (wrote 2 ∷ wrote 1 ∷ [])) closing {c' = closed}
      closing-Inv refl refl refl

-- Established, one buffer posted by another thread, and sent by the loop.
abbrev posted_send : List Op
posted_send =
    establishes ∷ sends_buffer false 0 (1 ∷ 2 ∷ []) (wrote 0) ∷ runs_pending 0 (wrote 2) ∷ []

abbrev after_posted_send : Connection
after_posted_send = record {
  state = connected;
  reading = true;
  writing = false;
  registered = true;
  input = [];
  output = [];
  sent = 1 ∷ 2 ∷ [];
  write_shut = false;
  calls =
      claire.Tcp.Connection.connection_callback connected
      ∷ claire.Tcp.Connection.write_complete_callback
      ∷ [];
  pending = [];
}

run-Inv_example : Inv after_posted_send
unfolding run step new_connection connect_established send_buffer run_pending
run-Inv_example =
    run-Inv all_set posted_send {c = after_posted_send}
      (refl, λ c e. (tt, λ c' e'. (tt, λ c'' e''. tt))) refl
