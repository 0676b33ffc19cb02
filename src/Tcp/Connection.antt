-- ===== src/Tcp/Connection.antt =====
-- netty/TcpConnection.cc and .h: one connection in its event loop. A buffer is the list of bytes that
-- it holds (`Buffer.Content` has the operations by what they do to these bytes). What the system
-- answers to a `read` or a `write` is an argument of the call. `sent` is what the kernel has taken,
-- `calls` the user's callbacks that were run or posted, and `pending` the tasks that other threads
-- posted for this connection. A callback's own calls of the connection are later operations.
pub mod Stream
pub mod Invariant
pub mod Steps
pub mod Drained
mod Tests
use claire.Prelude.{
  ℕ, ◌+◌, ◌≡◌, Bool, true, false, not, ◌&&◌, ◌||◌, List, [], ◌∷◌, ◌++◌, Option, none, some, ltb,
  ◌==◌, if◌then◌else◌, ◌>>=◌, ◌>>◌, check, length, take, drop,
}

pub data ConnState : Type 0 where
  disconnected disconnecting connecting connected : ConnState

-- The result of `::write`: so many bytes, or -1 with `EWOULDBLOCK`, with `EPIPE` or `ECONNRESET`, or
-- with another error.
pub data WriteResult : Type 0 where
  wrote : ℕ → WriteResult
  would_block broken write_failed : WriteResult

-- The result of `::recvmsg`: some bytes, the end of the stream, or -1.
pub data ReadResult : Type 0 where
  got : ℕ → List ℕ → ReadResult
  end_of_stream read_failed : ReadResult

pub data Call : Type 0 where
  connection_callback : ConnState → Call
  message_callback : List ℕ → Call
  write_complete_callback close_callback : Call
  high_watermark_callback : ℕ → Call

pub data Task : Type 0 where
  send_task : List ℕ → Task
  shutdown_task : Task

-- Which callbacks are set, and what the message callback leaves of the input.
pub record Config : Type 0 where
  pub on_connection : Bool
  pub on_message : Option (List ℕ → List ℕ)
  pub on_write_complete : Bool
  pub on_high_watermark : Bool
  pub on_close : Bool
  pub watermark : ℕ

pub record Connection : Type 0 where
  pub state : ConnState
  pub reading : Bool
  pub writing : Bool
  -- The poller has the channel: from its first update on, until it is removed.
  pub registered : Bool
  pub input : List ℕ
  pub output : List (List ℕ)
  pub sent : List ℕ
  pub write_shut : Bool
  pub calls : List Call
  pub pending : List Task

abbrev pub is_disconnected : ConnState → Bool
is_disconnected disconnected = true
is_disconnected _ = false

abbrev pub is_disconnecting : ConnState → Bool
is_disconnecting disconnecting = true
is_disconnecting _ = false

abbrev pub is_connected : ConnState → Bool
is_connected connected = true
is_connected _ = false

abbrev pub is_connecting : ConnState → Bool
is_connecting connecting = true
is_connecting _ = false

abbrev pub is_nil {ℓ} : {A : Type ℓ} → List A → Bool
is_nil [] = true
is_nil (x ∷ xs) = false

-- A callback that is set is called.
abbrev pub call_if : Bool → Call → Connection → Connection
call_if true k c = record c { calls = c.calls ++ k ∷ [] }
call_if false k c = c

unfoldable pub new_connection : Connection
new_connection = record {
  state = connecting;
  reading = false;
  writing = false;
  registered = false;
  input = [];
  output = [];
  sent = [];
  write_shut = false;
  calls = [];
  pending = [];
}

-- `OutputBufferSize`.
unfoldable pub output_size : List (List ℕ) → ℕ
output_size [] = 0
output_size (b ∷ bs) = length b + output_size bs

-- `output_buffers_.back().Append`, on a new buffer where there is none.
unfoldable pub append_last : List (List ℕ) → List ℕ → List (List ℕ)
append_last [] ys = ys ∷ []
append_last (b ∷ []) ys = (b ++ ys) ∷ []
append_last (b ∷ b' ∷ bs) ys = b ∷ append_last (b' ∷ bs) ys

module _ (k : Config) where
  -- The bytes from `data + nwrote` on that are still to be queued, and the connection after the try.
  -- After an error `nwrote` is -1, so the first of them is the byte before the data.
  abbrev pub try_write : ℕ → List ℕ → WriteResult → Connection → Option (List ℕ) × Connection
  try_write before xs (wrote n) c = (
    some (drop n xs),
    call_if (length xs == n && k.on_write_complete) write_complete_callback
        (record c { sent = c.sent ++ take n xs }),
  )
  try_write before xs would_block c = (some (take (length xs) (before ∷ xs)), c)
  try_write before xs write_failed c = (some (take (length xs) (before ∷ xs)), c)
  try_write before xs broken c = (none, c)

  -- A write is tried only where nothing waits to be written.
  unfoldable pub attempt : ℕ → List ℕ → WriteResult → Connection → Option (List ℕ) × Connection
  attempt before xs r c =
      if not c.writing && is_nil c.output then try_write before xs r c else (some xs, c)

  unfoldable pub queue_rest : Option (List ℕ) → Connection → Connection
  queue_rest none c = c
  queue_rest (some []) c = c
  queue_rest (some (y ∷ ys)) c =
      let left = output_size c.output in
      let remaining = length (y ∷ ys) in
      let c' =
        call_if (ltb k.watermark (left + remaining) && ltb left k.watermark && k.on_high_watermark)
          (high_watermark_callback (left + remaining)) c in
      record c' { output = append_last c'.output (y ∷ ys); writing = true; registered = true }

  -- `SendInLoop(data, length)`; `before` is the byte in memory before `data`.
  unfoldable pub send_in_loop : ℕ → List ℕ → WriteResult → Connection → Connection
  unfolding attempt queue_rest
  send_in_loop before xs r c =
      if is_disconnected c.state
      then c
      else (let (rest, c') = attempt before xs r c in queue_rest rest c')

  -- `SendInLoop(Buffer&)`.
  unfoldable pub send_buffer_in_loop : ℕ → List ℕ → WriteResult → Connection → Option Connection
  unfolding send_in_loop
  send_buffer_in_loop before xs r c =
      if c.writing
      then (do check (not (is_nil c.output)); some (record c { output = c.output ++ xs ∷ [] }))
      else some (send_in_loop before xs r c)

  -- `Send(Buffer*)`, from the loop's thread or from another.
  unfoldable pub send_buffer : Bool → ℕ → List ℕ → WriteResult → Connection → Option Connection
  unfolding send_buffer_in_loop
  send_buffer in_loop before xs r c =
      if in_loop
      then send_buffer_in_loop before xs r c
      else some (record c { pending = c.pending ++ send_task xs ∷ [] })

  -- `Send(const StringPiece&)`.
  unfoldable pub send_string : Bool → ℕ → List ℕ → WriteResult → Connection → Connection
  unfolding send_in_loop
  send_string in_loop before xs r c =
      if not (is_connected c.state)
      then c
      else if in_loop
      then send_in_loop before xs r c
      else record c { pending = c.pending ++ send_task xs ∷ [] }

unfoldable pub shutdown_in_loop : Connection → Connection
shutdown_in_loop c = if not c.writing then record c { write_shut = true } else c

-- `Shutdown`: only the first call on a connected connection does something.
unfoldable pub shutdown : Bool → Connection → Connection
unfolding shutdown_in_loop
shutdown in_loop c =
    if is_connected c.state
    then (let c' = record c { state = disconnecting } in
        if in_loop
        then shutdown_in_loop c'
        else record c' { pending = c'.pending ++ shutdown_task ∷ [] })
    else c

module _ (k : Config) where
  -- The loop runs the oldest posted task.
  unfoldable pub run_pending : ℕ → WriteResult → Connection → Option Connection
  unfolding send_buffer_in_loop shutdown_in_loop
  run_pending before r c = elim c.pending [
    | [] ↦ some c
    | send_task xs ∷ ts ↦ send_buffer_in_loop k before xs r (record c { pending = ts })
    | shutdown_task ∷ ts ↦ some (shutdown_in_loop (record c { pending = ts }))
  ]

  unfoldable pub connect_established : Connection → Option Connection
  connect_established c = do
    check (is_connecting c.state)
    some (
        call_if k.on_connection (connection_callback connected)
          (record c { state = connected; reading = true; registered = true }))

  -- Where the client or the server destroys it while it is connected, it is told. `RemoveChannel` has
  -- the channel in its table, and it is one that waits for nothing.
  unfoldable pub connect_destroyed : Connection → Option Connection
  connect_destroyed c =
      let c' =
        if is_connected c.state
        then call_if k.on_connection (connection_callback disconnected)
            (record c { state = disconnected; reading = false; writing = false; registered = true })
        else c in
      check (c'.registered && not (c'.reading || c'.writing))
      >> some (record c' { registered = false })

  unfoldable pub on_close : Connection → Option Connection
  on_close c = do
    check (not (is_disconnected c.state))
    some (
        call_if k.on_close close_callback (
          call_if k.on_connection (connection_callback disconnected) (record c {
            state = disconnected;
            reading = false;
            writing = false;
            registered = true;
          })))

  -- `OnRead`; `OnError` only writes to the log.
  unfoldable pub on_read : ReadResult → Connection → Option Connection
  unfolding on_close
  on_read (got x xs) c =
      let input = c.input ++ x ∷ xs in
      some (elim k.on_message [
        | none ↦ record c { input = [] }
        | some handle ↦ record c {
          input = handle input;
          calls = c.calls ++ message_callback input ∷ [];
        }
      ])
  on_read end_of_stream c = on_close c
  on_read read_failed c = some c

-- The loop of `OnWrite` over what the system answers to each `write`. A write that takes nothing is
-- tried again. `none`: the loop has not ended by the last answer.
unfoldable pub flush : List WriteResult → List (List ℕ) → List ℕ → Option (List (List ℕ) × List ℕ)
flush rs [] sent = some ([], sent)
flush [] (b ∷ bs) sent = none
flush (wrote n ∷ rs) (b ∷ bs) sent =
    let sent' = sent ++ take n b in
    let next = flush rs bs sent' in
    let again = flush rs (b ∷ bs) sent in
    if n == 0 then again else if length (drop n b) == 0 then next else some (drop n b ∷ bs, sent')
flush (_ ∷ rs) (b ∷ bs) sent = flush rs (b ∷ bs) sent

module _ (k : Config) where
  -- What `OnWrite` does behind its loop.
  unfoldable pub written : Connection → Connection
  unfolding shutdown_in_loop
  written c =
      if is_nil c.output
      then (let c' =
            call_if k.on_write_complete write_complete_callback (record c { writing = false }) in
          if is_disconnecting c'.state then shutdown_in_loop c' else c')
      else c

  unfoldable pub on_write : List WriteResult → Connection → Option Connection
  on_write rs c =
      if c.writing
      then (do
        (out, sent) ← flush rs c.output c.sent
        some (written (record c { output = out; sent = sent })))
      else some c
