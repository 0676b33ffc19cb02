-- ===== src/Tcp/Server.antt =====
-- netty/TcpServer.cc and common/events/EventLoopThreadPool.cc: the table of connections of the one server
-- of a process, and the loops that they are given to. Connections and loops are numbers. A connection
-- itself is that of `Tcp.Connection`: here it is established and destroyed in its loop, and it closes
-- at most once. The end of the server is left out.
pub mod Balance
mod Tests
use claire.Prelude.{
  ℕ, suc, Bool, true, false, not, ◌&&◌, List, [], ◌∷◌, ◌++◌, Option, none, some, leb, if◌then◌else◌,
  ◌>>=◌, length, get_elem?, is_nil, has, find, keys, erase_key, assign,
}
use claire.Prelude.Int.{ℤ, pos, ◌+ℤ◌, ◌-ℤ◌, ltb_ℤ}

pub record LoopPool : Type 0 where
  pub base_loop : ℕ
  pub loops : List ℕ
  pub next : ℕ

-- `NextLoop`; `loops_[next_++]` beyond the end has no result.
unfoldable pub next_loop : LoopPool → Option (ℕ × LoopPool)
next_loop p =
    if is_nil p.loops
    then some (p.base_loop, p)
    else (get_elem? p.loops p.next >>= λ loop.
        some
          (loop, record p { next = if leb (length p.loops) (suc p.next) then 0 else suc p.next }))

-- `removals` are the tasks of `RemoveConnectionInLoop` that wait, `established` and `destroyed` the
-- connections that were, with their loops, and `refused` the sockets that were shut down.
pub record TcpServer : Type 0 where
  pub pool : LoopPool
  pub next_id : ℕ
  pub connections : List (ℕ × ℕ)
  pub total_connections : ℤ
  pub max_input_connections : ℕ
  pub removals : List ℕ
  pub established : List (ℕ × ℕ)
  pub destroyed : List (ℕ × ℕ)
  pub refused : ℕ

abbrev pub new_server : LoopPool → ℕ → TcpServer
new_server pool max = record {
  pool = pool;
  next_id = 1;
  connections = [];
  total_connections = pos 0;
  max_input_connections = max;
  removals = [];
  established = [];
  destroyed = [];
  refused = 0;
}

-- A connection in the loop that the pool gives.
abbrev pub connect_in : ℕ × LoopPool → TcpServer → TcpServer
connect_in (loop, pool) s = record s {
  pool = pool;
  total_connections = s.total_connections +ℤ pos 1;
  connections = assign s.next_id loop s.connections;
  established = s.established ++ (s.next_id, loop) ∷ [];
  next_id = suc s.next_id;
}

unfoldable pub new_connection : TcpServer → Option TcpServer
new_connection s =
    if not (ltb_ℤ s.total_connections (pos s.max_input_connections))
    then some (record s { refused = suc s.refused })
    else (next_loop s.pool >>= λ r. some (connect_in r s))

unfoldable pub remove_connection : ℕ → TcpServer → TcpServer
remove_connection id s = record s { removals = s.removals ++ id ∷ [] }

-- `RemoveConnectionInLoop`, with the loop of the connection where it is there.
unfoldable pub remove_found : Option ℕ → ℕ → TcpServer → TcpServer
remove_found none id s = record s { total_connections = s.total_connections -ℤ pos 1 }
remove_found (some loop) id s = record s {
  connections = erase_key id s.connections;
  destroyed = s.destroyed ++ (id, loop) ∷ [];
  total_connections = s.total_connections -ℤ pos 1;
}

unfoldable pub remove_connection_in_loop : ℕ → TcpServer → TcpServer
remove_connection_in_loop id s = remove_found (find id s.connections) id s

-- The loop runs the next of the tasks.
unfoldable pub run_removal : List ℕ → TcpServer → TcpServer
run_removal [] s = s
run_removal (id ∷ ids) s = remove_connection_in_loop id (record s { removals = ids })
