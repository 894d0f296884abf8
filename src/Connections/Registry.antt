-- ===== src/Connections/Registry.antt =====
-- Connections of internal/platform/bridge/connections.go: the registered sockets, and Serve, Close and
-- Shutdown. A locked section is a function; `Step` lets those of several goroutines come in any order.
-- Send to an id that is not registered changes nothing; to one that is, its two parts are moves of the
-- connection.
--
-- The ids that the caller draws for Serve are not in use: while its writer runs, a connection is then
-- the one registered under its id.
use service_backend.Prelude.{
  ℕ, suc, ◌+◌, ◌-◌, ◌≡◌, ◌||◌, String, Bool, true, false, Option, none, some, [], length, leb,
  if◌then◌else◌,
}
use service_backend.Prelude.Map.{Map, get, put, delete}
use service_backend.Prelude.Keys.{map_values}
use service_backend.Connections.{Connection, fresh, close, returned, cleans}
use service_backend.Connections.Steps.{Moves}

abbrev pub max_peers : ℕ
max_peers = 256

-- Connections. `serving` is the count of the wait group; `leaving` counts the calls of Serve between
-- the deletion of their connection and their return, when onClose runs.
pub record Connections : Type 0 where
  pub peers : Map Connection
  pub stopped : Bool
  pub serving : ℕ
  pub leaving : ℕ

-- NewConnections
abbrev pub initial : Connections
initial = record { peers = []; stopped = false; serving = 0; leaving = 0 }

-- Serve, up to its two loops; a refused socket is closed and not registered
unfoldable pub register : String → Connections → Bool × Connections
register id st =
    if st.stopped || leb max_peers (length st.peers)
    then (false, st)
    else (true, record st { peers = put id fresh st.peers; serving = st.serving + 1 })

abbrev pub closed_peer : String → Option Connection → Connections → Connections
closed_peer id none st = st
closed_peer id (some c) st = record st { peers = put id (close c) st.peers }

-- Close
unfoldable pub close_peer : String → Connections → Connections
close_peer id st = closed_peer id (get st.peers id) st

-- Shutdown, up to its wait
unfoldable pub stop : Connections → Connections
stop st = record st { stopped = true; peers = map_values close st.peers }

-- the deletion in the deferred function of Serve
unfoldable pub unregister : String → Connections → Connections
unregister id st = record st { peers = delete id st.peers; leaving = st.leaving + 1 }

-- wg.Done
unfoldable pub finish : Connections → Connections
finish st = record st { serving = st.serving - 1; leaving = st.leaving - 1 }

pub data Step : Connections → Connections → Type 0 where
  registers : (id : String) (st : Connections) → get st.peers id ≡ none → Step st (register id st).1
  closes : (id : String) (st : Connections) → Step st (close_peer id st)
  moves :
      (id : String) (c d : Connection) (st : Connections)
      → get st.peers id ≡ some c
      → Moves c d
      → Step st (record st { peers = put id d st.peers })
  -- the reader has come to its cleanup, and the writer has returned
  unregisters :
      (id : String) (c : Connection) (st : Connections)
      → get st.peers id ≡ some c
      → c.reader ≡ cleans
      → c.writer ≡ returned
      → Step st (unregister id st)
  finishes : (n : ℕ) (st : Connections) → st.leaving ≡ suc n → Step st (finish st)
  stops : (st : Connections) → Step st (stop st)

-- the states that a sequence of steps leads to from the empty registry
pub data Reach : Connections → Type 0 where
  starts : Reach initial
  goes : (st next : Connections) → Reach st → Step st next → Reach next

-- what a sequence of steps leads to
pub data Later (st : Connections) : Connections → Type 0 where
  now : Later st st
  after : (mid next : Connections) → Later st mid → Step mid next → Later st next
