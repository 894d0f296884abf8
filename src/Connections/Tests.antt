-- ===== src/Connections/Tests.antt =====
-- One connection that is sent a payload, one that is closed between the two parts of a Send, and a
-- registry that is stopped.
use service_backend.Prelude.{◌+◌, ◌*◌, ◌≤◌, ◌≡◌, ◌⊎◌, refl, true, none, some, [], ◌∷◌, length}
use service_backend.Prelude.Map.{get, put, delete}
use service_backend.Connections.{
  Bytes, Connection, fresh, close, admit, judge, begin_send, enqueue, returned,
}
use service_backend.Connections.Steps.{by_others, sends, is_sent, sees_done, quit}
use service_backend.Connections.Stopping.{
  Finishes, writer_goes, send_ends, starts, finishes, closed_writer_returns,
}
use service_backend.Connections.Registry
use service_backend.Connections.Registry.{
  Connections, initial, register, stop, Step, Reach, now, after,
}
use service_backend.Connections.Shutdown.{IsSound, Reach-IsSound}
use service_backend.Connections.Final.{shutdown_final}

abbrev payload : Bytes
payload = 1 ∷ 2 ∷ 3 ∷ []

-- a Send that holds the lock, and what it leaves
abbrev held : Connection
held = begin_send (judge (some payload) fresh) fresh

abbrev filled : Connection
filled = record (enqueue payload held).1 { sender = none }

abbrev with_peer : Connection → Connections → Connections
with_peer c st = record st { peers = put "a" c st.peers }

-- a socket is served, and a payload is sent to it
abbrev served : Connections
served = with_peer filled (with_peer held (register "a" initial).1)

-- the payload has come into the queue
is_filled : filled.queue ≡ payload ∷ []
unfolding judge admit enqueue
is_filled = refl

served-Reach : Reach served
unfolding get put delete register judge admit
served-Reach =
    Registry.goes _ _
      (Registry.goes _ _ (Registry.goes _ _ Registry.starts (Registry.registers "a" initial refl)) (
        Registry.moves "a" fresh held (register "a" initial).1 refl
          (by_others fresh held (sends fresh (some payload) refl))))
      (Registry.moves "a" held filled (with_peer held (register "a" initial).1) refl
        (by_others held filled (is_sent held payload refl)))

Reach-IsSound_example : IsSound served
Reach-IsSound_example = Reach-IsSound served served-Reach

abbrev idle : Connections
idle = stop initial

idle-Reach : Reach idle
idle-Reach = Registry.goes _ _ Registry.starts (Registry.stops initial)

-- a socket that comes too late
abbrev late : Connections
late = (register "b" idle).1

shutdown_final_example : (late.peers ≡ []) × (late.leaving ≡ 0) × (late.serving ≡ 0)
unfolding get stop
shutdown_final_example =
    shutdown_final idle late idle-Reach refl refl
      (after idle late now (Registry.registers "b" idle refl))

-- closed while a Send is between its two parts
abbrev closing : Connection
closing = close (record fresh { sender = some payload })

abbrev pushed_late : Connection
pushed_late = record (enqueue payload closing).1 { sender = none }

-- the payload is in the queue of a closed connection
is_late : (pushed_late.queue ≡ payload ∷ []) × (pushed_late.done ≡ true)
unfolding close enqueue
is_late = (refl, refl)

closed_writer_returns_example :
    ((quit pushed_late).done ≡ true)
    × (2 ≤ 3 * length closing.queue + 11)
    × (((quit pushed_late).writer ≡ returned) ⊎ ((e : Connection) × Finishes (quit pushed_late) e))
unfolding close enqueue
closed_writer_returns_example = closed_writer_returns 2 closing (quit pushed_late) refl (
    finishes 1 closing pushed_late (quit pushed_late)
      (finishes 0 closing closing pushed_late (starts closing) (send_ends closing payload refl))
      (writer_goes pushed_late (quit pushed_late) (sees_done pushed_late refl refl)))
