-- ===== src/Connections.antt =====
-- internal/platform/bridge/connections.go: the WebSocket connections below the debug bridge. Each
-- has a queue of at most 32 payloads, a writer, which empties the queue and sends the heartbeat, and
-- a reader. This file has one connection and what Send and Close do to it.
--
-- `writer` and `reader` say how far the two goroutines of a connection have come. `accepted` and
-- `written` are logs that the code does not keep: the payloads that Send took, and those that
-- WriteMessage carried out. A payload is its bytes; json.Marshal's answer is an argument. Deadlines
-- and the sizes that the socket itself refuses are the socket's.
pub mod Steps
pub mod Registry
pub mod Bounds
pub mod Order
pub mod Stopping
pub mod Shutdown
pub mod Final
mod Tests
use service_backend.Prelude.{
  ℕ, ◌+◌, ◌*◌, Bool, true, false, not, ◌&&◌, is_some, Option, none, some, List, [], ◌∷◌, ◌++◌,
  length, ltb, if◌then◌else◌,
}

abbrev pub max_message_bytes : ℕ
max_message_bytes = 16 * 1024 * 1024

-- the capacity of the channel `queue`
abbrev pub queue_capacity : ℕ
queue_capacity = 32

abbrev pub Bytes : Type 0
Bytes = List ℕ

-- where the writer stands: in its select, with a payload that it has taken from the queue, with one
-- that it has accounted for, after a ping, in the Send of its heartbeat, after that, or returned
pub data WriterState : Type 0 where
  selecting pinged beaten returned : WriterState
  took writes beating : Bytes → WriterState

-- where Serve stands: in its loop, with or without a first message, or in its deferred cleanup
pub data ReaderState : Type 0 where
  reads : Bool → ReaderState
  cleans : ReaderState

-- connection. `sender` is the payload of a Send that holds the lock of the connection between its
-- test of `done` and its send on the channel; the writer's own Send is its state `beating`.
pub record Connection : Type 0 where
  pub queue : List Bytes
  pub done : Bool
  pub queued_bytes : ℕ
  pub socket_closes : ℕ
  pub writer : WriterState
  pub reader : ReaderState
  pub sender : Option Bytes
  pub accepted : List Bytes
  pub written : List Bytes

-- what Serve makes, and the two goroutines in their loops
abbrev pub fresh : Connection
fresh = record {
  queue = [];
  done = false;
  queued_bytes = 0;
  socket_closes = 0;
  writer = selecting;
  reader = reads false;
  sender = none;
  accepted = [];
  written = [];
}

-- close, once
unfoldable pub close : Connection → Connection
close c = if c.done then c else record c { done = true; socket_closes = c.socket_closes + 1 }

-- the send on the channel
abbrev pub pushed : Bytes → Connection → Connection
pushed payload c = record c {
  queue = c.queue ++ payload ∷ [];
  queued_bytes = c.queued_bytes + length payload;
  accepted = c.accepted ++ payload ∷ [];
}

-- what Send finds before its send on the channel: nothing to do, a reason to close, or a payload
pub data Verdict : Type 0 where
  ignores closes_off : Verdict
  fits : Bytes → Verdict

-- Send under the connection's lock, up to its send on the channel
unfoldable pub admit : Bytes → Connection → Verdict
admit payload c =
    if c.done
    then ignores
    else if ltb (2 * max_message_bytes) (c.queued_bytes + length payload)
    then closes_off
    else fits payload

-- Send once the connection is found, up to its send on the channel; the payload is what json.Marshal
-- makes of the message
unfoldable pub judge : Option Bytes → Connection → Verdict
unfolding admit
judge none c = closes_off
judge (some payload) c =
    if ltb max_message_bytes (length payload) then closes_off else admit payload c

-- the first part of a Send from outside
abbrev pub begin_send : Verdict → Connection → Connection
begin_send ignores c = c
begin_send closes_off c = close c
begin_send (fits payload) c = record c { sender = some payload }

-- the second part of Send: another goroutine may have closed the connection in between
unfoldable pub enqueue : Bytes → Connection → Bool × Connection
unfolding close
enqueue payload c =
    if ltb (length c.queue) queue_capacity then (true, pushed payload c) else (false, close c)

abbrev pub is_beating : WriterState → Bool
is_beating (beating payload) = true
is_beating w = false

-- whether the lock of the connection is free
abbrev pub is_free : Connection → Bool
is_free c = not (is_some c.sender) && not (is_beating c.writer)
