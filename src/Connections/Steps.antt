-- ===== src/Connections/Steps.antt =====
-- The writer and the reader of a connection of internal/platform/bridge/connections.go, as steps of
-- what can happen to the connection next, in whatever order the goroutines run.
use service_backend.Prelude.{
  ◌-◌, ◌≡◌, Bool, true, false, Option, none, some, List, [], ◌∷◌, ◌++◌, length,
}
use service_backend.Connections.{
  Bytes, selecting, took, writes, beating, pinged, beaten, returned, reads, cleans, Connection,
  close, Verdict, ignores, closes_off, fits, judge, begin_send, enqueue, is_free,
}

-- the writer returns, and closes the connection
abbrev pub quit : Connection → Connection
quit c = record (close c) { writer = returned }

-- the two parts of the Send of the heartbeat
abbrev pub begin_beat : Verdict → Connection → Connection
begin_beat ignores c = quit c
begin_beat closes_off c = quit c
begin_beat (fits payload) c = record c { writer = beating payload }

abbrev pub end_beat : Bool × Connection → Connection
end_beat (true, c) = record c { writer = beaten }
end_beat (false, c) = quit c

-- One step of the writer. The select may choose any case that is ready; the writes and the ping
-- succeed or fail as the socket likes, and onCheck answers what it likes.
pub data Writes : Connection → Connection → Type 0 where
  sees_done : (c : Connection) → c.writer ≡ selecting → c.done ≡ true → Writes c (quit c)
  takes :
      (c : Connection) (payload : Bytes) (rest : List Bytes)
      → c.writer ≡ selecting
      → c.queue ≡ payload ∷ rest
      → Writes c (record c { queue = rest; writer = took payload })
  accounts :
      (c : Connection) (payload : Bytes)
      → c.writer ≡ took payload
      → is_free c ≡ true
      → Writes c
          (record c { queued_bytes = c.queued_bytes - length payload; writer = writes payload })
  succeeds :
      (c : Connection) (payload : Bytes)
      → c.writer ≡ writes payload
      → Writes c (record c { written = c.written ++ payload ∷ []; writer = selecting })
  fails : (c : Connection) (payload : Bytes) → c.writer ≡ writes payload → Writes c (quit c)
  ticks : (c : Connection) → c.writer ≡ selecting → Writes c (record c { writer = pinged })
  ping_fails : (c : Connection) → c.writer ≡ selecting → Writes c (quit c)
  beats :
      (c : Connection) (heartbeat : Option Bytes)
      → c.writer ≡ pinged
      → is_free c ≡ true
      → Writes c (begin_beat (judge heartbeat c) c)
  beat_sent :
      (c : Connection) (payload : Bytes)
      → c.writer ≡ beating payload
      → Writes c (end_beat (enqueue payload c))
  is_valid : (c : Connection) → c.writer ≡ beaten → Writes c (record c { writer = selecting })
  is_invalid : (c : Connection) → c.writer ≡ beaten → Writes c (quit c)

-- One step of anyone else: the two parts of Send, and Close, from outside, and the reader, which goes
-- on after a text message that onMessage takes and cleans up after anything else.
pub data Touches : Connection → Connection → Type 0 where
  sends :
      (c : Connection) (message : Option Bytes)
      → is_free c ≡ true
      → Touches c (begin_send (judge message c) c)
  is_sent :
      (c : Connection) (payload : Bytes)
      → c.sender ≡ some payload
      → Touches c (record (enqueue payload c).1 { sender = none })
  closes : (c : Connection) → Touches c (close c)
  receives :
      (c : Connection) (b : Bool)
      → c.reader ≡ reads b
      → Touches c (record c { reader = reads true })
  ends :
      (c : Connection) (b : Bool)
      → c.reader ≡ reads b
      → Touches c (record (close c) { reader = cleans })

pub data Moves : Connection → Connection → Type 0 where
  by_writer : (c d : Connection) → Writes c d → Moves c d
  by_others : (c d : Connection) → Touches c d → Moves c d
