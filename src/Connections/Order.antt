-- ===== src/Connections/Order.antt =====
-- In which order a connection of internal/platform/bridge/connections.go writes what it accepts.
use service_backend.Prelude.{
  ◌≡◌, ◌≢◌, refl, sym, ap, ◌∙◌, subst, Bool, none, List, [], ◌∷◌, ◌++◌, append_assoc, inl, inr,
}
use service_backend.Connections.{
  Bytes, WriterState, selecting, took, writes, beating, pinged, beaten, returned, Connection, close,
  Verdict, ignores, closes_off, fits, judge, begin_send, enqueue, pushed,
}
use service_backend.Connections.Steps.{
  quit, begin_beat, end_beat, Writes, sees_done, takes, accounts, succeeds, fails, ticks,
  ping_fails, beats, beat_sent, is_valid, is_invalid, Touches, sends, is_sent, closes, receives,
  ends, Moves, by_writer, by_others,
}
use service_backend.Connections.Bounds.{close-cases, Enqueued, is_full, is_taken, enqueue-Enqueued}

-- the payload that the writer is about to write
abbrev pub in_hand : WriterState → List Bytes
in_hand (took payload) = payload ∷ []
in_hand (writes payload) = payload ∷ []
in_hand w = []

-- What was accepted: first what was written; while the writer runs, the rest is what it has in its
-- hands and then the queue.
pub record IsOrdered (c : Connection) : Type 0 where
  pub lost : List Bytes
  pub prefix : c.accepted ≡ c.written ++ lost
  pub whole : c.writer ≢ returned → lost ≡ in_hand c.writer ++ c.queue

-- the connections that differ in nothing but their flags
close-IsOrdered : (c : Connection) → IsOrdered c → IsOrdered (close c)
close-IsOrdered c v = elim (close-cases c) [
  | inl (is_done, same) ↦ subst IsOrdered (sym same) v
  | inr (running, same) ↦
      subst IsOrdered (sym same) (record { lost = v.lost; prefix = v.prefix; whole = v.whole })
]

stopped-IsOrdered : (c : Connection) → IsOrdered c → IsOrdered (record c { writer = returned })
stopped-IsOrdered c v = record {
  lost = v.lost;
  prefix = v.prefix;
  whole = λ runs. elim (runs refl) [ ];
}

quit-IsOrdered : (c : Connection) → IsOrdered c → IsOrdered (quit c)
quit-IsOrdered c v = stopped-IsOrdered (close c) (close-IsOrdered c v)

pushed-IsOrdered : (payload : Bytes) (c : Connection) → IsOrdered c → IsOrdered (pushed payload c)
pushed-IsOrdered payload c v = record {
  lost = v.lost ++ payload ∷ [];
  prefix =
      ap (λ (l : List Bytes). l ++ payload ∷ []) v.prefix
      ∙ append_assoc c.written v.lost (payload ∷ []);
  whole = λ runs.
      ap (λ (l : List Bytes). l ++ payload ∷ []) (v.whole runs)
      ∙ append_assoc (in_hand c.writer) c.queue (payload ∷ []);
}

begin_send-IsOrdered : (c : Connection) (v : Verdict) → IsOrdered c → IsOrdered (begin_send v c)
begin_send-IsOrdered c ignores v = v
begin_send-IsOrdered c closes_off v = close-IsOrdered c v
begin_send-IsOrdered c (fits payload) v = record {
  lost = v.lost;
  prefix = v.prefix;
  whole = v.whole;
}

Enqueued-IsOrdered :
    (payload : Bytes) (c : Connection) (r : Bool × Connection)
    → Enqueued payload c r
    → IsOrdered c
    → IsOrdered r.1
Enqueued-IsOrdered payload c _ is_full v = close-IsOrdered c v
Enqueued-IsOrdered payload c _ (is_taken room) v = pushed-IsOrdered payload c v

sent-IsOrdered : (c : Connection) → IsOrdered c → IsOrdered (record c { sender = none })
sent-IsOrdered c v = record { lost = v.lost; prefix = v.prefix; whole = v.whole }

-- the writer goes from one place without a payload to another
idle-IsOrdered :
    (c : Connection) (w : WriterState)
    → in_hand w ≡ in_hand c.writer
    → c.writer ≢ returned
    → IsOrdered c
    → IsOrdered (record c { writer = w })
idle-IsOrdered c w same runs v = record {
  lost = v.lost;
  prefix = v.prefix;
  whole = λ _. v.whole runs ∙ ap (λ (l : List Bytes). l ++ c.queue) (sym same);
}

elsewhere : {w v : WriterState} → w ≡ v → v ≢ returned → w ≢ returned
elsewhere e other r = other (sym e ∙ r)

begin_beat-IsOrdered :
    (c : Connection) (v : Verdict) → c.writer ≡ pinged → IsOrdered c → IsOrdered (begin_beat v c)
begin_beat-IsOrdered c ignores here v = quit-IsOrdered c v
begin_beat-IsOrdered c closes_off here v = quit-IsOrdered c v
begin_beat-IsOrdered c (fits payload) here v =
    idle-IsOrdered c (beating payload) (ap in_hand (sym here)) (elsewhere here (λ e. cc e)) v

end_beat-IsOrdered :
    (payload : Bytes) (c : Connection) (r : Bool × Connection)
    → c.writer ≡ beating payload
    → Enqueued payload c r
    → IsOrdered c
    → IsOrdered (end_beat r)
end_beat-IsOrdered payload c _ here is_full v = quit-IsOrdered (close c) (close-IsOrdered c v)
end_beat-IsOrdered payload c _ here (is_taken room) v =
    idle-IsOrdered (pushed payload c) beaten (ap in_hand (sym here)) (elsewhere here (λ e. cc e))
      (pushed-IsOrdered payload c v)

takes-IsOrdered :
    (c : Connection) (payload : Bytes) (rest : List Bytes)
    → c.writer ≡ selecting
    → c.queue ≡ payload ∷ rest
    → IsOrdered c
    → IsOrdered (record c { queue = rest; writer = took payload })
takes-IsOrdered c payload rest at_select queued v = record {
  lost = v.lost;
  prefix = v.prefix;
  whole = λ _.
      v.whole (elsewhere at_select (λ e. cc e))
      ∙ ap (λ (w : WriterState). in_hand w ++ c.queue) at_select
      ∙ queued;
}

succeeds-IsOrdered :
    (c : Connection) (payload : Bytes)
    → c.writer ≡ writes payload
    → IsOrdered c
    → IsOrdered (record c { written = c.written ++ payload ∷ []; writer = selecting })
succeeds-IsOrdered c payload held v = record {
  lost = c.queue;
  prefix =
      v.prefix
      ∙ ap (λ (l : List Bytes). c.written ++ l)
          (v.whole (elsewhere held (λ e. cc e))
            ∙ ap (λ (w : WriterState). in_hand w ++ c.queue) held)
      ∙ sym (append_assoc c.written (payload ∷ []) c.queue);
  whole = λ _. refl;
}

Writes-IsOrdered : (c d : Connection) → Writes c d → IsOrdered c → IsOrdered d
Writes-IsOrdered _ _ (sees_done c at_select is_done) v = quit-IsOrdered c v
Writes-IsOrdered _ _ (takes c payload rest at_select queued) v =
    takes-IsOrdered c payload rest at_select queued v
Writes-IsOrdered _ _ (accounts c payload held free) v = record {
  lost = v.lost;
  prefix = v.prefix;
  whole = λ _.
      v.whole (elsewhere held (λ e. cc e)) ∙ ap (λ (w : WriterState). in_hand w ++ c.queue) held;
}
Writes-IsOrdered _ _ (succeeds c payload held) v = succeeds-IsOrdered c payload held v
Writes-IsOrdered _ _ (fails c payload held) v = quit-IsOrdered c v
Writes-IsOrdered _ _ (ticks c at_select) v =
    idle-IsOrdered c pinged (ap in_hand (sym at_select)) (elsewhere at_select (λ e. cc e)) v
Writes-IsOrdered _ _ (ping_fails c at_select) v = quit-IsOrdered c v
Writes-IsOrdered _ _ (beats c heartbeat at_ping free) v =
    begin_beat-IsOrdered c (judge heartbeat c) at_ping v
Writes-IsOrdered _ _ (beat_sent c payload held) v =
    end_beat-IsOrdered payload c _ held (enqueue-Enqueued payload c) v
Writes-IsOrdered _ _ (is_valid c at_beat) v =
    idle-IsOrdered c selecting (ap in_hand (sym at_beat)) (elsewhere at_beat (λ e. cc e)) v
Writes-IsOrdered _ _ (is_invalid c at_beat) v = quit-IsOrdered c v

Touches-IsOrdered : (c d : Connection) → Touches c d → IsOrdered c → IsOrdered d
Touches-IsOrdered _ _ (sends c message free) v = begin_send-IsOrdered c (judge message c) v
Touches-IsOrdered _ _ (is_sent c payload held) v =
    sent-IsOrdered (enqueue payload c).1
      (Enqueued-IsOrdered payload c _ (enqueue-Enqueued payload c) v)
Touches-IsOrdered _ _ (closes c) v = close-IsOrdered c v
Touches-IsOrdered _ _ (receives c b reading) v = record {
  lost = v.lost;
  prefix = v.prefix;
  whole = v.whole;
}
Touches-IsOrdered _ _ (ends c b reading) v =
    let w = close-IsOrdered c v in record { lost = w.lost; prefix = w.prefix; whole = w.whole }

-- Whatever happens to a connection next, it writes in the order of acceptance.
pub Moves-IsOrdered : (c d : Connection) → Moves c d → IsOrdered c → IsOrdered d
Moves-IsOrdered _ _ (by_writer c d step) v = Writes-IsOrdered c d step v
Moves-IsOrdered _ _ (by_others c d step) v = Touches-IsOrdered c d step v
