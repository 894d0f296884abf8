-- ===== src/Connections/Bounds.antt =====
-- What a connection of internal/platform/bridge/connections.go holds at most.
use service_backend.Prelude.{
  ℕ, ◌+◌, ◌*◌, ◌≤◌, ◌<◌, ◌≡◌, ◌⊎◌, refl, sym, ap, ◌∙◌, not, ◌&&◌, is_some, subst, Bool, true, false,
  Option, none, some, List, [], ◌∷◌, ◌++◌, length, length-append, Bool-cases, by_test, inl, inr,
  arith, ltb, if◌then◌else◌,
}
use service_backend.Connections.{
  Bytes, WriterState, selecting, took, writes, beating, pinged, beaten, returned, cleans,
  Connection, close, Verdict, ignores, closes_off, fits, admit, judge, begin_send, enqueue,
  is_beating, is_free, pushed, max_message_bytes, queue_capacity,
}
use service_backend.Connections.Steps.{
  quit, begin_beat, end_beat, Writes, sees_done, takes, accounts, succeeds, fails, ticks,
  ping_fails, beats, beat_sent, is_valid, is_invalid, Touches, sends, is_sent, closes, receives,
  ends, Moves, by_writer, by_others,
}

-- the bytes in the queue, and those of a payload that is not accounted for yet
abbrev pub total : List Bytes → ℕ
total [] = 0
total (payload ∷ rest) = length payload + total rest

abbrev pub pending : WriterState → ℕ
pending (took payload) = length payload
pending w = 0

-- the bytes of a payload that a Send is about to put into the queue
abbrev pub in_send : Option Bytes → ℕ
in_send none = 0
in_send (some payload) = length payload

abbrev pub in_beat : WriterState → ℕ
in_beat (beating payload) = length payload
in_beat w = 0

-- a writer that has returned, or a reader that cleans up, has closed the connection
abbrev pub IsEnding : Connection → Type 0
IsEnding c = ((c.writer ≡ returned) ⊎ (c.reader ≡ cleans)) → c.done ≡ true

pub record IsBounded (c : Connection) : Type 0 where
  pub bytes : c.queued_bytes ≡ total c.queue + pending c.writer
  pub limit : c.queued_bytes + in_send c.sender + in_beat c.writer ≤ 2 * max_message_bytes
  pub room : length c.queue ≤ queue_capacity
  pub once : c.socket_closes ≡ (if c.done then 1 else 0)
  pub ending : IsEnding c

total-append : (xs ys : List Bytes) → total (xs ++ ys) ≡ total xs + total ys
total-append [] ys = omega arith
total-append (x ∷ xs) ys = omega (arith, total-append xs ys)

abbrev closed_now : Connection → Connection
closed_now c = record c { done = true; socket_closes = c.socket_closes + 1 }

pub close-cases :
    (c : Connection)
    → ((c.done ≡ true) × (close c ≡ c)) ⊎ ((c.done ≡ false) × (close c ≡ closed_now c))
unfolding close
close-cases c = elim (Bool-cases c.done) [
  | inl is_done ↦ inl (is_done, ap (λ (b : Bool). if b then c else closed_now c) is_done)
  | inr running ↦ inr (running, ap (λ (b : Bool). if b then c else closed_now c) running)
]

-- what the first part of Send has found
pub data Judged (c : Connection) : Verdict → Type 0 where
  refused : c.done ≡ true → Judged c ignores
  closed : Judged c closes_off
  admitted :
      (payload : Bytes)
      → c.done ≡ false
      → c.queued_bytes + length payload ≤ 2 * max_message_bytes
      → Judged c (fits payload)

admit-Judged : (payload : Bytes) (c : Connection) → Judged c (admit payload c)
unfolding admit
admit-Judged payload c =
    by_test (Judged c) c.done _ _ (λ d. refused d)
      λ running.
        by_test (Judged c) (ltb (2 * max_message_bytes) (c.queued_bytes + length payload)) _ _
          (λ _. closed) λ small. admitted payload running (ground (arith, small))

pub judge-Judged : (message : Option Bytes) (c : Connection) → Judged c (judge message c)
unfolding judge
judge-Judged none c = closed
judge-Judged (some payload) c =
    by_test (Judged c) (ltb max_message_bytes (length payload)) _ _ (λ _. closed)
      λ _. admit-Judged payload c

-- what the second part of Send has done
pub data Enqueued (payload : Bytes) (c : Connection) : Bool × Connection → Type 0 where
  is_full : Enqueued payload c (false, close c)
  is_taken : length c.queue < queue_capacity → Enqueued payload c (true, pushed payload c)

pub enqueue-Enqueued : (payload : Bytes) (c : Connection) → Enqueued payload c (enqueue payload c)
unfolding enqueue
enqueue-Enqueued payload c =
    by_test (Enqueued payload c) (ltb (length c.queue) queue_capacity) _ _
      (λ room. is_taken (ground (arith, room))) λ _. is_full

-- who has a free lock holds no payload
free_parts :
    (o : Option Bytes) (w : WriterState)
    → (not (is_some o) && not (is_beating w)) ≡ true
    → (in_send o ≡ 0) × (in_beat w ≡ 0)
free_parts (some payload) w h = cc h
free_parts none (beating payload) h = cc h
free_parts none (took payload) h = (refl, refl)
free_parts none (writes payload) h = (refl, refl)
free_parts none selecting h = (refl, refl)
free_parts none pinged h = (refl, refl)
free_parts none beaten h = (refl, refl)
free_parts none returned h = (refl, refl)

pub close-done : (c : Connection) → (close c).done ≡ true
close-done c = elim (close-cases c) [
  | inl (is_done, same) ↦ ap (λ (x : Connection). x.done) same ∙ is_done
  | inr (running, same) ↦ ap (λ (x : Connection). x.done) same
]

pub close-writer : (c : Connection) → (close c).writer ≡ c.writer
close-writer c = elim (close-cases c) [
  | inl (is_done, same) ↦ ap (λ (x : Connection). x.writer) same
  | inr (running, same) ↦ ap (λ (x : Connection). x.writer) same
]

close-IsBounded : (c : Connection) → IsBounded c → IsBounded (close c)
close-IsBounded c v = elim (close-cases c) [
  | inl (is_done, same) ↦ subst IsBounded (sym same) v
  | inr (running, same) ↦ subst IsBounded (sym same) (record {
    bytes = v.bytes;
    limit = v.limit;
    room = v.room;
    once = omega (arith, rw running at v.once);
    ending = λ _. refl;
  })
]

with_writer-IsBounded :
    (c : Connection) (w : WriterState)
    → pending w ≡ pending c.writer
    → in_beat w ≤ in_beat c.writer
    → (w ≡ returned → c.done ≡ true)
    → IsBounded c
    → IsBounded (record c { writer = w })
with_writer-IsBounded c w same fewer stop v = record {
  bytes = omega (arith, v.bytes, same);
  limit = omega (arith, v.limit, fewer);
  room = v.room;
  once = v.once;
  ending = λ e. elim e [ inl gone ↦ stop gone | inr cleaning ↦ v.ending (inr cleaning) ];
}

-- the Send from outside, in its two parts
begin_send-IsBounded :
    (c : Connection) (v : Verdict)
    → is_free c ≡ true
    → Judged c v
    → IsBounded c
    → IsBounded (begin_send v c)
begin_send-IsBounded c _ free (refused _) v = v
begin_send-IsBounded c _ free closed v = close-IsBounded c v
begin_send-IsBounded c _ free (admitted payload running small) v = record {
  bytes = v.bytes;
  limit = omega (arith, small, (free_parts c.sender c.writer free).1);
  room = v.room;
  once = v.once;
  ending = v.ending;
}

sent-IsBounded :
    (payload : Bytes) (c : Connection) (r : Bool × Connection)
    → c.sender ≡ some payload
    → Enqueued payload c r
    → IsBounded c
    → IsBounded (record r.1 { sender = none })
sent-IsBounded payload c _ held is_full v =
    let w = close-IsBounded c v in
    record {
      bytes = w.bytes;
      limit = omega (arith, w.limit);
      room = w.room;
      once = w.once;
      ending = w.ending;
    }
sent-IsBounded payload c _ held (is_taken room) v = record {
  bytes = omega (arith, v.bytes, total-append c.queue (payload ∷ []));
  limit = omega (arith, v.limit, ap in_send held);
  room = omega (arith, room, length-append c.queue (payload ∷ []));
  once = v.once;
  ending = v.ending;
}

-- the writer returns with nothing in its hands
quit-IsBounded : (c : Connection) → pending c.writer ≡ 0 → IsBounded c → IsBounded (quit c)
quit-IsBounded c none_held v =
    with_writer-IsBounded (close c) returned (omega (arith, ap pending (close-writer c), none_held))
      (omega arith) (λ _. close-done c) (close-IsBounded c v)

-- the Send of the heartbeat, in its two parts
begin_beat-IsBounded :
    (c : Connection) (v : Verdict)
    → c.writer ≡ pinged
    → is_free c ≡ true
    → Judged c v
    → IsBounded c
    → IsBounded (begin_beat v c)
begin_beat-IsBounded c _ at_ping free (refused _) v = quit-IsBounded c (ap pending at_ping) v
begin_beat-IsBounded c _ at_ping free closed v = quit-IsBounded c (ap pending at_ping) v
begin_beat-IsBounded c _ at_ping free (admitted payload running small) v = record {
  bytes = omega (arith, v.bytes, ap pending at_ping);
  limit = omega (arith, small, (free_parts c.sender c.writer free).0);
  room = v.room;
  once = v.once;
  ending = λ e. elim e [ inl gone ↦ cc gone | inr cleaning ↦ v.ending (inr cleaning) ];
}

end_beat-IsBounded :
    (payload : Bytes) (c : Connection) (r : Bool × Connection)
    → c.writer ≡ beating payload
    → Enqueued payload c r
    → IsBounded c
    → IsBounded (end_beat r)
end_beat-IsBounded payload c _ held is_full v =
    quit-IsBounded (close c) (ap pending (close-writer c ∙ held)) (close-IsBounded c v)
end_beat-IsBounded payload c _ held (is_taken room) v = record {
  bytes = omega (arith, v.bytes, total-append c.queue (payload ∷ []), ap pending held);
  limit = omega (arith, v.limit, ap in_beat held);
  room = omega (arith, room, length-append c.queue (payload ∷ []));
  once = v.once;
  ending = λ e. elim e [ inl gone ↦ cc gone | inr cleaning ↦ v.ending (inr cleaning) ];
}

Writes-IsBounded : (c d : Connection) → Writes c d → IsBounded c → IsBounded d
Writes-IsBounded _ _ (sees_done c at_select is_done) v = quit-IsBounded c (ap pending at_select) v
Writes-IsBounded _ _ (takes c payload rest at_select queued) v = record {
  bytes = omega (arith, v.bytes, ap pending at_select, ap total queued);
  limit = omega (arith, v.limit, ap in_beat at_select);
  room = omega (arith, v.room, ap length queued);
  once = v.once;
  ending = λ e. elim e [ inl gone ↦ cc gone | inr cleaning ↦ v.ending (inr cleaning) ];
}
Writes-IsBounded _ _ (accounts c payload held free) v = record {
  bytes = omega (arith, v.bytes, ap pending held);
  limit = omega (arith, v.limit, ap in_beat held);
  room = v.room;
  once = v.once;
  ending = λ e. elim e [ inl gone ↦ cc gone | inr cleaning ↦ v.ending (inr cleaning) ];
}
Writes-IsBounded _ _ (succeeds c payload held) v = record {
  bytes = omega (arith, v.bytes, ap pending held);
  limit = omega (arith, v.limit, ap in_beat held);
  room = v.room;
  once = v.once;
  ending = λ e. elim e [ inl gone ↦ cc gone | inr cleaning ↦ v.ending (inr cleaning) ];
}
Writes-IsBounded _ _ (fails c payload held) v = quit-IsBounded c (ap pending held) v
Writes-IsBounded _ _ (ticks c at_select) v =
    with_writer-IsBounded c pinged (sym (ap pending at_select)) (omega arith) (λ e. cc e) v
Writes-IsBounded _ _ (ping_fails c at_select) v = quit-IsBounded c (ap pending at_select) v
Writes-IsBounded _ _ (beats c heartbeat at_ping free) v =
    begin_beat-IsBounded c _ at_ping free (judge-Judged heartbeat c) v
Writes-IsBounded _ _ (beat_sent c payload held) v =
    end_beat-IsBounded payload c _ held (enqueue-Enqueued payload c) v
Writes-IsBounded _ _ (is_valid c at_beat) v =
    with_writer-IsBounded c selecting (sym (ap pending at_beat)) (omega arith) (λ e. cc e) v
Writes-IsBounded _ _ (is_invalid c at_beat) v = quit-IsBounded c (ap pending at_beat) v

Touches-IsBounded : (c d : Connection) → Touches c d → IsBounded c → IsBounded d
Touches-IsBounded _ _ (sends c message free) v =
    begin_send-IsBounded c _ free (judge-Judged message c) v
Touches-IsBounded _ _ (is_sent c payload held) v =
    sent-IsBounded payload c _ held (enqueue-Enqueued payload c) v
Touches-IsBounded _ _ (closes c) v = close-IsBounded c v
Touches-IsBounded _ _ (receives c b reading) v = record {
  bytes = v.bytes;
  limit = v.limit;
  room = v.room;
  once = v.once;
  ending = λ e. elim e [ inl gone ↦ v.ending (inl gone) | inr cleaning ↦ cc cleaning ];
}
Touches-IsBounded _ _ (ends c b reading) v =
    let w = close-IsBounded c v in
    record {
      bytes = w.bytes;
      limit = w.limit;
      room = w.room;
      once = w.once;
      ending = λ e. close-done c;
    }

-- Whatever happens to a connection next, it stays within its bounds.
pub Moves-IsBounded : (c d : Connection) → Moves c d → IsBounded c → IsBounded d
Moves-IsBounded _ _ (by_writer c d step) v = Writes-IsBounded c d step v
Moves-IsBounded _ _ (by_others c d step) v = Touches-IsBounded c d step v
