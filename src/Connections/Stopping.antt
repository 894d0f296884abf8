-- ===== src/Connections/Stopping.antt =====
-- How a closed connection of internal/platform/bridge/connections.go comes to its end.
use service_backend.Prelude.{
  ℕ, suc, ◌+◌, ◌*◌, ◌≤◌, ◌<◌, ◌≡◌, ◌⊎◌, refl, sym, ap, ◌∙◌, subst, Bool, true, Option, none, some,
  [], ◌∷◌, length, length-append, inl, inr, arith,
}
use service_backend.Connections.{
  Bytes, WriterState, selecting, took, writes, beating, pinged, beaten, returned, cleans,
  Connection, close, Verdict, begin_send, enqueue,
}
use service_backend.Connections.Steps.{
  quit, begin_beat, end_beat, Writes, sees_done, takes, accounts, succeeds, fails, ticks,
  ping_fails, beats, beat_sent, is_valid, is_invalid, Touches, sends, is_sent, closes, receives,
  ends, Moves, by_writer, by_others,
}
use service_backend.Connections.Bounds.{
  close-cases, close-done, Judged, refused, closed, admitted, judge-Judged, Enqueued, is_full,
  is_taken, enqueue-Enqueued,
}

abbrev pub stage : WriterState → ℕ
stage returned = 0
stage selecting = 2
stage pinged = 1
stage beaten = 3
stage (writes payload) = 3
stage (took payload) = 4
stage (beating payload) = 7

-- a Send that is already past its test may still fill the queue
abbrev pub still_sends : Option Bytes → ℕ
still_sends none = 0
still_sends (some payload) = 4

-- how many steps the writer of a closed connection and that Send have left at most
abbrev pub steps_left : Connection → ℕ
steps_left c = 3 * length c.queue + still_sends c.sender + stage c.writer

-- a closed connection is not closed again
closed_same : (c : Connection) → c.done ≡ true → close c ≡ c
closed_same c is_done = elim (close-cases c) [
  | inl (_, same) ↦ same
  | inr (running, _) ↦ cc (sym is_done ∙ running)
]

-- and lets no Send begin
closed_judged : (c : Connection) (v : Verdict) → c.done ≡ true → Judged c v → begin_send v c ≡ c
closed_judged c _ is_done (refused _) = refl
closed_judged c _ is_done closed = closed_same c is_done
closed_judged c _ is_done (admitted _ running _) = cc (sym is_done ∙ running)

-- being closed, with fewer steps left
abbrev Nearer : ℕ → Connection → Type 0
Nearer n d = (d.done ≡ true) × (steps_left d < n)

closed_quit : (c : Connection) → c.done ≡ true → 0 < stage c.writer → Nearer (steps_left c) (quit c)
closed_quit c is_done runs = (
  close-done c,
  subst (λ (d : Connection). 3 * length d.queue + still_sends d.sender + 0 < steps_left c)
      (sym (closed_same c is_done)) (omega (arith, runs)),
)

closed_beat :
    (c : Connection) (v : Verdict)
    → c.done ≡ true
    → c.writer ≡ pinged
    → Judged c v
    → Nearer (steps_left c) (begin_beat v c)
closed_beat c _ is_done at_ping (refused _) =
    closed_quit c is_done (omega (arith, ap stage at_ping))
closed_beat c _ is_done at_ping closed = closed_quit c is_done (omega (arith, ap stage at_ping))
closed_beat c _ is_done at_ping (admitted _ running _) = cc (sym is_done ∙ running)

closed_end_beat :
    (payload : Bytes) (c : Connection) (r : Bool × Connection)
    → c.done ≡ true
    → c.writer ≡ beating payload
    → Enqueued payload c r
    → Nearer (steps_left c) (end_beat r)
closed_end_beat payload c _ is_done held is_full =
    subst (λ (d : Connection). Nearer (steps_left c) (quit d)) (sym (closed_same c is_done))
      (closed_quit c is_done (omega (arith, ap stage held)))
closed_end_beat payload c _ is_done held (is_taken room) =
    (is_done, omega (arith, ap stage held, length-append c.queue (payload ∷ [])))

closed_push :
    (payload : Bytes) (c : Connection) (r : Bool × Connection)
    → c.done ≡ true
    → c.sender ≡ some payload
    → Enqueued payload c r
    → Nearer (steps_left c) (record r.1 { sender = none })
closed_push payload c _ is_done held is_full =
    subst (λ (d : Connection). Nearer (steps_left c) (record d { sender = none }))
      (sym (closed_same c is_done)) (is_done, omega (arith, ap still_sends held))
closed_push payload c _ is_done held (is_taken room) =
    (is_done, omega (arith, ap still_sends held, length-append c.queue (payload ∷ [])))

-- each step of its writer is one less, and it stays closed
pub closed_writes :
    (c d : Connection)
    → c.done ≡ true
    → Writes c d
    → (d.done ≡ true) × (steps_left d < steps_left c)
closed_writes _ _ is_done (sees_done c at_select _) =
    closed_quit c is_done (omega (arith, ap stage at_select))
closed_writes _ _ is_done (takes c payload rest at_select queued) =
    (is_done, omega (arith, ap stage at_select, ap length queued))
closed_writes _ _ is_done (accounts c payload held free) = (is_done, omega (arith, ap stage held))
closed_writes _ _ is_done (succeeds c payload held) = (is_done, omega (arith, ap stage held))
closed_writes _ _ is_done (fails c payload held) =
    closed_quit c is_done (omega (arith, ap stage held))
closed_writes _ _ is_done (ticks c at_select) = (is_done, omega (arith, ap stage at_select))
closed_writes _ _ is_done (ping_fails c at_select) =
    closed_quit c is_done (omega (arith, ap stage at_select))
closed_writes _ _ is_done (beats c heartbeat at_ping free) =
    closed_beat c _ is_done at_ping (judge-Judged heartbeat c)
closed_writes _ _ is_done (beat_sent c payload held) =
    closed_end_beat payload c _ is_done held (enqueue-Enqueued payload c)
closed_writes _ _ is_done (is_valid c at_beat) = (is_done, omega (arith, ap stage at_beat))
closed_writes _ _ is_done (is_invalid c at_beat) =
    closed_quit c is_done (omega (arith, ap stage at_beat))

-- nobody else gives the writer of a closed connection more to do
closed_others :
    (c d : Connection)
    → c.done ≡ true
    → Touches c d
    → (d.done ≡ true) × (steps_left d ≤ steps_left c)
closed_others _ _ is_done (sends c message free) =
    subst (λ (d : Connection). (d.done ≡ true) × (steps_left d ≤ steps_left c))
      (sym (closed_judged c _ is_done (judge-Judged message c))) (is_done, omega arith)
closed_others _ _ is_done (is_sent c payload held) =
    let (stays, less) = closed_push payload c _ is_done held (enqueue-Enqueued payload c) in
    (stays, omega (arith, less))
closed_others _ _ is_done (closes c) =
    subst (λ (d : Connection). (d.done ≡ true) × (steps_left d ≤ steps_left c))
      (sym (closed_same c is_done)) (is_done, omega arith)
closed_others _ _ is_done (receives c b reading) = (is_done, omega arith)
closed_others _ _ is_done (ends c b reading) =
    subst
      (λ (d : Connection).
        (d.done ≡ true) × (steps_left (record d { reader = cleans }) ≤ steps_left c))
      (sym (closed_same c is_done)) (is_done, omega arith)

-- the steps of the writer, and of a Send that holds the lock
pub data Finishes : Connection → Connection → Type 0 where
  writer_goes : (c d : Connection) → Writes c d → Finishes c d
  send_ends :
      (c : Connection) (payload : Bytes)
      → c.sender ≡ some payload
      → Finishes c (record (enqueue payload c).1 { sender = none })

pub Finishes-closes :
    (c d : Connection)
    → c.done ≡ true
    → Finishes c d
    → (d.done ≡ true) × (steps_left d < steps_left c)
Finishes-closes _ _ is_done (writer_goes c d step) = closed_writes c d is_done step
Finishes-closes _ _ is_done (send_ends c payload held) =
    closed_push payload c _ is_done held (enqueue-Enqueued payload c)

-- A history of a connection: `n` of its steps are those of `Finishes`.
pub data History : ℕ → Connection → Connection → Type 0 where
  starts : (c : Connection) → History 0 c c
  finishes : (n : ℕ) (c d e : Connection) → History n c d → Finishes d e → History (suc n) c e
  others_go : (n : ℕ) (c d e : Connection) → History n c d → Touches d e → History n c e

History-left :
    (n : ℕ) (c d : Connection)
    → c.done ≡ true
    → History n c d
    → (d.done ≡ true) × (n + steps_left d ≤ steps_left c)
History-left _ _ _ is_done (starts c) = (is_done, omega arith)
History-left _ _ _ is_done (finishes n c d e before step) =
    let (stays, left) = History-left n c d is_done before in
    let (ends_closed, less) = Finishes-closes d e stays step in
    (ends_closed, omega (arith, left, less))
History-left _ _ _ is_done (others_go n c d e before step) =
    let (stays, left) = History-left n c d is_done before in
    let (ends_closed, less) = closed_others d e stays step in
    (ends_closed, omega (arith, left, less))

stage_bounds : (w : WriterState) → stage w ≤ 7
stage_bounds selecting = omega arith
stage_bounds pinged = omega arith
stage_bounds beaten = omega arith
stage_bounds returned = omega arith
stage_bounds (took payload) = omega arith
stage_bounds (writes payload) = omega arith
stage_bounds (beating payload) = omega arith

sends_bounds : (o : Option Bytes) → still_sends o ≤ 4
sends_bounds none = omega arith
sends_bounds (some payload) = omega arith

-- until it returns, the writer of a closed connection goes on when no other Send holds the lock
pub writer_goes_on :
    (c : Connection)
    → c.done ≡ true
    → c.sender ≡ none
    → (w : WriterState) → c.writer ≡ w
    → (c.writer ≡ returned) ⊎ ((d : Connection) × Writes c d)
writer_goes_on c is_done alone selecting e = inr (quit c, sees_done c e is_done)
writer_goes_on c is_done alone pinged e = inr (_, beats c none e (rw (alone, e)))
writer_goes_on c is_done alone beaten e = inr (quit c, is_invalid c e)
writer_goes_on c is_done alone returned e = inl e
writer_goes_on c is_done alone (took payload) e = inr (_, accounts c payload e (rw (alone, e)))
writer_goes_on c is_done alone (writes payload) e = inr (quit c, fails c payload e)
writer_goes_on c is_done alone (beating payload) e = inr (_, beat_sent c payload e)

pub goes_on :
    (c : Connection)
    → c.done ≡ true
    → (o : Option Bytes) → c.sender ≡ o
    → (c.writer ≡ returned) ⊎ ((d : Connection) × Finishes c d)
goes_on c is_done (some payload) held = inr (_, send_ends c payload held)
goes_on c is_done none alone = elim (writer_goes_on c is_done alone c.writer refl) [
  | inl gone ↦ inl gone
  | inr (d, step) ↦ inr (d, writer_goes c d step)
]

-- Once a connection is closed, its writer, and a Send that had passed its test before, make at most 3
-- steps for each queued payload and 11 more, in every order of what happens, whatever is sent
-- meanwhile; and as long as the writer has not returned, one of them has a next step. Hence the writer
-- returns.
pub closed_writer_returns :
    (n : ℕ) (c d : Connection)
    → c.done ≡ true
    → History n c d
    → (d.done ≡ true)
      × (n ≤ 3 * length c.queue + 11)
      × ((d.writer ≡ returned) ⊎ ((e : Connection) × Finishes d e))
closed_writer_returns n c d is_done h =
    let (stays, left) = History-left n c d is_done h in
    (
      stays,
      omega (arith, left, stage_bounds c.writer, sends_bounds c.sender),
      goes_on d stays d.sender refl,
    )

-- a closed connection stays closed
pub closed_move : (c d : Connection) → c.done ≡ true → Moves c d → d.done ≡ true
closed_move _ _ is_done (by_writer c d step) = (closed_writes c d is_done step).0
closed_move _ _ is_done (by_others c d step) = (closed_others c d is_done step).0
