-- ===== src/Commands/Fifo.antt =====
-- The command queue is a FIFO queue: what it holds is a list, pushes append to it, pops take its front.
use c_trpc.Base.{
  suc, ◌<◌, ◌≡◌, refl, ap, sym, ◌∙◌, [], ◌∷◌, ◌++◌, set, none, some, true, false, not, ◌==◌,
  if_true, if_false, arith,
}
use c_trpc.Base.Ring.{window, window-push}
use mathlib.Core.List.{append-nil}
use c_trpc.Status.{ok, again, err_closed}
use c_trpc.Commands.{
  Command, zero_command, CommandQueue, observe_full, observe_push, enqueue, push, push_stop, inc32,
  next_nonzero, cmd_stop,
}
use c_trpc.Commands.Invariant.{IsQueue, contents, stamped}

contents-enqueue :
    (q : CommandQueue) (c : Command)
    → IsQueue q
    → q.count < q.capacity
    → q.stop_pending ≡ false
    → contents (enqueue q c).1 ≡ contents q ++ (stamped q c ∷ [])
unfolding enqueue observe_push
contents-enqueue q c v h n =
    let d = zero_command in
    rw n (
      append-nil (window d q.capacity (set q.items q.tail (stamped q c)) q.head (inc32 q.count))
      ∙ ap (λ k. window d q.capacity (set q.items q.tail (stamped q c)) q.head k)
          (let e : inc32 q.count ≡ suc q.count = omega (arith, h, v.capacity_fits) in e)
      ∙ ap (λ j. window d q.capacity (set q.items j (stamped q c)) q.head (suc q.count))
          v.tail_behind
      ∙ window-push d q.capacity q.items q.head q.count (stamped q c) v.head_inside h v.items_length
      ∙ ap (λ l. l ++ (stamped q c ∷ []))
          (sym (append-nil (window d q.capacity q.items q.head q.count))))

pub push_closed :
    (q : CommandQueue) (c : Command) → q.stop_closed ≡ true → push q c ≡ (err_closed, q, none)
unfolding push
push_closed q c h = if_true q.stop_closed _ _ h

push_full :
    (q : CommandQueue) (c : Command)
    → q.stop_closed ≡ false
    → q.count ≡ q.capacity
    → push q c ≡ (again, observe_full q c, none)
unfolding push
push_full q c h k =
    if_false q.stop_closed _ _ h ∙ if_true (q.count == q.capacity) _ _ (ground arith)

push_room :
    (q : CommandQueue) (c : Command)
    → q.stop_closed ≡ false
    → q.count < q.capacity
    → push q c ≡ enqueue q c
unfolding push
push_room q c h k =
    if_false q.stop_closed _ _ h ∙ if_false (q.count == q.capacity) _ _ (ground arith)

contents-observe_full : (q : CommandQueue) (c : Command) → contents (observe_full q c) ≡ contents q
unfolding observe_full
contents-observe_full q c = refl

enqueue_ok : (q : CommandQueue) (c : Command) → (enqueue q c).0 ≡ ok
unfolding enqueue
enqueue_ok q c = refl

-- For a well-formed queue: a push into an open round with room is accepted: it appends the command, with the next sequence
-- number, to what waits. It is refused, and changes nothing that waits, when the ring is full or
-- STOP has closed the round.
pub push-contents :
    (q : CommandQueue) (c : Command)
    → IsQueue q
    → (q.stop_closed ≡ true → push q c ≡ (err_closed, q, none))
      × (q.stop_closed ≡ false
          → q.count ≡ q.capacity
          → ((push q c).0 ≡ again) × (contents (push q c).1 ≡ contents q))
      × (q.stop_closed ≡ false
          → q.count < q.capacity
          → ((push q c).0 ≡ ok) × (contents (push q c).1 ≡ contents q ++ (stamped q c ∷ [])))
push-contents q c v = (
  push_closed q c,
  (λ o full. rw (push_full q c o full) (refl, contents-observe_full q c)),
  (λ o room.
      rw (push_room q c o room) (enqueue_ok q c, contents-enqueue q c v room (not_stopping o))),
)
  where
    not_stopping : q.stop_closed ≡ false → q.stop_pending ≡ false
    not_stopping o = ground (arith, v.closed_by_stop)

-- The queue once STOP has its slot.
abbrev stop_slotted : CommandQueue → Command → CommandQueue
stop_slotted q c =
    observe_push
      (record q {
        stop_command = stamped q c;
        next_sequence = next_nonzero q.next_sequence;
        stop_pending = true;
        stop_closed = true;
        wait_accepting = false;
        wake_pending = true;
      })
      c

push_stop_accepted :
    (q : CommandQueue) (c : Command)
    → c.type ≡ cmd_stop
    → q.stop_closed ≡ false
    → push_stop q c ≡ (ok, stop_slotted q c, some (not q.wake_pending))
unfolding push_stop
push_stop_accepted q c t o =
    if_false (not (c.type == cmd_stop)) _ _ (ground arith) ∙ if_false q.stop_closed _ _ o

contents-stop_slotted :
    (q : CommandQueue) (c : Command)
    → q.stop_pending ≡ false
    → contents (stop_slotted q c) ≡ contents q ++ (stamped q c ∷ [])
unfolding observe_push
contents-stop_slotted q c n = rw n (
    ap (λ l. l ++ (stamped q c ∷ []))
      (sym (append-nil (window zero_command q.capacity q.items q.head q.count))))

-- In a round that is open STOP is accepted by a well-formed queue, with room or without: it is
-- appended behind every command that waits.
pub push_stop-contents :
    (q : CommandQueue) (c : Command)
    → IsQueue q
    → c.type ≡ cmd_stop
    → q.stop_closed ≡ false
    → ((push_stop q c).0 ≡ ok) × (contents (push_stop q c).1 ≡ contents q ++ (stamped q c ∷ []))
push_stop-contents q c v t o =
    rw (push_stop_accepted q c t o)
      (refl, contents-stop_slotted q c (ground (arith, v.closed_by_stop)))
