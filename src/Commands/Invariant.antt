-- ===== src/Commands/Invariant.antt =====
-- What every operation of the command queue keeps.
use c_trpc.Base.{
  ℕ, ◌+◌, ◌-◌, ◌%◌, ◌^◌, ◌≤◌, ◌<◌, ◌≡◌, ap, ◌∙◌, List, [], ◌∷◌, ◌++◌, length, length-set,
  length-replicate, Bool, true, false, not, if◌then◌else◌, arith,
}
use c_trpc.Base.Ring.{place, step-place, window}
use c_trpc.Status.{ok}
use c_trpc.Commands.{
  Command, zero_command, CommandQueue, Resources, init, observe_full, observe_push, enqueue, push,
  wait_open, wait_close, Waiting, asleep, returned, push_wait_test, push_wait, push_wait_woken,
  push_stop, is_empty, inc32, next_nonzero,
}

pub record IsQueue (q : CommandQueue) : Type 0 where
  pub has_room : 0 < q.capacity
  pub capacity_fits : q.capacity < 2 ^ 32
  pub items_length : length q.items ≡ q.capacity
  pub head_inside : q.head < q.capacity
  pub bounded : q.count ≤ q.capacity
  pub tail_behind : q.tail ≡ place q.capacity q.head q.count
  pub peak_seen : (q.count ≤ q.peak_count) × (q.peak_count ≤ q.capacity)
  -- STOP ends the round: while it waits, the queue is closed.
  pub closed_by_stop : q.stop_pending ≡ true → q.stop_closed ≡ true
  pub accepting_open : q.wait_accepting ≡ true → q.stop_closed ≡ false
  -- No wake-up is lost: one is pending exactly while there is something to take.
  pub wake_is_due : q.wake_pending ≡ not (is_empty q)

-- The commands that wait, in the order in which they leave.
abbrev pub contents : CommandQueue → List Command
contents q =
    window zero_command q.capacity q.items q.head q.count
    ++ (if q.stop_pending then q.stop_command ∷ [] else [])

pub init-IsQueue :
    (env : Resources) (q q' : CommandQueue) (capacity : ℕ)
    → capacity < 2 ^ 32
    → init env q capacity ≡ (ok, q')
    → IsQueue q' × (contents q' ≡ [])
unfolding init is_empty
init-IsQueue env q q' capacity h e = ground (arith, length-replicate capacity zero_command)

-- A command as the queue stores it next: with its sequence number.
abbrev pub stamped : CommandQueue → Command → Command
stamped q c = record c { sequence = next_nonzero q.next_sequence }

next_tail :
    (q : CommandQueue)
    → IsQueue q
    → q.count < q.capacity
    → inc32 q.tail % q.capacity ≡ place q.capacity q.head (q.count + 1)
next_tail q v h =
    ap (λ k. k % q.capacity) (ground arith)
    ∙ ap (λ k. (k + 1) % q.capacity) v.tail_behind
    ∙ step-place q.capacity q.head q.count v.head_inside h

enqueue-IsQueue :
    (q : CommandQueue) (c : Command) → IsQueue q → q.count < q.capacity → IsQueue (enqueue q c).1
unfolding enqueue observe_push is_empty
enqueue-IsQueue q c v h = ground (arith, next_tail q v h, length-set q.items q.tail (stamped q c))

-- Whatever is pushed into a well-formed queue, and whether or not it is accepted, the queue stays well
-- formed.
pub push-IsQueue : (q : CommandQueue) (c : Command) → IsQueue q → IsQueue (push q c).1
unfolding push observe_full is_empty
push-IsQueue q c v = ground (arith, enqueue-IsQueue q c v)

pub wait_open-IsQueue : (q : CommandQueue) → IsQueue q → IsQueue (wait_open q).1
unfolding wait_open is_empty
wait_open-IsQueue q v = ground arith

pub wait_close-IsQueue : (q : CommandQueue) → IsQueue q → IsQueue (wait_close q)
unfolding wait_close is_empty
wait_close-IsQueue q v = ground arith

pub push_stop-IsQueue : (q : CommandQueue) (c : Command) → IsQueue q → IsQueue (push_stop q c).1
unfolding push_stop observe_push is_empty
push_stop-IsQueue q c v = ground arith

-- The queue that a waiting call leaves.
abbrev pub queue_of : Waiting → CommandQueue
queue_of (asleep q) = q
queue_of (returned a) = a.1

push_wait_test-IsQueue :
    (q : CommandQueue) (c : Command) (expected : ℕ) (waited : Bool)
    → IsQueue q
    → IsQueue (queue_of (push_wait_test q c expected waited))
unfolding push_wait_test observe_full is_empty
push_wait_test-IsQueue q c expected waited v = ground (arith, enqueue-IsQueue q c v)

pub push_wait-IsQueue :
    (q : CommandQueue) (c : Command) (expected : ℕ)
    → IsQueue q
    → IsQueue (queue_of (push_wait q c expected))
unfolding push_wait
push_wait-IsQueue q c expected v = ground (arith, push_wait_test-IsQueue q c expected false v)

-- A waiting producer that is woken, with an error or without, keeps the queue well formed, whether it
-- enqueues, is refused or sleeps again.
pub push_wait_woken-IsQueue :
    (q : CommandQueue) (c : Command) (expected : ℕ) (error : Bool)
    → IsQueue q
    → IsQueue (queue_of (push_wait_woken q c expected error))
unfolding push_wait_woken is_empty
push_wait_woken-IsQueue q c expected error v = ground (
  arith,
  push_wait_test-IsQueue (record q { waiters = (q.waiters + (2 ^ 32 - 1)) % 2 ^ 32 }) c expected
      true,
)
