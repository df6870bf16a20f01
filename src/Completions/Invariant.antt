-- ===== src/Completions/Invariant.antt =====
-- What every operation of the completion queue keeps.
use c_trpc.Base.{
  ℕ, ◌+◌, ◌-◌, ◌%◌, ◌^◌, ◌≤◌, ◌<◌, ◌≡◌, ap, ◌∙◌, List, [], length, length-set, length-replicate,
  Bool, true, false, not, ◌==◌, arith,
}
use c_trpc.Base.Ring.{place, step-place, window}
use c_trpc.Status.{ok}
use c_trpc.Commands.{Resources, inc32}
use c_trpc.Completions.{
  Completion, zero_completion, CompletionQueue, init, queue_open, queue_close, enqueue, push,
  Waiting, asleep, returned, push_wait_test, push_wait, push_wait_woken,
}

pub record IsQueue (q : CompletionQueue) : Type 0 where
  pub has_room : 0 < q.capacity
  pub capacity_fits : q.capacity < 2 ^ 32
  pub items_length : length q.items ≡ q.capacity
  pub head_inside : q.head < q.capacity
  pub bounded : q.count ≤ q.capacity
  pub tail_behind : q.tail ≡ place q.capacity q.head q.count
  pub peak_seen : (q.count ≤ q.peak_count) × (q.peak_count ≤ q.capacity)
  -- No wake-up is lost: one is pending exactly while there is something to take.
  pub wake_is_due : q.wake_pending ≡ not (q.count == 0)

-- The completions that wait, in the order in which they leave.
abbrev pub contents : CompletionQueue → List Completion
contents q = window zero_completion q.capacity q.items q.head q.count

pub init-IsQueue :
    (env : Resources) (q q' : CompletionQueue) (capacity : ℕ)
    → capacity < 2 ^ 32
    → init env q capacity ≡ (ok, q')
    → IsQueue q' × (contents q' ≡ [])
unfolding init
init-IsQueue env q q' capacity h e = ground (arith, length-replicate capacity zero_completion)

next_tail :
    (q : CompletionQueue)
    → IsQueue q
    → q.count < q.capacity
    → inc32 q.tail % q.capacity ≡ place q.capacity q.head (q.count + 1)
next_tail q v h =
    ap (λ k. k % q.capacity) (ground arith)
    ∙ ap (λ k. (k + 1) % q.capacity) v.tail_behind
    ∙ step-place q.capacity q.head q.count v.head_inside h

pub enqueue-IsQueue :
    (q : CompletionQueue) (c : Completion)
    → IsQueue q
    → q.count < q.capacity
    → IsQueue (enqueue q c).1
unfolding enqueue
enqueue-IsQueue q c v h = ground (arith, next_tail q v h, length-set q.items q.tail c)

-- The queue that a waiting call leaves.
abbrev pub queue_of : Waiting → CompletionQueue
queue_of (asleep q) = q
queue_of (returned a) = a.1

pub push-IsQueue : (q : CompletionQueue) (c : Completion) → IsQueue q → IsQueue (push q c).1
unfolding push
push-IsQueue q c v = ground (arith, enqueue-IsQueue q c v)

push_wait_test-IsQueue :
    (q : CompletionQueue) (c : Completion) (expected : ℕ) (waited : Bool)
    → IsQueue q
    → IsQueue (queue_of (push_wait_test q c expected waited))
unfolding push_wait_test
push_wait_test-IsQueue q c expected waited v = ground (arith, enqueue-IsQueue q c v)

pub push_wait-IsQueue :
    (q : CompletionQueue) (c : Completion) (expected : ℕ)
    → IsQueue q
    → IsQueue (queue_of (push_wait q c expected))
unfolding push_wait
push_wait-IsQueue q c expected v = ground (arith, push_wait_test-IsQueue q c expected false v)

pub push_wait_woken-IsQueue :
    (q : CompletionQueue) (c : Completion) (expected : ℕ) (error : Bool)
    → IsQueue q
    → IsQueue (queue_of (push_wait_woken q c expected error))
unfolding push_wait_woken
push_wait_woken-IsQueue q c expected error v = ground (
  arith,
  push_wait_test-IsQueue (record q { waiters = (q.waiters + (2 ^ 32 - 1)) % 2 ^ 32 }) c expected
      true,
)

pub queue_open-IsQueue : (q : CompletionQueue) → IsQueue q → IsQueue (queue_open q).1
unfolding queue_open
queue_open-IsQueue q v = ground arith

queue_close-IsQueue : (q : CompletionQueue) → IsQueue q → IsQueue (queue_close q)
unfolding queue_close
queue_close-IsQueue q v = ground arith
