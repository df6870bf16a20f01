-- ===== src/Completions.antt =====
-- src/execution/completion_queue.h and completion_queue.c: the bounded queue by which workers hand results back
-- to a reactor. A call is one step under the queue's lock; a sleep on the condition variable ends one step and
-- its wake-up begins another.
pub mod Invariant
pub mod Fifo
use c_trpc.Base.{
  ℕ, zero, suc, ◌+◌, ◌-◌, ◌%◌, ◌^◌, List, [], ◌∷◌, get_or, set, replicate, Option, none, some, Bool,
  true, false, not, ◌&&◌, ◌||◌, ltb, ◌==◌, if◌then◌else◌,
}
use c_trpc.Status.{Status, ok, again, err_invalid, err_nomem, err_closed, err_sys}
use c_trpc.Commands.{Resources, inc32, inc64, next_nonzero}

-- `struct tr_completion`. The function and its argument are named by numbers, and NULL is 0.
pub record Completion : Type 0 where
  pub fn : ℕ
  pub arg : ℕ

abbrev pub zero_completion : Completion
zero_completion = record { fn = 0; arg = 0 }

-- `struct tr_completion_queue`, but for the lock and the condition variable.
pub record CompletionQueue : Type 0 where
  pub items : List Completion
  pub capacity : ℕ
  pub head : ℕ
  pub tail : ℕ
  pub count : ℕ
  pub peak_count : ℕ
  pub full_events : ℕ
  pub admission_generation : ℕ
  pub waiters : ℕ
  pub accepting : Bool
  pub wake_pending : Bool

-- `memset(queue, 0, sizeof(*queue))`.
abbrev pub zero_completions : CompletionQueue
zero_completions = record {
  items = [];
  capacity = 0;
  head = 0;
  tail = 0;
  count = 0;
  peak_count = 0;
  full_events = 0;
  admission_generation = 0;
  waiters = 0;
  accepting = false;
  wake_pending = false;
}

-- `tr_completion_queue_init`.
unfoldable pub init : Resources → CompletionQueue → ℕ → Status × CompletionQueue
init env queue capacity =
    if capacity == 0
    then (err_invalid, queue)
    else if not env.calloc
    then (err_nomem, zero_completions)
    else if not env.mutex
    then (err_invalid, zero_completions)
    else if not env.cond
    then (err_invalid, zero_completions)
    else (
      ok,
      record zero_completions { items = replicate capacity zero_completion; capacity = capacity },
    )

-- `tr_completion_queue_destroy`.
abbrev pub destroy : CompletionQueue → CompletionQueue
destroy queue = zero_completions

-- `tr_completion_queue_open`.
unfoldable pub queue_open : CompletionQueue → Status × CompletionQueue
queue_open queue = (
  ok,
  record queue { admission_generation = next_nonzero queue.admission_generation; accepting = true },
)

-- `tr_completion_queue_close`.
unfoldable pub queue_close : CompletionQueue → CompletionQueue
queue_close queue = record queue {
  admission_generation = next_nonzero queue.admission_generation;
  accepting = false;
}

-- `tr_completion_queue_admission_generation`; the call `open_generation`.
unfoldable pub open_generation : CompletionQueue → ℕ
open_generation queue = if queue.accepting then queue.admission_generation else 0

-- What a push answers: its status, the queue, and what it stores in `*need_wake`, if it does.
abbrev pub Pushed : Type 0
Pushed = Status × CompletionQueue × Option Bool

-- The part of both pushes that stores the completion.
unfoldable pub enqueue : CompletionQueue → Completion → Pushed
enqueue queue completion =
    let count = inc32 queue.count in
    (
      ok,
      record queue {
        items = set queue.items queue.tail completion;
        tail = inc32 queue.tail % queue.capacity;
        count = count;
        peak_count = (if ltb queue.peak_count count then count else queue.peak_count);
        wake_pending = true;
      },
      some (not queue.wake_pending),
    )

-- `tr_completion_queue_push`.
unfoldable pub push : CompletionQueue → Completion → Pushed
push queue completion =
    if completion.fn == 0
    then (err_invalid, queue, none)
    else if not queue.accepting
    then (err_closed, queue, none)
    else if queue.count == queue.capacity
    then (again, record queue { full_events = inc64 queue.full_events }, none)
    else enqueue queue completion

-- Where a call of `tr_completion_queue_push_wait` stands: asleep on `not_full`, or returned.
pub data Waiting : Type 0 where
  asleep : CompletionQueue → Waiting
  returned : Pushed → Waiting

-- The loop of `tr_completion_queue_push_wait` from its test on, with `waited`, up to a sleep or a return.
unfoldable pub push_wait_test : CompletionQueue → Completion → ℕ → Bool → Waiting
push_wait_test queue completion expected waited =
    if queue.accepting && (queue.admission_generation == expected && queue.count == queue.capacity)
    then asleep (record queue {
      full_events = if waited then queue.full_events else inc64 queue.full_events;
      waiters = inc32 queue.waiters;
    })
    else if not queue.accepting || not (queue.admission_generation == expected)
    then returned (err_closed, queue, none)
    else returned (enqueue queue completion)

-- `tr_completion_queue_push_wait`, up to its first sleep or its return.
unfoldable pub push_wait : CompletionQueue → Completion → ℕ → Waiting
push_wait queue completion expected =
    if completion.fn == 0 || expected == 0
    then returned (err_invalid, queue, none)
    else push_wait_test queue completion expected false

-- A call of `tr_completion_queue_push_wait` that `pthread_cond_wait` hands the lock back to, with an
-- error or without.
unfoldable pub push_wait_woken : CompletionQueue → Completion → ℕ → Bool → Waiting
push_wait_woken queue completion expected error =
    let q = record queue { waiters = (queue.waiters + (2 ^ 32 - 1)) % 2 ^ 32 } in
    if error then returned (err_sys, q, none) else push_wait_test q completion expected true

-- The loop of `tr_completion_queue_pop_batch`, for at most so many completions.
unfoldable pub pop_items : ℕ → CompletionQueue → List Completion × CompletionQueue
pop_items zero queue = ([], queue)
pop_items (suc room) queue =
    let q = record queue { head = inc32 queue.head % queue.capacity; count = queue.count - 1 } in
    let rest = pop_items room q in
    if queue.count == 0
    then ([], queue)
    else (get_or queue.items queue.head zero_completion ∷ rest.0, rest.1)

-- `tr_completion_queue_pop_batch`: what it writes to `out`, `*has_more`, and the queue.
unfoldable pub pop_batch : CompletionQueue → ℕ → List Completion × Bool × CompletionQueue
pop_batch queue max_completions =
    let (taken, q) = pop_items max_completions queue in
    (taken, not (q.count == 0), if q.count == 0 then record q { wake_pending = false } else q)

-- Whether `tr_completion_queue_pop_batch` wakes the sleeping producers, from the queue that it found
-- and the number that it took.
abbrev pub wakes_producers : CompletionQueue → ℕ → Bool
wakes_producers queue count = not (count == 0) && not (queue.waiters == 0)
