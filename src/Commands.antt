-- ===== src/Commands.antt =====
-- src/execution/command_queue.h and command_queue.c: the bounded queue of commands to a reactor,
-- with a slot of its own for STOP. A call is one step under the queue's lock; a sleep on the
-- condition variable ends one step and its wake-up begins another.
pub mod Invariant
pub mod Fifo
pub mod Drain
pub mod Stop
use c_trpc.Base.{
  ℕ, zero, suc, ◌+◌, ◌-◌, ◌%◌, ◌^◌, List, [], ◌∷◌, ◌++◌, length, get_or, set, replicate, Option,
  none, some, Bool, true, false, not, ◌&&◌, ◌||◌, ltb, ◌==◌, if◌then◌else◌,
}
use c_trpc.Status.{Status, ok, again, err_invalid, err_nomem, err_state, err_closed, err_sys}

-- `enum tr_command_type`, as far as the queue names its constants.
abbrev pub cmd_send : ℕ
cmd_send = 2

abbrev pub cmd_resume_rx : ℕ
cmd_resume_rx = 3

abbrev pub cmd_call : ℕ
cmd_call = 8

abbrev pub cmd_stop : ℕ
cmd_stop = 9

-- `struct tr_command`. `u` names what the union holds, which the queue only copies.
pub record Command : Type 0 where
  pub type : ℕ
  pub reserved : ℕ
  pub slot : ℕ
  pub generation : ℕ
  pub sequence : ℕ
  pub u : ℕ

abbrev pub zero_command : Command
zero_command = record { type = 0; reserved = 0; slot = 0; generation = 0; sequence = 0; u = 0 }

-- The counters of `struct tr_command_queue` on its producers.
pub record Producers : Type 0 where
  pub pushed_send : ℕ
  pub full_send : ℕ
  pub pushed_resume_rx : ℕ
  pub full_resume_rx : ℕ
  pub pushed_call : ℕ
  pub full_call : ℕ
  pub pushed_other : ℕ
  pub full_other : ℕ

abbrev pub zero_producers : Producers
zero_producers = record {
  pushed_send = 0;
  full_send = 0;
  pushed_resume_rx = 0;
  full_resume_rx = 0;
  pushed_call = 0;
  full_call = 0;
  pushed_other = 0;
  full_other = 0;
}

-- `struct tr_command_queue`, but for the lock and the condition variable.
pub record CommandQueue : Type 0 where
  pub items : List Command
  pub capacity : ℕ
  pub head : ℕ
  pub tail : ℕ
  pub count : ℕ
  pub peak_count : ℕ
  pub full_events : ℕ
  pub next_sequence : ℕ
  pub wait_generation : ℕ
  pub waiters : ℕ
  pub wait_accepting : Bool
  pub producers : Producers
  pub wake_pending : Bool
  pub stop_command : Command
  pub stop_pending : Bool
  pub stop_closed : Bool

-- `memset(queue, 0, sizeof(*queue))`.
abbrev pub zero_queue : CommandQueue
zero_queue = record {
  items = [];
  capacity = 0;
  head = 0;
  tail = 0;
  count = 0;
  peak_count = 0;
  full_events = 0;
  next_sequence = 0;
  wait_generation = 0;
  waiters = 0;
  wait_accepting = false;
  producers = zero_producers;
  wake_pending = false;
  stop_command = zero_command;
  stop_pending = false;
  stop_closed = false;
}

-- Whether `calloc`, `pthread_mutex_init` and `pthread_cond_init` succeed.
pub record Resources : Type 0 where
  pub calloc : Bool
  pub mutex : Bool
  pub cond : Bool

-- `tr_command_queue_init`.
unfoldable pub init : Resources → CommandQueue → ℕ → Status × CommandQueue
init env queue capacity =
    if capacity == 0
    then (err_invalid, queue)
    else if not env.calloc
    then (err_nomem, zero_queue)
    else if not env.mutex
    then (err_invalid, zero_queue)
    else if not env.cond
    then (err_invalid, zero_queue)
    else (ok, record zero_queue { items = replicate capacity zero_command; capacity = capacity })

-- `tr_command_queue_destroy`.
abbrev pub destroy : CommandQueue → CommandQueue
destroy queue = zero_queue

-- `x++` of a `uint32_t` and of a `uint64_t`.
abbrev pub inc32 : ℕ → ℕ
inc32 x = (x + 1) % 2 ^ 32

abbrev pub inc64 : ℕ → ℕ
inc64 x = (x + 1) % 2 ^ 64

-- `x++; if (x == 0U) x = 1U;` of a `uint64_t`.
abbrev pub next_nonzero : ℕ → ℕ
next_nonzero x = if inc64 x == 0 then 1 else inc64 x

-- The switch of `tr_command_queue_observe_full_locked`.
abbrev full_of : Producers → ℕ → Producers
full_of p type =
    if type == cmd_send
    then record p { full_send = inc64 p.full_send }
    else if type == cmd_resume_rx
    then record p { full_resume_rx = inc64 p.full_resume_rx }
    else if type == cmd_call
    then record p { full_call = inc64 p.full_call }
    else record p { full_other = inc64 p.full_other }

-- `tr_command_queue_observe_full_locked`.
unfoldable pub observe_full : CommandQueue → Command → CommandQueue
observe_full queue command = record queue {
  full_events = inc64 queue.full_events;
  producers = full_of queue.producers command.type;
}

-- The switch of `tr_command_queue_observe_push_locked`.
abbrev pushed_of : Producers → ℕ → Producers
pushed_of p type =
    if type == cmd_send
    then record p { pushed_send = inc64 p.pushed_send }
    else if type == cmd_resume_rx
    then record p { pushed_resume_rx = inc64 p.pushed_resume_rx }
    else if type == cmd_call
    then record p { pushed_call = inc64 p.pushed_call }
    else record p { pushed_other = inc64 p.pushed_other }

-- `tr_command_queue_observe_push_locked`.
unfoldable pub observe_push : CommandQueue → Command → CommandQueue
observe_push queue command = record queue { producers = pushed_of queue.producers command.type }

-- What a push answers: its status, the queue, and what it stores in `*need_wake`, if it does.
abbrev pub Pushed : Type 0
Pushed = Status × CommandQueue × Option Bool

-- `tr_command_queue_enqueue_locked`.
unfoldable pub enqueue : CommandQueue → Command → Pushed
unfolding observe_push
enqueue queue command =
    let q = observe_push queue command in
    let sequence = next_nonzero q.next_sequence in
    let count = inc32 q.count in
    (
      ok,
      record q {
        next_sequence = sequence;
        items = set q.items q.tail (record command { sequence = sequence });
        tail = inc32 q.tail % q.capacity;
        count = count;
        peak_count = (if ltb q.peak_count count then count else q.peak_count);
        wake_pending = true;
      },
      some (not q.wake_pending),
    )

-- `tr_command_queue_push`.
unfoldable pub push : CommandQueue → Command → Pushed
push queue command =
    if queue.stop_closed
    then (err_closed, queue, none)
    else if queue.count == queue.capacity
    then (again, observe_full queue command, none)
    else enqueue queue command

-- `tr_command_queue_wait_open`.
unfoldable pub wait_open : CommandQueue → Status × CommandQueue
wait_open queue = if queue.stop_pending then (err_state, queue) else (
  ok,
  record queue {
    stop_closed = false;
    wait_generation = next_nonzero queue.wait_generation;
    wait_accepting = true;
  },
)

-- `tr_command_queue_wait_close`.
unfoldable pub wait_close : CommandQueue → CommandQueue
wait_close queue = record queue {
  wait_generation = next_nonzero queue.wait_generation;
  wait_accepting = false;
}

-- `tr_command_queue_wait_generation`; the call `wait_generation`.
unfoldable pub open_generation : CommandQueue → ℕ
open_generation queue = if queue.wait_accepting then queue.wait_generation else 0

-- Where a call of `tr_command_queue_push_wait` stands: asleep on `not_full`, or returned.
pub data Waiting : Type 0 where
  asleep : CommandQueue → Waiting
  returned : Pushed → Waiting

-- The loop of `tr_command_queue_push_wait` from its test on, up to a sleep or a return.
unfoldable pub push_wait_test : CommandQueue → Command → ℕ → Bool → Waiting
push_wait_test queue command expected waited =
    if queue.wait_accepting && (queue.wait_generation == expected && queue.count == queue.capacity)
    then (let q = if waited then queue else observe_full queue command in
        asleep (record q { waiters = inc32 q.waiters }))
    else if not queue.wait_accepting || not (queue.wait_generation == expected)
    then returned (err_closed, queue, none)
    else returned (enqueue queue command)

-- `tr_command_queue_push_wait`, up to its first sleep or its return.
unfoldable pub push_wait : CommandQueue → Command → ℕ → Waiting
push_wait queue command expected =
    if expected == 0
    then returned (err_invalid, queue, none)
    else push_wait_test queue command expected false

-- A call of `tr_command_queue_push_wait` that `pthread_cond_wait` hands the lock back to, with an
-- error or without.
unfoldable pub push_wait_woken : CommandQueue → Command → ℕ → Bool → Waiting
push_wait_woken queue command expected error =
    let q = record queue { waiters = (queue.waiters + (2 ^ 32 - 1)) % 2 ^ 32 } in
    if error then returned (err_sys, q, none) else push_wait_test q command expected true

-- `tr_command_queue_push_wait_force`.
unfoldable pub push_stop : CommandQueue → Command → Pushed
push_stop queue command =
    if not (command.type == cmd_stop)
    then (err_invalid, queue, none)
    else if queue.stop_closed
    then (err_state, queue, none)
    else let sequence = next_nonzero queue.next_sequence in
      (
        ok,
        observe_push
            (record queue {
              stop_command = record command { sequence = sequence };
              next_sequence = sequence;
              stop_pending = true;
              stop_closed = true;
              wait_accepting = false;
              wake_pending = true;
            })
            command,
        some (not queue.wake_pending),
      )

-- `tr_command_queue_is_empty`.
unfoldable pub is_empty : CommandQueue → Bool
is_empty queue = queue.count == 0 && not queue.stop_pending

-- `tr_command_queue_last_sequence`.
unfoldable pub last_sequence : CommandQueue → ℕ
last_sequence queue = queue.next_sequence

-- The loop of `tr_command_queue_pop_batch`, for at most so many commands: what it takes, and the
-- queue.
unfoldable pub pop_items : ℕ → CommandQueue → List Command × CommandQueue
pop_items zero queue = ([], queue)
pop_items (suc room) queue =
    let q = record queue { head = inc32 queue.head % queue.capacity; count = queue.count - 1 } in
    let rest = pop_items room q in
    if queue.count == 0
    then ([], queue)
    else (get_or queue.items queue.head zero_command ∷ rest.0, rest.1)

-- The part of `tr_command_queue_pop_batch` on the STOP slot, after so many commands were taken.
unfoldable pub pop_stop : ℕ → ℕ → CommandQueue → List Command × CommandQueue
pop_stop count max_commands queue =
    if queue.count == 0 && (queue.stop_pending && ltb count max_commands)
    then (
      queue.stop_command ∷ [],
      record queue { stop_command = zero_command; stop_pending = false },
    )
    else ([], queue)

-- The part of `tr_command_queue_pop_batch` on the wake-up flag.
unfoldable pub settle : CommandQueue → CommandQueue
settle queue =
    if queue.count == 0 && not queue.stop_pending
    then record queue { wake_pending = false }
    else queue

-- `tr_command_queue_pop_batch`: the commands that it writes to `out`, and the queue.
unfoldable pub pop_batch : CommandQueue → ℕ → List Command × CommandQueue
pop_batch queue max_commands =
    if max_commands == 0
    then ([], queue)
    else let (taken, q) = pop_items max_commands queue in
      let (stop, q') = pop_stop (length taken) max_commands q in (taken ++ stop, settle q')

-- Whether `tr_command_queue_pop_batch` wakes the sleeping producers, from the queue that it found
-- and the number that it took.
abbrev pub wakes_producers : CommandQueue → ℕ → Bool
wakes_producers queue count = not (count == 0) && not (queue.waiters == 0)
