-- ===== src/Timer.antt =====
-- src/execution/timer_queue.h and timer_queue.c: the timers of a reactor, a binary heap of slots
-- that the entries point back into.
pub mod Swap
pub mod Order
pub mod Up
pub mod Down
pub mod Remove
pub mod Store
pub mod Invariant
pub mod Registry
pub mod Place
pub mod Arm
pub mod Release
pub mod Run
use c_trpc.Base.{
  ℕ, zero, suc, ◌+◌, ◌-◌, ◌*◌, ◌/◌, ◌%◌, ◌^◌, List, [], ◌∷◌, length, get_or, set, replicate, Option,
  none, some, Bool, true, false, not, ◌&&◌, ◌||◌, ltb, leb, ◌==◌, if◌then◌else◌,
}
use c_trpc.Status.{Status, ok, again, err_invalid, err_nomem, err_stale}

-- `TR_TIMER_HEAP_NONE`.
abbrev pub heap_none : ℕ
heap_none = 2 ^ 32 - 1

-- `struct tr_timer_token`.
pub record Token : Type 0 where
  pub slot : ℕ
  pub generation : ℕ

-- `struct tr_timer_entry`. `link` is the union of `heap_pos` and `next_free`. A callback is named by a
-- number, and NULL is 0.
pub record Entry : Type 0 where
  pub generation : ℕ
  pub link : ℕ
  pub deadline_ns : ℕ
  pub version : ℕ
  pub callback : ℕ
  pub arg : ℕ
  pub used : Bool
  pub running : Bool

abbrev pub zero_entry : Entry
zero_entry = record {
  generation = 0;
  link = 0;
  deadline_ns = 0;
  version = 0;
  callback = 0;
  arg = 0;
  used = false;
  running = false;
}

-- `struct tr_timer_queue`.
pub record TimerQueue : Type 0 where
  pub entries : List Entry
  pub heap : List ℕ
  pub capacity : ℕ
  pub size : ℕ
  pub free_head : ℕ

-- `memset(queue, 0, sizeof(*queue))`.
abbrev pub zero_timers : TimerQueue
zero_timers = record { entries = []; heap = []; capacity = 0; size = 0; free_head = 0 }

-- `queue->entries[slot]` and `queue->heap[pos]`.
abbrev pub entry : TimerQueue → ℕ → Entry
entry queue slot = get_or queue.entries slot zero_entry

abbrev pub slot_at : TimerQueue → ℕ → ℕ
slot_at queue pos = get_or queue.heap pos 0

-- `queue->entries[slot] = e`.
abbrev pub with_entry : TimerQueue → ℕ → Entry → TimerQueue
with_entry queue slot e = record queue { entries = set queue.entries slot e }

-- `queue->entries[slot].heap_pos = pos`.
abbrev pub set_link : TimerQueue → ℕ → ℕ → TimerQueue
set_link queue slot pos = with_entry queue slot (record (entry queue slot) { link = pos })

-- `tr_timer_token_valid`.
unfoldable pub token_valid : TimerQueue → Token → Bool
token_valid queue token =
    ltb token.slot queue.capacity
    && ((entry queue token.slot).used && (entry queue token.slot).generation == token.generation)

-- `tr_timer_before`.
unfoldable pub before : TimerQueue → ℕ → ℕ → Bool
before queue a_slot b_slot =
    let a = (entry queue a_slot).deadline_ns in
    let b = (entry queue b_slot).deadline_ns in if not (a == b) then ltb a b else ltb a_slot b_slot

-- `tr_timer_heap_swap`.
unfoldable pub heap_swap : TimerQueue → ℕ → ℕ → TimerQueue
heap_swap queue a b =
    let q = record queue { heap = set (set queue.heap a (slot_at queue b)) b (slot_at queue a) } in
    let q = set_link q (slot_at q a) a in set_link q (slot_at q b) b

abbrev pub parent : ℕ → ℕ
parent pos = (pos - 1) / 2

-- The loop of `tr_timer_heap_up`, with fuel for its rounds.
unfoldable pub up_loop : ℕ → TimerQueue → ℕ → TimerQueue
up_loop zero queue pos = queue
up_loop (suc fuel) queue pos =
    let rest = up_loop fuel (heap_swap queue pos (parent pos)) (parent pos) in
    if pos == 0
    then queue
    else if not (before queue (slot_at queue pos) (slot_at queue (parent pos)))
    then queue
    else rest

-- `tr_timer_heap_up`: every round at least halves the position.
unfoldable pub heap_up : TimerQueue → ℕ → TimerQueue
unfolding up_loop
heap_up queue pos = up_loop (pos + 1) queue pos

-- `best` of a round of `tr_timer_heap_down`, its places of type `uint32_t`.
unfoldable pub best_of : TimerQueue → ℕ → ℕ
best_of queue pos =
    let left = (pos * 2 + 1) % 2 ^ 32 in
    let right = (left + 1) % 2 ^ 32 in
    let best =
      if ltb left queue.size && before queue (slot_at queue left) (slot_at queue pos)
      then left
      else pos in
    if ltb right queue.size && before queue (slot_at queue right) (slot_at queue best)
    then right
    else best

-- The loop of `tr_timer_heap_down`, with fuel for its rounds.
unfoldable pub down_loop : ℕ → TimerQueue → ℕ → TimerQueue
down_loop zero queue pos = queue
down_loop (suc fuel) queue pos =
    let rest = down_loop fuel (heap_swap queue pos (best_of queue pos)) (best_of queue pos) in
    if best_of queue pos == pos then queue else rest

-- `tr_timer_heap_down`: below a `size` of 2^31 every round moves to a later position below `size`. From 2^31
-- on the places of the children wrap to the front of the heap; where the loop then does not end, the fuel cuts it.
unfoldable pub heap_down : TimerQueue → ℕ → TimerQueue
unfolding down_loop
heap_down queue pos = down_loop (queue.size + 1) queue pos

-- The move of the last slot to the place of the removed one in `tr_timer_heap_remove`.
unfoldable pub refill : TimerQueue → ℕ → TimerQueue
refill queue pos =
    let last_slot = slot_at queue queue.size in
    let q = set_link (record queue { heap = set queue.heap pos last_slot }) last_slot pos in
    let q = heap_up q pos in heap_down q (entry q last_slot).link

-- `tr_timer_heap_remove`.
unfoldable pub heap_remove : TimerQueue → ℕ → TimerQueue
heap_remove queue pos =
    if leb queue.size pos
    then queue
    else let removed_slot = slot_at queue pos in
      let q = record queue { size = queue.size - 1 } in
      let q = if not (pos == q.size) then refill q pos else q in set_link q removed_slot heap_none

-- The loop of `tr_timer_queue_init` from an index on.
unfoldable pub free_entries : ℕ → ℕ → ℕ → List Entry
free_entries capacity i zero = []
free_entries capacity i (suc n) =
    record zero_entry { link = if ltb (i + 1) capacity then i + 1 else heap_none }
    ∷ free_entries capacity (i + 1) n

-- `tr_timer_queue_init`, by whether both calls of `calloc` succeed.
unfoldable pub init : Bool → TimerQueue → ℕ → Status × TimerQueue
init allocated queue capacity =
    if capacity == 0
    then (err_invalid, queue)
    else if not allocated
    then (err_nomem, zero_timers)
    else (
      ok,
      record zero_timers {
        entries = free_entries capacity 0 capacity;
        heap = replicate capacity 0;
        capacity = capacity;
      },
    )

-- `tr_timer_queue_destroy`.
abbrev pub destroy : TimerQueue → TimerQueue
destroy queue = zero_timers

-- `x + 1U`, and 1 where that is 0, of a `uint32_t` and of a `uint64_t`.
abbrev pub next32 : ℕ → ℕ
next32 x = if (x + 1) % 2 ^ 32 == 0 then 1 else (x + 1) % 2 ^ 32

abbrev pub next64 : ℕ → ℕ
next64 x = if (x + 1) % 2 ^ 64 == 0 then 1 else (x + 1) % 2 ^ 64

-- `tr_timer_queue_register`: on OK the token.
unfoldable pub register : TimerQueue → ℕ → ℕ → Status × Option Token × TimerQueue
register queue callback arg =
    if callback == 0
    then (err_invalid, none, queue)
    else if queue.capacity == 0 || queue.free_head == heap_none
    then (again, none, queue)
    else let slot = queue.free_head in
      let generation = next32 (entry queue slot).generation in
      (
        ok,
        some (record { slot = slot; generation = generation }),
        with_entry (record queue { free_head = (entry queue slot).link }) slot
            (record {
              generation = generation;
              link = heap_none;
              deadline_ns = 0;
              version = 1;
              callback = callback;
              arg = arg;
              used = true;
              running = false;
            }),
      )

-- `tr_timer_queue_arm` of a valid token, after the new deadline is stored.
unfoldable pub place_timer : TimerQueue → ℕ → ℕ → ℕ → Status × TimerQueue
place_timer queue slot old_deadline deadline_ns =
    let pos = (entry queue slot).link in
    if deadline_ns == 0
    then (if not (pos == heap_none) then (ok, heap_remove queue pos) else (ok, queue))
    else if pos == heap_none
    then (if queue.size == queue.capacity
        then (again, queue)
        else let q = record queue {
          size = queue.size + 1;
          heap = set queue.heap queue.size slot;
        } in
          (ok, heap_up (set_link q slot queue.size) queue.size))
    else if old_deadline == 0 || ltb deadline_ns old_deadline
    then (ok, heap_up queue pos)
    else if ltb old_deadline deadline_ns
    then (ok, heap_down queue pos)
    else (ok, queue)

-- `tr_timer_queue_arm`.
unfoldable pub arm : TimerQueue → Token → ℕ → Status × TimerQueue
arm queue token deadline_ns =
    if not (token_valid queue token)
    then (err_stale, queue)
    else let e = entry queue token.slot in
      place_timer
        (with_entry queue token.slot
          (record e { deadline_ns = deadline_ns; version = next64 e.version }))
        token.slot e.deadline_ns deadline_ns

-- `tr_timer_queue_unregister`.
unfoldable pub unregister : TimerQueue → Token → Status × TimerQueue
unregister queue token =
    if not (token_valid queue token)
    then (err_stale, queue)
    else let pos = (entry queue token.slot).link in
      let q = if not (pos == heap_none) then heap_remove queue pos else queue in
      let e = entry q token.slot in
      (
        ok,
        with_entry (record q { free_head = token.slot }) token.slot
            (record e {
              deadline_ns = 0;
              version = (e.version + 1) % 2 ^ 64;
              used = false;
              running = false;
              callback = 0;
              arg = 0;
              link = q.free_head;
            }),
      )

-- `tr_timer_queue_next_deadline`.
unfoldable pub next_deadline : TimerQueue → ℕ
next_deadline queue = if queue.size == 0 then 0 else (entry queue (slot_at queue 0)).deadline_ns

-- Whether the first timer of the heap is due.
abbrev pub first_due : TimerQueue → ℕ → Bool
first_due queue now_ns =
    not (queue.size == 0) && leb (entry queue (slot_at queue 0)).deadline_ns now_ns

-- What the callbacks do, given by the application: from the number of the callback, its argument, the
-- time and the queue, the next deadline and the queue as the callback leaves it.
abbrev pub Callbacks : Type 0
Callbacks = ℕ → ℕ → ℕ → TimerQueue → ℕ × TimerQueue

-- A round of `tr_timer_queue_run_due` after its callback returned.
unfoldable pub rearm : Token → ℕ → ℕ × TimerQueue → TimerQueue
rearm token version (next_ns, queue) =
    let e = entry queue token.slot in
    if not (e.used && e.generation == token.generation)
    then queue
    else let q = with_entry queue token.slot (record e { running = false }) in
      if e.version == version && not (next_ns == 0) then (arm q token next_ns).1 else q

-- The first timer of the heap taken off it, and marked as running.
unfoldable pub take_due : TimerQueue → TimerQueue
take_due queue =
    let slot = slot_at queue 0 in
    let q = heap_remove queue 0 in
    with_entry q slot (record (entry q slot) { deadline_ns = 0; running = true })

module _ (run : Callbacks) where
  -- A round of `tr_timer_queue_run_due`.
  unfoldable pub run_first : TimerQueue → ℕ → TimerQueue
  run_first queue now_ns =
      let slot = slot_at queue 0 in
      let e = entry queue slot in
      let q = take_due queue in
      rearm (record { slot = slot; generation = e.generation }) e.version
        (if e.callback == 0 then (0, q) else run e.callback e.arg now_ns q)

  -- `tr_timer_queue_run_due`, for at most so many callbacks: how many ran, whether more are due, and
  -- the queue.
  unfoldable pub run_due : TimerQueue → ℕ → ℕ → ℕ × Bool × TimerQueue
  run_due queue now_ns zero = (0, first_due queue now_ns, queue)
  run_due queue now_ns (suc max) =
      let rest = run_due (run_first queue now_ns) now_ns max in
      if not (first_due queue now_ns)
      then (0, first_due queue now_ns, queue)
      else (rest.0 + 1, rest.1, rest.2)
