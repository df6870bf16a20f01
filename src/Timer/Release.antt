-- ===== src/Timer/Release.antt =====
-- Taking a timer back, and the first deadline.
use c_trpc.Base.{
  ℕ, ◌+◌, ◌%◌, ◌^◌, ◌≤◌, ◌<◌, ◌≡◌, ◌≢◌, refl, ◌∷◌, true, false, not, ◌==◌, if◌then◌else◌, if_cases,
  if_true, if_false, arith,
}
use mathlib.Core.Path.{subst}
use c_trpc.Status.{Status, ok, err_stale}
use c_trpc.Timer.{
  Token, Entry, TimerQueue, entry, slot_at, with_entry, heap_remove, token_valid, unregister,
  next_deadline, heap_none,
}
use c_trpc.Timer.Swap.{IsLinked, armed}
use c_trpc.Timer.Order.{key, IsHeap, root_least}
use c_trpc.Timer.Remove.{IsHeap-IsHole, heap_remove-IsRemoved}
use c_trpc.Timer.Store.{
  entry-with_entry, with_entry-IsLinked, with_entry-IsHeap, free_head-IsLinked,
}
use c_trpc.Timer.Invariant.{mem, free_inside, Chain, Chain-kept, IsTimers}
use c_trpc.Timer.Arm.{token_facts}

-- The queue `m` is `q` with the timer of a slot out of the heap.
pub record IsOut (q : TimerQueue) (slot : ℕ) (m : TimerQueue) : Type 0 where
  pub links : IsLinked heap_none 0 m
  pub order : IsHeap m
  pub capacity_kept : m.capacity ≡ q.capacity
  pub free_kept : m.free_head ≡ q.free_head
  pub entry_kept : (s : ℕ) → entry m s ≡ record (entry q s) { link = (entry m s).link }
  pub armed_kept : (s : ℕ) → s ≢ slot → armed (entry m s) ≡ armed (entry q s)
  pub idle_kept : (s : ℕ) → armed (entry q s) ≡ false → (entry m s).link ≡ (entry q s).link
  pub gone : (entry m slot).link ≡ heap_none

pub heap_remove-IsOut :
    (q : TimerQueue) (pos : ℕ)
    → IsTimers q
    → q.size < 2 ^ 31
    → pos < q.size
    → IsOut q (slot_at q pos) (heap_remove q pos)
heap_remove-IsOut q pos v small l =
    let w = heap_remove-IsRemoved q pos small v.links (IsHeap-IsHole q pos l v.order) in
    record {
      links = w.links;
      order = w.order;
      capacity_kept = w.capacity_kept;
      free_kept = w.free_kept;
      entry_kept = w.entry_kept;
      armed_kept = w.armed_kept;
      idle_kept = w.idle_kept;
      gone = w.gone;
    }

same-IsOut :
    (q : TimerQueue) (slot : ℕ) → IsTimers q → (entry q slot).link ≡ heap_none → IsOut q slot q
same-IsOut q slot v e = record {
  links = v.links;
  order = v.order;
  capacity_kept = refl;
  free_kept = refl;
  entry_kept = λ s. refl;
  armed_kept = λ s n. refl;
  idle_kept = λ s a. refl;
  gone = e;
}

-- The queue that gives the entry of a slot back to the free list.
abbrev freed_entry : TimerQueue → ℕ → Entry
freed_entry m slot = record (entry m slot) {
  deadline_ns = 0;
  version = ((entry m slot).version + 1) % 2 ^ 64;
  used = false;
  running = false;
  callback = 0;
  arg = 0;
  link = m.free_head;
}

abbrev freed : TimerQueue → ℕ → TimerQueue
freed m slot = with_entry (record m { free_head = slot }) slot (freed_entry m slot)

module _ (q m : TimerQueue) (slot : ℕ) (v : IsTimers q) (w : IsOut q slot m)
    (inside : slot < q.capacity) (used : (entry q slot).used ≡ true) where
  slot_inside : slot < m.capacity
  slot_inside = omega (arith, w.capacity_kept, inside)

  entry-freed :
      (s : ℕ) → entry (freed m slot) s ≡ (if slot == s then freed_entry m slot else entry m s)
  entry-freed s =
      entry-with_entry (record m { free_head = slot }) slot (freed_entry m slot) s
        (omega (arith, w.links.entries_length, slot_inside))

  idle_now : armed (entry m slot) ≡ false
  idle_now = ground (arith, w.gone)

  not_free : mem slot v.free ≡ false
  not_free = ground (arith, v.used_exactly slot inside, used)

  freed-IsTimers : IsTimers (freed m slot)
  freed-IsTimers =
      let bare = record m { free_head = slot } in
      let links = free_head-IsLinked m slot w.links in
      record {
        links =
            with_entry-IsLinked bare slot (freed_entry m slot) links slot_inside
              (ground (arith, idle_now)) (λ a. absurd (ground arith));
        order =
            with_entry-IsHeap bare slot (freed_entry m slot) links slot_inside
              (ground (arith, idle_now)) (λ a. absurd (ground arith)) idle_now w.order;
        free = slot ∷ v.free;
        chain = (refl, slot_inside, not_free, rw at_head rest);
        used_exactly =
            λ s l. ground (arith, entry-freed s, w.entry_kept s, w.capacity_kept, v.used_exactly s);
        armed_exactly = λ s l u. ground (
          arith,
          entry-freed s,
          w.entry_kept s,
          w.capacity_kept,
          w.armed_kept s,
          v.armed_exactly s,
        );
      }
    where
      at_head : (entry (freed m slot) slot).link ≡ q.free_head
      at_head = ground (arith, entry-freed slot, w.free_kept)

      rest : Chain (freed m slot) q.free_head v.free
      rest =
          Chain-kept q (freed m slot) q.free_head v.free (omega (arith, w.capacity_kept))
            (λ s f. ground (
              arith,
              entry-freed s,
              not_free,
              f,
              v.used_exactly s (free_inside q v s f),
              w.idle_kept s,
            ))
            v.chain

-- What giving a valid token back achieves.
pub record IsReleased (q : TimerQueue) (token : Token) (r : Status × TimerQueue) : Type 0 where
  pub accepted : r.0 ≡ ok
  pub kept : IsTimers r.1
  pub invalid_now : token_valid r.1 token ≡ false
  pub free_now : (entry r.1 token.slot).used ≡ false
  -- Nothing of any other timer changes but its place in the heap.
  pub others_kept :
      (s : ℕ) → s ≢ token.slot → entry r.1 s ≡ record (entry q s) { link = (entry r.1 s).link }

invalid_unused :
    (q : TimerQueue) (token : Token)
    → (entry q token.slot).used ≡ false
    → token_valid q token ≡ false
unfolding token_valid
invalid_unused q token u = ground arith

freed-IsReleased :
    (q : TimerQueue) (token : Token) (m : TimerQueue)
    → IsTimers q
    → token_valid q token ≡ true
    → IsOut q token.slot m
    → IsReleased q token (ok, freed m token.slot)
freed-IsReleased q token m v t w =
    let f = token_facts q token t in
    let en = entry-freed q m token.slot v w f.0 f.1 in
    record {
      accepted = refl;
      kept = freed-IsTimers q m token.slot v w f.0 f.1;
      invalid_now = invalid_unused (freed m token.slot) token (ground (arith, en token.slot));
      free_now = ground (arith, en token.slot);
      others_kept = λ s n. ground (arith, en s, w.entry_kept s);
    }

unregister_valid :
    (q : TimerQueue) (token : Token)
    → token_valid q token ≡ true
    → let pos = (entry q token.slot).link in
      unregister q token
      ≡ (ok, freed (if not (pos == heap_none) then heap_remove q pos else q) token.slot)
unfolding unregister
unregister_valid q token t = if_false (not (token_valid q token)) _ _ (ground arith)

-- In a well-formed queue with fewer than 2^31 timers in its heap, unregistering the timer of a valid token, armed or
-- not, succeeds: the token is not valid any more, the slot is free, every other timer keeps its deadline, and the queue stays well formed.
pub unregister-IsReleased :
    (q : TimerQueue) (token : Token)
    → IsTimers q
    → q.size < 2 ^ 31
    → token_valid q token ≡ true
    → IsReleased q token (unregister q token)
unregister-IsReleased q token v small t =
    let f = token_facts q token t in
    let pos = (entry q token.slot).link in
    rw (unregister_valid q token t) (
      freed-IsReleased q token (if not (pos == heap_none) then heap_remove q pos else q) v t (
        if_cases (IsOut q token.slot) (not (pos == heap_none)) (heap_remove q pos) q
          (λ n.
            let here =
              v.links.placed token.slot f.0 (omega (arith, f.0, v.links.capacity_fits))
                (ground (arith, f.1, n)) in
            subst (λ s. IsOut q s (heap_remove q pos)) here.1
              (heap_remove-IsOut q pos v small here.0))
          (λ e. same-IsOut q token.slot v (ground arith))))

-- A token that is not valid releases nothing.
pub unregister_stale :
    (q : TimerQueue) (token : Token)
    → token_valid q token ≡ false
    → unregister q token ≡ (err_stale, q)
unfolding unregister
unregister_stale q token t = if_true (not (token_valid q token)) _ _ (ground arith)

-- The deadline `d` is the first of the timers of the queue, or 0 where no timer has one.
pub record IsFirstDeadline (q : TimerQueue) (d : ℕ) : Type 0 where
  pub least :
      (s : ℕ)
      → s < q.capacity
      → (entry q s).used ≡ true
      → (entry q s).deadline_ns ≢ 0
      → (d ≢ 0) × (d ≤ (entry q s).deadline_ns)
  pub attained :
      d ≢ 0
      → (slot_at q 0 < q.capacity)
        × ((entry q (slot_at q 0)).used ≡ true)
        × ((entry q (slot_at q 0)).deadline_ns ≡ d)

pub timer_in_heap :
    (q : TimerQueue) (s : ℕ)
    → IsTimers q
    → s < q.capacity
    → (entry q s).used ≡ true
    → (entry q s).deadline_ns ≢ 0
    → (0 < q.size) × (key q 0 ≢ 0) × (key q 0 ≤ (entry q s).deadline_ns)
timer_in_heap q s v l u n =
    let here =
      v.links.placed s l (omega (arith, l, v.links.capacity_fits))
        (ground (arith, v.armed_exactly s l u, n)) in
    let least = root_least q (entry q s).link v.order here.0 in
    let some_timer : 0 < q.size = omega (arith, here.0) in
    (
      some_timer,
      ground (
        arith,
        v.armed_exactly (slot_at q 0),
        v.links.inside 0 some_timer,
        v.links.in_use 0 some_timer,
        v.links.linked 0 some_timer,
      ),
      ground (arith, here.1, least),
    )

-- The next deadline of a well-formed queue is the least deadline of all its timers, and 0 exactly when
-- none has one.
pub next_deadline-IsFirstDeadline :
    (q : TimerQueue) → IsTimers q → IsFirstDeadline q (next_deadline q)
unfolding next_deadline
next_deadline-IsFirstDeadline q v =
    if_cases (IsFirstDeadline q) (q.size == 0) 0 (key q 0)
      (λ e. record {
        least = λ s l u n. absurd (ground (arith, timer_in_heap q s v l u n));
        attained = λ n. absurd (n refl);
      })
      (λ e. record {
        least = λ s l u n. let h = timer_in_heap q s v l u n in (h.1, h.2);
        attained = λ n. (v.links.inside 0 (ground arith), v.links.in_use 0 (ground arith), refl);
      })
