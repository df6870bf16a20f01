-- ===== src/Timer/Run.antt =====
-- Running the timers that are due.
use c_trpc.Base.{
  ℕ, zero, suc, ◌^◌, ◌≤◌, ◌<◌, ◌≡◌, ◌≢◌, inl, inr, refl, ◌∙◌, Bool, Bool-cases, true, false, not,
  ◌==◌, ◌&&◌, if◌then◌else◌, if_cases, if_true, if_false, arith,
}
use c_trpc.Timer.{
  Token, Entry, TimerQueue, Callbacks, entry, slot_at, with_entry, heap_remove, token_valid, arm,
  rearm, take_due, run_first, run_due, first_due, parent,
}
use c_trpc.Timer.Store.{entry-with_entry, with_entry-IsLinked, with_entry-IsHeap}
use c_trpc.Timer.Invariant.{IsTimers, rebuilt-IsTimers}
use c_trpc.Timer.Arm.{arm-IsArmed, facts_token, token_facts}
use c_trpc.Timer.Release.{IsOut, heap_remove-IsOut, timer_in_heap}

-- A timer out of the heap with another deadline field 0 and another running flag.
module _ (q m : TimerQueue) (slot : ℕ) (v : IsTimers q) (w : IsOut q slot m)
    (inside : slot < q.capacity) (used : (entry q slot).used ≡ true) where
  abbrev running_entry : Entry
  running_entry = record (entry m slot) { deadline_ns = 0; running = true }

  running-IsTimers : IsTimers (with_entry m slot running_entry)
  running-IsTimers =
      let r = with_entry m slot running_entry in
      let slot_inside : slot < m.capacity = omega (arith, w.capacity_kept, inside) in
      let en = λ (s : ℕ).
        entry-with_entry m slot running_entry s
          (omega (arith, w.links.entries_length, slot_inside)) in
      rebuilt-IsTimers q r v
        (with_entry-IsLinked m slot running_entry w.links slot_inside refl (λ a. refl))
        (with_entry-IsHeap m slot running_entry w.links slot_inside refl (λ a. refl)
          (ground (arith, w.gone)) w.order)
        w.free_kept w.capacity_kept (λ s. ground (arith, en s, w.entry_kept s))
        (λ s u. ground (arith, en s, w.idle_kept s))
        (λ s l u.
          ground (
            arith,
            en s,
            w.entry_kept s,
            w.armed_kept s,
            w.gone,
            v.armed_exactly s,
            w.capacity_kept,
          ))

take_due-IsTimers :
    (q : TimerQueue)
    → IsTimers q
    → q.size < 2 ^ 31
    → 0 < q.size
    → IsTimers (take_due q) × ((take_due q).capacity ≡ q.capacity)
unfolding take_due
take_due-IsTimers q v small l =
    let w = heap_remove-IsOut q 0 v small l in
    (
      running-IsTimers q (heap_remove q 0) (slot_at q 0) v w (v.links.inside 0 l)
          (v.links.in_use 0 l),
      w.capacity_kept,
    )

module _ (q : TimerQueue) (slot : ℕ) (v : IsTimers q) (inside : slot < q.capacity) where
  -- The queue once the callback of a slot is not running any more.
  abbrev rested : TimerQueue
  rested = with_entry q slot (record (entry q slot) { running = false })

  entry-rested :
      (s : ℕ)
      → entry rested s ≡ (if slot == s then record (entry q s) { running = false } else entry q s)
  entry-rested s =
      entry-with_entry q slot (record (entry q slot) { running = false }) s
        (omega (arith, v.links.entries_length, inside))
      ∙ ground arith

  rested-IsTimers : IsTimers rested
  rested-IsTimers =
      let e = record (entry q slot) { running = false } in
      rebuilt-IsTimers q rested v (with_entry-IsLinked q slot e v.links inside refl (λ a. refl))
        (λ c p l.
          ground
            (arith, entry-rested (slot_at q c), entry-rested (slot_at q (parent c)), v.order c p l))
        refl refl (λ s. ground (arith, entry-rested s)) (λ s u. ground (arith, entry-rested s))
        (λ s l u. ground (arith, entry-rested s, v.armed_exactly s))

-- What a round makes of the queue `q` that its callback leaves, when the callback asks for `next`.
pub record IsRearmed (q : TimerQueue) (token : Token) (version next : ℕ) (r : TimerQueue)
    : Type 0 where
  pub kept : IsTimers r
  pub capacity_kept : r.capacity ≡ q.capacity
  -- A timer that its callback unregistered stays as it is.
  pub ended : token_valid q token ≡ false → r ≡ q
  -- Otherwise it has the deadline that was asked for, unless the callback armed it itself.
  pub deadline_set :
      token_valid q token ≡ true
      → (entry r token.slot).deadline_ns ≡ (
          if (entry q token.slot).version == version && not (next == 0)
          then next
          else (entry q token.slot).deadline_ns)
  pub others_kept :
      (s : ℕ) → s ≢ token.slot → entry r s ≡ record (entry q s) { link = (entry r s).link }

module _ (q : TimerQueue) (token : Token) (version next : ℕ) (v : IsTimers q)
    (inside : token.slot < q.capacity) where
  abbrev resting : TimerQueue
  resting = rested q token.slot v inside

  rearm_ended : token_valid q token ≡ false → rearm token version (next, q) ≡ q
  unfolding rearm token_valid
  rearm_ended t =
      if_true
        (not ((entry q token.slot).used && (entry q token.slot).generation == token.generation)) _ _
        (ground arith)

  rearm_live :
      token_valid q token ≡ true
      → rearm token version (next, q) ≡ (
          if (entry q token.slot).version == version && not (next == 0)
          then (arm resting token next).1
          else resting)
  unfolding rearm token_valid
  rearm_live t =
      if_false
        (not ((entry q token.slot).used && (entry q token.slot).generation == token.generation)) _ _
        (ground arith)

  resting_valid : token_valid q token ≡ true → token_valid resting token ≡ true
  resting_valid t =
      let f = token_facts q token t in
      let en = entry-rested q token.slot v inside token.slot in
      facts_token resting token inside (ground (arith, en, f.1)) (ground (arith, en, f.2))

  abbrev asked : Bool
  asked = (entry q token.slot).version == version && not (next == 0)

  live-IsRearmed :
      q.size < 2 ^ 31
      → token_valid q token ≡ true
      → IsRearmed q token version next (if asked then (arm resting token next).1 else resting)
  live-IsRearmed small t =
      let en = entry-rested q token.slot v inside in
      if_cases (IsRearmed q token version next) asked (arm resting token next).1 resting
        (λ a.
          let w =
            arm-IsArmed resting token next (rested-IsTimers q token.slot v inside) small
              (resting_valid t) in
          record {
            kept = w.kept;
            capacity_kept = w.capacity_kept;
            ended = λ n. absurd (ground arith);
            deadline_set = λ y. ground (arith, w.deadline_set);
            others_kept = λ s n. ground (arith, w.others_kept s n, en s);
          })
        (λ a. record {
          kept = rested-IsTimers q token.slot v inside;
          capacity_kept = refl;
          ended = λ n. absurd (ground arith);
          deadline_set = λ y. ground (arith, en token.slot);
          others_kept = λ s n. ground (arith, en s);
        })

-- After a callback, in a well-formed queue with fewer than 2^31 timers in its heap: a timer that it unregistered is left alone; a timer that it armed itself, or for which it asks
-- no deadline, keeps the deadline that it has; any other has the deadline that the callback asked for. No other timer changes.
pub rearm-IsRearmed :
    (q : TimerQueue) (token : Token) (version next : ℕ)
    → IsTimers q
    → q.size < 2 ^ 31
    → token.slot < q.capacity
    → IsRearmed q token version next (rearm token version (next, q))
rearm-IsRearmed q token version next v small inside = elim (Bool-cases (token_valid q token)) [
  | inl t ↦
      rw (rearm_live q token version next v inside t)
        (live-IsRearmed q token version next v inside small t)
  | inr t ↦ rw (rearm_ended q token version next v inside t) (record {
    kept = v;
    capacity_kept = refl;
    ended = λ n. refl;
    deadline_set = λ y. absurd (ground arith);
    others_kept = λ s n. refl;
  })
]

-- The callbacks use the queue through its operations: where it has room for fewer than 2^31 timers, they keep it well
-- formed, and its capacity.
pub record IsWellBehaved (run : Callbacks) : Type 0 where
  pub keeps :
      (callback arg now : ℕ) (q : TimerQueue)
      → IsTimers q
      → q.capacity < 2 ^ 31
      → IsTimers (run callback arg now q).1
  pub keeps_capacity :
      (callback arg now : ℕ) (q : TimerQueue)
      → IsTimers q
      → q.capacity < 2 ^ 31
      → (run callback arg now q).1.capacity ≡ q.capacity

module _ (run : Callbacks) (b : IsWellBehaved run) where
  run_first-IsTimers :
      (q : TimerQueue) (now : ℕ)
      → IsTimers q
      → q.capacity < 2 ^ 31
      → 0 < q.size
      → IsTimers (run_first run q now) × ((run_first run q now).capacity ≡ q.capacity)
  unfolding run_first
  run_first-IsTimers q now v small l =
      let (taken, same) = take_due-IsTimers q v (omega (arith, small, v.links.bounded)) l in
      let e = entry q (slot_at q 0) in
      let token : Token = record { slot = slot_at q 0; generation = e.generation } in
      let inside = v.links.inside 0 l in
      if_cases
        (λ (a : ℕ × TimerQueue).
          IsTimers (rearm token e.version a) × ((rearm token e.version a).capacity ≡ q.capacity))
        (e.callback == 0) (0, take_due q) (run e.callback e.arg now (take_due q))
        (λ z. rearmed q (take_due q) token e.version 0 taken same small inside)
        (λ n.
          let a = run e.callback e.arg now (take_due q) in
          rearmed q a.1 token e.version a.0
            (b.keeps e.callback e.arg now (take_due q) taken (omega (arith, same, small)))
            (b.keeps_capacity e.callback e.arg now (take_due q) taken (omega (arith, same, small))
              ∙ same)
            small inside)
    where
      rearmed :
          (q m : TimerQueue) (token : Token) (version next : ℕ)
          → IsTimers m
          → m.capacity ≡ q.capacity
          → q.capacity < 2 ^ 31
          → token.slot < q.capacity
          → IsTimers (rearm token version (next, m))
            × ((rearm token version (next, m)).capacity ≡ q.capacity)
      rearmed q m token version next v same small inside =
          let w =
            rearm-IsRearmed m token version next v (omega (arith, v.links.bounded, same, small))
              (omega (arith, same, inside)) in
          (w.kept, w.capacity_kept ∙ same)

-- What a batch of at most `max` callbacks achieves.
pub record IsBatch (max now : ℕ) (r : ℕ × Bool × TimerQueue) : Type 0 where
  pub bounded : r.0 ≤ max
  pub kept : IsTimers r.2
  -- It answers that more timers are due only after as many callbacks as it may run,
  pub full : r.1 ≡ true → r.0 ≡ max
  -- and otherwise no timer is due any more.
  pub drained :
      r.1 ≡ false
      → (s : ℕ) → s < (r.2).capacity
      → (entry r.2 s).used ≡ true
      → (entry r.2 s).deadline_ns ≢ 0
      → now < (entry r.2 s).deadline_ns

none_due :
    (q : TimerQueue) (now s : ℕ)
    → IsTimers q
    → first_due q now ≡ false
    → s < q.capacity
    → (entry q s).used ≡ true
    → (entry q s).deadline_ns ≢ 0
    → now < (entry q s).deadline_ns
none_due q now s v f l u n = ground (arith, timer_in_heap q s v l u n)

-- With callbacks that use the queue through its operations, a batch over a well-formed queue with room for fewer than
-- 2^31 timers runs at most `max` of them and keeps the queue well formed; when it answers that no more is due, every
-- timer with a deadline has it after `now`, and it answers that more is due only after `max` callbacks.
pub run_due-IsBatch :
    (run : Callbacks)
    → IsWellBehaved run
    → (q : TimerQueue) (now max : ℕ) → IsTimers q
    → q.capacity < 2 ^ 31
    → IsBatch max now (run_due run q now max)
unfolding run_due
run_due-IsBatch run b q now zero v small = record {
  bounded = omega arith;
  kept = v;
  full = λ d. refl;
  drained = λ d s l u n. none_due q now s v d l u n;
}
run_due-IsBatch run b q now (suc max) v small =
    if_cases (IsBatch (suc max) now) (not (first_due q now)) _ _
      (λ idle. record {
        bounded = omega arith;
        kept = v;
        full = λ d. absurd (ground arith);
        drained = λ d s l u n. none_due q now s v d l u n;
      })
      (λ due.
        let (kept, same) = run_first-IsTimers run b q now v small (ground arith) in
        let w =
          run_due-IsBatch run b (run_first run q now) now max kept (omega (arith, same, small)) in
        record {
          bounded = omega (arith, w.bounded);
          kept = w.kept;
          full = λ d. omega (arith, w.full d);
          drained = w.drained;
        })
