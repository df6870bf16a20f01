-- ===== src/Timer/Registry.antt =====
-- Making the timer queue, and handing out its entries.
use c_trpc.Base.{
  ℕ, zero, suc, ◌+◌, ◌^◌, ◌<◌, ◌≡◌, ◌≢◌, ◌⊎◌, inl, inr, refl, ap, ◌∙◌, List, [], ◌∷◌, length,
  length-replicate, get_or, replicate, some, none, Option, Bool, true, false, not, ltb, leb, ◌==◌,
  ◌||◌, ◌&&◌, if◌then◌else◌, if_true, if_false, arith,
}
use c_trpc.Status.{Status, ok, again, err_invalid}
use c_trpc.Timer.{
  Token, Entry, zero_entry, TimerQueue, zero_timers, entry, with_entry, free_entries, init,
  register, next32, heap_none, token_valid,
}
use c_trpc.Timer.Swap.{armed_count}
use c_trpc.Timer.Store.{
  entry-with_entry, with_entry-IsLinked, with_entry-IsHeap, free_head-IsLinked,
}
use c_trpc.Timer.Invariant.{mem, Chain, Chain-kept, IsTimers}

-- The numbers from one on, so many of them.
abbrev upto : ℕ → ℕ → List ℕ
upto i zero = []
upto i (suc n) = i ∷ upto (i + 1) n

mem-upto : (s i n : ℕ) → mem s (upto i n) ≡ (leb i s && ltb s (i + n))
mem-upto s i zero = ground arith
mem-upto s i (suc n) = ground (arith, mem-upto s (i + 1) n)

entry_free :
    (capacity i n j : ℕ)
    → j < n
    → get_or (free_entries capacity i n) j zero_entry
      ≡ record zero_entry { link = if ltb (i + j + 1) capacity then i + j + 1 else heap_none }
unfolding free_entries
entry_free capacity i zero j h = absurd (omega arith)
entry_free capacity i (suc n) zero h = ground arith
entry_free capacity i (suc n) (suc j) h = ground (arith, entry_free capacity (i + 1) n j)

length-free_entries : (capacity i n : ℕ) → length (free_entries capacity i n) ≡ n
unfolding free_entries
length-free_entries capacity i zero = refl
length-free_entries capacity i (suc n) = ap suc (length-free_entries capacity (i + 1) n)

armed_count-free_entries : (capacity i n : ℕ) → armed_count (free_entries capacity i n) ≡ 0
unfolding free_entries
armed_count-free_entries capacity i zero = refl
armed_count-free_entries capacity i (suc n) =
    omega (arith, armed_count-free_entries capacity (i + 1) n)

-- The queue that `init` makes.
abbrev fresh : ℕ → TimerQueue
fresh capacity = record zero_timers {
  entries = free_entries capacity 0 capacity;
  heap = replicate capacity 0;
  capacity = capacity;
}

entry-fresh :
    (capacity s : ℕ)
    → s < capacity
    → entry (fresh capacity) s
      ≡ record zero_entry { link = if ltb (s + 1) capacity then s + 1 else heap_none }
entry-fresh capacity s h = ground (arith, entry_free capacity 0 capacity s h)

fresh-Chain :
    (capacity i n : ℕ)
    → i + n ≡ capacity
    → Chain (fresh capacity) (if ltb i capacity then i else heap_none) (upto i n)
fresh-Chain capacity i zero e = ground arith
fresh-Chain capacity i (suc n) e = (
  ground arith,
  omega arith,
  mem-upto i (i + 1) n ∙ ground arith,
  rw (entry-fresh capacity i (omega arith)) (fresh-Chain capacity (i + 1) n (omega arith)),
)

fresh-IsTimers : (capacity : ℕ) → 0 < capacity → capacity < 2 ^ 32 → IsTimers (fresh capacity)
fresh-IsTimers capacity pos fits = record {
  links = record {
    entries_length = length-free_entries capacity 0 capacity;
    heap_length = length-replicate capacity 0;
    capacity_fits = fits;
    bounded = omega arith;
    counted = armed_count-free_entries capacity 0 capacity;
    inside = λ i l. absurd (omega arith);
    linked = λ i l. absurd (omega arith);
    in_use = λ i l. absurd (omega arith);
    staying = λ i l. absurd (omega arith);
    placed = λ s l o a. absurd (ground (arith, entry-fresh capacity s l));
  };
  order = λ c p l. absurd (omega arith);
  free = upto 0 capacity;
  chain =
      rw (if_true (ltb 0 capacity) 0 heap_none (ground arith)) at
        (fresh-Chain capacity 0 capacity (omega arith));
  used_exactly = λ s l. ground (arith, entry-fresh capacity s l, mem-upto s 0 capacity);
  armed_exactly = λ s l u. absurd (ground (arith, entry-fresh capacity s l));
}

init_made :
    (allocated : Bool) (q q' : TimerQueue) (capacity : ℕ)
    → init allocated q capacity ≡ (ok, q')
    → (0 < capacity) × (q' ≡ fresh capacity)
unfolding init
init_made allocated q q' capacity e = ground arith

-- A queue that `init` makes is well formed: all its entries are free, and none is armed.
pub init-IsTimers :
    (allocated : Bool) (q q' : TimerQueue) (capacity : ℕ)
    → capacity < 2 ^ 32
    → init allocated q capacity ≡ (ok, q')
    → IsTimers q'
init-IsTimers allocated q q' capacity fits e =
    let m = init_made allocated q q' capacity e in rw (m.1) (fresh-IsTimers capacity m.0 fits)

-- The first free entry when it is handed out, and the queue then.
abbrev handed_entry : TimerQueue → ℕ → ℕ → Entry
handed_entry q callback arg = record {
  generation = next32 (entry q q.free_head).generation;
  link = heap_none;
  deadline_ns = 0;
  version = 1;
  callback = callback;
  arg = arg;
  used = true;
  running = false;
}

abbrev handed : TimerQueue → ℕ → ℕ → TimerQueue
handed q callback arg =
    with_entry (record q { free_head = (entry q q.free_head).link }) q.free_head
      (handed_entry q callback arg)

abbrev pub first_token : TimerQueue → Token
first_token q = record { slot = q.free_head; generation = next32 (entry q q.free_head).generation }

module _ (q : TimerQueue) (callback arg : ℕ) (v : IsTimers q) (x : ℕ) (xs : List ℕ)
    (e : q.free_head ≡ x) (inside : x < q.capacity) (once : mem x xs ≡ false)
    (w : Chain q (entry q x).link xs)
    (u : (s : ℕ) → s < q.capacity → (entry q s).used ≡ not (mem s (x ∷ xs))) where
  unused : (entry q q.free_head).used ≡ false
  unused = ground (arith, u x inside)

  en :
      (s : ℕ)
      → entry (handed q callback arg) s
        ≡ (if q.free_head == s then handed_entry q callback arg else entry q s)
  en s =
      entry-with_entry (record q { free_head = (entry q q.free_head).link }) q.free_head
        (handed_entry q callback arg) s (omega (arith, v.links.entries_length, e, inside))

  handed-IsTimers : IsTimers (handed q callback arg)
  handed-IsTimers =
      let bare = record q { free_head = (entry q q.free_head).link } in
      let bare_links = free_head-IsLinked q (entry q q.free_head).link v.links in
      let at_head : q.free_head < q.capacity = omega (arith, e, inside) in
      record {
        links =
            with_entry-IsLinked bare q.free_head (handed_entry q callback arg) bare_links at_head
              (ground (arith, unused)) (λ a. absurd (ground arith));
        order =
            with_entry-IsHeap bare q.free_head (handed_entry q callback arg) bare_links at_head
              (ground (arith, unused)) (λ a. absurd (ground arith)) (ground (arith, unused))
              v.order;
        free = xs;
        chain = rw (ap (λ s. (entry q s).link) e) (
            Chain-kept q (handed q callback arg) (entry q x).link xs (omega arith)
              (λ s m. ground (arith, en s, once, e)) w);
        used_exactly = λ s l. ground (arith, en s, u s l, once, e);
        armed_exactly = λ s l a. ground (arith, en s, v.armed_exactly s l);
      }

-- The queue has a free entry to hand out, or none is unused.
handing_out :
    (q : TimerQueue) (callback arg : ℕ) (fs : List ℕ)
    → IsTimers q
    → Chain q q.free_head fs
    → ((s : ℕ) → s < q.capacity → (entry q s).used ≡ not (mem s fs))
    → ((q.free_head ≡ heap_none) × ((s : ℕ) → s < q.capacity → (entry q s).used ≡ true))
      ⊎ (IsTimers (handed q callback arg)
          × (q.free_head < q.capacity)
          × ((entry q q.free_head).used ≡ false))
handing_out q callback arg [] v w u = inl (w, u)
handing_out q callback arg (x ∷ xs) v (e, inside, once, w) u = inr (
  handed-IsTimers q callback arg v x xs e inside once w u,
  omega (arith, e, inside),
  unused q callback arg v x xs e inside once w u,
)

register_refused : (q : TimerQueue) (arg : ℕ) → register q 0 arg ≡ (err_invalid, none, q)
unfolding register
register_refused q arg = refl

register_full :
    (q : TimerQueue) (callback arg : ℕ)
    → callback ≢ 0
    → q.free_head ≡ heap_none
    → register q callback arg ≡ (again, none, q)
unfolding register
register_full q callback arg n e =
    if_false (callback == 0) _ _ (ground arith)
    ∙ if_true (q.capacity == 0 || q.free_head == heap_none) _ _ (ground arith)

register_free :
    (q : TimerQueue) (callback arg : ℕ)
    → callback ≢ 0
    → q.free_head < q.capacity
    → q.capacity < 2 ^ 32
    → register q callback arg ≡ (ok, some (first_token q), handed q callback arg)
unfolding register
register_free q callback arg n l f =
    if_false (callback == 0) _ _ (ground arith)
    ∙ if_false (q.capacity == 0 || q.free_head == heap_none) _ _ (ground arith)

-- What registering a timer achieves.
pub record IsRegistered (q : TimerQueue) (callback : ℕ) (r : Status × Option Token × TimerQueue)
    : Type 0 where
  pub kept : IsTimers r.2
  -- It fails only without a callback, or with every entry in use.
  pub refused : callback ≡ 0 → r ≡ (err_invalid, none, q)
  pub full :
      callback ≢ 0 → ((s : ℕ) → s < q.capacity → (entry q s).used ≡ true) → r ≡ (again, none, q)
  -- Otherwise the token is valid, and that of an entry that was not in use.
  pub accepted :
      callback ≢ 0
      → (s : ℕ) → s < q.capacity
      → (entry q s).used ≡ false
      → (r.0 ≡ ok)
        × (r.1 ≡ some (first_token q))
        × (token_valid r.2 (first_token q) ≡ true)
        × ((entry q (first_token q).slot).used ≡ false)

handed_valid :
    (q : TimerQueue) (callback arg : ℕ)
    → IsTimers q
    → q.free_head < q.capacity
    → token_valid (handed q callback arg) (first_token q) ≡ true
unfolding token_valid
handed_valid q callback arg v l =
    let e =
      entry-with_entry (record q { free_head = (entry q q.free_head).link }) q.free_head
        (handed_entry q callback arg) q.free_head (omega (arith, v.links.entries_length, l)) in
    ground (arith, e)

-- Registering at a well-formed queue keeps it well formed. It fails without a callback, and with AGAIN exactly
-- when every entry is in use; otherwise it answers a valid token, whose slot was not in use.
pub register-IsRegistered :
    (q : TimerQueue) (callback arg : ℕ)
    → IsTimers q
    → IsRegistered q callback (register q callback arg)
register-IsRegistered q zero arg v = rw (register_refused q arg) (record {
  kept = v;
  refused = λ e. refl;
  full = λ n. absurd (n refl);
  accepted = λ n. absurd (n refl);
})
register-IsRegistered q (suc c) arg v =
    elim (handing_out q (suc c) arg v.free v v.chain v.used_exactly) [
      | inl (none_left, all_used) ↦
          rw (register_full q (suc c) arg (omega arith) none_left) (record {
            kept = v;
            refused = λ e. absurd (omega arith);
            full = λ n a. refl;
            accepted = λ n s l u. absurd (ground (arith, all_used s l));
          })
      | inr (kept, inside, unused) ↦
          rw (register_free q (suc c) arg (omega arith) inside v.links.capacity_fits) (record {
            kept = kept;
            refused = λ e. absurd (omega arith);
            full = λ n a. absurd (ground (arith, a q.free_head inside));
            accepted = λ n s l u. (refl, refl, handed_valid q (suc c) arg v inside, unused);
          })
    ]
