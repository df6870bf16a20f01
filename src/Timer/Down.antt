-- ===== src/Timer/Down.antt =====
-- Moving a timer towards the leaves.
use c_trpc.Base.{
  ℕ, zero, suc, ◌+◌, ◌-◌, ◌*◌, ◌%◌, ◌^◌, ◌≤◌, ◌<◌, ◌≡◌, ◌≢◌, ◌⊎◌, inl, inr, refl, ap, ◌∙◌,
  Bool-cases, true, false, ◌==◌, if_true, if_false, arith,
}
use c_trpc.Timer.{
  TimerQueue, slot_at, before, heap_swap, parent, best_of, down_loop, heap_down, up_loop, heap_up,
}
use c_trpc.Timer.Swap.{IsLinked, Moved-refl, Moved-trans, heap_swap-Moved, heap_swap-IsLinked}
use c_trpc.Timer.Order.{key, IsHeap, IsBridged, before_deadline, not-before_deadline, key-heap_swap}
use c_trpc.Timer.Up.{IsRestored, up_loop_fuel}
use native.Mathlib.Decide.{ℕ_discrete}

-- Only the edges below `i` may be out of order.
pub record DownInv (q : TimerQueue) (i : ℕ) : Type 0 where
  pub edges : (c : ℕ) → 0 < c → c < q.size → parent c ≢ i → key q (parent c) ≤ key q c
  pub bridged : IsBridged q i

pub IsHeap-DownInv : (q : TimerQueue) (i : ℕ) → IsHeap q → DownInv q i
IsHeap-DownInv q i h = record {
  edges = λ c p r n. h c p r;
  bridged = λ c p r e z. ground (arith, h c, h i);
}

-- The least of a place and its children: the place itself, or a child.
record IsBest (q : TimerQueue) (i m : ℕ) : Type 0 where
  where_is : (m ≡ i) ⊎ ((m < q.size) × (i < m) × (0 < m) × (parent m ≡ i))
  least : key q m ≤ key q i
  least_child : (c : ℕ) → 0 < c → c < q.size → parent c ≡ i → key q m ≤ key q c

before_cases :
    (q : TimerQueue) (a b : ℕ)
    → ((before q (slot_at q a) (slot_at q b) ≡ true) × (key q a ≤ key q b))
      ⊎ ((before q (slot_at q a) (slot_at q b) ≡ false) × (key q b ≤ key q a))
before_cases q a b = elim (Bool-cases (before q (slot_at q a) (slot_at q b))) [
  | inl e ↦ inl (e, before_deadline q (slot_at q a) (slot_at q b) e)
  | inr e ↦ inr (e, not-before_deadline q (slot_at q a) (slot_at q b) e)
]

-- Below a size of 2^31 no child of a place of the heap wraps.
left_exact : (n i : ℕ) → n < 2 ^ 31 → i < n → (i * 2 + 1) % 2 ^ 32 ≡ i * 2 + 1
left_exact n i small l = omega arith

right_exact : (n i : ℕ) → n < 2 ^ 31 → i < n → (i * 2 + 1 + 1) % 2 ^ 32 ≡ i * 2 + 1 + 1
right_exact n i small l = omega arith

best_of-IsBest : (q : TimerQueue) (i : ℕ) → q.size < 2 ^ 31 → i < q.size → IsBest q i (best_of q i)
unfolding best_of
best_of-IsBest q i small l =
    rw (left_exact q.size i small l, right_exact q.size i small l)
      (ground (
        arith,
        before_cases q (i * 2 + 1) i,
        before_cases q (i * 2 + 1 + 1) i,
        before_cases q (i * 2 + 1 + 1) (i * 2 + 1),
      ))

size-heap_swap : (q : TimerQueue) (a b : ℕ) → (heap_swap q a b).size ≡ q.size
unfolding heap_swap
size-heap_swap q a b = refl

module _ (out extra : ℕ) where
  swap-DownInv :
      (q : TimerQueue) (i m : ℕ)
      → IsLinked out extra q
      → DownInv q i
      → IsBest q i m
      → i < q.size
      → m ≢ i
      → DownInv (heap_swap q i m) m
  swap-DownInv q i m v d b inside ne =
      let below : m < q.size = ground (arith, b.where_is) in
      let apart : i ≢ m = ground arith in
      let mv = heap_swap-Moved out extra q i m v inside below apart in
      let at = key-heap_swap out extra q i m v inside below apart in
      record {
        edges = λ c p r n. ground (
          arith,
          mv.size_kept,
          at c,
          at (parent c),
          d.edges c,
          d.bridged m,
          b.least,
          b.least_child c,
          b.where_is,
        );
        bridged =
            λ c p r e z. ground (arith, mv.size_kept, at c, at (parent m), d.edges c, b.where_is);
      }

  -- In order also below `i`.
  low_settled : (q : TimerQueue) (i : ℕ) → DownInv q i → IsBest q i i → IsHeap q
  low_settled q i d b = λ c p r. ground (arith, d.edges c, b.least_child c)

  down_stops : (k : ℕ) (q : TimerQueue) (i : ℕ) → best_of q i ≡ i → down_loop k q i ≡ q
  unfolding down_loop
  down_stops zero q i h = refl
  down_stops (suc k) q i h = if_true (best_of q i == i) _ _ (ground arith)

  down_moves :
      (k : ℕ) (q : TimerQueue) (i : ℕ)
      → best_of q i ≢ i
      → down_loop (suc k) q i ≡ down_loop k (heap_swap q i (best_of q i)) (best_of q i)
  unfolding down_loop
  down_moves k q i h = if_false (best_of q i == i) _ _ (ground arith)

  -- One round, and what is to be shown of the others.
  sink :
      (k : ℕ) (q : TimerQueue) (i m : ℕ)
      → q.size - i < suc k
      → IsLinked out extra q
      → DownInv q i
      → IsBest q i m
      → m ≢ i
      → ((heap_swap q i m).size - m < k
          → m < (heap_swap q i m).size
          → IsLinked out extra (heap_swap q i m)
          → DownInv (heap_swap q i m) m
          → IsRestored out extra (heap_swap q i m) (down_loop k (heap_swap q i m) m))
      → IsRestored out extra q (down_loop k (heap_swap q i m) m)
  sink k q i m f v d b ne rest =
      let below : m < q.size = ground (arith, b.where_is) in
      let inside : i < q.size = ground (arith, b.where_is) in
      let apart : i ≢ m = ground arith in
      let q' = heap_swap q i m in
      let ih =
        rest (ground (arith, b.where_is, size-heap_swap q i m))
          (omega (arith, below, size-heap_swap q i m))
          (heap_swap-IsLinked out extra q i m v inside below apart)
          (swap-DownInv q i m v d b inside ne) in
      record {
        links = ih.links;
        order = ih.order;
        moved =
            Moved-trans q q' (down_loop k q' m)
              (heap_swap-Moved out extra q i m v inside below apart) ih.moved;
      }

  down_loop_restores :
      (k : ℕ) (q : TimerQueue) (i : ℕ)
      → q.size < 2 ^ 31
      → q.size - i < k
      → i < q.size
      → IsLinked out extra q
      → DownInv q i
      → IsRestored out extra q (down_loop k q i)
  down_loop_restores zero q i small f l v d = absurd (omega arith)
  down_loop_restores (suc k) q i small f l v d = elim (ℕ_discrete (best_of q i) i) [
    | yes e ↦ rw (down_stops (suc k) q i e) (record {
      links = v;
      order = low_settled q i d (rw e at (best_of-IsBest q i small l));
      moved = Moved-refl q;
    })
    | no ne ↦ rw (down_moves k q i ne) (
        sink k q i (best_of q i) f v d (best_of-IsBest q i small l) ne (λ less.
          down_loop_restores k (heap_swap q i (best_of q i)) (best_of q i)
            (omega (arith, size-heap_swap q i (best_of q i), small)) less))
  ]

  -- With order everywhere but below a place, the loop ends with a heap.
  pub down_restores :
      (q : TimerQueue) (i : ℕ)
      → q.size < 2 ^ 31
      → i < q.size
      → IsLinked out extra q
      → DownInv q i
      → IsRestored out extra q (heap_down q i)
  unfolding heap_down
  down_restores q i small l v d = down_loop_restores (q.size + 1) q i small (omega arith) l v d

-- More fuel than there are places from where it starts changes nothing: the loop has ended.
pub down_loop_fuel :
    (k : ℕ) (q : TimerQueue) (i : ℕ)
    → q.size < 2 ^ 31
    → i < q.size
    → q.size - i < k
    → down_loop (suc k) q i ≡ down_loop k q i
unfolding down_loop
down_loop_fuel zero q i small l h = absurd (omega arith)
down_loop_fuel (suc k) q i small l h = ground (
  arith,
  (best_of-IsBest q i small l).where_is,
  size-heap_swap q i (best_of q i),
  down_loop_fuel k (heap_swap q i (best_of q i)) (best_of q i),
)

up_loop_enough : (k n : ℕ) (q : TimerQueue) (i : ℕ) → i < k → up_loop (n + k) q i ≡ up_loop k q i
up_loop_enough k zero q i h = ap (λ m. up_loop m q i) (omega arith)
up_loop_enough k (suc n) q i h =
    ap (λ m. up_loop m q i) (let e : suc n + k ≡ suc (n + k) = omega arith in e)
    ∙ up_loop_fuel (n + k) q i (omega arith)
    ∙ up_loop_enough k n q i h

down_loop_enough :
    (k n : ℕ) (q : TimerQueue) (i : ℕ)
    → q.size < 2 ^ 31
    → i < q.size
    → q.size - i < k
    → down_loop (n + k) q i ≡ down_loop k q i
down_loop_enough k zero q i small l h = ap (λ m. down_loop m q i) (omega arith)
down_loop_enough k (suc n) q i small l h =
    ap (λ m. down_loop m q i) (let e : suc n + k ≡ suc (n + k) = omega arith in e)
    ∙ down_loop_fuel (n + k) q i small l (omega arith)
    ∙ down_loop_enough k n q i small l h

-- In a heap of fewer than 2^31 timers, whatever its order and its links, both loops from one of its places end by
-- themselves: any bound on the rounds above `size` gives the queue of `heap_up` and that of `heap_down`, whose
-- own bounds are `pos + 1` and `size + 1`.
pub heap_loops_end :
    (q : TimerQueue) (pos rounds : ℕ)
    → q.size < 2 ^ 31
    → pos < q.size
    → q.size < rounds
    → (up_loop rounds q pos ≡ heap_up q pos) × (down_loop rounds q pos ≡ heap_down q pos)
unfolding heap_up heap_down
heap_loops_end q pos rounds small inside h = (
  ap (λ m. up_loop m q pos) (omega arith)
      ∙ up_loop_enough (pos + 1) (rounds - (pos + 1)) q pos (omega arith),
  ap (λ m. down_loop m q pos) (omega arith)
      ∙ down_loop_enough (q.size + 1) (rounds - (q.size + 1)) q pos small inside (omega arith),
)

-- Why the bound: the place 2^31 - 1, the last of 2^31 timers, takes the root for its right child.
best_of_wraps :
    (q : TimerQueue)
    → 0 < q.size
    → q.size < 2 ^ 32
    → before q (slot_at q 0) (slot_at q (2 ^ 31 - 1)) ≡ true
    → best_of q (2 ^ 31 - 1) ≡ 0
unfolding best_of
best_of_wraps q some_timer small earlier = ground arith
