-- ===== src/Timer/Up.antt =====
-- Moving a timer towards the root.
use c_trpc.Base.{
  ℕ, zero, suc, ◌+◌, ◌≤◌, ◌<◌, ◌≡◌, ◌≢◌, ◌⊎◌, inl, inr, refl, ◌∙◌, Bool-cases, true, false, not,
  ◌==◌, if_false, arith,
}
use c_trpc.Timer.{TimerQueue, slot_at, before, heap_swap, parent, up_loop, heap_up}
use c_trpc.Timer.Swap.{
  IsLinked, Moved, Moved-refl, Moved-trans, heap_swap-Moved, heap_swap-IsLinked,
}
use c_trpc.Timer.Order.{key, IsHeap, IsBridged, before_deadline, not-before_deadline, key-heap_swap}

-- What a move within the heap achieves.
pub record IsRestored (out extra : ℕ) (q r : TimerQueue) : Type 0 where
  pub links : IsLinked out extra r
  pub order : IsHeap r
  pub moved : Moved q r

-- Only the edge above `i` may be out of order.
pub record UpInv (q : TimerQueue) (i : ℕ) : Type 0 where
  pub inside : i < q.size
  pub edges : (c : ℕ) → 0 < c → c < q.size → c ≢ i → key q (parent c) ≤ key q c
  pub bridged : IsBridged q i

module _ (out extra : ℕ) where
  swap-UpInv :
      (q : TimerQueue) (i : ℕ)
      → IsLinked out extra q
      → UpInv q i
      → 0 < i
      → key q i ≤ key q (parent i)
      → UpInv (heap_swap q i (parent i)) (parent i)
  swap-UpInv q i v u pos below =
      let above : parent i < q.size = omega (arith, u.inside) in
      let apart : i ≢ parent i = omega (arith, pos) in
      let m = heap_swap-Moved out extra q i (parent i) v u.inside above apart in
      let at = key-heap_swap out extra q i (parent i) v u.inside above apart in
      record {
        inside = omega (arith, m.size_kept, u.inside);
        edges = λ c p r n. ground (arith, m.size_kept, at c, at (parent c), u.edges c, u.bridged c);
        bridged = λ c p r e z.
            ground
              (arith, m.size_kept, at c, at (parent (parent i)), u.edges c, u.edges (parent i));
      }

  up_stops_root : (k : ℕ) (q : TimerQueue) → up_loop k q 0 ≡ q
  unfolding up_loop
  up_stops_root zero q = refl
  up_stops_root (suc k) q = refl

  up_stops :
      (k : ℕ) (q : TimerQueue) (i : ℕ)
      → before q (slot_at q i) (slot_at q (parent i)) ≡ false
      → up_loop k q i ≡ q
  unfolding up_loop
  up_stops zero q i h = refl
  up_stops (suc k) q i h = ground arith

  up_moves :
      (k : ℕ) (q : TimerQueue) (i : ℕ)
      → 0 < i
      → before q (slot_at q i) (slot_at q (parent i)) ≡ true
      → up_loop (suc k) q i ≡ up_loop k (heap_swap q i (parent i)) (parent i)
  unfolding up_loop
  up_moves k q i pos h =
      if_false (i == 0) _ _ (ground arith)
      ∙ if_false (not (before q (slot_at q i) (slot_at q (parent i)))) _ _ (ground arith)

  -- In order also above `i`.
  settled : (q : TimerQueue) (i : ℕ) → UpInv q i → (0 < i → key q (parent i) ≤ key q i) → IsHeap q
  settled q i u h = λ c p r. ground (arith, u.edges c, h)

  -- One round, and what is to be shown of the others.
  rise :
      (k : ℕ) (q : TimerQueue) (i : ℕ)
      → i < suc k
      → IsLinked out extra q
      → UpInv q i
      → 0 < i
      → before q (slot_at q i) (slot_at q (parent i)) ≡ true
      → (parent i < k
          → IsLinked out extra (heap_swap q i (parent i))
          → UpInv (heap_swap q i (parent i)) (parent i)
          → IsRestored out extra
              (heap_swap q i (parent i))
              (up_loop k (heap_swap q i (parent i)) (parent i)))
      → IsRestored out extra q (up_loop k (heap_swap q i (parent i)) (parent i))
  rise k q i f v u pos lower rest =
      let above : parent i < q.size = omega (arith, u.inside) in
      let apart : i ≢ parent i = omega (arith, pos) in
      let q' = heap_swap q i (parent i) in
      let ih =
        rest (omega arith) (heap_swap-IsLinked out extra q i (parent i) v u.inside above apart)
          (swap-UpInv q i v u pos (before_deadline q (slot_at q i) (slot_at q (parent i)) lower)) in
      record {
        links = ih.links;
        order = ih.order;
        moved =
            Moved-trans q q' (up_loop k q' (parent i))
              (heap_swap-Moved out extra q i (parent i) v u.inside above apart) ih.moved;
      }

  up_loop_restores :
      (k : ℕ) (q : TimerQueue) (i : ℕ)
      → i < k
      → IsLinked out extra q
      → UpInv q i
      → IsRestored out extra q (up_loop k q i)
  up_loop_restores zero q i f v u = absurd (omega arith)
  up_loop_restores (suc k) q zero f v u = rw (up_stops_root (suc k) q) (record {
    links = v;
    order = settled q 0 u (λ z. absurd (omega arith));
    moved = Moved-refl q;
  })
  up_loop_restores (suc k) q (suc j) f v u =
      elim (Bool-cases (before q (slot_at q (suc j)) (slot_at q (parent (suc j))))) [
        | inl lower ↦ rw (up_moves k q (suc j) (omega arith) lower) (
            rise k q (suc j) f v u (omega arith) lower
              (up_loop_restores k (heap_swap q (suc j) (parent (suc j))) (parent (suc j))))
        | inr stop ↦ rw (up_stops (suc k) q (suc j) stop) (record {
          links = v;
          order = settled q (suc j) u (λ z. not-before_deadline q _ _ stop);
          moved = Moved-refl q;
        })
      ]

  -- From a place below the size, with order everywhere but above it, the loop ends with a heap.
  pub up_restores :
      (q : TimerQueue) (i : ℕ)
      → IsLinked out extra q
      → UpInv q i
      → IsRestored out extra q (heap_up q i)
  unfolding heap_up
  up_restores q i v u = up_loop_restores (i + 1) q i (omega arith) v u

  pub up_at_rest :
      (q : TimerQueue) (i : ℕ)
      → (i ≡ 0) ⊎ (before q (slot_at q i) (slot_at q (parent i)) ≡ false)
      → heap_up q i ≡ q
  unfolding heap_up
  up_at_rest q zero h = up_stops_root 1 q
  up_at_rest q (suc j) (inl e) = absurd (omega arith)
  up_at_rest q (suc j) (inr e) = up_stops (suc j + 1) q (suc j) e

-- More fuel than the place it starts from changes nothing: the loop has ended.
pub up_loop_fuel : (k : ℕ) (q : TimerQueue) (i : ℕ) → i < k → up_loop (suc k) q i ≡ up_loop k q i
unfolding up_loop
up_loop_fuel zero q i h = absurd (omega arith)
up_loop_fuel (suc k) q i h = ground (arith, up_loop_fuel k (heap_swap q i (parent i)) (parent i))
