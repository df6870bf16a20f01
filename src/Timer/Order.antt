-- ===== src/Timer/Order.antt =====
-- The order of the heap: no timer is due before its parent.
use c_trpc.Base.{ℕ, zero, suc, ◌≤◌, ◌<◌, ◌≡◌, ◌≢◌, ap, ◌∙◌, true, false, ◌==◌, if◌then◌else◌, arith}
use c_trpc.Timer.{TimerQueue, Entry, entry, slot_at, before, heap_swap, parent}
use c_trpc.Timer.Swap.{IsLinked, Moved, slot_at-heap_swap, heap_swap-Moved}

-- The deadline at a place of the heap.
abbrev pub key : TimerQueue → ℕ → ℕ
key q i = (entry q (slot_at q i)).deadline_ns

abbrev pub IsHeap : TimerQueue → Type 0
IsHeap q = (c : ℕ) → 0 < c → c < q.size → key q (parent c) ≤ key q c

-- The edges past `i`, from its parent to its children, are in order.
abbrev pub IsBridged : TimerQueue → ℕ → Type 0
IsBridged q i = (c : ℕ) → 0 < c → c < q.size → parent c ≡ i → 0 < i → key q (parent i) ≤ key q c

pub before_deadline :
    (q : TimerQueue) (s t : ℕ)
    → before q s t ≡ true
    → (entry q s).deadline_ns ≤ (entry q t).deadline_ns
unfolding before
before_deadline q s t h = ground arith

pub not-before_deadline :
    (q : TimerQueue) (s t : ℕ)
    → before q s t ≡ false
    → (entry q t).deadline_ns ≤ (entry q s).deadline_ns
unfolding before
not-before_deadline q s t h = ground arith

-- Moving slots about changes no deadline.
pub Moved-deadline :
    (q r : TimerQueue) (s : ℕ) → Moved q r → (entry r s).deadline_ns ≡ (entry q s).deadline_ns
Moved-deadline q r s m = ap (λ (e : Entry). e.deadline_ns) (m.entry_kept s)

module _ (out extra : ℕ) (q : TimerQueue) (a b : ℕ) (v : IsLinked out extra q) (ha : a < q.size)
    (hb : b < q.size) (ne : a ≢ b) where
  pub key-heap_swap :
      (i : ℕ)
      → key (heap_swap q a b) i ≡ (if b == i then key q a else if a == i then key q b else key q i)
  key-heap_swap i =
      Moved-deadline q (heap_swap q a b) (slot_at (heap_swap q a b) i)
        (heap_swap-Moved out extra q a b v ha hb ne)
      ∙ ap (λ s. (entry q s).deadline_ns) (slot_at-heap_swap out extra q a b v ha hb ne i)
      ∙ ground arith

root_least_below :
    (k : ℕ) (q : TimerQueue) (i : ℕ) → IsHeap q → i < k → i < q.size → key q 0 ≤ key q i
root_least_below zero q i h f p = absurd (omega arith)
root_least_below (suc k) q i h f p = ground (arith, h i, root_least_below k q (parent i) h)

-- The root of the heap has the least deadline.
pub root_least : (q : TimerQueue) (i : ℕ) → IsHeap q → i < q.size → key q 0 ≤ key q i
root_least q i h p = root_least_below (suc i) q i h (omega arith) p
