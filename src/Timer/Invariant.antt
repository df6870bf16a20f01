-- ===== src/Timer/Invariant.antt =====
-- What every operation of the timer queue keeps.
use c_trpc.Base.{
  ℕ, ◌≤◌, ◌<◌, ◌≡◌, ◌∙◌, List, [], ◌∷◌, Bool, true, false, not, ◌==◌, if◌then◌else◌, arith,
}
use c_trpc.Timer.{TimerQueue, entry, heap_none}
use c_trpc.Timer.Swap.{IsLinked, armed}
use c_trpc.Timer.Order.{IsHeap}

-- Whether a list holds a number.
abbrev pub mem : ℕ → List ℕ → Bool
mem x [] = false
mem x (y ∷ ys) = if y == x then true else mem x ys

-- The free entries from a head on, each once.
abbrev pub Chain : TimerQueue → ℕ → List ℕ → Type 0
Chain q head [] = head ≡ heap_none
Chain q head (x ∷ xs) =
    (head ≡ x) × (x < q.capacity) × (mem x xs ≡ false) × Chain q (entry q x).link xs

pub record IsTimers (q : TimerQueue) : Type 0 where
  pub links : IsLinked heap_none 0 q
  pub order : IsHeap q
  pub free : List ℕ
  pub chain : Chain q q.free_head free
  -- An entry is either in use or on the free list.
  pub used_exactly : (s : ℕ) → s < q.capacity → (entry q s).used ≡ not (mem s free)
  -- A timer stands in the heap exactly while it has a deadline.
  pub armed_exactly :
      (s : ℕ)
      → s < q.capacity
      → (entry q s).used ≡ true
      → armed (entry q s) ≡ not ((entry q s).deadline_ns == 0)

-- The chain only depends on the links of the entries on it.
pub Chain-kept :
    (q r : TimerQueue) (head : ℕ) (xs : List ℕ)
    → q.capacity ≤ r.capacity
    → ((s : ℕ) → mem s xs ≡ true → (entry r s).link ≡ (entry q s).link)
    → Chain q head xs
    → Chain r head xs
Chain-kept q r head [] c h w = w
Chain-kept q r head (x ∷ xs) c h (e, inside, once, w) = (
  e,
  omega (arith, inside, c),
  once,
  rw (h x (ground arith)) (Chain-kept q r (entry q x).link xs c (λ s m. h s (ground arith)) w),
)

inside_from :
    (q : TimerQueue) (head : ℕ) (xs : List ℕ) (s : ℕ)
    → Chain q head xs
    → mem s xs ≡ true
    → s < q.capacity
inside_from q head [] s w m = absurd (ground arith)
inside_from q head (x ∷ xs) s (e, i, o, w) m = ground (arith, inside_from q (entry q x).link xs s w)

pub free_inside : (q : TimerQueue) (v : IsTimers q) (s : ℕ) → mem s v.free ≡ true → s < q.capacity
free_inside q v s m = inside_from q q.free_head v.free s v.chain m

-- A queue whose entries in use and free list are those of a well-formed one.
pub rebuilt-IsTimers :
    (q r : TimerQueue)
    → IsTimers q
    → IsLinked heap_none 0 r
    → IsHeap r
    → r.free_head ≡ q.free_head
    → r.capacity ≡ q.capacity
    → ((s : ℕ) → (entry r s).used ≡ (entry q s).used)
    → ((s : ℕ) → (entry q s).used ≡ false → (entry r s).link ≡ (entry q s).link)
    → ((s : ℕ)
        → s < r.capacity
        → (entry r s).used ≡ true
        → armed (entry r s) ≡ not ((entry r s).deadline_ns == 0))
    → IsTimers r
rebuilt-IsTimers q r v links order f c u l a = record {
  links = links;
  order = order;
  free = v.free;
  chain = rw f (
      Chain-kept q r q.free_head v.free (omega (arith, c))
        (λ s m. ground (arith, l s, v.used_exactly s, free_inside q v s m)) v.chain);
  used_exactly = λ s h. u s ∙ v.used_exactly s (omega (arith, c, h));
  armed_exactly = a;
}
