-- ===== src/Timer/Store.antt =====
-- Writing to an entry of the timer queue, its place in the heap aside.
use c_trpc.Base.{
  ℕ, zero, suc, ◌+◌, ◌≤◌, ◌<◌, ◌≡◌, ◌≢◌, ◌∙◌, List, [], ◌∷◌, length, length-set, get_or, get_or-set,
  set, true, false, ◌==◌, if◌then◌else◌, arith,
}
use c_trpc.Timer.{
  TimerQueue, Entry, zero_entry, entry, slot_at, with_entry, set_link, parent, heap_none,
}
use c_trpc.Timer.Swap.{IsLinked, armed, armed_count, armed_count-set, entry-set_link}
use c_trpc.Timer.Order.{IsHeap}
use c_trpc.Timer.Up.{UpInv}
use c_trpc.Timer.Down.{DownInv}
use c_trpc.Timer.Remove.{IsHole}

pub entry-with_entry :
    (q : TimerQueue) (slot : ℕ) (e : Entry) (s : ℕ)
    → slot < length q.entries
    → entry (with_entry q slot e) s ≡ (if slot == s then e else entry q s)
entry-with_entry q slot e s h = get_or-set q.entries slot s e zero_entry h

module _ (q : TimerQueue) (slot : ℕ) (e : Entry) (v : IsLinked heap_none 0 q)
    (inside : slot < q.capacity) (same : armed e ≡ armed (entry q slot))
    (link : armed e ≡ true → e.link ≡ (entry q slot).link) where
  at : (s : ℕ) → entry (with_entry q slot e) s ≡ (if slot == s then e else entry q s)
  at s = entry-with_entry q slot e s (omega (arith, v.entries_length, inside))

  -- A write that leaves an entry in the heap where it is, or out of it.
  pub with_entry-IsLinked : IsLinked heap_none 0 (with_entry q slot e)
  with_entry-IsLinked = record {
    entries_length = length-set q.entries slot e ∙ v.entries_length;
    heap_length = v.heap_length;
    capacity_fits = v.capacity_fits;
    bounded = v.bounded;
    counted =
        ground (arith, armed_count-set q.entries slot e, inside, v.entries_length, v.counted, same);
    inside = v.inside;
    linked = λ i l.
        ground
          (arith, at (slot_at q i), v.linked i, v.in_use i, same, link, v.bounded, v.capacity_fits);
    in_use = λ i l.
        ground (arith, at (slot_at q i), v.in_use i, v.linked i, same, v.bounded, v.capacity_fits);
    staying = v.staying;
    placed = λ s l o a. ground (arith, at s, v.placed s, same, link);
  }

  -- If the entry stands at a place of the heap, then its deadline alone may be out of order.
  pub with_entry-IsHole :
      (i : ℕ) → i < q.size → slot_at q i ≡ slot → IsHeap q → IsHole (with_entry q slot e) i
  with_entry-IsHole i l here h = record {
    inside = l;
    edges = λ c p r n m. ground (
      arith,
      at (slot_at q c),
      at (slot_at q (parent c)),
      h c,
      v.linked i l,
      v.linked c r,
      v.linked (parent c),
    );
    bridged = λ c p r w z. ground (
      arith,
      at (slot_at q c),
      at (slot_at q (parent i)),
      h c,
      h i,
      v.linked i l,
      v.linked c r,
      v.linked (parent i),
    );
  }

  -- An earlier deadline may have to move up, a later one down.
  pub with_entry-UpInv :
      (i : ℕ)
      → i < q.size
      → slot_at q i ≡ slot
      → IsHeap q
      → e.deadline_ns ≤ (entry q slot).deadline_ns
      → UpInv (with_entry q slot e) i
  with_entry-UpInv i l here h less = record {
    inside = l;
    edges = λ c p r n. ground (
      arith,
      at (slot_at q c),
      at (slot_at q (parent c)),
      h c,
      v.linked i l,
      v.linked c r,
      v.linked (parent c),
    );
    bridged = (with_entry-IsHole i l here h).bridged;
  }

  pub with_entry-DownInv :
      (i : ℕ)
      → i < q.size
      → slot_at q i ≡ slot
      → IsHeap q
      → (entry q slot).deadline_ns ≤ e.deadline_ns
      → DownInv (with_entry q slot e) i
  with_entry-DownInv i l here h more = record {
    edges = λ c p r n. ground (
      arith,
      at (slot_at q c),
      at (slot_at q (parent c)),
      h c,
      v.linked i l,
      v.linked c r,
      v.linked (parent c),
    );
    bridged = (with_entry-IsHole i l here h).bridged;
  }

  -- The deadline of an entry that is not in the heap is no matter of order.
  pub with_entry-IsHeap : armed (entry q slot) ≡ false → IsHeap q → IsHeap (with_entry q slot e)
  with_entry-IsHeap out h = λ c p r. ground (
    arith,
    at (slot_at q c),
    at (slot_at q (parent c)),
    h c,
    v.linked c r,
    v.in_use c r,
    v.in_use (parent c),
    v.linked (parent c),
    v.bounded,
    v.capacity_fits,
  )

pub free_head-IsLinked :
    (q : TimerQueue) (head : ℕ)
    → IsLinked heap_none 0 q
    → IsLinked heap_none 0 (record q { free_head = head })
free_head-IsLinked q head v = record {
  entries_length = v.entries_length;
  heap_length = v.heap_length;
  capacity_fits = v.capacity_fits;
  bounded = v.bounded;
  counted = v.counted;
  inside = v.inside;
  linked = v.linked;
  in_use = v.in_use;
  staying = v.staying;
  placed = v.placed;
}

-- A list with an entry that is not in the heap counts less than its length.
armed_count_bounded : (es : List Entry) → armed_count es ≤ length es
armed_count_bounded [] = omega arith
armed_count_bounded (e ∷ es) = ground (arith, armed_count_bounded es)

pub armed_count_spare :
    (es : List Entry) (s : ℕ)
    → s < length es
    → armed (get_or es s zero_entry) ≡ false
    → armed_count es < length es
armed_count_spare [] s h a = absurd (omega arith)
armed_count_spare (e ∷ es) zero h a = ground (arith, armed_count_bounded es)
armed_count_spare (e ∷ es) (suc s) h a = ground (arith, armed_count_spare es s)

-- A registered timer put behind the heap.
abbrev pub behind : TimerQueue → ℕ → TimerQueue
behind q slot = set_link (record q { size = q.size + 1; heap = set q.heap q.size slot }) slot q.size

module _ (q : TimerQueue) (slot : ℕ) (v : IsLinked heap_none 0 q) (inside : slot < q.capacity)
    (used : (entry q slot).used ≡ true) (idle : (entry q slot).link ≡ heap_none) where
  pub has_room : q.size < q.capacity
  has_room =
      ground
        (arith, armed_count_spare q.entries slot, v.entries_length, v.counted, inside, used, idle)

  pub entry-behind :
      (s : ℕ)
      → entry (behind q slot) s
        ≡ (if slot == s then record (entry q s) { link = q.size } else entry q s)
  entry-behind s =
      entry-set_link (record q { size = q.size + 1; heap = set q.heap q.size slot }) slot q.size s
        (omega (arith, v.entries_length, inside))

  slot_at-behind : (i : ℕ) → slot_at (behind q slot) i ≡ (if q.size == i then slot else slot_at q i)
  slot_at-behind i = get_or-set q.heap q.size i slot 0 (omega (arith, v.heap_length, has_room))

  others : (i : ℕ) → i < q.size → slot_at q i ≢ slot
  others i l e = ground (arith, v.linked i l, v.bounded, v.capacity_fits)

  pub behind-IsLinked : IsLinked heap_none 0 (behind q slot)
  behind-IsLinked = record {
    entries_length =
        length-set q.entries slot (record (entry q slot) { link = q.size }) ∙ v.entries_length;
    heap_length = length-set q.heap q.size slot ∙ v.heap_length;
    capacity_fits = v.capacity_fits;
    bounded = omega (arith, has_room);
    counted = ground (
      arith,
      has_room,
      armed_count-set q.entries slot (record (entry q slot) { link = q.size }),
      inside,
      v.entries_length,
      v.counted,
      v.bounded,
      v.capacity_fits,
    );
    inside = λ i l. ground (arith, slot_at-behind i, v.inside i);
    linked = λ i l.
        ground
          (arith, slot_at-behind i, entry-behind (slot_at (behind q slot) i), v.linked i, others i);
    in_use = λ i l.
        ground (arith, slot_at-behind i, entry-behind (slot_at (behind q slot) i), v.in_use i);
    staying = λ i l. ground (arith, slot_at-behind i, v.staying i, v.capacity_fits);
    placed = λ s l o a.
        ground (arith, entry-behind s, v.placed s, slot_at-behind (entry (behind q slot) s).link);
  }

  pub behind-UpInv : IsHeap q → UpInv (behind q slot) q.size
  behind-UpInv h = record {
    inside = omega arith;
    edges = λ c p r n. ground (
      arith,
      slot_at-behind c,
      slot_at-behind (parent c),
      entry-behind (slot_at q c),
      entry-behind (slot_at q (parent c)),
      h c,
    );
    bridged = λ c p r e z. absurd (omega arith);
  }
