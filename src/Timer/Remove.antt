-- ===== src/Timer/Remove.antt =====
-- Taking a timer out of the heap.
use c_trpc.Base.{
  ℕ, zero, suc, ◌+◌, ◌-◌, ◌^◌, ◌≤◌, ◌<◌, ◌≡◌, ◌≢◌, inl, inr, refl, ap, sym, ◌∙◌, length-set,
  get_or-set, set, Bool-cases, true, false, not, ◌==◌, leb, if◌then◌else◌, if_true, if_false, arith,
}
use mathlib.Core.Path.{subst}
use native.Mathlib.Decide.{ℕ_discrete}
use c_trpc.Timer.{
  TimerQueue, entry, slot_at, before, set_link, parent, heap_up, heap_down, refill, heap_remove,
  heap_none,
}
use c_trpc.Timer.Swap.{
  IsLinked, Moved, Moved-refl, Moved-trans, armed, armed_count-set, armed_count_pointwise,
  entry-set_link,
}
use c_trpc.Timer.Order.{key, IsHeap, IsBridged, before_deadline, not-before_deadline}
use c_trpc.Timer.Up.{IsRestored, up_restores, up_at_rest}
use c_trpc.Timer.Down.{DownInv, IsHeap-DownInv, down_restores}

-- Order everywhere but above and below a place.
pub record IsHole (q : TimerQueue) (i : ℕ) : Type 0 where
  pub inside : i < q.size
  pub edges : (c : ℕ) → 0 < c → c < q.size → c ≢ i → parent c ≢ i → key q (parent c) ≤ key q c
  pub bridged : IsBridged q i

module _ (out extra : ℕ) where
  -- After the move up, only the edges below the timer may be out of order, wherever it stands.
  up_hole :
      (q : TimerQueue) (i : ℕ)
      → IsLinked out extra q
      → IsHole q i
      → let r = heap_up q i in
        IsLinked out extra r × DownInv r (entry r (slot_at q i)).link × Moved q r
  up_hole q zero v h = rw (up_at_rest out extra q 0 (inl refl)) (
    v,
    rw (v.linked 0 h.inside)
        (record { edges = λ c p r n. h.edges c p r (ground arith) n; bridged = h.bridged }),
    Moved-refl q,
  )
  up_hole q (suc j) v h =
      elim (Bool-cases (before q (slot_at q (suc j)) (slot_at q (parent (suc j))))) [
        | inr stop ↦ rw (up_at_rest out extra q (suc j) (inr stop)) (
          v,
          rw (v.linked (suc j) h.inside) (record {
            edges = λ c p r n. ground (
              arith,
              h.edges c,
              not-before_deadline q (slot_at q (suc j)) (slot_at q (parent (suc j))) stop,
            );
            bridged = h.bridged;
          }),
          Moved-refl q,
        )
        | inl lower ↦
            let restored = up_restores out extra q (suc j) v (record {
              inside = h.inside;
              edges = λ c p r n. ground (
                arith,
                h.edges c,
                h.bridged c,
                before_deadline q (slot_at q (suc j)) (slot_at q (parent (suc j))) lower,
              );
              bridged = h.bridged;
            }) in
            (
              restored.links,
              IsHeap-DownInv (heap_up q (suc j))
                  (entry (heap_up q (suc j)) (slot_at q (suc j))).link restored.order,
              restored.moved,
            )
      ]

  -- The timer is still in the heap.
  still_inside :
      (q : TimerQueue) (i : ℕ)
      → IsLinked out extra q
      → IsHole q i
      → (entry (heap_up q i) (slot_at q i)).link < (heap_up q i).size
  still_inside q i v h =
      let u = up_hole q i v h in
      (u.0.placed (slot_at q i) (omega (arith, u.2.capacity_kept, v.inside i h.inside))
        (v.staying i h.inside)
        (u.2.armed_kept (slot_at q i)
          ∙ ground (
            arith,
            v.linked i h.inside,
            v.in_use i h.inside,
            v.bounded,
            v.capacity_fits,
            h.inside,
          ))).0

  -- A hole that was filled is in order after the moves up and down.
  pub hole_restores :
      (q : TimerQueue) (i : ℕ)
      → q.size < 2 ^ 31
      → IsLinked out extra q
      → IsHole q i
      → IsRestored out extra q (heap_down (heap_up q i) (entry (heap_up q i) (slot_at q i)).link)
  hole_restores q i small v h =
      let u = up_hole q i v h in
      let r = heap_up q i in
      let d =
        down_restores out extra r (entry r (slot_at q i)).link (omega (arith, u.2.size_kept, small))
          (still_inside q i v h) u.0 u.1 in
      record {
        links = d.links;
        order = d.order;
        moved = Moved-trans q r (heap_down r (entry r (slot_at q i)).link) u.2 d.moved;
      }

pub IsHeap-IsHole : (q : TimerQueue) (i : ℕ) → i < q.size → IsHeap q → IsHole q i
IsHeap-IsHole q i inside h = record {
  inside = inside;
  edges = λ c p r n m. h c p r;
  bridged = λ c p r e z. ground (arith, h c, h i);
}

-- What the removal of the slot `x` from the heap achieves.
pub record IsRemoved (x : ℕ) (q r : TimerQueue) : Type 0 where
  pub links : IsLinked heap_none 0 r
  pub order : IsHeap r
  pub size_less : r.size + 1 ≡ q.size
  pub capacity_kept : r.capacity ≡ q.capacity
  pub free_kept : r.free_head ≡ q.free_head
  pub entry_kept : (s : ℕ) → entry r s ≡ record (entry q s) { link = (entry r s).link }
  pub armed_kept : (s : ℕ) → s ≢ x → armed (entry r s) ≡ armed (entry q s)
  pub idle_kept : (s : ℕ) → armed (entry q s) ≡ false → (entry r s).link ≡ (entry q s).link
  pub gone : (entry r x).link ≡ heap_none

module _ (q : TimerQueue) (pos : ℕ) (small : q.size < 2 ^ 31) (v : IsLinked heap_none 0 q)
    (h : IsHole q pos) where
  -- The removed slot, and the queue that is one shorter.
  abbrev x : ℕ
  x = slot_at q pos

  abbrev shorter : TimerQueue
  shorter = record q { size = q.size - 1 }

  x-armed : armed (entry q x) ≡ true
  x-armed =
      ground
        (arith, v.linked pos h.inside, v.in_use pos h.inside, v.bounded, v.capacity_fits, h.inside)

  others : (i : ℕ) → i < q.size → i ≢ pos → slot_at q i ≢ x
  others i l ne e = ne (sym (v.linked i l) ∙ ap (λ s. (entry q s).link) e ∙ v.linked pos h.inside)

  -- The queue with the last slot in the place of the removed one.
  abbrev moved_in : TimerQueue
  moved_in =
      set_link (record shorter { heap = set q.heap pos (slot_at q (q.size - 1)) })
        (slot_at q (q.size - 1)) pos

  module _ (inner : pos ≢ q.size - 1) where
    slot_at-moved_in :
        (i : ℕ) → slot_at moved_in i ≡ (if pos == i then slot_at q (q.size - 1) else slot_at q i)
    slot_at-moved_in i =
        get_or-set q.heap pos i (slot_at q (q.size - 1)) 0
          (omega (arith, v.heap_length, v.bounded, h.inside))

    entry-moved_in :
        (s : ℕ)
        → entry moved_in s
          ≡ (if slot_at q (q.size - 1) == s then record (entry q s) { link = pos } else entry q s)
    entry-moved_in s =
        entry-set_link (record shorter { heap = set q.heap pos (slot_at q (q.size - 1)) })
          (slot_at q (q.size - 1)) pos s
          (omega (arith, v.entries_length, v.inside (q.size - 1), h.inside))

    last_armed : armed (entry q (slot_at q (q.size - 1))) ≡ true
    last_armed =
        ground (
          arith,
          v.linked (q.size - 1),
          v.in_use (q.size - 1),
          v.bounded,
          v.capacity_fits,
          h.inside,
        )

    armed-moved_in : (s : ℕ) → armed (entry moved_in s) ≡ armed (entry q s)
    armed-moved_in s =
        ground (arith, entry-moved_in s, last_armed, v.bounded, v.capacity_fits, h.inside)

    moved_in-IsLinked : IsLinked x 1 moved_in
    moved_in-IsLinked =
        let last = slot_at q (q.size - 1) in
        record {
          entries_length =
              length-set q.entries last (record (entry q last) { link = pos }) ∙ v.entries_length;
          heap_length = length-set q.heap pos last ∙ v.heap_length;
          capacity_fits = v.capacity_fits;
          bounded = omega (arith, v.bounded);
          counted =
              armed_count_pointwise moved_in.entries q.entries
                (length-set q.entries last (record (entry q last) { link = pos })) armed-moved_in
              ∙ omega (arith, v.counted, h.inside);
          inside = λ i l. ground (arith, slot_at-moved_in i, v.inside i, v.inside (q.size - 1));
          linked = λ i l. ground (
            arith,
            slot_at-moved_in i,
            entry-moved_in (slot_at moved_in i),
            v.linked i,
            v.linked (q.size - 1),
          );
          in_use = λ i l. ground (
            arith,
            slot_at-moved_in i,
            entry-moved_in (slot_at moved_in i),
            v.in_use i,
            v.in_use (q.size - 1),
          );
          staying = λ i l.
              ground (arith, slot_at-moved_in i, others i, others (q.size - 1), h.inside, inner);
          placed = λ s l o a. ground (
            arith,
            armed-moved_in s,
            v.placed s,
            entry-moved_in s,
            slot_at-moved_in (entry moved_in s).link,
            v.linked (q.size - 1),
            h.inside,
            inner,
          );
        }

    key-moved_in : (i : ℕ) → key moved_in i ≡ (if pos == i then key q (q.size - 1) else key q i)
    key-moved_in i = ground (arith, entry-moved_in (slot_at moved_in i), slot_at-moved_in i)

    moved_in-IsHole : IsHole moved_in pos
    moved_in-IsHole = record {
      inside = omega (arith, h.inside, inner);
      edges = λ c p r n m. ground (arith, key-moved_in c, key-moved_in (parent c), h.edges c);
      bridged = λ c p r e z. ground (arith, key-moved_in c, key-moved_in (parent pos), h.bridged c);
    }

  -- The queue before the removed slot loses its link.
  record IsDetached (r : TimerQueue) : Type 0 where
    links : IsLinked x 1 r
    order : IsHeap r
    size_less : r.size + 1 ≡ q.size
    capacity_kept : r.capacity ≡ q.capacity
    free_kept : r.free_head ≡ q.free_head
    entry_kept : (s : ℕ) → entry r s ≡ record (entry q s) { link = (entry r s).link }
    armed_kept : (s : ℕ) → armed (entry r s) ≡ armed (entry q s)
    idle_kept : (s : ℕ) → armed (entry q s) ≡ false → (entry r s).link ≡ (entry q s).link

  unlinked-IsRemoved : (r : TimerQueue) → IsDetached r → IsRemoved x q (set_link r x heap_none)
  unlinked-IsRemoved r d =
      let x_inside : x < r.capacity = omega (arith, d.capacity_kept, v.inside pos h.inside) in
      let en = λ (s : ℕ).
        entry-set_link r x heap_none s (omega (arith, x_inside, d.links.entries_length)) in
      record {
        links = record {
          entries_length =
              length-set r.entries x (record (entry r x) { link = heap_none })
              ∙ d.links.entries_length;
          heap_length = d.links.heap_length;
          capacity_fits = d.links.capacity_fits;
          bounded = d.links.bounded;
          counted = ground (
            arith,
            armed_count-set r.entries x (record (entry r x) { link = heap_none }),
            x_inside,
            d.links.entries_length,
            d.links.counted,
            d.armed_kept x,
            x-armed,
          );
          inside = d.links.inside;
          linked = λ i l. ground (arith, en (slot_at r i), d.links.linked i, d.links.staying i);
          in_use = λ i l. ground (arith, en (slot_at r i), d.links.in_use i);
          staying = λ i l. omega (arith, d.links.inside i l, d.links.capacity_fits);
          placed = λ s l o a. ground (arith, en s, d.links.placed s);
        };
        order = λ c p l. ground (arith, d.order c p l, en (slot_at r c), en (slot_at r (parent c)));
        size_less = d.size_less;
        capacity_kept = d.capacity_kept;
        free_kept = d.free_kept;
        entry_kept = λ s. ground (arith, en s, d.entry_kept s);
        armed_kept = λ s n. ground (arith, en s, d.armed_kept s);
        idle_kept = λ s a. ground (arith, en s, d.idle_kept s, x-armed);
        gone = ground (arith, en x);
      }

  last_place : pos ≡ q.size - 1 → IsDetached shorter
  last_place e = record {
    links = record {
      entries_length = v.entries_length;
      heap_length = v.heap_length;
      capacity_fits = v.capacity_fits;
      bounded = omega (arith, v.bounded);
      counted = omega (arith, v.counted, h.inside);
      inside = λ i l. v.inside i (omega arith);
      linked = λ i l. v.linked i (omega arith);
      in_use = λ i l. v.in_use i (omega arith);
      staying = λ i l. others i (omega arith) (omega arith);
      placed = λ s l o a. ground (arith, v.placed s, o);
    };
    order = λ c p l. h.edges c p (omega arith) (omega arith) (omega arith);
    size_less = omega (arith, h.inside);
    capacity_kept = refl;
    free_kept = refl;
    entry_kept = λ s. refl;
    armed_kept = λ s. refl;
    idle_kept = λ s a. refl;
  }

  inner_place : pos ≢ q.size - 1 → IsDetached (refill shorter pos)
  unfolding refill
  inner_place n = subst (λ s. IsDetached (placed_from s)) slot_at_pos built
    where
      slot_at_pos : slot_at moved_in pos ≡ slot_at q (q.size - 1)
      slot_at_pos = ground (arith, slot_at-moved_in n pos)

      placed_from : ℕ → TimerQueue
      placed_from s = heap_down (heap_up moved_in pos) (entry (heap_up moved_in pos) s).link

      built : IsDetached (placed_from (slot_at moved_in pos))
      built =
          let w =
            hole_restores x 1 moved_in pos (omega (arith, small)) (moved_in-IsLinked n)
              (moved_in-IsHole n) in
          record {
            links = w.links;
            order = w.order;
            size_less = omega (arith, w.moved.size_kept, h.inside);
            capacity_kept = w.moved.capacity_kept;
            free_kept = w.moved.free_kept;
            entry_kept = λ s. ground (arith, w.moved.entry_kept s, entry-moved_in n s);
            armed_kept = λ s. w.moved.armed_kept s ∙ armed-moved_in n s;
            idle_kept = λ s a.
                ground (
                  arith,
                  w.moved.idle_kept s,
                  armed-moved_in n s,
                  entry-moved_in n s,
                  last_armed n,
                );
          }

  -- Removing the slot at a place of the heap, whose deadline alone may be out of order.
  pub heap_remove-IsRemoved : IsRemoved x q (heap_remove q pos)
  unfolding heap_remove
  heap_remove-IsRemoved = elim (ℕ_discrete pos (q.size - 1)) [
    | yes e ↦ rw (if_false (leb q.size pos) _ _ (ground (arith, h.inside))) (
        rw (if_false (not (pos == q.size - 1)) (refill shorter pos) shorter (ground arith))
          (unlinked-IsRemoved shorter (last_place e)))
    | no n ↦ rw (if_false (leb q.size pos) _ _ (ground (arith, h.inside))) (
        rw (if_true (not (pos == q.size - 1)) (refill shorter pos) shorter (ground arith))
          (unlinked-IsRemoved (refill shorter pos) (inner_place n)))
  ]
