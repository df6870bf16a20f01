-- ===== src/Timer/Place.antt =====
-- Moving the timer of a slot to where its new deadline belongs.
use c_trpc.Base.{
  ℕ, ◌^◌, ◌≤◌, ◌<◌, ◌≡◌, ◌≢◌, refl, ◌∙◌, true, false, not, ltb, ◌==◌, ◌||◌, if◌then◌else◌, if_cases,
  arith,
}
use mathlib.Core.Path.{subst}
use c_trpc.Status.{Status, ok}
use c_trpc.Timer.{
  Entry, TimerQueue, entry, slot_at, with_entry, heap_up, heap_down, heap_remove, parent,
  place_timer, heap_none,
}
use c_trpc.Timer.Swap.{IsLinked, armed}
use c_trpc.Timer.Order.{IsHeap}
use c_trpc.Timer.Up.{IsRestored, up_restores}
use c_trpc.Timer.Down.{down_restores}
use c_trpc.Timer.Remove.{IsRemoved, heap_remove-IsRemoved}
use c_trpc.Timer.Store.{
  entry-with_entry, with_entry-IsLinked, with_entry-IsHole, with_entry-UpInv, with_entry-DownInv,
  with_entry-IsHeap, has_room, behind, entry-behind, behind-IsLinked, behind-UpInv,
}
use c_trpc.Timer.Invariant.{IsTimers, rebuilt-IsTimers}

-- What a new deadline for the timer of a slot achieves, from the queue that holds the deadline already.
pub record IsPlaced (q : TimerQueue) (slot deadline : ℕ) (r : Status × TimerQueue) : Type 0 where
  pub accepted : r.0 ≡ ok
  pub links : IsLinked heap_none 0 r.1
  pub order : IsHeap r.1
  pub capacity_kept : (r.1).capacity ≡ q.capacity
  pub free_kept : (r.1).free_head ≡ q.free_head
  pub entry_kept : (s : ℕ) → entry r.1 s ≡ record (entry q s) { link = (entry r.1 s).link }
  pub armed_kept : (s : ℕ) → s ≢ slot → armed (entry r.1 s) ≡ armed (entry q s)
  pub idle_kept :
      (s : ℕ) → s ≢ slot → armed (entry q s) ≡ false → (entry r.1 s).link ≡ (entry q s).link
  pub armed_now : armed (entry r.1 slot) ≡ not (deadline == 0)

-- A timer that moved within the heap.
moved-IsPlaced :
    (q r : TimerQueue) (slot deadline : ℕ)
    → IsRestored heap_none 0 q r
    → armed (entry q slot) ≡ true
    → deadline ≢ 0
    → IsPlaced q slot deadline (ok, r)
moved-IsPlaced q r slot deadline m a n = record {
  accepted = refl;
  links = m.links;
  order = m.order;
  capacity_kept = (m.moved).capacity_kept;
  free_kept = (m.moved).free_kept;
  entry_kept = (m.moved).entry_kept;
  armed_kept = λ s d. (m.moved).armed_kept s;
  idle_kept = λ s d i. (m.moved).idle_kept s i;
  armed_now = (m.moved).armed_kept slot ∙ ground (arith, a);
}

-- One that stays where it is.
still-IsPlaced :
    (q : TimerQueue) (slot deadline : ℕ)
    → IsLinked heap_none 0 q
    → IsHeap q
    → armed (entry q slot) ≡ not (deadline == 0)
    → IsPlaced q slot deadline (ok, q)
still-IsPlaced q slot deadline links order a = record {
  accepted = refl;
  links = links;
  order = order;
  capacity_kept = refl;
  free_kept = refl;
  entry_kept = λ s. refl;
  armed_kept = λ s d. refl;
  idle_kept = λ s d i. refl;
  armed_now = a;
}

module _ (q : TimerQueue) (slot deadline version : ℕ) (v : IsTimers q) (inside : slot < q.capacity)
    (used : (entry q slot).used ≡ true) (small : q.size < 2 ^ 31) where
  abbrev pub stored_entry : Entry
  stored_entry = record (entry q slot) { deadline_ns = deadline; version = version }

  -- The queue once the deadline is stored.
  abbrev pub stored : TimerQueue
  stored = with_entry q slot stored_entry

  abbrev pub was : ℕ
  was = (entry q slot).deadline_ns

  entry-stored : (s : ℕ) → entry stored s ≡ (if slot == s then stored_entry else entry q s)
  entry-stored s =
      entry-with_entry q slot stored_entry s (omega (arith, v.links.entries_length, inside))

  stored-IsLinked : IsLinked heap_none 0 stored
  stored-IsLinked = with_entry-IsLinked q slot stored_entry v.links inside refl (λ a. refl)

  -- A timer in the heap stands at its place.
  place_of :
      (entry q slot).link ≢ heap_none
      → ((entry q slot).link < q.size) × (slot_at q (entry q slot).link ≡ slot)
  place_of n =
      v.links.placed slot inside (omega (arith, inside, v.links.capacity_fits))
        (ground (arith, used, n))

  disarmed-IsPlaced :
      (entry q slot).link ≢ heap_none
      → deadline ≡ 0
      → IsPlaced stored slot deadline (ok, heap_remove stored (entry q slot).link)
  disarmed-IsPlaced n z =
      let here = place_of n in
      let w = heap_remove-IsRemoved stored (entry q slot).link small stored-IsLinked (
        with_entry-IsHole q slot stored_entry v.links inside refl (λ a. refl) (entry q slot).link
          here.0 here.1 v.order) in
      removed-IsPlaced (heap_remove stored (entry q slot).link)
        (subst (λ s. IsRemoved s stored (heap_remove stored (entry q slot).link)) here.1 w)
    where
      removed-IsPlaced :
          (r : TimerQueue) → IsRemoved slot stored r → IsPlaced stored slot deadline (ok, r)
      removed-IsPlaced r w = record {
        accepted = refl;
        links = w.links;
        order = w.order;
        capacity_kept = w.capacity_kept;
        free_kept = w.free_kept;
        entry_kept = w.entry_kept;
        armed_kept = w.armed_kept;
        idle_kept = λ s d i. w.idle_kept s i;
        armed_now = ground (arith, w.gone, z);
      }

  started-IsPlaced :
      (entry q slot).link ≡ heap_none
      → deadline ≢ 0
      → (q.size < q.capacity)
        × IsPlaced stored slot deadline (ok, heap_up (behind stored slot) q.size)
  started-IsPlaced e n =
      let used_still : (entry stored slot).used ≡ true = ground (arith, entry-stored slot, used) in
      let link_still : (entry stored slot).link ≡ heap_none =
        ground (arith, entry-stored slot, e) in
      let en = entry-behind stored slot stored-IsLinked inside used_still link_still in
      let order =
        with_entry-IsHeap q slot stored_entry v.links inside refl (λ a. refl) (ground (arith, e))
          v.order in
      let m =
        up_restores heap_none 0 (behind stored slot) q.size
          (behind-IsLinked stored slot stored-IsLinked inside used_still link_still)
          (behind-UpInv stored slot stored-IsLinked inside used_still link_still order) in
      let room = has_room q slot v.links inside used e in
      (
        room,
        record {
          accepted = refl;
          links = m.links;
          order = m.order;
          capacity_kept = (m.moved).capacity_kept;
          free_kept = (m.moved).free_kept;
          entry_kept = λ s. ground (arith, (m.moved).entry_kept s, en s);
          armed_kept = λ s d. ground (arith, (m.moved).armed_kept s, en s);
          idle_kept = λ s d i. ground (arith, (m.moved).idle_kept s, en s);
          armed_now =
              (m.moved).armed_kept slot
              ∙ ground (arith, en slot, used_still, n, room, v.links.capacity_fits);
        },
      )

  -- A timer of the heap with another deadline.
  module _ (n : (entry q slot).link ≢ heap_none) (d : deadline ≢ 0) where
    armed_still : armed (entry stored slot) ≡ true
    armed_still = ground (arith, entry-stored slot, used, n)

    earlier-IsPlaced :
        deadline ≤ was → IsPlaced stored slot deadline (ok, heap_up stored (entry q slot).link)
    earlier-IsPlaced le =
        let here = place_of n in
        moved-IsPlaced stored (heap_up stored (entry q slot).link) slot deadline
          (up_restores heap_none 0 stored (entry q slot).link stored-IsLinked (
            with_entry-UpInv q slot stored_entry v.links inside refl (λ a. refl) (entry q slot).link
              here.0 here.1 v.order le))
          armed_still d

    later-IsPlaced :
        was ≤ deadline → IsPlaced stored slot deadline (ok, heap_down stored (entry q slot).link)
    later-IsPlaced le =
        let here = place_of n in
        moved-IsPlaced stored (heap_down stored (entry q slot).link) slot deadline
          (down_restores heap_none 0 stored (entry q slot).link small here.0 stored-IsLinked (
            with_entry-DownInv q slot stored_entry v.links inside refl (λ a. refl)
              (entry q slot).link here.0 here.1 v.order le))
          armed_still d

    same-IsPlaced : deadline ≡ was → IsPlaced stored slot deadline (ok, stored)
    same-IsPlaced e =
        still-IsPlaced stored slot deadline stored-IsLinked
          (λ c p l.
            ground (
              arith,
              entry-stored (slot_at q c),
              entry-stored (slot_at q (parent c)),
              v.order c p l,
            ))
          (ground (arith, armed_still))

  resting-IsPlaced :
      (entry q slot).link ≡ heap_none → deadline ≡ 0 → IsPlaced stored slot deadline (ok, stored)
  resting-IsPlaced e z =
      still-IsPlaced stored slot deadline stored-IsLinked
        (with_entry-IsHeap q slot stored_entry v.links inside refl (λ a. refl) (ground (arith, e))
          v.order)
        (ground (arith, entry-stored slot, e, z))

  link-stored : (entry stored slot).link ≡ (entry q slot).link
  link-stored = ground (arith, entry-stored slot)

  unreached : (entry q slot).link ≢ heap_none → was ≢ 0
  unreached n z = ground (arith, v.armed_exactly slot inside used, used, n, z)

  pub place_timer-IsPlaced : IsPlaced stored slot deadline (place_timer stored slot was deadline)
  unfolding place_timer
  place_timer-IsPlaced =
      let P = IsPlaced stored slot deadline in
      rw link-stored (
        if_cases P (deadline == 0) _ _
          (λ z.
            if_cases P (not ((entry q slot).link == heap_none)) _ _
              (λ n. disarmed-IsPlaced (ground arith) (ground arith))
              (λ e. resting-IsPlaced (ground arith) (ground arith)))
          (λ d.
            if_cases P ((entry q slot).link == heap_none) _ _
              (λ e.
                let w = started-IsPlaced (ground arith) (ground arith) in
                if_cases P (q.size == q.capacity) _ _ (λ full. absurd (ground (arith, w.0)))
                  (λ room. w.1))
              (λ n.
                if_cases P (was == 0 || ltb deadline was) _ _
                  (λ le. earlier-IsPlaced (ground arith) (ground arith) (ground (arith, unreached)))
                  (λ ge.
                    if_cases P (ltb was deadline) _ _
                      (λ lt. later-IsPlaced (ground arith) (ground arith) (ground arith))
                      (λ eq. same-IsPlaced (ground arith) (ground arith) (ground arith))))))

  -- The entry of the slot is the stored one but for its link, and the others are as they were.
  pub place_timer-entry :
      (s : ℕ)
      → let r = (place_timer stored slot was deadline).1 in
        entry r s ≡ (
          if slot == s
          then record stored_entry { link = (entry r s).link }
          else record (entry q s) { link = (entry r s).link })
  place_timer-entry s = ground (arith, (place_timer-IsPlaced).entry_kept s, entry-stored s)

  pub place_timer-IsTimers : IsTimers (place_timer stored slot was deadline).1
  place_timer-IsTimers =
      let w = place_timer-IsPlaced in
      rebuilt-IsTimers q (place_timer stored slot was deadline).1 v w.links w.order w.free_kept
        w.capacity_kept (λ s. ground (arith, place_timer-entry s))
        (λ s u. ground (arith, w.idle_kept s, entry-stored s, used))
        (λ s l u. ground (
          arith,
          place_timer-entry s,
          w.armed_kept s,
          entry-stored s,
          w.armed_now,
          v.armed_exactly s,
          w.capacity_kept,
        ))
