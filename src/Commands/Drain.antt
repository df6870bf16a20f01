-- ===== src/Commands/Drain.antt =====
-- What a batch takes from the command queue.
use c_trpc.Base.{
  ℕ, zero, suc, ◌-◌, ◌%◌, ◌^◌, ◌≤◌, ◌<◌, ◌≡◌, ◌⊎◌, inl, inr, refl, ap, sym, ◌∙◌, List, [], ◌∷◌,
  ◌++◌, length, take, drop, min, take-nil, drop-nil, take_one, drop_one, take-append_split,
  drop-append_split, length-take, get_or, Bool, true, false, not, ◌&&◌, ltb, ◌==◌, if◌then◌else◌,
  if_true, if_false, arith, Bool-cases,
}
use c_trpc.Base.Ring.{place, step_head, window, length-window}
use c_trpc.Commands.{
  Command, zero_command, CommandQueue, is_empty, pop_items, pop_stop, settle, pop_batch, inc32,
}
use c_trpc.Commands.Invariant.{IsQueue, contents}

-- The commands in the ring.
abbrev ring : CommandQueue → List Command
ring q = window zero_command q.capacity q.items q.head q.count

record IsRing (q : CommandQueue) : Type 0 where
  capacity_fits : q.capacity < 2 ^ 32
  head_inside : q.head < q.capacity
  bounded : q.count ≤ q.capacity
  tail_behind : q.tail ≡ place q.capacity q.head q.count

-- The queue after its first command was taken.
abbrev shifted : CommandQueue → CommandQueue
shifted q = record q { head = inc32 q.head % q.capacity; count = q.count - 1 }

shifted_head : (q : CommandQueue) → IsRing q → inc32 q.head % q.capacity ≡ place q.capacity q.head 1
shifted_head q v =
    ap (λ k. k % q.capacity) (omega (arith, v.capacity_fits, v.head_inside))
    ∙ step_head q.capacity q.head v.head_inside

shifted-IsRing : (q : CommandQueue) → IsRing q → 1 ≤ q.count → IsRing (shifted q)
shifted-IsRing q v h = ground (arith, shifted_head q v)

ring_first :
    (q : CommandQueue)
    → IsRing q
    → 1 ≤ q.count
    → ring q ≡ get_or q.items q.head zero_command ∷ ring (shifted q)
ring_first q v h =
    ap (λ k. window zero_command q.capacity q.items q.head k)
      (let e : q.count ≡ suc (q.count - 1) = omega arith in e)
    ∙ ap
        (λ j.
          get_or q.items q.head zero_command
          ∷ window zero_command q.capacity q.items j (q.count - 1))
        (sym (shifted_head q v))

-- What the loop of a batch takes and leaves.
record IsTaken (room : ℕ) (q : CommandQueue) (r : List Command × CommandQueue) : Type 0 where
  taken : r.0 ≡ take room (ring q)
  left : ring r.1 ≡ drop room (ring q)
  ring_kept : IsRing r.1
  rest_kept : r.1 ≡ record q { head = (r.1).head; count = q.count - room }

pop_items_none : (room : ℕ) (q : CommandQueue) → q.count ≡ 0 → pop_items room q ≡ ([], q)
unfolding pop_items
pop_items_none zero q e = refl
pop_items_none (suc room) q e = if_true (q.count == 0) _ _ (ground arith)

pop_items_some :
    (room : ℕ) (q : CommandQueue)
    → 1 ≤ q.count
    → pop_items (suc room) q ≡ (
      get_or q.items q.head zero_command ∷ (pop_items room (shifted q)).0,
      (pop_items room (shifted q)).1,
    )
unfolding pop_items
pop_items_some room q h = if_false (q.count == 0) _ _ (ground arith)

pop_items-IsTaken : (room : ℕ) (q : CommandQueue) → IsRing q → IsTaken room q (pop_items room q)
unfolding pop_items
pop_items-IsTaken zero q v = record {
  taken = refl;
  left = refl;
  ring_kept = v;
  rest_kept = ap (λ n. record q { count = n }) (omega arith);
}
pop_items-IsTaken (suc room) q v = elim (split q.count) [
  | inl empty ↦ rw (pop_items_none (suc room) q empty) (record {
    taken = ap (λ l. take (suc room) l) (sym (nothing empty));
    left = nothing empty ∙ ap (λ l. drop (suc room) l) (sym (nothing empty));
    ring_kept = v;
    rest_kept = ap (λ n. record q { count = n }) (omega arith);
  })
  | inr some_left ↦ rw (pop_items_some room q some_left) (
      let rest = pop_items-IsTaken room (shifted q) (shifted-IsRing q v some_left) in
      record {
        taken =
            ap (◌∷◌ (get_or q.items q.head zero_command)) rest.taken
            ∙ ap (λ l. take (suc room) l) (sym (ring_first q v some_left));
        left = rest.left ∙ ap (λ l. drop (suc room) l) (sym (ring_first q v some_left));
        ring_kept = rest.ring_kept;
        rest_kept =
            rest.rest_kept
            ∙ ap (λ n. record q { head = ((pop_items room (shifted q)).1).head; count = n })
                (omega arith);
      })
]
  where
    split : (n : ℕ) → (n ≡ 0) ⊎ (1 ≤ n)
    split n = ground arith

    nothing : q.count ≡ 0 → ring q ≡ []
    nothing e = ap (λ n. window zero_command q.capacity q.items q.head n) e

-- The STOP slot, as a list.
abbrev slot : CommandQueue → List Command
slot q = if q.stop_pending then q.stop_command ∷ [] else []

-- After the ring was taken from, the STOP slot is taken from with the room that is left.
record IsStopTaken (left : ℕ) (q : CommandQueue) (r : List Command × CommandQueue) : Type 0 where
  taken : r.0 ≡ take left (slot q)
  left_over : slot r.1 ≡ drop left (slot q)
  ring_untouched :
      r.1 ≡ record q { stop_command = (r.1).stop_command; stop_pending = (r.1).stop_pending }
  not_invented : (r.1).stop_pending ≡ true → q.stop_pending ≡ true

pop_stop-IsStopTaken :
    (count n before : ℕ) (q : CommandQueue)
    → count ≡ min n before
    → q.count ≡ before - n
    → IsStopTaken (n - before) q (pop_stop count n q)
unfolding pop_stop
pop_stop-IsStopTaken count n before q e k = elim (Bool-cases q.stop_pending) [
  | inl pending ↦ elim (split (n - before)) [
    | inl full ↦ rw (later full) (record {
      taken = ap (λ m. take m (slot q)) (sym full);
      left_over = ap (λ m. drop m (slot q)) (sym full);
      ring_untouched = refl;
      not_invented = λ p. p;
    })
    | inr room ↦ rw (now pending room) (record {
      taken = sym (
          ap (λ l. take (n - before) l) (waits pending)
          ∙ take_one (n - before) q.stop_command room);
      left_over = sym (
          ap (λ l. drop (n - before) l) (waits pending)
          ∙ drop_one (n - before) q.stop_command room);
      ring_untouched = refl;
      not_invented = λ p. pending;
    })
  ]
  | inr idle ↦ rw (none_waits idle) (record {
    taken = sym (ap (λ l. take (n - before) l) (empty idle) ∙ take-nil (n - before));
    left_over =
        empty idle ∙ sym (ap (λ l. drop (n - before) l) (empty idle) ∙ drop-nil (n - before));
    ring_untouched = refl;
    not_invented = λ p. p;
  })
]
  where
    split : (m : ℕ) → (m ≡ 0) ⊎ (1 ≤ m)
    split m = ground arith

    waits : q.stop_pending ≡ true → slot q ≡ q.stop_command ∷ []
    waits h = if_true q.stop_pending _ _ h

    empty : q.stop_pending ≡ false → slot q ≡ []
    empty h = if_false q.stop_pending _ _ h

    stop_taken : List Command × CommandQueue
    stop_taken =
        (q.stop_command ∷ [], record q { stop_command = zero_command; stop_pending = false })

    later : n - before ≡ 0 → pop_stop count n q ≡ ([], q)
    later h = if_false (q.count == 0 && (q.stop_pending && ltb count n)) _ _ (ground arith)

    none_waits : q.stop_pending ≡ false → pop_stop count n q ≡ ([], q)
    none_waits h = if_false (q.count == 0 && (q.stop_pending && ltb count n)) _ _ (ground arith)

    now : q.stop_pending ≡ true → 1 ≤ n - before → pop_stop count n q ≡ stop_taken
    now h r = if_true (q.count == 0 && (q.stop_pending && ltb count n)) _ _ (ground arith)

contents-settle : (q : CommandQueue) → contents (settle q) ≡ contents q
unfolding settle
contents-settle q = elim (Bool-cases (q.count == 0 && not q.stop_pending)) [
  | inl e ↦
      ap contents
        (if_true (q.count == 0 && not q.stop_pending) (record q { wake_pending = false }) q e)
  | inr e ↦
      ap contents
        (if_false (q.count == 0 && not q.stop_pending) (record q { wake_pending = false }) q e)
]

module _ (q : CommandQueue) (n : ℕ) (v : IsQueue q) where
  -- The two halves of a batch.
  abbrev first : List Command × CommandQueue
  first = pop_items n q

  abbrev last : List Command × CommandQueue
  last = pop_stop (length first.0) n first.1

  first-IsTaken : IsTaken n q first
  first-IsTaken = pop_items-IsTaken n q (ground (arith, v))

  length-first : length first.0 ≡ min n q.count
  length-first =
      ap length first-IsTaken.taken
      ∙ length-take n (ring q)
      ∙ ap (λ k. min n k) (length-window zero_command q.capacity q.items q.head q.count)

  first_slot : slot first.1 ≡ slot q
  first_slot = ap slot first-IsTaken.rest_kept

  last_taken : IsStopTaken (n - q.count) first.1 last
  last_taken =
      pop_stop-IsStopTaken (length first.0) n q.count first.1 length-first
        (ap (λ (p : CommandQueue). p.count) first-IsTaken.rest_kept)

  batch_out : first.0 ++ last.0 ≡ take n (contents q)
  batch_out =
      ap (λ l. l ++ last.0) first-IsTaken.taken
      ∙ ap (λ l. take n (ring q) ++ l)
          (last_taken.taken
            ∙ ap (λ l. take (n - q.count) l) first_slot
            ∙ ap (λ k. take (n - k) (slot q))
                (sym (length-window zero_command q.capacity q.items q.head q.count)))
      ∙ sym (take-append_split n (ring q) (slot q))

  batch_left : contents last.1 ≡ drop n (contents q)
  batch_left =
      ap (λ l. l ++ slot last.1) (ap ring last_taken.ring_untouched ∙ first-IsTaken.left)
      ∙ ap (λ l. drop n (ring q) ++ l)
          (last_taken.left_over
            ∙ ap (λ l. drop (n - q.count) l) first_slot
            ∙ ap (λ k. drop (n - k) (slot q))
                (sym (length-window zero_command q.capacity q.items q.head q.count)))
      ∙ sym (drop-append_split n (ring q) (slot q))

pop_batch_none : (q : CommandQueue) → pop_batch q 0 ≡ ([], q)
unfolding pop_batch
pop_batch_none q = refl

batch_halves :
    (q : CommandQueue) (n : ℕ) (v : IsQueue q)
    → 1 ≤ n
    → pop_batch q n ≡ ((first q n v).0 ++ (last q n v).0, settle (last q n v).1)
unfolding pop_batch
batch_halves q n v h = if_false (n == 0) _ _ (ground arith)

-- A batch takes the front of what waits in a well-formed queue, as far as its bound goes, in order and with STOP after
-- everything that was accepted before it; what it does not take stays in order.
pub pop_batch-contents :
    (q : CommandQueue) (n : ℕ)
    → IsQueue q
    → ((pop_batch q n).0 ≡ take n (contents q)) × (contents (pop_batch q n).1 ≡ drop n (contents q))
pop_batch-contents q n v = elim (split n) [
  | inl none_asked ↦ rw none_asked (nothing q)
  | inr some_asked ↦
      rw (batch_halves q n v some_asked)
        (batch_out q n v, contents-settle (last q n v).1 ∙ batch_left q n v)
]
  where
    split : (m : ℕ) → (m ≡ 0) ⊎ (1 ≤ m)
    split m = ground arith

    nothing :
        (q : CommandQueue) → ((pop_batch q 0).0 ≡ []) × (contents (pop_batch q 0).1 ≡ contents q)
    nothing q = (
      ap (λ (r : List Command × CommandQueue). r.0) (pop_batch_none q),
      ap (λ (r : List Command × CommandQueue). contents r.1) (pop_batch_none q),
    )

-- Taking from a well-formed queue and settling its flag gives a well-formed queue.
settle-IsQueue :
    (q : CommandQueue) (head count : ℕ) (stop : Command) (pending : Bool)
    → IsQueue q
    → IsRing (record q { head = head; count = count })
    → count ≤ q.count
    → (pending ≡ true → q.stop_pending ≡ true)
    → IsQueue (
        settle
          (record q { head = head; count = count; stop_command = stop; stop_pending = pending }))
unfolding settle is_empty
settle-IsQueue q head count stop pending v r le p = ground arith

last_shape :
    (q : CommandQueue) (n : ℕ) (v : IsQueue q)
    → (last q n v).1 ≡ record q {
      head = ((first q n v).1).head;
      count = q.count - n;
      stop_command = ((last q n v).1).stop_command;
      stop_pending = ((last q n v).1).stop_pending;
    }
last_shape q n v =
    (last_taken q n v).ring_untouched
    ∙ ap
        (λ (p : CommandQueue). record p {
          stop_command = ((last q n v).1).stop_command;
          stop_pending = ((last q n v).1).stop_pending;
        })
        (first-IsTaken q n v).rest_kept

first-IsRing :
    (q : CommandQueue) (n : ℕ) (v : IsQueue q)
    → IsRing (record q { head = ((first q n v).1).head; count = q.count - n })
first-IsRing q n v =
    let t = first-IsTaken q n v in
    ground (
      arith,
      t.ring_kept,
      ap (λ (p : CommandQueue). p.count) t.rest_kept,
      ap (λ (p : CommandQueue). p.capacity) t.rest_kept,
      ap (λ (p : CommandQueue). p.tail) t.rest_kept,
    )

-- A batch keeps the queue well formed: in particular a wake-up is pending exactly while commands are
-- left.
pub pop_batch-IsQueue : (q : CommandQueue) (n : ℕ) → IsQueue q → IsQueue (pop_batch q n).1
pop_batch-IsQueue q n v = elim (split n) [
  | inl none_asked ↦ rw none_asked (rw (pop_batch_none q) v)
  | inr some_asked ↦ rw (batch_halves q n v some_asked) (rw (last_shape q n v) settled)
]
  where
    split : (m : ℕ) → (m ≡ 0) ⊎ (1 ≤ m)
    split m = ground arith

    settled : IsQueue (
        settle (record q {
          head = ((first q n v).1).head;
          count = q.count - n;
          stop_command = ((last q n v).1).stop_command;
          stop_pending = ((last q n v).1).stop_pending;
        }))
    settled =
        settle-IsQueue q ((first q n v).1).head (q.count - n) ((last q n v).1).stop_command
          ((last q n v).1).stop_pending v (first-IsRing q n v) (omega arith)
          (λ p.
            sym (ap (λ (c : CommandQueue). c.stop_pending) (first-IsTaken q n v).rest_kept)
            ∙ (last_taken q n v).not_invented p)
