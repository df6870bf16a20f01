-- ===== src/Completions/Fifo.antt =====
-- The completion queue is a FIFO queue.
use c_trpc.Base.{
  ℕ, zero, suc, ◌-◌, ◌%◌, ◌^◌, ◌≤◌, ◌<◌, ◌≡◌, ◌≢◌, ◌⊎◌, inl, inr, refl, ap, sym, ◌∙◌, List, [], ◌∷◌,
  ◌++◌, take, drop, get_or, set, none, Bool, true, false, not, ◌&&◌, ◌||◌, ◌==◌, if◌then◌else◌,
  if_true, if_false, if_cases, arith,
}
use c_trpc.Base.Ring.{place, step_head, window, window-push}
use c_trpc.Status.{ok, err_closed}
use c_trpc.Commands.{inc32}
use c_trpc.Completions.{
  Completion, zero_completion, CompletionQueue, enqueue, push, returned, push_wait_test, pop_items,
  pop_batch,
}
use c_trpc.Completions.Invariant.{IsQueue, contents}

contents-enqueue :
    (q : CompletionQueue) (c : Completion)
    → IsQueue q
    → q.count < q.capacity
    → contents (enqueue q c).1 ≡ contents q ++ (c ∷ [])
unfolding enqueue
contents-enqueue q c v h =
    let d = zero_completion in
    ap (λ k. window d q.capacity (set q.items q.tail c) q.head k)
      (let e : inc32 q.count ≡ suc q.count = omega (arith, h, v.capacity_fits) in e)
    ∙ ap (λ j. window d q.capacity (set q.items j c) q.head (suc q.count)) v.tail_behind
    ∙ window-push d q.capacity q.items q.head q.count c v.head_inside h v.items_length

-- The queue after its first completion was taken, but for the flag.
abbrev shifted : CompletionQueue → CompletionQueue
shifted q = record q { head = inc32 q.head % q.capacity; count = q.count - 1 }

-- The part of the invariant that taking keeps at every moment.
record IsRing (q : CompletionQueue) : Type 0 where
  capacity_fits : q.capacity < 2 ^ 32
  head_inside : q.head < q.capacity
  bounded : q.count ≤ q.capacity
  tail_behind : q.tail ≡ place q.capacity q.head q.count

shifted_head :
    (q : CompletionQueue) → IsRing q → inc32 q.head % q.capacity ≡ place q.capacity q.head 1
shifted_head q v =
    ap (λ k. k % q.capacity) (omega (arith, v.capacity_fits, v.head_inside))
    ∙ step_head q.capacity q.head v.head_inside

shifted-IsRing : (q : CompletionQueue) → IsRing q → 1 ≤ q.count → IsRing (shifted q)
shifted-IsRing q v h = ground (arith, shifted_head q v)

contents_first :
    (q : CompletionQueue)
    → IsRing q
    → 1 ≤ q.count
    → contents q ≡ get_or q.items q.head zero_completion ∷ contents (shifted q)
contents_first q v h =
    ap (λ k. window zero_completion q.capacity q.items q.head k)
      (let e : q.count ≡ suc (q.count - 1) = omega arith in e)
    ∙ ap
        (λ j.
          get_or q.items q.head zero_completion
          ∷ window zero_completion q.capacity q.items j (q.count - 1))
        (sym (shifted_head q v))

-- What the loop of a batch takes and leaves.
record IsTaken (room : ℕ) (q : CompletionQueue) (r : List Completion × CompletionQueue)
    : Type 0 where
  taken : r.0 ≡ take room (contents q)
  left : contents r.1 ≡ drop room (contents q)
  ring_kept : IsRing r.1
  rest_kept : r.1 ≡ record q { head = (r.1).head; count = q.count - room }

pop_items_none : (room : ℕ) (q : CompletionQueue) → q.count ≡ 0 → pop_items room q ≡ ([], q)
unfolding pop_items
pop_items_none zero q e = refl
pop_items_none (suc room) q e = if_true (q.count == 0) _ _ (ground arith)

pop_items_some :
    (room : ℕ) (q : CompletionQueue)
    → 1 ≤ q.count
    → pop_items (suc room) q ≡ (
      get_or q.items q.head zero_completion ∷ (pop_items room (shifted q)).0,
      (pop_items room (shifted q)).1,
    )
unfolding pop_items
pop_items_some room q h = if_false (q.count == 0) _ _ (ground arith)

none_left : (q : CompletionQueue) → q.count ≡ 0 → contents q ≡ []
none_left q e = ap (λ n. window zero_completion q.capacity q.items q.head n) e

pop_items-IsTaken : (room : ℕ) (q : CompletionQueue) → IsRing q → IsTaken room q (pop_items room q)
unfolding pop_items
pop_items-IsTaken zero q v = record {
  taken = refl;
  left = refl;
  ring_kept = v;
  rest_kept = ap (λ n. record q { count = n }) (omega arith);
}
pop_items-IsTaken (suc room) q v = elim (split q.count) [
  | inl empty ↦ rw (pop_items_none (suc room) q empty) (record {
    taken = ap (λ l. take (suc room) l) (sym (none_left q empty));
    left = none_left q empty ∙ ap (λ l. drop (suc room) l) (sym (none_left q empty));
    ring_kept = v;
    rest_kept = ap (λ n. record q { count = n }) (omega arith);
  })
  | inr some_left ↦ rw (pop_items_some room q some_left) (
      let rest = pop_items-IsTaken room (shifted q) (shifted-IsRing q v some_left) in
      record {
        taken =
            ap (◌∷◌ (get_or q.items q.head zero_completion)) rest.taken
            ∙ ap (λ l. take (suc room) l) (sym (contents_first q v some_left));
        left = rest.left ∙ ap (λ l. drop (suc room) l) (sym (contents_first q v some_left));
        ring_kept = rest.ring_kept;
        rest_kept =
            rest.rest_kept
            ∙ ap (λ n. record q { head = ((pop_items room (shifted q)).1).head; count = n })
                (omega arith);
      })
]
  where
    split : (n : ℕ) → (n ≡ 0) ⊎ (1 ≤ n)
    split n = ground arith

-- What a batch achieves.
pub record IsPopped (q : CompletionQueue) (n : ℕ) (r : List Completion × Bool × CompletionQueue)
    : Type 0 where
  -- It takes the front of what waits, in order, and leaves the rest,
  pub front : r.0 ≡ take n (contents q)
  pub rest : contents r.2 ≡ drop n (contents q)
  -- says whether anything is left,
  pub more : r.1 ≡ not ((r.2).count == 0)
  -- and keeps the queue well formed.
  pub kept : IsQueue r.2

IsQueue-IsRing : (q : CompletionQueue) → IsQueue q → IsRing q
IsQueue-IsRing q v = record {
  capacity_fits = v.capacity_fits;
  head_inside = v.head_inside;
  bounded = v.bounded;
  tail_behind = v.tail_behind;
}

-- The flag of wake-ups after a batch.
abbrev flagged : CompletionQueue → CompletionQueue
flagged q = if q.count == 0 then record q { wake_pending = false } else q

contents-flagged : (q : CompletionQueue) → contents (flagged q) ≡ contents q
contents-flagged q =
    if_cases (λ (r : CompletionQueue). contents r ≡ contents q) (q.count == 0)
      (record q { wake_pending = false }) q (λ e. refl) (λ e. refl)

count-flagged : (q : CompletionQueue) → (flagged q).count ≡ q.count
count-flagged q =
    if_cases (λ (r : CompletionQueue). r.count ≡ q.count) (q.count == 0)
      (record q { wake_pending = false }) q (λ e. refl) (λ e. refl)

flagged-IsQueue :
    (q : CompletionQueue) (head count : ℕ)
    → IsQueue q
    → IsRing (record q { head = head; count = count })
    → count ≤ q.count
    → IsQueue (flagged (record q { head = head; count = count }))
flagged-IsQueue q head count v r le = ground arith

-- A batch takes the front of what waits in a well-formed queue, as far as its bound goes and in order; it leaves the rest, says
-- whether anything is left, and keeps the queue well formed: a wake-up stays pending exactly while something is left.
pub pop_batch-IsPopped : (q : CompletionQueue) (n : ℕ) → IsQueue q → IsPopped q n (pop_batch q n)
unfolding pop_batch
pop_batch-IsPopped q n v =
    let w = pop_items-IsTaken n q (IsQueue-IsRing q v) in
    let r = (pop_items n q).1 in
    record {
      front = w.taken;
      rest = contents-flagged r ∙ w.left;
      more = ap (λ k. not (k == 0)) (sym (count-flagged r));
      kept =
          rw w.rest_kept (
            flagged-IsQueue q r.head (q.count - n) v (rw w.rest_kept at w.ring_kept) (omega arith));
    }

push_closed :
    (q : CompletionQueue) (c : Completion)
    → c.fn ≢ 0
    → q.accepting ≡ false
    → push q c ≡ (err_closed, q, none)
unfolding push
push_closed q c f h =
    if_false (c.fn == 0) _ _ (ground arith) ∙ if_true (not q.accepting) _ _ (ground arith)

push_room :
    (q : CompletionQueue) (c : Completion)
    → c.fn ≢ 0
    → q.accepting ≡ true
    → q.count < q.capacity
    → push q c ≡ enqueue q c
unfolding push
push_room q c f a h =
    if_false (c.fn == 0) _ _ (ground arith)
    ∙ if_false (not q.accepting) _ _ (ground arith)
    ∙ if_false (q.count == q.capacity) _ _ (ground arith)

enqueue_ok : (q : CompletionQueue) (c : Completion) → (enqueue q c).0 ≡ ok
unfolding enqueue
enqueue_ok q c = refl

-- A completion that is pushed into an open, well-formed queue with room is appended; a closed queue refuses it unchanged.
push-contents :
    (q : CompletionQueue) (c : Completion)
    → IsQueue q
    → c.fn ≢ 0
    → (q.accepting ≡ false → push q c ≡ (err_closed, q, none))
      × (q.accepting ≡ true
          → q.count < q.capacity
          → ((push q c).0 ≡ ok) × (contents (push q c).1 ≡ contents q ++ (c ∷ [])))
push-contents q c v f = (
  push_closed q c f,
  (λ a h. rw (push_room q c f a h) (enqueue_ok q c, contents-enqueue q c v h)),
)

-- A producer that waits for another round than the open one is turned away, also when it slept through the change.
push_wait_other_round :
    (q : CompletionQueue) (c : Completion) (expected : ℕ) (waited : Bool)
    → q.admission_generation ≢ expected
    → push_wait_test q c expected waited ≡ returned (err_closed, q, none)
unfolding push_wait_test
push_wait_other_round q c expected waited n =
    if_false (q.accepting && (q.admission_generation == expected && q.count == q.capacity)) _ _
      (ground arith)
    ∙ if_true (not q.accepting || not (q.admission_generation == expected)) _ _ (ground arith)
