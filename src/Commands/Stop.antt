-- ===== src/Commands/Stop.antt =====
-- STOP in src/execution/command_queue.c: from `tr_command_queue_push_wait_force` to the batch that takes it.
use c_trpc.Base.{
  ℕ, zero, suc, ◌+◌, ◌%◌, ◌^◌, ◌≤◌, ◌≡◌, ◌≢◌, refl, sym, ap, ◌∙◌, List, [], ◌∷◌, ◌++◌, All, length,
  take, Option, none, some, Bool, true, false, if◌then◌else◌, if_cases, if_true, if_false, not,
  ◌==◌, ◌&&◌, ◌||◌, ◌-◌, append-take-drop, arith,
}
use mathlib.Core.List.{append_assoc, append-nil}
use c_trpc.Status.{Status, ok, err_invalid, err_state, err_closed, err_sys}
use c_trpc.Commands.{
  Command, CommandQueue, Waiting, asleep, returned, push, push_wait, push_wait_test,
  push_wait_woken, push_stop, wait_open, wait_close, pop_batch, pop_items, pop_stop, settle,
  cmd_stop, observe_push, is_empty, inc32, Pushed,
}
use c_trpc.Commands.Invariant.{IsQueue, contents, stamped, push_stop-IsQueue, wait_close-IsQueue}
use c_trpc.Commands.Fifo.{push_closed, push_stop-contents}
use c_trpc.Commands.Drain.{pop_batch-contents, pop_batch-IsQueue}

-- What threads ask of the queue: the producers' calls, of which one that sleeps is woken, with an error or
-- without; the opening and the closing of a round of waits; and the batch of the reactor.
pub data Action : Type 0 where
  push_action : Command → Action
  push_wait_action : Command → ℕ → Action
  woken_action : Command → ℕ → Bool → Action
  stop_action : Command → Action
  open_action close_action : Action
  batch_action : ℕ → Action

-- What a producer's call answers, if it returns.
abbrev waiting_answer : Waiting → Option Status × List Command × CommandQueue
waiting_answer (asleep q) = (none, [], q)
waiting_answer (returned a) = (some a.0, [], a.1)

-- The answer of an action, if it has one, the commands that it takes, and the queue.
unfoldable pub act : CommandQueue → Action → Option Status × List Command × CommandQueue
act q (push_action c) = let a = push q c in (some a.0, [], a.1)
act q (push_wait_action c expected) = waiting_answer (push_wait q c expected)
act q (woken_action c expected error) = waiting_answer (push_wait_woken q c expected error)
act q (stop_action c) = let a = push_stop q c in (some a.0, [], a.1)
act q open_action = let a = wait_open q in (some a.0, [], a.1)
act q close_action = (none, [], wait_close q)
act q (batch_action n) = let a = pop_batch q n in (none, a.0, a.1)

-- The actions while STOP waits, and no more once it is taken: the answers, all that was taken, and the queue.
unfoldable pub run_until_stop :
    CommandQueue → List Action → List (Option Status) × List Command × CommandQueue
run_until_stop q [] = ([], [], q)
run_until_stop q (a ∷ rest) =
    let r = act q a in
    let more = run_until_stop r.2 rest in
    if q.stop_pending then (r.0 ∷ more.0, r.1 ++ more.1, more.2) else ([], [], q)

-- What an action does while STOP waits.
record IsActed (q : CommandQueue) (r : Option Status × List Command × CommandQueue) : Type 0 where
  not_accepted : r.0 ≢ some ok
  in_order : r.1 ++ contents r.2 ≡ contents q
  kept : IsQueue r.2
  stop_last : (r.2).stop_pending ≡ false → contents r.2 ≡ []

pop_items-stop_pending :
    (n : ℕ) (q : CommandQueue) → (pop_items n q).1.stop_pending ≡ q.stop_pending
unfolding pop_items
pop_items-stop_pending zero q = refl
pop_items-stop_pending (suc n) q =
    let q' = record q { head = inc32 q.head % q.capacity; count = q.count - 1 } in
    ground (arith, pop_items-stop_pending n q')

-- A batch that takes STOP leaves nothing.
pop_batch_empties :
    (q : CommandQueue) (n : ℕ)
    → q.stop_pending ≡ true
    → (pop_batch q n).1.stop_pending ≡ false
    → (pop_batch q n).1.count ≡ 0
unfolding pop_batch pop_stop settle
pop_batch_empties q n p t = ground (arith, pop_items-stop_pending n q)

contents_empty : (q : CommandQueue) → q.stop_pending ≡ false → q.count ≡ 0 → contents q ≡ []
contents_empty q p k = rw (p, k) refl

push_wait_test_closed :
    (q : CommandQueue) (c : Command) (expected : ℕ) (waited : Bool)
    → q.wait_accepting ≡ false
    → push_wait_test q c expected waited ≡ returned (err_closed, q, none)
unfolding push_wait_test
push_wait_test_closed q c expected waited h =
    if_false (q.wait_accepting && (q.wait_generation == expected && q.count == q.capacity)) _ _
      (ground arith)
    ∙ if_true (not q.wait_accepting || not (q.wait_generation == expected)) _ _ (ground arith)

module _ (q : CommandQueue) (v : IsQueue q) (p : q.stop_pending ≡ true) where
  closed : q.stop_closed ≡ true
  closed = v.closed_by_stop p

  not_accepting : q.wait_accepting ≡ false
  not_accepting = ground (arith, closed, v.accepting_open)

  -- A call that is not accepted and leaves the queue as it was, but for its number of waiters.
  refused-IsActed :
      (s : Option Status) (n : ℕ) → s ≢ some ok → IsActed q (s, [], record q { waiters = n })
  unfolding is_empty
  refused-IsActed s n h = record {
    not_accepted = h;
    in_order = refl;
    kept = ground (arith, v);
    stop_last = λ e. absurd (ground arith);
  }

  act-IsActed : (a : Action) → IsActed q (act q a)
  unfolding act push_wait push_wait_woken push_stop wait_open
  act-IsActed (push_action c) =
      rw (push_closed q c closed) (refused-IsActed (some err_closed) q.waiters (ground arith))
  act-IsActed (push_wait_action c expected) =
      if_cases (λ a. IsActed q (waiting_answer a)) (expected == 0) _ _
        (λ z. refused-IsActed (some err_invalid) q.waiters (ground arith))
        (λ n.
          rw (push_wait_test_closed q c expected false not_accepting)
            (refused-IsActed (some err_closed) q.waiters (ground arith)))
  act-IsActed (woken_action c expected true) =
      refused-IsActed (some err_sys) ((q.waiters + (2 ^ 32 - 1)) % 2 ^ 32) (ground arith)
  act-IsActed (woken_action c expected false) =
      rw
        (push_wait_test_closed (record q { waiters = (q.waiters + (2 ^ 32 - 1)) % 2 ^ 32 }) c
          expected true not_accepting)
        (refused-IsActed (some err_closed) ((q.waiters + (2 ^ 32 - 1)) % 2 ^ 32) (ground arith))
  act-IsActed (stop_action c) =
      if_cases (λ (a : Pushed). IsActed q (some a.0, [], a.1)) (not (c.type == cmd_stop)) _ _
        (λ z. refused-IsActed (some err_invalid) q.waiters (ground arith))
        (λ n.
          if_cases (λ (a : Pushed). IsActed q (some a.0, [], a.1)) q.stop_closed _ _
            (λ z. refused-IsActed (some err_state) q.waiters (ground arith))
            (λ o. absurd (ground (arith, closed))))
  act-IsActed open_action =
      if_cases (λ (a : Status × CommandQueue). IsActed q (some a.0, [], a.1)) q.stop_pending _ _
        (λ z. refused-IsActed (some err_state) q.waiters (ground arith))
        (λ o. absurd (ground arith))
  act-IsActed close_action = record {
    not_accepted = ground arith;
    in_order = unfold wait_close in refl;
    kept = wait_close-IsQueue q v;
    stop_last = unfold wait_close in λ e. absurd (ground arith);
  }
  act-IsActed (batch_action n) =
      let w = pop_batch-contents q n v in
      record {
        not_accepted = ground arith;
        in_order =
            ap (λ l. l ++ contents (pop_batch q n).1) w.0
            ∙ ap (λ l. take n (contents q) ++ l) w.1
            ∙ append-take-drop n (contents q);
        kept = pop_batch-IsQueue q n v;
        stop_last = λ e. contents_empty (pop_batch q n).1 e (pop_batch_empties q n p e);
      }

-- What the actions after STOP do, until STOP is taken: from the queue that holds STOP.
record IsStopRun (q : CommandQueue) (r : List (Option Status) × List Command × CommandQueue)
    : Type 0 where
  none_accepted : All (λ a. a ≢ some ok) r.0
  in_order : r.1 ++ contents r.2 ≡ contents q
  kept : IsQueue r.2
  stop_last : (r.2).stop_pending ≡ false → contents r.2 ≡ []

run_until_stop-IsStopRun :
    (q : CommandQueue) (actions : List Action)
    → IsQueue q
    → (q.stop_pending ≡ false → contents q ≡ [])
    → IsStopRun q (run_until_stop q actions)
unfolding run_until_stop
run_until_stop-IsStopRun q [] v e = record {
  none_accepted = tt;
  in_order = refl;
  kept = v;
  stop_last = e;
}
run_until_stop-IsStopRun q (a ∷ rest) v e =
    if_cases (IsStopRun q) q.stop_pending _ _
      (λ p.
        let w = act-IsActed q v p a in
        let more = run_until_stop-IsStopRun (act q a).2 rest w.kept w.stop_last in
        record {
          none_accepted = (w.not_accepted, more.none_accepted);
          in_order =
              append_assoc (act q a).1 (run_until_stop (act q a).2 rest).1
                (contents (run_until_stop (act q a).2 rest).2)
              ∙ ap (λ l. (act q a).1 ++ l) more.in_order
              ∙ w.in_order;
          kept = more.kept;
          stop_last = more.stop_last;
        })
      (λ n. record { none_accepted = tt; in_order = refl; kept = v; stop_last = λ t. e n })

take_all : (n : ℕ) (l : List Command) → length l ≤ n → take n l ≡ l
take_all zero [] h = refl
take_all (suc n) [] h = refl
take_all zero (c ∷ l) h = absurd (omega arith)
take_all (suc n) (c ∷ l) h = ap (◌∷◌ c) (take_all n l (omega arith))

push_stop-pending :
    (q : CommandQueue) (c : Command)
    → c.type ≡ cmd_stop
    → q.stop_closed ≡ false
    → (push_stop q c).1.stop_pending ≡ true
unfolding push_stop observe_push
push_stop-pending q c t o = ground arith

-- STOP ends a round. Pushed into an open round of a well-formed queue, full or not, STOP is accepted at once. Whatever
-- comes until a batch takes it, in any order and number (pushes, waits, wake-ups with an error or without, other
-- STOPs, openings and closings of the waits, batches of any size), no producer's call and no opening is answered OK,
-- and what the batches take, followed by what still waits, is all that waited when STOP was pushed and then STOP, in
-- order. Once STOP is taken, all of it has been; as long as it is not, a batch with room for what waits takes the rest.
pub push_stop-ends_round :
    (q : CommandQueue) (c : Command) (actions : List Action) (n : ℕ)
    → IsQueue q
    → c.type ≡ cmd_stop
    → q.stop_closed ≡ false
    → let r = run_until_stop (push_stop q c).1 actions in
      ((push_stop q c).0 ≡ ok)
      × All (λ a. a ≢ some ok) r.0
      × (r.1 ++ contents r.2 ≡ contents q ++ (stamped q c ∷ []))
      × ((r.2).stop_pending ≡ false → r.1 ≡ contents q ++ (stamped q c ∷ []))
      × (length (contents r.2) ≤ n → r.1 ++ (pop_batch r.2 n).0 ≡ contents q ++ (stamped q c ∷ []))
push_stop-ends_round q c actions n v t o =
    let (accepted, behind) = push_stop-contents q c v t o in
    let w =
      run_until_stop-IsStopRun (push_stop q c).1 actions (push_stop-IsQueue q c v)
        (λ e. absurd (ground (arith, push_stop-pending q c t o))) in
    let r = run_until_stop (push_stop q c).1 actions in
    (
      accepted,
      w.none_accepted,
      w.in_order ∙ behind,
      (λ e. sym (append-nil r.1) ∙ ap (λ l. r.1 ++ l) (sym (w.stop_last e)) ∙ w.in_order ∙ behind),
      (λ h.
          ap (λ l. r.1 ++ l) ((pop_batch-contents r.2 n w.kept).0 ∙ take_all n (contents r.2) h)
          ∙ w.in_order
          ∙ behind),
    )
