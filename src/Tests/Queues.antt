-- ===== src/Tests/Queues.antt =====
-- The command queue and the completion queue on concrete inputs.
use c_trpc.Base.{
  ℕ, ◌<◌, ◌≡◌, refl, true, false, [], ◌∷◌, ◌++◌, take, drop, arith, none, some, All, List, length,
  ◌≤◌, ◌≢◌,
}
use c_trpc.Status.{ok, again, err_closed, err_state}
use c_trpc.Commands.{
  Command, zero_command, CommandQueue, zero_queue, Resources, init, push, enqueue, observe_push,
  push_stop, push_wait_woken, push_wait_test, wait_open, pop_batch, pop_items, pop_stop, settle,
  cmd_send, cmd_stop,
}
use c_trpc.Commands.Invariant.{IsQueue, contents, stamped, init-IsQueue, push-IsQueue}
use c_trpc.Commands.Fifo.{push-contents}
use c_trpc.Commands.Stop.{
  Action, push_action, woken_action, stop_action, open_action, batch_action, act, run_until_stop,
  push_stop-ends_round,
}
use c_trpc.Commands.Drain.{pop_batch-contents}
use c_trpc.Completions
use c_trpc.Completions.{CompletionQueue, zero_completions, queue_open}
use c_trpc.Completions.Fifo.{IsPopped, pop_batch-IsPopped}

abbrev resources : Resources
resources = record { calloc = true; mutex = true; cond = true }

abbrev fresh : CommandQueue
fresh = (init resources zero_queue 2).1

made : init resources zero_queue 2 ≡ (ok, fresh)
unfolding init
made = refl

abbrev send : ℕ → Command
send item = record {
  type = cmd_send;
  reserved = 0;
  slot = 1;
  generation = 1;
  sequence = 0;
  u = item;
}

abbrev stop : Command
stop = record zero_command { type = cmd_stop }

fresh-IsQueue : IsQueue fresh
fresh-IsQueue = (init-IsQueue resources zero_queue fresh 2 (omega arith) made).0

-- Two commands and STOP in a queue with room for two.
abbrev one_sent : CommandQueue
one_sent = (push fresh (send 7)).1

abbrev two_sent : CommandQueue
two_sent = (push one_sent (send 8)).1

abbrev stopping : CommandQueue
stopping = (push_stop two_sent stop).1

two_sent-IsQueue : IsQueue two_sent
two_sent-IsQueue = push-IsQueue one_sent (send 8) (push-IsQueue fresh (send 7) fresh-IsQueue)

drained :
    (pop_batch stopping 3).0
    ≡ record (send 7) { sequence = 1 }
      ∷ record (send 8) { sequence = 2 }
      ∷ record stop { sequence = 3 }
      ∷ []
unfolding init push enqueue observe_push push_stop pop_batch pop_items pop_stop settle
drained = refl

push-contents_example :
    (fresh.stop_closed ≡ true → push fresh (send 7) ≡ (err_closed, fresh, none))
    × (fresh.stop_closed ≡ false
        → fresh.count ≡ fresh.capacity
        → ((push fresh (send 7)).0 ≡ again) × (contents (push fresh (send 7)).1 ≡ contents fresh))
    × (fresh.stop_closed ≡ false
        → fresh.count < fresh.capacity
        → ((push fresh (send 7)).0 ≡ ok)
          × (contents (push fresh (send 7)).1 ≡ contents fresh ++ (stamped fresh (send 7) ∷ [])))
push-contents_example = push-contents fresh (send 7) fresh-IsQueue

open_round : two_sent.stop_closed ≡ false
unfolding init push enqueue observe_push
open_round = refl

-- After STOP: a push, a woken producer, another STOP and an opening, between batches of two commands.
abbrev late : List Action
late =
    push_action (send 9)
    ∷ batch_action 2
    ∷ woken_action (send 9) 1 false
    ∷ stop_action stop
    ∷ open_action
    ∷ batch_action 2
    ∷ push_action (send 9)
    ∷ []

late_answers :
    (run_until_stop stopping late).0
    ≡ some err_closed ∷ none ∷ some err_closed ∷ some err_state ∷ some err_state ∷ none ∷ []
unfolding init push enqueue observe_push push_stop pop_batch pop_items pop_stop settle
    run_until_stop act push_wait_woken push_wait_test wait_open
late_answers = refl

push_stop-ends_round_example :
    ((push_stop two_sent stop).0 ≡ ok)
    × All (λ a. a ≢ some ok) (run_until_stop stopping late).0
    × ((run_until_stop stopping late).1 ++ contents (run_until_stop stopping late).2
        ≡ contents two_sent ++ (stamped two_sent stop ∷ []))
    × ((run_until_stop stopping late).2.stop_pending ≡ false
        → (run_until_stop stopping late).1 ≡ contents two_sent ++ (stamped two_sent stop ∷ []))
    × (length (contents (run_until_stop stopping late).2) ≤ 3
        → (run_until_stop stopping late).1 ++ (pop_batch (run_until_stop stopping late).2 3).0
          ≡ contents two_sent ++ (stamped two_sent stop ∷ []))
push_stop-ends_round_example =
    push_stop-ends_round two_sent stop late 3 two_sent-IsQueue refl open_round

pop_batch-contents_example :
    ((pop_batch two_sent 1).0 ≡ take 1 (contents two_sent))
    × (contents (pop_batch two_sent 1).1 ≡ drop 1 (contents two_sent))
pop_batch-contents_example = pop_batch-contents two_sent 1 two_sent-IsQueue

-- Three completions in a queue with room for three.
abbrev empty_completions : CompletionQueue
empty_completions = (Completions.init resources zero_completions 3).1

completions_made : Completions.init resources zero_completions 3 ≡ (ok, empty_completions)
unfolding Completions.init
completions_made = refl

empty_completions-IsQueue : Completions.Invariant.IsQueue empty_completions
empty_completions-IsQueue =
    (Completions.Invariant.init-IsQueue resources zero_completions empty_completions 3 (omega arith)
      completions_made).0

abbrev opened : CompletionQueue
opened = (queue_open empty_completions).1

abbrev two_results : CompletionQueue
two_results =
    (Completions.push (Completions.push opened (record { fn = 1; arg = 5 })).1
      (record { fn = 1; arg = 6 })).1

two_results-IsQueue : Completions.Invariant.IsQueue two_results
two_results-IsQueue =
    Completions.Invariant.push-IsQueue (Completions.push opened (record { fn = 1; arg = 5 })).1
      (record { fn = 1; arg = 6 })
      (Completions.Invariant.push-IsQueue opened (record { fn = 1; arg = 5 })
        (Completions.Invariant.queue_open-IsQueue empty_completions empty_completions-IsQueue))

first_result : (Completions.pop_batch two_results 1).0 ≡ record { fn = 1; arg = 5 } ∷ []
unfolding Completions.init queue_open Completions.push Completions.enqueue Completions.pop_batch
    Completions.pop_items
first_result = refl

pop_batch-IsPopped_example : IsPopped two_results 1 (Completions.pop_batch two_results 1)
pop_batch-IsPopped_example = pop_batch-IsPopped two_results 1 two_results-IsQueue
