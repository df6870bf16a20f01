-- ===== src/Tests/Timers.antt =====
-- The timer queue on concrete inputs.
use c_trpc.Base.{◌+◌, ◌^◌, ◌<◌, ◌≡◌, refl, true, arith}
use c_trpc.Status.{ok}
use c_trpc.Timer.{
  Token, TimerQueue, Callbacks, zero_timers, free_entries, init, register, token_valid, arm,
  place_timer, heap_up, heap_down, up_loop, down_loop, best_of, heap_swap, before, heap_remove,
  refill, unregister, next_deadline, run_due, run_first, take_due, rearm,
}
use c_trpc.Timer.Invariant.{IsTimers}
use c_trpc.Timer.Registry.{IsRegistered, init-IsTimers, register-IsRegistered}
use c_trpc.Timer.Arm.{IsArmed, arm-IsArmed}
use c_trpc.Timer.Release.{
  IsReleased, unregister-IsReleased, IsFirstDeadline, next_deadline-IsFirstDeadline,
}
use c_trpc.Timer.Run.{IsRearmed, rearm-IsRearmed, IsWellBehaved, IsBatch, run_due-IsBatch}
use c_trpc.Timer.Down.{heap_loops_end}

abbrev fresh : TimerQueue
fresh = (init true zero_timers 3).1

made : init true zero_timers 3 ≡ (ok, fresh)
unfolding init
made = refl

fresh-IsTimers : IsTimers fresh
fresh-IsTimers = init-IsTimers true zero_timers fresh 3 (omega arith) made

-- Two timers, due at 50 and at 20.
abbrev one : TimerQueue
one = (register fresh 7 1).2

abbrev two : TimerQueue
two = (register one 8 2).2

abbrev first : Token
first = record { slot = 0; generation = 1 }

abbrev second : Token
second = record { slot = 1; generation = 1 }

two-IsTimers : IsTimers two
two-IsTimers =
    (register-IsRegistered one 8 2 (register-IsRegistered fresh 7 1 fresh-IsTimers).kept).kept

first_valid : token_valid two first ≡ true
unfolding init free_entries register token_valid
first_valid = refl

abbrev late : TimerQueue
late = (arm two first 50).1

second_valid : token_valid late second ≡ true
unfolding init free_entries register token_valid arm place_timer heap_up up_loop
second_valid = refl

abbrev both : TimerQueue
both = (arm late second 20).1

late_small : late.size < 2 ^ 31
unfolding init free_entries register token_valid arm place_timer heap_up up_loop
late_small = omega arith

two_small : two.size < 2 ^ 31
unfolding init free_entries register
two_small = omega arith

both_small : both.size < 2 ^ 31
unfolding init free_entries register token_valid arm place_timer heap_up up_loop before heap_swap
both_small = omega arith

both_room : both.capacity < 2 ^ 31
unfolding init free_entries register token_valid arm place_timer heap_up up_loop before heap_swap
both_room = omega arith

heap_place : 1 < both.size
unfolding init free_entries register token_valid arm place_timer heap_up up_loop before heap_swap
heap_place = omega arith

few_rounds : both.size < 4
unfolding init free_entries register token_valid arm place_timer heap_up up_loop before heap_swap
few_rounds = omega arith

both-IsTimers : IsTimers both
both-IsTimers =
    (arm-IsArmed late second 20 (arm-IsArmed two first 50 two-IsTimers two_small first_valid).kept
      late_small second_valid).kept

both_valid : token_valid both first ≡ true
unfolding init free_entries register token_valid arm place_timer heap_up up_loop before heap_swap
both_valid = refl

-- The first timer is due at 20 although it was armed last.
next_is_least : next_deadline both ≡ 20
unfolding init free_entries register arm token_valid place_timer heap_up up_loop before heap_swap
    next_deadline
next_is_least = refl

-- A callback that asks for its next run after 100.
abbrev again_in_100 : Callbacks
again_in_100 callback arg now queue = (now + 100, queue)

again-IsWellBehaved : IsWellBehaved again_in_100
again-IsWellBehaved = record {
  keeps = λ callback arg now q v l. v;
  keeps_capacity = λ callback arg now q v l. refl;
}

batch : (run_due again_in_100 both 30 5).0 ≡ 1
unfolding init free_entries register arm token_valid place_timer heap_up up_loop heap_down down_loop
    best_of before heap_swap heap_remove refill take_due rearm run_first run_due
batch = refl

register-IsRegistered_example : IsRegistered both 9 (register both 9 3)
register-IsRegistered_example = register-IsRegistered both 9 3 both-IsTimers

arm-IsArmed_example : IsArmed both first 10 (arm both first 10)
arm-IsArmed_example = arm-IsArmed both first 10 both-IsTimers both_small both_valid

unregister-IsReleased_example : IsReleased both first (unregister both first)
unregister-IsReleased_example = unregister-IsReleased both first both-IsTimers both_small both_valid

next_deadline-IsFirstDeadline_example : IsFirstDeadline both (next_deadline both)
next_deadline-IsFirstDeadline_example = next_deadline-IsFirstDeadline both both-IsTimers

first_inside : 0 < both.capacity
unfolding init free_entries register token_valid arm place_timer heap_up up_loop before heap_swap
first_inside = omega arith

rearm-IsRearmed_example : IsRearmed both first 2 90 (rearm first 2 (90, both))
rearm-IsRearmed_example = rearm-IsRearmed both first 2 90 both-IsTimers both_small first_inside

run_due-IsBatch_example : IsBatch 5 30 (run_due again_in_100 both 30 5)
run_due-IsBatch_example =
    run_due-IsBatch again_in_100 again-IsWellBehaved both 30 5 both-IsTimers both_room

heap_loops_end_example :
    (up_loop 4 both 1 ≡ heap_up both 1) × (down_loop 4 both 1 ≡ heap_down both 1)
heap_loops_end_example = heap_loops_end both 1 4 both_small heap_place few_rounds
