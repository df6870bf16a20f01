-- ===== src/Tests/Clocks.antt =====
-- Deadlines and reference counts on concrete inputs.
use c_trpc.Base.{
  ℕ, zero, suc, ◌<◌, ◌≡◌, refl, true, false, some, none, Bool, [], ◌∷◌, All, length, arith,
}
use c_trpc.Status.{err_timeout}
use c_trpc.Deadline.{Timespec, Deadline, Round, idle, after_ms, poll_fd}
use c_trpc.Deadline.Bounds.{IsTimeout, IsDeadline, init_ms-IsTimeout}
use c_trpc.Deadline.Poll.{any_late, IsWaiting, poll_fd_punctual}
use c_trpc.Refcount.{
  put, round, idle, trying, Shared, thread, with_thread, begins, Steps, done, more,
}
use c_trpc.Refcount.Balance.{IsCounted, IsPut, Steps-IsCounted-IsPut}

abbrev start : Timespec
start = record { tv_sec = 10; tv_nsec = 999000000 }

abbrev later : Timespec
later = record { tv_sec = 11; tv_nsec = 500000 }

init_ms-IsTimeout_example : IsTimeout start later 1500 (after_ms start 1500)
init_ms-IsTimeout_example =
    init_ms-IsTimeout start later 1500 (omega arith) (omega arith) (omega arith) (omega arith)

abbrev due : Deadline
due = record { absolute = record { tv_sec = 11; tv_nsec = 0 }; infinite = false }

due-IsDeadline : IsDeadline due
due-IsDeadline = record { finite = refl; nanos_inside = omega arith; seconds_fit = omega arith }

abbrev sleeping : Round
sleeping = record { before = some start; polled = idle; after = none }

abbrev woken : Round
woken = record { before = some later; polled = idle; after = none }

poll_fd_punctual_example :
    (poll_fd due false (sleeping ∷ woken ∷ []) ≡ some err_timeout
      → any_late due (sleeping ∷ woken ∷ []) ≡ true)
    × (poll_fd due false (sleeping ∷ woken ∷ []) ≡ none → All (IsWaiting due) (woken ∷ []))
poll_fd_punctual_example = poll_fd_punctual due false sleeping (woken ∷ []) due-IsDeadline

-- Two threads that own a reference each; one is about to put its own back.
abbrev two_owners : Shared
two_owners = record {
  value = 2;
  threads = record { activity = idle; owned = 1 } ∷ record { activity = idle; owned = 1 } ∷ [];
}

abbrev one_puts : Shared
one_puts = with_thread two_owners 0 (record { activity = trying put 2; owned = 1 })

putting_step : Steps two_owners one_puts
putting_step =
    more two_owners one_puts one_puts
      (begins two_owners 0 put (omega arith) refl (λ p. omega arith)) (done one_puts)

two_owners-IsCounted : IsCounted two_owners
two_owners-IsCounted = record { counted = refl; fits = omega arith; putting = none_puts }
  where
    none_puts :
        (i old : ℕ)
        → (thread two_owners i).activity ≡ trying put old
        → (0 < (thread two_owners i).owned) × (0 < old)
    none_puts zero old a = absurd (ground arith)
    none_puts (suc zero) old a = absurd (ground arith)
    none_puts (suc (suc i)) old a = absurd (ground arith)

Steps-IsCounted-IsPut_example :
    IsCounted one_puts
    × ((i old : ℕ) (spurious : Bool)
        → i < length one_puts.threads
        → (thread one_puts i).activity ≡ trying put old
        → IsPut one_puts i (round put old one_puts.value spurious))
Steps-IsCounted-IsPut_example =
    Steps-IsCounted-IsPut two_owners one_puts two_owners-IsCounted putting_step
