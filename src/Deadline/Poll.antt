-- ===== src/Deadline/Poll.antt =====
-- Waiting for a descriptor ends with its deadline.
use c_trpc.Base.{◌≡◌, ◌⊎◌, List, [], ◌∷◌, none, some, All, Bool, true, false, ◌||◌, leb, arith}
use c_trpc.Status.{ok, err_sys, err_timeout, pos}
use c_trpc.Deadline.{
  Timespec, Deadline, Reading, Round, Polled, ready, idle, failed, poll_ms, read_ms, left_ms,
  settle, poll_rounds, poll_fd,
}
use c_trpc.Deadline.Bounds.{ns, IsDeadline}

-- A reading of the clock at the deadline or after it.
abbrev pub late : Deadline → Reading → Bool
late d none = false
late d (some now) = leb (ns d.absolute) (ns now)

abbrev pub any_late : Deadline → List Round → Bool
any_late d [] = false
any_late d (r ∷ rounds) = late d r.before || (late d r.after || any_late d rounds)

-- A round that leaves the call waiting: the time is not up, and the descriptor is not ready.
pub record IsWaiting (d : Deadline) (r : Round) : Type 0 where
  pub not_up : late d r.before ≡ false
  pub not_ready : r.polled ≡ idle

-- What a reading says of a finite deadline.
reading_cases :
    (d : Deadline) (now : Timespec)
    → IsDeadline d
    → (poll_ms d (some now) ≡ (err_sys, none))
      ⊎ ((late d (some now) ≡ true) × (poll_ms d (some now) ≡ (ok, some (pos 0, true))))
      ⊎ ((late d (some now) ≡ false)
          × (poll_ms d (some now) ≡ (ok, some (pos (left_ms now d.absolute), false))))
unfolding poll_ms read_ms
reading_cases d now v = ground (arith, v)

no_reading : (d : Deadline) → IsDeadline d → poll_ms d none ≡ (err_sys, none)
unfolding poll_ms read_ms
no_reading d v = ground (arith, v)

still-IsWaiting :
    (d : Deadline) (probe : Bool) (before : Reading) (polled : Polled) (after : Reading)
    (rounds : List Round)
    → IsDeadline d
    → let r : Round = record { before = before; polled = polled; after = after } in
      poll_rounds d probe false (r ∷ rounds) ≡ none
      → IsWaiting d r × (poll_rounds d probe false rounds ≡ none)
unfolding poll_rounds
still-IsWaiting d probe none polled after rounds v e = absurd (ground (arith, no_reading d v))
still-IsWaiting d probe (some now) ready after rounds v e =
    absurd (ground (arith, reading_cases d now v))
still-IsWaiting d probe (some now) failed after rounds v e =
    absurd (ground (arith, reading_cases d now v))
still-IsWaiting d probe (some now) idle after rounds v e = ground (arith, reading_cases d now v)

settle-late :
    (d : Deadline) (after : Reading)
    → IsDeadline d
    → settle d after ≡ err_timeout
    → late d after ≡ true
unfolding settle
settle-late d none v e = absurd (ground (arith, no_reading d v))
settle-late d (some now) v e = ground (arith, reading_cases d now v)

timeout_at :
    (d : Deadline) (probe first : Bool) (before : Reading) (polled : Polled) (after : Reading)
    (rounds : List Round)
    → IsDeadline d
    → let r : Round = record { before = before; polled = polled; after = after } in
      poll_rounds d probe first (r ∷ rounds) ≡ some err_timeout
      → (late d before ≡ true)
        ⊎ (late d after ≡ true)
        ⊎ (poll_rounds d probe false rounds ≡ some err_timeout)
unfolding poll_rounds
timeout_at d probe first none polled after rounds v e = absurd (ground (arith, no_reading d v))
timeout_at d probe first (some now) ready after rounds v e =
    ground (arith, reading_cases d now v, settle-late d after v)
timeout_at d probe first (some now) failed after rounds v e = ground (arith, reading_cases d now v)
timeout_at d probe first (some now) idle after rounds v e = ground (arith, reading_cases d now v)

poll_rounds_timeout :
    (d : Deadline) (probe first : Bool) (rounds : List Round)
    → IsDeadline d
    → poll_rounds d probe first rounds ≡ some err_timeout
    → any_late d rounds ≡ true
unfolding poll_rounds
poll_rounds_timeout d probe first [] v e = absurd (ground arith)
poll_rounds_timeout d probe first (r ∷ rounds) v e = ground (
  arith,
  timeout_at d probe first r.before r.polled r.after rounds v e,
  poll_rounds_timeout d probe false rounds v,
)

poll_rounds-IsWaiting :
    (d : Deadline) (probe : Bool) (rounds : List Round)
    → IsDeadline d
    → poll_rounds d probe false rounds ≡ none
    → All (IsWaiting d) rounds
poll_rounds-IsWaiting d probe [] v e = tt
poll_rounds-IsWaiting d probe (r ∷ rounds) v e =
    let s = still-IsWaiting d probe r.before r.polled r.after rounds v e in
    (s.0, poll_rounds-IsWaiting d probe rounds v s.1)

after_first :
    (d : Deadline) (probe : Bool) (before : Reading) (polled : Polled) (after : Reading)
    (rounds : List Round)
    → IsDeadline d
    → let r : Round = record { before = before; polled = polled; after = after } in
      poll_fd d probe (r ∷ rounds) ≡ none → poll_rounds d probe false rounds ≡ none
unfolding poll_rounds
after_first d probe none polled after rounds v e = absurd (ground (arith, no_reading d v))
after_first d probe (some now) ready after rounds v e =
    absurd (ground (arith, reading_cases d now v))
after_first d probe (some now) failed after rounds v e =
    absurd (ground (arith, reading_cases d now v))
after_first d probe (some now) idle after rounds v e = ground (arith, reading_cases d now v)

-- Waiting for a descriptor under a finite deadline: TIMEOUT is answered only when the clock was
-- read at the deadline or after it; and while the call still waits, then in every round after the
-- first the reading before `poll` was not at the deadline or after it, and the descriptor was not
-- ready.
pub poll_fd_punctual :
    (d : Deadline) (probe : Bool) (r : Round) (rounds : List Round)
    → IsDeadline d
    → (poll_fd d probe (r ∷ rounds) ≡ some err_timeout → any_late d (r ∷ rounds) ≡ true)
      × (poll_fd d probe (r ∷ rounds) ≡ none → All (IsWaiting d) rounds)
poll_fd_punctual d probe r rounds v = (
  (λ e. poll_rounds_timeout d probe true (r ∷ rounds) v e),
  (λ e.
      poll_rounds-IsWaiting d probe rounds v
        (after_first d probe r.before r.polled r.after rounds v e)),
)
