-- ===== src/Deadline.antt =====
-- src/execution/deadline_internal.h and deadline.c: absolute deadlines on the monotonic clock.
-- `clock_gettime` is not modelled: what it answers is an argument of each operation.
pub mod Bounds
pub mod Poll
use c_trpc.Base.{
  ℕ, ◌+◌, ◌-◌, ◌*◌, ◌/◌, ◌%◌, ◌^◌, List, [], ◌∷◌, Option, none, some, Bool, true, false, not, ◌&&◌,
  ◌||◌, ltb, leb, ◌==◌, if◌then◌else◌,
}
use c_trpc.Status.{Status, ok, err_invalid, err_sys, err_timeout, ℤ, pos, negsuc}

-- `TR_NSEC_PER_SEC` and `TR_NSEC_PER_MSEC`.
abbrev pub nsec_per_sec : ℕ
nsec_per_sec = 1000000000

abbrev pub nsec_per_msec : ℕ
nsec_per_msec = 1000000

-- `INT_MAX`.
abbrev pub int_max : ℕ
int_max = 2 ^ 31 - 1

-- `tr_deadline_time_t_max` of a signed `time_t` of 64 bits.
abbrev pub time_max : ℕ
time_max = 2 ^ 63 - 1

-- `struct timespec` with fields that are not negative.
pub record Timespec : Type 0 where
  pub tv_sec : ℕ
  pub tv_nsec : ℕ

-- What `clock_gettime` answers; none where it fails or stores a negative field.
abbrev pub Reading : Type 0
Reading = Option Timespec

-- `struct tr_deadline`.
pub record Deadline : Type 0 where
  pub absolute : Timespec
  pub infinite : Bool

-- `tr_deadline_to_ns`.
unfoldable pub to_ns : Deadline → ℕ
to_ns deadline =
    let seconds = deadline.absolute.tv_sec in
    let nanos = seconds * nsec_per_sec in
    if deadline.infinite
    then 0
    else if ltb ((2 ^ 64 - 1) / nsec_per_sec) seconds
    then 2 ^ 64 - 1
    else if ltb (2 ^ 64 - 1 - nanos) deadline.absolute.tv_nsec
    then 2 ^ 64 - 1
    else nanos + deadline.absolute.tv_nsec

-- `tr_deadline_init_ms` after the clock was read.
unfoldable pub after_ms : Timespec → ℕ → Deadline
after_ms now timeout_ms =
    let nanos = now.tv_nsec + timeout_ms % 1000 * nsec_per_msec in
    let add_seconds = timeout_ms / 1000 + nanos / nsec_per_sec in
    if ltb (time_max - now.tv_sec) add_seconds
    then record { absolute = record { tv_sec = time_max; tv_nsec = 999999999 }; infinite = false }
    else record {
      absolute = record { tv_sec = now.tv_sec + add_seconds; tv_nsec = nanos % nsec_per_sec };
      infinite = false;
    }

-- `tr_deadline_init_ms`: the status, and the deadline if it is written.
unfoldable pub init_ms : Reading → ℕ → Status × Option Deadline
init_ms none timeout_ms = (err_sys, none)
init_ms (some now) timeout_ms =
    if leb nsec_per_sec now.tv_nsec then (err_sys, none) else (ok, some (after_ms now timeout_ms))

-- `tr_deadline_init_infinite`.
abbrev pub init_infinite : Deadline
init_infinite = record { absolute = record { tv_sec = 0; tv_nsec = 0 }; infinite = true }

-- Whether a time is not before a deadline, as `tr_deadline_poll_ms` compares them.
abbrev pub past : Timespec → Timespec → Bool
past now absolute =
    ltb absolute.tv_sec now.tv_sec
    || (now.tv_sec == absolute.tv_sec && leb absolute.tv_nsec now.tv_nsec)

-- The milliseconds left before a deadline, rounded up, and at most `INT_MAX`.
unfoldable pub left_ms : Timespec → Timespec → ℕ
left_ms now absolute =
    let borrow = ltb absolute.tv_nsec now.tv_nsec in
    let seconds = absolute.tv_sec - now.tv_sec - (if borrow then 1 else 0) in
    let nanos = (if borrow then nsec_per_sec else 0) + absolute.tv_nsec - now.tv_nsec in
    let millis = seconds * 1000 + (nanos + nsec_per_msec - 1) / nsec_per_msec in
    if ltb (int_max / 1000) seconds then int_max else if ltb int_max millis then int_max else millis

-- `tr_deadline_poll_ms` of a finite deadline.
unfoldable pub read_ms : Timespec → Reading → Status × Option (ℤ × Bool)
read_ms absolute none = (err_sys, none)
read_ms absolute (some now) =
    if leb nsec_per_sec now.tv_nsec
    then (err_sys, none)
    else if past now absolute
    then (ok, some (pos 0, true))
    else (ok, some (pos (left_ms now absolute), false))

-- `tr_deadline_poll_ms`: the status, and on OK `*wait_ms` and `*expired`.
unfoldable pub poll_ms : Deadline → Reading → Status × Option (ℤ × Bool)
poll_ms deadline now =
    if deadline.infinite then (ok, some (negsuc 0, false)) else read_ms deadline.absolute now

-- `tr_deadline_expired`.
abbrev pub expired : Deadline → Reading → Status × Option (ℤ × Bool)
expired deadline now = poll_ms deadline now

-- What a call of `poll` answers: more than 0, 0 or EINTR, or another error.
pub data Polled : Type 0 where
  ready idle failed : Polled

-- A round of `tr_deadline_poll_fd`: the clock before `poll`, its answer, and the clock after it, which is read if
-- it is ready.
pub record Round : Type 0 where
  pub before : Reading
  pub polled : Polled
  pub after : Reading

-- `tr_deadline_poll_fd` after `poll` was ready.
unfoldable pub settle : Deadline → Reading → Status
settle deadline now = settled (expired deadline now)
  where
    settled : Status × Option (ℤ × Bool) → Status
    settled (status, none) = status
    settled (status, some (wait, late)) = if late then err_timeout else ok

-- The loop of `tr_deadline_poll_fd` over the rounds to come, with `first`; none where it still waits after them.
unfoldable pub poll_rounds : Deadline → Bool → Bool → List Round → Option Status
poll_rounds deadline probe first [] = none
poll_rounds deadline probe first (round ∷ rounds) =
    let rest = poll_rounds deadline probe false rounds in
    decide (poll_ms deadline round.before) round.polled rest
  where
    answer : Bool → Polled → Option Status → Option Status
    answer late ready rest =
        if first && (late && probe) then some ok else some (settle deadline round.after)
    answer late idle rest = rest
    answer late failed rest = some err_sys

    decide : Status × Option (ℤ × Bool) → Polled → Option Status → Option Status
    decide (status, none) polled rest = some status
    decide (status, some (wait, late)) polled rest =
        if late && not (first && probe) then some err_timeout else answer late polled rest

-- `tr_deadline_poll_fd` of a descriptor that is not negative.
abbrev pub poll_fd : Deadline → Bool → List Round → Option Status
poll_fd deadline allow_zero_probe rounds = poll_rounds deadline allow_zero_probe true rounds
