-- ===== src/Deadline/Bounds.antt =====
-- What deadlines promise about the waiting time.
use c_trpc.Base.{
  ℕ, ◌+◌, ◌-◌, ◌*◌, ◌^◌, ◌≤◌, ◌<◌, ◌≡◌, ◌≢◌, ap, ◌∙◌, min, some, true, false, leb, if_true,
  if_false, arith,
}
use c_trpc.Status.{ok, pos}
use c_trpc.Deadline.{
  Timespec, Deadline, to_ns, after_ms, init_ms, past, left_ms, read_ms, poll_ms, nsec_per_sec,
  nsec_per_msec, int_max, time_max,
}

-- A time in nanoseconds.
abbrev pub ns : Timespec → ℕ
ns t = t.tv_sec * nsec_per_sec + t.tv_nsec

-- A waiting time of `w` milliseconds from `now` on for what is due at `due`: never more than `poll` takes,
-- by less than a millisecond too long, and too short only where it is the longest that `poll` takes.
pub record IsWait (now due w : ℕ) : Type 0 where
  pub some_wait : 0 < w
  pub poll_takes : w ≤ int_max
  pub not_late : now + (w - 1) * nsec_per_msec < due
  pub not_early : w ≢ int_max → due ≤ now + w * nsec_per_msec

past-ns :
    (now due : Timespec)
    → now.tv_nsec < nsec_per_sec
    → due.tv_nsec < nsec_per_sec
    → (past now due ≡ true → ns due ≤ ns now) × (past now due ≡ false → ns now < ns due)
past-ns now due h k = ((λ p. ground arith), λ p. ground arith)

left_ms-IsWait :
    (now due : Timespec)
    → now.tv_nsec < nsec_per_sec
    → due.tv_nsec < nsec_per_sec
    → ns now < ns due
    → IsWait (ns now) (ns due) (left_ms now due)
unfolding left_ms
left_ms-IsWait now due h k l = ground arith

-- A deadline as the initialisation leaves it.
pub record IsDeadline (d : Deadline) : Type 0 where
  pub finite : d.infinite ≡ false
  pub nanos_inside : d.absolute.tv_nsec < nsec_per_sec
  pub seconds_fit : d.absolute.tv_sec ≤ time_max

-- A deadline after some milliseconds is that many milliseconds away, or the last time that `time_t` has.
after_ms_exact :
    (now : Timespec) (timeout : ℕ)
    → now.tv_nsec < nsec_per_sec
    → now.tv_sec ≤ time_max
    → IsDeadline (after_ms now timeout)
      × (ns (after_ms now timeout).absolute
          ≡ min (ns now + timeout * nsec_per_msec) (2 ^ 63 * nsec_per_sec - 1))
unfolding after_ms
after_ms_exact now timeout h k = ground arith

-- The nanoseconds of a deadline are its time, or the largest number of 64 bits.
to_ns_saturates : (d : Deadline) → IsDeadline d → to_ns d ≡ min (ns d.absolute) (2 ^ 64 - 1)
unfolding to_ns
to_ns_saturates d v = ground arith

init_ms_ok :
    (now : Timespec) (timeout : ℕ)
    → now.tv_nsec < nsec_per_sec
    → init_ms (some now) timeout ≡ (ok, some (after_ms now timeout))
unfolding init_ms
init_ms_ok now timeout h = if_false (leb nsec_per_sec now.tv_nsec) _ _ (ground arith)

poll_ms_past :
    (d : Deadline) (now : Timespec)
    → IsDeadline d
    → now.tv_nsec < nsec_per_sec
    → ns d.absolute ≤ ns now
    → poll_ms d (some now) ≡ (ok, some (pos 0, true))
unfolding poll_ms read_ms
poll_ms_past d now v h l =
    let p = past-ns now d.absolute h v.nanos_inside in
    if_false d.infinite _ _ v.finite
    ∙ if_false (leb nsec_per_sec now.tv_nsec) _ _ (ground arith)
    ∙ if_true (past now d.absolute) _ _ (ground (arith, p))

poll_ms_left :
    (d : Deadline) (now : Timespec)
    → IsDeadline d
    → now.tv_nsec < nsec_per_sec
    → ns now < ns d.absolute
    → poll_ms d (some now) ≡ (ok, some (pos (left_ms now d.absolute), false))
unfolding poll_ms read_ms
poll_ms_left d now v h l =
    let p = past-ns now d.absolute h v.nanos_inside in
    if_false d.infinite _ _ v.finite
    ∙ if_false (leb nsec_per_sec now.tv_nsec) _ _ (ground arith)
    ∙ if_false (past now d.absolute) _ _ (ground (arith, p))

-- What a deadline of `timeout` milliseconds from `now` on does at a `later` time.
pub record IsTimeout (now later : Timespec) (timeout : ℕ) (d : Deadline) : Type 0 where
  pub made : init_ms (some now) timeout ≡ (ok, some d)
  -- It has expired exactly when the timeout has passed,
  pub expires :
      ns now + timeout * nsec_per_msec ≤ ns later
      → poll_ms d (some later) ≡ (ok, some (pos 0, true))
  -- and before that the answered time is what is left of it.
  pub waits :
      ns later < ns now + timeout * nsec_per_msec
      → (poll_ms d (some later) ≡ (ok, some (pos (left_ms later d.absolute), false)))
        × IsWait (ns later) (ns now + timeout * nsec_per_msec) (left_ms later d.absolute)
  -- For the timer queue it is the same time in nanoseconds, or the largest of 64 bits.
  pub nanoseconds : to_ns d ≡ min (ns now + timeout * nsec_per_msec) (2 ^ 64 - 1)

-- A timeout that starts at a valid time, and whose end fits `time_t`, expires exactly after its
-- milliseconds, by every valid reading of the clock. Before that, the time to wait is positive,
-- fits an int, is rounded up by less than a millisecond, and is short only at the cap of INT_MAX;
-- and its nanoseconds saturate at 64 bits.
pub init_ms-IsTimeout :
    (now later : Timespec) (timeout : ℕ)
    → now.tv_nsec < nsec_per_sec
    → now.tv_sec ≤ time_max
    → later.tv_nsec < nsec_per_sec
    → ns now + timeout * nsec_per_msec < 2 ^ 63 * nsec_per_sec
    → IsTimeout now later timeout (after_ms now timeout)
init_ms-IsTimeout now later timeout h k l f =
    let d = after_ms now timeout in
    let w = after_ms_exact now timeout h k in
    let e : ns d.absolute ≡ ns now + timeout * nsec_per_msec = omega (arith, w.1, f) in
    record {
      made = init_ms_ok now timeout h;
      expires = λ p. poll_ms_past d later w.0 l (omega (arith, e, p));
      waits = λ p. (
        poll_ms_left d later w.0 l (omega (arith, e, p)),
        rw e at (left_ms-IsWait later d.absolute l (w.0).nanos_inside (omega (arith, e, p))),
      );
      nanoseconds = to_ns_saturates d w.0 ∙ ap (λ n. min n (2 ^ 64 - 1)) e;
    }
