-- ===== src/Timer/Arm.antt =====
-- Giving a timer a deadline, and taking it away.
use c_trpc.Base.{ℕ, ◌^◌, ◌<◌, ◌≡◌, ◌≢◌, true, false, not, if_true, if_false, arith}
use c_trpc.Status.{Status, ok, err_stale}
use c_trpc.Timer.{Token, TimerQueue, entry, with_entry, place_timer, arm, token_valid, next64}
use c_trpc.Timer.Invariant.{IsTimers}
use c_trpc.Timer.Place.{place_timer-IsPlaced, place_timer-entry, place_timer-IsTimers}

-- What arming the timer of a valid token achieves.
pub record IsArmed (q : TimerQueue) (token : Token) (deadline : ℕ) (r : Status × TimerQueue)
    : Type 0 where
  -- It never fails.
  pub accepted : r.0 ≡ ok
  pub kept : IsTimers r.1
  pub capacity_kept : (r.1).capacity ≡ q.capacity
  pub still_valid : token_valid r.1 token ≡ true
  pub deadline_set : (entry r.1 token.slot).deadline_ns ≡ deadline
  -- Nothing of any other timer changes but its place in the heap.
  pub others_kept :
      (s : ℕ) → s ≢ token.slot → entry r.1 s ≡ record (entry q s) { link = (entry r.1 s).link }

pub token_facts :
    (q : TimerQueue) (token : Token)
    → token_valid q token ≡ true
    → (token.slot < q.capacity)
      × ((entry q token.slot).used ≡ true)
      × ((entry q token.slot).generation ≡ token.generation)
unfolding token_valid
token_facts q token t = ground arith

pub facts_token :
    (q : TimerQueue) (token : Token)
    → token.slot < q.capacity
    → (entry q token.slot).used ≡ true
    → (entry q token.slot).generation ≡ token.generation
    → token_valid q token ≡ true
unfolding token_valid
facts_token q token i u g = ground arith

pub arm_valid :
    (q : TimerQueue) (token : Token) (deadline : ℕ)
    → token_valid q token ≡ true
    → arm q token deadline
      ≡ place_timer
          (with_entry q token.slot (record (entry q token.slot) {
            deadline_ns = deadline;
            version = next64 (entry q token.slot).version;
          }))
          token.slot
          (entry q token.slot).deadline_ns
          deadline
unfolding arm
arm_valid q token deadline t = if_false (not (token_valid q token)) _ _ (ground arith)

-- In a well-formed queue with fewer than 2^31 timers in its heap, arming the timer of a valid token, with a deadline or
-- with 0 to disarm it, never fails: the timer has the new deadline, every other timer keeps its own, and the queue stays well formed.
pub arm-IsArmed :
    (q : TimerQueue) (token : Token) (deadline : ℕ)
    → IsTimers q
    → q.size < 2 ^ 31
    → token_valid q token ≡ true
    → IsArmed q token deadline (arm q token deadline)
arm-IsArmed q token deadline v small t =
    let f = token_facts q token t in
    let version = next64 (entry q token.slot).version in
    let en = place_timer-entry q token.slot deadline version v f.0 f.1 small in
    let w = place_timer-IsPlaced q token.slot deadline version v f.0 f.1 small in
    rw (arm_valid q token deadline t) (record {
      accepted = w.accepted;
      kept = place_timer-IsTimers q token.slot deadline version v f.0 f.1 small;
      capacity_kept = w.capacity_kept;
      still_valid =
          facts_token _ token (omega (arith, w.capacity_kept, f.0))
            (ground (arith, en token.slot, f)) (ground (arith, en token.slot, f));
      deadline_set = ground (arith, en token.slot);
      others_kept = λ s n. ground (arith, en s);
    })

-- A token that is not valid arms nothing.
pub arm_stale :
    (q : TimerQueue) (token : Token) (deadline : ℕ)
    → token_valid q token ≡ false
    → arm q token deadline ≡ (err_stale, q)
unfolding arm
arm_stale q token deadline t = if_true (not (token_valid q token)) _ _ (ground arith)
