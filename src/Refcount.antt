-- ===== src/Refcount.antt =====
-- src/refcount.h: the count of strong references of an object, which threads change by compare and swap.
pub mod Balance
use c_trpc.Base.{
  ℕ, ◌+◌, ◌-◌, ◌^◌, ◌<◌, ◌≤◌, ◌≡◌, List, length, get_or, set, Bool, true, false, not, ◌&&◌, ◌||◌,
  leb, ◌==◌, if◌then◌else◌,
}
use c_trpc.Status.{Status, ok, err_invalid, err_state, code, ℤ, pos}

-- `tr_refcount_init`: the status, and the count if it is stored.
unfoldable pub init : ℕ → ℕ → Status × ℕ
init ref initial =
    if initial == 0 || initial == 2 ^ 32 - 1 then (err_invalid, ref) else (ok, initial)

-- The functions with a loop over compare and swap.
pub data Call : Type 0 where
  get get_unless_zero put : Call

-- How a round of such a loop ends: it returns without a change, it swaps the count and returns, or it goes round with
-- another `old`.
pub data Outcome : Type 0 where
  refuse : ℤ → Outcome
  commit : ℤ → ℕ → Outcome
  retry : ℕ → Outcome

-- `atomic_compare_exchange_weak_explicit`, which may fail for no reason.
abbrev pub compare_exchange : ℕ → ℕ → ℕ → ℤ → Bool → Outcome
compare_exchange value old new result spurious =
    if value == old && not spurious then commit result new else retry value

-- A round of `tr_refcount_get`, `tr_refcount_get_unless_zero` and `tr_refcount_put`.
unfoldable pub round : Call → ℕ → ℕ → Bool → Outcome
round get old value spurious =
    if old == 0 || leb (2 ^ 32 - 1 - 1) old
    then refuse (code err_state)
    else compare_exchange value old (old + 1) (code ok) spurious
round get_unless_zero old value spurious =
    if old == 0
    then refuse (pos 0)
    else if leb (2 ^ 32 - 1 - 1) old
    then refuse (code err_state)
    else compare_exchange value old (old + 1) (pos 1) spurious
round put old value spurious =
    if old == 0
    then refuse (code err_state)
    else compare_exchange value old (old - 1) (if old == 1 then pos 1 else pos 0) spurious

-- What a thread is about: nothing, or a call that has loaded `old`.
pub data Activity : Type 0 where
  idle : Activity
  trying : Call → ℕ → Activity

-- A thread, and the references that it owns.
pub record Thread : Type 0 where
  pub activity : Activity
  pub owned : ℕ

abbrev pub no_thread : Thread
no_thread = record { activity = idle; owned = 0 }

-- The object's count and its threads.
pub record Shared : Type 0 where
  pub value : ℕ
  pub threads : List Thread

abbrev pub thread : Shared → ℕ → Thread
thread s i = get_or s.threads i no_thread

abbrev pub with_thread : Shared → ℕ → Thread → Shared
with_thread s i t = record s { threads = set s.threads i t }

-- A successful call gives the thread a reference, or takes one from it.
abbrev pub owned_after : Call → ℕ → ℕ
owned_after get owned = owned + 1
owned_after get_unless_zero owned = owned + 1
owned_after put owned = owned - 1

-- The shared state after a round of the call of a thread.
abbrev pub settle : Shared → ℕ → Call → Outcome → Shared
settle s i call (refuse result) =
    with_thread s i (record { activity = idle; owned = (thread s i).owned })
settle s i call (commit result new) =
    with_thread (record s { value = new }) i
      (record { activity = idle; owned = owned_after call (thread s i).owned })
settle s i call (retry old) =
    with_thread s i (record { activity = trying call old; owned = (thread s i).owned })

-- The steps that threads take, in any order: to begin a call by loading the count, where `put` is only called by a
-- thread that owns a reference, and a round of a call.
pub data Step : Shared → Shared → Type 0 where
  begins :
      (s : Shared) (i : ℕ) (call : Call)
      → i < length s.threads
      → (thread s i).activity ≡ idle
      → (call ≡ put → 0 < (thread s i).owned)
      → Step s
          (with_thread s i (record { activity = trying call s.value; owned = (thread s i).owned }))
  rounds :
      (s : Shared) (i : ℕ) (call : Call) (old : ℕ) (spurious : Bool)
      → i < length s.threads
      → (thread s i).activity ≡ trying call old
      → Step s (settle s i call (round call old s.value spurious))

-- Any number of steps.
pub data Steps : Shared → Shared → Type 0 where
  done : (s : Shared) → Steps s s
  more : (s t u : Shared) → Step s t → Steps t u → Steps s u
