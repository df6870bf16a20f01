-- ===== src/Refcount/Balance.antt =====
-- Whatever the order of the threads' steps, the count is the number of references that they own.
use c_trpc.Base.{
  ℕ, zero, suc, ◌+◌, ◌-◌, ◌^◌, ◌<◌, ◌≤◌, ◌≡◌, ◌≢◌, ◌⊎◌, refl, ap, ◌∙◌, List, [], ◌∷◌, length,
  get_or, set, get_or-set, Bool, arith,
}
use c_trpc.Status.{ℤ, pos}
use c_trpc.Refcount.{
  Call, get, get_unless_zero, put, Outcome, refuse, commit, retry, round, idle, trying, Thread,
  no_thread, Shared, thread, with_thread, owned_after, settle, Step, begins, rounds, Steps, done,
  more,
}

abbrev pub owned_sum : List Thread → ℕ
owned_sum [] = 0
owned_sum (t ∷ ts) = t.owned + owned_sum ts

owned_sum-set :
    (ts : List Thread) (i : ℕ) (t : Thread)
    → i < length ts
    → owned_sum (set ts i t) + (get_or ts i no_thread).owned ≡ owned_sum ts + t.owned
owned_sum-set [] i t h = absurd (omega arith)
owned_sum-set (x ∷ ts) zero t h = omega arith
owned_sum-set (x ∷ ts) (suc i) t h = omega (arith, owned_sum-set ts i t (omega arith))

owned_sum_bound : (ts : List Thread) (i : ℕ) → (get_or ts i no_thread).owned ≤ owned_sum ts
owned_sum_bound [] i = omega arith
owned_sum_bound (x ∷ ts) zero = omega arith
owned_sum_bound (x ∷ ts) (suc i) = omega (arith, owned_sum_bound ts i)

pub record IsCounted (s : Shared) : Type 0 where
  pub counted : s.value ≡ owned_sum s.threads
  pub fits : s.value < 2 ^ 32 - 1
  -- A thread within `put` owns a reference, and has loaded a count that is not 0.
  pub putting :
      (i old : ℕ) → (thread s i).activity ≡ trying put old → (0 < (thread s i).owned) × (0 < old)

-- A thread's step that sets the count and what it owns to match.
stepped :
    (s : Shared) (i : ℕ) (t : Thread) (new : ℕ)
    → IsCounted s
    → i < length s.threads
    → new + (thread s i).owned ≡ s.value + t.owned
    → new < 2 ^ 32 - 1
    → ((old : ℕ) → t.activity ≡ trying put old → (0 < t.owned) × (0 < old))
    → IsCounted (with_thread (record s { value = new }) i t)
stepped s i t new v h e f p = record {
  counted = omega (arith, owned_sum-set s.threads i t h, v.counted, e);
  fits = f;
  putting =
      λ j old a. ground (arith, get_or-set s.threads i j t no_thread h, v.putting j old, p old);
}

-- What a round says of the count when it swaps it.
committed :
    (call : Call) (old value new : ℕ) (result : ℤ) (spurious : Bool)
    → round call old value spurious ≡ commit result new
    → value < 2 ^ 32 - 1
    → (value ≡ old)
      × (new < 2 ^ 32 - 1)
      × ((call ≡ put) ⊎ (new ≡ value + 1))
      × (call ≡ put → new + 1 ≡ value)
unfolding round
committed get old value new result spurious e f = ground arith
committed get_unless_zero old value new result spurious e f = ground arith
committed put old value new result spurious e f = ground arith

retried :
    (call : Call) (old value next : ℕ) (spurious : Bool)
    → round call old value spurious ≡ retry next
    → next ≡ value
unfolding round
retried get old value next spurious e = ground arith
retried get_unless_zero old value next spurious e = ground arith
retried put old value next spurious e = ground arith

-- What a thread owns when its call succeeds.
owned_moves :
    (call : Call) (owned value new : ℕ)
    → (call ≡ put) ⊎ (new ≡ value + 1)
    → (call ≡ put → (new + 1 ≡ value) × (0 < owned))
    → new + owned ≡ value + owned_after call owned
owned_moves get owned value new a b = ground arith
owned_moves get_unless_zero owned value new a b = ground arith
owned_moves put owned value new a b = ground (arith, b refl)

module _ (s : Shared) (i : ℕ) (call : Call) (old : ℕ) (v : IsCounted s) (h : i < length s.threads)
    (a : (thread s i).activity ≡ trying call old) where
  putting_owns : call ≡ put → 0 < (thread s i).owned
  putting_owns p = (v.putting i old (a ∙ ap (λ c. trying c old) p)).0

  settled :
      (o : Outcome) (spurious : Bool)
      → round call old s.value spurious ≡ o
      → IsCounted (settle s i call o)
  settled (refuse result) spurious e =
      stepped s i (record { activity = idle; owned = (thread s i).owned }) s.value v h refl v.fits
        (λ o n. absurd (ground arith))
  settled (commit result new) spurious e =
      let c = committed call old s.value new result spurious e v.fits in
      stepped s i (record { activity = idle; owned = owned_after call (thread s i).owned }) new v h
        (owned_moves call (thread s i).owned s.value new c.2 (λ p. (c.3 p, putting_owns p))) c.1
        (λ o n. absurd (ground arith))
  settled (retry next) spurious e =
      stepped s i (record { activity = trying call next; owned = (thread s i).owned }) s.value v h
        refl v.fits
        (λ o n. ground (
          arith,
          retried call old s.value next spurious e,
          putting_owns,
          v.counted,
          owned_sum_bound s.threads i,
        ))

Step-IsCounted : (s t : Shared) → Step s t → IsCounted s → IsCounted t
Step-IsCounted s t (begins _ i call h a p) v =
    stepped s i (record { activity = trying call s.value; owned = (thread s i).owned }) s.value v h
      refl v.fits (λ o n. ground (arith, p, v.counted, owned_sum_bound s.threads i))
Step-IsCounted s t (rounds _ i call old spurious h a) v =
    settled s i call old v h a (round call old s.value spurious) spurious refl

Steps-IsCounted : (s t : Shared) → Steps s t → IsCounted s → IsCounted t
Steps-IsCounted s t (done _) v = v
Steps-IsCounted s t (more _ u _ a b) v = Steps-IsCounted u t b (Step-IsCounted s u a v)

-- What a round of `put` answers.
pub record IsPut (s : Shared) (i : ℕ) (o : Outcome) : Type 0 where
  -- It is never refused,
  pub not_refused : (result : ℤ) → o ≢ refuse result
  -- it answers 1 exactly when no thread owns a reference any more, and otherwise 0.
  pub answers :
      (result : ℤ) (new : ℕ)
      → o ≡ commit result new
      → ((result ≡ pos 1) × (owned_sum (settle s i put o).threads ≡ 0))
        ⊎ ((result ≡ pos 0) × (0 < owned_sum (settle s i put o).threads))

put_result :
    (old value new : ℕ) (result : ℤ) (spurious : Bool)
    → round put old value spurious ≡ commit result new
    → ((result ≡ pos 1) × (new ≡ 0)) ⊎ ((result ≡ pos 0) × (0 < new))
unfolding round
put_result old value new result spurious e = ground arith

put_not_refused :
    (old value : ℕ) (result : ℤ) (spurious : Bool)
    → 0 < old
    → round put old value spurious ≢ refuse result
unfolding round
put_not_refused old value result spurious p e = ground arith

put-IsPut :
    (s : Shared) (i old : ℕ) (spurious : Bool)
    → IsCounted s
    → i < length s.threads
    → (thread s i).activity ≡ trying put old
    → IsPut s i (round put old s.value spurious)
put-IsPut s i old spurious v h a = record {
  not_refused = λ result e. put_not_refused old s.value result spurious ((v.putting i old a).1) e;
  answers = λ result new e.
      let w = (settled s i put old v h a (round put old s.value spurious) spurious refl).counted in
      let value_new : (settle s i put (round put old s.value spurious)).value ≡ new =
        ap (λ o. (settle s i put o).value) e in
      ground (arith, put_result old s.value new result spurious e, w, value_new);
}

-- However the steps of the threads are interleaved, from a state where the count is the number of
-- references that the threads own, below UINT32_MAX, and where a thread within `put` owns one and
-- has loaded a count that is not 0: all this stays so. A round of `put` that a thread makes is
-- never refused, and when it swaps the count it answers 1 exactly when no thread owns a reference
-- any more.
pub Steps-IsCounted-IsPut :
    (s t : Shared)
    → IsCounted s
    → Steps s t
    → IsCounted t
      × ((i old : ℕ) (spurious : Bool)
          → i < length t.threads
          → (thread t i).activity ≡ trying put old
          → IsPut t i (round put old t.value spurious))
Steps-IsCounted-IsPut s t v steps =
    let w = Steps-IsCounted s t steps v in
    (w, λ i old spurious h a. put-IsPut t i old spurious w h a)
