-- ===== src/Pool/Ownership.antt =====
-- A buffer that is handed out was nobody's, is its holder's alone, and comes back once.
use c_trpc.Base.{
  ℕ, ◌<◌, ◌≡◌, ◌≢◌, inl, inr, refl, ap, List, [], ◌∷◌, length, get_or-set_self, get_or-set_ne, All,
  Option, some, true, false, arith, Bool-cases, Option-cases,
}
use c_trpc.Status.{Status, ok, again}
use c_trpc.Pool.{
  Buffer, Pool, Memory, no_buffer, buffer_at, release_buffer, check_out, set_storage, grow,
  take_first, acquire,
}
use c_trpc.Pool.Invariant.{IsPool, IsFree, held, out_in_bounds, length-check_out}

check_out_self :
    (p : Pool) (slot : ℕ) (rest : List ℕ)
    → slot < length p.buffers
    → buffer_at (check_out p slot rest) slot
      ≡ record (buffer_at p slot) { checked_out = true; len = 0 }
unfolding check_out
check_out_self p slot rest h = get_or-set_self p.buffers slot _ no_buffer h

check_out_ne :
    (p : Pool) (slot other : ℕ) (rest : List ℕ)
    → slot ≢ other
    → buffer_at (check_out p slot rest) other ≡ buffer_at p other
unfolding check_out
check_out_ne p slot other rest h = get_or-set_ne p.buffers slot other _ no_buffer h

set_storage_at :
    (p : Pool) (slot other : ℕ) (storage : List ℕ) (n : ℕ)
    → slot < length p.buffers
    → slot ≢ other
    → (buffer_at (set_storage p slot storage n) slot
        ≡ record (buffer_at p slot) { bytes = storage; capacity = n })
      × (buffer_at (set_storage p slot storage n) other ≡ buffer_at p other)
unfolding set_storage
set_storage_at p slot other storage n h ne = (
  get_or-set_self p.buffers slot _ no_buffer h,
  get_or-set_ne p.buffers slot other _ no_buffer ne,
)

release_idle :
    (p : Pool) (slot : ℕ) → (buffer_at p slot).checked_out ≡ false → release_buffer p slot ≡ p
unfolding release_buffer
release_idle p slot n = rw n

release_held :
    (p : Pool) (slot : ℕ)
    → (buffer_at p slot).checked_out ≡ true
    → (buffer_at (release_buffer p slot) slot).checked_out ≡ false
unfolding release_buffer
release_held p slot o = rw o (
    ap (λ (b : Buffer). b.checked_out)
      (get_or-set_self p.buffers slot _ no_buffer (out_in_bounds p.buffers slot o)))

release_buffer_frees :
    (p : Pool) (slot : ℕ) → (buffer_at (release_buffer p slot) slot).checked_out ≡ false
release_buffer_frees p slot = elim (Bool-cases (buffer_at p slot).checked_out) [
  | inr n ↦ rw (release_idle p slot n) n
  | inl o ↦ held_case o
]
  where
    held_case :
        (buffer_at p slot).checked_out ≡ true
        → (buffer_at (release_buffer p slot) slot).checked_out ≡ false
    held_case o = ground (arith, release_held p slot o)

-- Releasing a buffer twice is the same as releasing it once.
pub release_buffer_twice :
    (p : Pool) (slot : ℕ) → release_buffer (release_buffer p slot) slot ≡ release_buffer p slot
release_buffer_twice p slot =
    release_idle (release_buffer p slot) slot (release_buffer_frees p slot)

module _ (realloc : ℕ → Option (List ℕ)) where
  grow_given :
      (m m' : Memory) (slot n s other : ℕ) (ret : Status)
      → slot < length m.buffers
      → s ≢ other
      → grow realloc m slot n ≡ (ret, some s, m')
      → (ret ≡ ok)
        × (s ≡ slot)
        × ((buffer_at m'.pool slot).checked_out ≡ (buffer_at m.pool slot).checked_out)
        × ((buffer_at m'.pool slot).capacity ≡ n)
        × (buffer_at m'.pool other ≡ buffer_at m.pool other)
  unfolding grow
  grow_given m m' slot n s other ret inside ne e = elim (Option-cases (realloc n)) [
    | inl failed ↦ ground arith
    | inr (storage, given) ↦ ground (arith, set_storage_at m.pool slot other storage n inside)
  ]

  take_first_given :
      (m m' : Memory) (n s other : ℕ) (ret : Status) (l : List ℕ)
      → All (IsFree m.buffers) l
      → s ≢ other
      → take_first realloc m n l ≡ (ret, some s, m')
      → (ret ≡ ok)
        × ((buffer_at m.pool s).checked_out ≡ false)
        × ((buffer_at m'.pool s).checked_out ≡ true)
        × (buffer_at m'.pool other ≡ buffer_at m.pool other)
  unfolding take_first
  take_first_given m m' n s other ret [] frees ne e = cc
  take_first_given m m' n s other ret (slot ∷ rest) ((inside, idle), frees) ne e = ground (
    arith,
    length-check_out m.pool slot rest,
    check_out_self m.pool slot rest inside,
    check_out_ne m.pool slot other rest,
    grow_given (record m { pool = check_out m.pool slot rest }) m' slot n s other ret,
  )

  -- A buffer that a well-formed pool hands out was nobody's and is its holder's, and the answer is OK;
  -- every other buffer is as it was.
  pub acquire_exclusive :
      (m m' : Memory) (n slot other : ℕ) (ret : Status)
      → IsPool m.pool
      → slot ≢ other
      → acquire realloc m n ≡ (ret, some slot, m')
      → (ret ≡ ok)
        × ((buffer_at m.pool slot).checked_out ≡ false)
        × ((buffer_at m'.pool slot).checked_out ≡ true)
        × (buffer_at m'.pool other ≡ buffer_at m.pool other)
  unfolding acquire
  acquire_exclusive m m' n slot other ret v ne e =
      ground (arith, take_first_given m m' n slot other ret m.free_list v.free ne)

  take_first_again :
      (m : Memory) (n : ℕ) (l : List ℕ)
      → m.fixed ≡ true
      → (take_first realloc m n l).0 ≡ again
      → length l ≡ 0
  unfolding take_first
  take_first_again m n [] fixed e = refl
  take_first_again m n (slot ∷ rest) fixed e = ground arith

  -- When a well-formed pool of fixed storage answers "again" to a request, holders have all its
  -- buffers.
  pub acquire_exhausted :
      (m : Memory) (n : ℕ)
      → m.fixed ≡ true
      → IsPool m.pool
      → (acquire realloc m n).0 ≡ again
      → held m.buffers ≡ m.buffer_count
  unfolding acquire
  acquire_exhausted m n fixed v e = ground (arith, v, take_first_again m n m.free_list fixed)
