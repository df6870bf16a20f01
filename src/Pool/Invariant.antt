-- ===== src/Pool/Invariant.antt =====
-- Who owns each descriptor of a pool: it is free, once, or one holder has it.
use c_trpc.Base.{
  ℕ, zero, suc, ◌+◌, ◌-◌, ◌<◌, ◌≡◌, ◌≢◌, inl, inr, refl, List, [], ◌∷◌, length, length-set, get_or,
  get_or-set_self, get_or-set_ne, set, All, Option, true, false, arith, Bool-cases, Option-cases,
}
use c_trpc.Status.{is_ok}
use c_trpc.Pool.{
  Buffer, Pool, Memory, no_buffer, buffer_at, budget_reserve, release_buffer, check_out,
  set_storage, grow, take_first, acquire,
}

abbrev pub out : Buffer → ℕ
out b = elim b.checked_out [ true ↦ 1 | false ↦ 0 ]

-- How many buffers holders have.
abbrev pub held : List Buffer → ℕ
held [] = 0
held (b ∷ bs) = out b + held bs

abbrev pub IsFree : List Buffer → ℕ → Type 0
IsFree bs slot = (slot < length bs) × ((get_or bs slot no_buffer).checked_out ≡ false)

abbrev pub Distinct : List ℕ → Type 0
Distinct [] = Unit
Distinct (x ∷ xs) = All (λ y. x ≢ y) xs × Distinct xs

pub record IsPool (p : Pool) : Type 0 where
  pub sized : length p.buffers ≡ p.buffer_count
  pub counted : length p.free_list ≡ p.free_count
  pub tally : p.free_count + held p.buffers ≡ p.buffer_count
  pub free : All (IsFree p.buffers) p.free_list
  pub distinct : Distinct p.free_list

held-set :
    (bs : List Buffer) (i : ℕ) (b : Buffer)
    → i < length bs
    → held (set bs i b) + out (get_or bs i no_buffer) ≡ held bs + out b
held-set [] i b h = absurd (omega arith)
held-set (x ∷ xs) zero b h = omega arith
held-set (x ∷ xs) (suc i) b h = omega (arith, held-set xs i b (omega arith))

-- Writing one buffer leaves the others free.
All-IsFree-set :
    (bs : List Buffer) (slot : ℕ) (b : Buffer) (l : List ℕ)
    → All (λ y. slot ≢ y) l
    → All (IsFree bs) l
    → All (IsFree (set bs slot b)) l
All-IsFree-set bs slot b [] ne v = tt
All-IsFree-set bs slot b (y ∷ l) (ne, nes) (w, v) = (
  ground (arith, length-set bs slot b, get_or-set_ne bs slot y b no_buffer ne),
  All-IsFree-set bs slot b l nes v,
)

-- A buffer that a holder has is not on the free list.
not_free :
    (bs : List Buffer) (slot : ℕ) (l : List ℕ)
    → (get_or bs slot no_buffer).checked_out ≡ true
    → All (IsFree bs) l
    → All (λ y. slot ≢ y) l
not_free bs slot [] o v = tt
not_free bs slot (y ∷ l) o (w, v) = (ground arith, not_free bs slot l o v)

-- A slot outside the pool is nobody's.
pub out_in_bounds :
    (bs : List Buffer) (slot : ℕ) → (get_or bs slot no_buffer).checked_out ≡ true → slot < length bs
out_in_bounds [] slot o = cc
out_in_bounds (x ∷ xs) zero o = omega arith
out_in_bounds (x ∷ xs) (suc slot) o = omega (arith, out_in_bounds xs slot o)

-- A holder's release puts its buffer back on the free list.
release_held-IsPool :
    (p : Pool) (slot : ℕ)
    → (buffer_at p slot).checked_out ≡ true
    → IsPool p
    → IsPool (release_buffer p slot)
unfolding release_buffer
release_held-IsPool p slot o v = rw o (record {
  sized = ground (arith, length-set p.buffers slot back);
  counted = omega arith;
  tally = ground (arith, held-set p.buffers slot back inside);
  free = (
    (
      ground (arith, length-set p.buffers slot back, inside),
      ground (arith, get_or-set_self p.buffers slot back no_buffer inside),
    ),
    All-IsFree-set p.buffers slot back p.free_list others v.free,
  );
  distinct = (others, v.distinct);
})
  where
    back : Buffer
    back = record (buffer_at p slot) { checked_out = false; len = 0 }

    inside : slot < length p.buffers
    inside = out_in_bounds p.buffers slot o

    others : All (λ y. slot ≢ y) p.free_list
    others = not_free p.buffers slot p.free_list o v.free

-- A release keeps the invariant, also a repeated one, which changes nothing.
pub release_buffer-IsPool : (p : Pool) (slot : ℕ) → IsPool p → IsPool (release_buffer p slot)
unfolding release_buffer
release_buffer-IsPool p slot v = elim (Bool-cases (buffer_at p slot).checked_out) [
  | inl o ↦ release_held-IsPool p slot o v
  | inr n ↦ rw (n, release_buffer) v
]

-- The first free buffer goes to a holder.
check_out-IsPool :
    (p : Pool) (slot : ℕ) (rest : List ℕ)
    → All (IsFree p.buffers) (slot ∷ rest)
    → Distinct (slot ∷ rest)
    → length (slot ∷ rest) ≡ p.free_count
    → IsPool p
    → IsPool (check_out p slot rest)
unfolding check_out
check_out-IsPool p slot rest ((inside, idle), frees) (others, ds) n v = record {
  sized = ground (arith, length-set p.buffers slot taken);
  counted = omega arith;
  tally = ground (arith, held-set p.buffers slot taken inside);
  free = All-IsFree-set p.buffers slot taken rest others frees;
  distinct = ds;
}
  where
    taken : Buffer
    taken = record (buffer_at p slot) { checked_out = true; len = 0 }

pub length-check_out :
    (p : Pool) (slot : ℕ) (rest : List ℕ)
    → length (check_out p slot rest).buffers ≡ length p.buffers
unfolding check_out
length-check_out p slot rest = length-set p.buffers slot _

get_or-IsFree :
    (bs : List Buffer) (i slot : ℕ) (b : Buffer)
    → b.checked_out ≡ (get_or bs i no_buffer).checked_out
    → IsFree bs slot
    → IsFree (set bs i b) slot
get_or-IsFree [] i slot b e v = v
get_or-IsFree (x ∷ xs) zero zero b e v = ground arith
get_or-IsFree (x ∷ xs) zero (suc slot) b e v = v
get_or-IsFree (x ∷ xs) (suc i) zero b e v = ground (arith, length-set xs i b)
get_or-IsFree (x ∷ xs) (suc i) (suc slot) b e v =
    ground (arith, get_or-IsFree xs i slot b e (omega arith, v.1))

All-IsFree-keep :
    (bs : List Buffer) (i : ℕ) (b : Buffer) (l : List ℕ)
    → b.checked_out ≡ (get_or bs i no_buffer).checked_out
    → All (IsFree bs) l
    → All (IsFree (set bs i b)) l
All-IsFree-keep bs i b [] e v = tt
All-IsFree-keep bs i b (y ∷ l) e (w, v) = (get_or-IsFree bs i y b e w, All-IsFree-keep bs i b l e v)

-- New storage for a buffer changes no ownership.
set_storage-IsPool :
    (p : Pool) (i : ℕ) (storage : List ℕ) (n : ℕ)
    → i < length p.buffers
    → IsPool p
    → IsPool (set_storage p i storage n)
unfolding set_storage
set_storage-IsPool p i storage n inside v = record {
  sized = ground (arith, length-set p.buffers i grown);
  counted = v.counted;
  tally = ground (arith, held-set p.buffers i grown inside);
  free = All-IsFree-keep p.buffers i grown p.free_list refl v.free;
  distinct = v.distinct;
}
  where
    grown : Buffer
    grown = record (buffer_at p i) { bytes = storage; capacity = n }

module _ (realloc : ℕ → Option (List ℕ)) where
  grow-IsPool :
      (m : Memory) (slot n : ℕ)
      → slot < length m.buffers
      → IsPool m.pool
      → IsPool (grow realloc m slot n).2.pool
  unfolding grow
  grow-IsPool m slot n inside v =
      elim (Bool-cases (is_ok (budget_reserve m.family m.memory_budget growth).0)) [
        | inr refused ↦ rw refused (release_buffer-IsPool m.pool slot v)
        | inl charged ↦ rw charged (elim (Option-cases (realloc n)) [
          | inl failed ↦ rw (failed, grow) (release_buffer-IsPool m.pool slot v)
          | inr (storage, given) ↦
              rw (given, grow) (set_storage-IsPool m.pool slot storage n inside v)
        ])
      ]
    where
      growth : ℕ
      growth = n - (buffer_at m.pool slot).capacity

  take_first-IsPool :
      (m : Memory) (n : ℕ) (l : List ℕ)
      → All (IsFree m.buffers) l
      → Distinct l
      → length l ≡ m.free_count
      → IsPool m.pool
      → IsPool (take_first realloc m n l).2.pool
  unfolding take_first
  take_first-IsPool m n [] frees ds c v = ground arith
  take_first-IsPool m n (slot ∷ rest) frees ds c v =
      ground (
        arith,
        kept,
        grow-IsPool (record m { pool = check_out m.pool slot rest }) slot n inside kept,
      )
    where
      kept : IsPool (check_out m.pool slot rest)
      kept = check_out-IsPool m.pool slot rest frees ds c v

      inside : slot < length (check_out m.pool slot rest).buffers
      inside = omega (arith, length-check_out m.pool slot rest, frees.0.0)

  -- Acquiring a buffer keeps the pool's invariant, on every branch and whatever the allocator answers.
  pub acquire-IsPool : (m : Memory) (n : ℕ) → IsPool m.pool → IsPool (acquire realloc m n).2.pool
  unfolding acquire
  acquire-IsPool m n v =
      ground (arith, v, take_first-IsPool m n m.free_list v.free v.distinct v.counted v)
