-- ===== src/Pool/Fresh.antt =====
-- A new pool is well formed: all its descriptors are free, once.
use c_trpc.Base.{
  ℕ, zero, suc, ◌≤◌, ◌<◌, ◌≡◌, ◌≢◌, inl, inr, refl, ap, List, [], ◌∷◌, length, get_or, true, false,
  Bool, Option, some, All, arith, Option-cases,
}
use c_trpc.Budget.{Family, Account}
use c_trpc.Status.{ok}
use c_trpc.Pool.{Buffer, Pool, no_buffer}
use c_trpc.Pool.Create.{Environment, linked, new_pool, fixed_buffers, init_budgeted}
use c_trpc.Pool.Invariant.{held, IsFree, Distinct, IsPool}

abbrev IsIdle : Buffer → Type 0
IsIdle b = b.checked_out ≡ false

held_zero : (bs : List Buffer) → All IsIdle bs → held bs ≡ 0
held_zero [] h = refl
held_zero (b ∷ bs) (h, hs) = ground (arith, held_zero bs hs)

get_or-IsIdle :
    (bs : List Buffer) (i : ℕ) → All IsIdle bs → i < length bs → IsIdle (get_or bs i no_buffer)
get_or-IsIdle [] i h l = absurd (omega arith)
get_or-IsIdle (b ∷ bs) zero (h, hs) l = h
get_or-IsIdle (b ∷ bs) (suc i) (h, hs) l = get_or-IsIdle bs i hs (omega arith)

linked-IsFree :
    (bs : List Buffer) (n : ℕ) → All IsIdle bs → n ≤ length bs → All (IsFree bs) (linked n)
unfolding linked
linked-IsFree bs zero h l = tt
linked-IsFree bs (suc n) h l =
    ((omega arith, get_or-IsIdle bs n h (omega arith)), linked-IsFree bs n h (omega arith))

linked_below : (m n : ℕ) → n ≤ m → All (λ y. m ≢ y) (linked n)
unfolding linked
linked_below m zero l = tt
linked_below m (suc n) l = (omega arith, linked_below m n (omega arith))

linked-Distinct : (n : ℕ) → Distinct (linked n)
unfolding linked
linked-Distinct zero = tt
linked-Distinct (suc n) = (linked_below n n (omega arith), linked-Distinct n)

length-linked : (n : ℕ) → length (linked n) ≡ n
unfolding linked
length-linked zero = refl
length-linked (suc n) = ap suc (length-linked n)

new_pool-IsPool :
    (bs : List Buffer) (fixed : Bool) (n size : ℕ) (budget : Option Account)
    → All IsIdle bs
    → length bs ≡ n
    → IsPool (new_pool bs fixed n size budget)
unfolding new_pool
new_pool-IsPool bs fixed n size budget h l = record {
  sized = l;
  counted = length-linked n;
  tally = omega (arith, held_zero bs h);
  free = linked-IsFree bs n h (omega arith);
  distinct = linked-Distinct n;
}

fixed_buffers-IsIdle :
    (storage : List ℕ) (size i n : ℕ)
    → All IsIdle (fixed_buffers storage size i n) × (length (fixed_buffers storage size i n) ≡ n)
unfolding fixed_buffers
fixed_buffers-IsIdle storage size i zero = (tt, refl)
fixed_buffers-IsIdle storage size i (suc n) =
    let rest = fixed_buffers-IsIdle storage size (suc i) n in ((refl, rest.0), ap suc rest.1)

-- A pool of fixed storage that the constructor makes is well formed: every descriptor is free, and
-- stands once on the free list.
pub init_budgeted-IsPool :
    (env : Environment) (f f' : Family) (count size : ℕ) (budget : Option Account) (p : Pool)
    → init_budgeted env f count size budget ≡ (ok, some p, f')
    → IsPool p
unfolding init_budgeted
init_budgeted-IsPool env f f' count size budget p e = elim (Option-cases env.malloc_storage) [
  | inl failed ↦ absurd (ground (arith, e, failed))
  | inr (storage, given) ↦ ground (arith, e, given, made storage)
]
  where
    made :
        (storage : List ℕ)
        → IsPool (new_pool (fixed_buffers storage size 0 count) true count size budget)
    made storage =
        let idle = fixed_buffers-IsIdle storage size 0 count in
        new_pool-IsPool (fixed_buffers storage size 0 count) true count size budget idle.0 idle.1
