-- ===== src/Tests/Accounts.antt =====
-- Budgets and buffer pools on concrete inputs.
use c_trpc.Base.{
  ℕ, ◌+◌, ◌≤◌, ◌<◌, ◌≡◌, ◌⊎◌, refl, true, false, List, [], ◌∷◌, length, replicate, arith, Option,
  none, some,
}
use c_trpc.Status.{ok, again, is_ok}
use c_trpc.Budget.{Family, reserve_child, reserve_local, release_local, release_child, child_at}
use c_trpc.Budget.Accounts.{
  IsFamily, total, reserve_child-IsFamily, reserve_child_all_or_nothing, release_child_exact,
}
use c_trpc.Pool.{Pool, Memory, acquire, check_out, take_first, buffer_at, release_buffer}
use c_trpc.Pool.{budget_reserve}
use c_trpc.Pool.Create.{Environment, new_pool, fixed_buffers, init_budgeted}
use c_trpc.Pool.Invariant.{IsPool, held, acquire-IsPool, release_buffer-IsPool}
use c_trpc.Pool.Ownership.{acquire_exclusive, acquire_exhausted}

-- A root that may take 100 bytes, and two children: 30 of at most 40, and 20 without a limit.
abbrev family : Family
family = record {
  root = record { limit_bytes = 100; current_bytes = 60; peak_bytes = 70; rejection_events = 0 };
  children =
      record { limit_bytes = 40; current_bytes = 30; peak_bytes = 30; rejection_events = 1 }
      ∷ record { limit_bytes = 0; current_bytes = 20; peak_bytes = 25; rejection_events = 0 }
      ∷ [];
}

known : 0 < length family.children
known = omega arith

family-IsFamily : IsFamily 10 family
family-IsFamily = ground arith

reserve_child_example : (reserve_child family 0 20).0 ≡ again
unfolding reserve_child reserve_local release_local
reserve_child_example = refl

reserve_child-IsFamily_example : IsFamily 10 (reserve_child family 0 20).1
reserve_child-IsFamily_example = reserve_child-IsFamily family 0 20 known family-IsFamily

reserve_child_all_or_nothing_example :
    let (ret, f') = reserve_child family 0 10 in
    (is_ok ret ≡ true)
      × (f'.root.current_bytes ≡ 60 + 10)
      × (total f'.children ≡ total family.children + 10)
      × ((child_at f' 0).current_bytes ≡ 30 + 10)
    ⊎ (is_ok ret ≡ false)
      × (f'.root.current_bytes ≡ 60)
      × (total f'.children ≡ total family.children)
      × ((child_at f' 0).current_bytes ≡ 30)
reserve_child_all_or_nothing_example =
    reserve_child_all_or_nothing family 0 10 known family-IsFamily

release_child_exact_example :
    let (ret, f') = release_child family 0 10 in
    (10 ≤ 30)
      × (is_ok ret ≡ true)
      × (f'.root.current_bytes + 10 ≡ 60)
      × (total f'.children + 10 ≡ total family.children)
    ⊎ (30 < 10)
      × (is_ok ret ≡ false)
      × (f'.root.current_bytes ≡ 60)
      × (total f'.children ≡ total family.children)
release_child_exact_example = release_child_exact family 0 10 known family-IsFamily

-- A pool of two buffers, of which a holder has the first.
abbrev pool : Pool
pool = record {
  buffers =
      record { bytes = replicate 4 0; capacity = 4; len = 2; checked_out = true }
      ∷ record { bytes = replicate 4 0; capacity = 4; len = 0; checked_out = false }
      ∷ [];
  fixed = true;
  free_list = 1 ∷ [];
  buffer_count = 2;
  buffer_size = 4;
  free_count = 1;
  peak_in_use = 1;
  exhausted_events = 0;
  closed = false;
  memory_budget = none;
}

abbrev memory : Memory
memory = record { pool = pool; family = family }

abbrev no_storage : ℕ → Option (List ℕ)
no_storage n = none

pool-IsPool : IsPool pool
pool-IsPool = ground arith

acquire-IsPool_example : IsPool (acquire no_storage memory 3).2.pool
acquire-IsPool_example = acquire-IsPool no_storage memory 3 pool-IsPool

release_buffer-IsPool_example : IsPool (release_buffer pool 0)
release_buffer-IsPool_example = release_buffer-IsPool pool 0 pool-IsPool

abbrev taken : Memory
taken = (acquire no_storage memory 3).2

got : acquire no_storage memory 3 ≡ (ok, some 1, taken)
unfolding acquire take_first check_out
got = refl

acquire_exclusive_example :
    (ok ≡ ok)
    × ((buffer_at pool 1).checked_out ≡ false)
    × ((buffer_at taken.pool 1).checked_out ≡ true)
    × (buffer_at taken.pool 0 ≡ buffer_at pool 0)
acquire_exclusive_example =
    acquire_exclusive no_storage memory taken 3 1 0 ok pool-IsPool (omega arith) got

exhausted : (acquire no_storage taken 3).0 ≡ again
unfolding acquire take_first check_out
exhausted = refl

taken-IsPool : IsPool taken.pool
taken-IsPool = acquire-IsPool no_storage memory 3 pool-IsPool

taken_fixed : taken.fixed ≡ true
unfolding acquire take_first check_out
taken_fixed = refl

acquire_exhausted_example : held taken.buffers ≡ taken.buffer_count
acquire_exhausted_example = acquire_exhausted no_storage taken 3 taken_fixed taken-IsPool exhausted

abbrev environment : Environment
environment = record {
  descriptor_size = 48;
  calloc_ok = true;
  malloc_storage = some (replicate 8 0);
  mutex_ok = true;
}

abbrev new : Pool
new = new_pool (fixed_buffers (replicate 8 0) 4 0 2) true 2 4 none

created : init_budgeted environment family 2 4 none ≡ (ok, some new, family)
unfolding init_budgeted budget_reserve
created = refl
