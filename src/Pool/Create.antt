-- ===== src/Pool/Create.antt =====
-- Creation and destruction of a pool.
use c_trpc.Base.{
  ℕ, zero, suc, ◌*◌, ◌/◌, List, [], ◌∷◌, get_or, Option, none, some, Bool, true, false, not, ◌||◌,
  ltb, ◌==◌, if◌then◌else◌, replicate,
}
use c_trpc.Status.{Status, ok, err_invalid, err_nomem, err_bad_length, err_state, is_ok}
use c_trpc.Budget.{Family, Account, u64_max}
use c_trpc.Pool.{Buffer, Pool, Memory, budget_reserve, budget_release}

-- What the allocator and the thread library answer.
pub record Environment : Type 0 where
  pub descriptor_size : ℕ
  pub calloc_ok : Bool
  pub malloc_storage : Option (List ℕ)
  pub mutex_ok : Bool

-- The descriptors `0 … n - 1` linked by the loop of the constructors: the last is the first free.
unfoldable pub linked : ℕ → List ℕ
linked zero = []
linked (suc n) = n ∷ linked n

-- The pool after `memset` and the field assignments.
unfoldable pub new_pool : List Buffer → Bool → ℕ → ℕ → Option Account → Pool
unfolding linked
new_pool buffers fixed count size budget = record {
  buffers = buffers;
  fixed = fixed;
  free_list = linked count;
  buffer_count = count;
  buffer_size = size;
  free_count = count;
  peak_in_use = 0;
  exhausted_events = 0;
  closed = false;
  memory_budget = budget;
}

-- The `size` bytes of the storage from `off` on.
abbrev pub slice : List ℕ → ℕ → ℕ → List ℕ
slice storage off zero = []
slice storage off (suc n) = get_or storage off 0 ∷ slice storage (suc off) n

-- Buffer `i` of a fixed pool is its part of the storage.
unfoldable pub fixed_buffers : List ℕ → ℕ → ℕ → ℕ → List Buffer
fixed_buffers storage size i zero = []
fixed_buffers storage size i (suc n) =
    record { bytes = slice storage (i * size) size; capacity = size; len = 0; checked_out = false }
    ∷ fixed_buffers storage size (suc i) n

-- `tr_buffer_pool_init_budgeted`.
unfoldable pub init_budgeted :
    Environment → Family → ℕ → ℕ → Option Account → Status × Option Pool × Family
init_budgeted env f count size budget =
    if count == 0 || size == 0
    then (err_invalid, none, f)
    else if ltb (u64_max / size) count
    then (err_bad_length, none, f)
    else let descriptor_bytes = count * env.descriptor_size in
      let storage_bytes = count * size in
      let (ret, f1) = budget_reserve f budget descriptor_bytes in
      if not (is_ok ret)
      then (ret, none, f1)
      else let (ret', f2) = budget_reserve f1 budget storage_bytes in
        if not (is_ok ret')
        then (ret', none, budget_release f2 budget descriptor_bytes)
        else let fail =
            budget_release (budget_release f2 budget storage_bytes) budget descriptor_bytes in
          if not env.calloc_ok then (err_nomem, none, fail) else elim env.malloc_storage [
            | none ↦ (err_nomem, none, fail)
            | some storage ↦ if not env.mutex_ok then (err_invalid, none, fail) else (
              ok,
              some (new_pool (fixed_buffers storage size 0 count) true count size budget),
              f2,
            )
          ]

-- `tr_buffer_pool_init_dynamic_budgeted`.
unfoldable pub init_dynamic_budgeted :
    Environment → Family → ℕ → ℕ → Option Account → Status × Option Pool × Family
init_dynamic_budgeted env f count max_size budget =
    if count == 0 || max_size == 0
    then (err_invalid, none, f)
    else let descriptor_bytes = count * env.descriptor_size in
      let (ret, f1) = budget_reserve f budget descriptor_bytes in
      if not (is_ok ret)
      then (ret, none, f1)
      else if not env.calloc_ok
      then (err_nomem, none, budget_release f1 budget descriptor_bytes)
      else if not env.mutex_ok
      then (err_invalid, none, budget_release f1 budget descriptor_bytes)
      else (ok, some (new_pool (replicate count empty) false count max_size budget), f1)
  where
    empty : Buffer
    empty = record { bytes = []; capacity = 0; len = 0; checked_out = false }

unfoldable pub any_checked_out : List Buffer → Bool
any_checked_out [] = false
any_checked_out (b ∷ bs) = b.checked_out || any_checked_out bs

-- The loop that gives back the storage of a dynamic pool.
unfoldable pub release_storage : Family → Option Account → List Buffer → Family
release_storage f budget [] = f
release_storage f budget (b ∷ bs) = release_storage (budget_release f budget b.capacity) budget bs

-- `tr_buffer_pool_destroy`; a destroyed pool is as `memset` leaves it, but closed.
unfoldable pub destroy : Environment → Memory → Status × Memory
unfolding any_checked_out release_storage
destroy env m =
    if m.buffer_count == 0
    then (ok, m)
    else let p = record (m.pool) { closed = true } in
      if not (m.free_count == m.buffer_count)
      then (err_state, record m { pool = p })
      else if any_checked_out m.buffers
      then (err_state, record m { pool = p })
      else let f1 =
          if m.fixed then m.family else release_storage m.family m.memory_budget m.buffers in
        let f2 =
          budget_release f1 m.memory_budget
            (if m.fixed then m.buffer_count * m.buffer_size else 0) in
        (
          ok,
          record {
            pool = record p {
              buffers = [];
              fixed = false;
              free_list = [];
              buffer_count = 0;
              buffer_size = 0;
              free_count = 0;
              peak_in_use = 0;
              exhausted_events = 0;
              memory_budget = none;
            };
            family = budget_release f2 m.memory_budget (m.buffer_count * env.descriptor_size);
          },
        )
