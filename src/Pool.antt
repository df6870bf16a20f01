-- ===== src/Pool.antt =====
-- src/execution/buffer.c: a bounded pool of receive buffers, with fixed storage or storage that
-- grows on demand, charged to a memory budget. The mutex makes each call one step.
-- A descriptor is its index in `buffers`; the chain of `next` pointers is the list `free_list`.
pub mod Invariant
pub mod Ownership
pub mod Create
pub mod Fresh
use c_trpc.Base.{
  ℕ, zero, suc, ◌+◌, ◌-◌, ◌*◌, ◌%◌, ◌^◌, max, List, [], ◌∷◌, get_or, set, Option, none, some, Bool,
  true, false, not, ◌&&◌, ltb, ◌==◌, if◌then◌else◌,
}
use c_trpc.Status.{Status, ok, again, err_invalid, err_nomem, err_closed, err_bad_length, is_ok}
use c_trpc.Budget.{Family, Account, reserve, release}

-- `struct tr_buffer` of a pool; `bytes` is what `data` points to.
pub record Buffer : Type 0 where
  pub bytes : List ℕ
  pub capacity : ℕ
  pub len : ℕ
  pub checked_out : Bool

-- `struct tr_buffer_pool`; `fixed` says that `storage` is not NULL.
pub record Pool : Type 0 where
  pub buffers : List Buffer
  pub fixed : Bool
  pub free_list : List ℕ
  pub buffer_count : ℕ
  pub buffer_size : ℕ
  pub free_count : ℕ
  pub peak_in_use : ℕ
  pub exhausted_events : ℕ
  pub closed : Bool
  pub memory_budget : Option Account

-- A pool and the budgets that it may charge.
pub record Memory : Type 0 where
  pub pool : Pool
  pub open pool use *
  pub family : Family

abbrev pub no_buffer : Buffer
no_buffer = record { bytes = []; capacity = 0; len = 0; checked_out = false }

abbrev pub buffer_at : Pool → ℕ → Buffer
buffer_at p slot = get_or p.buffers slot no_buffer

-- `tr_buffer_budget_reserve`.
unfoldable pub budget_reserve : Family → Option Account → ℕ → Status × Family
budget_reserve f none bytes = (ok, f)
budget_reserve f (some a) bytes = reserve f a bytes

-- `tr_buffer_budget_release`.
unfoldable pub budget_release : Family → Option Account → ℕ → Family
budget_release f none bytes = f
budget_release f (some a) bytes = if bytes == 0 then f else (release f a bytes).1

-- `tr_buffer_release` of a buffer that belongs to a pool.
unfoldable pub release_buffer : Pool → ℕ → Pool
release_buffer p slot = if not (buffer_at p slot).checked_out then p else record p {
  buffers = set p.buffers slot (record (buffer_at p slot) { checked_out = false; len = 0 });
  free_list = slot ∷ p.free_list;
  free_count = p.free_count + 1;
}

-- The part of `tr_buffer_acquire` under the lock that takes the first free descriptor.
unfoldable pub check_out : Pool → ℕ → List ℕ → Pool
check_out p slot rest = record p {
  buffers = set p.buffers slot (record (buffer_at p slot) { checked_out = true; len = 0 });
  free_list = rest;
  free_count = p.free_count - 1;
  peak_in_use = max p.peak_in_use (p.buffer_count - (p.free_count - 1));
}

-- `buf->data = data; buf->capacity = min_capacity`.
unfoldable pub set_storage : Pool → ℕ → List ℕ → ℕ → Pool
set_storage p slot storage capacity = record p {
  buffers = set p.buffers slot (record (buffer_at p slot) { bytes = storage; capacity = capacity });
}

-- The part of `tr_buffer_acquire` after the unlock: growing the storage of a dynamic buffer.
-- `realloc` is the allocator: the new storage of the given size, or none.
unfoldable pub grow : (ℕ → Option (List ℕ)) → Memory → ℕ → ℕ → Status × Option ℕ × Memory
grow realloc m slot min_capacity =
    let growth = min_capacity - (buffer_at m.pool slot).capacity in
    let (ret, family) = budget_reserve m.family m.memory_budget growth in
    if not (is_ok ret)
    then (ret, none, record { pool = release_buffer m.pool slot; family = family })
    else elim (realloc min_capacity) [
      | none ↦ (
        err_nomem,
        none,
        record {
          pool = release_buffer m.pool slot;
          family = budget_release family m.memory_budget growth;
        },
      )
      | some storage ↦ (
        ok,
        some slot,
        record { pool = set_storage m.pool slot storage min_capacity; family = family },
      )
    ]

-- `tr_buffer_acquire` once a descriptor is at the head of the free list, or none is.
unfoldable pub take_first : (ℕ → Option (List ℕ)) → Memory → ℕ → List ℕ → Status × Option ℕ × Memory
take_first realloc m min_capacity [] = (
  again,
  none,
  record m { pool = record (m.pool) { exhausted_events = (m.exhausted_events + 1) % 2 ^ 64 } },
)
take_first realloc m min_capacity (slot ∷ rest) =
    let m' = record m { pool = check_out m.pool slot rest } in
    if not m.fixed && ltb (buffer_at m.pool slot).capacity min_capacity
    then grow realloc m' slot min_capacity
    else (ok, some slot, m')

-- `tr_buffer_acquire`; the option is what goes through `out`.
unfoldable pub acquire : (ℕ → Option (List ℕ)) → Memory → ℕ → Status × Option ℕ × Memory
acquire realloc m min_capacity =
    if min_capacity == 0
    then (err_invalid, none, m)
    else if m.closed
    then (err_closed, none, m)
    else if ltb m.buffer_size min_capacity
    then (err_bad_length, none, m)
    else take_first realloc m min_capacity m.free_list

-- `tr_buffer_pool_get_stats`: capacity, current, peak, exhausted.
unfoldable pub get_stats : Pool → ℕ × ℕ × ℕ × ℕ
get_stats p = (p.buffer_count, p.buffer_count - p.free_count, p.peak_in_use, p.exhausted_events)
