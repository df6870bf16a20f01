-- ===== src/Budget.antt =====
-- src/memory_budget.h: byte budgets of the shards, which may share one root budget.
-- Every counter is a 64-bit atomic; here each call is one step, as it is without contention.
pub mod Accounts
use c_trpc.Base.{
  ℕ, zero, suc, ◌+◌, ◌-◌, ◌%◌, ◌^◌, max, List, [], ◌∷◌, ◌++◌, get_or, set, Option, none, some, Bool,
  true, false, not, ◌&&◌, ltb, ◌==◌, if◌then◌else◌,
}
use c_trpc.Status.{Status, ok, again, err_state, err_invalid, is_ok}

abbrev pub u64_max : ℕ
u64_max = 2 ^ 64 - 1

-- `struct tr_memory_budget`, but for the parent. A limit of 0 means that bytes are only counted.
pub record Budget : Type 0 where
  pub limit_bytes : ℕ
  pub current_bytes : ℕ
  pub peak_bytes : ℕ
  pub rejection_events : ℕ

-- `tr_memory_budget_init`.
unfoldable pub init : ℕ → Budget
init limit = record { limit_bytes = limit; current_bytes = 0; peak_bytes = 0; rejection_events = 0 }

-- `tr_memory_budget_reserve_local`.
unfoldable pub reserve_local : Budget → ℕ → Status × Budget
reserve_local b bytes =
    if bytes == 0
    then (ok, b)
    else if ltb (u64_max - b.current_bytes) bytes
    then (err_state, b)
    else let next = b.current_bytes + bytes in
      if not (b.limit_bytes == 0) && ltb b.limit_bytes next
      then (again, record b { rejection_events = (b.rejection_events + 1) % 2 ^ 64 })
      else (ok, record b { current_bytes = next; peak_bytes = max b.peak_bytes next })

-- `tr_memory_budget_release_local`.
unfoldable pub release_local : Budget → ℕ → Status × Budget
release_local b bytes =
    if bytes == 0
    then (ok, b)
    else if ltb b.current_bytes bytes
    then (err_state, b)
    else (ok, record b { current_bytes = b.current_bytes - bytes })

-- A root budget and the budgets whose `parent` it is. A child has no children of its own:
-- `tr_memory_budget_init_child` refuses a parent that has a parent.
pub record Family : Type 0 where
  pub root : Budget
  pub children : List Budget

-- Which budget of the family a call names.
pub data Account : Type 0 where
  root_account : Account
  child_account : ℕ → Account

abbrev pub child_at : Family → ℕ → Budget
child_at f i = get_or f.children i f.root

abbrev pub with_child : Family → ℕ → Budget → Family
with_child f i b = record f { children = set f.children i b }

-- `tr_memory_budget_reserve` on a budget with a parent: the parent first, and back on failure.
unfoldable pub reserve_child : Family → ℕ → ℕ → Status × Family
reserve_child f i bytes =
    let (parent_ret, root) = reserve_local f.root bytes in
    if not (is_ok parent_ret)
    then (parent_ret, record f { root = root })
    else let (ret, child) = reserve_local (child_at f i) bytes in
      if is_ok ret
      then (ret, with_child (record f { root = root }) i child)
      else let (rollback_ret, root') = release_local root bytes in
        let f' = with_child (record f { root = root' }) i child in
        if is_ok rollback_ret then (ret, f') else (rollback_ret, f')

-- `tr_memory_budget_reserve`.
unfoldable pub reserve : Family → Account → ℕ → Status × Family
reserve f root_account bytes =
    let (ret, root) = reserve_local f.root bytes in (ret, record f { root = root })
reserve f (child_account i) bytes = reserve_child f i bytes

-- `tr_memory_budget_release` on a budget with a parent: the child first.
unfoldable pub release_child : Family → ℕ → ℕ → Status × Family
release_child f i bytes =
    let (ret, child) = release_local (child_at f i) bytes in
    if not (is_ok ret)
    then (ret, with_child f i child)
    else let (parent_ret, root) = release_local f.root bytes in
      (parent_ret, record f { root = root; children = set f.children i child })

-- `tr_memory_budget_release`.
unfoldable pub release : Family → Account → ℕ → Status × Family
release f root_account bytes =
    let (ret, root) = release_local f.root bytes in (ret, record f { root = root })
release f (child_account i) bytes = release_child f i bytes

-- `tr_memory_budget_init_child`: a new child of the root; a child is refused as a parent.
unfoldable pub init_child : Family → Account → ℕ → Status × Family
init_child f root_account limit_bytes =
    (ok, record f { children = f.children ++ (init limit_bytes ∷ []) })
init_child f (child_account parent) limit_bytes = (err_invalid, f)

-- `tr_memory_budget_get_stats`.
abbrev pub get_stats : Budget → ℕ × ℕ × ℕ × ℕ
get_stats b = (b.limit_bytes, b.current_bytes, b.peak_bytes, b.rejection_events)
