-- ===== src/V2.antt =====
-- src/rpc/rpc_v2.c: the limits that the second RPC interface derives from those of the facade.
pub mod Bounds
use c_trpc.Base.{
  ℕ, ◌+◌, ◌-◌, ◌*◌, ◌/◌, ◌%◌, ◌^◌, Option, none, some, Bool, true, false, not, ◌&&◌, ◌||◌, ltb,
  ◌==◌, ◌>>=◌, if◌then◌else◌,
}
use c_trpc.Status.{Status, ok, err_invalid}
use c_trpc.Record.{record_header_size}

-- `struct tr_facade_limits`.
pub record FacadeLimits : Type 0 where
  pub max_streams : ℕ
  pub max_methods : ℕ
  pub max_calls : ℕ
  pub max_frame_payload_bytes : ℕ
  pub max_message_bytes : ℕ
  pub initial_window_bytes : ℕ
  pub window_update_threshold_bytes : ℕ

-- What `tr_rpc_v2_memory_limit` reads of `struct tr_facade_tuning`.
pub record Tuning : Type 0 where
  pub rx_buffer_count : ℕ
  pub rpc_message_pool_count : ℕ
  pub reassembly_pool_count : ℕ

-- `TR_RPC_METADATA_MAX_BYTES`.
abbrev pub metadata_max_bytes : ℕ
metadata_max_bytes = 512

-- The least message limit and window that `tr_rpc_v2_prepare_limits` leaves.
abbrev pub minimum : ℕ
minimum = record_header_size + metadata_max_bytes

-- The largest record that the limits let through at once.
abbrev pub record_limit : FacadeLimits → ℕ
record_limit limits =
    if ltb limits.initial_window_bytes limits.max_message_bytes
    then limits.initial_window_bytes
    else limits.max_message_bytes

-- The part of `tr_rpc_v2_prepare_limits` that widens the limits.
unfoldable pub widened : FacadeLimits → FacadeLimits
widened limits =
    let message = (limits.max_message_bytes + record_header_size) % 2 ^ 32 in
    let window = (limits.initial_window_bytes + record_header_size) % 2 ^ 64 in
    record limits {
      max_message_bytes = if ltb message minimum then minimum else message;
      initial_window_bytes = if ltb window minimum then minimum else window;
    }

-- The part on the threshold of window updates.
unfoldable pub with_threshold : FacadeLimits → FacadeLimits
with_threshold limits =
    let threshold = limits.initial_window_bytes - record_limit limits + 1 in
    record limits {
      window_update_threshold_bytes =
          if limits.window_update_threshold_bytes == 0
            || ltb threshold limits.window_update_threshold_bytes
          then threshold
          else limits.window_update_threshold_bytes;
    }

-- `tr_rpc_v2_prepare_limits`.
unfoldable pub prepare_limits : FacadeLimits → Status × FacadeLimits
prepare_limits limits =
    if limits.max_message_bytes == 0
      || (limits.initial_window_bytes == 0
          || (limits.max_frame_payload_bytes == 0
              || (ltb limits.max_message_bytes limits.max_frame_payload_bytes
                  || (ltb (2 ^ 32 - 1 - record_header_size) limits.max_message_bytes
                      || ltb (2 ^ 64 - 1 - record_header_size) limits.initial_window_bytes))))
    then (err_invalid, limits)
    else (ok, with_threshold (widened limits))

-- `tr_rpc_v2_add_product`: the new total, where it does not overflow.
unfoldable pub add_product : ℕ → ℕ → ℕ → Option ℕ
add_product total count size =
    if not (count == 0) && ltb ((2 ^ 64 - 1 - total) / count) size
    then none
    else some ((total + count * size) % 2 ^ 64)

-- `retained` of `tr_rpc_v2_memory_limit`.
unfoldable pub retained : Tuning → ℕ → ℕ
retained tuning shards =
    let own = 64 * shards % 2 ^ 64 in
    if ltb own tuning.rpc_message_pool_count then tuning.rpc_message_pool_count else own

-- The sum of `tr_rpc_v2_memory_limit`.
unfoldable pub memory_total : FacadeLimits → Tuning → ℕ → Option ℕ
memory_total limits tuning shards = do
  total ← add_product 0 shards (64 * 1024 * 1024)
  total ← add_product total tuning.rx_buffer_count limits.max_frame_payload_bytes
  total ← add_product total tuning.reassembly_pool_count limits.max_message_bytes
  add_product total (retained tuning shards) limits.max_message_bytes

-- `tr_rpc_v2_memory_limit`; `SIZE_MAX` is 2^64 - 1, which a total never passes.
unfoldable pub memory_limit : FacadeLimits → Tuning → ℕ → Status × Option ℕ
memory_limit limits tuning shards =
    if shards == 0 || (limits.max_message_bytes == 0 || limits.max_frame_payload_bytes == 0)
    then (err_invalid, none)
    else answer (memory_total limits tuning shards)
  where
    answer : Option ℕ → Status × Option ℕ
    answer none = (err_invalid, none)
    answer (some total) = (ok, some total)
