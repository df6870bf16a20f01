-- ===== src/V2/Bounds.antt =====
-- What the derived limits promise.
use c_trpc.Base.{
  ℕ, zero, suc, ◌+◌, ◌-◌, ◌*◌, ◌^◌, ◌≤◌, ◌<◌, ◌≡◌, ◌≢◌, ◌⊎◌, inl, inr, refl, ap, ◌∙◌, max, Option,
  none, some, Bool, true, false, not, ltb, ◌==◌, ◌||◌, if_false, ◌>>=◌, arith,
}
use native.Mathlib.Nat.{le-div_iff_mul-le}
use c_trpc.Status.{ok, err_invalid}
use c_trpc.Record.{record_header_size}
use c_trpc.V2.{
  FacadeLimits, Tuning, prepare_limits, widened, with_threshold, record_limit, minimum, add_product,
  retained, memory_total, memory_limit,
}

-- The fields of the limits fit the widths that the structure declares.
pub record IsLimits (l : FacadeLimits) : Type 0 where
  pub max_message_fits : l.max_message_bytes < 2 ^ 32
  pub window_fits : l.initial_window_bytes < 2 ^ 64
  pub threshold_fits : l.window_update_threshold_bytes < 2 ^ 64

-- What the prepared limits promise.
pub record IsPrepared (l p : FacadeLimits) : Type 0 where
  pub fits : IsLimits p
  -- Every message that was allowed is still allowed with its record header, and so is all metadata.
  pub message_room : l.max_message_bytes + record_header_size ≤ p.max_message_bytes
  pub window_room : l.initial_window_bytes + record_header_size ≤ p.initial_window_bytes
  pub metadata_room : minimum ≤ record_limit p
  pub updates : 0 < p.window_update_threshold_bytes
  -- As long as the consumed bytes that are not announced yet stay below the threshold, the credit
  -- that is left admits the largest record.
  pub admits :
      (unannounced : ℕ)
      → unannounced < p.window_update_threshold_bytes
      → record_limit p ≤ p.initial_window_bytes - unannounced

widened-IsLimits :
    (l : FacadeLimits)
    → l.max_message_bytes + record_header_size < 2 ^ 32
    → l.initial_window_bytes + record_header_size < 2 ^ 64
    → IsLimits l
    → IsLimits (widened l)
      × (l.max_message_bytes + record_header_size ≤ (widened l).max_message_bytes)
      × (l.initial_window_bytes + record_header_size ≤ (widened l).initial_window_bytes)
      × (minimum ≤ record_limit (widened l))
unfolding widened
widened-IsLimits l m w v = ground arith

prepared :
    (l p : FacadeLimits)
    → IsLimits p
    → l.max_message_bytes + record_header_size ≤ p.max_message_bytes
    → l.initial_window_bytes + record_header_size ≤ p.initial_window_bytes
    → minimum ≤ record_limit p
    → IsPrepared l (with_threshold p)
unfolding with_threshold
prepared l p v m w r = ground (arith, v)

admitted_IsPrepared :
    (l : FacadeLimits)
    → IsLimits l
    → (l.max_message_bytes + record_header_size < 2 ^ 32)
      × (l.initial_window_bytes + record_header_size < 2 ^ 64)
    → IsPrepared l (with_threshold (widened l))
admitted_IsPrepared l v b =
    let w = widened-IsLimits l b.0 b.1 v in prepared l (widened l) w.0 w.1 w.2 w.3

-- The tests of `prepare_limits`.
abbrev admitted : FacadeLimits → Bool
admitted l = not (
    l.max_message_bytes == 0
    || (l.initial_window_bytes == 0
        || (l.max_frame_payload_bytes == 0
            || (ltb l.max_message_bytes l.max_frame_payload_bytes
                || (ltb (2 ^ 32 - 1 - record_header_size) l.max_message_bytes
                    || ltb (2 ^ 64 - 1 - record_header_size) l.initial_window_bytes)))))

prepare_limits_cases :
    (l : FacadeLimits)
    → ((admitted l ≡ true) × (prepare_limits l ≡ (ok, with_threshold (widened l))))
      ⊎ ((admitted l ≡ false) × (prepare_limits l ≡ (err_invalid, l)))
unfolding prepare_limits
prepare_limits_cases l = ground arith

-- Limits whose fields fit their widths are answered OK when they are not zero, the message limit
-- holds a frame, and message limit and window leave room for a record header; limits that are not
-- answered OK are refused as invalid, unchanged. Prepared limits admit every message with its
-- header and all metadata, and consumed bytes that are not announced, below the update threshold,
-- never keep the largest record out.
pub prepare_limits-IsPrepared :
    (l : FacadeLimits)
    → IsLimits l
    → ((prepare_limits l).0 ≡ ok → IsPrepared l (prepare_limits l).1)
      × ((prepare_limits l).0 ≢ ok → prepare_limits l ≡ (err_invalid, l))
      × (l.max_message_bytes ≢ 0
          → l.initial_window_bytes ≢ 0
          → l.max_frame_payload_bytes ≢ 0
          → l.max_frame_payload_bytes ≤ l.max_message_bytes
          → l.max_message_bytes + record_header_size < 2 ^ 32
          → l.initial_window_bytes + record_header_size < 2 ^ 64
          → (prepare_limits l).0 ≡ ok)
prepare_limits-IsPrepared l v = elim (prepare_limits_cases l) [
  | inl (passed, e) ↦
      rw e
        ((λ o. admitted_IsPrepared l v (ground arith)), (λ n. absurd (n refl)), λ m w f g a b. refl)
  | inr (failed, e) ↦
      rw e ((λ o. absurd (ground arith)), (λ n. refl), λ m w f g a b. absurd (ground arith))
]

-- A product is added exactly when the sum does not overflow.
add_product_exact :
    (total count size : ℕ)
    → total < 2 ^ 64
    → (total + count * size < 2 ^ 64 → add_product total count size ≡ some (total + count * size))
      × (2 ^ 64 ≤ total + count * size → add_product total count size ≡ none)
unfolding add_product
add_product_exact total zero size h = ground arith
add_product_exact total (suc c) size h =
    let d = le-div_iff_mul-le {k = suc c} {x = size} {y = 2 ^ 64 - 1 - total} (omega arith) in
    ground (arith, d.0, d.1)

-- The number that `memory_limit` means: for every shard 64 MiB, the fixed pools, and the message bodies
-- that may be retained.
abbrev pub exact_total : FacadeLimits → Tuning → ℕ → ℕ
exact_total limits tuning shards =
    shards * (64 * 1024 * 1024)
    + tuning.rx_buffer_count * limits.max_frame_payload_bytes
    + tuning.reassembly_pool_count * limits.max_message_bytes
    + max (64 * shards) tuning.rpc_message_pool_count * limits.max_message_bytes

retained_exact :
    (tuning : Tuning) (shards : ℕ)
    → shards < 2 ^ 32
    → retained tuning shards ≡ max (64 * shards) tuning.rpc_message_pool_count
unfolding retained
retained_exact tuning shards h = ground arith

-- A sum with another product on top, when the sum so far is exact or has overflowed.
step_exact :
    (r : Option ℕ) (total count size : ℕ)
    → (total < 2 ^ 64 → r ≡ some total) × (2 ^ 64 ≤ total → r ≡ none)
    → let s = r >>= (λ t. add_product t count size) in
      (total + count * size < 2 ^ 64 → s ≡ some (total + count * size))
      × (2 ^ 64 ≤ total + count * size → s ≡ none)
step_exact none total count size h = ((λ l. absurd (ground (arith, h))), λ l. refl)
step_exact (some t) total count size h = ground (arith, h, add_product_exact total count size)

-- The order in which a chain of results is put together is no matter.
bind_left :
    (a : Option ℕ) (f g h : ℕ → Option ℕ)
    → (a >>= (λ t. f t >>= (λ u. g u >>= h))) ≡ (((a >>= f) >>= g) >>= h)
bind_left none f g h = refl
bind_left (some t) f g h = inner (f t)
  where
    inner : (b : Option ℕ) → (b >>= (λ u. g u >>= h)) ≡ ((b >>= g) >>= h)
    inner none = refl
    inner (some u) = refl

first_exact :
    (shards : ℕ)
    → (shards * (64 * 1024 * 1024) < 2 ^ 64
        → add_product 0 shards (64 * 1024 * 1024) ≡ some (shards * (64 * 1024 * 1024)))
      × (2 ^ 64 ≤ shards * (64 * 1024 * 1024) → add_product 0 shards (64 * 1024 * 1024) ≡ none)
first_exact shards =
    let e = add_product_exact 0 shards (64 * 1024 * 1024) (omega arith) in
    ((λ l. e.0 (omega arith) ∙ ap some (omega arith)), (λ l. e.1 (omega arith)))

memory_total_exact :
    (limits : FacadeLimits) (tuning : Tuning) (shards : ℕ)
    → shards < 2 ^ 32
    → (exact_total limits tuning shards < 2 ^ 64
        → memory_total limits tuning shards ≡ some (exact_total limits tuning shards))
      × (2 ^ 64 ≤ exact_total limits tuning shards → memory_total limits tuning shards ≡ none)
unfolding memory_total
memory_total_exact limits tuning shards h =
    let message = limits.max_message_bytes in
    let s1 = first_exact shards in
    let s2 =
      step_exact (add_product 0 shards (64 * 1024 * 1024)) (shards * (64 * 1024 * 1024))
        tuning.rx_buffer_count limits.max_frame_payload_bytes s1 in
    let s3 = step_exact _ _ tuning.reassembly_pool_count message s2 in
    let s4 = step_exact _ _ (max (64 * shards) tuning.rpc_message_pool_count) message s3 in
    rw (retained_exact tuning shards h) (
      rw
        (bind_left (add_product 0 shards (64 * 1024 * 1024))
          (λ t. add_product t tuning.rx_buffer_count limits.max_frame_payload_bytes)
          (λ t. add_product t tuning.reassembly_pool_count message)
          (λ t. add_product t (max (64 * shards) tuning.rpc_message_pool_count) message))
        s4)

-- The memory limit of a configuration with a 32-bit number of shards that is not 0, and limits
-- that are not 0, is exactly its sum, without overflow, if that fits 64 bits; if it does not, the
-- configuration is refused.
pub memory_limit_exact :
    (limits : FacadeLimits) (tuning : Tuning) (shards : ℕ)
    → shards < 2 ^ 32
    → shards ≢ 0
    → limits.max_message_bytes ≢ 0
    → limits.max_frame_payload_bytes ≢ 0
    → (exact_total limits tuning shards < 2 ^ 64
        → memory_limit limits tuning shards ≡ (ok, some (exact_total limits tuning shards)))
      × (2 ^ 64 ≤ exact_total limits tuning shards
          → memory_limit limits tuning shards ≡ (err_invalid, none))
unfolding memory_limit
memory_limit_exact limits tuning shards h n m f =
    let t = memory_total_exact limits tuning shards h in
    (
      (λ l.
          if_false
            (shards == 0 || (limits.max_message_bytes == 0 || limits.max_frame_payload_bytes == 0))
            _ _ (ground arith)
          ∙ rw (t.0 l) refl),
      (λ l.
          if_false
            (shards == 0 || (limits.max_message_bytes == 0 || limits.max_frame_payload_bytes == 0))
            _ _ (ground arith)
          ∙ rw (t.1 l) refl),
    )
