-- ===== src/Metadata/Entries.antt =====
-- One entry of encoded metadata, wherever it stands.
use c_trpc.Base.{
  ℕ, zero, suc, ◌+◌, ◌-◌, ◌*◌, ◌%◌, ◌^◌, ◌≤◌, ◌<◌, ◌≡◌, refl, ap, ◌∙◌, List, [], ◌∷◌, ◌++◌, length,
  take, drop, get_or, length-append, drop-append, take-append, min, bit_or, none, some, Bool, true,
  false, ◌||◌, ltb, ◌==◌, if◌then◌else◌, if_true, if_false, arith,
}
use mathlib.Core.List.{append_assoc}
use c_trpc.Base.Bits.{bit_or_shifted}
use c_trpc.Status.{ok, err_stale}
use c_trpc.Endian.{byte_at, byte_of}
use c_trpc.V2.{metadata_max_bytes}
use c_trpc.Metadata.{Metadata, key_scan, key_size, max_key_len, entry_bytes, next}

-- A key is a C string: it holds no NUL.
abbrev pub no_nul : List ℕ → Bool
no_nul [] = true
no_nul (c ∷ key) = if c == 0 then false else no_nul key

key_scan_all : (n : ℕ) (key : List ℕ) → no_nul key ≡ true → key_scan n key ≡ min n (length key)
unfolding key_scan
key_scan_all zero key h = ground arith
key_scan_all (suc n) [] h = ground arith
key_scan_all (suc n) (c ∷ key) h = ground (arith, key_scan_all n key)

take_all {ℓ} : {A : Type ℓ} (xs : List A) → take (length xs) xs ≡ xs
take_all [] = refl
take_all (x ∷ xs) = ap (◌∷◌ x) (take_all xs)

-- A key of an accepted length is taken whole.
pub key_whole :
    (key : List ℕ)
    → no_nul key ≡ true
    → key_size key ≤ max_key_len
    → (key_size key ≡ length key) × (take (key_size key) key ≡ key)
key_whole key h l =
    let e : key_size key ≡ length key = omega (arith, key_scan_all (max_key_len + 1) key h) in
    (e, rw e (take_all key))

-- An entry that `encode` accepts.
pub record IsEntry (e : Metadata) : Type 0 where
  pub whole : take (key_size e.key) e.key ≡ e.key
  pub key_some : 0 < length e.key
  pub key_short : length e.key ≤ max_key_len
  pub fits : 3 + length e.key + length e.value ≤ metadata_max_bytes

-- The bytes of a key and a value.
abbrev pub raw : List ℕ → List ℕ → List ℕ
raw key value = length key % 256 ∷ length value % 256 ∷ byte_of (length value) 8 ∷ (key ++ value)

pub entry_bytes-raw : (e : Metadata) → IsEntry e → entry_bytes e ≡ raw e.key e.value
entry_bytes-raw e v = ap (λ k. raw k e.value) v.whole

pub length-raw : (key value : List ℕ) → length (raw key value) ≡ 3 + length key + length value
length-raw key value = omega (arith, length-append key value)

get_or-append : (xs ys : List ℕ) (i : ℕ) → get_or (xs ++ ys) (length xs + i) 0 ≡ get_or ys i 0
get_or-append [] ys i = ap (λ m. get_or ys m 0) (omega arith)
get_or-append (x ∷ xs) ys i =
    ap (λ m. get_or (x ∷ (xs ++ ys)) m 0)
      (let e : suc (length xs) + i ≡ suc (length xs + i) = omega arith in e)
    ∙ get_or-append xs ys i

module _ (before key value after : List ℕ) where
  abbrev pub bytes : List ℕ
  bytes = before ++ (raw key value ++ after)

  pub length-bytes : length bytes ≡ length before + (3 + length key + length value + length after)
  length-bytes = omega (
    arith,
    length-append before (raw key value ++ after),
    length-append (raw key value) after,
    length-raw key value,
  )

  pub key_at : take (length key) (drop (length before + 3) bytes) ≡ key
  key_at =
      ap (λ l. take (length key) l)
        (drop-append before (raw key value ++ after) (length before) 3 refl
          ∙ append_assoc key value after)
      ∙ take-append key (value ++ after) (length key) refl

  value_at : take (length value) (drop (length before + 3 + length key) bytes) ≡ value
  value_at =
      ap (λ l. take (length value) l)
        (ap (λ n. drop n bytes)
            (let e : length before + 3 + length key ≡ length before + (3 + length key) =
                omega arith in
              e)
          ∙ drop-append before (raw key value ++ after) (length before) (3 + length key) refl
          ∙ drop-append (length key % 256 ∷ length value % 256 ∷ byte_of (length value) 8 ∷ [])
              ((key ++ value) ++ after) 3 (length key) refl
          ∙ ap (λ l. drop (length key) l) (append_assoc key value after)
          ∙ ap (λ n. drop n (key ++ (value ++ after)))
              (let e : length key ≡ length key + 0 = omega arith in e)
          ∙ drop-append key (value ++ after) (length key) 0 refl)
      ∙ take-append value after (length value) refl

  value_size :
      length value < 2 ^ 16
      → bit_or (length value % 256) (byte_of (length value) 8 * 2 ^ 8) ≡ length value
  value_size h =
      omega (arith, bit_or_shifted 8 (length value % 256) (byte_of (length value) 8) (omega arith))

  -- The bytes of the entry's head, read at its offset.
  pub head_at :
      (byte_at bytes (length before) ≡ length key % 256)
      × (byte_at bytes (length before + 1) ≡ length value % 256)
      × (byte_at bytes (length before + 2) ≡ byte_of (length value) 8)
  head_at = (
    ap (λ i. byte_at bytes i) (let e : length before ≡ length before + 0 = omega arith in e)
        ∙ get_or-append before (raw key value ++ after) 0,
    get_or-append before (raw key value ++ after) 1,
    get_or-append before (raw key value ++ after) 2,
  )

-- The results of `next` by what it reads.
next_reads :
    (bytes : List ℕ) (offset keys values : ℕ)
    → length bytes ≤ metadata_max_bytes
    → offset + 3 + keys + values ≤ length bytes
    → 0 < keys
    → keys ≤ max_key_len
    → byte_at bytes offset ≡ keys
    → bit_or (byte_at bytes (offset + 1)) (byte_at bytes (offset + 2) * 2 ^ 8) ≡ values
    → next bytes offset ≡ (
      ok,
      some (
        record {
          key = take keys (drop (offset + 3) bytes);
          value = take values (drop (offset + 3 + keys) bytes);
        },
        offset + 3 + keys + values,
      ),
    )
unfolding next
next_reads bytes offset keys values l f p m ek ev = rw ek (
    rw ev (
      if_false (ltb metadata_max_bytes (length bytes) || ltb (length bytes) offset) _ _
        (ground arith)
      ∙ if_false (offset == length bytes) _ _ (ground arith)
      ∙ if_false (ltb (length bytes - offset) 3) _ _ (ground arith)
      ∙ if_false
          (keys == 0
            || (ltb max_key_len keys
                || (ltb (length bytes - (offset + 3)) keys
                    || ltb (length bytes - (offset + 3) - keys) values)))
          _ _ (ground arith)))

pub next_end :
    (bytes : List ℕ)
    → length bytes ≤ metadata_max_bytes
    → next bytes (length bytes) ≡ (err_stale, none)
unfolding next
next_end bytes l =
    if_false (ltb metadata_max_bytes (length bytes) || ltb (length bytes) (length bytes)) _ _
      (ground arith)
    ∙ if_true (length bytes == length bytes) _ _ (ground arith)

-- Reading at an entry gives it back, and the offset behind it.
pub next-entry :
    (before after : List ℕ) (e : Metadata)
    → IsEntry e
    → length (before ++ (raw e.key e.value ++ after)) ≤ metadata_max_bytes
    → next (before ++ (raw e.key e.value ++ after)) (length before)
      ≡ (ok, some (e, length before + 3 + length e.key + length e.value))
next-entry before after e v l =
    let n = length-bytes before e.key e.value after in
    let h = head_at before e.key e.value after in
    next_reads (before ++ (raw e.key e.value ++ after)) (length before) (length e.key)
      (length e.value) l (omega (arith, n)) v.key_some v.key_short (omega (arith, h.0, v.key_short))
      (ap
          (λ b.
            bit_or b (byte_at (before ++ (raw e.key e.value ++ after)) (length before + 2) * 2 ^ 8))
          h.1
        ∙ ap (λ c. bit_or (length e.value % 256) (c * 2 ^ 8)) h.2
        ∙ value_size before e.key e.value after (omega (arith, v.fits)))
    ∙ ap
        (λ k. (
          ok,
          some (
            record {
              key = k;
              value = take (length e.value) (
                  drop (length before + 3 + length e.key) (before ++ (raw e.key e.value ++ after)));
            },
            length before + 3 + length e.key + length e.value,
          ),
        ))
        (key_at before e.key e.value after)
    ∙ ap
        (λ w. (
          ok,
          some (
            record { key = e.key; value = w },
            length before + 3 + length e.key + length e.value,
          ),
        ))
        (value_at before e.key e.value after)

pub key_size_bound :
    (key : List ℕ) → no_nul key ≡ true → length key ≤ max_key_len → key_size key ≤ max_key_len
key_size_bound key h l = omega (arith, key_scan_all (max_key_len + 1) key h)
