-- ===== src/Metadata.antt =====
-- src/rpc/rpc_v2.c: the metadata of a call, encoded as one run of keys and values, and the view that
-- reads it. A key is the bytes of a C string before its NUL.
pub mod Entries
pub mod RoundTrip
pub mod Distinct
pub mod Ends
use c_trpc.Base.{
  ℕ, zero, suc, ◌+◌, ◌-◌, ◌*◌, ◌/◌, ◌%◌, ◌^◌, List, [], ◌∷◌, ◌++◌, length, take, drop, bit_or,
  Option, none, some, Bool, true, false, not, ◌&&◌, ◌||◌, ltb, leb, ◌==◌, if◌then◌else◌,
}
use c_trpc.Status.{Status, ok, err_invalid, err_bad_length, err_bad_flags, err_stale}
use c_trpc.Endian.{byte_at, byte_of, get_le16}
use c_trpc.V2.{metadata_max_bytes}

-- `TR_RPC_METADATA_MAX_KEY_LEN`.
abbrev pub max_key_len : ℕ
max_key_len = 63

-- `struct tr_rpc_metadata`; `value_len` is the length of the value.
pub record Metadata : Type 0 where
  pub key : List ℕ
  pub value : List ℕ

-- The loop `while (n <= TR_RPC_METADATA_MAX_KEY_LEN && key[n]) ++n`, for so many characters.
unfoldable pub key_scan : ℕ → List ℕ → ℕ
key_scan zero key = 0
key_scan (suc n) [] = 0
key_scan (suc n) (c ∷ key) = if c == 0 then 0 else suc (key_scan n key)

abbrev pub key_size : List ℕ → ℕ
key_size key = key_scan (max_key_len + 1) key

-- The characters that a key may have.
abbrev pub key_char : ℕ → Bool
key_char ch =
    (leb 97 ch && leb ch 122) || ((leb 48 ch && leb ch 57) || (ch == 95 || (ch == 46 || ch == 45)))

abbrev pub key_chars : List ℕ → Bool
key_chars [] = true
key_chars (ch ∷ key) = if key_char ch then key_chars key else false

-- `memcmp(p, q, n) == 0` of `n` bytes.
abbrev pub same : List ℕ → List ℕ → Bool
same [] [] = true
same [] (y ∷ ys) = false
same (x ∷ xs) [] = false
same (x ∷ xs) (y ∷ ys) = if x == y then same xs ys else false

-- The loop over the entries that are encoded already, with fuel for its rounds.
unfoldable pub duplicate : ℕ → List ℕ → ℕ → List ℕ → Bool
duplicate zero out prior key = false
duplicate (suc fuel) out prior key =
    let n = byte_at out prior in
    let rest = duplicate fuel out (prior + (3 + n + get_le16 (drop (prior + 1) out))) key in
    if leb (length out) prior
    then false
    else if n == length key && same (take n (drop (prior + 3) out)) key
    then true
    else rest

-- What is written for an entry.
abbrev pub entry_bytes : Metadata → List ℕ
entry_bytes entry =
    let size = length entry.value in
    let key = take (key_size entry.key) entry.key in
    length key % 256 ∷ size % 256 ∷ byte_of size 8 ∷ (key ++ entry.value)

-- The loop of `tr_rpc_v2_metadata_encode`, after what is written already.
unfoldable pub encode_entries : List Metadata → List ℕ → Status × Option (List ℕ)
encode_entries [] out = (ok, some out)
encode_entries (entry ∷ entries) out =
    let key = take (key_size entry.key) entry.key in
    let used = length out in
    let rest = encode_entries entries (out ++ entry_bytes entry) in
    if key_size entry.key == 0
      || (ltb max_key_len (key_size entry.key)
          || ltb (metadata_max_bytes - used) (3 + key_size entry.key + length entry.value))
    then (err_bad_length, none)
    else if not (key_chars key)
    then (err_bad_flags, none)
    else if duplicate (used + 1) out 0 key
    then (err_bad_flags, none)
    else rest

-- `tr_rpc_v2_metadata_encode`: the status, and on OK the bytes.
unfoldable pub encode : List Metadata → Status × Option (List ℕ)
encode entries =
    if ltb (metadata_max_bytes / 4) (length entries)
    then (err_invalid, none)
    else encode_entries entries []

-- `tr_rpc_v2_metadata_next`: on OK the entry and the offset behind it.
unfoldable pub next : List ℕ → ℕ → Status × Option (Metadata × ℕ)
next bytes offset =
    let size = length bytes in
    let keys = byte_at bytes offset in
    let values = bit_or (byte_at bytes (offset + 1)) (byte_at bytes (offset + 2) * 2 ^ 8) in
    let pos = offset + 3 in
    if ltb metadata_max_bytes size || ltb size offset
    then (err_invalid, none)
    else if offset == size
    then (err_stale, none)
    else if ltb (size - offset) 3
    then (err_invalid, none)
    else if keys == 0
        || (ltb max_key_len keys || (ltb (size - pos) keys || ltb (size - pos - keys) values))
    then (err_invalid, none)
    else (
      ok,
      some (
        record { key = take keys (drop pos bytes); value = take values (drop (pos + keys) bytes) },
        pos + keys + values,
      ),
    )

-- What a reader does after `next`: the failure, or the entry and the offset behind it.
abbrev pub on_next {ℓ} :
    {A : Type ℓ} → Status × Option (Metadata × ℕ) → (Status → A) → (Metadata → ℕ → A) → A
on_next (status, none) fail entry = fail status
on_next (status, some (e, offset)) fail entry = entry e offset

-- The loop of `tr_rpc_v2_metadata_count`, with fuel for its rounds: the count and the last status.
unfoldable pub count_from : ℕ → List ℕ → ℕ → ℕ × Status
count_from zero bytes offset = (0, ok)
count_from (suc fuel) bytes offset =
    on_next (next bytes offset) (λ status. (0, status))
      (λ e o. let rest = count_from fuel bytes o in (rest.0 + 1, rest.1))

-- `tr_rpc_v2_metadata_count`: every entry takes at least four bytes.
unfoldable pub count : List ℕ → ℕ
count bytes = let (n, status) = count_from (length bytes + 1) bytes 0 in counted status n
  where
    counted : Status → ℕ → ℕ
    counted err_stale n = n
    counted _ n = 0

-- The loop of `tr_rpc_v2_metadata_at`, for so many entries to pass.
unfoldable pub at_from : ℕ → List ℕ → ℕ → Status × Option Metadata
at_from zero bytes offset =
    on_next (next bytes offset) (λ status. (status, none)) (λ e o. (ok, some e))
at_from (suc index) bytes offset =
    on_next (next bytes offset) (λ status. (status, none)) (λ e o. at_from index bytes o)

-- `tr_rpc_v2_metadata_at`.
unfoldable pub at : List ℕ → ℕ → Status × Option Metadata
at bytes index = at_from index bytes 0

-- The loop of `tr_rpc_v2_metadata_find`, with fuel for its rounds.
unfoldable pub find_from : ℕ → List ℕ → ℕ → List ℕ → Status × Option (List ℕ)
find_from zero bytes offset key = (ok, none)
find_from (suc fuel) bytes offset key =
    on_next (next bytes offset) (λ status. (status, none))
      (λ e o.
        if length e.key == length key && same e.key key
        then (ok, some e.value)
        else find_from fuel bytes o key)

-- `tr_rpc_v2_metadata_find`: on OK the value.
unfoldable pub find : List ℕ → List ℕ → Status × Option (List ℕ)
find bytes key =
    if key_size key == 0 || ltb max_key_len (key_size key)
    then (err_invalid, none)
    else find_from (length bytes + 1) bytes 0 (take (key_size key) key)
