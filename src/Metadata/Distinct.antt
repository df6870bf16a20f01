-- ===== src/Metadata/Distinct.antt =====
-- No key is encoded twice.
use c_trpc.Base.{
  ℕ, zero, suc, ◌+◌, ◌≤◌, ◌<◌, ◌≡◌, refl, ap, sym, ◌∙◌, List, [], ◌∷◌, ◌++◌, length, take, drop,
  All, length-append, drop-append, some, Bool, true, false, leb, if◌then◌else◌, if_true, if_false,
  arith,
}
use mathlib.Core.List.{append_assoc, append-nil}
use c_trpc.Status.{ok}
use c_trpc.Endian.{byte_at, get_le16}
use c_trpc.Endian.RoundTrip.{get_le16-bytes}
use c_trpc.V2.{metadata_max_bytes}
use c_trpc.Metadata.{Metadata, key_size, entry_bytes, duplicate, encode_entries, encode, same, find}
use c_trpc.Metadata.Entries.{
  no_nul, key_whole, IsEntry, raw, entry_bytes-raw, length-raw, length-bytes, head_at, key_at,
}
use c_trpc.Metadata.RoundTrip.{
  run, texts, lookup, found, same-length, encode_step, encode_accepts, encode_entries-run, rest_all,
  run_longer, encode-IsViewOf,
}

-- Whether an entry has a key.
abbrev pub has_key : List ℕ → List Metadata → Bool
has_key key [] = false
has_key key (e ∷ es) = if same e.key key then true else has_key key es

module _ (before after : List ℕ) (e : Metadata) (v : IsEntry e) where
  abbrev bytes : List ℕ
  bytes = before ++ (raw e.key e.value ++ after)

  value_length : get_le16 (drop (length before + 1) bytes) ≡ length e.value
  value_length =
      ap get_le16 (drop-append before (raw e.key e.value ++ after) (length before) 1 refl)
      ∙ get_le16-bytes (length e.value) ((e.key ++ e.value) ++ after) (omega (arith, v.fits))

  key_length : byte_at bytes (length before) ≡ length e.key
  key_length = omega (arith, (head_at before e.key e.value after).0, v.key_short)

  -- A round of the search at an entry.
  duplicate_round :
      (fuel : ℕ) (key : List ℕ)
      → duplicate (suc fuel) bytes (length before) key ≡ (
          if same e.key key
          then true
          else duplicate fuel bytes (length before + (3 + length e.key + length e.value)) key)
  unfolding duplicate
  duplicate_round fuel key = rw key_length (
      rw value_length (
        rw (key_at before e.key e.value after) (
          if_false (leb (length bytes) (length before)) _ _
            (ground (arith, length-bytes before e.key e.value after))
          ∙ ground (arith, same-length e.key key))))

duplicate_end : (fuel : ℕ) (out key : List ℕ) → duplicate (suc fuel) out (length out) key ≡ false
unfolding duplicate
duplicate_end fuel out key = if_true (leb (length out) (length out)) _ _ (ground arith)

duplicate-run :
    (fuel : ℕ) (es : List Metadata) (before key : List ℕ)
    → All IsEntry es
    → length es < fuel
    → duplicate fuel (before ++ run es) (length before) key ≡ has_key key es
duplicate-run zero es before key v f = absurd (omega arith)
duplicate-run (suc fuel) [] before key v f =
    ap (λ n. duplicate (suc fuel) (before ++ []) n key) (ap length (sym (append-nil before)))
    ∙ duplicate_end fuel (before ++ []) key
duplicate-run (suc fuel) (e ∷ es) before key (v, vs) f =
    duplicate_round before (run es) e v fuel key
    ∙ ap (λ b. if same e.key key then true else b)
        (ap (λ n. duplicate fuel (before ++ run (e ∷ es)) n key)
            (omega (arith, length-append before (raw e.key e.value), length-raw e.key e.value))
          ∙ ap (λ b. duplicate fuel b (length (before ++ raw e.key e.value)) key)
              (sym (rest_all before e es))
          ∙ duplicate-run fuel es (before ++ raw e.key e.value) key vs (omega arith))

encode_no_duplicate :
    (e : Metadata) (es : List Metadata) (out r : List ℕ)
    → encode_entries (e ∷ es) out ≡ (ok, some r)
    → duplicate (length out + 1) out 0 (take (key_size e.key) e.key) ≡ false
unfolding encode_entries
encode_no_duplicate e es out r h = ground arith

-- No entry has a key of those before it.
abbrev Fresh : List Metadata → List Metadata → Type 0
Fresh front [] = Unit
Fresh front (e ∷ es) = (has_key e.key front ≡ false) × Fresh (front ++ (e ∷ [])) es

run-append : (es fs : List Metadata) → run (es ++ fs) ≡ run es ++ run fs
run-append [] fs = refl
run-append (e ∷ es) fs =
    ap (λ l. raw e.key e.value ++ l) (run-append es fs)
    ∙ sym (append_assoc (raw e.key e.value) (run es) (run fs))

All-append :
    (es : List Metadata) (e : Metadata) → All IsEntry es → IsEntry e → All IsEntry (es ++ (e ∷ []))
All-append [] e v w = (w, tt)
All-append (x ∷ es) e (v, vs) w = (v, All-append es e vs w)

encode_entries-Fresh :
    (es front : List Metadata) (r : List ℕ)
    → texts es ≡ true
    → All IsEntry front
    → length (run front) ≤ metadata_max_bytes
    → encode_entries es (run front) ≡ (ok, some r)
    → Fresh front es
encode_entries-Fresh [] front r t v l h = tt
encode_entries-Fresh (e ∷ es) front r t v l h =
    let s = encode_step e es (run front) r h in
    let w = key_whole e.key (ground arith) s.1 in
    let entry : IsEntry e = record {
      whole = w.1;
      key_some = omega (arith, s.0, w.0);
      key_short = omega (arith, s.1, w.0);
      fits = omega (arith, s.2, w.0);
    } in
    let next_run : run front ++ entry_bytes e ≡ run (front ++ (e ∷ [])) =
      ap (λ x. run front ++ x) (entry_bytes-raw e entry ∙ sym (append-nil (raw e.key e.value)))
      ∙ sym (run-append front (e ∷ [])) in
    (
      sym (
            duplicate-run (length (run front) + 1) front [] e.key v
              (omega (arith, run_longer front)))
          ∙ ap (λ k. duplicate (length (run front) + 1) (run front) 0 k) (sym w.1)
          ∙ encode_no_duplicate e es (run front) r h,
      encode_entries-Fresh es (front ++ (e ∷ [])) r (ground arith) (All-append front e v entry)
          (rw (sym next_run) (
            omega (
              arith,
              length-append (run front) (entry_bytes e),
              ap length (entry_bytes-raw e entry),
              length-raw e.key e.value,
              s.2,
              w.0,
            )))
          (ap (λ x. encode_entries es x) (sym next_run) ∙ s.3),
    )

Fresh-here :
    (front0 front back : List Metadata) (e : Metadata)
    → Fresh front0 (front ++ (e ∷ back))
    → has_key e.key (front0 ++ front) ≡ false
Fresh-here front0 [] back e (f, fs) = ap (has_key e.key) (append-nil front0) ∙ f
Fresh-here front0 (x ∷ front) back e (f, fs) =
    ap (has_key e.key) (sym (append_assoc front0 (x ∷ []) front))
    ∙ Fresh-here (front0 ++ (x ∷ [])) front back e fs

same_self : (xs : List ℕ) → same xs xs ≡ true
same_self [] = refl
same_self (x ∷ xs) = ground (arith, same_self xs)

lookup_own :
    (front back : List Metadata) (e : Metadata)
    → has_key e.key front ≡ false
    → lookup e.key (front ++ (e ∷ back)) ≡ some e.value
lookup_own [] back e f = if_true (same e.key e.key) _ _ (same_self e.key)
lookup_own (x ∷ front) back e f =
    if_false (same x.key e.key) _ _ (ground arith) ∙ lookup_own front back e (ground arith)

All-here :
    (front back : List Metadata) (e : Metadata) → All IsEntry (front ++ (e ∷ back)) → IsEntry e
All-here [] back e (v, vs) = v
All-here (x ∷ front) back e (v, vs) = All-here front back e vs

text_here :
    (front back : List Metadata) (e : Metadata)
    → texts (front ++ (e ∷ back)) ≡ true
    → no_nul e.key ≡ true
text_here [] back e t = ground arith
text_here (x ∷ front) back e t = text_here front back e (ground arith)

-- When entries whose keys are C strings are encoded, no key occurs twice, and so each entry's value is
-- found by its key.
pub encode-finds_own :
    (front back : List Metadata) (e : Metadata) (bytes : List ℕ)
    → texts (front ++ (e ∷ back)) ≡ true
    → encode (front ++ (e ∷ back)) ≡ (ok, some bytes)
    → (has_key e.key front ≡ false) × (find bytes e.key ≡ (ok, some e.value))
encode-finds_own front back e bytes t h =
    let es = front ++ (e ∷ back) in
    let accepted = encode_accepts es bytes h in
    let w = encode_entries-run es [] bytes t (omega arith) accepted in
    let entry = All-here front back e w.1 in
    let once =
      Fresh-here [] front back e (encode_entries-Fresh es [] bytes t tt (omega arith) accepted) in
    (
      once,
      (encode-IsViewOf es bytes t h).finds e.key (text_here front back e t) entry.key_some
            entry.key_short
          ∙ ap found (lookup_own front back e once),
    )
