-- ===== src/Metadata/RoundTrip.antt =====
-- The view of encoded metadata shows the entries that were encoded.
use c_trpc.Base.{
  ℕ, zero, suc, ◌+◌, ◌-◌, ◌≤◌, ◌<◌, ◌≡◌, refl, ap, sym, ◌∙◌, List, [], ◌∷◌, ◌++◌, length, get_elem?,
  All, length-append, Option, none, some, Bool, true, false, ◌&&◌, ◌||◌, ltb, ◌==◌, if◌then◌else◌,
  if_true, if_false, Bool-cases, inl, inr, arith,
}
use mathlib.Core.List.{append_assoc, append-nil}
use c_trpc.Status.{Status, ok, err_stale}
use c_trpc.V2.{metadata_max_bytes}
use c_trpc.Metadata.{
  Metadata, key_size, max_key_len, entry_bytes, encode_entries, encode, same, next, count_from,
  count, at_from, at, find_from, find,
}
use c_trpc.Metadata.Entries.{
  no_nul, key_whole, IsEntry, raw, key_size_bound, entry_bytes-raw, length-raw, next_end,
  next-entry,
}

-- The bytes of entries one after the other.
abbrev pub run : List Metadata → List ℕ
run [] = []
run (e ∷ es) = raw e.key e.value ++ run es

-- Every key is a C string.
abbrev pub texts : List Metadata → Bool
texts [] = true
texts (e ∷ es) = if no_nul e.key then texts es else false

pub encode_step :
    (e : Metadata) (es : List Metadata) (out r : List ℕ)
    → encode_entries (e ∷ es) out ≡ (ok, some r)
    → (0 < key_size e.key)
      × (key_size e.key ≤ max_key_len)
      × (3 + key_size e.key + length e.value ≤ metadata_max_bytes - length out)
      × (encode_entries es (out ++ entry_bytes e) ≡ (ok, some r))
unfolding encode_entries
encode_step e es out r h = ground arith

encode_end : (out r : List ℕ) → encode_entries [] out ≡ (ok, some r) → r ≡ out
unfolding encode_entries
encode_end out r h = ground arith

pub encode_entries-run :
    (es : List Metadata) (out r : List ℕ)
    → texts es ≡ true
    → length out ≤ metadata_max_bytes
    → encode_entries es out ≡ (ok, some r)
    → (r ≡ out ++ run es) × All IsEntry es × (length r ≤ metadata_max_bytes)
encode_entries-run [] out r t l h =
    let e = encode_end out r h in (e ∙ sym (append-nil out), tt, rw e l)
encode_entries-run (e ∷ es) out r t l h =
    let s = encode_step e es out r h in
    let w = key_whole e.key (ground arith) s.1 in
    let v : IsEntry e = record {
      whole = w.1;
      key_some = omega (arith, s.0, w.0);
      key_short = omega (arith, s.1, w.0);
      fits = omega (arith, s.2, w.0);
    } in
    let b = entry_bytes-raw e v in
    let rest =
      encode_entries-run es (out ++ raw e.key e.value) r (ground arith)
        (omega (arith, length-append out (raw e.key e.value), length-raw e.key e.value, s.2, w.0))
        (ap (λ x. encode_entries es (out ++ x)) (sym b) ∙ s.3) in
    (rest.0 ∙ append_assoc out (raw e.key e.value) (run es), (v, rest.1), rest.2)

-- What a reader at an index finds among entries.
abbrev pub listing : Option Metadata → Status × Option Metadata
listing none = (err_stale, none)
listing (some e) = (ok, some e)

-- The value of the first entry with a key.
abbrev pub lookup : List ℕ → List Metadata → Option (List ℕ)
lookup key [] = none
lookup key (e ∷ es) = if same e.key key then some e.value else lookup key es

abbrev pub found : Option (List ℕ) → Status × Option (List ℕ)
found none = (err_stale, none)
found (some value) = (ok, some value)

pub same-length : (xs ys : List ℕ) → same xs ys ≡ true → length xs ≡ length ys
same-length [] [] h = refl
same-length [] (y ∷ ys) h = absurd (ground arith)
same-length (x ∷ xs) [] h = absurd (ground arith)
same-length (x ∷ xs) (y ∷ ys) h = ap suc (same-length xs ys (ground arith))

-- Encoded entries with others before them.
module _ (before : List ℕ) where
  abbrev pub all : List Metadata → List ℕ
  all es = before ++ run es

  next-none :
      length (all []) ≤ metadata_max_bytes → next (all []) (length before) ≡ (err_stale, none)
  next-none l =
      ap (λ n. next (all []) n) (ap length (sym (append-nil before))) ∙ next_end (all []) l

  next-first :
      (e : Metadata) (es : List Metadata)
      → IsEntry e
      → length (all (e ∷ es)) ≤ metadata_max_bytes
      → next (all (e ∷ es)) (length before) ≡ (ok, some (e, length (before ++ raw e.key e.value)))
  next-first e es v l =
      next-entry before (run es) e v l
      ∙ ap (λ n. (ok, some (e, n)))
          (omega (arith, length-append before (raw e.key e.value), length-raw e.key e.value))

  pub rest_all :
      (e : Metadata) (es : List Metadata) → (before ++ raw e.key e.value) ++ run es ≡ all (e ∷ es)
  rest_all e es = append_assoc before (raw e.key e.value) (run es)

at_from-run :
    (i : ℕ) (es : List Metadata) (before : List ℕ)
    → All IsEntry es
    → length (before ++ run es) ≤ metadata_max_bytes
    → at_from i (before ++ run es) (length before) ≡ listing (get_elem? es i)
unfolding at_from
at_from-run zero [] before v l = rw (next-none before l) refl
at_from-run (suc i) [] before v l = rw (next-none before l) refl
at_from-run zero (e ∷ es) before (v, vs) l = rw (next-first before e es v l) refl
at_from-run (suc i) (e ∷ es) before (v, vs) l = rw (next-first before e es v l) (
    ap (λ b. at_from i b (length (before ++ raw e.key e.value))) (sym (rest_all before e es))
    ∙ at_from-run i es (before ++ raw e.key e.value) vs (rw (rest_all before e es) l))

count_from-run :
    (fuel : ℕ) (es : List Metadata) (before : List ℕ)
    → All IsEntry es
    → length (before ++ run es) ≤ metadata_max_bytes
    → length es < fuel
    → count_from fuel (before ++ run es) (length before) ≡ (length es, err_stale)
unfolding count_from
count_from-run zero es before v l f = absurd (omega arith)
count_from-run (suc fuel) [] before v l f = rw (next-none before l) refl
count_from-run (suc fuel) (e ∷ es) before (v, vs) l f = rw (next-first before e es v l) (
    ap (λ (r : ℕ × Status). (r.0 + 1, r.1))
      (ap (λ b. count_from fuel b (length (before ++ raw e.key e.value)))
          (sym (rest_all before e es))
        ∙ count_from-run fuel es (before ++ raw e.key e.value) vs (rw (rest_all before e es) l)
            (omega arith))
    ∙ ap (λ n. (n, err_stale)) (omega arith))

find_from-run :
    (fuel : ℕ) (es : List Metadata) (before key : List ℕ)
    → All IsEntry es
    → length (before ++ run es) ≤ metadata_max_bytes
    → length es < fuel
    → find_from fuel (before ++ run es) (length before) key ≡ found (lookup key es)
unfolding find_from
find_from-run zero es before key v l f = absurd (omega arith)
find_from-run (suc fuel) [] before key v l f = rw (next-none before l) refl
find_from-run (suc fuel) (e ∷ es) before key (v, vs) l f =
    rw (next-first before e es v l) (elim (Bool-cases (same e.key key)) [
      | inl here ↦
          if_true (length e.key == length key && same e.key key) _ _
            (ground (arith, same-length e.key key here))
          ∙ ap found (sym (if_true (same e.key key) (some e.value) (lookup key es) here))
      | inr other ↦
          if_false (length e.key == length key && same e.key key) _ _ (ground arith)
          ∙ ap (λ b. find_from fuel b (length (before ++ raw e.key e.value)) key)
              (sym (rest_all before e es))
          ∙ find_from-run fuel es (before ++ raw e.key e.value) key vs (rw (rest_all before e es) l)
              (omega arith)
          ∙ ap found (sym (if_false (same e.key key) (some e.value) (lookup key es) other))
    ])

pub run_longer : (es : List Metadata) → length es ≤ length (run es)
run_longer [] = omega arith
run_longer (e ∷ es) =
    omega
      (arith, run_longer es, length-append (raw e.key e.value) (run es), length-raw e.key e.value)

-- What the view of some bytes shows of entries.
pub record IsViewOf (es : List Metadata) (bytes : List ℕ) : Type 0 where
  pub fits : length bytes ≤ metadata_max_bytes
  pub counts : count bytes ≡ length es
  -- Each entry at its index, and STALE behind the last.
  pub lists : (i : ℕ) → at bytes i ≡ listing (get_elem? es i)
  -- The first value of a key, and STALE for a key that no entry has.
  pub finds :
      (key : List ℕ)
      → no_nul key ≡ true
      → 0 < length key
      → length key ≤ max_key_len
      → find bytes key ≡ found (lookup key es)

run-IsViewOf :
    (es : List Metadata)
    → All IsEntry es
    → length (run es) ≤ metadata_max_bytes
    → IsViewOf es (run es)
unfolding count at find
run-IsViewOf es v l = record {
  fits = l;
  counts = rw (count_from-run (length (run es) + 1) es [] v l (omega (arith, run_longer es))) refl;
  lists = λ i. at_from-run i es [] v l;
  finds = λ key n p m.
      let w = key_whole key n (omega (arith, key_size_bound key n m)) in
      if_false (key_size key == 0 || ltb max_key_len (key_size key)) _ _ (ground (arith, w.0))
      ∙ ap (λ k. find_from (length (run es) + 1) (run es) 0 k) w.1
      ∙ find_from-run (length (run es) + 1) es [] key v l (omega (arith, run_longer es));
}

pub encode_accepts :
    (es : List Metadata) (r : List ℕ)
    → encode es ≡ (ok, some r)
    → encode_entries es [] ≡ (ok, some r)
unfolding encode
encode_accepts es r h = ground arith

-- When entries whose keys are C strings are encoded, the view of the bytes counts them, lists
-- each entry with its key and its value, and finds the first value of every key of an allowed
-- length; an index or such a key that is not there is STALE.
pub encode-IsViewOf :
    (es : List Metadata) (bytes : List ℕ)
    → texts es ≡ true
    → encode es ≡ (ok, some bytes)
    → IsViewOf es bytes
encode-IsViewOf es bytes t h =
    let w = encode_entries-run es [] bytes t (omega arith) (encode_accepts es bytes h) in
    rw w.0 (run-IsViewOf es w.1 (rw w.0 at w.2))
