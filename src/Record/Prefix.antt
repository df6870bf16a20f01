-- ===== src/Record/Prefix.antt =====
-- A record that has not arrived whole.
use c_trpc.Base.{
  ℕ, zero, suc, ◌-◌, ◌≤◌, ◌<◌, ◌≡◌, refl, ap, ◌∙◌, List, ◌++◌, length, drop, take, length-append,
  length-take, take-append_long, inl, inr, ◌⊎◌, arith, none, some,
}
use c_trpc.Status.{ok, again}
use c_trpc.Endian.{get_le16}
use c_trpc.Endian.RoundTrip.{get_le16-bytes}
use c_trpc.Record.{
  RecordHeader, Limits, validate, header_bytes, decode_header, decode_body, decode, record_total,
}
use c_trpc.Record.RoundTrip.{
  IsRecordHeader, validate_parts, length-header_bytes, decode_header-header_bytes,
}

short_header :
    (h : RecordHeader) (limits : Limits) (rest : List ℕ) (n : ℕ)
    → IsRecordHeader h
    → validate h limits ≡ ok
    → n < 48
    → decode_header (take n (header_bytes h ++ rest)) limits ≡ (again, none)
unfolding decode_header header_bytes get_le16
short_header h limits rest zero v e s = ground (arith, validate_parts h limits e)
short_header h limits rest (suc zero) v e s = ground (arith, validate_parts h limits e)
short_header h limits rest (suc (suc zero)) v e s = ground (arith, validate_parts h limits e)
short_header h limits rest (suc (suc (suc zero))) v e s = ground (arith, validate_parts h limits e)
short_header h limits rest (suc (suc (suc (suc zero)))) v e s =
    ground (arith, validate_parts h limits e)
short_header h limits rest (suc (suc (suc (suc (suc zero))))) v e s =
    ground (arith, validate_parts h limits e)
short_header h limits rest (suc (suc (suc (suc (suc (suc zero)))))) v e s =
    ground (arith, validate_parts h limits e)
short_header h limits rest (suc (suc (suc (suc (suc (suc (suc zero))))))) v e s =
    ground (arith, validate_parts h limits e)
short_header h limits rest (suc (suc (suc (suc (suc (suc (suc (suc n)))))))) v e s = ground (
  arith,
  validate_parts h limits e,
  get_le16-bytes h.kind (take n (drop 8 (header_bytes h) ++ rest)) v.kind_fits,
  length-take n (drop 8 (header_bytes h) ++ rest),
)

long_header :
    (h : RecordHeader) (limits : Limits) (rest : List ℕ) (n : ℕ)
    → IsRecordHeader h
    → validate h limits ≡ ok
    → 48 ≤ n
    → decode_header (take n (header_bytes h ++ rest)) limits ≡ (ok, some (h, record_total h))
long_header h limits rest n v e s =
    ap (λ l. decode_header l limits)
      (take-append_long (header_bytes h) rest n (omega (arith, length-header_bytes h)))
    ∙ decode_header-header_bytes h limits (take (n - length (header_bytes h)) rest) v e

-- A strict prefix of a record that validates, with metadata and body of the sizes that its header
-- names, is answered with AGAIN: it is neither accepted nor refused, and nothing is published.
pub decode-prefix :
    (h : RecordHeader) (limits : Limits) (metadata body : List ℕ) (n : ℕ)
    → IsRecordHeader h
    → validate h limits ≡ ok
    → length metadata ≡ h.metadata_size
    → length body ≡ h.encoded_size
    → n < length (header_bytes h ++ (metadata ++ body))
    → decode (take n (header_bytes h ++ (metadata ++ body))) limits ≡ (again, none)
unfolding decode decode_body
decode-prefix h limits metadata body n v e nm nb s = elim (split n) [
  | inl short ↦ rw (short_header h limits (metadata ++ body) n v e short) refl
  | inr long ↦ rw (long_header h limits (metadata ++ body) n v e long) (
      ground (
        arith,
        length-take n (header_bytes h ++ (metadata ++ body)),
        length-append (header_bytes h) (metadata ++ body),
        length-append metadata body,
        length-header_bytes h,
      ))
]
  where
    split : (k : ℕ) → (k < 48) ⊎ (48 ≤ k)
    split k = ground arith
