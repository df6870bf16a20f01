-- ===== src/Status.antt =====
-- include/tr/status.h and src/status.c: the outcome of an operation.
use c_trpc.Base.{ℕ, ◌-◌, Bool, true, false, ◌==◌, if◌then◌else◌}
use Prim.Native.String.{String}

-- A C `int`, as far as status codes use it: `negsuc n` is -(n + 1).
pub data ℤ : Type 0 where
  pos : ℕ → ℤ
  negsuc : ℕ → ℤ

infix 50 ◌==ℤ◌
abbrev pub ◌==ℤ◌ : ℤ → ℤ → Bool
pos a ==ℤ pos b = a == b
negsuc a ==ℤ negsuc b = a == b
pos a ==ℤ negsuc b = false
negsuc a ==ℤ pos b = false

-- `-(int)n`.
abbrev pub neg_of_ℕ : ℕ → ℤ
neg_of_ℕ n = if n == 0 then pos 0 else negsuc (n - 1)

-- `enum tr_status`.
pub data Status : Type 0 where
  ok again frame_ready in_progress : Status
  err_invalid err_nomem err_bad_magic err_bad_version err_bad_type err_bad_flags : Status
  err_bad_length err_header_crc err_payload_crc err_reserved err_state err_sys : Status
  err_closed err_stale err_unsupported err_timeout : Status

-- The number that the enumeration gives a constant.
unfoldable pub code : Status → ℤ
code ok = pos 0
code again = pos 1
code frame_ready = pos 2
code in_progress = pos 3
code err_invalid = neg_of_ℕ 1
code err_nomem = neg_of_ℕ 2
code err_bad_magic = neg_of_ℕ 3
code err_bad_version = neg_of_ℕ 4
code err_bad_type = neg_of_ℕ 5
code err_bad_flags = neg_of_ℕ 6
code err_bad_length = neg_of_ℕ 7
code err_header_crc = neg_of_ℕ 8
code err_payload_crc = neg_of_ℕ 9
code err_reserved = neg_of_ℕ 10
code err_state = neg_of_ℕ 11
code err_sys = neg_of_ℕ 12
code err_closed = neg_of_ℕ 13
code err_stale = neg_of_ℕ 14
code err_unsupported = neg_of_ℕ 15
code err_timeout = neg_of_ℕ 16

abbrev pub is_ok : Status → Bool
is_ok ok = true
is_ok _ = false

-- `tr_status_str`.
unfoldable pub status_str : ℤ → String
unfolding code
status_str s =
    if s ==ℤ code ok
    then "ok"
    else if s ==ℤ code again
    then "again"
    else if s ==ℤ code frame_ready
    then "frame-ready"
    else if s ==ℤ code in_progress
    then "in-progress"
    else if s ==ℤ code err_invalid
    then "invalid"
    else if s ==ℤ code err_nomem
    then "no-memory"
    else if s ==ℤ code err_bad_magic
    then "bad-magic"
    else if s ==ℤ code err_bad_version
    then "bad-version"
    else if s ==ℤ code err_bad_type
    then "bad-type"
    else if s ==ℤ code err_bad_flags
    then "bad-flags"
    else if s ==ℤ code err_bad_length
    then "bad-length"
    else if s ==ℤ code err_header_crc
    then "header-crc"
    else if s ==ℤ code err_payload_crc
    then "payload-crc"
    else if s ==ℤ code err_reserved
    then "reserved"
    else if s ==ℤ code err_state
    then "bad-state"
    else if s ==ℤ code err_sys
    then "system-error"
    else if s ==ℤ code err_closed
    then "closed"
    else if s ==ℤ code err_stale
    then "stale"
    else if s ==ℤ code err_unsupported
    then "unsupported"
    else if s ==ℤ code err_timeout
    then "timeout"
    else "unknown"
