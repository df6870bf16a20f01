-- ===== src/Record/Call.antt =====
-- src/rpc/rpc_record.c, `tr_rpc_record_state_init`, `_apply` and `_abort`: which records a call
-- may exchange.
pub mod Invariant
pub mod Run
pub mod End
use c_trpc.Base.{
  ℕ, zero, suc, ◌+◌, ◌-◌, ◌*◌, ◌/◌, ◌%◌, ◌^◌, ◌≤◌, ◌<◌, Option, none, some, Bool, true, false, not,
  ◌&&◌, ◌||◌, leb, ◌==◌, if◌then◌else◌,
}
use c_trpc.Status.{Status, ok, err_invalid, err_state, is_ok, ℤ, pos, negsuc}
use c_trpc.Record.{
  RecordHeader, Limits, validate, kind_open, kind_initial_metadata, kind_message, kind_half_close,
  kind_final_status, metadata_max_bytes, status_count,
}

-- `struct tr_rpc_record_state`. The cardinality of a side is its C number: NONE 0, ONE 1, MANY 2.
pub record CallState : Type 0 where
  pub request_cardinality : ℕ
  pub response_cardinality : ℕ
  pub request_messages : ℕ
  pub response_messages : ℕ
  pub final_status : ℕ
  pub initialized : Bool
  pub opened : Bool
  pub request_closed : Bool
  pub response_headers : Bool
  pub terminal : Bool

abbrev pub one : ℕ
one = 1

abbrev pub many : ℕ
many = 2

-- `enum tr_rpc_record_direction`.
pub data Direction : Type 0 where
  request_direction response_direction : Direction

-- `tr_rpc_record_cardinality_valid`.
abbrev pub cardinality_valid : ℕ → Bool
cardinality_valid value = value == one || value == many

-- `tr_rpc_record_state_init`: on OK the new state.
unfoldable pub init : ℕ → ℕ → Status × Option CallState
init request response =
    if not (cardinality_valid request) || not (cardinality_valid response)
    then (err_invalid, none)
    else (
      ok,
      some (record {
        request_cardinality = request;
        response_cardinality = response;
        request_messages = 0;
        response_messages = 0;
        final_status = 0;
        initialized = true;
        opened = false;
        request_closed = false;
        response_headers = false;
        terminal = false;
      }),
    )

-- `const struct tr_rpc_record_limits shape` of `tr_rpc_record_state_apply`.
abbrev pub shape : Limits
shape = record {
  max_encoded_size = 2 ^ 32 - 1;
  max_decoded_size = 2 ^ 32 - 1;
  max_metadata_size = metadata_max_bytes;
  accepted_compression = 3;
}

-- The branch of a call that is not open.
unfoldable pub apply_unopened : CallState → Direction → RecordHeader → Status × CallState
apply_unopened state request_direction h =
    if h.kind == kind_open then (ok, record state { opened = true }) else (err_state, state)
apply_unopened state response_direction h =
    if h.kind == kind_final_status && not (h.status == 0)
    then (ok, record state { terminal = true; final_status = h.status })
    else (err_state, state)

-- The branch of a request record of an open call.
unfoldable pub apply_request : CallState → RecordHeader → Status × CallState
apply_request state h =
    if state.request_closed
    then (err_state, state)
    else if h.kind == kind_message
    then (if state.request_messages == 2 ^ 64 - 1
          || (state.request_cardinality == one && not (state.request_messages == 0))
        then (err_state, state)
        else (ok, record state { request_messages = state.request_messages + 1 }))
    else if h.kind == kind_half_close
    then (if state.request_cardinality == one && not (state.request_messages == 1)
        then (err_state, state)
        else (ok, record state { request_closed = true }))
    else (err_state, state)

-- The branch of a response record of an open call.
unfoldable pub apply_response : CallState → RecordHeader → Status × CallState
apply_response state h =
    if h.kind == kind_initial_metadata
    then (if state.response_headers
        then (err_state, state)
        else (ok, record state { response_headers = true }))
    else if h.kind == kind_message
    then (if not state.response_headers
          || (state.response_messages == 2 ^ 64 - 1
              || (state.response_cardinality == one && not (state.response_messages == 0)))
        then (err_state, state)
        else (ok, record state { response_messages = state.response_messages + 1 }))
    else if h.kind == kind_final_status
    then (if h.status == 0
          && ((state.request_cardinality == one && not (state.request_messages == 1))
              || (state.response_cardinality == one && not (state.response_messages == 1)))
        then (err_state, state)
        else (ok, record state { terminal = true; final_status = h.status }))
    else (err_state, state)

-- `tr_rpc_record_state_apply`.
unfoldable pub apply : CallState → Direction → RecordHeader → Status × CallState
unfolding apply_unopened apply_request apply_response
apply state direction h =
    if not state.initialized
    then (err_invalid, state)
    else if state.terminal
    then (err_state, state)
    else let ret = validate h shape in
      if not (is_ok ret)
      then (ret, state)
      else if not state.opened
      then apply_unopened state direction h
      else elim direction [
        | request_direction ↦ apply_request state h
        | response_direction ↦ apply_response state h
      ]

-- `tr_rpc_record_state_abort`; a negative status is refused.
unfoldable pub abort : CallState → ℤ → Status × CallState
abort state (negsuc n) = (err_invalid, state)
abort state (pos n) =
    if not state.initialized || (n == 0 || leb status_count n)
    then (err_invalid, state)
    else if state.terminal
    then (err_state, state)
    else (ok, record state { terminal = true; final_status = n })
