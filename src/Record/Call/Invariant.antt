-- ===== src/Record/Call/Invariant.antt =====
-- What every run of records on a call keeps.
use c_trpc.Base.{ℕ, ◌^◌, ◌≤◌, ◌<◌, ◌≡◌, ◌≢◌, some, true, false, arith}
use c_trpc.Status.{ok, ℤ, pos, negsuc}
use c_trpc.Record.{RecordHeader, validate, validate_control, kind_final_status, status_count}
use c_trpc.Record.Call.{
  CallState, Direction, request_direction, response_direction, init, apply_unopened, apply_request,
  apply_response, apply, abort, one, cardinality_valid, shape,
}

-- A call that `init` made and that only `apply` and `abort` have changed since.
pub record IsCall (s : CallState) : Type 0 where
  pub initialized : s.initialized ≡ true
  pub cardinalities :
      (cardinality_valid s.request_cardinality ≡ true)
      × (cardinality_valid s.response_cardinality ≡ true)
  -- A side of cardinality ONE has at most one message.
  pub one_request : s.request_cardinality ≡ one → s.request_messages ≤ 1
  pub one_response : s.response_cardinality ≡ one → s.response_messages ≤ 1
  -- The counters do not wrap.
  pub counts_fit : (s.request_messages < 2 ^ 64) × (s.response_messages < 2 ^ 64)
  -- Nothing happens on a call before it is opened.
  pub unopened_empty :
      s.opened ≡ false
      → (s.request_messages ≡ 0)
        × (s.response_messages ≡ 0)
        × (s.request_closed ≡ false)
        × (s.response_headers ≡ false)
  -- A response message follows the response's headers.
  pub headers_first : s.response_headers ≡ false → s.response_messages ≡ 0
  -- A side of cardinality ONE that is closed has sent its message.
  pub closed_request :
      s.request_closed ≡ true → s.request_cardinality ≡ one → s.request_messages ≡ 1
  -- A call that ends well was opened, and each side of cardinality ONE sent its message.
  pub ends_well :
      s.terminal ≡ true
      → s.final_status ≡ 0
      → (s.opened ≡ true)
        × (s.request_cardinality ≡ one → s.request_messages ≡ 1)
        × (s.response_cardinality ≡ one → s.response_messages ≡ 1)
  -- The final status is one of the codes.
  pub status_known : s.final_status < status_count

-- A final status that validates is one of the codes.
final_status_known :
    (h : RecordHeader)
    → validate h shape ≡ ok
    → h.kind ≡ kind_final_status
    → h.status < status_count
unfolding validate validate_control
final_status_known h e k = ground arith

apply_unopened-IsCall :
    (s : CallState) (d : Direction) (h : RecordHeader)
    → IsCall s
    → s.opened ≡ false
    → s.terminal ≡ false
    → validate h shape ≡ ok
    → IsCall (apply_unopened s d h).1
unfolding apply_unopened
apply_unopened-IsCall s request_direction h v o t e = ground arith
apply_unopened-IsCall s response_direction h v o t e = ground (arith, final_status_known h)

apply_request-IsCall :
    (s : CallState) (h : RecordHeader)
    → IsCall s
    → s.opened ≡ true
    → s.terminal ≡ false
    → IsCall (apply_request s h).1
unfolding apply_request
apply_request-IsCall s h v o t = ground arith

apply_response-IsCall :
    (s : CallState) (h : RecordHeader)
    → IsCall s
    → s.opened ≡ true
    → s.terminal ≡ false
    → validate h shape ≡ ok
    → IsCall (apply_response s h).1
unfolding apply_response
apply_response-IsCall s h v o t e = ground (arith, final_status_known h)

-- A new call with valid cardinalities is one.
pub init-IsCall : (req resp : ℕ) (s : CallState) → init req resp ≡ (ok, some s) → IsCall s
unfolding init
init-IsCall req resp s e = ground arith

-- No record takes a call that `init` made out of its invariant, in whichever direction and with whatever answer.
pub apply-IsCall :
    (s : CallState) (d : Direction) (h : RecordHeader) → IsCall s → IsCall (apply s d h).1
unfolding apply
apply-IsCall s request_direction h v =
    ground (arith, apply_unopened-IsCall s request_direction h v, apply_request-IsCall s h v)
apply-IsCall s response_direction h v =
    ground (arith, apply_unopened-IsCall s response_direction h v, apply_response-IsCall s h v)

pub abort-IsCall : (s : CallState) (status : ℤ) → IsCall s → IsCall (abort s status).1
unfolding abort
abort-IsCall s (pos n) v = ground arith
abort-IsCall s (negsuc n) v = v

apply_unopened_refused :
    (s : CallState) (d : Direction) (h : RecordHeader)
    → (apply_unopened s d h).0 ≢ ok
    → (apply_unopened s d h).1 ≡ s
unfolding apply_unopened
apply_unopened_refused s request_direction h ne = ground arith
apply_unopened_refused s response_direction h ne = ground arith

apply_request_refused :
    (s : CallState) (h : RecordHeader) → (apply_request s h).0 ≢ ok → (apply_request s h).1 ≡ s
unfolding apply_request
apply_request_refused s h ne = ground arith

apply_response_refused :
    (s : CallState) (h : RecordHeader) → (apply_response s h).0 ≢ ok → (apply_response s h).1 ≡ s
unfolding apply_response
apply_response_refused s h ne = ground arith

-- A record that is not answered OK leaves the state as it was.
pub apply_refused :
    (s : CallState) (d : Direction) (h : RecordHeader) → (apply s d h).0 ≢ ok → (apply s d h).1 ≡ s
unfolding apply
apply_refused s request_direction h ne =
    ground (arith, apply_unopened_refused s request_direction h, apply_request_refused s h)
apply_refused s response_direction h ne =
    ground (arith, apply_unopened_refused s response_direction h, apply_response_refused s h)
