-- ===== src/Record/Call/Run.antt =====
-- Whole calls: the records that were accepted, counted.
use c_trpc.Base.{
  ℕ, ◌+◌, ◌≤◌, ◌≡◌, Option, none, some, true, ◌==◌, if◌then◌else◌, List, [], ◌∷◌, arith,
}
use c_trpc.Status.{ok, is_ok}
use c_trpc.Record.{RecordHeader, kind_message}
use c_trpc.Record.Call.{
  CallState, Direction, request_direction, response_direction, init, apply_unopened, apply_request,
  apply_response, apply, one,
}
use c_trpc.Record.Call.Invariant.{IsCall, apply-IsCall, init-IsCall}

-- An owner that stops at the first record that is not accepted.
unfoldable pub run : CallState → List (Direction × RecordHeader) → Option CallState
run s [] = some s
run s ((d, h) ∷ events) =
    let a = apply s d h in let rest = run a.1 events in if is_ok a.0 then rest else none

-- The messages that the two sides have sent.
abbrev pub requests : List (Direction × RecordHeader) → ℕ
requests [] = 0
requests ((request_direction, h) ∷ events) =
    (if h.kind == kind_message then 1 else 0) + requests events
requests ((response_direction, h) ∷ events) = requests events

abbrev pub responses : List (Direction × RecordHeader) → ℕ
responses [] = 0
responses ((response_direction, h) ∷ events) =
    (if h.kind == kind_message then 1 else 0) + responses events
responses ((request_direction, h) ∷ events) = responses events

-- The counters count the messages of accepted records.
apply_counts :
    (s : CallState) (d : Direction) (h : RecordHeader)
    → is_ok (apply s d h).0 ≡ true
    → ((apply s d h).1.request_messages ≡ s.request_messages + requests ((d, h) ∷ []))
      × ((apply s d h).1.response_messages ≡ s.response_messages + responses ((d, h) ∷ []))
      × ((apply s d h).1.request_cardinality ≡ s.request_cardinality)
      × ((apply s d h).1.response_cardinality ≡ s.response_cardinality)
unfolding apply apply_unopened apply_request apply_response
apply_counts s request_direction h e = ground arith
apply_counts s response_direction h e = ground arith

run_counts :
    (s s' : CallState) (events : List (Direction × RecordHeader))
    → IsCall s
    → run s events ≡ some s'
    → IsCall s'
      × (s'.request_messages ≡ s.request_messages + requests events)
      × (s'.response_messages ≡ s.response_messages + responses events)
      × (s'.request_cardinality ≡ s.request_cardinality)
      × (s'.response_cardinality ≡ s.response_cardinality)
unfolding run
run_counts s s' [] v e = ground arith
run_counts s s' ((request_direction, h) ∷ events) v e = ground (
  arith,
  apply_counts s request_direction h,
  apply-IsCall s request_direction h v,
  run_counts (apply s request_direction h).1 s' events,
)
run_counts s s' ((response_direction, h) ∷ events) v e = ground (
  arith,
  apply_counts s response_direction h,
  apply-IsCall s response_direction h v,
  run_counts (apply s response_direction h).1 s' events,
)

init_start :
    (req resp : ℕ) (s : CallState)
    → init req resp ≡ (ok, some s)
    → (s.request_messages ≡ 0)
      × (s.response_messages ≡ 0)
      × (s.request_cardinality ≡ req)
      × (s.response_cardinality ≡ resp)
unfolding init
init_start req resp s i = ground arith

-- Over all the records that a call accepted since `init`: a side of cardinality ONE has sent at most
-- one message, and exactly one if the call has ended with status OK.
pub run_cardinality :
    (req resp : ℕ) (s s' : CallState) (events : List (Direction × RecordHeader))
    → init req resp ≡ (ok, some s)
    → run s events ≡ some s'
    → (req ≡ one → requests events ≤ 1)
      × (resp ≡ one → responses events ≤ 1)
      × (s'.terminal ≡ true
          → s'.final_status ≡ 0
          → (req ≡ one → requests events ≡ 1) × (resp ≡ one → responses events ≡ 1))
run_cardinality req resp s s' events i e =
    ground (arith, init_start req resp s i, run_counts s s' events (init-IsCall req resp s i) e)
