-- ===== src/Record/Call/End.antt =====
-- The end of a call of src/rpc/rpc_record.c: what `tr_rpc_record_state_apply` and `_abort` accept over a
-- whole sequence of calls of them.
use c_trpc.Base.{
  ℕ, ◌≡◌, refl, ap, ◌∙◌, some, Bool, Bool-cases, true, false, ◌==◌, if◌then◌else◌, if_true,
  if_false, List, [], ◌∷◌, ◌++◌, All, inl, inr, arith,
}
use c_trpc.Status.{Status, ok, is_ok, ℤ, pos, negsuc}
use c_trpc.Record.{RecordHeader, kind_final_status}
use c_trpc.Record.Call.{
  CallState, Direction, request_direction, response_direction, init, apply_unopened, apply_request,
  apply_response, apply, abort,
}

-- What an owner asks of the state of a call: to apply a record, or to abort.
pub data CallEvent : Type 0 where
  record_event : Direction → RecordHeader → CallEvent
  abort_event : ℤ → CallEvent

unfoldable pub step : CallState → CallEvent → Status × CallState
step s (record_event d h) = apply s d h
step s (abort_event status) = abort s status

-- Whether an event would end the call, and with which status.
abbrev pub ends : CallEvent → Bool
ends (record_event d h) = h.kind == kind_final_status
ends (abort_event status) = true

abbrev pub status_of : CallEvent → ℤ
status_of (record_event d h) = pos h.status
status_of (abort_event status) = status

-- All the events, whatever the answers: the state that they leave, and those answered OK.
unfoldable pub run_events : CallState → List CallEvent → CallState
run_events s [] = s
run_events s (e ∷ es) = run_events (step s e).1 es

unfoldable pub accepted : CallState → List CallEvent → List CallEvent
accepted s [] = []
accepted s (e ∷ es) =
    let rest = accepted (step s e).1 es in if is_ok (step s e).0 then e ∷ rest else rest

-- The accepted events `log` end the call with a status: the last one and no other ends it.
pub record IsEnding (log : List CallEvent) (status : ℕ) : Type 0 where
  pub front : List CallEvent
  pub last : CallEvent
  pub shape : log ≡ front ++ (last ∷ [])
  pub front_open : All (λ e. ends e ≡ false) front
  pub last_ends : ends last ≡ true
  pub status_kept : status_of last ≡ pos status

-- The accepted events of a call and the state that they lead to.
pub record IsCallLog (log : List CallEvent) (s : CallState) : Type 0 where
  pub still_open : s.terminal ≡ false → All (λ e. ends e ≡ false) log
  pub ended : s.terminal ≡ true → IsEnding log s.final_status

-- What one event does to a call that has not ended.
record IsStep (s : CallState) (e : CallEvent) (r : Status × CallState) : Type 0 where
  initialized : (r.1).initialized ≡ true
  refused : is_ok r.0 ≡ false → r.1 ≡ s
  goes_on : is_ok r.0 ≡ true → ends e ≡ false → (r.1).terminal ≡ false
  stops :
      is_ok r.0 ≡ true
      → ends e ≡ true
      → ((r.1).terminal ≡ true) × (status_of e ≡ pos (r.1).final_status)

step-IsStep :
    (s : CallState) (e : CallEvent)
    → s.initialized ≡ true
    → s.terminal ≡ false
    → IsStep s e (step s e)
unfolding step apply apply_unopened apply_request apply_response abort
step-IsStep s (record_event request_direction h) i t = ground arith
step-IsStep s (record_event response_direction h) i t = ground arith
step-IsStep s (abort_event (pos n)) i t = ground arith
step-IsStep s (abort_event (negsuc n)) i t = ground arith

-- After the end every event is refused and changes nothing.
step_after_end :
    (s : CallState) (e : CallEvent)
    → s.initialized ≡ true
    → s.terminal ≡ true
    → (is_ok (step s e).0 ≡ false) × ((step s e).1 ≡ s)
unfolding step apply abort
step_after_end s (record_event request_direction h) i t = ground arith
step_after_end s (record_event response_direction h) i t = ground arith
step_after_end s (abort_event (pos n)) i t = ground arith
step_after_end s (abort_event (negsuc n)) i t = ground arith

after_end :
    (s : CallState) (es : List CallEvent)
    → s.initialized ≡ true
    → s.terminal ≡ true
    → (accepted s es ≡ []) × (run_events s es ≡ s)
unfolding accepted run_events
after_end s [] i t = (refl, refl)
after_end s (e ∷ es) i t =
    let (answer, same) = step_after_end s e i t in
    let (none_more, still) = after_end s es i t in
    (
      if_false (is_ok (step s e).0) _ _ answer ∙ ap (λ r. accepted r es) same ∙ none_more,
      ap (λ r. run_events r es) same ∙ still,
    )

cons-IsCallLog :
    (e : CallEvent) (log : List CallEvent) (s : CallState)
    → ends e ≡ false
    → IsCallLog log s
    → IsCallLog (e ∷ log) s
cons-IsCallLog e log s f w = record {
  still_open = λ t. (f, w.still_open t);
  ended = λ t.
      let old = w.ended t in
      record {
        front = e ∷ old.front;
        last = old.last;
        shape = ap (◌∷◌ e) old.shape;
        front_open = (f, old.front_open);
        last_ends = old.last_ends;
        status_kept = old.status_kept;
      };
}

last-IsCallLog :
    (e : CallEvent) (s : CallState)
    → ends e ≡ true
    → s.terminal ≡ true
    → status_of e ≡ pos s.final_status
    → IsCallLog (e ∷ []) s
last-IsCallLog e s f t k = record {
  still_open = λ o. absurd (ground arith);
  ended = λ t. record {
    front = [];
    last = e;
    shape = refl;
    front_open = tt;
    last_ends = f;
    status_kept = k;
  };
}

accepted_ok :
    (s : CallState) (e : CallEvent) (es : List CallEvent)
    → is_ok (step s e).0 ≡ true
    → accepted s (e ∷ es) ≡ e ∷ accepted (step s e).1 es
unfolding accepted
accepted_ok s e es a = if_true (is_ok (step s e).0) _ _ a

accepted_refused :
    (s : CallState) (e : CallEvent) (es : List CallEvent)
    → is_ok (step s e).0 ≡ false
    → accepted s (e ∷ es) ≡ accepted (step s e).1 es
unfolding accepted
accepted_refused s e es a = if_false (is_ok (step s e).0) _ _ a

open_log :
    (s : CallState) (es : List CallEvent)
    → s.initialized ≡ true
    → s.terminal ≡ false
    → IsCallLog (accepted s es) (run_events s es)
unfolding run_events
open_log s [] i t = record {
  still_open = λ o. unfold accepted in tt;
  ended = λ e. absurd (ground arith);
}
open_log s (e ∷ es) i t =
    let w = step-IsStep s e i t in
    elim (Bool-cases (is_ok (step s e).0)) [
      | inr answer ↦ rw (accepted_refused s e es answer) (
          open_log (step s e).1 es w.initialized
            (ap (λ (r : CallState). r.terminal) (w.refused answer) ∙ t))
      | inl answer ↦ elim (Bool-cases (ends e)) [
        | inr goes_on ↦ rw (accepted_ok s e es answer) (
            cons-IsCallLog e (accepted (step s e).1 es) (run_events (step s e).1 es) goes_on
              (open_log (step s e).1 es w.initialized (w.goes_on answer goes_on)))
        | inl last ↦
            let (over, status) = w.stops answer last in
            let (none_more, still) = after_end (step s e).1 es w.initialized over in
            rw (accepted_ok s e es answer, none_more, still)
              (last-IsCallLog e (step s e).1 last over status)
      ]
    ]

init_open :
    (req resp : ℕ) (s : CallState)
    → init req resp ≡ (ok, some s)
    → (s.initialized ≡ true) × (s.terminal ≡ false)
unfolding init
init_open req resp s e = ground arith

-- A call ends at most once. Whatever is asked of a call that `init` made, in any order, records in both directions
-- and aborts with any status, valid or not, each tried whatever the answers before it: while the call is open no
-- accepted event was a final status or an abort; once it has ended, the last accepted event was one, no accepted event before it
-- was, and the final status of the call is that event's.
pub accepted-IsCallLog :
    (req resp : ℕ) (s : CallState) (es : List CallEvent)
    → init req resp ≡ (ok, some s)
    → IsCallLog (accepted s es) (run_events s es)
accepted-IsCallLog req resp s es e = let (i, t) = init_open req resp s e in open_log s es i t
