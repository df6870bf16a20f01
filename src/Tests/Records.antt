-- ===== src/Tests/Records.antt =====
-- Records and calls on concrete inputs.
use c_trpc.Base.{
  ℕ, ◌≤◌, ◌<◌, ◌≡◌, ◌≢◌, refl, true, false, List, [], ◌∷◌, ◌++◌, length, take, arith, none, some,
}
use c_trpc.Status.{ok, again, pos}
use c_trpc.Record.{
  RecordHeader, Limits, limits_valid, validate, validate_control, validate_message, header_bytes,
  decode,
}
use c_trpc.Record.RoundTrip.{IsRecordHeader, borrowed, decode-record}
use c_trpc.Record.Prefix.{decode-prefix}
use c_trpc.Record.Call.{
  CallState, request_direction, response_direction, Direction, init, apply, apply_unopened,
  apply_request, apply_response, abort, one,
}
use c_trpc.Record.Call.Invariant.{IsCall, init-IsCall, apply-IsCall}
use c_trpc.Record.Call.End.{
  CallEvent, record_event, abort_event, step, run_events, accepted, IsCallLog, accepted-IsCallLog,
}
use c_trpc.Record.Call.Run.{run, requests, responses, run_cardinality}

abbrev limits : Limits
limits = record {
  max_encoded_size = 1000;
  max_decoded_size = 1000;
  max_metadata_size = 512;
  accepted_compression = 3;
}

abbrev control : ℕ → RecordHeader
control kind = record {
  kind = kind;
  service_id = 0;
  method_id = 0;
  codec_id = 0;
  compression = 0;
  encoded_size = 0;
  decoded_size = 0;
  metadata_size = 0;
  status = 0;
  remaining_timeout_ns = 0;
}

-- A message of two bytes.
abbrev message : RecordHeader
message = record (control 3) { codec_id = 1; encoded_size = 2; decoded_size = 2 }

message-IsRecordHeader : IsRecordHeader message
message-IsRecordHeader = ground arith

message_valid : validate message limits ≡ ok
unfolding validate limits_valid validate_message
message_valid = refl

decode-record_example : decode (header_bytes message ++ (8 ∷ 9 ∷ 255 ∷ [])) limits ≡ (
  ok,
  some (
    record {
      header = message;
      metadata = borrowed 0 (8 ∷ 9 ∷ 255 ∷ []);
      body = borrowed 2 (8 ∷ 9 ∷ 255 ∷ []);
    },
    length (header_bytes message ++ (8 ∷ 9 ∷ [])),
  ),
)
decode-record_example =
    decode-record message limits [] (8 ∷ 9 ∷ []) (255 ∷ []) message-IsRecordHeader message_valid
      refl refl

short : 49 < length (header_bytes message ++ (8 ∷ 9 ∷ []))
unfolding header_bytes
short = omega arith

decode-prefix_example :
    decode (take 49 (header_bytes message ++ (8 ∷ 9 ∷ []))) limits ≡ (again, none)
decode-prefix_example =
    decode-prefix message limits [] (8 ∷ 9 ∷ []) 49 message-IsRecordHeader message_valid refl refl
      short

-- A unary call: each side sends one message.
abbrev start : CallState
start = record {
  request_cardinality = one;
  response_cardinality = one;
  request_messages = 0;
  response_messages = 0;
  final_status = 0;
  initialized = true;
  opened = false;
  request_closed = false;
  response_headers = false;
  terminal = false;
}

started : init one one ≡ (ok, some start)
unfolding init
started = refl

abbrev unary : List (Direction × RecordHeader)
unary =
    (request_direction, control 1)
    ∷ (request_direction, message)
    ∷ (request_direction, control 4)
    ∷ (response_direction, control 2)
    ∷ (response_direction, message)
    ∷ (response_direction, control 5)
    ∷ []

abbrev finished : CallState
finished = record start {
  request_messages = 1;
  response_messages = 1;
  opened = true;
  request_closed = true;
  response_headers = true;
  terminal = true;
}

unary-run : run start unary ≡ some finished
unfolding run apply apply_unopened apply_request apply_response validate limits_valid
    validate_control validate_message
unary-run = refl

run_cardinality_example :
    (one ≡ one → requests unary ≤ 1)
    × (one ≡ one → responses unary ≤ 1)
    × (finished.terminal ≡ true
        → finished.final_status ≡ 0
        → (one ≡ one → requests unary ≡ 1) × (one ≡ one → responses unary ≡ 1))
run_cardinality_example = run_cardinality one one start finished unary started unary-run

start-IsCall : IsCall start
start-IsCall = init-IsCall one one start started

apply-IsCall_example : IsCall (apply start request_direction (control 1)).1
apply-IsCall_example = apply-IsCall start request_direction (control 1) start-IsCall

early : (apply start request_direction message).0 ≢ ok
unfolding apply apply_unopened validate limits_valid validate_message
early = ground arith

-- A refused abort, an accepted one, and a message, a final status and an abort that come too late.
abbrev attempts : List CallEvent
attempts =
    record_event request_direction (control 1)
    ∷ abort_event (pos 0)
    ∷ abort_event (pos 4)
    ∷ record_event request_direction message
    ∷ record_event response_direction (control 5)
    ∷ abort_event (pos 1)
    ∷ []

attempts-accepted :
    accepted start attempts ≡ record_event request_direction (control 1) ∷ abort_event (pos 4) ∷ []
unfolding accepted step apply apply_unopened apply_request apply_response abort validate
    limits_valid validate_control validate_message
attempts-accepted = refl

accepted-IsCallLog_example : IsCallLog (accepted start attempts) (run_events start attempts)
accepted-IsCallLog_example = accepted-IsCallLog one one start attempts started
