-- ===== src/Tests/Offers.antt =====
-- Control messages and limits on concrete inputs.
use c_trpc.Base.{
  ℕ, ◌^◌, ◌<◌, ◌≤◌, ◌≡◌, ◌≢◌, ◌+◌, refl, true, false, some, none, List, [], ◌∷◌, arith,
}
use c_trpc.Status.{ok, err_invalid}
use c_trpc.Endian.{get_le16}
use c_trpc.Route
use c_trpc.Route.{validate}
use c_trpc.Record.{record_header_size}
use c_trpc.Control.{Message, fields_valid, message_bytes, encode, decode, data_route, data_offer}
use c_trpc.Control.RoundTrip.{IsMessage, route_of, decode-encode_message, data_route-accepted}
use c_trpc.V2.{FacadeLimits, Tuning, prepare_limits, memory_limit}
use c_trpc.V2.Bounds.{
  IsLimits, IsPrepared, exact_total, prepare_limits-IsPrepared, memory_limit_exact,
}
use c_trpc.Metadata
use c_trpc.Metadata.{Metadata, duplicate, encode_entries, key_scan}
use c_trpc.Metadata.Distinct.{has_key, encode-finds_own}
use c_trpc.Metadata.RoundTrip.{IsViewOf, encode-IsViewOf}

abbrev offer : Message
offer = record {
  version = 1;
  type = data_offer;
  flags = 0;
  owner_shard_id = 2;
  pipeline_id = 77;
  epoch = 5;
  stream_id = 0;
  data_index = 3;
  data_generation = 1;
  reserved = 0;
}

offer-IsMessage : IsMessage offer
offer-IsMessage = record {
  version_fits = omega arith;
  type_fits = omega arith;
  flags_fit = omega arith;
  owner_shard_id_fits = omega arith;
  pipeline_id_fits = omega arith;
  epoch_fits = omega arith;
  stream_id_fits = omega arith;
  data_index_fits = omega arith;
  data_generation_fits = omega arith;
  reserved_fits = omega arith;
}

offer_valid : fields_valid offer ≡ true
unfolding fields_valid
offer_valid = refl

decode-encode_message_example :
    (fields_valid offer ≡ true
      → (encode offer ≡ (ok, some (message_bytes offer)))
        × (decode (message_bytes offer) ≡ (ok, some offer)))
    × (fields_valid offer ≡ false
        → (encode offer ≡ (err_invalid, none)) × ((decode (message_bytes offer)).0 ≢ ok))
decode-encode_message_example = decode-encode_message offer offer-IsMessage

data_route-accepted_example :
    (offer.type ≡ data_offer
      → fields_valid offer ≡ true
      → (data_route offer ≡ (ok, some (route_of offer)))
        × (validate (Route.encode (route_of offer)) (Route.decode (Route.encode (route_of offer)))
            ≡ ok))
    × (offer.type ≢ data_offer → data_route offer ≡ (err_invalid, none))
    × (fields_valid offer ≡ false → data_route offer ≡ (err_invalid, none))
data_route-accepted_example = data_route-accepted offer offer-IsMessage

abbrev limits : FacadeLimits
limits = record {
  max_streams = 8;
  max_methods = 8;
  max_calls = 8;
  max_frame_payload_bytes = 1024;
  max_message_bytes = 4096;
  initial_window_bytes = 8192;
  window_update_threshold_bytes = 9000;
}

limits-IsLimits : IsLimits limits
limits-IsLimits = record {
  max_message_fits = omega arith;
  window_fits = omega arith;
  threshold_fits = omega arith;
}

prepare_limits-IsPrepared_example :
    ((prepare_limits limits).0 ≡ ok → IsPrepared limits (prepare_limits limits).1)
    × ((prepare_limits limits).0 ≢ ok → prepare_limits limits ≡ (err_invalid, limits))
    × (limits.max_message_bytes ≢ 0
        → limits.initial_window_bytes ≢ 0
        → limits.max_frame_payload_bytes ≢ 0
        → limits.max_frame_payload_bytes ≤ limits.max_message_bytes
        → limits.max_message_bytes + record_header_size < 2 ^ 32
        → limits.initial_window_bytes + record_header_size < 2 ^ 64
        → (prepare_limits limits).0 ≡ ok)
prepare_limits-IsPrepared_example = prepare_limits-IsPrepared limits limits-IsLimits

abbrev tuning : Tuning
tuning = record { rx_buffer_count = 16; rpc_message_pool_count = 100; reassembly_pool_count = 4 }

memory_limit_exact_example :
    (exact_total limits tuning 2 < 2 ^ 64
      → memory_limit limits tuning 2 ≡ (ok, some (exact_total limits tuning 2)))
    × (2 ^ 64 ≤ exact_total limits tuning 2 → memory_limit limits tuning 2 ≡ (err_invalid, none))
memory_limit_exact_example =
    memory_limit_exact limits tuning 2 (omega arith) (omega arith) (omega arith) (omega arith)

-- Two entries, `id` and `k.1`.
abbrev entries : List Metadata
entries =
    record { key = 105 ∷ 100 ∷ []; value = 7 ∷ [] }
    ∷ record { key = 107 ∷ 46 ∷ 49 ∷ []; value = [] }
    ∷ []

abbrev encoded : List ℕ
encoded = 2 ∷ 1 ∷ 0 ∷ 105 ∷ 100 ∷ 7 ∷ 3 ∷ 0 ∷ 0 ∷ 107 ∷ 46 ∷ 49 ∷ []

entries_encoded : Metadata.encode entries ≡ (ok, some encoded)
unfolding Metadata.encode encode_entries duplicate key_scan get_le16
entries_encoded = refl

encode-IsViewOf_example : IsViewOf entries encoded
encode-IsViewOf_example = encode-IsViewOf entries encoded refl entries_encoded

encode-finds_own_example :
    (has_key (105 ∷ 100 ∷ []) [] ≡ false)
    × (Metadata.find encoded (105 ∷ 100 ∷ []) ≡ (ok, some (7 ∷ [])))
encode-finds_own_example =
    encode-finds_own [] (record { key = 107 ∷ 46 ∷ 49 ∷ []; value = [] } ∷ [])
      (record { key = 105 ∷ 100 ∷ []; value = 7 ∷ [] }) encoded refl entries_encoded
