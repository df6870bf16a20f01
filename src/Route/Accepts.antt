-- ===== src/Route/Accepts.antt =====
-- Exactly which prefaces a listener accepts.
use c_trpc.Base.{ℕ, ◌-◌, ◌^◌, ◌<◌, ◌≡◌, ◌≢◌, ◌⊎◌, ◌↔◌, bit_and, arith}
use c_trpc.Base.Bits.{bit_and_ones}
use c_trpc.Status.{ok}
use c_trpc.Route.{
  Preface, encode, decode, validate_fields, validate, role_control, role_data, member_control,
}
use c_trpc.Route.RoundTrip.{
  IsPreface, sum_of, decode-encode_route, header_crc-encode, starts_with-encode,
}

-- A preface that names a pipeline, an epoch, an owner and a member, which is the control member
-- exactly for the control role.
pub record IsRoute (h : Preface) : Type 0 where
  pub version_one : h.version ≡ 1
  pub no_flags : h.flags ≡ 0
  pub nothing_reserved : h.reserved ≡ 0
  pub names_pipeline : h.pipeline_id ≢ 0
  pub names_epoch : h.epoch ≢ 0
  pub names_owner : h.owner_shard_id ≢ 2 ^ 32 - 1
  pub names_generation : h.member_generation ≢ 0
  pub member :
      ((h.role ≡ role_control) × (h.member_index ≡ member_control))
      ⊎ ((h.role ≡ role_data) × (h.member_index ≢ member_control))

no_known_flags : (f : ℕ) → f < 2 ^ 32 → bit_and f (2 ^ 32 - 1) ≡ f
no_known_flags f h = omega (arith, bit_and_ones 32 f)

validate_fields_iff : (h : Preface) → IsPreface h → (validate_fields h ≡ ok) ↔ IsRoute h
unfolding validate_fields
validate_fields_iff h v = (
  λ e. ground (arith, no_known_flags h.flags v.flags_fit),
  λ r. ground (arith, no_known_flags h.flags v.flags_fit),
)

-- A preface whose fields fit their widths is accepted after it was encoded exactly when it is a
-- route: it names its pipeline, epoch, owner and member as its role asks.
pub validate-encode-IsRoute_iff :
    (h : Preface) → IsPreface h → (validate (encode h) (decode (encode h)) ≡ ok) ↔ IsRoute h
unfolding validate
validate-encode-IsRoute_iff h v = rw (decode-encode_route h v) (
  (λ e. ground (arith, fields.0)),
  (λ r. ground (arith, starts_with-encode h, header_crc-encode h, fields.1)),
)
  where
    fields : (validate_fields (record h { header_crc32c = sum_of h }) ≡ ok) ↔ IsRoute h
    fields =
        let e = validate_fields_iff (record h { header_crc32c = sum_of h }) (ground (arith, v)) in
        ((λ k. ground (arith, e.0 k)), (λ r. e.1 (ground (arith, r))))
