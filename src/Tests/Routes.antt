-- ===== src/Tests/Routes.antt =====
-- Route prefaces on concrete inputs.
use c_trpc.Base.{
  ℕ, ◌≤◌, ◌≡◌, ◌↔◌, refl, true, List, [], ◌∷◌, ◌++◌, concat, length, take, drop, arith, some,
}
use c_trpc.Status.{ok}
use c_trpc.Route.{Preface, encode, decode, validate, init, feed}
use c_trpc.Route.RoundTrip.{IsPreface, sum_of, decode-encode_route}
use c_trpc.Route.Accepts.{IsRoute, validate-encode-IsRoute_iff}
use c_trpc.Route.Feed.{feed_each, feed_pieces}

-- The third data member of a pipeline.
abbrev member : Preface
member = record {
  version = 1;
  role = 2;
  flags = 0;
  owner_shard_id = 5;
  pipeline_id = 900;
  epoch = 7;
  member_index = 2;
  member_generation = 4;
  header_crc32c = 0;
  reserved = 0;
}

member-IsPreface : IsPreface member
member-IsPreface = ground arith

member-IsRoute : IsRoute member
member-IsRoute = ground arith

decode-encode_route_example :
    decode (encode member) ≡ record member { header_crc32c = sum_of member }
decode-encode_route_example = decode-encode_route member member-IsPreface

validate-encode-IsRoute_iff_example :
    (validate (encode member) (decode (encode member)) ≡ ok) ↔ IsRoute member
validate-encode-IsRoute_iff_example = validate-encode-IsRoute_iff member member-IsPreface

abbrev last : List ℕ
last = drop 30 (encode member)

last_some : 1 ≤ length last
unfolding encode
last_some = omega arith

cut : concat (take 30 (encode member) ∷ []) ++ last ≡ encode member
unfolding encode
cut = refl

feed_pieces_example :
    let a = feed (feed_each init (take 30 (encode member) ∷ [])) (last ++ (1 ∷ 2 ∷ [])) in
    (a.0 ≡ ok)
    × (a.1 ≡ length last)
    × (a.2 ≡ some (record member { header_crc32c = sum_of member }))
    × ((a.3).done ≡ true)
feed_pieces_example =
    feed_pieces member (take 30 (encode member) ∷ []) last (1 ∷ 2 ∷ []) member-IsPreface
      member-IsRoute last_some cut
