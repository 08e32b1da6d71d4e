-- ===== src/Serve/Tests.antt =====
-- Small elements and requests, and the theorems about internal/serve at them.
use gophercast.Prelude.{◌≡◌, refl, false, Option, none, some, List, [], ◌∷◌, arith, ok}
use gophercast.Prelude.Int.{ℤ, pos, ◌≤ℤ◌, ◌<ℤ◌, ◌-ℤ◌}
use gophercast.Text.{Codes, codes, cut_prefix, trim_space, cut, split, parse_int}
use gophercast.Serve.Authz.{Principal, PublicationPin, authorized}
use gophercast.Serve.Range.{single, unsatisfiable, ignore, parse_range}
use gophercast.Serve.Bounds.{parse_range-bounds}
use gophercast.Serve.Element.{Element, Request, Outside, etag_of, base, serve_element}
use gophercast.Serve.Delivery.{Granted, serve_element-guarded}
use gophercast.Serve.Revalidation.{with_tag, serve_element-revalidates}
use gophercast.Serve.Listing.{ListingRow}

abbrev student : Principal
student = record { roles = "ROLE_COURSE" ∷ [] }

abbrev course_pin : PublicationPin
course_pin = record {
  mediapackage_id = "m";
  channel = "engage";
  acl_read = "ROLE_COURSE" ∷ [];
  acl_state = "populated";
}

abbrev video : Element
video = record {
  id = codes "e";
  mimetype = codes "video/mp4";
  sha256 = codes "ab";
  size_bytes = pos 3;
  source_url = codes "/in/v.mp4";
  created_at = 0;
}

abbrev plain : Request
plain = record { if_none_match = []; if_modified_since = []; range = []; download = false }

abbrev partial : Request
partial = record plain { range = codes "bytes=1-" }

abbrev read_part : Codes → ℤ → ℤ → Option Codes
read_part sha s e = some (98 ∷ 99 ∷ [])

abbrev store : Outside
store = record {
  parse_time = λ s. none;
  get = λ s. some (97 ∷ 98 ∷ 99 ∷ []);
  get_range = read_part;
}

abbrev pins : Option (List PublicationPin)
pins = some (course_pin ∷ [])

ranges :
    (parse_range (codes "bytes=1-") (pos 3)
      ≡ record { start = pos 1; end = pos 2; verdict = single })
    × (parse_range (codes " bytes= 0 - 9 ") (pos 3)
        ≡ record { start = pos 0; end = pos 2; verdict = single })
    × (parse_range (codes "bytes=-2") (pos 3)
        ≡ record { start = pos 1; end = pos 2; verdict = single })
    × ((parse_range (codes "bytes=3-") (pos 3)).verdict ≡ unsatisfiable)
    × ((parse_range (codes "bytes=0-1,2-2") (pos 3)).verdict ≡ ignore)
unfolding parse_range cut_prefix trim_space cut parse_int ◌-ℤ◌
ranges = (refl, refl, refl, refl, refl)

names :
    (base (codes "/in/v.mp4") ≡ codes "v.mp4")
    × (base (codes "in/") ≡ codes "in")
    × (base [] ≡ codes ".")
    × (base (codes "//") ≡ codes "/")
unfolding base split
names = (refl, refl, refl, refl)

parse_range-bounds_example :
    let r = parse_range (codes "bytes=-2") (pos 3) in
    (pos 0 ≤ℤ r.start) × (r.start ≤ℤ r.end) × (r.end <ℤ pos 3)
unfolding parse_range cut_prefix trim_space cut parse_int ◌-ℤ◌
parse_range-bounds_example = parse_range-bounds (codes "bytes=-2") 3 (omega arith) refl

serve_element-guarded_example :
    (el : Element) × (etag_of (codes "ab") ≡ etag_of el.sha256) × Granted (ok video) pins student el
unfolding serve_element authorized
serve_element-guarded_example =
    serve_element-guarded store plain (ok video) pins student (etag_of (codes "ab")) refl

serve_element-revalidates_example :
    ((serve_element store (with_tag partial (etag_of (codes "ab"))) (ok video) pins student).status
      ≡ 304)
    × ((serve_element store (with_tag partial (etag_of (codes "ab"))) (ok video) pins student).body
        ≡ [])
unfolding serve_element authorized
serve_element-revalidates_example =
    serve_element-revalidates store plain (ok video) pins student (etag_of (codes "ab")) refl refl
      partial

abbrev rows : List ListingRow
rows =
    record {
      channel = "engage";
      acl_read = "ROLE_COURSE" ∷ [];
      acl_state = "populated";
      element_id = "a";
    }
    ∷ record { channel = "internal"; acl_read = []; acl_state = "empty"; element_id = "b" }
    ∷ []
