-- ===== src/Serve/Element.antt =====
-- internal/serve/serve.go: `serveElement` and `ifNoneMatchHits`.
use gophercast.Prelude.{
  ℕ, ◌/◌, Bool, true, false, not, ◌&&◌, Option, none, some, List, [], ◌∷◌, ◌++◌, ◌==◌,
  if◌then◌else◌, Result, ok, err,
}
use gophercast.Prelude.Int.{ℤ, pos, ◌+ℤ◌, ◌-ℤ◌, leb_ℤ}
use gophercast.Text.{Codes, codes, eq_codes, is_nil, trim_space, cut_prefix, split}
use gophercast.Serve.Authz.{Principal, PublicationPin, authorized}
use gophercast.Serve.Range.{Verdict, ignore, single, unsatisfiable, parse_range}

-- The columns of mp_element that the handler reads. `created_at` is in nanoseconds since Go's zero time.
pub record Element : Type 0 where
  pub id : Codes
  pub mimetype : Codes
  pub sha256 : Codes
  pub size_bytes : ℤ
  pub source_url : Codes
  pub created_at : ℕ

pub data LookupError : Type 0 where
  no_rows failed : LookupError

-- Absent headers read as the empty text.
pub record Request : Type 0 where
  pub if_none_match : Codes
  pub if_modified_since : Codes
  pub range : Codes
  pub download : Bool

pub data ContentRange : Type 0 where
  no_range : ContentRange
  out_of : ℤ → ContentRange
  part_of : ℤ → ℤ → ℤ → ContentRange

-- `last_modified` is in seconds since Go's zero time, and `attachment` the name before its quoting.
pub record Headers : Type 0 where
  pub etag : Option Codes
  pub accept_ranges : Bool
  pub content_type : Codes
  pub content_sha256 : Option Codes
  pub attachment : Option Codes
  pub last_modified : Option ℕ
  pub content_range : ContentRange
  pub content_length : Option ℤ

pub record Response : Type 0 where
  pub status : ℕ
  pub headers : Headers
  pub body : Codes

-- `http.ParseTime` and the object store's reads.
pub record Outside : Type 0 where
  pub parse_time : Codes → Option ℤ
  pub get : Codes → Option Codes
  pub get_range : Codes → ℤ → ℤ → Option Codes

abbrev pub no_headers : Headers
no_headers = record {
  etag = none;
  accept_ranges = false;
  content_type = [];
  content_sha256 = none;
  attachment = none;
  last_modified = none;
  content_range = no_range;
  content_length = none;
}

-- `http.Error` (less its X-Content-Type-Options), over the headers that are already set.
abbrev pub error : Headers → Codes → ℕ → Response
error hdr text code = record {
  status = code;
  body = text ++ b'\n' ∷ [];
  headers = record hdr { content_type = codes "text/plain; charset=utf-8"; content_length = none };
}

abbrev pub no_body : Headers → ℕ → Response
no_body hdr code = record { status = code; headers = hdr; body = [] }

-- `path.Base`
abbrev pub last_segment : List Codes → Codes
last_segment [] = []
last_segment (s ∷ []) = s
last_segment (s ∷ t ∷ ss) = last_segment (t ∷ ss)

unfoldable pub strip_slashes : Codes → Codes
strip_slashes [] = []
strip_slashes (c ∷ s) =
    let rest = strip_slashes s in if is_nil rest && c == b'/' then [] else c ∷ rest

unfoldable pub base : Codes → Codes
unfolding strip_slashes
base [] = codes "."
base (c ∷ s) =
    let name = last_segment (split b'/' (strip_slashes (c ∷ s))) in
    if is_nil name then codes "/" else name

unfoldable pub attachment_name : Element → Codes
attachment_name el =
    let name = base el.source_url in
    if is_nil name
    then el.id
    else (if eq_codes name (codes ".")
        then el.id
        else (if eq_codes name (codes "/") then el.id else name))

-- `"` + sha256 + `"`
abbrev pub etag_of : Codes → Codes
etag_of sha = b'"' ∷ (sha ++ b'"' ∷ [])

abbrev pub last_mod : Element → ℕ
last_mod el = el.created_at / 1000000000

abbrev pub headers_of : Request → Element → Headers
headers_of r el = record {
  etag = some (etag_of el.sha256);
  accept_ranges = true;
  content_type = if is_nil el.mimetype then codes "application/octet-stream" else el.mimetype;
  content_sha256 = some el.sha256;
  attachment = if r.download then some (attachment_name el) else none;
  last_modified = if last_mod el == 0 then none else some (last_mod el);
  content_range = no_range;
  content_length = none;
}

-- `strings.TrimPrefix`
abbrev pub trim_prefix : Codes → Codes → Codes
trim_prefix prefix s = elim (cut_prefix prefix s) [ none ↦ s | some rest ↦ rest ]

unfoldable pub hits_loop : List Codes → Codes → Bool
hits_loop [] etag = false
hits_loop (part ∷ parts) etag =
    if eq_codes (trim_prefix (codes "W/") (trim_space part)) etag
    then true
    else hits_loop parts etag

unfoldable pub if_none_match_hits : Codes → Codes → Bool
unfolding hits_loop
if_none_match_hits header etag =
    if eq_codes (trim_space header) (codes "*") then true else hits_loop (split b',' header) etag

abbrev pub not_after : ℕ → Option ℤ → Bool
not_after modified none = false
not_after modified (some t) = leb_ℤ (pos modified) t

-- The two validators; If-None-Match takes precedence.
unfoldable pub not_modified : Outside → Request → Element → Bool
unfolding if_none_match_hits
not_modified out r el =
    if not (is_nil r.if_none_match)
    then if_none_match_hits r.if_none_match (etag_of el.sha256)
    else not (is_nil r.if_modified_since)
      && not (last_mod el == 0)
      && not_after (last_mod el) (out.parse_time r.if_modified_since)

-- Status and headers are written with the object's bytes; a missing object is a broken reference.
unfoldable pub stream : Headers → ℕ → ℤ → ℤ → Option Codes → Response
stream hdr status start end none =
    error hdr (codes "element exists but its object is missing from CAS") 502
stream hdr status start end (some obj) = record {
  status = status;
  body = obj;
  headers = record hdr { content_length = some ((end -ℤ start) +ℤ pos 1) };
}

unfoldable pub whole : Outside → Headers → Element → Response
unfolding stream
whole out hdr el = stream hdr 200 (pos 0) (el.size_bytes -ℤ pos 1) (out.get el.sha256)

unfoldable pub ranged : Outside → Headers → Element → ℤ → ℤ → Verdict → Response
unfolding whole stream
ranged out hdr el s e ignore = whole out hdr el
ranged out hdr el s e unsatisfiable =
    no_body (record hdr { content_range = out_of el.size_bytes }) 416
ranged out hdr el s e single =
    stream (record hdr { content_range = part_of s e el.size_bytes }) 206 s e
      (out.get_range el.sha256 s e)

unfoldable pub deliver : Outside → Request → Element → Response
unfolding ranged whole not_modified attachment_name
deliver out r el =
    let hdr = headers_of r el in
    if not_modified out r el
    then no_body hdr 304
    else (if is_nil r.range
        then whole out hdr el
        else (let p = parse_range r.range el.size_bytes in
            ranged out hdr el p.start p.end p.verdict))

-- The read of the pins fails as `none`.
unfoldable pub admit :
    Outside → Request → Element → Option (List PublicationPin) → Principal → Response
unfolding deliver
admit out r el none p = error no_headers (codes "lookup failed") 500
admit out r el (some pins) p =
    if authorized pins p then deliver out r el else error no_headers (codes "forbidden") 403

unfoldable pub serve_element :
    Outside
    → Request
    → Result LookupError Element
    → Option (List PublicationPin)
    → Principal
    → Response
unfolding admit
serve_element out r (err no_rows) pins p = error no_headers (codes "no such element") 404
serve_element out r (err failed) pins p = error no_headers (codes "lookup failed") 500
serve_element out r (ok el) pins p = admit out r el pins p
