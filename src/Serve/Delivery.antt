-- ===== src/Serve/Delivery.antt =====
-- internal/serve/serve.go: whom `serveElement` answers, and the bytes it answers with.
use gophercast.Prelude.{
  ℕ, ◌≡◌, refl, true, Option, none, some, List, arith, inl, inr, Result, ok, err, Bool-cases,
}
use gophercast.Prelude.Int.{ℤ, pos, ◌-ℤ◌}
use gophercast.Text.{Codes}
use gophercast.Serve.Authz.{Principal, PublicationPin, authorized}
use gophercast.Serve.Range.{Verdict, ignore, single, unsatisfiable, parse_range}
use gophercast.Serve.Element.{
  Element, LookupError, no_rows, failed, Request, Outside, ContentRange, no_range, part_of, etag_of,
  headers_of, stream, whole, ranged, deliver, admit, serve_element,
}

-- The lookups succeeded and the principal may have the bytes.
abbrev pub Granted :
    Result LookupError Element → Option (List PublicationPin) → Principal → Element → Type 0
Granted found pins p el =
    (found ≡ ok el) × ((ps : List PublicationPin) × (pins ≡ some ps) × (authorized ps p ≡ true))

stream-etag :
    (out : Outside) (r : Request) (el : Element) (c : ContentRange) (status : ℕ) (s e : ℤ)
    (obj : Option Codes)
    → (stream (record (headers_of r el) { content_range = c }) status s e obj).headers.etag
      ≡ some (etag_of el.sha256)
unfolding stream
stream-etag out r el c status s e none = refl
stream-etag out r el c status s e (some obj) = refl

ranged-etag :
    (out : Outside) (r : Request) (el : Element) (s e : ℤ) (v : Verdict)
    → (ranged out (headers_of r el) el s e v).headers.etag ≡ some (etag_of el.sha256)
unfolding ranged whole
ranged-etag out r el s e ignore =
    stream-etag out r el no_range 200 (pos 0) (el.size_bytes -ℤ pos 1) (out.get el.sha256)
ranged-etag out r el s e unsatisfiable = refl
ranged-etag out r el s e single =
    stream-etag out r el (part_of s e el.size_bytes) 206 s e (out.get_range el.sha256 s e)

whole-etag :
    (out : Outside) (r : Request) (el : Element)
    → (whole out (headers_of r el) el).headers.etag ≡ some (etag_of el.sha256)
unfolding whole
whole-etag out r el =
    stream-etag out r el no_range 200 (pos 0) (el.size_bytes -ℤ pos 1) (out.get el.sha256)

deliver-etag :
    (out : Outside) (r : Request) (el : Element)
    → (deliver out r el).headers.etag ≡ some (etag_of el.sha256)
unfolding deliver
deliver-etag out r el =
    (let p = parse_range r.range el.size_bytes in
      ground (arith, whole-etag out r el, ranged-etag out r el p.start p.end p.verdict))

admit-etag :
    (out : Outside) (r : Request) (el : Element) (pins : Option (List PublicationPin))
    (p : Principal) (e : Codes)
    → (admit out r el pins p).headers.etag ≡ some e
    → (e ≡ etag_of el.sha256)
      × ((ps : List PublicationPin) × (pins ≡ some ps) × (authorized ps p ≡ true))
unfolding admit
admit-etag out r el none p e h = ground arith
admit-etag out r el (some ps) p e h = elim (Bool-cases (authorized ps p)) [
  | inl y ↦ (ground (arith, deliver-etag out r el), (ps, refl, y))
  | inr n ↦ ground arith
]

-- A response that carries an entity tag carries that of the element that was looked up, and the
-- principal is authorized by the pins of the publications that contain it.
pub serve_element-guarded :
    (out : Outside) (r : Request) (found : Result LookupError Element)
    (pins : Option (List PublicationPin)) (p : Principal) (e : Codes)
    → (serve_element out r found pins p).headers.etag ≡ some e
    → (el : Element) × (e ≡ etag_of el.sha256) × Granted found pins p el
unfolding serve_element
serve_element-guarded out r (err no_rows) pins p e h = ground arith
serve_element-guarded out r (err failed) pins p e h = ground arith
serve_element-guarded out r (ok el) pins p e h =
    (let (same, granted) = admit-etag out r el pins p e h in (el, same, (refl, granted)))
