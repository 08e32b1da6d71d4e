-- ===== src/Serve/Bytes.antt =====
-- internal/serve/serve.go: the bytes of the object in the answers of `serveElement`.
use mathlib.Core.Path.{subst}
use gophercast.Prelude.{
  ℕ, ◌<◌, ◌≡◌, refl, ap, sym, ◌⊎◌, Option, none, some, List, arith, inl, inr, ok, Bool-cases,
}
use gophercast.Prelude.Int.{ℤ, pos, ◌≤ℤ◌, ◌<ℤ◌, ◌+ℤ◌, ◌-ℤ◌, int_laws}
use gophercast.Text.{Codes}
use gophercast.Serve.Range.{Verdict, ignore, single, unsatisfiable, parse_range}
use gophercast.Serve.Bounds.{parse_range-bounds}
use gophercast.Serve.Authz.{Principal, PublicationPin, authorized}
use gophercast.Serve.Element.{
  Element, Request, Outside, Response, Headers, part_of, headers_of, stream, whole, ranged, deliver,
  admit, serve_element,
}

-- The response carries all of an object that the store reads, as long as the element is said to be.
abbrev pub Whole : Outside → Element → Response → Type 0
Whole out el w = (some w.body ≡ out.get el.sha256) × (w.headers.content_length ≡ some el.size_bytes)

-- The response carries the part from start to end that the store reads.
abbrev pub Part : Outside → Element → Response → ℤ → ℤ → Type 0
Part out el w start end =
    (pos 0 ≤ℤ start)
    × (start ≤ℤ end)
    × (end <ℤ el.size_bytes)
    × (w.headers.content_range ≡ part_of start end el.size_bytes)
    × (some w.body ≡ out.get_range el.sha256 start end)
    × (w.headers.content_length ≡ some ((end -ℤ start) +ℤ pos 1))

length_of_whole : (size : ℤ) → ((size -ℤ pos 1) -ℤ pos 0) +ℤ pos 1 ≡ size
length_of_whole size = grind int_laws

stream-200 :
    (hdr : Headers) (size : ℤ) (obj : Option Codes)
    → (stream hdr 200 (pos 0) (size -ℤ pos 1) obj).status ≡ 200
    → (some (stream hdr 200 (pos 0) (size -ℤ pos 1) obj).body ≡ obj)
      × ((stream hdr 200 (pos 0) (size -ℤ pos 1) obj).headers.content_length ≡ some size)
unfolding stream
stream-200 hdr size none h = ground arith
stream-200 hdr size (some o) h = (refl, ap some (length_of_whole size))

stream-206 :
    (hdr : Headers) (s e : ℤ) (obj : Option Codes)
    → (stream hdr 206 s e obj).status ≡ 206
    → ((stream hdr 206 s e obj).headers.content_range ≡ hdr.content_range)
      × (some (stream hdr 206 s e obj).body ≡ obj)
      × ((stream hdr 206 s e obj).headers.content_length ≡ some ((e -ℤ s) +ℤ pos 1))
unfolding stream
stream-206 hdr s e none h = ground arith
stream-206 hdr s e (some o) h = (refl, refl, refl)

stream-status :
    (hdr : Headers) (status : ℕ) (s e : ℤ) (obj : Option Codes)
    → ((stream hdr status s e obj).status ≡ status) ⊎ ((stream hdr status s e obj).status ≡ 502)
unfolding stream
stream-status hdr status s e none = inr refl
stream-status hdr status s e (some o) = inl refl

ranged-Whole :
    (out : Outside) (hdr : Headers) (el : Element) (s e : ℤ) (v : Verdict)
    → (ranged out hdr el s e v).status ≡ 200
    → Whole out el (ranged out hdr el s e v)
unfolding ranged whole
ranged-Whole out hdr el s e ignore h = stream-200 hdr el.size_bytes (out.get el.sha256) h
ranged-Whole out hdr el s e unsatisfiable h = ground arith
ranged-Whole out hdr el s e single h =
    (let hdr' = record hdr { content_range = part_of s e el.size_bytes } in
      ground (arith, stream-status hdr' 206 s e (out.get_range el.sha256 s e)))

deliver-Whole :
    (out : Outside) (r : Request) (el : Element)
    → (deliver out r el).status ≡ 200
    → Whole out el (deliver out r el)
unfolding deliver whole
deliver-Whole out r el h =
    (let q = parse_range r.range el.size_bytes in
      let hdr = headers_of r el in
      ground (
        arith,
        stream-200 hdr el.size_bytes (out.get el.sha256),
        ranged-Whole out hdr el q.start q.end q.verdict,
      ))

-- An answer with status 200 carries all bytes of the object, and the size of the element as its length.
pub serve_element-Whole :
    (out : Outside) (r : Request) (el : Element) (pins : Option (List PublicationPin))
    (p : Principal)
    → (serve_element out r (ok el) pins p).status ≡ 200
    → Whole out el (serve_element out r (ok el) pins p)
unfolding serve_element admit
serve_element-Whole out r el none p h = ground arith
serve_element-Whole out r el (some ps) p h = ground (arith, deliver-Whole out r el)

ranged-Part :
    (out : Outside) (hdr : Headers) (el : Element) (s e : ℤ) (v : Verdict)
    → (ranged out hdr el s e v).status ≡ 206
    → (v ≡ single)
      × ((ranged out hdr el s e v).headers.content_range ≡ part_of s e el.size_bytes)
      × (some (ranged out hdr el s e v).body ≡ out.get_range el.sha256 s e)
      × ((ranged out hdr el s e v).headers.content_length ≡ some ((e -ℤ s) +ℤ pos 1))
unfolding ranged whole
ranged-Part out hdr el s e ignore h =
    ground (arith, stream-status hdr 200 (pos 0) (el.size_bytes -ℤ pos 1) (out.get el.sha256))
ranged-Part out hdr el s e unsatisfiable h = ground arith
ranged-Part out hdr el s e single h =
    (let hdr' = record hdr { content_range = part_of s e el.size_bytes } in
      let (c, b, l) = stream-206 hdr' s e (out.get_range el.sha256 s e) h in (refl, c, b, l))

deliver-Part :
    (out : Outside) (r : Request) (el : Element)
    → (deliver out r el).status ≡ 206
    → let q = parse_range r.range el.size_bytes in
      (q.verdict ≡ single)
      × ((deliver out r el).headers.content_range ≡ part_of q.start q.end el.size_bytes)
      × (some (deliver out r el).body ≡ out.get_range el.sha256 q.start q.end)
      × ((deliver out r el).headers.content_length ≡ some ((q.end -ℤ q.start) +ℤ pos 1))
unfolding deliver whole
deliver-Part out r el h =
    (let q = parse_range r.range el.size_bytes in
      let hdr = headers_of r el in
      ground (
        arith,
        stream-status hdr 200 (pos 0) (el.size_bytes -ℤ pos 1) (out.get el.sha256),
        ranged-Part out hdr el q.start q.end q.verdict,
      ))

positions_inside :
    (spec : Codes) (size : ℤ) (n : ℕ)
    → size ≡ pos n
    → 0 < n
    → (parse_range spec size).verdict ≡ single
    → (pos 0 ≤ℤ (parse_range spec size).start)
      × ((parse_range spec size).start ≤ℤ (parse_range spec size).end)
      × ((parse_range spec size).end <ℤ size)
positions_inside spec size n same positive v =
    subst
      (λ z.
        (parse_range spec z).verdict ≡ single
        → (pos 0 ≤ℤ (parse_range spec z).start)
          × ((parse_range spec z).start ≤ℤ (parse_range spec z).end)
          × ((parse_range spec z).end <ℤ z))
      (sym same) (parse_range-bounds spec n positive) v

bounded-Part :
    (out : Outside) (r : Request) (el : Element) (size : ℕ)
    → el.size_bytes ≡ pos size
    → 0 < size
    → (deliver out r el).status ≡ 206
    → (start : ℤ) × (end : ℤ) × Part out el (deliver out r el) start end
bounded-Part out r el size same positive h =
    (let q = parse_range r.range el.size_bytes in
      let (v, c, b, l) = deliver-Part out r el h in
      let (x, y, z) = positions_inside r.range el.size_bytes size same positive v in
      (q.start, q.end, (x, y, z, c, b, l)))

-- An answer with status 206 about an element that has bytes carries what the store reads between two
-- positions inside the element, names these in Content-Range, and has the length they span.
pub serve_element-Part :
    (out : Outside) (r : Request) (el : Element) (size : ℕ) (pins : Option (List PublicationPin))
    (p : Principal)
    → el.size_bytes ≡ pos size
    → 0 < size
    → (serve_element out r (ok el) pins p).status ≡ 206
    → (start : ℤ) × (end : ℤ) × Part out el (serve_element out r (ok el) pins p) start end
unfolding serve_element admit
serve_element-Part out r el size none p same positive h = ground arith
serve_element-Part out r el size (some ps) p same positive h = elim (Bool-cases (authorized ps p)) [
  | inl y ↦ rw (y) (bounded-Part out r el size same positive (ground (arith)))
  | inr n ↦ ground arith
]
