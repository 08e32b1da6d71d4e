-- ===== src/Serve/Revalidation.antt =====
-- internal/serve/serve.go: the entity tag that `serveElement` emits, sent back in If-None-Match.
use gophercast.Prelude.{
  ℕ, ◌≡◌, refl, sym, ap, ◌∙◌, true, false, Option, some, List, [], ◌∷◌, ◌++◌, arith, Result,
}
use gophercast.Text.{
  eq_codes_refl, split-whole, Codes, is_nil, is_space, trim_left, trim_right, trim_space,
  contains_code, cut_prefix,
}
use gophercast.Serve.Authz.{Principal, PublicationPin}
use gophercast.Serve.Element.{
  Element, LookupError, Request, Outside, etag_of, if_none_match_hits, hits_loop, not_modified,
  deliver, admit, serve_element,
}
use gophercast.Serve.Delivery.{Granted, serve_element-guarded}

is_nil-snoc : (s : Codes) (c : ℕ) → is_nil (s ++ c ∷ []) ≡ false
is_nil-snoc [] c = refl
is_nil-snoc (d ∷ s) c = refl

trim_right-quote : (s : Codes) → trim_right (s ++ b'"' ∷ []) ≡ s ++ b'"' ∷ []
unfolding trim_right is_space
trim_right-quote [] = refl
trim_right-quote (c ∷ s) = rw (trim_right-quote s, is_nil-snoc s b'"') refl

trim_space-etag : (sha : Codes) → trim_space (etag_of sha) ≡ etag_of sha
unfolding trim_space trim_left is_space
trim_space-etag sha = trim_right-quote (b'"' ∷ sha)

-- The tag that is emitted is among the tags of a header that is this tag.
if_none_match_hits-etag :
    (sha : Codes)
    → contains_code b',' (etag_of sha) ≡ false
    → if_none_match_hits (etag_of sha) (etag_of sha) ≡ true
unfolding if_none_match_hits hits_loop cut_prefix
if_none_match_hits-etag sha h =
    rw (split-whole b',' (etag_of sha) h, trim_space-etag sha)
      (ground (arith, eq_codes_refl (etag_of sha)))

abbrev pub with_tag : Request → Codes → Request
with_tag r e = record r { if_none_match = e }

deliver-etag_sent :
    (out : Outside) (r : Request) (el : Element)
    → contains_code b',' (etag_of el.sha256) ≡ false
    → ((deliver out (with_tag r (etag_of el.sha256)) el).status ≡ 304)
      × ((deliver out (with_tag r (etag_of el.sha256)) el).body ≡ [])
unfolding deliver not_modified
deliver-etag_sent out r el h = rw (if_none_match_hits-etag el.sha256 h) (refl, refl)

serve_element-Granted :
    (out : Outside) (r : Request) (found : Result LookupError Element)
    (pins : Option (List PublicationPin)) (p : Principal) (el : Element)
    → Granted found pins p el
    → serve_element out r found pins p ≡ deliver out r el
unfolding serve_element admit
serve_element-Granted out r found pins p el (f, (ps, q, y)) = rw (f, q, y) refl

revalidated :
    (out : Outside) (r : Request) (found : Result LookupError Element)
    (pins : Option (List PublicationPin)) (p : Principal) (e : Codes) (el : Element)
    → e ≡ etag_of el.sha256
    → Granted found pins p el
    → contains_code b',' e ≡ false
    → ((serve_element out (with_tag r e) found pins p).status ≡ 304)
      × ((serve_element out (with_tag r e) found pins p).body ≡ [])
revalidated out r found pins p e el same g c =
    rw (serve_element-Granted out (with_tag r e) found pins p el g, same)
      (deliver-etag_sent out r el (ap (contains_code b',') (sym same) ∙ c))

-- A request that repeats an answered one with the entity tag of the answer in If-None-Match, and
-- whatever other validator and range, is answered 304 without a body, if the tag has no comma.
pub serve_element-revalidates :
    (out : Outside) (r : Request) (found : Result LookupError Element)
    (pins : Option (List PublicationPin)) (p : Principal) (e : Codes)
    → (serve_element out r found pins p).headers.etag ≡ some e
    → contains_code b',' e ≡ false
    → (again : Request)
    → ((serve_element out (with_tag again e) found pins p).status ≡ 304)
      × ((serve_element out (with_tag again e) found pins p).body ≡ [])
serve_element-revalidates out r found pins p e h c again =
    (let (el, same, g) = serve_element-guarded out r found pins p e h in
      revalidated out again found pins p e el same g c)
