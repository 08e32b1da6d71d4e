-- ===== src/Serve/Empty.antt =====
-- internal/serve/serve.go: `parseRange` on an element of no bytes.
use gophercast.Prelude.{◌≡◌, refl, Bool, true, false, ◌&&◌, Option, none, some, arith}
use gophercast.Prelude.Int.{ℤ, pos, negsuc, eqb_ℤ, int_laws}
use gophercast.Text.{Codes, codes, trim_space, cut_prefix, contains_code, cut, parse_int}
use gophercast.Serve.Range.{
  Verdict, Range, ignore, single, unsatisfiable, suffix_range, range_from, range_of_parts,
  range_of_cut, range_of_spec, parse_range,
}
use gophercast.Serve.Bounds.{
  is_natural, lacks_before, parse_int_natural, trim_space-lacks, cut-lacks,
}

abbrev is_inverted_as : Verdict → ℤ → ℤ → Bool
is_inverted_as ignore start end = true
is_inverted_as unsatisfiable start end = true
is_inverted_as single start end = eqb_ℤ start (pos 0) && eqb_ℤ end (negsuc 0)

abbrev is_inverted : Range → Bool
is_inverted r = is_inverted_as r.verdict r.start r.end

suffix_range_inverted : (n : Option ℤ) → is_inverted (suffix_range n (pos 0)) ≡ true
unfolding suffix_range
suffix_range_inverted none = refl
suffix_range_inverted (some n) = grind int_laws

range_from_inverted :
    (s : Option ℤ) (last : Codes)
    → is_natural s ≡ true
    → is_inverted (range_from s last (pos 0)) ≡ true
unfolding range_from
range_from_inverted none last h = refl
range_from_inverted (some s) last h = grind int_laws

range_of_parts_inverted :
    (first last : Codes)
    → contains_code b'-' first ≡ false
    → is_inverted (range_of_parts first last (pos 0)) ≡ true
unfolding range_of_parts
range_of_parts_inverted first last h = ground (
  arith,
  suffix_range_inverted (parse_int last),
  parse_int_natural first h,
  range_from_inverted (parse_int first) last,
)

range_of_cut_inverted :
    (parts : Option (Codes × Codes))
    → lacks_before b'-' parts ≡ true
    → is_inverted (range_of_cut parts (pos 0)) ≡ true
unfolding range_of_cut
range_of_cut_inverted none h = refl
range_of_cut_inverted (some (first, last)) h =
    range_of_parts_inverted (trim_space first) (trim_space last)
      (trim_space-lacks b'-' first (ground arith))

range_of_spec_inverted : (spec : Option Codes) → is_inverted (range_of_spec spec (pos 0)) ≡ true
unfolding range_of_spec
range_of_spec_inverted none = refl
range_of_spec_inverted (some spec) =
    ground (arith, range_of_cut_inverted (cut b'-' spec) (cut-lacks b'-' spec))

verdict_inverted :
    (v : Verdict) (start end : ℤ)
    → is_inverted_as v start end ≡ true
    → v ≡ single
    → (start ≡ pos 0) × (end ≡ negsuc 0)
verdict_inverted ignore start end h v = ground arith
verdict_inverted unsatisfiable start end h v = ground arith
verdict_inverted single start end h v = grind int_laws

-- Where an element without bytes is delivered in part, the part starts at 0 and ends at -1.
pub parse_range-inverted :
    (spec : Codes)
    → (parse_range spec (pos 0)).verdict ≡ single
    → ((parse_range spec (pos 0)).start ≡ pos 0) × ((parse_range spec (pos 0)).end ≡ negsuc 0)
unfolding parse_range
parse_range-inverted spec v =
    (let r = parse_range spec (pos 0) in
      verdict_inverted r.verdict r.start r.end
        (range_of_spec_inverted (cut_prefix (codes "bytes=") (trim_space spec))) v)
