-- ===== src/Serve/Bounds.antt =====
-- internal/serve/serve.go: the positions that `parseRange` answers.
use gophercast.Prelude.{
  ℕ, zero, suc, ◌<◌, ◌≡◌, refl, Bool, true, false, not, ◌&&◌, Option, none, some, [], ◌∷◌, arith,
  Option-cases,
}
use gophercast.Prelude.Int.{ℤ, pos, ◌≤ℤ◌, ◌<ℤ◌, leb_ℤ, ltb_ℤ, int_laws}
use gophercast.Text.{
  Codes, codes, trim_left, trim_right, trim_space, cut_prefix, contains_code, cut, parse_int,
  unsigned, positive?,
}
use gophercast.Serve.Range.{
  Verdict, Range, ignore, single, unsatisfiable, suffix_range, range_until, range_from,
  range_of_parts, range_of_cut, range_of_spec, parse_range,
}

abbrev is_within_as : ℤ → Verdict → ℤ → ℤ → Bool
is_within_as size ignore start end = true
is_within_as size unsatisfiable start end = true
is_within_as size single start end = leb_ℤ (pos 0) start && leb_ℤ start end && ltb_ℤ end size

-- A single range lies within an element of the size.
abbrev is_within : ℤ → Range → Bool
is_within size r = is_within_as size r.verdict r.start r.end

abbrev pub is_natural : Option ℤ → Bool
is_natural none = true
is_natural (some n) = leb_ℤ (pos 0) n

trim_left-lacks :
    (c : ℕ) (s : Codes) → contains_code c s ≡ false → contains_code c (trim_left s) ≡ false
unfolding trim_left
trim_left-lacks c [] h = refl
trim_left-lacks c (d ∷ s) h = ground (arith, trim_left-lacks c s)

trim_right-lacks :
    (c : ℕ) (s : Codes) → contains_code c s ≡ false → contains_code c (trim_right s) ≡ false
unfolding trim_right
trim_right-lacks c [] h = refl
trim_right-lacks c (d ∷ s) h = ground (arith, trim_right-lacks c s)

pub trim_space-lacks :
    (c : ℕ) (s : Codes) → contains_code c s ≡ false → contains_code c (trim_space s) ≡ false
unfolding trim_space
trim_space-lacks c s h = trim_right-lacks c (trim_left s) (trim_left-lacks c s h)

positive?_natural : (n : Option ℕ) → is_natural (positive? n) ≡ true
unfolding positive?
positive?_natural none = refl
positive?_natural (some n) = ground arith

pub parse_int_natural : (s : Codes) → contains_code b'-' s ≡ false → is_natural (parse_int s) ≡ true
unfolding parse_int
parse_int_natural [] h = refl
parse_int_natural (c ∷ s) h =
    ground (arith, positive?_natural (unsigned s), positive?_natural (unsigned (c ∷ s)))

suffix_range_within :
    (n : Option ℤ) (k : ℕ) → is_within (pos (suc k)) (suffix_range n (pos (suc k))) ≡ true
unfolding suffix_range
suffix_range_within none k = refl
suffix_range_within (some n) k = grind int_laws

range_until_within :
    (s : ℤ) (e : Option ℤ) (k : ℕ)
    → pos 0 ≤ℤ s
    → s <ℤ pos (suc k)
    → is_within (pos (suc k)) (range_until s e (pos (suc k))) ≡ true
unfolding range_until
range_until_within s none k p l = refl
range_until_within s (some e) k p l = grind int_laws

range_from_within :
    (s : Option ℤ) (last : Codes) (k : ℕ)
    → is_natural s ≡ true
    → is_within (pos (suc k)) (range_from s last (pos (suc k))) ≡ true
unfolding range_from
range_from_within none last k h = refl
range_from_within (some s) last k h = grind (int_laws, range_until_within s (parse_int last) k)

range_of_parts_within :
    (first last : Codes) (k : ℕ)
    → contains_code b'-' first ≡ false
    → is_within (pos (suc k)) (range_of_parts first last (pos (suc k))) ≡ true
unfolding range_of_parts
range_of_parts_within first last k h = ground (
  arith,
  suffix_range_within (parse_int last) k,
  parse_int_natural first h,
  range_from_within (parse_int first) last k,
)

abbrev pub lacks_before : ℕ → Option (Codes × Codes) → Bool
lacks_before c none = true
lacks_before c (some (before, after)) = not (contains_code c before)

pub cut-lacks : (c : ℕ) (s : Codes) → lacks_before c (cut c s) ≡ true
unfolding cut
cut-lacks c [] = refl
cut-lacks c (d ∷ s) = ground (arith, cut-lacks c s, Option-cases (cut c s))

range_of_cut_within :
    (parts : Option (Codes × Codes)) (k : ℕ)
    → lacks_before b'-' parts ≡ true
    → is_within (pos (suc k)) (range_of_cut parts (pos (suc k))) ≡ true
unfolding range_of_cut
range_of_cut_within none k h = refl
range_of_cut_within (some (first, last)) k h =
    range_of_parts_within (trim_space first) (trim_space last) k
      (trim_space-lacks b'-' first (ground arith))

range_of_spec_within :
    (spec : Option Codes) (k : ℕ)
    → is_within (pos (suc k)) (range_of_spec spec (pos (suc k))) ≡ true
unfolding range_of_spec
range_of_spec_within none k = refl
range_of_spec_within (some spec) k =
    ground (arith, range_of_cut_within (cut b'-' spec) k (cut-lacks b'-' spec))

verdict_within :
    (size : ℤ) (v : Verdict) (start end : ℤ)
    → is_within_as size v start end ≡ true
    → v ≡ single
    → (pos 0 ≤ℤ start) × (start ≤ℤ end) × (end <ℤ size)
verdict_within size ignore start end h v = ground arith
verdict_within size unsatisfiable start end h v = ground arith
verdict_within size single start end h v = ground arith

-- Where a non-empty element is delivered in part, the part begins at 0 or later, does not end before
-- it begins, and ends inside the element.
pub parse_range-bounds :
    (spec : Codes) (size : ℕ)
    → 0 < size
    → (parse_range spec (pos size)).verdict ≡ single
    → (pos 0 ≤ℤ (parse_range spec (pos size)).start)
      × ((parse_range spec (pos size)).start ≤ℤ (parse_range spec (pos size)).end)
      × ((parse_range spec (pos size)).end <ℤ pos size)
unfolding parse_range
parse_range-bounds spec zero p v = ground arith
parse_range-bounds spec (suc k) p v =
    (let r = parse_range spec (pos (suc k)) in
      verdict_within (pos (suc k)) r.verdict r.start r.end
        (range_of_spec_within (cut_prefix (codes "bytes=") (trim_space spec)) k) v)
