-- ===== src/Serve/Range.antt =====
-- internal/serve/serve.go: `parseRange`, over signed 64-bit positions.
use gophercast.Prelude.{not, ◌&&◌, Option, none, some, if◌then◌else◌}
use gophercast.Prelude.Int.{ℤ, pos, ◌-ℤ◌, leb_ℤ, ltb_ℤ}
use gophercast.Text.{Codes, codes, is_nil, trim_space, cut_prefix, contains_code, cut, parse_int}

pub data Verdict : Type 0 where
  ignore single unsatisfiable : Verdict

pub record Range : Type 0 where
  pub start : ℤ
  pub end : ℤ
  pub verdict : Verdict

abbrev pub without : Verdict → Range
without v = record { start = pos 0; end = pos 0; verdict = v }

abbrev pub from_to : ℤ → ℤ → Range
from_to s e = record { start = s; end = e; verdict = single }

-- `bytes=-n`, with the parsed n: the last n bytes.
unfoldable pub suffix_range : Option ℤ → ℤ → Range
suffix_range none size = without ignore
suffix_range (some n) size =
    if leb_ℤ n (pos 0)
    then without ignore
    else (let n' = if ltb_ℤ size n then size else n in from_to (size -ℤ n') (size -ℤ pos 1))

-- `bytes=a-b`, with the parsed b.
unfoldable pub range_until : ℤ → Option ℤ → ℤ → Range
range_until s none size = without ignore
range_until s (some e) size =
    if ltb_ℤ e s
    then without ignore
    else from_to s (if ltb_ℤ (size -ℤ pos 1) e then size -ℤ pos 1 else e)

-- `bytes=a-` and `bytes=a-b`, with the parsed a.
unfoldable pub range_from : Option ℤ → Codes → ℤ → Range
unfolding range_until
range_from none last size = without ignore
range_from (some s) last size =
    if leb_ℤ size s
    then without unsatisfiable
    else (if is_nil last then from_to s (size -ℤ pos 1) else range_until s (parse_int last) size)

-- The `switch`, on the trimmed parts before and behind the first dash.
unfoldable pub range_of_parts : Codes → Codes → ℤ → Range
unfolding suffix_range range_from
range_of_parts first last size =
    if is_nil first && not (is_nil last)
    then suffix_range (parse_int last) size
    else (if not (is_nil first) then range_from (parse_int first) last size else without ignore)

unfoldable pub range_of_cut : Option (Codes × Codes) → ℤ → Range
unfolding range_of_parts
range_of_cut none size = without ignore
range_of_cut (some (first, last)) size = range_of_parts (trim_space first) (trim_space last) size

unfoldable pub range_of_spec : Option Codes → ℤ → Range
unfolding range_of_cut
range_of_spec none size = without ignore
range_of_spec (some spec) size =
    if contains_code b',' spec then without ignore else range_of_cut (cut b'-' spec) size

unfoldable pub parse_range : Codes → ℤ → Range
unfolding range_of_spec
parse_range spec size = range_of_spec (cut_prefix (codes "bytes=") (trim_space spec)) size
