-- ===== src/Schemastep/Split.antt =====
-- `SplitStatements` of internal/schemastep/classify.go.
use gophercast.Prelude.{
  ℕ, zero, suc, ◌-◌, Bool, true, false, ◌||◌, Option, none, some, List, [], ◌∷◌, ◌==◌,
  if◌then◌else◌, length,
}
use gophercast.Text.{Codes, codes, is_nil, trim_space, cut_prefix}
use gophercast.Schemastep.Regex.{is_letter}

-- Where the scan stands. `skip n m` and `copy n m` pass over n more characters, without them or with
-- them, and go on as `m`; `dollar` copies up to its tag.
pub data Mode : Type 0 where
  plain line_comment block_comment quoted : Mode
  dollar : Codes → Mode
  skip : ℕ → Mode → Mode
  copy : ℕ → Mode → Mode

-- What a character is: left out, a part of the statement, or its end.
pub data Out : Type 0 where
  drop keep_it finish : Out

-- `strings.HasPrefix(rest, p)`
abbrev pub starts : Codes → Codes → Bool
starts p s = elim (cut_prefix p s) [ none ↦ false | some rest ↦ true ]

-- The letters of a tag up to its `$`, which is included.
unfoldable pub tag_rest : Codes → Option Codes
tag_rest [] = none
tag_rest (c ∷ s) =
    let rest = tag_rest s in
    if c == b'$'
    then some (c ∷ [])
    else if is_letter c || c == b'_'
    then (elim rest [ none ↦ none | some t ↦ some (c ∷ t) ])
    else none

abbrev pub open_dollar : Option Codes → Mode × Out
open_dollar none = (plain, keep_it)
open_dollar (some tag) = (copy (length tag) (dollar (b'$' ∷ tag)), keep_it)

-- One character, with those that follow it.
unfoldable pub scan_plain : ℕ → Codes → Mode × Out
unfolding tag_rest
scan_plain c s =
    if starts (codes "--") (c ∷ s)
    then (line_comment, drop)
    else if starts (codes "/*") (c ∷ s)
    then (skip 1 block_comment, drop)
    else if c == b'\''
    then (quoted, keep_it)
    else if c == b'$'
    then open_dollar (tag_rest s)
    else if c == b';'
    then (plain, finish)
    else (plain, keep_it)

unfoldable pub scan_step : Mode → ℕ → Codes → Mode × Out
unfolding scan_plain
scan_step plain c s = scan_plain c s
scan_step line_comment c s = if c == 10 then (plain, keep_it) else (line_comment, drop)
scan_step block_comment c s =
    if starts (codes "*/") (c ∷ s) then (skip 1 plain, drop) else (block_comment, drop)
scan_step quoted c s =
    if c == b'\''
    then (if starts (b'\'' ∷ []) s then (copy 1 quoted, keep_it) else (plain, keep_it))
    else (quoted, keep_it)
scan_step (dollar tag) c s =
    if starts tag (c ∷ s) then (copy (length tag - 1) plain, keep_it) else (dollar tag, keep_it)
scan_step (skip (suc zero) m) c s = (m, drop)
scan_step (skip (suc (suc n)) m) c s = (skip (suc n) m, drop)
scan_step (skip zero m) c s = (m, drop)
scan_step (copy (suc zero) m) c s = (m, keep_it)
scan_step (copy (suc (suc n)) m) c s = (copy (suc n) m, keep_it)
scan_step (copy zero m) c s = (m, keep_it)

-- The statements behind one that ends here, which is left out if it is blank.
abbrev pub add_statement : Codes → List Codes → List Codes
add_statement s rest = if is_nil (trim_space s) then rest else trim_space s ∷ rest

abbrev pub with_out : Out → ℕ → Codes × List Codes → Codes × List Codes
with_out drop c (s, rest) = (s, rest)
with_out keep_it c (s, rest) = (c ∷ s, rest)
with_out finish c (s, rest) = ([], add_statement s rest)

-- What is left of the current statement, and those after it.
unfoldable pub scan : Mode → Codes → Codes × List Codes
unfolding scan_step
scan m [] = ([], [])
scan m (c ∷ s) = let (next, out) = scan_step m c s in with_out out c (scan next s)

unfoldable pub split_statements : Codes → List Codes
unfolding scan
split_statements sql = let (s, rest) = scan plain sql in add_statement s rest
