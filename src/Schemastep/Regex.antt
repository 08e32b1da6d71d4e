-- ===== src/Schemastep/Regex.antt =====
-- The regular expressions that internal/schemastep/classify.go uses, as Go's regexp reads them: each
-- gives its matches at the start of a text in the order of preference, as what is matched and what
-- follows. Letters match in either case, and `.` matches line feeds. Texts are ASCII.
use gophercast.Prelude.{
  ℕ, ◌+◌, Bool, true, false, not, ◌&&◌, ◌||◌, Option, none, some, List, [], ◌∷◌, ◌++◌, leb, ◌==◌,
  if◌then◌else◌, String,
}
use gophercast.Text.{Codes, codes}

abbrev pub Re : Type 0
Re = Codes → List (Codes × Codes)

-- `strings.ToLower`, on one character.
unfoldable pub to_lower : ℕ → ℕ
to_lower c = if leb b'A' c && leb c b'Z' then c + 32 else c

abbrev pub is_digit : ℕ → Bool
is_digit c = leb b'0' c && leb c b'9'

abbrev pub is_letter : ℕ → Bool
is_letter c = (leb b'a' c && leb c b'z') || (leb b'A' c && leb c b'Z')

-- `\w`
unfoldable pub is_word : ℕ → Bool
is_word c = is_letter c || (is_digit c || c == b'_')

-- `\s`
unfoldable pub is_blank : ℕ → Bool
is_blank c = c == 9 || (c == 10 || (c == 12 || (c == 13 || c == 32)))

-- `[\w."]`
unfoldable pub is_name : ℕ → Bool
unfolding is_word
is_name c = is_word c || (c == b'.' || c == b'"')

-- `[\w"]`
unfoldable pub is_column : ℕ → Bool
unfolding is_word
is_column c = is_word c || c == b'"'

abbrev pub prefix_each : Codes → List (Codes × Codes) → List (Codes × Codes)
prefix_each a [] = []
prefix_each a ((b, s) ∷ ms) = (a ++ b, s) ∷ prefix_each a ms

abbrev pub then_each : Re → List (Codes × Codes) → List (Codes × Codes)
then_each r [] = []
then_each r ((a, s) ∷ ms) = prefix_each a (r s) ++ then_each r ms

infixr 30 ◌▷◌
abbrev pub ◌▷◌ : Re → Re → Re
◌▷◌ r q s = then_each q (r s)

-- `(?:r)?`
abbrev pub optional : Re → Re
optional r s = r s ++ ([], s) ∷ []

-- `(?:r|q)`
abbrev pub either : Re → Re → Re
either r q s = r s ++ q s

-- A class of characters, one or more, or any number, as many as there are.
unfoldable pub any_of : (ℕ → Bool) → Re
any_of p [] = ([], []) ∷ []
any_of p (c ∷ s) =
    let more = prefix_each (c ∷ []) (any_of p s) in
    if p c then more ++ ([], c ∷ s) ∷ [] else ([], c ∷ s) ∷ []

unfoldable pub some_of : (ℕ → Bool) → Re
unfolding any_of
some_of p [] = []
some_of p (c ∷ s) = if p c then prefix_each (c ∷ []) (any_of p s) else []

abbrev pub one_of : (ℕ → Bool) → Re
one_of p [] = []
one_of p (c ∷ s) = if p c then (c ∷ [], s) ∷ [] else []

abbrev pub cons_all : ℕ → List (Codes × Codes) → List (Codes × Codes)
cons_all c ms = prefix_each (c ∷ []) ms

-- A word of the pattern, written in lower case.
unfoldable pub lit : Codes → Re
unfolding to_lower
lit [] s = ([], s) ∷ []
lit (p ∷ ps) [] = []
lit (p ∷ ps) (c ∷ s) = let rest = cons_all c (lit ps s) in if p == to_lower c then rest else []

abbrev pub word : String → Re
word w = lit (codes w)

-- `\s+` and `\s*`
abbrev pub blanks : Re
blanks = some_of is_blank

abbrev pub blanks? : Re
blanks? = any_of is_blank

-- `\b` behind a word character.
abbrev pub word_end : Re
word_end [] = ([], []) ∷ []
word_end (c ∷ s) = if is_word c then [] else ([], c ∷ s) ∷ []

-- `.*?`, up to a place that passes the test on the character before it.
unfoldable pub lazily : (ℕ → Bool) → Re
lazily p [] = []
lazily p (c ∷ s) = let more = cons_all c (lazily p s) in if p c then (c ∷ [], s) ∷ more else more

abbrev pub matched : List (Codes × Codes) → Bool
matched [] = false
matched (m ∷ ms) = true

-- `r(g)q`: what the group is, and what follows `q`, in the first match of all three.
abbrev pub behind_group : Re → List (Codes × Codes) → Option (Codes × Codes)
behind_group q [] = none
behind_group q ((g, s) ∷ ms) = elim (q s) [
  | [] ↦ behind_group q ms
  | (b, rest) ∷ bs ↦ some (g, rest)
]

abbrev pub group_of : Re → Re → List (Codes × Codes) → Option (Codes × Codes)
group_of g q [] = none
group_of g q ((a, s) ∷ ms) = elim (behind_group q (g s)) [
  | none ↦ group_of g q ms
  | some m ↦ some m
]

abbrev pub capture : Re → Re → Re → Codes → Option (Codes × Codes)
capture r g q s = group_of g q (r s)

abbrev pub nothing : Re
nothing s = ([], s) ∷ []

-- `\br`, anywhere in the text; the flag says that the character before is a word's.
unfoldable pub search_from : Re → Bool → Codes → Bool
search_from r inside [] = false
search_from r inside (c ∷ s) = (not inside && matched (r (c ∷ s))) || search_from r (is_word c) s

abbrev pub occurs : Re → Codes → Bool
occurs r s = search_from r false s
