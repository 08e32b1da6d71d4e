-- ===== src/Text.antt =====
-- Texts as lists of code points, and what the code uses of Go's `strings` and `strconv` on them.
use Prim.Native.Nat.{compare, Ordering}
use Prim.Native.Char.{Char, char, nul, code}
use mathlib.Core.Bool.{false≢true}
use gophercast.Prelude.{
  ℕ, ◌+◌, ◌-◌, ◌*◌, String, Bool, true, false, ◌&&◌, ◌||◌, Option, none, some, List, [], ◌∷◌, leb,
  ◌==◌, if◌then◌else◌, any, all, ltb, ◌<◌, ◌≡◌, refl, arith,
}
use gophercast.Prelude.Int.{ℤ, pos, sub_ℕ}

abbrev pub Codes : Type 0
Codes = List ℕ

abbrev pub codes : String → Codes
codes String.[] = []
codes (String.◌∷◌ c s) = code c ∷ codes s

abbrev pub eq_codes : Codes → Codes → Bool
eq_codes [] [] = true
eq_codes [] (y ∷ ys) = false
eq_codes (x ∷ xs) [] = false
eq_codes (x ∷ xs) (y ∷ ys) = x == y && eq_codes xs ys

abbrev pub is_nil : Codes → Bool
is_nil [] = true
is_nil (x ∷ xs) = false

-- `unicode.IsSpace`
unfoldable pub is_space : ℕ → Bool
is_space c =
    (leb 9 c && leb c 13)
    || (c == 32
        || (c == 0x85
            || (c == 0xa0
                || (c == 0x1680
                    || ((leb 0x2000 c && leb c 0x200a)
                        || (c == 0x2028
                            || (c == 0x2029 || (c == 0x202f || (c == 0x205f || c == 0x3000)))))))))

unfoldable pub trim_left : Codes → Codes
trim_left [] = []
trim_left (c ∷ s) = if is_space c then trim_left s else c ∷ s

unfoldable pub trim_right : Codes → Codes
trim_right [] = []
trim_right (c ∷ s) = let rest = trim_right s in if is_nil rest && is_space c then [] else c ∷ rest

-- `strings.TrimSpace`
unfoldable pub trim_space : Codes → Codes
unfolding trim_left trim_right is_space
trim_space s = trim_right (trim_left s)

-- `strings.CutPrefix(s, prefix)`
unfoldable pub cut_prefix : Codes → Codes → Option Codes
cut_prefix [] s = some s
cut_prefix (p ∷ ps) [] = none
cut_prefix (p ∷ ps) (c ∷ s) = let rest = cut_prefix ps s in if p == c then rest else none

-- `strings.Contains(s, c)`, for one ASCII character.
abbrev pub contains_code : ℕ → Codes → Bool
contains_code c s = any (λ d. c == d) s

-- `strings.Cut(s, c)`, for one ASCII character.
unfoldable pub cut : ℕ → Codes → Option (Codes × Codes)
cut c [] = none
cut c (d ∷ s) = elim (c == d) [
  | true ↦ some ([], s)
  | false ↦ elim (cut c s) [ none ↦ none | some (before, after) ↦ some (d ∷ before, after) ]
]

-- `strings.Split(s, c)`, for one ASCII character: never empty.
abbrev pub cons_first : ℕ → List Codes → List Codes
cons_first d [] = (d ∷ []) ∷ []
cons_first d (p ∷ ps) = (d ∷ p) ∷ ps

unfoldable pub split : ℕ → Codes → List Codes
split c [] = [] ∷ []
split c (d ∷ s) = let rest = split c s in if c == d then [] ∷ rest else cons_first d rest

unfoldable pub digit? : ℕ → Option ℕ
digit? c = if leb b'0' c && leb c b'9' then some (c - b'0') else none

-- The digits from left to right, behind the value so far; `none` is a syntax error.
unfoldable pub digits_from : ℕ → Codes → Option ℕ
unfolding digit?
digits_from acc [] = some acc
digits_from acc (c ∷ s) = elim (digit? c) [ none ↦ none | some d ↦ digits_from (acc * 10 + d) s ]

unfoldable pub unsigned : Codes → Option ℕ
unfolding digits_from
unsigned [] = none
unsigned (c ∷ s) = digits_from 0 (c ∷ s)

abbrev pub max_int64 : ℕ
max_int64 = 9223372036854775807

-- The sign and the range check: an overflow is an error.
unfoldable pub positive? : Option ℕ → Option ℤ
positive? none = none
positive? (some n) = if leb n max_int64 then some (pos n) else none

unfoldable pub negative? : Option ℕ → Option ℤ
negative? none = none
negative? (some n) = if leb n (max_int64 + 1) then some (sub_ℕ 0 n) else none

-- `strconv.ParseInt(s, 10, 64)`; `none` is any error.
unfoldable pub parse_int : Codes → Option ℤ
unfolding unsigned positive? negative?
parse_int [] = none
parse_int (c ∷ s) =
    if c == b'-'
    then negative? (unsigned s)
    else (if c == b'+' then positive? (unsigned s) else positive? (unsigned (c ∷ s)))

pub eq_codes_refl : (s : Codes) → eq_codes s s ≡ true
eq_codes_refl [] = refl
eq_codes_refl (c ∷ s) = ground (arith, eq_codes_refl s)

pub split-whole : (c : ℕ) (s : Codes) → contains_code c s ≡ false → split c s ≡ s ∷ []
unfolding split
split-whole c [] h = refl
split-whole c (d ∷ s) h = ground (arith, split-whole c s)

abbrev by_order : (n : ℕ) (o : Ordering) → compare n 55296 ≡ o → Char
by_order n Ordering.lt e = char n (rw e tt)
by_order n Ordering.eq e = nul
by_order n Ordering.gt e = nul

-- The character with this code, which is to be below the surrogates.
unfoldable pub to_char : ℕ → Char
to_char n = by_order n (compare n 55296) refl

-- A text of such characters.
unfoldable pub text_of : Codes → String
unfolding to_char
text_of [] = ""
text_of (c ∷ s) = String.◌∷◌ (to_char c) (text_of s)

code-by_order :
    (n : ℕ) (o : Ordering) (e : compare n 55296 ≡ o) → n < 55296 → code (by_order n o e) ≡ n
code-by_order n Ordering.lt e h = refl
code-by_order n Ordering.eq e h =
    let less : ltb n 55296 ≡ true = ground arith in absurd (false≢true (rw (e, ltb) at less))
code-by_order n Ordering.gt e h =
    let less : ltb n 55296 ≡ true = ground arith in absurd (false≢true (rw (e, ltb) at less))

pub codes-text_of :
    (p : ℕ → Bool) (s : Codes)
    → ((c : ℕ) → p c ≡ true → c < 55296)
    → all p s ≡ true
    → codes (text_of s) ≡ s
unfolding text_of to_char
codes-text_of p [] low h = refl
codes-text_of p (c ∷ s) low h =
    rw
      (
        code-by_order c (compare c 55296) refl (low c (ground arith)),
        codes-text_of p s low (ground arith),
      )
      refl
