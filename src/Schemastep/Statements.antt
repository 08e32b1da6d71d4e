-- ===== src/Schemastep/Statements.antt =====
-- What `SplitStatements` of internal/schemastep/classify.go makes of scripts.
use gophercast.Prelude.{
  ℕ, ◌≡◌, refl, ◌∙◌, Bool, true, false, not, ◌&&◌, List, [], ◌∷◌, ◌++◌, map, arith, ◌==◌, all, keep,
}
use mathlib.Core.List.{append_assoc}
use gophercast.Text.{Codes, codes, is_nil, trim_space, cut_prefix}
use gophercast.Schemastep.Split.{
  Out, plain, line_comment, block_comment, quoted, starts, scan_plain, scan_step, scan,
  split_statements,
}

-- A character that neither ends a statement nor opens a comment, a string or a dollar quote.
abbrev pub is_plain : ℕ → Bool
is_plain c =
    not (c == b'-')
    && (not (c == b'/') && (not (c == b'\'') && (not (c == b'$') && not (c == b';'))))

-- Plain text; a quoted text; comments up to the end of a line and in between marks.
pub data Piece : Type 0 where
  chars : Codes → Piece
  string : Codes → Piece
  line block : Codes → Piece

-- The text does not close a block comment.
abbrev pub stays_open : Codes → Bool
stays_open [] = true
stays_open (c ∷ s) = not (starts (codes "*/") (c ∷ s)) && stays_open s

abbrev pub is_piece : Piece → Bool
is_piece (chars s) = all is_plain s
is_piece (string s) = all (λ d. not (d == b'\'')) s
is_piece (line s) = all (λ d. not (d == 10)) s
is_piece (block s) = stays_open s

-- The pieces begin with a quoted text.
abbrev pub opens : List Piece → Bool
opens [] = false
opens (chars [] ∷ ps) = opens ps
opens (chars (c ∷ s) ∷ ps) = false
opens (string s ∷ ps) = true
opens (line s ∷ ps) = false
opens (block s ∷ ps) = false

-- No two quoted texts stand side by side, which would be one with a quote in it.
abbrev pub are_apart : List Piece → Bool
are_apart [] = true
are_apart (chars s ∷ ps) = are_apart ps
are_apart (string s ∷ ps) = not (opens ps) && are_apart ps
are_apart (line s ∷ ps) = are_apart ps
are_apart (block s ∷ ps) = are_apart ps

abbrev pub is_text : List Piece → Bool
is_text ps = all is_piece ps && are_apart ps

-- How the piece is written, and what the splitter keeps of it.
abbrev pub written : Piece → Codes → Codes
written (chars s) rest = s ++ rest
written (string s) rest = b'\'' ∷ (s ++ (b'\'' ∷ rest))
written (line s) rest = b'-' ∷ b'-' ∷ (s ++ (10 ∷ rest))
written (block s) rest = b'/' ∷ b'*' ∷ (s ++ (b'*' ∷ b'/' ∷ rest))

abbrev pub kept : Piece → Codes → Codes
kept (chars s) rest = s ++ rest
kept (string s) rest = b'\'' ∷ (s ++ (b'\'' ∷ rest))
kept (line s) rest = 10 ∷ rest
kept (block s) rest = rest

abbrev pub write_all : List Piece → Codes → Codes
write_all [] rest = rest
write_all (p ∷ ps) rest = written p (write_all ps rest)

abbrev pub keep_all : List Piece → Codes → Codes
keep_all [] rest = rest
keep_all (p ∷ ps) rest = kept p (keep_all ps rest)

-- Statements that end with a semicolon each.
abbrev pub script : List (List Piece) → Codes
script [] = []
script (s ∷ ss) = write_all s (b';' ∷ script ss)

abbrev pub statements : List (List Piece) → List Codes
statements ss = keep (λ s. not (is_nil s)) (map (λ ps. trim_space (keep_all ps [])) ss)

abbrev before : Codes → Codes × List Codes → Codes × List Codes
before a (s, rest) = (a ++ s, rest)

plain_step : (c : ℕ) (s : Codes) → is_plain c ≡ true → scan_step plain c s ≡ (plain, Out.keep_it)
unfolding scan_step scan_plain cut_prefix
plain_step c s h = ground arith

scan-plain :
    (s rest : Codes) → all is_plain s ≡ true → scan plain (s ++ rest) ≡ before s (scan plain rest)
unfolding scan
scan-plain [] rest h = refl
scan-plain (c ∷ s) rest h =
    rw (plain_step c (s ++ rest) (ground arith)) (rw (scan-plain s rest (ground arith)))

scan-quoted :
    (s rest : Codes)
    → all (λ d. not (d == b'\'')) s ≡ true
    → starts (b'\'' ∷ []) rest ≡ false
    → scan quoted (s ++ (b'\'' ∷ rest)) ≡ before (s ++ (b'\'' ∷ [])) (scan plain rest)
unfolding scan scan_step
scan-quoted [] rest h k = rw k
scan-quoted (d ∷ s) rest h k =
    let other : (d == b'\'') ≡ false = ground arith in
    rw other (rw (scan-quoted s rest (ground arith) k))

scan-line :
    (s rest : Codes)
    → all (λ d. not (d == 10)) s ≡ true
    → scan line_comment (s ++ (10 ∷ rest)) ≡ before (10 ∷ []) (scan plain rest)
unfolding scan scan_step
scan-line [] rest h = refl
scan-line (d ∷ s) rest h =
    let other : (d == 10) ≡ false = ground arith in rw other (rw (scan-line s rest (ground arith)))

still_open :
    (d : ℕ) (s rest : Codes)
    → starts (codes "*/") (d ∷ s) ≡ false
    → starts (codes "*/") (d ∷ (s ++ (b'*' ∷ b'/' ∷ rest))) ≡ false
unfolding cut_prefix
still_open d [] rest h = ground arith
still_open d (c ∷ s) rest h = ground arith

scan-block :
    (s rest : Codes)
    → stays_open s ≡ true
    → scan block_comment (s ++ (b'*' ∷ b'/' ∷ rest)) ≡ scan plain rest
unfolding scan scan_step cut_prefix
scan-block [] rest h = refl
scan-block (d ∷ s) rest h =
    rw (still_open d s rest (ground arith)) (rw (scan-block s rest (ground arith)))

-- What follows a quoted text is no quote.
opening :
    (ps : List Piece) (rest : Codes)
    → all is_piece ps ≡ true
    → opens ps ≡ false
    → starts (b'\'' ∷ []) rest ≡ false
    → starts (b'\'' ∷ []) (write_all ps rest) ≡ false
unfolding cut_prefix
opening [] rest h k e = e
opening (chars [] ∷ ps) rest h k e = opening ps rest (ground arith) k e
opening (chars (c ∷ s) ∷ ps) rest h k e = ground arith
opening (string s ∷ ps) rest h k e = absurd (cc)
opening (line s ∷ ps) rest h k e = refl
opening (block s ∷ ps) rest h k e = refl

scan-write_all :
    (ps : List Piece) (rest : Codes)
    → all is_piece ps ≡ true
    → are_apart ps ≡ true
    → starts (b'\'' ∷ []) rest ≡ false
    → scan plain (write_all ps rest) ≡ (keep_all ps (scan plain rest).0, (scan plain rest).1)
unfolding scan scan_step scan_plain cut_prefix
scan-write_all [] rest h k e = refl
scan-write_all (chars s ∷ ps) rest h k e =
    scan-plain s (write_all ps rest) (ground arith)
    ∙ rw (scan-write_all ps rest (ground arith) (ground arith) e)
scan-write_all (string s ∷ ps) rest h k e =
    rw
      (scan-quoted s (write_all ps rest) (ground arith)
        (opening ps rest (ground arith) (ground arith) e))
      (rw (scan-write_all ps rest (ground arith) (ground arith) e)
        (rw (append_assoc s (b'\'' ∷ []) (keep_all ps (scan plain rest).0))))
scan-write_all (line s ∷ ps) rest h k e =
    rw (scan-line s (write_all ps rest) (ground arith))
      (rw (scan-write_all ps rest (ground arith) (ground arith) e))
scan-write_all (block s ∷ ps) rest h k e =
    rw (scan-block s (write_all ps rest) (ground arith))
      (rw (scan-write_all ps rest (ground arith) (ground arith) e))

-- The statements of a script, each of plain characters (none of - / ' $ ;), of quoted texts without a
-- quote and not side by side, and of comments of both kinds that end where they are closed first, are
-- those that were written, trimmed and without the blank ones, with comments left out and quoted
-- texts whole, whatever semicolons stand in either.
pub split-script :
    (ss : List (List Piece)) → all is_text ss ≡ true → split_statements (script ss) ≡ statements ss
unfolding split_statements scan scan_step scan_plain cut_prefix trim_space
split-script [] h = refl
split-script (s ∷ ss) h =
    rw (scan-write_all s (b';' ∷ script ss) (ground arith) (ground arith) refl)
      (rw (split-script ss (ground arith)) (ground arith))
