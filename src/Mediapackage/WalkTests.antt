-- ===== src/Mediapackage/WalkTests.antt =====
-- The walk of the sha256 backfill over a small table.
use Prim.Native.Char.{code}
use mathlib.Core.Path.{◌≡◌, refl, ap₂}
use text.Mathlib.TextEquality.{Char-path}
use gophercast.Prelude.{
  ℕ, suc, ◌/◌, String, Bool, true, false, ◌&&◌, ◌||◌, Option, none, some, List, [], ◌∷◌, ok, arith,
  ltb, ◌==◌, length,
}
use gophercast.Prelude.Ordered.{IsCollation, insert_text, max_text}
use gophercast.Search.Rows.{Element}
use gophercast.Schemastep.Plan.{StepError}
use gophercast.Schemastep.Runner.{World, Outside, absent, run_batches}
use gophercast.Mediapackage.Backfill.{Walk, batch_size, backfill_batch, backfill_step, at_start}
use gophercast.Mediapackage.Walked.{IsWalked, backfill_ends}

-- The order of the collation "C" on texts: by their characters.
abbrev before : String → String → Bool
before s String.[] = false
before String.[] (String.◌∷◌ d t) = true
before (String.◌∷◌ c s) (String.◌∷◌ d t) = ltb (code c) (code d) || (code c == code d && before s t)

before_irreflexive : (a : String) → before a a ≡ false
before_irreflexive String.[] = refl
before_irreflexive (String.◌∷◌ c s) = ground (arith, before_irreflexive s)

before_transitive : (a b c : String) → before a b ≡ true → before b c ≡ true → before a c ≡ true
before_transitive a String.[] c h k = absurd (cc)
before_transitive a (String.◌∷◌ y t) String.[] h k = absurd (cc)
before_transitive String.[] (String.◌∷◌ y t) (String.◌∷◌ z u) h k = refl
before_transitive (String.◌∷◌ x s) (String.◌∷◌ y t) (String.◌∷◌ z u) h k =
    ground (arith, before_transitive s t u)

before_total : (a b : String) → before a b ≡ false → before b a ≡ false → a ≡ b
before_total String.[] String.[] h k = refl
before_total String.[] (String.◌∷◌ y t) h k = absurd (cc)
before_total (String.◌∷◌ x s) String.[] h k = absurd (cc)
before_total (String.◌∷◌ x s) (String.◌∷◌ y t) h k =
    let same : code x ≡ code y = ground arith in
    ap₂ (λ c u. String.◌∷◌ c u) (Char-path x y same)
      (before_total s t (ground (arith, same)) (ground (arith, same)))

bytewise : IsCollation before
bytewise = record {
  irreflexive = before_irreflexive;
  transitive = before_transitive;
  total = before_total;
}

abbrev element : String → Element
element id = record {
  id = id;
  mediapackage_id = "m1";
  kind = "track";
  flavor = "presenter/source";
  mimetype = none;
  sha256 = "d-1";
  size_bytes = 2;
  source_url = none;
}

abbrev table : List Element
table = element "b" ∷ element "a" ∷ element "c" ∷ []

abbrev answers : Outside Walk
answers = record {
  sha = λ sql. sql;
  exec = λ i sql d. ok d;
  commit = λ i. none;
  is_done = λ i. false;
  exec_plain = λ sql d. (d, none);
  index_state = λ name d. ok absent;
  drop_index = λ name d. ok d;
  record_error = none;
  prepare_error = none;
}

abbrev never : ℕ → Option StepError
never i = none

-- With two rows in a batch.
walk_of_three :
    let (w, r) = backfill_batch before never 2 (at_start table) in
    let (v, q) = backfill_batch before never 2 w in
    (w.updates ≡ ("a" ∷ "b" ∷ []) ∷ [])
    × (v.updates ≡ ("a" ∷ "b" ∷ []) ∷ ("c" ∷ []) ∷ [])
    × (backfill_batch before never 2 v ≡ (v, ok true))
unfolding backfill_batch insert_text max_text
walk_of_three = (refl, refl, refl)

backfill_ends_example :
    let w : World Walk = record { schema = at_start table; ledger = [] } in
    let step = backfill_step before never in
    (p : World Walk × Option StepError) × (run_batches answers "mediapackage"
        (suc (suc (length table / batch_size)))
        step
        ""
        w
      ≡ some p)
    × IsWalked before batch_size table p
backfill_ends_example =
    backfill_ends before never table answers "mediapackage" "" [] bytewise refl
      (refl, (refl, (refl, tt)))
