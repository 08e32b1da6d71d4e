-- ===== src/Schemastep/Tests.antt =====
-- A small plan, and the theorems about internal/schemastep at it.
use gophercast.Text.{codes, trim_space, cut_prefix}
use gophercast.Prelude.{
  ℕ, zero, suc, ◌+◌, ◌≡◌, ◌<◌, refl, String, Bool, true, false, Option, none, some, List, [], ◌∷◌,
  ◌++◌, Result, ok, err, arith, all, if◌then◌else◌, leb,
}
use gophercast.Schemastep.Split.{split_statements}
use gophercast.Schemastep.Classify.{contains_table, classify_alter_action, classify_statement}
use gophercast.Schemastep.Regex.{to_lower, is_word, is_blank, is_name, is_column, search_from}
use gophercast.Schemastep.Statements.{Piece, script, statements, split-script}
use gophercast.Schemastep.Checker.{source_classifier}
use gophercast.Schemastep.Safety.{check-is_safe}
use gophercast.Schemastep.ServeRole.{
  Catalog, Call, CallError, create_role, duplicate_object, ensure_role,
}
use gophercast.Schemastep.Plan.{
  Kind, tx_ddl, refused, guarded_ddl, batched_dml, StepError, lock_timeout, Step, Classifier,
  reader_safe, check,
}
use gophercast.Schemastep.Runner.{LedgerRow, World, Outside, Ended, absent, run_tx_ddl, run}
use gophercast.Schemastep.Transaction.{Atomic, run_tx_ddl-Atomic}
use gophercast.Schemastep.Again.{is_recorded, missing}
use gophercast.Schemastep.Rerun.{run-is_recorded, run-again}

-- The database is the number of rows that a backfill has still to visit.
abbrev batch : ℕ → ℕ × Result StepError Bool
batch zero = (0, ok true)
batch (suc d) = (d, ok false)

abbrev create : Step ℕ
create = record {
  n = 0;
  name = "baseline";
  kind = guarded_ddl;
  sql = "create";
  index = "";
  batch = batch;
}

abbrev backfill : Step ℕ
backfill = record {
  n = 1;
  name = "backfill";
  kind = batched_dml;
  sql = "";
  index = "";
  batch = batch;
}

abbrev plan : List (Step ℕ)
plan = create ∷ backfill ∷ []

abbrev classifier : Classifier
classifier = record {
  split_statements = λ sql. sql ∷ [];
  classify = λ stmt. (reader_safe, []);
  is_concurrent_index = λ stmt. false;
  in_serve_set = λ table. false;
}

-- The first two attempts meet a long reader.
abbrev answer : ℕ → String → ℕ → Result StepError ℕ
answer i sql d = if leb i 1 then err lock_timeout else ok (d + 2)

abbrev out : Outside ℕ
out = record {
  sha = λ sql. sql;
  exec = answer;
  commit = λ i. none;
  is_done = λ i. false;
  exec_plain = λ sql d. (d, none);
  index_state = λ name d. ok absent;
  drop_index = λ name d. ok d;
  record_error = none;
  prepare_error = none;
}

abbrev fresh : World ℕ
fresh = record { schema = 0; ledger = [] }

abbrev migrated : World ℕ
migrated = record {
  schema = 0;
  ledger =
      record { package_name = "acl"; step = 0; name = "baseline"; sha256 = "create" }
      ∷ record { package_name = "acl"; step = 1; name = "backfill"; sha256 = "" }
      ∷ [];
}

abbrev ended : Ended ℕ
ended = record { world = migrated; executed = 2; error = none }

ran : run out "acl" classifier 5 plan fresh ≡ some ended
unfolding run check
ran = refl

run-is_recorded_example :
    (2 ≡ missing out "acl" [] plan)
    × ((extra : List LedgerRow) × (migrated.ledger ≡ [] ++ extra))
    × (all (is_recorded out "acl" migrated.ledger) plan ≡ true)
run-is_recorded_example = run-is_recorded out "acl" classifier 5 plan fresh ended refl ran refl

run-again_example :
    run out "acl" classifier 1 plan migrated
    ≡ some (record { world = migrated; executed = 0; error = none })
run-again_example = run-again out out "acl" classifier 5 1 plan fresh ended refl ran refl refl refl

run_tx_ddl-Atomic_example :
    Atomic out "acl" 20 create "create" fresh (run_tx_ddl out "acl" true create "create" fresh)
run_tx_ddl-Atomic_example = run_tx_ddl-Atomic out "acl" true create "create" fresh

lessens : (d : ℕ) → (batch d).1 ≡ ok false → (batch d).0 < d
lessens zero h = ground arith
lessens (suc d) h = omega arith

abbrev pieces : List (List Piece)
pieces =
    (Piece.line (codes "a; b")
      ∷ Piece.chars (codes "select ")
      ∷ Piece.string (codes "x;y")
      ∷ Piece.block (codes " * ; *")
      ∷ Piece.string (codes "z")
      ∷ [])
    ∷ (Piece.chars (codes " ") ∷ [])
    ∷ []

split-script_example : split_statements (script pieces) ≡ statements pieces
unfolding cut_prefix
split-script_example = split-script pieces refl

-- A plan that adds a column to a table of the serve-read set without guard, and one that does it well.
abbrev widen : Kind → Step ℕ
widen k = record {
  n = 2;
  name = "widen";
  kind = k;
  sql = "alter table mp_element add column blurb text;";
  index = "";
  batch = batch;
}

bare : check source_classifier (widen tx_ddl ∷ []) ≡ some (refused 2)
unfolding check split_statements trim_space cut_prefix classify_statement is_blank is_name
    search_from is_column contains_table
bare = refl

guarded : check source_classifier (widen guarded_ddl ∷ []) ≡ none
unfolding split_statements trim_space cut_prefix classify_statement is_blank is_name search_from
    is_column contains_table
guarded = (check-is_safe source_classifier (widen guarded_ddl ∷ [])).1 refl

-- Several actions in one statement, of which one needs the strong lock.
several : classify_alter_action (codes "validate constraint c, add unique (x)") ≡ reader_safe
unfolding classify_alter_action search_from is_blank is_column is_word to_lower cut_prefix
several = refl

-- A schema with two tables of the set, where another replica creates the role first, and whose later
-- calls all succeed.
abbrev catalog : Catalog
catalog = record {
  role_exists = false;
  has_usage = false;
  tables = codes "publication" ∷ codes "task" ∷ codes "mp_element" ∷ [];
  granted = [];
}

abbrev lost_race : Call → Option CallError
lost_race call = elim call [ create_role ↦ some duplicate_object | _ ↦ none ]

granted_both : ensure_role lost_race catalog ≡ (
  none,
  record catalog {
    role_exists = true;
    has_usage = true;
    granted = codes "publication" ∷ codes "mp_element" ∷ [];
  },
)
unfolding ensure_role
granted_both = refl
