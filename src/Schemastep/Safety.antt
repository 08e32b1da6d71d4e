-- ===== src/Schemastep/Safety.antt =====
-- internal/schemastep/classify.go: which plans `Check` lets through, given how it reads statements.
use gophercast.Text.{Codes, codes, is_nil}
use gophercast.Prelude.{
  ◌≡◌, ◌↔◌, refl, Bool, true, false, not, ◌&&◌, ◌||◌, none, List, [], ◌∷◌, arith, all,
}
use gophercast.Schemastep.Plan.{
  Kind, tx_ddl, guarded_ddl, concurrent_index, batched_dml, StmtClass, reader_safe, metadata_ael,
  rewrite_ael, unknown, Step, Classifier, is_guarded, check_class, check_statements, check_indexes,
  check_step, check,
}

abbrev is_reader_safe : StmtClass → Bool
is_reader_safe reader_safe = true
is_reader_safe _ = false

abbrev is_metadata : StmtClass → Bool
is_metadata metadata_ael = true
is_metadata _ = false

-- The statement may lock out the readers of the serve-read set.
abbrev pub is_exposed : Classifier → StmtClass × Codes → Bool
is_exposed c (class, table) = not (is_reader_safe class) && (is_nil table || c.in_serve_set table)

-- Or it is a metadata change of a known table, in a step with a lock timeout.
abbrev pub is_bounded : Kind → StmtClass × Codes → Bool
is_bounded k (class, table) = is_metadata class && (not (is_nil table) && is_guarded k)

abbrev pub is_safe_statement : Classifier → Kind → StmtClass × Codes → Bool
is_safe_statement c k s = not (is_exposed c s) || is_bounded k s

-- The statements of a step: none of a batched one are read, and those of an index step are all
-- concurrent indexes.
abbrev pub is_safe : Classifier → Kind → Codes → Bool
is_safe c batched_dml sql = true
is_safe c concurrent_index sql = all c.is_concurrent_index (c.split_statements sql)
is_safe c tx_ddl sql = all (λ s. is_safe_statement c tx_ddl (c.classify s)) (c.split_statements sql)
is_safe c guarded_ddl sql =
    all (λ s. is_safe_statement c guarded_ddl (c.classify s)) (c.split_statements sql)

check_class_lem :
    (c : Classifier) (k : Kind) (class : StmtClass) (table : Codes)
    → check_class c k class table ≡ is_safe_statement c k (class, table)
unfolding check_class
check_class_lem c k reader_safe table = ground arith
check_class_lem c k metadata_ael table = ground arith
check_class_lem c k rewrite_ael table = ground arith
check_class_lem c k unknown table = ground arith

check_statements_lem :
    (c : Classifier) (k : Kind) (stmts : List Codes)
    → check_statements c k stmts ≡ all (λ stmt. is_safe_statement c k (c.classify stmt)) stmts
unfolding check_statements
check_statements_lem c k [] = refl
check_statements_lem c k (stmt ∷ stmts) =
    (let (class, table) = c.classify stmt in
      ground (arith, check_class_lem c k class table, check_statements_lem c k stmts))

check_indexes_lem :
    (c : Classifier) (stmts : List Codes) → check_indexes c stmts ≡ all c.is_concurrent_index stmts
unfolding check_indexes
check_indexes_lem c [] = refl
check_indexes_lem c (stmt ∷ stmts) = ground (arith, check_indexes_lem c stmts)

check_step_lem : (c : Classifier) (k : Kind) (sql : Codes) → check_step c k sql ≡ is_safe c k sql
unfolding check_step
check_step_lem c tx_ddl sql = check_statements_lem c tx_ddl (c.split_statements sql)
check_step_lem c guarded_ddl sql = check_statements_lem c guarded_ddl (c.split_statements sql)
check_step_lem c concurrent_index sql = check_indexes_lem c (c.split_statements sql)
check_step_lem c batched_dml sql = refl

-- A plan passes the check exactly if each of its SQL statements is safe: one of an index step is a
-- concurrent index, and any other is reader-safe, or targets a known table off the serve-read set, or is
-- a metadata change of a known table in a guarded step.
pub check-is_safe :
    {D : Type 0} (c : Classifier) (steps : List (Step D))
    → (check c steps ≡ none) ↔ (all (λ s. is_safe c s.kind (codes s.sql)) steps ≡ true)
unfolding check
check-is_safe c [] = ((λ h. refl), (λ h. refl))
check-is_safe c (s ∷ steps) =
    ground (arith, check_step_lem c s.kind (codes s.sql), check-is_safe c steps)
