-- ===== src/Schemastep/Plan.antt =====
-- internal/schemastep: the steps of a plan, and `Check` of classify.go.
use gophercast.Text.{Codes, codes, is_nil}
use gophercast.Prelude.{
  ℕ, String, Bool, true, false, not, ◌&&◌, ◌||◌, Option, none, some, List, [], ◌∷◌, Result,
  if◌then◌else◌,
}

pub data Kind : Type 0 where
  tx_ddl guarded_ddl concurrent_index batched_dml : Kind

-- What can go wrong; `refused` is a plan that fails `Check` at a step, `edited` an applied step whose
-- SQL changed, `still_blocked` a guarded step that is out of attempts.
pub data StepError : Type 0 where
  lock_timeout unique_violation no_index_name still_blocked cancelled : StepError
  database : String → StepError
  refused edited : ℕ → StepError

-- `D` is the database but for the ledger; `batch` is one bounded batch, which says whether it was the last.
pub record Step (D : Type 0) : Type 0 where
  pub n : ℕ
  pub name : String
  pub kind : Kind
  pub sql : String
  pub index : String
  pub batch : D → D × Result StepError Bool

pub data StmtClass : Type 0 where
  reader_safe metadata_ael rewrite_ael unknown : StmtClass

-- The parts of `Check` that read SQL: the splitter, the lock class with the table that a statement
-- targets (empty if it cannot be told), the pattern of a concurrent index, and the serve-read set.
pub record Classifier : Type 0 where
  pub split_statements : Codes → List Codes
  pub classify : Codes → StmtClass × Codes
  pub is_concurrent_index : Codes → Bool
  pub in_serve_set : Codes → Bool

abbrev pub is_guarded : Kind → Bool
is_guarded guarded_ddl = true
is_guarded _ = false

module _ (c : Classifier) where
  -- One statement of a DDL step.
  unfoldable pub check_class : Kind → StmtClass → Codes → Bool
  check_class k reader_safe table = true
  check_class k metadata_ael table =
      if is_nil table
      then false
      else (if (not (is_nil table) && c.in_serve_set table) && not (is_guarded k)
          then false
          else true)
  check_class k rewrite_ael table =
      if is_nil table
      then false
      else (if not (is_nil table) && c.in_serve_set table then false else true)
  check_class k unknown table =
      if is_nil table || (not (is_nil table) && c.in_serve_set table) then false else true

  abbrev pub check_statement : Kind → StmtClass × Codes → Bool
  check_statement k (class, table) = check_class k class table

  unfoldable pub check_statements : Kind → List Codes → Bool
  unfolding check_class
  check_statements k [] = true
  check_statements k (stmt ∷ stmts) =
      let rest = check_statements k stmts in
      if check_statement k (c.classify stmt) then rest else false

  unfoldable pub check_indexes : List Codes → Bool
  check_indexes [] = true
  check_indexes (stmt ∷ stmts) =
      let rest = check_indexes stmts in if not (c.is_concurrent_index stmt) then false else rest

  unfoldable pub check_step : Kind → Codes → Bool
  unfolding check_statements check_indexes
  check_step batched_dml sql = true
  check_step concurrent_index sql = check_indexes (c.split_statements sql)
  check_step tx_ddl sql = check_statements tx_ddl (c.split_statements sql)
  check_step guarded_ddl sql = check_statements guarded_ddl (c.split_statements sql)

module _ {D : Type 0} (c : Classifier) where
  unfoldable pub check : List (Step D) → Option StepError
  unfolding check_step
  check [] = none
  check (s ∷ steps) =
      let rest = check steps in
      if check_step c s.kind (codes s.sql) then rest else some (refused s.n)
