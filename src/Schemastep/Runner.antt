-- ===== src/Schemastep/Runner.antt =====
-- internal/schemastep/schemastep.go: `Run` and what it runs. Another runner is excluded by the advisory
-- lock for as long as the run lasts.
use gophercast.Prelude.{
  ℕ, zero, suc, ◌+◌, String, Bool, true, false, not, ◌&&◌, ◌||◌, Option, none, some, List, [], ◌∷◌,
  ◌++◌, ◌==◌, Result, ok, err, str_eq, if◌then◌else◌, any, find?,
}
use gophercast.Schemastep.Plan.{
  Kind, tx_ddl, guarded_ddl, concurrent_index, batched_dml, StepError, lock_timeout,
  unique_violation, no_index_name, still_blocked, cancelled, edited, Step, Classifier, check,
}

pub record LedgerRow : Type 0 where
  pub package_name : String
  pub step : ℕ
  pub name : String
  pub sha256 : String

pub record World (D : Type 0) : Type 0 where
  pub schema : D
  pub ledger : List LedgerRow

pub data IndexState : Type 0 where
  absent valid invalid : IndexState

-- The hash, and what the database answers in this run: SQL in a transaction (by attempt), whether an
-- attempt's commit fails, whether the context ends before an attempt, SQL outside a transaction, which
-- may fail halfway, the catalogue, the drop of an index, whether a ledger row can be
-- written, and what may fail before the steps: the lock, and the ledger's table and its rows.
pub record Outside (D : Type 0) : Type 0 where
  pub sha : String → String
  pub exec : ℕ → String → D → Result StepError D
  pub commit : ℕ → Option StepError
  pub is_done : ℕ → Bool
  pub exec_plain : String → D → D × Option StepError
  pub index_state : String → D → Result StepError IndexState
  pub drop_index : String → D → Result StepError D
  pub record_error : Option StepError
  pub prepare_error : Option StepError

abbrev pub is_batched : Kind → Bool
is_batched batched_dml = true
is_batched _ = false

abbrev pub row_of : String → ℕ → LedgerRow → Bool
row_of pkg n r = str_eq r.package_name pkg && r.step == n

abbrev pub is_lock_timeout : StepError → Bool
is_lock_timeout lock_timeout = true
is_lock_timeout _ = false

abbrev pub guard_attempts : ℕ
guard_attempts = 20

-- How the run ends: the steps executed, and the error.
pub record Ended (D : Type 0) : Type 0 where
  pub world : World D
  pub executed : ℕ
  pub error : Option StepError

module _ {D : Type 0} (out : Outside D) (pkg : String) where
  abbrev pub new_row : Step D → String → LedgerRow
  new_row s sum = record { package_name = pkg; step = s.n; name = s.name; sha256 = sum }

  -- `stepSHA`
  abbrev pub step_sha : Step D → String
  step_sha s = if is_batched s.kind then "" else out.sha s.sql

  abbrev pub committed : Option StepError → World D → World D → World D × Option StepError
  committed none w after = (after, none)
  committed (some e) w after = (w, some e)

  -- The insert into the ledger, under its unique constraint, and the commit.
  abbrev pub insert_row :
      ℕ → Step D → String → World D → Result StepError D → World D × Option StepError
  insert_row i s sum w (err e) = (w, some e)
  insert_row i s sum w (ok schema) =
      if any (row_of pkg s.n) w.ledger
      then (w, some unique_violation)
      else committed (out.commit i) w
          (record { schema = schema; ledger = w.ledger ++ new_row s sum ∷ [] })

  -- One transaction.
  unfoldable pub attempt_tx : ℕ → Step D → String → World D → World D × Option StepError
  attempt_tx i s sum w = insert_row i s sum w (out.exec i s.sql w.schema)

  -- Whether an attempt is final, or another one follows.
  abbrev pub or_retry :
      Bool → World D × Option StepError → World D × Option StepError → World D × Option StepError
  or_retry guarded (w, none) next = (w, none)
  or_retry guarded (w, some e) next =
      if not guarded || not (is_lock_timeout e) then (w, some e) else next

  -- The attempts that are left, behind the first i.
  unfoldable pub attempts_tx : Bool → ℕ → ℕ → Step D → String → World D → World D × Option StepError
  unfolding attempt_tx
  attempts_tx guarded zero i s sum w = (w, some still_blocked)
  attempts_tx guarded (suc left) i s sum w =
      let next = attempts_tx guarded left (i + 1) s sum w in
      if not (i == 0) && out.is_done i
      then (w, some cancelled)
      else or_retry guarded (attempt_tx i s sum w) next

  unfoldable pub run_tx_ddl : Bool → Step D → String → World D → World D × Option StepError
  unfolding attempts_tx
  run_tx_ddl guarded s sum w = attempts_tx guarded (if guarded then guard_attempts else 1) 0 s sum w

  -- `recordStep`: on a conflict nothing is written.
  abbrev pub record_row : Option StepError → Step D → String → World D → World D × Option StepError
  record_row (some e) s sum w = (w, some e)
  record_row none s sum w =
      if any (row_of pkg s.n) w.ledger
      then (w, none)
      else (record w { ledger = w.ledger ++ new_row s sum ∷ [] }, none)

  unfoldable pub record_step : Step D → String → World D → World D × Option StepError
  record_step s sum w = record_row out.record_error s sum w

  abbrev pub built : D × Option StepError → Step D → String → World D → World D × Option StepError
  built (schema, some e) s sum w = (record w { schema = schema }, some e)
  built (schema, none) s sum w = record_step s sum (record w { schema = schema })

  abbrev pub dropped : Result StepError D → Step D → String → World D → World D × Option StepError
  dropped (err e) s sum w = (w, some e)
  dropped (ok schema) s sum w = built (out.exec_plain s.sql schema) s sum w

  abbrev pub by_state :
      Result StepError IndexState → Step D → String → World D → World D × Option StepError
  by_state (err e) s sum w = (w, some e)
  by_state (ok invalid) s sum w = dropped (out.drop_index s.index w.schema) s sum w
  by_state (ok absent) s sum w = built (out.exec_plain s.sql w.schema) s sum w
  by_state (ok valid) s sum w = record_step s sum w

  unfoldable pub run_concurrent_index : Step D → String → World D → World D × Option StepError
  unfolding record_step
  run_concurrent_index s sum w =
      if str_eq s.index ""
      then (w, some no_index_name)
      else by_state (out.index_state s.index w.schema) s sum w

  -- What follows a batch: the next, or the record of the step.
  abbrev pub batched :
      D × Result StepError Bool
      → Step D
      → String
      → World D
      → Option (World D × Option StepError)
      → Option (World D × Option StepError)
  batched (schema, err e) s sum w next = some (record w { schema = schema }, some e)
  batched (schema, ok true) s sum w next = some (record_step s sum (record w { schema = schema }))
  batched (schema, ok false) s sum w next = next

  -- `none` is a loop that is cut off after as many batches as there is fuel.
  unfoldable pub run_batches : ℕ → Step D → String → World D → Option (World D × Option StepError)
  unfolding record_step
  run_batches zero s sum w = none
  run_batches (suc fuel) s sum w =
      let next = run_batches fuel s sum (record w { schema = (s.batch w.schema).0 }) in
      batched (s.batch w.schema) s sum w next

  unfoldable pub run_step :
      ℕ → Kind → Step D → String → World D → Option (World D × Option StepError)
  unfolding run_tx_ddl run_concurrent_index run_batches
  run_step fuel tx_ddl s sum w = some (run_tx_ddl false s sum w)
  run_step fuel guarded_ddl s sum w = some (run_tx_ddl true s sum w)
  run_step fuel concurrent_index s sum w = some (run_concurrent_index s sum w)
  run_step fuel batched_dml s sum w = run_batches fuel s sum w

  abbrev pub after_step :
      ℕ → Option (World D × Option StepError) → (World D → Option (Ended D)) → Option (Ended D)
  after_step done none rest = none
  after_step done (some (w, some e)) rest =
      some (record { world = w; executed = done; error = some e })
  after_step done (some (w, none)) rest = rest w

  abbrev pub if_applied :
      Option LedgerRow
      → Step D
      → String
      → Option (Ended D)
      → Option (Ended D)
      → Option (Ended D)
      → Option (Ended D)
  if_applied none s sum failed skipped run = run
  if_applied (some r) s sum failed skipped run =
      if not (is_batched s.kind) && not (str_eq r.sha256 sum) then failed else skipped

  -- The loop over the steps; `applied` is the ledger as it was read before.
  unfoldable pub run_steps : ℕ → List LedgerRow → List (Step D) → ℕ → World D → Option (Ended D)
  unfolding run_step
  run_steps fuel applied [] done w = some (record { world = w; executed = done; error = none })
  run_steps fuel applied (s ∷ steps) done w =
      let skipped = run_steps fuel applied steps done w in
      if_applied (find? (row_of pkg s.n) applied) s (step_sha s)
        (some (record { world = w; executed = done; error = some (edited s.n) })) skipped
        (after_step done (run_step fuel s.kind s (step_sha s) w)
          (run_steps fuel applied steps (done + 1)))

  abbrev pub stopped : Option StepError → World D → Option (Ended D) → Option (Ended D)
  stopped (some e) w rest = some (record { world = w; executed = 0; error = some e })
  stopped none w rest = rest

  unfoldable pub run : Classifier → ℕ → List (Step D) → World D → Option (Ended D)
  unfolding run_steps
  run c fuel steps w =
      stopped (check c steps) w (stopped out.prepare_error w (run_steps fuel w.ledger steps 0 w))
