-- ===== src/Engine/Lifecycle.antt =====
-- internal/engine/inline.go: the one task lifecycle, `ExecuteTask`, and the inline runner.
use Prim.Native.String.{◌++◌ as text_append}
use gophercast.Prelude.{
  Option, none, some, ℕ, zero, suc, String, Bool, true, false, Result, ok, err,
}
use gophercast.Engine.Store.{ignoring, pure, Db, Error, task_lost, body_failed, Action, Env}
use gophercast.Engine.Client.{Mutation, Task, start_task, renew_lease, complete_task, fail_task}

-- What a body returns: its result with the mutation that commits with it, or its error's text.
abbrev pub Work : Type 0 → Type 0
Work R = Result String (String × Mutation R)

-- A body reads what it needs; it writes only by the mutation that it returns.
abbrev pub Body : Type 0 → Type 0
Body R = Db R → Work R

-- `fmt.Sprintf("inline operation %q not implemented in this core", …)`, for a name in which `%q`
-- escapes nothing.
abbrev pub not_implemented_text : String → String
not_implemented_text operation =
    text_append "inline operation \"" (text_append operation "\" not implemented in this core")

-- A lost task is a silent exit: `ErrTaskLost` is no error of the run.
unfoldable pub unless_lost :
    {R : Type 0} → Result Error (Unit {0}) × Db R → Result Error (Unit {0}) × Db R
unless_lost (err task_lost, db) = (ok tt, db)
unless_lost (r, db) = (r, db)

-- After the report of a body's error: the error is the run's, unless the task was lost.
unfoldable pub after_report :
    {R : Type 0} → String → Result Error (Unit {0}) × Db R → Result Error (Unit {0}) × Db R
after_report text (err task_lost, db) = (ok tt, db)
after_report text (_, db) = (err (body_failed text), db)

-- After one renewal: the goroutine goes on, or ends with the error.
unfoldable pub after_renewal :
    {R : Type 0} → Result Error (Unit {0}) → Bool × Db R → Db R → Bool × Db R
after_renewal (ok _) rest db = rest
after_renewal (err _) rest db = (false, db)

module _ {R : Type 0} (env : Env R) where
  -- The renewal goroutine, for the ticks that fall before the body returns: whether each renewal
  -- succeeded. The first that fails ends it.
  unfoldable pub renewals : ℕ → ℕ → String → ℕ → Db R → Bool × Db R
  unfolding after_renewal
  renewals zero id owner lease db = (true, db)
  renewals (suc ticks) id owner lease db =
      after_renewal (renew_lease env id owner lease db).0
        (renewals ticks id owner lease (renew_lease env id owner lease db).1)
        (renew_lease env id owner lease db).1

  -- The body has returned and the lease is still held.
  unfoldable pub conclude : Task → String → Work R → Action R (Unit {0})
  unfolding unless_lost after_report
  conclude task owner (ok (result, mutate)) db =
      unless_lost (complete_task env task.id owner result mutate db)
  conclude task owner (err text) db = after_report text (fail_task env task.id owner text db)

  -- The `select` on `renewErr` once the body has returned.
  unfoldable pub resume : Bool → Task → String → Work R → Action R (Unit {0})
  unfolding conclude
  resume false task owner work db = (ok tt, db)
  resume true task owner work db = conclude task owner work db

  -- From the won start to the end; `ticks` renewals come due while the body runs.
  unfoldable pub work_on : ℕ → Task → String → ℕ → Body R → Action R (Unit {0})
  unfolding renewals resume
  work_on ticks task owner lease body db =
      let (still, db') = renewals ticks task.id owner lease db in
      resume still task owner (body db') db'

  -- What follows the call of `StartTask`.
  unfoldable pub begin :
      Result Error (Unit {0}) → ℕ → Task → String → ℕ → Body R → Action R (Unit {0})
  unfolding work_on
  begin (ok _) ticks task owner lease body db = work_on ticks task owner lease body db
  begin (err task_lost) ticks task owner lease body db = (ok tt, db)
  begin (err e) ticks task owner lease body db = (err e, db)

  unfoldable pub execute_task : ℕ → Task → String → ℕ → Body R → Action R (Unit {0})
  unfolding begin
  execute_task ticks task owner lease body db =
      begin (start_task env task.id owner lease db).0 ticks task owner lease body
        (start_task env task.id owner lease db).1

  -- No implementation: the won task is failed; a start that is lost is not the runner's to report.
  unfoldable pub refuse : Result Error (Unit {0}) → Task → String → Action R (Unit {0})
  refuse (err _) task owner db = (ok tt, db)
  refuse (ok _) task owner db =
      ignoring (fail_task env task.id owner (not_implemented_text task.operation)) (pure tt) db

  -- The goroutine of `InlineRunner.Provision`, for the operation that the runner has registered
  -- under the task's name, if any.
  unfoldable pub run_inline : ℕ → Option (Task → Body R) → Task → String → ℕ → Action R (Unit {0})
  unfolding execute_task
  run_inline ticks (some op) task owner lease db = execute_task ticks task owner lease (op task) db
  run_inline ticks none task owner lease db =
      refuse (start_task env task.id owner lease db).0 task owner
        (start_task env task.id owner lease db).1
