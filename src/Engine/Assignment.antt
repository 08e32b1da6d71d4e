-- ===== src/Engine/Assignment.antt =====
-- The assignment of operations in internal/engine: the tasks that an operation has.
use gophercast.Prelude.{
  ℕ, ◌≡◌, refl, String, Bool, false, List, [], ◌∷◌, ◌++◌, map, Option, none, some, arith, inl, inr,
  ◌==◌, Bool-cases, Option-cases, any, keep, length,
}
use gophercast.Engine.Store.{
  finished, failed, output, TaskRow, Workflow, OpDef, Db, update_where, update_workflows,
}
use gophercast.Engine.Client.{Mutation, run_mutation, held, complete_transaction}
use gophercast.Engine.Statements.{
  Engine, Inserted, is_task_of, lacks_task, new_row, insert_rows, advance_update, abort_update,
  assign_insert, create_insert,
}
use gophercast.Engine.Rows.{Keeps, Evolves, update_where-Evolves}
use gophercast.Engine.Guarded.{
  start-Keeps, renew-Keeps, close-Keeps, reassign-Keeps, exhaust-Keeps, start_update_lem,
  renew_update_lem, close_update_lem, reassign_update_lem, exhaust_update_lem,
}
use gophercast.Engine.Insertion.{OnSome, with_row, insert_rows_ind}
use gophercast.Engine.Frame.{complete_transaction_lem, complete_transaction_failed}
use gophercast.Engine.Run.{
  Step, tick, elsewhere, create, start, renew, complete, give_up, reassign, exhaust, advance, abort,
  assign, Reach, here, next, empty_db,
}

-- No two rows are of the same operation of the same workflow.
abbrev pub Distinct : List TaskRow → Type 0
Distinct [] = Unit
Distinct (t ∷ ts) = (any (is_task_of t.workflow_id t.op_index) ts ≡ false) × Distinct ts

pub any-map :
    {p : TaskRow → Bool} {f : TaskRow → TaskRow} (k : Keeps p f) (w i : ℕ) (xs : List TaskRow)
    → any (is_task_of w i) (map (update_where p f) xs) ≡ any (is_task_of w i) xs
any-map k w i [] = refl
any-map {p} {f} k w i (x ∷ xs) =
    let v : Evolves x (update_where p f x) = update_where-Evolves k x in
    rw (v.same_workflow, v.same_op, any-map k w i xs)

Distinct-map :
    {p : TaskRow → Bool} {f : TaskRow → TaskRow} (k : Keeps p f) (xs : List TaskRow)
    → Distinct xs
    → Distinct (map (update_where p f) xs)
Distinct-map k [] h = tt
Distinct-map {p} {f} k (x ∷ xs) h =
    let v : Evolves x (update_where p f x) = update_where-Evolves k x in
    (
      rw (v.same_workflow, v.same_op, any-map k x.workflow_id x.op_index xs) h.0,
      Distinct-map k xs h.1,
    )

any-snoc :
    (q : TaskRow → Bool) (xs : List TaskRow) (y : TaskRow)
    → any q xs ≡ false
    → q y ≡ false
    → any q (xs ++ y ∷ []) ≡ false
any-snoc q [] y h k = rw k
any-snoc q (x ∷ xs) y h k = ground (arith, any-snoc q xs y)

Distinct-snoc :
    (xs : List TaskRow) (y : TaskRow)
    → any (is_task_of y.workflow_id y.op_index) xs ≡ false
    → Distinct xs
    → Distinct (xs ++ y ∷ [])
Distinct-snoc [] y h d = (refl, tt)
Distinct-snoc (x ∷ xs) y h d = (
  any-snoc (is_task_of x.workflow_id x.op_index) xs y d.0 (ground arith),
  Distinct-snoc xs y (ground arith) d.1,
)

with_row-Distinct :
    (now lease next : ℕ) (w : Workflow) (op : OpDef) (tasks : List TaskRow)
    → Distinct tasks
    → Distinct (with_row now lease next w op tasks)
unfolding new_row
with_row-Distinct now lease n w op tasks d =
    elim (Bool-cases (any (is_task_of w.id w.current_op) tasks)) [
      | inl e ↦ rw e d
      | inr e ↦ rw e (Distinct-snoc tasks _ e d)
    ]

module _ {R : Type 0} where
  complete-Distinct :
      (db : Db R) (id : ℕ) (owner result : String) (mutate : Mutation R)
      → Distinct db.tasks
      → Distinct (complete_transaction id owner result mutate db).1.tasks
  complete-Distinct db id owner result mutate d =
      elim (Option-cases (run_mutation mutate db.rows)) [
        | inl e ↦ rw (complete_transaction_failed id owner result mutate db e) d
        | inr (rows', e) ↦
            rw (complete_transaction_lem id owner result mutate db e)
              (elim (Bool-cases (length (keep (held id owner) db.tasks) == 0)) [
                | inl lost ↦ rw lost d
                | inr won ↦ rw won (
                    Distinct-map (close-Keeps finished id owner (output result) db.now refl)
                      db.tasks d)
              ])
      ]

  assign-Distinct :
      (seen db : Db R) (lease : ℕ)
      → Distinct db.tasks
      → Distinct (assign_insert lease seen db).1.tasks
  unfolding assign_insert
  assign-Distinct seen db lease d =
      go
        (insert_rows seen.now lease (keep (lacks_task seen.tasks) seen.workflows) db.tasks
          db.next_task)
        refl
        (insert_rows_ind (λ ts n. Distinct ts) seen.now lease
          (λ w op ts n h. with_row-Distinct seen.now lease n w op ts h)
          (keep (lacks_task seen.tasks) seen.workflows) db.tasks db.next_task d)
    where
      go :
          (o : Option Inserted)
          → insert_rows seen.now lease
              (keep (lacks_task seen.tasks) seen.workflows)
              db.tasks
              db.next_task
            ≡ o
          → OnSome (λ r. Distinct r.tasks) o
          → Distinct (assign_insert lease seen db).1.tasks
      go none e h = rw (e, assign_insert) d
      go (some r) e h = rw (e, assign_insert) h

  Step-Distinct : {e : Engine} {a b : Db R} → Step e a b → Distinct a.tasks → Distinct b.tasks
  unfolding update_workflows advance_update abort_update create_insert
  Step-Distinct (tick db n) d = d
  Step-Distinct (elsewhere db rows') d = d
  Step-Distinct (create db mp def h) d = d
  Step-Distinct (start db id owner lease) d =
      rw (start_update_lem db id owner lease)
        (Distinct-map (start-Keeps id owner lease db.now) db.tasks d)
  Step-Distinct (renew db id owner lease) d =
      rw (renew_update_lem db id owner lease)
        (Distinct-map (renew-Keeps id owner lease db.now) db.tasks d)
  Step-Distinct (complete db id owner result mutate) d =
      complete-Distinct db id owner result mutate d
  Step-Distinct (give_up db id owner why) d =
      rw (close_update_lem db failed id owner why refl)
        (Distinct-map (close-Keeps failed id owner why db.now refl) db.tasks d)
  Step-Distinct {e} (reassign db) d =
      rw (reassign_update_lem db e) (Distinct-map (reassign-Keeps e db.now) db.tasks d)
  Step-Distinct {e} (exhaust db) d =
      rw (exhaust_update_lem db e) (Distinct-map (exhaust-Keeps e db.now) db.tasks d)
  Step-Distinct (advance db) d = d
  Step-Distinct (abort db) d = d
  Step-Distinct {e} (assign seen db) d = assign-Distinct seen db e.lease d

  -- However the orchestrators' and the workers' statements interleave, and whatever snapshot each insert
  -- has selected on, an operation of a workflow never has two tasks.
  pub Reach-Distinct :
      {e : Engine} (rows : R) {db : Db R} → Reach e (empty_db rows) db → Distinct db.tasks
  unfolding empty_db
  Reach-Distinct rows here = tt
  Reach-Distinct rows (next r s) = Step-Distinct s (Reach-Distinct rows r)
