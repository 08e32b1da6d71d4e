-- ===== src/Engine/Progress.antt =====
-- The progress of workflows in internal/engine: a workflow's state and current operation
-- against the rows of its tasks.
use gophercast.Prelude.{
  ℕ, ◌<◌, ◌≡◌, refl, String, Bool, true, ◌&&◌, List, [], ◌∷◌, map, Memᴰ, arith, inl, inr, ◌==◌,
  Bool-cases, Option-cases, any, keep, length, All, All-append, All-mem,
}
use gophercast.Engine.Store.{
  WorkflowState, failed, active, succeeded, aborted, TaskRow, Workflow, Db, is_finished, is_failed,
  update_where, update_workflows,
}
use gophercast.Engine.Client.{Mutation, run_mutation, held, complete_transaction}
use gophercast.Engine.Statements.{
  Engine, is_task_of, is_due, advanced, is_broken, broken_off, lacks_task, insert_rows,
  advance_update, abort_update, assign_insert, create_insert,
}
use gophercast.Engine.Rows.{Evolves, Grows}
use gophercast.Engine.Guarded.{
  start_update_lem, renew_update_lem, close_update_lem, reassign_update_lem, exhaust_update_lem,
}
use gophercast.Engine.Frame.{Step-Frame, complete_transaction_lem, complete_transaction_failed}
use gophercast.Engine.Run.{
  Step, tick, elsewhere, create, start, renew, complete, give_up, reassign, exhaust, advance, abort,
  assign, Reach, here, next, empty_db,
}

-- Operation `i` of the workflow has a task that is FINISHED, or FAILED.
abbrev pub finished_at : ℕ → ℕ → TaskRow → Bool
finished_at workflow i t = is_task_of workflow i t && is_finished t.state

abbrev pub failed_at : ℕ → ℕ → TaskRow → Bool
failed_at workflow i t = is_task_of workflow i t && is_failed t.state

pub record WellPlaced (tasks : List TaskRow) (w : Workflow) : Type 0 where
  pub in_range : w.state ≡ active → w.current_op < length w.definition
  pub at_end : w.state ≡ succeeded → w.current_op ≡ length w.definition
  pub done : (i : ℕ) → i < w.current_op → any (finished_at w.id i) tasks ≡ true
  pub broken : w.state ≡ aborted → any (failed_at w.id w.current_op) tasks ≡ true

pub any-Grows :
    (q : TaskRow → Bool) (n : ℕ) (xs ys : List TaskRow)
    → ((x y : TaskRow) → Evolves x y → q x ≡ true → q y ≡ true)
    → Grows n xs ys
    → any q xs ≡ true
    → any q ys ≡ true
any-Grows q n [] ys keeps g h = cc
any-Grows q n (x ∷ xs) [] keeps g h = absurd g
any-Grows q n (x ∷ xs) (y ∷ ys) keeps g h =
    ground (arith, keeps x y g.0, any-Grows q n xs ys keeps g.1)

pub finished_at-Evolves :
    (w i : ℕ) (x y : TaskRow) → Evolves x y → finished_at w i x ≡ true → finished_at w i y ≡ true
finished_at-Evolves w i x y v h = rw (v.frozen (ground arith)) h

failed_at-Evolves :
    (w i : ℕ) (x y : TaskRow) → Evolves x y → failed_at w i x ≡ true → failed_at w i y ≡ true
failed_at-Evolves w i x y v h = rw (v.frozen (ground arith)) h

WellPlaced-Grows :
    (n : ℕ) (xs ys : List TaskRow) (w : Workflow)
    → Grows n xs ys
    → WellPlaced xs w
    → WellPlaced ys w
WellPlaced-Grows n xs ys w g p = record {
  in_range = p.in_range;
  at_end = p.at_end;
  done = λ i h. any-Grows (finished_at w.id i) n xs ys (finished_at-Evolves w.id i) g (p.done i h);
  broken = λ h.
      any-Grows (failed_at w.id w.current_op) n xs ys (failed_at-Evolves w.id w.current_op) g
        (p.broken h);
}

carried :
    (n : ℕ) (xs ys : List TaskRow) (ws : List Workflow)
    → Grows n xs ys
    → All (WellPlaced xs) ws
    → All (WellPlaced ys) ws
carried n xs ys [] g h = tt
carried n xs ys (w ∷ ws) g h = (WellPlaced-Grows n xs ys w g h.0, carried n xs ys ws g h.1)

mapped :
    (tasks : List TaskRow) (p : Workflow → Bool) (f : Workflow → Workflow) (ws : List Workflow)
    → ((w : Workflow) → p w ≡ true → WellPlaced tasks w → WellPlaced tasks (f w))
    → All (WellPlaced tasks) ws
    → All (WellPlaced tasks) (map (update_where p f) ws)
mapped tasks p f [] k h = tt
mapped tasks p f (w ∷ ws) k h = (
  elim (Bool-cases (p w)) [ inl e ↦ rw e (k w e h.0) | inr e ↦ rw e h.0 ],
  mapped tasks p f ws k h.1,
)

advanced-WellPlaced :
    (tasks : List TaskRow) (now : ℕ) (w : Workflow)
    → is_due tasks w ≡ true
    → WellPlaced tasks w
    → WellPlaced tasks (advanced now w)
advanced-WellPlaced tasks now w e h = record {
  in_range = λ s. ground arith;
  at_end = λ s. ground arith;
  done = λ i lt. elim (Bool-cases (i == w.current_op)) [
    | inl same ↦ ground arith
    | inr other ↦ h.done i (ground arith)
  ];
  broken = λ s. ground arith;
}

broken_off-WellPlaced :
    (tasks : List TaskRow) (now : ℕ) (w : Workflow)
    → is_broken tasks w ≡ true
    → WellPlaced tasks w
    → WellPlaced tasks (broken_off now w)
broken_off-WellPlaced tasks now w e h = record {
  in_range = λ s. cc;
  at_end = λ s. cc;
  done = h.done;
  broken = λ s. ground arith;
}

-- What a workflow's state says of the tasks of its operations.
abbrev pub Accounted : WorkflowState → List TaskRow → Workflow → Type 0
Accounted active tasks w =
    (w.current_op < length w.definition)
    × ((i : ℕ) → i < w.current_op → any (finished_at w.id i) tasks ≡ true)
Accounted succeeded tasks w =
    (i : ℕ) → i < length w.definition → any (finished_at w.id i) tasks ≡ true
Accounted aborted tasks w =
    (any (failed_at w.id w.current_op) tasks ≡ true)
    × ((i : ℕ) → i < w.current_op → any (finished_at w.id i) tasks ≡ true)

accounted :
    (tasks : List TaskRow) (w : Workflow) (s : WorkflowState)
    → w.state ≡ s
    → WellPlaced tasks w
    → Accounted s tasks w
accounted tasks w active e p = (p.in_range e, p.done)
accounted tasks w succeeded e p = λ i lt. p.done i (omega (arith, p.at_end e))
accounted tasks w aborted e p = (p.broken e, p.done)

-- All workflows are well placed.
abbrev pub IsPlaced : {R : Type 0} → Db R → Type 0
IsPlaced db = All (WellPlaced db.tasks) db.workflows

module _ {R : Type 0} where
  -- A step that leaves the table `workflow` alone.
  carried_step :
      {e : Engine} {a b : Db R} → Step e a b → b.workflows ≡ a.workflows → IsPlaced a → IsPlaced b
  carried_step {a = a} {b = b} s same h =
      rw same (carried a.next_task a.tasks b.tasks a.workflows (Step-Frame s).grows h)

  complete-workflows :
      (db : Db R) (id : ℕ) (owner result : String) (mutate : Mutation R)
      → (complete_transaction id owner result mutate db).1.workflows ≡ db.workflows
  complete-workflows db id owner result mutate = elim (Option-cases (run_mutation mutate db.rows)) [
    | inl e ↦ rw (complete_transaction_failed id owner result mutate db e)
    | inr (rows', e) ↦
        rw (complete_transaction_lem id owner result mutate db e)
          (elim (Bool-cases (length (keep (held id owner) db.tasks) == 0)) [
            | inl lost ↦ rw lost
            | inr won ↦ rw won
          ])
  ]

  pub assign-workflows :
      (seen db : Db R) (lease : ℕ) → (assign_insert lease seen db).1.workflows ≡ db.workflows
  unfolding assign_insert
  assign-workflows seen db lease =
      elim (Option-cases (
        insert_rows seen.now lease (keep (lacks_task seen.tasks) seen.workflows) db.tasks
          db.next_task)) [ inl e ↦ rw (e, assign_insert) | inr (r, e) ↦ rw (e, assign_insert) ]

  Step-IsPlaced : {e : Engine} {a b : Db R} → Step e a b → IsPlaced a → IsPlaced b
  unfolding update_workflows advance_update abort_update create_insert
  Step-IsPlaced (tick db n) h = h
  Step-IsPlaced (elsewhere db rows') h = h
  Step-IsPlaced (create db mp def nonempty) h = All-append (WellPlaced db.tasks) db.workflows _ h (
    record {
      in_range = λ s. nonempty;
      at_end = λ s. cc;
      done = λ i lt. elim lt [ ];
      broken = λ s. cc;
    },
    tt,
  )
  Step-IsPlaced {e} (start db id owner lease) h =
      carried_step {e = e} (start db id owner lease) (rw (start_update_lem db id owner lease)) h
  Step-IsPlaced {e} (renew db id owner lease) h =
      carried_step {e = e} (renew db id owner lease) (rw (renew_update_lem db id owner lease)) h
  Step-IsPlaced {e} (complete db id owner result mutate) h =
      carried_step {e = e} (complete db id owner result mutate)
        (complete-workflows db id owner result mutate) h
  Step-IsPlaced {e} (give_up db id owner why) h =
      carried_step {e = e} (give_up db id owner why)
        (rw (close_update_lem db failed id owner why refl)) h
  Step-IsPlaced {e} (reassign db) h =
      carried_step {e = e} (reassign db) (rw (reassign_update_lem db e)) h
  Step-IsPlaced {e} (exhaust db) h =
      carried_step {e = e} (exhaust db) (rw (exhaust_update_lem db e)) h
  Step-IsPlaced (advance db) h =
      mapped db.tasks (is_due db.tasks) (advanced db.now) db.workflows
        (advanced-WellPlaced db.tasks db.now) h
  Step-IsPlaced (abort db) h =
      mapped db.tasks (is_broken db.tasks) (broken_off db.now) db.workflows
        (broken_off-WellPlaced db.tasks db.now) h
  Step-IsPlaced {e} (assign seen db) h =
      carried_step {e = e} (assign seen db) (assign-workflows seen db e.lease) h

  pub Reach-IsPlaced : {e : Engine} {a b : Db R} → Reach e a b → IsPlaced a → IsPlaced b
  Reach-IsPlaced here h = h
  Reach-IsPlaced (next r s) h = Step-IsPlaced s (Reach-IsPlaced r h)

  -- In every state that sessions can reach from an empty database: each operation of a SUCCEEDED
  -- workflow's definition has a FINISHED task; a FAILED workflow has a FAILED task at the operation
  -- at which it stopped, and FINISHED ones at all operations before it; and a RUNNING workflow's
  -- current operation is one of its definition's, with FINISHED tasks at all before it.
  pub workflow-Accounted :
      {e : Engine} (rows : R) {db : Db R} {w : Workflow}
      → Reach e (empty_db rows) db
      → Memᴰ w db.workflows
      → Accounted w.state db.tasks w
  unfolding empty_db
  workflow-Accounted rows {db} {w} r m =
      accounted db.tasks w w.state refl
        (All-mem (WellPlaced db.tasks) db.workflows m (Reach-IsPlaced r tt))
