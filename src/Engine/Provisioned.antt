-- ===== src/Engine/Provisioned.antt =====
-- internal/engine/engine.go: reaping and provisioning that no other session meets, and what they spare.
use gophercast.Prelude.{
  ℕ, ◌≡◌, refl, ◌∙◌, String, List, [], ◌∷◌, Result, ok, err, inl, inr, ◌==◌, Bool-cases, any,
}
use gophercast.Engine.Store.{
  TaskRow, Db, Error, Action, failed, reason, statement, and_then, require_row,
}
use gophercast.Engine.Class.{ExecClass, unknown, worker, inline, unclear, class_of}
use gophercast.Engine.Client.{Task, start_update, close_update, start_task, fail_task, scan_task}
use gophercast.Engine.Statements.{Engine, is_task_of, reassign_update, exhaust_update}
use gophercast.Engine.Orchestrator.{
  dispatch_owner, fail_started, fail_unrunnable, provision_as, provision, provision_all, reap,
}
use gophercast.Engine.Races.{quiet}
use gophercast.Engine.Guarded.{
  start-Keeps, close-Keeps, reassign-Keeps, exhaust-Keeps, start_update_lem, close_update_lem,
  reassign_update_lem, exhaust_update_lem,
}
use gophercast.Engine.Assignment.{any-map}

-- The workflows are as they were, and each operation has a task if it had one.
pub record Spares {R : Type 0} (a b : Db R) : Type 0 where
  pub workflows : b.workflows ≡ a.workflows
  pub tasks : (w i : ℕ) → any (is_task_of w i) b.tasks ≡ any (is_task_of w i) a.tasks

module _ {R : Type 0} where
  abbrev Sparing : {A : Type 0} → Action R A → Type 0
  Sparing m = (db : Db R) → Spares db (m db).1

  Spares-refl : (db : Db R) → Spares db db
  Spares-refl db = record { workflows = refl; tasks = λ w i. refl }

  pub Spares-trans : {a b c : Db R} → Spares a b → Spares b c → Spares a c
  Spares-trans f g = record {
    workflows = g.workflows ∙ f.workflows;
    tasks = λ w i. g.tasks w i ∙ f.tasks w i;
  }

  bind-Sparing :
      {A B : Type 0} (m : Action R A) (f : A → Action R B)
      → Sparing m
      → ((a : A) → Sparing (f a))
      → Sparing (λ db. and_then (m db).0 f (m db).1)
  bind-Sparing m f h k db = go (m db).0 (m db).1 (h db)
    where
      go : (r : Result Error _) (db' : Db R) → Spares db db' → Spares db (and_then r f db').1
      go (ok a) db' s = Spares-trans s (k a db')
      go (err x) db' s = s

  require_row-Sparing : (n : ℕ) → Sparing (require_row n)
  require_row-Sparing n db = elim (Bool-cases (n == 0)) [
    | inl z ↦ rw z (Spares-refl db)
    | inr z ↦ rw z (Spares-refl db)
  ]

  start_update-Sparing :
      (id : ℕ) (owner : String) (lease : ℕ) → Sparing (start_update id owner lease)
  start_update-Sparing id owner lease db = rw (start_update_lem db id owner lease) (record {
    workflows = refl;
    tasks = λ w i. any-map (start-Keeps id owner lease db.now) w i db.tasks;
  })

  close_update-Sparing :
      (id : ℕ) (owner text : String) → Sparing (close_update failed id owner (reason text))
  close_update-Sparing id owner text db =
      rw (close_update_lem db failed id owner (reason text) refl) (record {
        workflows = refl;
        tasks = λ w i. any-map (close-Keeps failed id owner (reason text) db.now refl) w i db.tasks;
      })

  start_task-Sparing :
      (id : ℕ) (owner : String) (lease : ℕ) → Sparing (start_task quiet id owner lease)
  unfolding start_task statement
  start_task-Sparing id owner lease =
      bind-Sparing (start_update id owner lease) require_row (start_update-Sparing id owner lease)
        require_row-Sparing

  fail_task-Sparing : (id : ℕ) (owner text : String) → Sparing (fail_task quiet id owner text)
  unfolding fail_task statement
  fail_task-Sparing id owner text =
      bind-Sparing (close_update failed id owner (reason text)) require_row
        (close_update-Sparing id owner text) require_row-Sparing

  fail_started-Sparing :
      (r : Result Error (Unit {0})) (t : Task) (why : String) → Sparing (fail_started quiet r t why)
  unfolding fail_started
  fail_started-Sparing (ok _) t why = fail_task-Sparing t.id dispatch_owner _
  fail_started-Sparing (err _) t why = Spares-refl

  fail_unrunnable-Sparing :
      (e : Engine) (t : Task) (why : String) → Sparing (fail_unrunnable quiet e t why)
  unfolding fail_unrunnable
  fail_unrunnable-Sparing e t why db =
      Spares-trans (start_task-Sparing t.id dispatch_owner e.lease db) (
        fail_started-Sparing (start_task quiet t.id dispatch_owner e.lease db).0 t why
          (start_task quiet t.id dispatch_owner e.lease db).1)

  provision_as-Sparing :
      (c : ExecClass) (e : Engine) (t : Task) → Sparing (provision_as quiet c e t)
  unfolding provision_as
  provision_as-Sparing worker e t db = Spares-refl db
  provision_as-Sparing inline e t db = elim (Bool-cases e.has_inline) [
    | inl y ↦ rw y (Spares-refl db)
    | inr n ↦ rw n (fail_unrunnable-Sparing e t _ db)
  ]
  provision_as-Sparing unclear e t db = fail_unrunnable-Sparing e t _ db
  provision_as-Sparing unknown e t db = fail_unrunnable-Sparing e t _ db

  pub provision_all-Sparing :
      (e : Engine) (rows : List TaskRow) → Sparing (provision_all quiet e rows)
  unfolding provision_all provision
  provision_all-Sparing e [] = Spares-refl
  provision_all-Sparing e (row ∷ rows) =
      bind-Sparing (provision quiet e (scan_task row)) _
        (provision_as-Sparing (class_of row.operation) e (scan_task row))
        (λ d.
          bind-Sparing (provision_all quiet e rows) _ (provision_all-Sparing e rows)
            (λ ds. Spares-refl))

  pub reap-Sparing : (e : Engine) → Sparing (reap quiet e)
  unfolding reap statement
  reap-Sparing e =
      bind-Sparing (reassign_update e) _
        (λ db. rw (reassign_update_lem db e) (record {
          workflows = refl;
          tasks = λ w i. any-map (reassign-Keeps e db.now) w i db.tasks;
        }))
        (λ again.
          bind-Sparing (exhaust_update e) _
            (λ db. rw (exhaust_update_lem db e) (record {
              workflows = refl;
              tasks = λ w i. any-map (exhaust-Keeps e db.now) w i db.tasks;
            }))
            (λ n. provision_all-Sparing e again))
