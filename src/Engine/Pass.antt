-- ===== src/Engine/Pass.antt =====
-- internal/engine/engine.go: a whole pass of the orchestrator that no other session meets.
use gophercast.Prelude.{
  ℕ, suc, ◌≡◌, refl, ap, ◌∙◌, Bool, true, false, List, [], ◌∷◌, ◌++◌, map, Memᴰ, Result, ok, err,
  some, arith, inl, inr, Bool-cases, All,
}
use gophercast.Engine.Store.{
  TaskRow, Workflow, Db, Error, Action, statement, and_then, ◌>>=◌, pure, update_where,
  update_workflows,
}
use gophercast.Engine.Class.{ExecClass, unknown, worker, inline, unclear, class_of}
use gophercast.Engine.Client.{Task, scan_task, start_task}
use gophercast.Engine.Statements.{
  Engine, lacks_task, is_due, advanced, is_broken, broken_off, reassign_update, exhaust_update,
  advance_update, abort_update, assign_insert,
}
use gophercast.Engine.Orchestrator.{
  Dispatch, unrunnable, dispatch_owner, fail_started, fail_unrunnable, provision_as, provision,
  provision_all, reap, advance, assign, step,
}
use gophercast.Engine.Guarded.{reassign_update_lem, exhaust_update_lem}
use gophercast.Engine.Races.{quiet}
use gophercast.Engine.Run.{Reach, here}
use gophercast.Engine.Frame.{Reach-Frame}
use gophercast.Engine.Progress.{
  IsPlaced, Reach-IsPlaced, finished_at, finished_at-Evolves, any-Grows, assign-workflows,
}
use gophercast.Engine.Served.{AllServed, assign_insert-serves}
use gophercast.Engine.Sessions.{reap-Runs, advance-Runs}
use gophercast.Engine.Provisioned.{Spares, provision_all-Sparing, reap-Sparing}

-- The call ends without error.
abbrev Ends : {R A : Type 0} → Action R A → Db R → Type 0
Ends {A = A} m db = (a : A) × ((m db).0 ≡ ok a)

mem_map :
    (f : Workflow → Workflow) (w : Workflow) (ws : List Workflow)
    → Memᴰ w ws
    → Memᴰ (f w) (map f ws)
mem_map f w [] m = elim m [ ]
mem_map f w (x ∷ ws) (Memᴰ.head e) = Memᴰ.head (ap f e)
mem_map f w (x ∷ ws) (Memᴰ.tail m) = Memᴰ.tail (mem_map f w ws m)

broken_off-same :
    (p : Workflow → Bool) (now : ℕ) (w : Workflow)
    → ((update_where p (broken_off now) w).id ≡ w.id)
      × ((update_where p (broken_off now) w).current_op ≡ w.current_op)
broken_off-same p now w = elim (Bool-cases (p w)) [
  | inl e ↦ rw e (refl, refl)
  | inr e ↦ rw e (refl, refl)
]

advanced-moves :
    (p : Workflow → Bool) (now : ℕ) (w : Workflow)
    → ((update_where p (advanced now) w).id ≡ w.id)
      × (p w ≡ true → (update_where p (advanced now) w).current_op ≡ suc w.current_op)
advanced-moves p now w = elim (Bool-cases (p w)) [
  | inl e ↦ rw e (refl, λ h. refl)
  | inr e ↦ rw e (refl, λ h. absurd (cc))
]

module _ {R : Type 0} where
  quiet-Plays : (e : Engine) (a b : Db R) → quiet a ≡ some b → Reach e a b
  quiet-Plays e a b h = let same : a ≡ b = ground arith in rw (← same) here

  then_eq :
      {A B : Type 0} (m : Action R A) (f : A → Action R B) (db : Db R) (a : A)
      → (m db).0 ≡ ok a
      → and_then (m db).0 f (m db).1 ≡ f a (m db).1
  then_eq m f db a h = rw h refl

  bind-Ends :
      {A B : Type 0} (m : Action R A) (f : A → Action R B) (db : Db R)
      → Ends m db
      → ((a : A) (db' : Db R) → Ends (f a) db')
      → Ends (λ d. and_then (m d).0 f (m d).1) db
  bind-Ends m f db (a, h) k = let (b, e) = k a (m db).1 in (b, rw h e)

  fail_started-Ends :
      (r : Result Error (Unit {0})) (e : Engine) (t : Task) (why : _) (db : Db R)
      → Ends (fail_started quiet r t why) db
  unfolding fail_started
  fail_started-Ends (ok _) e t why db = (unrunnable, refl)
  fail_started-Ends (err _) e t why db = (unrunnable, refl)

  provision_as-Ends :
      (c : ExecClass) (e : Engine) (t : Task) (db : Db R) → Ends (provision_as quiet c e t) db
  unfolding provision_as fail_unrunnable
  provision_as-Ends worker e t db = (_, refl)
  provision_as-Ends inline e t db = elim (Bool-cases e.has_inline) [
    | inl y ↦ rw y (_, refl)
    | inr n ↦ rw n (fail_started-Ends (start_task quiet t.id dispatch_owner e.lease db).0 e t _ _)
  ]
  provision_as-Ends unclear e t db =
      fail_started-Ends (start_task quiet t.id dispatch_owner e.lease db).0 e t _ _
  provision_as-Ends unknown e t db =
      fail_started-Ends (start_task quiet t.id dispatch_owner e.lease db).0 e t _ _

  provision_all-Ends :
      (e : Engine) (rows : List TaskRow) (db : Db R) → Ends (provision_all quiet e rows) db
  unfolding provision_all provision
  provision_all-Ends e [] db = ([], refl)
  provision_all-Ends e (row ∷ rows) db =
      bind-Ends (provision quiet e (scan_task row)) _ db
        (provision_as-Ends (class_of row.operation) e (scan_task row) db)
        (λ d db'.
          bind-Ends (provision_all quiet e rows) _ db' (provision_all-Ends e rows db')
            (λ ds db''. (_, refl)))

  reap-Ends : (e : Engine) (db : Db R) → Ends (reap quiet e) db
  unfolding reap statement
  reap-Ends e db =
      bind-Ends (reassign_update e) _ db (_, ap (λ p. p.0) (reassign_update_lem db e))
        (λ again db'.
          bind-Ends (exhaust_update e) _ db' (_, ap (λ p. p.0) (exhaust_update_lem db' e))
            (λ n. provision_all-Ends e again))

  served_still : {a b : Db R} → Spares a b → AllServed a → AllServed b
  served_still {a} {b} s h = rw s.workflows (go a.workflows h)
    where
      go :
          (ws : List Workflow)
          → All (λ w. lacks_task a.tasks w ≡ false) ws
          → All (λ w. lacks_task b.tasks w ≡ false) ws
      go [] h = tt
      go (w ∷ ws) h = (rw (s.tasks w.id w.current_op) h.0, go ws h.1)

  assign-Ends :
      (e : Engine) (db : Db R)
      → IsPlaced db
      → Ends (assign quiet e) db
        × AllServed (assign quiet e db).1
        × ((assign quiet e db).1.workflows ≡ db.workflows)
  unfolding assign statement
  assign-Ends e db h =
      let (created, made, served) = assign_insert-serves db e.lease h in
      let inserted = (assign_insert e.lease db db).1 in
      let spares = provision_all-Sparing e created inserted in
      (
        bind-Ends (assign_insert e.lease db) _ db (created, made) (provision_all-Ends e),
        rw made (served_still spares served),
        rw made (spares.workflows ∙ assign-workflows db db e.lease),
      )

  -- The workflow is still there, one operation further if its current task was FINISHED.
  abbrev pub MovesOn : Db R → Db R → Workflow → Type 0
  MovesOn before after w =
      (v : Workflow) × Memᴰ v after.workflows
      × (v.id ≡ w.id)
      × (is_due before.tasks w ≡ true → v.current_op ≡ suc w.current_op)

  advance-MovesOn :
      (db : Db R) (w : Workflow) → Memᴰ w db.workflows → MovesOn db (advance quiet db).1 w
  unfolding advance statement advance_update abort_update update_workflows
  advance-MovesOn db w m =
      let ahead = update_where (is_due db.tasks) (advanced db.now) w in
      let (same, op) = advanced-moves (is_due db.tasks) db.now w in
      let (id, kept) = broken_off-same (is_broken db.tasks) db.now ahead in
      (
        update_where (is_broken db.tasks) (broken_off db.now) ahead,
        mem_map (update_where (is_broken db.tasks) (broken_off db.now)) ahead _
            (mem_map (update_where (is_due db.tasks) (advanced db.now)) w db.workflows m),
        id ∙ same,
        λ due. kept ∙ op due,
      )

  advance-Ends : (db : Db R) → (advance quiet db).0 ≡ ok tt
  unfolding advance statement advance_update abort_update update_workflows
  advance-Ends db = refl

  reap-due :
      (e : Engine) (db : Db R) (w : Workflow)
      → is_due db.tasks w ≡ true
      → is_due (reap quiet e db).1.tasks w ≡ true
  reap-due e db w h =
      let frame = Reach-Frame (reap-Runs e quiet (quiet-Plays e) db) in
      let there =
        any-Grows (finished_at w.id w.current_op) db.next_task db.tasks (reap quiet e db).1.tasks
          (finished_at-Evolves w.id w.current_op) frame.grows (ground arith) in
      ground arith

  step_eq :
      (e : Engine) (db : Db R) (again fresh : List (Task × Dispatch))
      → (reap quiet e db).0 ≡ ok again
      → (assign quiet e (advance quiet (reap quiet e db).1).1).0 ≡ ok fresh
      → step quiet e db
        ≡ (ok (again ++ fresh), (assign quiet e (advance quiet (reap quiet e db).1).1).1)
  unfolding step
  step_eq e db again fresh reaped made =
      let db1 = (reap quiet e db).1 in
      then_eq (reap quiet e)
        (λ again. advance quiet >>= λ _. assign quiet e >>= λ fresh. pure (again ++ fresh)) db again
        reaped
      ∙ then_eq (advance quiet) (λ _. assign quiet e >>= λ fresh. pure (again ++ fresh)) db1 tt
          (advance-Ends db1)
      ∙ then_eq (assign quiet e) (λ fresh. pure (again ++ fresh)) (advance quiet db1).1 fresh made

  moved_on :
      (e : Engine) (db : Db R) {after last : Db R}
      → last.workflows ≡ (advance quiet (reap quiet e db).1).1.workflows
      → after ≡ last
      → (w : Workflow) → Memᴰ w db.workflows
      → MovesOn db after w
  moved_on e db {after} {last} same passed w m =
      let n : Memᴰ w (reap quiet e db).1.workflows = rw ((reap-Sparing e db).workflows) m in
      let (v, there, id, op) = advance-MovesOn (reap quiet e db).1 w n in
      (v, rw (passed, same) there, id, λ due. op (reap-due e db w due))

  -- A pass that no other session meets ends without error; after it no running workflow lacks a task
  -- at its current operation, and each workflow whose current task was FINISHED is one operation
  -- further. This holds where all workflows are well placed, as in every state that sessions can reach.
  pub step-serves :
      (e : Engine) (db : Db R)
      → IsPlaced db
      → Ends (step quiet e) db
        × AllServed (step quiet e db).1
        × ((w : Workflow) → Memᴰ w db.workflows → MovesOn db (step quiet e db).1 w)
  step-serves e db h =
      let (again, reaped) = reap-Ends e db in
      let db1 = (reap quiet e db).1 in
      let db2 = (advance quiet db1).1 in
      let placed1 = Reach-IsPlaced (reap-Runs e quiet (quiet-Plays e) db) h in
      let placed2 = Reach-IsPlaced (advance-Runs e quiet (quiet-Plays e) db1) placed1 in
      let ((fresh, made), served, same) = assign-Ends e db2 placed2 in
      let passed = step_eq e db again fresh reaped made in
      (
        (again ++ fresh, ap (λ p. p.0) passed),
        rw passed served,
        moved_on e db same (ap (λ p. p.1) passed),
      )
