-- ===== src/Engine/Served.antt =====
-- internal/engine/engine.go: which running workflows the insert of `assign` serves.
use gophercast.Prelude.{
  ℕ, zero, suc, ◌<◌, ◌≡◌, refl, Bool, true, false, List, [], ◌∷◌, ◌++◌, some, ok, arith, inl, inr,
  Bool-cases, any, keep, length, get_elem?, All,
}
use gophercast.Engine.Store.{TaskRow, Workflow, OpDef, Db, is_active}
use gophercast.Engine.Statements.{
  Inserted, is_task_of, lacks_task, new_row, with_created, insert_rows, assign_insert,
}
use gophercast.Engine.Insertion.{with_row, insert_rows_ind}
use gophercast.Engine.Progress.{WellPlaced, IsPlaced}

get_elem?-some {ℓ} :
    {A : Type ℓ} (xs : List A) (i : ℕ) → i < length xs → (a : A) × (get_elem? xs i ≡ some a)
get_elem?-some [] i h = elim h [ ]
get_elem?-some (x ∷ xs) zero h = (x, refl)
get_elem?-some (x ∷ xs) (suc i) h = get_elem?-some xs i (omega arith)

-- The current operation of the workflow has a task.
abbrev pub IsServed : List TaskRow → Workflow → Type 0
IsServed tasks w = any (is_task_of w.id w.current_op) tasks ≡ true

any-append_left {ℓ} :
    {A : Type ℓ} (q : A → Bool) (xs ys : List A) → any q xs ≡ true → any q (xs ++ ys) ≡ true
any-append_left q [] ys h = cc
any-append_left q (x ∷ xs) ys h = ground (arith, any-append_left q xs ys)

any-snoc_self {ℓ} :
    {A : Type ℓ} (q : A → Bool) (xs : List A) (y : A) → q y ≡ true → any q (xs ++ y ∷ []) ≡ true
any-snoc_self q [] y h = rw h
any-snoc_self q (x ∷ xs) y h = ground (arith, any-snoc_self q xs y)

with_row-IsServed :
    (now lease n : ℕ) (w : Workflow) (op : OpDef) (tasks : List TaskRow)
    → IsServed (with_row now lease n w op tasks) w
unfolding new_row
with_row-IsServed now lease n w op tasks =
    elim (Bool-cases (any (is_task_of w.id w.current_op) tasks)) [
      | inl e ↦ rw e e
      | inr e ↦ rw e (any-snoc_self (is_task_of w.id w.current_op) tasks _ (ground arith))
    ]

with_row-any :
    (q : TaskRow → Bool) (now lease n : ℕ) (w : Workflow) (op : OpDef) (tasks : List TaskRow)
    → any q tasks ≡ true
    → any q (with_row now lease n w op tasks) ≡ true
with_row-any q now lease n w op tasks h =
    elim (Bool-cases (any (is_task_of w.id w.current_op) tasks)) [
      | inl e ↦ rw e h
      | inr e ↦ rw e (any-append_left q tasks _ h)
    ]

insert_rows-any :
    (q : TaskRow → Bool) (now lease n : ℕ) (ws : List Workflow) (tasks : List TaskRow)
    {r : Inserted}
    → insert_rows now lease ws tasks n ≡ some r
    → any q tasks ≡ true
    → any q r.tasks ≡ true
insert_rows-any q now lease n ws tasks {r} e h = rw e at (
    insert_rows_ind (λ ts m. any q ts ≡ true) now lease
      (λ w op ts m k. with_row-any q now lease m w op ts k) ws tasks n h)

insert_rows-serves :
    (now lease n : ℕ) (ws : List Workflow) (tasks : List TaskRow)
    → All (λ w. w.current_op < length w.definition) ws
    → (r : Inserted) × (insert_rows now lease ws tasks n ≡ some r) × All (IsServed r.tasks) ws
unfolding insert_rows
insert_rows-serves now lease n [] tasks h = (_, refl, tt)
insert_rows-serves now lease n (w ∷ ws) tasks h =
    let (op, found) = get_elem?-some w.definition w.current_op h.0 in
    let (r, e, served) =
      insert_rows-serves now lease (suc n) ws (with_row now lease n w op tasks) h.1 in
    (
      with_created (any (is_task_of w.id w.current_op) tasks) (new_row now lease n w op) r,
      rw (found, insert_rows) (rw e),
      (
        insert_rows-any (is_task_of w.id w.current_op) now lease (suc n) ws
            (with_row now lease n w op tasks) e (with_row-IsServed now lease n w op tasks),
        served,
      ),
    )

in_range-keep :
    (tasks : List TaskRow) (p : Workflow → Bool) (ws : List Workflow)
    → ((w : Workflow) → p w ≡ true → is_active w.state ≡ true)
    → All (WellPlaced tasks) ws
    → All (λ w. w.current_op < length w.definition) (keep p ws)
in_range-keep tasks p [] sound h = tt
in_range-keep tasks p (w ∷ ws) sound h = elim (Bool-cases (p w)) [
  | inl e ↦ rw e (h.0.in_range (ground (arith, sound w)), in_range-keep tasks p ws sound h.1)
  | inr e ↦ rw e (in_range-keep tasks p ws sound h.1)
]

-- What holds of the kept and of the others holds of all.
All-keep {κ} :
    (Q : Workflow → Type κ) (p : Workflow → Bool) (ws : List Workflow)
    → ((w : Workflow) → p w ≡ false → Q w)
    → All Q (keep p ws)
    → All Q ws
All-keep Q p [] others h = tt
All-keep Q p (w ∷ ws) others h = elim (Bool-cases (p w)) [
  | inl e ↦ let (now, rest) = rw e at h in (now, All-keep Q p ws others rest)
  | inr e ↦ (others w e, All-keep Q p ws others (rw e at h))
]

-- No running workflow lacks a task at its current operation.
abbrev pub AllServed : {R : Type 0} → Db R → Type 0
AllServed db = All (λ w. lacks_task db.tasks w ≡ false) db.workflows

weaken :
    (ts : List TaskRow) (ws : List Workflow)
    → All (IsServed ts) ws
    → All (λ w. lacks_task ts w ≡ false) ws
weaken ts [] k = tt
weaken ts (w ∷ ws) k = (ground (arith, k.0), weaken ts ws k.1)

still_served :
    (ts : List TaskRow) (us : List TaskRow) (w : Workflow)
    → lacks_task ts w ≡ false
    → (any (is_task_of w.id w.current_op) ts ≡ true → any (is_task_of w.id w.current_op) us ≡ true)
    → lacks_task us w ≡ false
still_served ts us w h k = ground (arith, k)

-- The insert of `assign`, where its snapshot is the table, succeeds (no current operation is missing from its definition), and after
-- it no running workflow lacks a task at its current operation. This holds where all workflows are
-- well placed, as in every state that sessions can reach.
pub assign_insert-serves :
    {R : Type 0} (db : Db R) (lease : ℕ)
    → IsPlaced db
    → (created : List TaskRow) × ((assign_insert lease db db).0 ≡ ok created)
      × AllServed (assign_insert lease db db).1
unfolding assign_insert
assign_insert-serves db lease h =
    let ws = keep (lacks_task db.tasks) db.workflows in
    let (r, e, served) =
      insert_rows-serves db.now lease db.next_task ws db.tasks
        (in_range-keep db.tasks (lacks_task db.tasks) db.workflows (λ w k. ground arith) h) in
    (
      r.created,
      rw (e, assign_insert),
      rw (e, assign_insert)
          (All-keep (λ w. lacks_task r.tasks w ≡ false) (lacks_task db.tasks) db.workflows
            (λ w had. still_served db.tasks r.tasks w had (
              insert_rows-any (is_task_of w.id w.current_op) db.now lease db.next_task ws db.tasks
                e))
            (weaken r.tasks ws served)),
    )
