-- ===== src/Engine/Insertion.antt =====
-- The insertion loop of `assignSQL` in internal/engine/engine.go: what it adds to the table.
use mathlib.Core.Option
use gophercast.Prelude.{
  ℕ, suc, ◌≤◌, Option, none, some, List, [], ◌∷◌, ◌++◌, arith, inl, inr, if◌then◌else◌, Bool-cases,
  Option-cases, any, get_elem?,
}
use gophercast.Engine.Store.{TaskRow, Workflow, OpDef}
use gophercast.Engine.Statements.{Inserted, is_task_of, new_row, with_created, insert_rows}
use gophercast.Engine.Rows.{Grows, Grows-refl, Grows-trans, Grows-append}

-- What holds of the rows inserted, if the statement ends well.
abbrev pub OnSome {ℓ} : (Inserted → Type ℓ) → Option Inserted → Type ℓ
OnSome P none = Unit
OnSome P (some r) = P r

pub OnSome-map {ℓ} :
    (P Q : Inserted → Type ℓ) (f : Inserted → Inserted) (o : Option Inserted)
    → ((r : Inserted) → P r → Q (f r))
    → OnSome P o
    → OnSome Q (Option.map f o)
OnSome-map P Q f none g h = tt
OnSome-map P Q f (some r) g h = g r h

-- The table with the row of `w`, unless one stands there.
abbrev pub with_row : ℕ → ℕ → ℕ → Workflow → OpDef → List TaskRow → List TaskRow
with_row now lease next w op tasks =
    if any (is_task_of w.id w.current_op) tasks
    then tasks
    else tasks ++ new_row now lease next w op ∷ []

with_row-Grows :
    (now lease next : ℕ) (w : Workflow) (op : OpDef) (tasks : List TaskRow)
    → Grows next tasks (with_row now lease next w op tasks)
unfolding new_row
with_row-Grows now lease next w op tasks =
    elim (Bool-cases (any (is_task_of w.id w.current_op) tasks)) [
      | inl e ↦ rw e (Grows-refl next tasks)
      | inr e ↦ rw e (Grows-append next tasks _ (omega arith))
    ]

-- An invariant of the loop: `P` holds of the table and the next id, and each insertion keeps it.
pub insert_rows_ind {ℓ} :
    (P : List TaskRow → ℕ → Type ℓ) (now lease : ℕ)
    → ((w : Workflow) (op : OpDef) (tasks : List TaskRow) (next : ℕ)
        → P tasks next
        → P (with_row now lease next w op tasks) (suc next))
    → (ws : List Workflow) (tasks : List TaskRow) (next : ℕ) → P tasks next
    → OnSome (λ r. P r.tasks r.next_task) (insert_rows now lease ws tasks next)
unfolding insert_rows
insert_rows_ind P now lease keep [] tasks next h = h
insert_rows_ind P now lease keep (w ∷ ws) tasks next h =
    elim (Option-cases (get_elem? w.definition w.current_op)) [
      | inl e ↦ rw (e, insert_rows) tt
      | inr (op, e) ↦
          rw (e, insert_rows)
            (OnSome-map (λ r. P r.tasks r.next_task) (λ r. P r.tasks r.next_task)
              (with_created (any (is_task_of w.id w.current_op) tasks)
                (new_row now lease next w op))
              (insert_rows now lease ws (with_row now lease next w op tasks) (suc next)) (λ r p. p)
              (insert_rows_ind P now lease keep ws (with_row now lease next w op tasks) (suc next)
                (keep w op tasks next h)))
    ]

pub insert_rows-Grows :
    (now lease : ℕ) (ws : List Workflow) (tasks : List TaskRow) (next : ℕ)
    → OnSome
        (λ r. Grows next tasks r.tasks × (next ≤ r.next_task))
        (insert_rows now lease ws tasks next)
insert_rows-Grows now lease ws tasks next =
    insert_rows_ind (λ ts n. Grows next tasks ts × (next ≤ n)) now lease
      (λ w op ts n h.
        (Grows-trans tasks ts _ h.1 h.0 (with_row-Grows now lease n w op ts), omega (arith, h.1)))
      ws tasks next (Grows-refl next tasks, omega arith)
