-- ===== src/Engine/Dispatch.antt =====
-- Execution classes and resource specs in internal/engine: what the class table answers, and the way
-- of a spec through the task's columns.
use gophercast.Prelude.{
  ℕ, ◌≡◌, ◌↔◌, refl, String, Bool, true, false, not, ◌||◌, List, [], ◌∷◌, ◌++◌, map, Option, none,
  some, ok, inl, inr, arith, if◌then◌else◌, Bool-cases, any, all, find?, str_eq, eq_iff,
}
use mathlib.Core.List.{append-nil}
use gophercast.Prelude.Int.{ℤ, pos, negsuc}
use gophercast.Engine.Store.{Spec, OpDef, Workflow, Db}
use gophercast.Engine.Class.{
  ExecClass, unknown, worker, inline, unclear, inline_ops, unclear_ops, worker_ops, entry,
  class_or_unknown, class_of,
}
use gophercast.Engine.Client.{find_task, get_spec, coalesce_zero, spec_of_columns}
use gophercast.Engine.Statements.{omit_zero, spec_columns, new_row}
use gophercast.Engine.Races.{quiet}

pub contains : List String → String → Bool
contains xs op = any (str_eq op) xs

find?-entries :
    (c : ExecClass) (op : String) (xs : List String) (rest : List (String × ExecClass))
    → class_or_unknown (find? (λ e. str_eq op e.0) (map (entry c) xs ++ rest))
      ≡ (if contains xs op then c else class_or_unknown (find? (λ e. str_eq op e.0) rest))
unfolding contains
find?-entries c op [] rest = refl
find?-entries c op (x ∷ xs) rest = ground (arith, find?-entries c op xs rest)

class_of_lem :
    (op : String)
    → class_of op ≡ (
        if contains inline_ops op
        then inline
        else (if contains unclear_ops op
            then unclear
            else (if contains worker_ops op then worker else unknown)))
unfolding class_of
class_of_lem op =
    rw
      (find?-entries inline op inline_ops
        (map (entry unclear) unclear_ops ++ map (entry worker) worker_ops))
      (rw (find?-entries unclear op unclear_ops (map (entry worker) worker_ops)) (
        rw (← append-nil (map (entry worker) worker_ops))
          (rw (find?-entries worker op worker_ops []))))

-- Two lists of names that share none.
disjoint :
    (xs ys : List String) (op : String)
    → all (λ o. not (contains ys o)) xs ≡ true
    → contains xs op ≡ true
    → contains ys op ≡ false
unfolding contains
disjoint [] ys op h m = cc
disjoint (x ∷ xs) ys op h m = elim (Bool-cases (str_eq op x)) [
  | inl e ↦ rw ((eq_iff op x).0 e) (ground arith)
  | inr e ↦ disjoint xs ys op (ground arith) (ground arith)
]

inline_apart : all (λ o. not (contains unclear_ops o)) inline_ops ≡ true
unfolding contains inline_ops unclear_ops
inline_apart = refl

inline_not_worker : all (λ o. not (contains worker_ops o)) inline_ops ≡ true
unfolding contains inline_ops worker_ops
inline_not_worker = refl

unclear_not_worker : all (λ o. not (contains worker_ops o)) unclear_ops ≡ true
unfolding contains unclear_ops worker_ops
unclear_not_worker = refl

-- The table gives an operation the class under which the source lists it, no operation is listed
-- under two classes, and one that is not listed has no class.
pub class_of_iff :
    (op : String)
    → ((class_of op ≡ worker) ↔ (contains worker_ops op ≡ true))
      × ((class_of op ≡ inline) ↔ (contains inline_ops op ≡ true))
      × ((class_of op ≡ unclear) ↔ (contains unclear_ops op ≡ true))
      × ((class_of op ≡ unknown) ↔ (
          (contains worker_ops op || (contains inline_ops op || contains unclear_ops op)) ≡ false))
class_of_iff op = rw (class_of_lem op) (
    ground (
      arith,
      disjoint inline_ops unclear_ops op inline_apart,
      disjoint inline_ops worker_ops op inline_not_worker,
      disjoint unclear_ops worker_ops op unclear_not_worker,
    ))

coalesce-omit : (z : ℤ) → coalesce_zero (omit_zero z) ≡ z
unfolding coalesce_zero omit_zero
coalesce-omit (pos n) = ground arith
coalesce-omit (negsuc n) = refl

-- A definition without a spec states no dimension.
abbrev pub stated : Option Spec → Spec
stated none = record { cpu_millis = pos 0; memory_mb = pos 0; gpu = pos 0; runtime_s = pos 0 }
stated (some s) = s

spec_of_columns-spec_columns : (s : Option Spec) → spec_of_columns (spec_columns s) ≡ stated s
unfolding spec_of_columns spec_columns coalesce_zero
spec_of_columns-spec_columns none = refl
spec_of_columns-spec_columns (some s) = rw (
  coalesce-omit s.cpu_millis,
  coalesce-omit s.memory_mb,
  coalesce-omit s.gpu,
  coalesce-omit s.runtime_s,
)

-- The spec that a worker reads back for a task is the one in the workflow's definition; a
-- dimension that is not stated, or all of them, reads as 0.
pub get_spec-new_row :
    {R : Type 0} (now lease id : ℕ) (w : Workflow) (op : OpDef) (db : Db R)
    → find_task id db ≡ some (new_row now lease id w op)
    → get_spec quiet id db ≡ (ok (stated op.spec), db)
unfolding get_spec new_row
get_spec-new_row now lease id w op db h = rw h (rw (spec_of_columns-spec_columns op.spec))
