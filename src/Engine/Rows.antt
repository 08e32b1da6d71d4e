-- ===== src/Engine/Rows.antt =====
-- How the rows of `task` may change under any statement of internal/engine: the relation `Grows`
-- between the table before and after, and the update primitives of Engine/Store in terms of it.
use gophercast.Prelude.{
  ℕ, ◌≤◌, ◌≡◌, refl, sym, ◌∙◌, Bool, true, false, ◌&&◌, List, [], ◌∷◌, ◌++◌, map, Memᴰ, ok, arith,
  inl, inr, Bool-cases, any, keep, length, All,
}
use gophercast.Engine.Store.{
  TaskRow, Db, is_terminal, is_assigned, update_where, update_tasks, update_tasks_returning,
}

-- A row after some statements, against the same row before them.
pub record Evolves (x y : TaskRow) : Type 0 where
  pub same_id : y.id ≡ x.id
  pub same_workflow : y.workflow_id ≡ x.workflow_id
  pub same_op : y.op_index ≡ x.op_index
  pub same_operation : y.operation ≡ x.operation
  pub frozen : is_terminal x.state ≡ true → y ≡ x
  pub attempts : x.attempt ≤ y.attempt
  pub stays_taken :
      is_assigned x.state ≡ false → y.attempt ≡ x.attempt → is_assigned y.state ≡ false

pub Evolves-refl : (x : TaskRow) → Evolves x x
Evolves-refl x = record {
  same_id = refl;
  same_workflow = refl;
  same_op = refl;
  same_operation = refl;
  frozen = λ h. refl;
  attempts = omega arith;
  stays_taken = λ h e. h;
}

pub Evolves-trans : {x y z : TaskRow} → Evolves x y → Evolves y z → Evolves x z
Evolves-trans {x} {y} {z} f g = record {
  same_id = g.same_id ∙ f.same_id;
  same_workflow = g.same_workflow ∙ f.same_workflow;
  same_op = g.same_op ∙ f.same_op;
  same_operation = g.same_operation ∙ f.same_operation;
  frozen = λ h. g.frozen (rw (f.frozen h) h) ∙ f.frozen h;
  attempts = omega (arith, f.attempts, g.attempts);
  stays_taken = λ h e.
      g.stays_taken (f.stays_taken h (omega (arith, f.attempts, g.attempts)))
        (omega (arith, f.attempts, g.attempts));
}

-- Each row stands at its place and has evolved; the rows behind them have ids from `next` on.
abbrev pub Grows : ℕ → List TaskRow → List TaskRow → Type 0
Grows next [] ys = All (λ y. next ≤ y.id) ys
Grows next (x ∷ xs) [] = ⊥
Grows next (x ∷ xs) (y ∷ ys) = Evolves x y × Grows next xs ys

pub Grows-refl : (next : ℕ) (xs : List TaskRow) → Grows next xs xs
Grows-refl next [] = tt
Grows-refl next (x ∷ xs) = (Evolves-refl x, Grows-refl next xs)

ids_above :
    {m n : ℕ} (xs ys : List TaskRow)
    → m ≤ n
    → All (λ y. m ≤ y.id) xs
    → Grows n xs ys
    → All (λ y. m ≤ y.id) ys
ids_above [] [] le h g = tt
ids_above [] (y ∷ ys) le h g = (omega (arith, g.0), ids_above [] ys le tt g.1)
ids_above (x ∷ xs) [] le h g = absurd g
ids_above (x ∷ xs) (y ∷ ys) le h g = (omega (arith, h.0, g.0.same_id), ids_above xs ys le h.1 g.1)

pub Grows-trans :
    {m n : ℕ} (xs ys zs : List TaskRow) → m ≤ n → Grows m xs ys → Grows n ys zs → Grows m xs zs
Grows-trans [] ys zs le f g = ids_above ys zs le f g
Grows-trans (x ∷ xs) [] zs le f g = absurd f
Grows-trans (x ∷ xs) (y ∷ ys) [] le f g = absurd g
Grows-trans (x ∷ xs) (y ∷ ys) (z ∷ zs) le f g =
    (Evolves-trans f.0 g.0, Grows-trans xs ys zs le f.1 g.1)

pub Grows-append :
    (next : ℕ) (xs ys : List TaskRow) → All (λ y. next ≤ y.id) ys → Grows next xs (xs ++ ys)
Grows-append next [] ys h = h
Grows-append next (x ∷ xs) ys h = (Evolves-refl x, Grows-append next xs ys h)

-- An `update` whose assignments keep the identity columns, and whose condition excludes terminal
-- rows.
pub record Keeps (p : TaskRow → Bool) (f : TaskRow → TaskRow) : Type 0 where
  pub spares : (t : TaskRow) → p t ≡ true → is_terminal t.state ≡ false
  pub evolves : (t : TaskRow) → p t ≡ true → Evolves t (f t)

module _ {p : TaskRow → Bool} {f : TaskRow → TaskRow} (k : Keeps p f) where
  pub update_where-Evolves : (t : TaskRow) → Evolves t (update_where p f t)
  update_where-Evolves t = elim (Bool-cases (p t)) [
    | inl e ↦ rw e (k.evolves t e)
    | inr e ↦ rw e (Evolves-refl t)
  ]

  pub map-Grows : (next : ℕ) (xs : List TaskRow) → Grows next xs (map (update_where p f) xs)
  map-Grows next [] = tt
  map-Grows next (x ∷ xs) = (update_where-Evolves x, map-Grows next xs)

  spared : (t : TaskRow) → (p t && is_terminal t.state) ≡ false
  spared t = elim (Bool-cases (p t)) [ inl e ↦ rw e (k.spares t e) | inr e ↦ rw e ]

  none_terminal : (xs : List TaskRow) → any (λ t. p t && is_terminal t.state) xs ≡ false
  none_terminal [] = refl
  none_terminal (x ∷ xs) = rw (spared x) (none_terminal xs)

  -- The trigger is not fired: the statement updates every matched row.
  pub update_tasks-Keeps :
      {R : Type 0} (db : Db R)
      → update_tasks p f db
        ≡ (ok (length (keep p db.tasks)), record db { tasks = map (update_where p f) db.tasks })
  unfolding update_tasks
  update_tasks-Keeps db = rw (none_terminal db.tasks)

  pub update_tasks_returning-Keeps :
      {R : Type 0} (db : Db R)
      → update_tasks_returning p f db
        ≡ (ok (map f (keep p db.tasks)), record db { tasks = map (update_where p f) db.tasks })
  unfolding update_tasks_returning
  update_tasks_returning-Keeps db = rw (none_terminal db.tasks)

-- A terminal row is in the later table, unchanged.
pub Grows-mem_terminal :
    {t : TaskRow} (next : ℕ) (xs ys : List TaskRow)
    → Grows next xs ys
    → is_terminal t.state ≡ true
    → Memᴰ t xs
    → Memᴰ t ys
Grows-mem_terminal n [] ys g h m = elim m [ ]
Grows-mem_terminal n (x ∷ xs) [] g h m = absurd g
Grows-mem_terminal n (x ∷ xs) (y ∷ ys) g h (Memᴰ.head e) =
    Memᴰ.head (e ∙ sym (g.0.frozen (rw (sym e) h)))
Grows-mem_terminal n (x ∷ xs) (y ∷ ys) g h (Memᴰ.tail m) =
    Memᴰ.tail (Grows-mem_terminal n xs ys g.1 h m)
