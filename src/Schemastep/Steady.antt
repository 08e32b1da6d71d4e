-- ===== src/Schemastep/Steady.antt =====
-- internal/serveset/serveset.go: a run of EnsureRole where nothing is missing.
use gophercast.Prelude.{
  ◌≡◌, refl, Bool, true, not, ◌&&◌, ◌||◌, Option, none, some, List, [], ◌∷◌, arith, if◌then◌else◌,
  all, inl, inr, Bool-cases,
}
use gophercast.Text.{Codes}
use gophercast.Schemastep.Classify.{serve_tables}
use gophercast.Schemastep.ServeRole.{
  Catalog, Call, find_role, create_role, find_schema, find_usage, grant_usage, find_table,
  find_grant, CallError, is_in, and_then, created, usage_granted, asked, ensure_created,
  ensure_usage, ensure_grant, ensure_table, ensure_tables, ensure_role,
}

-- The table can be read if it is there.
abbrev pub is_settled : Catalog → Codes → Bool
is_settled c t = not (is_in t c.tables) || is_in t c.granted

abbrev pub is_steady : Catalog → Bool
is_steady c = c.role_exists && (c.has_usage && all (is_settled c) serve_tables)

pub and_then-none :
    (r : Option CallError × Catalog) (k : Catalog → Option CallError × Catalog)
    → (and_then r k).0 ≡ none
    → (r.0 ≡ none) × ((k r.1).0 ≡ none) × ((and_then r k).1 ≡ (k r.1).1)
and_then-none (none, c) k h = (refl, h, refl)
and_then-none (some e, c) k h = absurd (cc)

and_then-unchanged :
    (r : Option CallError × Catalog) (k : Catalog → Option CallError × Catalog) (c : Catalog)
    → r.1 ≡ c
    → (k c).1 ≡ c
    → (and_then r k).1 ≡ c
and_then-unchanged (none, d) k c h g = rw (h) g
and_then-unchanged (some e, d) k c h g = h

module _ (fails : Call → Option CallError) where
  ensure_created-unchanged : (c : Catalog) → c.role_exists ≡ true → (ensure_created fails c).1 ≡ c
  unfolding ensure_created
  ensure_created-unchanged c h =
      and_then-unchanged (asked fails find_role c)
        (λ c. if c.role_exists then (none, c) else created (fails create_role) c) c refl (rw (h))

  ensure_usage-unchanged : (c : Catalog) → c.has_usage ≡ true → (ensure_usage fails c).1 ≡ c
  unfolding ensure_usage
  ensure_usage-unchanged c h =
      and_then-unchanged (asked fails find_schema c)
        (λ c.
          and_then (asked fails find_usage c)
            (λ c. if c.has_usage then (none, c) else usage_granted (fails grant_usage) c))
        c refl
        (and_then-unchanged (asked fails find_usage c)
          (λ c. if c.has_usage then (none, c) else usage_granted (fails grant_usage) c) c refl
          (rw (h)))

  ensure_table-unchanged :
      (t : Codes) (c : Catalog) → is_settled c t ≡ true → (ensure_table fails t c).1 ≡ c
  unfolding ensure_table
  ensure_table-unchanged t c h =
      and_then-unchanged (asked fails (find_table t) c)
        (λ c.
          if is_in t c.tables
          then and_then (asked fails (find_grant t) c) (ensure_grant fails t)
          else (none, c))
        c refl
        (elim (Bool-cases (is_in t c.tables)) [
          | inl y ↦ rw (y) (
              and_then-unchanged (asked fails (find_grant t) c) (ensure_grant fails t) c refl
                (let held : is_in t c.granted ≡ true = ground arith in rw (held)))
          | inr n ↦ rw (n)
        ])

  ensure_tables-unchanged :
      (ts : List Codes) (c : Catalog)
      → all (is_settled c) ts ≡ true
      → (ensure_tables fails ts c).1 ≡ c
  unfolding ensure_tables
  ensure_tables-unchanged [] c h = refl
  ensure_tables-unchanged (t ∷ ts) c h =
      and_then-unchanged (ensure_table fails t c) (ensure_tables fails ts) c
        (ensure_table-unchanged t c (ground arith)) (ensure_tables-unchanged ts c (ground arith))

  -- Where role and grants are as they are to be, a run issues nothing.
  pub ensure_role-unchanged : (c : Catalog) → is_steady c ≡ true → (ensure_role fails c).1 ≡ c
  unfolding ensure_role
  ensure_role-unchanged c h =
      and_then-unchanged (ensure_created fails c)
        (λ c. and_then (ensure_usage fails c) (ensure_tables fails serve_tables)) c
        (ensure_created-unchanged c (ground arith))
        (and_then-unchanged (ensure_usage fails c) (ensure_tables fails serve_tables) c
          (ensure_usage-unchanged c (ground arith))
          (ensure_tables-unchanged serve_tables c (ground arith)))
