-- ===== src/Schemastep/Ensured.antt =====
-- internal/serveset/serveset.go: after a run that ends without error, another run changes nothing.
use gophercast.Prelude.{
  ◌≡◌, refl, ap, ◌∙◌, Bool, true, false, Option, none, some, List, [], ◌∷◌, arith, if◌then◌else◌,
  all,
}
use gophercast.Text.{Codes, eq_codes_refl}
use gophercast.Schemastep.Classify.{serve_tables}
use gophercast.Schemastep.ServeRole.{
  Catalog, Call, find_role, create_role, find_schema, find_usage, grant_usage, find_table,
  find_grant, grant_select, CallError, duplicate_object, other_error, is_in, and_then, created,
  usage_granted, select_granted, asked, ensure_created, ensure_usage, ensure_grant, ensure_table,
  ensure_tables, ensure_role,
}
use gophercast.Schemastep.Steady.{is_settled, is_steady, and_then-none, ensure_role-unchanged}

-- A run undoes nothing.
abbrev Keeps : Catalog → Catalog → Type 0
Keeps c d =
    (c.role_exists ≡ true → d.role_exists ≡ true)
    × (c.has_usage ≡ true → d.has_usage ≡ true)
    × ((u : Codes) → is_settled c u ≡ true → is_settled d u ≡ true)

Keeps-refl : (c : Catalog) → Keeps c c
Keeps-refl c = ((λ h. h), (λ h. h), (λ u h. h))

Keeps-trans : (a b c : Catalog) → Keeps a b → Keeps b c → Keeps a c
Keeps-trans a b c (r, u, s) (r', u', s') = ((λ h. r' (r h)), (λ h. u' (u h)), (λ t h. s' t (s t h)))

module _ (fails : Call → Option CallError) where
  created-role :
      (o : Option CallError) (c : Catalog)
      → (created o c).0 ≡ none
      → ((created o c).1.role_exists ≡ true) × Keeps c (created o c).1
  created-role none c h = (refl, ((λ h. refl), (λ h. h), (λ u h. h)))
  created-role (some duplicate_object) c h = (refl, ((λ h. refl), (λ h. h), (λ u h. h)))
  created-role (some other_error) c h = absurd (cc)

  missing-role :
      (b : Bool) (c : Catalog)
      → c.role_exists ≡ b
      → (if b then (none, c) else created (fails create_role) c).0 ≡ none
      → ((if b then (none, c) else created (fails create_role) c).1.role_exists ≡ true)
        × Keeps c (if b then (none, c) else created (fails create_role) c).1
  missing-role true c e h = (e, Keeps-refl c)
  missing-role false c e h = created-role (fails create_role) c h

  ensure_created-role :
      (c : Catalog)
      → (ensure_created fails c).0 ≡ none
      → ((ensure_created fails c).1.role_exists ≡ true) × Keeps c (ensure_created fails c).1
  unfolding ensure_created
  ensure_created-role c h =
      let (asked_fine, rest, same) =
        and_then-none (asked fails find_role c)
          (λ c. if c.role_exists then (none, c) else created (fails create_role) c) h in
      rw (same) (missing-role c.role_exists c refl rest)

  missing-usage :
      (b : Bool) (o : Option CallError) (c : Catalog)
      → c.has_usage ≡ b
      → (if b then (none, c) else usage_granted o c).0 ≡ none
      → ((if b then (none, c) else usage_granted o c).1.has_usage ≡ true)
        × Keeps c (if b then (none, c) else usage_granted o c).1
  missing-usage true o c e h = (e, Keeps-refl c)
  missing-usage false none c e h = (refl, ((λ h. h), (λ h. refl), (λ u h. h)))
  missing-usage false (some f) c e h = absurd (cc)

  ensure_usage-usage :
      (c : Catalog)
      → (ensure_usage fails c).0 ≡ none
      → ((ensure_usage fails c).1.has_usage ≡ true) × Keeps c (ensure_usage fails c).1
  unfolding ensure_usage
  ensure_usage-usage c h =
      let last : Catalog → Option CallError × Catalog =
        λ c. if c.has_usage then (none, c) else usage_granted (fails grant_usage) c in
      let (fine, rest, same) =
        and_then-none (asked fails find_schema c) (λ c. and_then (asked fails find_usage c) last)
          h in
      let (fine', rest', same') = and_then-none (asked fails find_usage c) last rest in
      rw (same, same') (missing-usage c.has_usage (fails grant_usage) c refl rest')

  settled-more :
      (t u : Codes) (c : Catalog)
      → is_settled c u ≡ true
      → is_settled (record c { granted = t ∷ c.granted }) u ≡ true
  settled-more t u c h = ground arith

  missing-grant :
      (b : Bool) (o : Option CallError) (t : Codes) (c : Catalog)
      → is_in t c.granted ≡ b
      → (if b then (none, c) else select_granted t o c).0 ≡ none
      → (is_settled (if b then (none, c) else select_granted t o c).1 t ≡ true)
        × Keeps c (if b then (none, c) else select_granted t o c).1
  missing-grant true o t c e h = (ground arith, Keeps-refl c)
  missing-grant false none t c e h =
      (ground (arith, eq_codes_refl t), ((λ h. h), (λ h. h), (λ u h. settled-more t u c h)))
  missing-grant false (some f) t c e h = absurd (cc)

  existing-grant :
      (b : Bool) (t : Codes) (c : Catalog)
      → is_in t c.tables ≡ b
      → (if b then and_then (asked fails (find_grant t) c) (ensure_grant fails t) else (none, c)).0
        ≡ none
      → (is_settled
            (if b
              then and_then (asked fails (find_grant t) c) (ensure_grant fails t)
              else (none, c)).1
            t
          ≡ true)
        × Keeps c
            (if b
              then and_then (asked fails (find_grant t) c) (ensure_grant fails t)
              else (none, c)).1
  existing-grant true t c e h =
      let (fine, rest, same) =
        and_then-none (asked fails (find_grant t) c) (ensure_grant fails t) h in
      rw (same) (missing-grant (is_in t c.granted) (fails (grant_select t)) t c refl rest)
  existing-grant false t c e h = (ground arith, Keeps-refl c)

  ensure_table-settled :
      (t : Codes) (c : Catalog)
      → (ensure_table fails t c).0 ≡ none
      → (is_settled (ensure_table fails t c).1 t ≡ true) × Keeps c (ensure_table fails t c).1
  unfolding ensure_table
  ensure_table-settled t c h =
      let (fine, rest, same) =
        and_then-none (asked fails (find_table t) c)
          (λ c.
            if is_in t c.tables
            then and_then (asked fails (find_grant t) c) (ensure_grant fails t)
            else (none, c))
          h in
      rw (same) (existing-grant (is_in t c.tables) t c refl rest)

  ensure_tables-settled :
      (ts : List Codes) (c : Catalog)
      → (ensure_tables fails ts c).0 ≡ none
      → (all (is_settled (ensure_tables fails ts c).1) ts ≡ true)
        × Keeps c (ensure_tables fails ts c).1
  unfolding ensure_tables
  ensure_tables-settled [] c h = (refl, Keeps-refl c)
  ensure_tables-settled (t ∷ ts) c h =
      let (fine, rest, same) = and_then-none (ensure_table fails t c) (ensure_tables fails ts) h in
      let d = (ensure_table fails t c).1 in
      let (here, kept) = ensure_table-settled t c fine in
      let (later, kept') = ensure_tables-settled ts d rest in
      (
        ap (λ x. all (is_settled x) (t ∷ ts)) same ∙ rw (kept'.2 t here) later,
        rw (same) (Keeps-trans c d (ensure_tables fails ts d).1 kept kept'),
      )

  -- After a run that ends without error the role exists, may use the schema, and may read those tables of
  -- the serve-read set that exist.
  pub ensure_role-steady :
      (c : Catalog) → (ensure_role fails c).0 ≡ none → is_steady (ensure_role fails c).1 ≡ true
  unfolding ensure_role
  ensure_role-steady c h =
      let usage_then_tables : Catalog → Option CallError × Catalog =
        λ c. and_then (ensure_usage fails c) (ensure_tables fails serve_tables) in
      let (fine, rest, same) = and_then-none (ensure_created fails c) usage_then_tables h in
      let d = (ensure_created fails c).1 in
      let (fine', rest', same') =
        and_then-none (ensure_usage fails d) (ensure_tables fails serve_tables) rest in
      let e = (ensure_usage fails d).1 in
      let (role, kept) = ensure_created-role c fine in
      let (usage, kept') = ensure_usage-usage d fine' in
      let (settled, kept'') = ensure_tables-settled serve_tables e rest' in
      rw (same, same') (rw (kept''.0 (kept'.0 role), kept''.1 usage) settled)

-- A run after one that ended without error changes nothing in the catalog, whatever calls fail.
pub ensure_role-again :
    (fails later : Call → Option CallError) (c : Catalog)
    → (ensure_role fails c).0 ≡ none
    → (ensure_role later (ensure_role fails c).1).1 ≡ (ensure_role fails c).1
ensure_role-again fails later c h =
    ensure_role-unchanged later (ensure_role fails c).1 (ensure_role-steady fails c h)
