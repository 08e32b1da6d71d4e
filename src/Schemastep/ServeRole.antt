-- ===== src/Schemastep/ServeRole.antt =====
-- `EnsureRole` of internal/serveset/serveset.go.
use gophercast.Prelude.{Bool, true, Option, none, some, List, [], ◌∷◌, if◌then◌else◌, any}
use gophercast.Text.{Codes, eq_codes}
use gophercast.Schemastep.Classify.{serve_tables}

-- What the database knows of the role: the tables of the schema, and those that it may read.
pub record Catalog : Type 0 where
  pub role_exists : Bool
  pub has_usage : Bool
  pub tables : List Codes
  pub granted : List Codes

-- The calls on the database, in the code's order.
pub data Call : Type 0 where
  find_role create_role find_schema find_usage grant_usage : Call
  find_table find_grant grant_select : Codes → Call

pub data CallError : Type 0 where
  duplicate_object other_error : CallError

abbrev pub is_in : Codes → List Codes → Bool
is_in t ts = any (eq_codes t) ts

abbrev pub and_then :
    Option CallError × Catalog → (Catalog → Option CallError × Catalog) → Option CallError × Catalog
and_then (some e, c) k = (some e, c)
and_then (none, c) k = k c

-- A lost race for the role is no error.
abbrev pub created : Option CallError → Catalog → Option CallError × Catalog
created none c = (none, record c { role_exists = true })
created (some duplicate_object) c = (none, record c { role_exists = true })
created (some other_error) c = (some other_error, c)

abbrev pub usage_granted : Option CallError → Catalog → Option CallError × Catalog
usage_granted none c = (none, record c { has_usage = true })
usage_granted (some e) c = (some e, c)

abbrev pub select_granted : Codes → Option CallError → Catalog → Option CallError × Catalog
select_granted t none c = (none, record c { granted = t ∷ c.granted })
select_granted t (some e) c = (some e, c)

-- What calls fail; `create role` also with the error of an object that exists.
module _ (fails : Call → Option CallError) where
  abbrev pub asked : Call → Catalog → Option CallError × Catalog
  asked call c = (fails call, c)

  unfoldable pub ensure_created : Catalog → Option CallError × Catalog
  ensure_created c =
      and_then (asked find_role c)
        (λ c. if c.role_exists then (none, c) else created (fails create_role) c)

  unfoldable pub ensure_usage : Catalog → Option CallError × Catalog
  ensure_usage c = and_then (asked find_schema c) (λ c.
      and_then (asked find_usage c)
        (λ c. if c.has_usage then (none, c) else usage_granted (fails grant_usage) c))

  abbrev pub ensure_grant : Codes → Catalog → Option CallError × Catalog
  ensure_grant t c =
      if is_in t c.granted then (none, c) else select_granted t (fails (grant_select t)) c

  unfoldable pub ensure_table : Codes → Catalog → Option CallError × Catalog
  ensure_table t c = and_then (asked (find_table t) c) (λ c.
      if is_in t c.tables then and_then (asked (find_grant t) c) (ensure_grant t) else (none, c))

  unfoldable pub ensure_tables : List Codes → Catalog → Option CallError × Catalog
  unfolding ensure_table
  ensure_tables [] c = (none, c)
  ensure_tables (t ∷ ts) c = and_then (ensure_table t c) (ensure_tables ts)

  unfoldable pub ensure_role : Catalog → Option CallError × Catalog
  unfolding ensure_created ensure_usage ensure_tables
  ensure_role c =
      and_then (ensure_created c) (λ c. and_then (ensure_usage c) (ensure_tables serve_tables))
