-- ===== src/Definitions/Registry.antt =====
-- internal/definitions/registry.go: the definitions that execution reads, through a cache.
use gophercast.Prelude.{
  ℕ, ◌-◌, ltb, String, Option, none, some, List, if◌then◌else◌, Result, ok, err, str_eq,
}
use gophercast.Prelude.Int.{ℤ, pos, negsuc}
use gophercast.Prelude.Table.{find_by, put_by}
use gophercast.Engine.Store.{Definition}
use gophercast.Definitions.Parse.{ParseError, Texts, parse}

-- A row of `workflow_definition`.
pub record DefRow : Type 0 where
  pub id : String
  pub yaml : String
  pub hash : String

abbrev pub def_id : DefRow → String
def_id r = r.id

-- A cached answer, with the hash where there is a definition.
pub record Entry : Type 0 where
  pub id : String
  pub answer : Option (Definition × String)
  pub at : ℕ

abbrev pub entry_id : Entry → String
entry_id e = e.id

pub data RegistryError : Type 0 where
  unreachable wrong_id : RegistryError
  bad_row : ParseError → RegistryError

-- Two seconds where none is set, in nanoseconds.
abbrev pub ttl_of : ℤ → ℕ
ttl_of (pos n) = if ltb 0 n then n else 2000000000
ttl_of (negsuc n) = 2000000000

abbrev pub definition_of : Option (Definition × String) → Option Definition
definition_of none = none
definition_of (some (def, hash)) = some def

abbrev pub checked_id :
    String
    → String
    → Result ParseError (String × Definition)
    → Result RegistryError (Option (Definition × String))
checked_id id hash (err e) = err (bad_row e)
checked_id id hash (ok (parsed_id, def)) =
    if str_eq parsed_id id then ok (some (def, hash)) else err wrong_id

-- What the table says of a definition.
unfoldable pub stored :
    Texts → List DefRow → String → Result RegistryError (Option (Definition × String))
unfolding parse
stored t rows id = elim (find_by def_id id rows) [
  | none ↦ ok none
  | some r ↦ checked_id id r.hash (parse t r.yaml)
]

abbrev pub is_fresh : ℤ → ℕ → Option Entry → Option Entry
is_fresh ttl now none = none
is_fresh ttl now (some e) = if ltb (now - e.at) (ttl_of ttl) then some e else none

-- Only what the table says without error is cached.
abbrev pub remember :
    String
    → ℕ
    → Result RegistryError (Option (Definition × String))
    → List Entry
    → Result RegistryError (Option Definition) × List Entry
remember id later (err e) cache = (err e, cache)
remember id later (ok answer) cache = (
  ok (definition_of answer),
  put_by entry_id (record { id = id; answer = answer; at = later }) cache,
)

abbrev pub or_query :
    Option Entry
    → Result RegistryError (Option Definition) × List Entry
    → List Entry
    → Result RegistryError (Option Definition) × List Entry
or_query none asked cache = asked
or_query (some e) asked cache = (ok (definition_of e.answer), cache)

-- One lookup: when it reads the cache, whether the database answers, with which rows, and when the
-- answer is cached, into what other lookups have made of the cache.
pub record Asking : Type 0 where
  pub now : ℕ
  pub rows : Option (List DefRow)
  pub others : List Entry → List Entry
  pub later : ℕ

abbrev pub answer_of :
    Texts → Option (List DefRow) → String → Result RegistryError (Option (Definition × String))
answer_of t none id = err unreachable
answer_of t (some rows) id = stored t rows id

unfoldable pub definition :
    Texts → ℤ → Asking → String → List Entry → Result RegistryError (Option Definition) × List Entry
unfolding stored
definition t ttl a id cache =
    or_query (is_fresh ttl a.now (find_by entry_id id cache))
      (remember id a.later (answer_of t a.rows id) (a.others cache)) cache
