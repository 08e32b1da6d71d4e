-- ===== src/Schemastep/Classify.antt =====
-- `ClassifyStatement` and `classifyAlterAction` of internal/schemastep/classify.go, and the serve-read
-- set of internal/serveset/serveset.go.
use gophercast.Prelude.{
  Bool, not, ◌&&◌, ◌||◌, Option, none, some, List, [], ◌∷◌, map, ◌==◌, if◌then◌else◌, any,
}
use gophercast.Text.{Codes, codes, eq_codes, is_nil, trim_space}
use gophercast.Schemastep.Plan.{StmtClass, reader_safe, metadata_ael, rewrite_ael, unknown}
use gophercast.Schemastep.Split.{starts}
use gophercast.Schemastep.Regex.{to_lower, any_of, some_of, lit, matched, occurs}
use gophercast.Schemastep.Patterns.{
  name, re_alter_table, re_table_word, re_create_table, re_create_index, re_create_trigger,
  re_drop_trigger, re_dml, re_grant, re_alter_type, re_set_not_null, re_drop_column, re_validate,
  re_add_fk, re_add_scan, re_not_valid, re_using_index, re_add_column, re_any_default,
  re_const_default, re_drop_constraint, re_set_drop_default,
}

-- `Tables`
abbrev pub serve_tables : List Codes
serve_tables =
    codes "mp_element"
    ∷ codes "publication"
    ∷ codes "publication_element"
    ∷ codes "migration_url_map"
    ∷ []

unfoldable pub contains_table : Codes → Bool
contains_table table = any (λ t. eq_codes t table) serve_tables

abbrev lower : Codes → Codes
lower s = map to_lower s

-- The text behind its last dot.
unfoldable pub after_dot : Codes → Codes → Codes
after_dot best [] = best
after_dot best (c ∷ s) = after_dot (if c == b'.' then s else best) s

unfoldable pub trim_quotes : Codes → Codes
trim_quotes [] = []
trim_quotes (c ∷ s) = let rest = trim_quotes s in if c == b'"' then rest else c ∷ s

unfoldable pub trim_quotes_right : Codes → Codes
trim_quotes_right [] = []
trim_quotes_right (c ∷ s) =
    let rest = trim_quotes_right s in if is_nil rest && c == b'"' then [] else c ∷ rest

unfoldable pub unqualify : Codes → Codes
unfolding to_lower after_dot trim_quotes trim_quotes_right
unqualify name = lower (trim_quotes_right (trim_quotes (after_dot name name)))

unfoldable pub classify_alter_action : Codes → StmtClass
unfolding lit any_of some_of
classify_alter_action action =
    if occurs re_alter_type action
    then rewrite_ael
    else if occurs re_set_not_null action
    then rewrite_ael
    else if occurs re_drop_column action
    then rewrite_ael
    else if starts (codes "rename") action
    then rewrite_ael
    else if occurs re_validate action
    then reader_safe
    else if occurs re_add_fk action
    then reader_safe
    else if occurs re_add_scan action
    then (if occurs re_not_valid action || occurs re_using_index action
        then metadata_ael
        else rewrite_ael)
    else if matched (re_add_column action)
    then (if occurs re_any_default action && not (occurs re_const_default action)
        then rewrite_ael
        else metadata_ael)
    else if occurs re_drop_constraint action
    then metadata_ael
    else if occurs re_set_drop_default action
    then metadata_ael
    else unknown

-- The prefixes of statements without a single target that lock out no reader.
abbrev harmless : List Codes
harmless =
    codes "create or replace function"
    ∷ codes "create function"
    ∷ codes "create extension"
    ∷ codes "create sequence"
    ∷ codes "create schema"
    ∷ codes "create type"
    ∷ codes "comment on"
    ∷ codes "drop index concurrently"
    ∷ codes "select"
    ∷ codes "with"
    ∷ codes "set "
    ∷ []

-- What is tried where the pattern before has no match.
abbrev or_class : StmtClass → Option (Codes × Codes) → StmtClass × Codes → StmtClass × Codes
or_class class none next = next
or_class class (some (table, s)) next = (class, unqualify table)

abbrev alter_class : Option (Codes × Codes) → StmtClass × Codes → StmtClass × Codes
alter_class none next = next
alter_class (some (table, action)) next =
    (classify_alter_action (lower (trim_space action)), unqualify table)

-- On the trimmed statement.
unfoldable pub classify_trimmed : Codes → StmtClass × Codes
unfolding re_alter_table re_table_word re_create_table re_create_index re_create_trigger
    re_drop_trigger re_dml re_grant unqualify classify_alter_action
classify_trimmed s = alter_class (re_alter_table s) (
    or_class rewrite_ael (re_table_word s) (
      or_class reader_safe (re_create_table s) (
        or_class reader_safe (re_create_index s) (
          or_class reader_safe (re_create_trigger s) (
            or_class metadata_ael (re_drop_trigger s) (
              or_class reader_safe (re_dml s) (
                or_class reader_safe (re_grant s) (
                  if any (λ p. starts p (lower s)) harmless
                  then (reader_safe, [])
                  else (unknown, [])))))))))

unfoldable pub classify_statement : Codes → StmtClass × Codes
unfolding classify_trimmed
classify_statement stmt = classify_trimmed (trim_space stmt)
