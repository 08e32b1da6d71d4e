-- ===== src/Schemastep/Patterns.antt =====
-- The patterns of internal/schemastep/classify.go.
use gophercast.Prelude.{Bool, not, Option}
use gophercast.Text.{Codes}
use gophercast.Schemastep.Regex.{
  Re, is_word, is_blank, is_name, is_column, is_digit, ◌▷◌, optional, either, any_of, some_of,
  one_of, lit, word, blanks, blanks?, word_end, lazily, matched, nothing, capture,
}

abbrev pub name : Re
name = some_of is_name

abbrev pub if_exists : Re
if_exists = optional (word "if" ▷ blanks ▷ word "exists" ▷ blanks)

abbrev pub if_not_exists : Re
if_not_exists = optional (word "if" ▷ blanks ▷ word "not" ▷ blanks ▷ word "exists" ▷ blanks)

abbrev pub only : Re
only = optional (word "only" ▷ blanks)

-- The table, and the text of the action behind it.
unfoldable pub re_alter_table : Codes → Option (Codes × Codes)
re_alter_table =
    capture (word "alter" ▷ blanks ▷ word "table" ▷ blanks ▷ if_exists ▷ only) name blanks

abbrev pub rewriting : Re
rewriting = either (word "truncate" ▷ optional (blanks ▷ word "table")) (
    either (word "cluster") (
      either (word "vacuum" ▷ blanks ▷ word "full") (
        word "drop"
        ▷ blanks
        ▷ word "table"
        ▷ optional (blanks ▷ word "if" ▷ blanks ▷ word "exists"))))

unfoldable pub re_table_word : Codes → Option (Codes × Codes)
re_table_word = capture (rewriting ▷ blanks ▷ only) name nothing

unfoldable pub re_create_table : Codes → Option (Codes × Codes)
re_create_table =
    capture
      (word "create"
        ▷ blanks
        ▷ optional (word "unlogged" ▷ blanks)
        ▷ word "table"
        ▷ blanks
        ▷ if_not_exists)
      name nothing

unfoldable pub re_create_index : Codes → Option (Codes × Codes)
re_create_index =
    capture
      (word "create"
        ▷ blanks
        ▷ optional (word "unique" ▷ blanks)
        ▷ word "index"
        ▷ blanks
        ▷ optional (word "concurrently" ▷ blanks)
        ▷ if_not_exists
        ▷ any_of is_name
        ▷ blanks?
        ▷ word "on"
        ▷ blanks
        ▷ only)
      name nothing

unfoldable pub re_create_trigger : Codes → Option (Codes × Codes)
re_create_trigger =
    capture
      (word "create"
        ▷ blanks
        ▷ optional (word "or" ▷ blanks ▷ word "replace" ▷ blanks)
        ▷ optional (word "constraint" ▷ blanks)
        ▷ word "trigger"
        ▷ blanks
        ▷ lazily is_blank
        ▷ word "on"
        ▷ blanks)
      name nothing

unfoldable pub re_drop_trigger : Codes → Option (Codes × Codes)
re_drop_trigger =
    capture
      (word "drop"
        ▷ blanks
        ▷ word "trigger"
        ▷ blanks
        ▷ if_exists
        ▷ name
        ▷ blanks
        ▷ word "on"
        ▷ blanks)
      name nothing

unfoldable pub re_dml : Codes → Option (Codes × Codes)
re_dml =
    capture
      (either (word "insert" ▷ blanks ▷ word "into") (
          either (word "update")
            (either (word "delete" ▷ blanks ▷ word "from") (word "merge" ▷ blanks ▷ word "into")))
        ▷ blanks
        ▷ only)
      name nothing

unfoldable pub re_grant : Codes → Option (Codes × Codes)
re_grant =
    capture
      (either (word "grant") (word "revoke")
        ▷ word_end
        ▷ lazily (λ c. not (is_word c))
        ▷ word "on"
        ▷ blanks
        ▷ optional (word "table" ▷ blanks))
      name nothing

-- `[\w"]+` between blanks, the column of an action.
abbrev pub column : Re
column = word "alter" ▷ blanks ▷ word "column" ▷ blanks ▷ some_of is_column ▷ blanks

abbrev pub constraint : Re
constraint = optional (word "constraint" ▷ blanks ▷ some_of is_column ▷ blanks)

abbrev pub re_alter_type : Re
re_alter_type =
    column ▷ optional (word "set" ▷ blanks ▷ word "data" ▷ blanks) ▷ word "type" ▷ word_end

abbrev pub re_set_not_null : Re
re_set_not_null = word "set" ▷ blanks ▷ word "not" ▷ blanks ▷ word "null" ▷ word_end

abbrev pub re_drop_column : Re
re_drop_column = word "drop" ▷ blanks ▷ word "column" ▷ word_end

abbrev pub re_validate : Re
re_validate = word "validate" ▷ blanks ▷ word "constraint" ▷ word_end

abbrev pub re_add_fk : Re
re_add_fk = word "add" ▷ blanks ▷ constraint ▷ word "foreign" ▷ blanks ▷ word "key" ▷ word_end

abbrev pub re_add_scan : Re
re_add_scan =
    word "add"
    ▷ blanks
    ▷ constraint
    ▷ either (word "check")
        (either (word "unique") (either (word "primary" ▷ blanks ▷ word "key") (word "exclude")))
    ▷ word_end

abbrev pub re_not_valid : Re
re_not_valid = word "not" ▷ blanks ▷ word "valid" ▷ word_end

abbrev pub re_using_index : Re
re_using_index = word "using" ▷ blanks ▷ word "index" ▷ word_end

abbrev pub re_add_column : Re
re_add_column =
    word "add"
    ▷ blanks
    ▷ optional (word "column" ▷ blanks)
    ▷ if_not_exists
    ▷ some_of is_column
    ▷ one_of is_blank

abbrev pub re_any_default : Re
re_any_default = word "default" ▷ word_end

abbrev pub re_const_default : Re
re_const_default =
    word "default"
    ▷ blanks
    ▷ either (optional (word "-") ▷ one_of is_digit) (
        either (word "'") (
          either (word "true" ▷ word_end)
            (either (word "false" ▷ word_end) (word "null" ▷ word_end))))

abbrev pub re_drop_constraint : Re
re_drop_constraint = word "drop" ▷ blanks ▷ word "constraint" ▷ word_end

abbrev pub re_set_drop_default : Re
re_set_drop_default =
    column ▷ either (word "set") (word "drop") ▷ blanks ▷ word "default" ▷ word_end

-- The pattern of a statement in a concurrent-index step.
unfoldable pub is_concurrent_index : Codes → Bool
unfolding lit some_of
is_concurrent_index stmt = matched (
    (word "create"
        ▷ blanks
        ▷ optional (word "unique" ▷ blanks)
        ▷ word "index"
        ▷ blanks
        ▷ word "concurrently"
        ▷ one_of is_blank)
      stmt)
