-- ===== src/Schemastep/Checker.antt =====
-- `Check` of internal/schemastep/classify.go with its own reading of SQL and the serve-read set.
use gophercast.Prelude.{◌≡◌, refl, true, ◌++◌}
use gophercast.Text.{Codes, codes}
use gophercast.Schemastep.Plan.{rewrite_ael, tx_ddl, Classifier, check_class}
use gophercast.Schemastep.Regex.{to_lower, any_of, some_of, lit, is_blank, is_name}
use gophercast.Schemastep.Split.{split_statements}
use gophercast.Schemastep.Classify.{contains_table, classify_trimmed, classify_statement}
use gophercast.Schemastep.Patterns.{is_concurrent_index}

abbrev pub source_classifier : Classifier
source_classifier = record {
  split_statements = split_statements;
  classify = classify_statement;
  is_concurrent_index = is_concurrent_index;
  in_serve_set = contains_table;
}

-- A statement that truncates several tables is read by its first: where that is off the serve-read
-- set, the check lets it through, whatever tables follow.
pub truncate_several :
    (rest : Codes)
    → (classify_trimmed (codes "truncate search_event, " ++ rest)
        ≡ (rewrite_ael, codes "search_event"))
      × (check_class source_classifier tx_ddl rewrite_ael (codes "search_event") ≡ true)
unfolding classify_trimmed check_class contains_table any_of some_of lit to_lower is_blank is_name
truncate_several rest = (refl, refl)
