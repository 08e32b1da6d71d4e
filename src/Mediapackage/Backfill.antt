-- ===== src/Mediapackage/Backfill.antt =====
-- The batched step of `MigrationSteps`, internal/mediapackage/mediapackage.go.
use gophercast.Prelude.{
  ℕ, String, Bool, true, false, Option, none, some, List, [], ◌∷◌, ◌++◌, map, Result, ok, err,
  if◌then◌else◌, ◌==◌, keep, length,
}
use gophercast.Prelude.Ordered.{take, order_by, max_text}
use gophercast.Search.Rows.{Element}
use gophercast.Schemastep.Plan.{StepError, batched_dml, Step}
use gophercast.Mediapackage.Materialise.{element_key}

-- The table, the cursor, and the ids whose rows each update so far has written.
pub record Walk : Type 0 where
  pub elements : List Element
  pub cursor : String
  pub updates : List (List String)

abbrev pub batch_size : ℕ
batch_size = 500

-- The order of ids as texts, and whether the query of a batch fails, by the number of batches before.
module _ (before : String → String → Bool) (outage : ℕ → Option StepError) (limit : ℕ) where
  -- `where id::text > $1 order by id::text limit …`
  unfoldable pub batch_ids : Walk → List String
  unfolding order_by
  batch_ids w = take limit (order_by before (keep (before w.cursor) (map element_key w.elements)))

  -- The update sets each size to itself; an empty one is the end.
  abbrev pub updated : List String → Walk → Walk × Result StepError Bool
  updated ids w =
      if length ids == 0
      then (w, ok true)
      else (record w { cursor = max_text before ids; updates = w.updates ++ ids ∷ [] }, ok false)

  abbrev pub queried : Option StepError → Walk → Walk × Result StepError Bool
  queried (some e) w = (w, err e)
  queried none w = updated (batch_ids w) w

  unfoldable pub backfill_batch : Walk → Walk × Result StepError Bool
  unfolding batch_ids max_text
  backfill_batch w = queried (outage (length w.updates)) w

module _ (before : String → String → Bool) (outage : ℕ → Option StepError) where
  unfoldable pub backfill_step : Step Walk
  unfolding backfill_batch
  backfill_step = record {
    n = 2;
    name = "sha256-backfill-noop";
    kind = batched_dml;
    sql = "";
    index = "";
    batch = backfill_batch before outage batch_size;
  }

-- `cursor := ""`
abbrev pub at_start : List Element → Walk
at_start els = record { elements = els; cursor = ""; updates = [] }
