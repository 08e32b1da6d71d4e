-- ===== src/Worker/Completions.antt =====
-- What the operations of internal/ops and internal/worker hand over for the completion of their tasks:
-- the closures `mutate` of ops/inline.go, worker/worker.go and worker/encode_inspect.go.
use gophercast.Prelude.{
  ℕ, suc, String, false, ◌&&◌, Option, none, some, List, [], ◌∷◌, ◌++◌, Result, ok, err, str_eq,
  if◌then◌else◌, all, ltb,
}
use gophercast.Prelude.Table.{find_by}
use gophercast.Engine.Client.{Mutation}
use gophercast.Search.Rows.{Element, Snapshot, Db}
use gophercast.Search.Project.{Error, foreign_key, is_some, find_package, project_event, ◌>>=◌}
use gophercast.Mediapackage.Metadata.{publish_tx}
use gophercast.Mediapackage.Materialise.{element_key, insert_element, set_duration_if_null}

-- `coalesce(max(version), 0)` of an event's snapshots.
unfoldable pub max_version : String → List Snapshot → ℕ
max_version mp [] = 0
max_version mp (s ∷ ss) =
    let rest = max_version mp ss in
    if str_eq s.mediapackage_id mp && ltb rest s.version then s.version else rest

abbrev pub next_snapshot : String → String → Db → Snapshot
next_snapshot mp sha db = record {
  mediapackage_id = mp;
  version = suc (max_version mp db.snapshots);
  manifest_sha256 = sha;
}

-- The version row of `Snapshot`.
unfoldable pub snapshot_tx : String → String → Db → Result Error Db
unfolding max_version
snapshot_tx mp sha db =
    if is_some (find_package mp db)
    then ok (record db { snapshots = db.snapshots ++ next_snapshot mp sha db ∷ [] })
    else err foreign_key

-- The rows that reference the elements of a publication fail on an element that is gone; they are in
-- no other table.
abbrev pub reference_elements : List String → Db → Result Error Db
reference_elements ids db =
    if all (λ id. is_some (find_by element_key id db.elements)) ids then ok db else err foreign_key

-- `Publish`; `fresh` is the id that `PublishTx` mints.
unfoldable pub publish_completion : String → String → String → List String → Db → Result Error Db
unfolding publish_tx project_event
publish_completion fresh mp channel ids db = do
  published ← publish_tx fresh mp channel db
  referenced ← reference_elements ids published
  project_event mp referenced

-- `inspect`; the technical metadata of the elements are no columns here.
unfoldable pub inspect_completion : String → ℕ → Db → Result Error Db
unfolding set_duration_if_null project_event
inspect_completion mp ms db = project_event mp (set_duration_if_null mp ms db)

-- The completions, with what their closures hold; a new element is that of an encoding or of a speech
-- recognition.
pub data Completion : Type 0 where
  archived : (mp sha : String) → Completion
  referenced : (fresh mp channel : String) (ids : List String) → Completion
  inspected : (mp : String) (ms : ℕ) → Completion
  produced : (el : Element) (tags : List String) → Completion

unfoldable pub completion_tx : Completion → Db → Result Error Db
unfolding snapshot_tx publish_completion inspect_completion insert_element
completion_tx (archived mp sha) = snapshot_tx mp sha
completion_tx (referenced fresh mp channel ids) = publish_completion fresh mp channel ids
completion_tx (inspected mp ms) = inspect_completion mp ms
completion_tx (produced el tags) = insert_element false el tags

abbrev pub committed_rows : Result Error Db → Option Db
committed_rows (ok db) = some db
committed_rows (err e) = none

abbrev pub completion : Completion → Mutation Db
completion k = some (λ db. committed_rows (completion_tx k db))
