-- ===== src/Worker/InlineTests.antt =====
-- The publish-configure operation of internal/ops on an event with a policy and three elements, and
-- the delivery of what it publishes.
use gophercast.Prelude.{
  ℕ, ◌≡◌, refl, String, true, ◌||◌, Option, none, some, List, [], ◌∷◌, Result, ok, err, find?, map,
}
use gophercast.Prelude.Table.{find_by}
use gophercast.Acl.Policy as Policy
use gophercast.Acl.Policy.{event}
use gophercast.Serve.Authz.{Principal, authorized, episode_role, is_admin}
use gophercast.Engine.Store as Store
use gophercast.Engine.Store.{TaskRow, running, active}
use gophercast.Engine.Client.{find_task, find_workflow, scan_task, run_mutation}
use gophercast.Engine.Lifecycle.{Work}
use gophercast.Search.Rows.{Element, Publication, Db}
use gophercast.Search.Listing.{some_role_may}
use gophercast.Mediapackage.Metadata.{is_pin}
use gophercast.Mediapackage.Runs.{empty_db}
use gophercast.Worker.Completions.{publish_completion, completion_tx}
use gophercast.Worker.Inline.{Helpers, publish_body, snapshot_body}
use gophercast.Worker.Pinned.{delivered_pin, publish_completion-authorized}

abbrev helpers : Helpers
helpers = record {
  fresh = "p1";
  published_json = λ channel n. channel;
  archived_json = λ sha n. sha;
  put_manifest = λ p es tags. some "d-1";
}

abbrev element : String → String → Element
element id flavor = record {
  id = id;
  mediapackage_id = "m1";
  kind = "track";
  flavor = flavor;
  mimetype = none;
  sha256 = id;
  size_bytes = 1;
  source_url = none;
}

abbrev archive : Db
archive = record empty_db {
  packages =
      record {
        id = "m1";
        title = none;
        start_time = none;
        duration_ms = none;
        series_id = none;
        deleted_at = none;
      }
      ∷ [];
  elements =
      element "e1" "presenter/delivery"
      ∷ element "e2" "presenter/source"
      ∷ element "e3" "presentation/delivery"
      ∷ [];
  acl = record {
    policies = (event, "m1") ∷ [];
    entries =
        record {
          scope = event;
          scope_id = "m1";
          entry = record { role = "ROLE_STUDENT"; action = "read"; allow = true };
        }
        ∷ [];
  };
}

abbrev configured : String → TaskRow
configured flavors = record {
  id = 1;
  workflow_id = 1;
  op_index = 0;
  operation = "publish-configure";
  config = ("channel-id", "engage") ∷ ("download-source-flavors", flavors) ∷ [];
  state = running;
  owner = some "core";
  lease_expires = 10;
  result = none;
  attempt = 1;
  spec = record { cpu_millis = none; memory_mb = none; gpu = none; runtime_s = none };
  updated_at = 0;
}

abbrev store : String → Store.Db Db
store flavors = record {
  now = 0;
  workflows =
      record {
        id = 1;
        mediapackage_id = "m1";
        definition = [];
        state = active;
        current_op = 0;
        updated_at = 0;
      }
      ∷ [];
  tasks = configured flavors ∷ [];
  next_workflow = 2;
  next_task = 2;
  rows = archive;
}

-- The error, or the roles that the publication pins.
abbrev pinned_by : String → Result String (Option (List (List String)))
pinned_by flavors = elim (publish_body helpers (scan_task (configured flavors)) (store flavors)) [
  | err e ↦ err e
  | ok w ↦ elim (run_mutation w.1 archive) [
    | none ↦ ok none
    | some db ↦ ok (some (elim db.publications [ [] ↦ [] | p ∷ ps ↦ p.acl_read ∷ [] ]))
  ]
]

publishes : pinned_by "presenter/source, */delivery" ≡ ok (some (("ROLE_STUDENT" ∷ []) ∷ []))
unfolding publish_body find_task scan_task find_workflow run_mutation completion_tx find_by
publishes = refl

selects_nothing : pinned_by "presenter/live" ≡ err "publish selected no elements"
unfolding publish_body find_task scan_task find_workflow
selects_nothing = refl

needs_patterns : pinned_by " , " ≡ err "download-source-flavors is required"
unfolding publish_body find_task scan_task find_workflow
needs_patterns = refl

abbrev snapshots_of : Work Db → List (String × ℕ)
snapshots_of (err e) = []
snapshots_of (ok w) = elim (run_mutation w.1 archive) [
  | none ↦ []
  | some db ↦ map (λ s. (s.manifest_sha256, s.version)) db.snapshots
]

-- Without source-flavors, a snapshot takes everything.
snapshots :
    snapshots_of (snapshot_body helpers (scan_task (configured "")) (store "")) ≡ ("d-1", 1) ∷ []
unfolding snapshot_body find_task scan_task find_workflow find_by run_mutation completion_tx
snapshots = refl

abbrev after : Db
after = elim (publish_completion "p1" "m1" "engage" ("e1" ∷ "e3" ∷ []) archive) [
  | ok db ↦ db
  | err e ↦ archive
]

abbrev student : Principal
student = record { roles = "ROLE_STUDENT" ∷ [] }

publish_completion-authorized_example :
    (row : Publication) × (find? (is_pin "m1" "engage") after.publications ≡ some row)
    × (authorized (delivered_pin row ∷ []) student ≡ (
        some_role_may "read" "m1" archive student.roles
        || Policy.holds student.roles (episode_role "m1")))
unfolding publish_completion find_by is_admin
publish_completion-authorized_example =
    publish_completion-authorized "p1" "m1" "engage" ("e1" ∷ "e3" ∷ []) archive after student refl
      refl
