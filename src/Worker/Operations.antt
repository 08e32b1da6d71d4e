-- ===== src/Worker/Operations.antt =====
-- The bodies of internal/ops/inline.go hand over the mutations of their operations.
use gophercast.Prelude.{
  ℕ, ◌≡◌, sym, ap, String, Bool, true, false, Option, none, some, List, [], ◌∷◌, map, Result, ok,
  err, str_eq, if◌then◌else◌,
}
use gophercast.Engine.Store as Store
use gophercast.Engine.Store.{Config, Env}
use gophercast.Engine.Client.{Task, Mutation, mediapackage_id}
use gophercast.Engine.Lifecycle.{Work, execute_task}
use gophercast.Engine.Invariants.{SessionsKeep}
use gophercast.Search.Rows.{Package, Element, Db}
use gophercast.Search.Project.{find_package}
use gophercast.Worker.Completions.{Completion, archived, referenced, completion}
use gophercast.Worker.Inline.{
  config_value, split_list, selected, Helpers, publish_selected, publish_matching, publish_for,
  publish_body, archive_stored, archive_selected, archive_package, archive_for, snapshot_body,
}
use gophercast.Worker.Sound.{IsSound}
use gophercast.Worker.Projected.{IsOperation, execute_task-IsSound}

-- The work, if it succeeds, hands over the mutation of an operation.
abbrev HandsOver : Work Db → Type 0
HandsOver w =
    (out : String) (mutate : Mutation Db)
    → w ≡ ok (out, mutate)
    → (k : Completion) × (mutate ≡ completion k)

refused : (e : String) → HandsOver (err e)
refused e out mutate h = absurd (cc)

handed : (o : String) (k : Completion) → HandsOver (ok (o, completion k))
handed o k out mutate h = (k, ap (λ r. elim r [ ok p ↦ p.1 | err x ↦ mutate ]) (sym h))

either : (b : Bool) (w v : Work Db) → HandsOver w → HandsOver v → HandsOver (if b then w else v)
either true w v hw hv = hw
either false w v hw hv = hv

module _ (h : Helpers) where
  published :
      (mp channel : String) (ids : List String) → HandsOver (publish_selected h mp channel ids)
  published mp channel [] = refused _
  published mp channel (id ∷ ids) = handed _ (referenced h.fresh mp channel (id ∷ ids))

  matched :
      (mp channel : String) (patterns : List String) (db : Db)
      → HandsOver (publish_matching h mp channel patterns db)
  matched mp channel [] db = refused _
  matched mp channel (p ∷ ps) db = published mp channel (map (λ e. e.id) (selected (p ∷ ps) mp db))

  configured :
      (c : Config) (db : Db) (mp : Result Store.Error String) → HandsOver (publish_for h c db mp)
  configured c db (err e) = refused _
  configured c db (ok mp) = either (str_eq (config_value "channel-id" c) "") _ _ (refused _) (
      either _ _ _ (refused _) (
        matched mp (config_value "channel-id" c)
          (split_list (config_value "download-source-flavors" c)) db))

  publish_body-IsOperation : (task : Task) → IsOperation (publish_body h task)
  unfolding publish_body
  publish_body-IsOperation task seen =
      configured task.config seen.rows (mediapackage_id (λ d. some d) task.id seen).0

  stored : (mp : String) (n : ℕ) (sha : Option String) → HandsOver (archive_stored h mp n sha)
  stored mp n none = refused _
  stored mp n (some sha) = handed _ (archived mp sha)

  selection : (p : Package) (es : List Element) (db : Db) → HandsOver (archive_selected h p es db)
  selection p [] db = refused _
  selection p (e ∷ es) db = stored p.id _ (h.put_manifest p (e ∷ es) db.element_tags)

  read : (c : Config) (db : Db) (p : Option Package) → HandsOver (archive_package h c db p)
  read c db none = refused _
  read c db (some p) = selection p _ db

  archived_for :
      (c : Config) (db : Db) (mp : Result Store.Error String) → HandsOver (archive_for h c db mp)
  archived_for c db (err e) = refused _
  archived_for c db (ok mp) = read c db (find_package mp db)

  snapshot_body-IsOperation : (task : Task) → IsOperation (snapshot_body h task)
  unfolding snapshot_body
  snapshot_body-IsOperation task seen =
      archived_for task.config seen.rows (mediapackage_id (λ d. some d) task.id seen).0

  -- Whatever its configuration, a publication or a snapshot keeps the tables sound.
  inline-IsSound :
      (env : Env Db) (ticks : ℕ) (task : Task) (owner : String) (lease : ℕ) (db : Store.Db Db)
      → SessionsKeep IsSound env
      → IsSound db.rows
      → IsSound (execute_task env ticks task owner lease (publish_body h task) db).1.rows
        × IsSound (execute_task env ticks task owner lease (snapshot_body h task) db).1.rows
  inline-IsSound env ticks task owner lease db kept s =
      let run = execute_task-IsSound env ticks task owner lease in
      (
        (run (publish_body h task) db kept (publish_body-IsOperation task) s).0,
        (run (snapshot_body h task) db kept (snapshot_body-IsOperation task) s).0,
      )
