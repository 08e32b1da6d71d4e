-- ===== src/Worker/Inline.antt =====
-- The bodies of the inline operations: internal/ops/inline.go. Of the error texts, the number of the
-- task that they begin with and the patterns that they quote are left out; an error of a query is a
-- text of its own.
use gophercast.Prelude.{
  ℕ, String, Bool, ◌&&◌, ◌||◌, not, Option, none, some, List, [], ◌∷◌, map, Result, ok, err, str_eq,
  if◌then◌else◌, any, keep, length, find?,
}
use gophercast.Text.{codes}
use gophercast.Identity.Resolve.{split_commas, header_roles}
use gophercast.Engine.Store as Store
use gophercast.Engine.Store.{Config}
use gophercast.Engine.Client.{Task, mediapackage_id}
use gophercast.Engine.Lifecycle.{Work, Body}
use gophercast.Search.Rows.{Package, Element, Db}
use gophercast.Search.Project.{find_package}
use gophercast.Mediapackage.Materialise.{flavor_matches}
use gophercast.Worker.Completions.{archived, referenced, completion}

-- `task.Config[key]`
abbrev pub value_of : Option (String × String) → String
value_of none = ""
value_of (some (k, v)) = v

unfoldable pub config_value : String → Config → String
config_value key c = value_of (find? (λ e. str_eq e.0 key) c)

-- `splitList`: the parts between commas, trimmed, without the empty ones.
unfoldable pub split_list : String → List String
unfolding split_commas header_roles
split_list s = header_roles (split_commas s)

unfoldable pub matches_any : List String → String → Bool
unfolding flavor_matches
matches_any patterns flavor = any (λ p. flavor_matches (codes p) (codes flavor)) patterns

-- `mediapackage.Elements`, in the order of the table, and those whose flavor some pattern matches.
unfoldable pub selected : List String → String → Db → List Element
unfolding matches_any
selected patterns mp db =
    keep (λ e. str_eq e.mediapackage_id mp && matches_any patterns e.flavor) db.elements

abbrev pub or_everything : List String → List String
or_everything [] = "*/*" ∷ []
or_everything (p ∷ ps) = p ∷ ps

-- What the bodies take from elsewhere: the id that `PublishTx` mints, the JSON of a result, and the
-- digest under which the canonical manifest of a selection is stored, if it can be.
pub record Helpers : Type 0 where
  pub fresh : String
  pub published_json : String → ℕ → String
  pub archived_json : String → ℕ → String
  pub put_manifest : Package → List Element → List (String × String) → Option String

module _ (h : Helpers) where
  abbrev pub publish_selected : String → String → List String → Work Db
  publish_selected mp channel [] = err "publish selected no elements"
  publish_selected mp channel (id ∷ ids) = ok (
    h.published_json channel (length (id ∷ ids)),
    completion (referenced h.fresh mp channel (id ∷ ids)),
  )

  abbrev pub publish_matching : String → String → List String → Db → Work Db
  publish_matching mp channel [] db = err "download-source-flavors is required"
  publish_matching mp channel (p ∷ ps) db =
      publish_selected mp channel (map (λ e. e.id) (selected (p ∷ ps) mp db))

  abbrev pub publish_for : Config → Db → Result Store.Error String → Work Db
  publish_for c db (err e) = err "no mediapackage"
  publish_for c db (ok mp) =
      if str_eq (config_value "channel-id" c) ""
      then err "channel-id is required"
      else if not (str_eq (config_value "download-source-tags" c) "")
          || not (str_eq (config_value "streaming-source-flavors" c) "")
      then err "only download-source-flavors selection is implemented in increment 2"
      else publish_matching mp (config_value "channel-id" c)
          (split_list (config_value "download-source-flavors" c)) db

  -- `Publish`
  unfoldable pub publish_body : Task → Body Db
  unfolding config_value split_list selected mediapackage_id
  publish_body task seen =
      publish_for task.config seen.rows (mediapackage_id (λ d. some d) task.id seen).0

  abbrev pub archive_stored : String → ℕ → Option String → Work Db
  archive_stored mp n none = err "the manifest is not stored"
  archive_stored mp n (some sha) = ok (h.archived_json sha n, completion (archived mp sha))

  abbrev pub archive_selected : Package → List Element → Db → Work Db
  archive_selected p [] db = err "snapshot selected no elements"
  archive_selected p (e ∷ es) db =
      archive_stored p.id (length (e ∷ es)) (h.put_manifest p (e ∷ es) db.element_tags)

  abbrev pub archive_package : Config → Db → Option Package → Work Db
  archive_package c db none = err "no rows in result set"
  archive_package c db (some p) =
      archive_selected p
        (selected (or_everything (split_list (config_value "source-flavors" c))) p.id db) db

  abbrev pub archive_for : Config → Db → Result Store.Error String → Work Db
  archive_for c db (err e) = err "no mediapackage"
  archive_for c db (ok mp) = archive_package c db (find_package mp db)

  -- `Snapshot`
  unfoldable pub snapshot_body : Task → Body Db
  unfolding config_value split_list selected mediapackage_id
  snapshot_body task seen =
      archive_for task.config seen.rows (mediapackage_id (λ d. some d) task.id seen).0
