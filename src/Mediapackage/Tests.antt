-- ===== src/Mediapackage/Tests.antt =====
-- Runs of internal/mediapackage and internal/search at concrete inputs.
use gophercast.Prelude.{
  String, ◌≡◌, refl, ◌∙◌, Bool, true, false, not, ◌&&◌, ◌||◌, none, some, List, [], ◌∷◌, ok, str_eq,
  any, Memᴰ,
}
use gophercast.Prelude.Table.{find_by, insert_by, put_by, update_where}
use gophercast.Text.{cut_prefix}
use gophercast.Acl.Storage.{evaluate-get}
use gophercast.Acl.Policy.{event, Entry, evaluate}
use gophercast.Search.Rows.{Package, Series, EventRow, Db}
use gophercast.Search.Project.{
  find_event, find_row, find_package, find_series, event_row, event_row_of, series_row, set_acl,
  rebuild, is_published_in, is_deny,
}
use gophercast.Search.Agreement.{SameRow}
use gophercast.Search.Query.{
  admin_events, api_events, engage_episode, split_roles, event_visibility, granted,
}
use gophercast.Search.Visibility.{role_may, is_known}
use gophercast.Search.Listing.{
  sees, some_role_may, decision, policy_of_event, visibility-policy, listed-not-evaluate,
  pin_hidden,
}
use gophercast.Serve.Authz.{Principal, PublicationPin, authorized, is_admin}
use gophercast.Mediapackage.Metadata.{Metadata, SeriesMetadata, set_metadata, put_series, publish}
use gophercast.Mediapackage.Materialise.{Manifest, record_package}
use gophercast.Mediapackage.Runs.{
  materialised, series_put, described, policy_set, published, Run, fresh, write, empty_db,
  Run-invariant, Run-rebuild,
}
use gophercast.Mediapackage.Moves.{set_metadata-stale}

abbrev lecture : Manifest
lecture = record { id = "m1"; title = "Lecture"; start = some 5; duration_ms = 60; elements = [] }

abbrev no_details : SeriesMetadata
no_details = record {
  title = "Course";
  contributors = [];
  organizers = [];
  language = "";
  description = "";
  subjects = [];
  created = none;
}

abbrev member_of : String → Metadata
member_of s = record {
  creators = [];
  contributors = [];
  language = "";
  description = "";
  subjects = [];
  location = "";
  license = "";
  created = none;
  series_id = s;
  status = "";
}

abbrev allow_read : String → Entry
allow_read role = record { role = role; action = "read"; allow = true }

abbrev deny_read : String → Entry
deny_read role = record { role = role; action = "read"; allow = false }

-- Two series, an event of the first, its policy and its publication.
abbrev demo_0 : Db
demo_0 = (put_series "s2" no_details (put_series "s1" no_details empty_db).1).1

abbrev demo_1 : Db
demo_1 = (set_metadata "m1" (member_of "s1") (record_package lecture demo_0).1).1

abbrev policy : List Entry
policy = allow_read "ROLE_A" ∷ deny_read "ROLE_B" ∷ []

abbrev demo_2 : Db
demo_2 = (set_acl event "m1" policy demo_1).1

abbrev demo_3 : Db
demo_3 = (publish "p1" "m1" "engage-player" demo_2).1

demo_1_run : Run demo_1
unfolding find_by record_package insert_by put_series put_by event_row_of
demo_1_run =
    write
      (write (write (write fresh (series_put "s1" no_details)) (series_put "s2" no_details))
        (materialised lecture))
      (described "m1" (member_of "s1") refl)

demo_3_run : Run demo_3
demo_3_run =
    write (write demo_1_run (policy_set event "m1" policy)) (published "p1" "m1" "engage-player")

Run-rebuild_example :
    (find_event "m1" (rebuild demo_3) ≡ find_event "m1" demo_3)
    × SameRow (find_row "m1" (rebuild demo_3)) (find_row "m1" demo_3)
Run-rebuild_example = Run-rebuild demo_3_run "m1"

abbrev moved_package : Package
moved_package = record {
  id = "m1";
  title = some "Lecture";
  start_time = some 5;
  duration_ms = some 60;
  series_id = some "s1";
  deleted_at = none;
}

found_3 : find_package "m1" demo_3 ≡ some moved_package
unfolding find_by publish set_acl set_metadata record_package insert_by put_series put_by
    update_where
found_3 = refl

listed_3 : find_event "m1" demo_3 ≡ some (event_row demo_3 moved_package)
listed_3 = (Run-invariant demo_3_run).1.events_current "m1" ∙ rw found_3

entries_3 :
    demo_3.acl.entries
    ≡ record { scope = event; scope_id = "m1"; entry = allow_read "ROLE_A" }
      ∷ record { scope = event; scope_id = "m1"; entry = deny_read "ROLE_B" }
      ∷ []
unfolding publish set_acl set_metadata record_package insert_by put_series put_by update_where
    find_by
entries_3 = refl

policies_3 : demo_3.acl.policies ≡ (event, "m1") ∷ []
unfolding publish set_acl set_metadata record_package insert_by put_series put_by update_where
    find_by
policies_3 = refl

abbrev reader : Principal
reader = record { roles = "ROLE_A" ∷ [] }

abbrev both : Principal
both = record { roles = "ROLE_A" ∷ "ROLE_B" ∷ [] }

abbrev stranger : Principal
stranger = record { roles = "ROLE_C" ∷ [] }

abbrev row_3 : EventRow
row_3 = event_row demo_3 moved_package

visibility-policy_example :
    let held = split_roles both.roles in
    let reads = some_role_may "read" "m1" demo_3 held.plain || granted "m1" held.episode_read in
    let writes = some_role_may "write" "m1" demo_3 held.plain || granted "m1" held.episode_write in
    (sees row_3 (event_visibility demo_3 both api_events) ≡ ok reads)
    × (sees row_3 (event_visibility demo_3 both admin_events) ≡ ok (reads && writes))
unfolding is_admin
visibility-policy_example =
    visibility-policy "m1" row_3 both demo_3 (Run-invariant demo_3_run).1 listed_3 refl

abbrev any_order : Entry → Entry → Bool
any_order a b = true

decision_3 : decision any_order "read" "m1" demo_3 reader.roles ≡ true
unfolding evaluate
decision_3 =
    evaluate-get any_order event "m1" demo_3.acl reader.roles "read" ∙ rw (entries_3, policies_3)

may_3 : role_may "read" (policy_of_event "m1" demo_3) "ROLE_A" ≡ true
may_3 = rw entries_3

denied_3 : any (is_deny "ROLE_B" "read") (policy_of_event "m1" demo_3) ≡ true
denied_3 = rw entries_3

listed-not-evaluate_example :
    (decision any_order "read" "m1" demo_3 both.roles ≡ false)
    × (sees row_3 (event_visibility demo_3 both api_events) ≡ ok true)
unfolding is_admin split_roles cut_prefix
listed-not-evaluate_example =
    listed-not-evaluate any_order "m1" "ROLE_A" "ROLE_B" row_3 both demo_3
      (Run-invariant demo_3_run).1 listed_3 refl refl (Memᴰ.head refl) (Memᴰ.tail (Memᴰ.head refl))
      may_3 denied_3

-- An event whose policy was replaced after it was published for another role.
abbrev demo_4 : Db
demo_4 = (set_acl event "m1" (allow_read "ROLE_B" ∷ []) demo_3).1

unknown_4 : any (is_known demo_4.acl.entries) reader.roles ≡ false
unfolding publish set_acl set_metadata record_package insert_by put_series put_by update_where
    find_by
unknown_4 = refl

pin_hidden_example :
    let pin : PublicationPin = record {
      mediapackage_id = row_3.mediapackage_id;
      channel = "engage-player";
      acl_read = row_3.pub_read;
      acl_state = "POPULATED";
    } in
    (sees row_3 (event_visibility demo_4 reader engage_episode) ≡ ok false)
    × (authorized (pin ∷ []) reader ≡ true)
unfolding is_admin split_roles event_row_of publish set_acl set_metadata record_package insert_by
    put_series put_by update_where find_by cut_prefix
pin_hidden_example = pin_hidden row_3 reader demo_4 "POPULATED" refl unknown_4 refl refl

abbrev course : String → Series
course id = record {
  id = id;
  title = some "Course";
  contributors = [];
  organizers = [];
  language = none;
  description = none;
  subjects = [];
  created = none;
  deleted_at = none;
}

course_3 :
    (find_series "s1" demo_3 ≡ some (course "s1")) × (find_series "s2" demo_3 ≡ some (course "s2"))
unfolding publish set_acl set_metadata record_package insert_by put_series put_by update_where
    find_by
course_3 = (refl, refl)

row_s1 : find_row "s1" demo_3 ≡ some (series_row demo_3 (course "s1"))
row_s1 = (Run-invariant demo_3_run).1.series_current "s1" ∙ rw (course_3.0)

published_3 : is_published_in "s1" row_3 ≡ true
unfolding event_row_of publish set_acl set_metadata record_package insert_by put_series put_by
    update_where find_by
published_3 = refl

only_3 :
    any (λ e. is_published_in "s1" e && not (str_eq e.mediapackage_id "m1")) demo_3.events ≡ false
unfolding event_row_of publish set_acl set_metadata record_package insert_by put_series put_by
    update_where find_by
only_3 = refl

set_metadata-stale_example :
    let (r, after) = set_metadata "m1" (member_of "s2") demo_3 in
    (r ≡ ok tt)
    × (find_row "s1" after ≡ some (series_row demo_3 (course "s1")))
    × ((series_row demo_3 (course "s1")).has_published ≡ true)
    × (any (is_published_in "s1") after.events ≡ false)
set_metadata-stale_example =
    set_metadata-stale "m1" "s2" "s1" (member_of "s2") moved_package row_3 (course "s2")
      (series_row demo_3 (course "s1")) demo_3 (Run-invariant demo_3_run).1 found_3 refl refl
      course_3.1 refl row_s1 listed_3 published_3 only_3
