-- ===== src/Lti/AccessTests.antt =====
-- A launch of internal/lti, and what its session opens.
use gophercast.Prelude.{◌≡◌, refl, ◌∙◌, true, none, some, List, [], ◌∷◌, arith}
use gophercast.Prelude.Table.{find_by, insert_by, put_by}
use gophercast.Prelude.Int.{◌+ℤ◌}
use gophercast.Acl.Policy.{event, Entry}
use gophercast.Serve.Authz.{PublicationPin}
use gophercast.Identity.Sample.{sample-Base64, sample-Invertible}
use gophercast.Identity.Session.{lti}
use gophercast.Identity.Resolve.{Config, Request, bearer_token, resolve}
use gophercast.Search.Rows.{Package, Db}
use gophercast.Search.Project.{find_package, find_event, event_row, set_acl}
use gophercast.Mediapackage.Materialise.{Manifest, record_package}
use gophercast.Mediapackage.Runs.{
  materialised, policy_set, Run, fresh, write, empty_db, Run-invariant,
}
use gophercast.Lti.Session.{launch_roles}
use gophercast.Lti.Access.{SeesByRoles, on_launch-sees}
use gophercast.Lti.Tests.{launch, codec, cookie, parse, origin, body, entered, session_of_ada}

abbrev lecture : Manifest
lecture = record { id = "m1"; title = "Lecture"; start = none; duration_ms = 60; elements = [] }

abbrev learners : List Entry
learners = record { role = "ROLE_LTI_LEARNER"; action = "read"; allow = true } ∷ []

abbrev archive : Db
archive = (set_acl event "m1" learners (record_package lecture empty_db).1).1

archive_run : Run archive
archive_run = write (write fresh (materialised lecture)) (policy_set event "m1" learners)

abbrev lecture_row : Package
lecture_row = record {
  id = "m1";
  title = some "Lecture";
  start_time = none;
  duration_ms = some 60;
  series_id = none;
  deleted_at = none;
}

found : find_package "m1" archive ≡ some lecture_row
unfolding find_by set_acl record_package insert_by put_by
found = refl

listed : find_event "m1" archive ≡ some (event_row archive lecture_row)
listed = (Run-invariant archive_run).1.events_current "m1" ∙ rw found

abbrev config : Config
config = record {
  oidc = none;
  service_roles = [];
  dev_seam = true;
  service_users = [];
  session = some codec;
}

-- The roles that its header claims are not heard.
abbrev request : Request
request = record {
  authorization = "";
  cookie = some cookie;
  x_roles = "ROLE_ADMIN";
  basic_auth = none;
}

abbrev pins : List PublicationPin
pins =
    record {
      mediapackage_id = "m1";
      channel = "engage-player";
      acl_read = "ROLE_LTI_LEARNER" ∷ [];
      acl_state = "POPULATED";
    }
    ∷ []

on_launch-sees_example :
    let (p, info, known) = resolve config request in
    (known ≡ true)
    × (info ≡ record { username = "ada"; method = lti })
    × SeesByRoles (launch_roles launch) "m1" (event_row archive lecture_row) archive pins p
unfolding ◌+ℤ◌ bearer_token
on_launch-sees_example =
    on_launch-sees codec codec parse origin launch cookie 7200 true "/watch" "m1" config request
      (event_row archive lecture_row) archive pins refl (sample-Base64 session_of_ada)
      (sample-Invertible session_of_ada) body entered (omega arith) (omega arith) refl refl refl
      (Run-invariant archive_run).1 listed
