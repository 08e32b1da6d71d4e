-- ===== src/Gc/Sweep.antt =====
-- internal/gc/gc.go, and the tables that it reads and the ledger that it writes.
use gophercast.Prelude.{
  ℕ, String, ◌+◌, Bool, true, false, ◌||◌, Option, none, some, List, [], ◌∷◌, ◌++◌, leb, str_eq,
  if◌then◌else◌, any, keep, find?, not, Result, ok, err,
}

pub record Snapshot : Type 0 where
  pub manifest_sha256 : String
  pub source_manifest_sha256 : Option String

-- The digests in the reference tables; `none` is a table that does not exist.
pub record Refs : Type 0 where
  pub mp_element : Option (List String)
  pub mp_snapshot : Option (List Snapshot)
  pub migration_url_map : Option (List String)

pub record Candidate : Type 0 where
  pub sha256 : String
  pub first_unreferenced_at : ℕ

pub record Report : Type 0 where
  pub objects : ℕ
  pub referenced : ℕ
  pub candidates : ℕ
  pub swept : ℕ

-- `absent` names the missing table.
pub data SweepError : Type 0 where
  absent : String → SweepError
  query_failed delete_failed list_failed : SweepError

-- The object store, the ledger and the report so far.
pub record Pass : Type 0 where
  pub store : List String
  pub ledger : List Candidate
  pub report : Report

-- An object of the listing, with the times of its two statements, the reference tables as its recheck
-- finds them, and whether the store deletes it when it is told to.
pub record Visit : Type 0 where
  pub sha : String
  pub inserted : ℕ
  pub asked : ℕ
  pub refs : Refs
  pub deletes : Bool

abbrev pub names_source : String → Option String → Bool
names_source sha none = false
names_source sha (some s) = str_eq sha s

abbrev pub in_snapshot : String → Snapshot → Bool
in_snapshot sha s = str_eq sha s.manifest_sha256 || names_source sha s.source_manifest_sha256

-- `markExistsSQL`; a missing table fails the whole statement.
abbrev pub exists_in_map : Bool → Option (List String) → String → Option Bool
exists_in_map false t sha = some false
exists_in_map true none sha = none
exists_in_map true (some urls) sha = some (any (str_eq sha) urls)

abbrev pub or_else : Bool → Option Bool → Option Bool
or_else b none = none
or_else b (some c) = some (b || c)

abbrev pub exists_in :
    Bool
    → Option (List String)
    → Option (List Snapshot)
    → Option (List String)
    → String
    → Option Bool
exists_in m none t u sha = none
exists_in m (some els) none u sha = none
exists_in m (some els) (some snaps) u sha =
    or_else (any (str_eq sha) els || any (in_snapshot sha) snaps) (exists_in_map m u sha)

unfoldable pub mark_exists : Bool → Refs → String → Option Bool
mark_exists m refs sha = exists_in m refs.mp_element refs.mp_snapshot refs.migration_url_map sha

abbrev pub manifests : List Snapshot → List String
manifests [] = []
manifests (s ∷ ss) = s.manifest_sha256 ∷ manifests ss

abbrev pub source_of : Option String → List String
source_of none = []
source_of (some s) = s ∷ []

abbrev pub sources : List Snapshot → List String
sources [] = []
sources (s ∷ ss) = source_of s.source_manifest_sha256 ++ sources ss

abbrev pub urls_of : Option (List String) → List String × Bool
urls_of none = ([], false)
urls_of (some urls) = (urls, true)

abbrev pub mark_of :
    Option (List String)
    → Option (List Snapshot)
    → Option (List String)
    → Result SweepError (List String × Bool)
mark_of none t u = err (absent "mp_element")
mark_of (some els) none u = err (absent "mp_snapshot")
mark_of (some els) (some snaps) u =
    let (urls, has_url_map) = urls_of u in
    ok (els ++ (manifests snaps ++ (sources snaps ++ urls)), has_url_map)

-- The keys of the mark, and whether migration_url_map exists.
unfoldable pub mark_set : Refs → Result SweepError (List String × Bool)
mark_set refs = mark_of refs.mp_element refs.mp_snapshot refs.migration_url_map

abbrev pub of_sha : String → Candidate → Bool
of_sha sha c = str_eq sha c.sha256

-- `delete from cas_gc_candidate where sha256 = $1`
unfoldable pub drop_candidate : String → List Candidate → List Candidate
drop_candidate sha ledger = keep (λ c. not (of_sha sha c)) ledger

-- `insert ... on conflict (sha256) do nothing`
unfoldable pub note_candidate : String → ℕ → List Candidate → List Candidate
note_candidate sha now ledger =
    if any (of_sha sha) ledger
    then ledger
    else ledger ++ record { sha256 = sha; first_unreferenced_at = now } ∷ []

-- `now() - first_unreferenced_at >= $2`, of the row that `where sha256 = $1` finds.
abbrev pub waited : ℕ → ℕ → Option Candidate → Option Bool
waited grace now none = none
waited grace now (some c) = some (leb (c.first_unreferenced_at + grace) now)

unfoldable pub expired? : String → ℕ → ℕ → List Candidate → Option Bool
expired? sha grace now ledger = waited grace now (find? (of_sha sha) ledger)

unfoldable pub remove_object : String → List String → List String
remove_object sha store = keep (λ s. not (str_eq sha s)) store

abbrev pub count_object : Report → Report
count_object rep = record rep { objects = rep.objects + 1 }

abbrev pub count_referenced : Report → Report
count_referenced rep = record rep { referenced = rep.referenced + 1 }

-- A referenced object carries no candidacy.
unfoldable pub resurrect : String → Pass → Pass
resurrect sha w = record w {
  ledger = drop_candidate sha w.ledger;
  report = count_referenced w.report;
}

unfoldable pub reclaim : Visit → Pass → Pass × Option SweepError
reclaim v w =
    if v.deletes
    then (
      record w {
        store = remove_object v.sha w.store;
        ledger = drop_candidate v.sha w.ledger;
        report = record w.report { swept = w.report.swept + 1 };
      },
      none,
    )
    else (w, some delete_failed)

-- Behind the recheck.
unfoldable pub recheck : Option Bool → Visit → Pass → Pass × Option SweepError
unfolding reclaim resurrect
recheck none v w = (w, some query_failed)
recheck (some true) v w = (resurrect v.sha w, none)
recheck (some false) v w = reclaim v w

-- Behind the test of the grace.
unfoldable pub if_expired : Option Bool → Bool → Visit → Pass → Pass × Option SweepError
unfolding recheck
if_expired none m v w = (w, some query_failed)
if_expired (some false) m v w =
    (record w { report = record w.report { candidates = w.report.candidates + 1 } }, none)
if_expired (some true) m v w = recheck (mark_exists m v.refs v.sha) v w

unfoldable pub visit_unmarked : ℕ → Bool → Visit → Pass → Pass × Option SweepError
unfolding if_expired
visit_unmarked grace m v w =
    let ledger = note_candidate v.sha v.inserted w.ledger in
    if_expired (expired? v.sha grace v.asked ledger) m v (record w { ledger = ledger })

-- The callback of `store.List`.
unfoldable pub visit : ℕ → List String → Bool → Visit → Pass → Pass × Option SweepError
unfolding visit_unmarked
visit grace mark m v w =
    let w' = record w { report = count_object w.report } in
    if any (str_eq v.sha) mark then (resurrect v.sha w', none) else visit_unmarked grace m v w'

abbrev pub listed : Bool → Option SweepError
listed true = none
listed false = some list_failed

-- `store.List`: an error of the callback ends it, and so does one of its own, after the visits.
abbrev pub then_visit :
    Pass × Option SweepError → (Pass → Pass × Option SweepError) → Pass × Option SweepError
then_visit (w, some e) rest = (w, some e)
then_visit (w, none) rest = rest w

unfoldable pub visits : ℕ → List String → Bool → List Visit → Bool → Pass → Pass × Option SweepError
visits grace mark m [] complete w = (w, listed complete)
visits grace mark m (v ∷ vs) complete w =
    then_visit (visit grace mark m v w) (visits grace mark m vs complete)

abbrev pub no_report : Report
no_report = record { objects = 0; referenced = 0; candidates = 0; swept = 0 }

abbrev pub sweep_marked :
    ℕ → Result SweepError (List String × Bool) → List Visit → Bool → Pass → Pass × Option SweepError
sweep_marked grace (err e) vs complete w = (w, some e)
sweep_marked grace (ok (mark, m)) vs complete w = visits grace mark m vs complete w

-- The pass over a listing, with the reference tables as `markSet` finds them.
unfoldable pub sweep : ℕ → Refs → List Visit → Bool → Pass → Pass × Option SweepError
unfolding visits
sweep grace refs vs complete w =
    sweep_marked grace (mark_set refs) vs complete (record w { report = no_report })
