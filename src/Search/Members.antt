-- ===== src/Search/Members.antt =====
-- `ProjectSeries` and `Rebuild` of internal/search/project.go: the loops that project many rows.
use mathlib.Core.Bool.{false≢true}
use gophercast.Prelude.{
  String, ◌≡◌, refl, sym, ap, ◌∙◌, Bool, true, false, not, Option, none, some, List, [], ◌∷◌, arith,
  inl, inr, str_eq, eq_iff, if◌then◌else◌, Bool-cases, Option-cases,
}
use gophercast.Prelude.Table.{find_by, Keyed}
use gophercast.Prelude.Derived.{
  passes, is_in-keep, put_all, derived, find-put_all, keep-put_all, Keyed-put_all,
}
use gophercast.Search.Rows.{
  Package, Series, EventRow, SeriesRow, Db, series_key, event_key, row_key, package_key,
}
use gophercast.Search.Project.{
  is_some, is_text, find_package, find_series, find_event, find_row, event_row, put_event,
  event_row_of, series_row_of, is_published_in, series_row, put_series_row, is_live_member,
  live_members, project_events, project_series, project_series_rows, live_packages, live_series,
  rebuild,
}
use gophercast.Search.Current.{
  expected_event, expected_series, live_row, live_series_row, IsCurrent, CurrentBut,
  expected_series-events, refresh_series_of-IsCurrent, current-series,
}

-- The primary keys of the authoritative tables.
pub record IsKeyed (db : Db) : Type 0 where
  pub packages : Keyed package_key db.packages
  pub series : Keyed series_key db.series

-- All but the rows of a series and of its live members, whose rows are rows of the series.
pub record CurrentOutside (s : String) (db : Db) : Type 0 where
  pub events_others :
      (id : String)
      → passes (is_live_member s) (find_package id db) ≡ false
      → find_event id db ≡ expected_event id db
  pub members :
      (id : String) (r : EventRow)
      → passes (is_live_member s) (find_package id db) ≡ true
      → find_event id db ≡ some r
      → r.series_id ≡ some s
  pub others_current : (id : String) → str_eq s id ≡ false → find_row id db ≡ expected_series id db
  pub events_keyed : Keyed event_key db.events

abbrev events_of : Db → List String → List EventRow → List EventRow
events_of db = put_all package_key event_key (λ mp. event_row db mp) db.packages

event_row-named : (db : Db) (mp : Package) → event_key (event_row db mp) ≡ mp.id
unfolding event_row_of
event_row-named db mp = refl

series_row-named : (db : Db) (s : Series) → row_key (series_row db s) ≡ s.id
unfolding series_row_of
series_row-named db s = refl

project_events_lem :
    (ids : List String) (db : Db)
    → project_events ids db ≡ record db { events = events_of db ids db.events }
unfolding project_events put_all put_event
project_events_lem [] db = refl
project_events_lem (id ∷ ids) db = elim (Option-cases (find_package id db)) [
  | inl f ↦ rw f (project_events_lem ids db)
  | inr (mp, f) ↦ rw f (project_events_lem ids (put_event (some mp) db))
]

is_text-some : (s : String) (o : Option String) → is_text s o ≡ true → o ≡ some s
is_text-some s none h = cc
is_text-some s (some t) h = ap some ((eq_iff t s).0 h)

member-deleted :
    (s : String) (mp : Package) → is_live_member s mp ≡ true → is_some mp.deleted_at ≡ false
member-deleted s mp h = ground arith

pub member-series : (s : String) (mp : Package) → is_live_member s mp ≡ true → mp.series_id ≡ some s
member-series s mp h = is_text-some s mp.series_id (ground arith)

pub current-member :
    (s i : String) (r : EventRow) (db : Db)
    → IsCurrent db
    → passes (is_live_member s) (find_package i db) ≡ true
    → find_event i db ≡ some r
    → r.series_id ≡ some s
current-member s i r db c m g = elim (Option-cases (find_package i db)) [
  | inl f ↦ absurd (false≢true (ap (passes (is_live_member s)) (sym f) ∙ m))
  | inr (mp, f) ↦
      current-series i mp r db c f g
      ∙ member-series s mp (ap (passes (is_live_member s)) (sym f) ∙ m)
]

-- A row of one series is none of another's.
unpublished_of :
    (s j : String) (o : EventRow)
    → str_eq s j ≡ false
    → o.series_id ≡ some s
    → is_published_in j o ≡ false
unpublished_of s j o h e = rw e (rw h)

-- The loop of `ProjectSeries` over the live members.
members-CurrentBut :
    (s : String) (db : Db)
    → IsKeyed db
    → CurrentOutside s db
    → CurrentBut (some s) (record db { events = events_of db (live_members s db) db.events })
unfolding live_members event_row_of
members-CurrentBut s db keys c =
    let ids = live_members s db in
    let among =
      λ (id : String). is_in-keep package_key (is_live_member s) id db.packages keys.packages in
    record {
      events_current = λ id.
          find-put_all package_key event_key (λ mp. event_row db mp) (event_row-named db)
            db.packages ids id db.events
          ∙ rw (among id) (elim (Option-cases (find_package id db)) [
            | inl f ↦ rw f (c.events_others id (rw f) ∙ rw f)
            | inr (mp, f) ↦ rw f (elim (Bool-cases (is_live_member s mp)) [
              | inl m ↦ rw m (rw (member-deleted s mp m))
              | inr m ↦ rw m (c.events_others id (rw f m) ∙ rw f)
            ])
          ]);
      others_current = λ j h.
          c.others_current j h
          ∙ expected_series-events j db (events_of db ids db.events) (
              keep-put_all package_key event_key (λ mp. event_row db mp) (event_row-named db)
                (is_published_in j) db.packages ids db.events
                (λ k mp g f.
                  unpublished_of s j (event_row db mp) h (
                    member-series s mp
                      (ap (passes (is_live_member s)) (sym f) ∙ sym (among k) ∙ g)))
                (λ k o g f. unpublished_of s j o h (c.members k o (sym (among k) ∙ g) f)));
      events_keyed =
          Keyed-put_all package_key event_key (λ mp. event_row db mp) (event_row-named db)
            db.packages ids db.events c.events_keyed;
    }

-- `ProjectSeries` repairs what a write to one series and its live members has left behind.
pub project_series-IsCurrent :
    (s : String) (db : Db) → IsKeyed db → CurrentOutside s db → IsCurrent (project_series s db)
unfolding project_series
project_series-IsCurrent s db keys c =
    rw (project_events_lem (live_members s db) db)
      (refresh_series_of-IsCurrent (some s) _ (members-CurrentBut s db keys c))

abbrev is_live_package : Package → Bool
is_live_package p = not (is_some p.deleted_at)

abbrev is_live : Series → Bool
is_live s = not (is_some s.deleted_at)

abbrev rows_of : Db → List String → List SeriesRow → List SeriesRow
rows_of db = put_all series_key row_key (λ s. series_row db s) db.series

project_series_rows_lem :
    (ids : List String) (db : Db)
    → project_series_rows ids db ≡ record db { series_rows = rows_of db ids db.series_rows }
unfolding project_series_rows put_all put_series_row
project_series_rows_lem [] db = refl
project_series_rows_lem (id ∷ ids) db = elim (Option-cases (find_series id db)) [
  | inl f ↦ rw f (project_series_rows_lem ids db)
  | inr (s, f) ↦ rw f (project_series_rows_lem ids (put_series_row (some s) db))
]

-- The rows that are derived into an empty table are those of the live events, and series.
derived_event :
    (db : Db) (o : Option Package)
    → (if passes is_live_package o
        then derived package_key event_key (λ mp. event_row db mp) o none
        else none)
      ≡ live_row (λ mp. event_row db mp) o
derived_event db none = refl
derived_event db (some mp) = ground arith

derived_series :
    (db : Db) (o : Option Series)
    → (if passes is_live o then derived series_key row_key (λ s. series_row db s) o none else none)
      ≡ live_series_row (λ s. series_row db s) o
derived_series db none = refl
derived_series db (some s) = ground arith

-- `Rebuild` replaces the projection only, by one that is current, whatever it was.
pub rebuild_lem :
    (db : Db)
    → IsKeyed db
    → (evs : List EventRow) × (rows : List SeriesRow) × (rebuild db
        ≡ record db { events = evs; series_rows = rows })
      × IsCurrent (record db { events = evs; series_rows = rows })
unfolding rebuild find_by
rebuild_lem db keys =
    let bare : Db = record db { events = []; series_rows = [] } in
    let evs = events_of db (live_packages db) [] in
    let full : Db = record db { events = evs; series_rows = [] } in
    (
      evs,
      rows_of full (live_series full) [],
      rw (project_events_lem (live_packages bare) bare)
          (project_series_rows_lem (live_series full) full),
      record {
        events_current = λ id.
            find-put_all package_key event_key (λ mp. event_row db mp) (event_row-named db)
              db.packages (live_packages db) id []
            ∙ rw (is_in-keep package_key is_live_package id db.packages keys.packages)
                (derived_event db (find_package id db));
        series_current = λ id.
            find-put_all series_key row_key (λ s. series_row full s) (series_row-named full)
              db.series (live_series db) id []
            ∙ rw (is_in-keep series_key is_live id db.series keys.series)
                (derived_series full (find_series id db));
        events_keyed =
            Keyed-put_all package_key event_key (λ mp. event_row db mp) (event_row-named db)
              db.packages (live_packages db) [] tt;
      },
    )
