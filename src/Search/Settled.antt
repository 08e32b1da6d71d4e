-- ===== src/Search/Settled.antt =====
-- Projecting an event twice: internal/search/project.go.
use gophercast.Prelude.{
  Option-cases, Result, err, sym, ◌∙◌, String, ◌≡◌, refl, ap, Option, none, some, List, ok, inl,
  inr, Bool-cases,
}
use gophercast.Prelude.Table.{put_by, drop_by, put_by_again, drop_by_again}
use gophercast.Search.Rows.{EventRow, Package, Series, Element, SeriesRow, Db, event_key, row_key}
use gophercast.Search.Project.{
  no_rows, Error, is_some, find_package, find_series, event_row, event_row_of, put_event,
  series_row, series_row_of, put_series_row, refresh_series, refresh_series_of, project_package,
  project_event,
}

-- A series that was refreshed stays as it is, whatever elements are written.
refreshed_series :
    (o : Option Series) (s : String) (db : Db)
    → find_series s db ≡ o
    → (rows : List SeriesRow) × (refresh_series s db ≡ record db { series_rows = rows })
      × ((els : List Element) (tags : List (String × String))
          → let now : Db = record db { series_rows = rows; elements = els; element_tags = tags } in
            refresh_series s now ≡ now)
unfolding refresh_series put_series_row series_row_of
refreshed_series none s db f = rw f (
  drop_by row_key s db.series_rows,
  refl,
  λ els tags. rw (drop_by_again row_key s db.series_rows),
)
refreshed_series (some x) s db f = elim (Bool-cases (is_some x.deleted_at)) [
  | inl gone ↦ rw f (
      rw gone (
        drop_by row_key s db.series_rows,
        refl,
        λ els tags. rw (drop_by_again row_key s db.series_rows),
      ))
  | inr live ↦ rw f (
      rw live (
        put_by row_key (series_row db x) db.series_rows,
        refl,
        λ els tags. rw (put_by_again row_key (series_row db x) db.series_rows),
      ))
]

refreshed_series_of :
    (o : Option String) (db : Db)
    → (rows : List SeriesRow) × (refresh_series_of o db ≡ record db { series_rows = rows })
      × ((els : List Element) (tags : List (String × String))
          → let now : Db = record db { series_rows = rows; elements = els; element_tags = tags } in
            refresh_series_of o now ≡ now)
refreshed_series_of none db = (db.series_rows, refl, λ els tags. refl)
refreshed_series_of (some s) db = refreshed_series (find_series s db) s db refl

-- So does an event that was projected.
pub projected_again :
    (mp : Package) (id : String) (db : Db)
    → find_package id db ≡ some mp
    → (evs : List EventRow) × (rows : List SeriesRow) × (project_event id db
        ≡ ok (record db { events = evs; series_rows = rows }))
      × ((els : List Element) (tags : List (String × String))
          → let now : Db = record db {
            events = evs;
            series_rows = rows;
            elements = els;
            element_tags = tags;
          } in
            project_event id now ≡ ok now)
unfolding project_event project_package put_event event_row_of
projected_again mp id db f = elim (Bool-cases (is_some mp.deleted_at)) [
  | inl gone ↦
      let evs = drop_by event_key id db.events in
      let (rows, e, same) = refreshed_series_of mp.series_id (record db { events = evs }) in
      rw f (
        rw gone (
          evs,
          rows,
          ap ok e,
          λ els tags. rw (drop_by_again event_key id db.events) (ap ok (same els tags)),
        ))
  | inr live ↦
      let evs = put_by event_key (event_row db mp) db.events in
      let (rows, e, same) = refreshed_series_of mp.series_id (record db { events = evs }) in
      rw f (
        rw live (
          rw f (
            evs,
            rows,
            ap ok e,
            λ els tags.
                rw (put_by_again event_key (event_row db mp) db.events) (ap ok (same els tags)),
          )))
]

-- What is projected is written to two tables.
abbrev result_or : Db → Result Error Db → Db
result_or d (ok db) = db
result_or d (err e) = d

pub project_event-tables :
    (id : String) (db after : Db)
    → project_event id db ≡ ok after
    → (evs : List EventRow) × (rows : List SeriesRow) × (after
        ≡ record db { events = evs; series_rows = rows })
unfolding project_event project_package
project_event-tables id db after h = elim (Option-cases (find_package id db)) [
  | inl none_found ↦ let e : err no_rows ≡ ok after = rw none_found at h in absurd (cc)
  | inr (mp, f) ↦
      let (evs, rows, e, again) = projected_again mp id db f in
      (evs, rows, ap (result_or db) (sym h ∙ e))
]

pub project_event-snapshots :
    (id : String) (db after : Db) → project_event id db ≡ ok after → after.snapshots ≡ db.snapshots
project_event-snapshots id db after h =
    let (evs, rows, e) = project_event-tables id db after h in ap (λ d. d.snapshots) e
