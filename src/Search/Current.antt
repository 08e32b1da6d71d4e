-- ===== src/Search/Current.antt =====
-- The projection of internal/search/project.go after one event, or one series, has been projected.
use mathlib.Core.Path.{subst}
use gophercast.Prelude.{
  String, ◌≡◌, refl, sym, ap, ◌∙◌, true, false, Option, none, some, List, ok, arith, inl, inr,
  str_eq, eq_iff, if◌then◌else◌, Bool-cases, Option-cases, keep,
}
use gophercast.Prelude.Table.{
  find_by, put_by, drop_by, Keyed, find_by-put_by, find_by-drop_by, find_by-key, keep-put_by,
  keep-drop_by, Keyed-put_by, Keyed-drop_by,
}
use gophercast.Search.Rows.{
  Package, Series, EventRow, SeriesRow, Db, series_key, event_key, row_key, package_key,
}
use gophercast.Search.Project.{
  is_some, is_text, find_package, find_series, find_event, find_row, event_row, put_event,
  event_row_of, series_row_of, is_published_in, series_row, put_series_row, refresh_series,
  refresh_series_of, project_package, project_event,
}

-- The row that the authoritative tables give an event, or a series: none if it is deleted.
abbrev pub live_row : (Package → EventRow) → Option Package → Option EventRow
live_row row none = none
live_row row (some mp) = if is_some mp.deleted_at then none else some (row mp)

abbrev pub expected_event : String → Db → Option EventRow
expected_event id db = live_row (λ mp. event_row db mp) (find_package id db)

abbrev pub live_series_row : (Series → SeriesRow) → Option Series → Option SeriesRow
live_series_row row none = none
live_series_row row (some s) = if is_some s.deleted_at then none else some (row s)

abbrev pub expected_series : String → Db → Option SeriesRow
expected_series id db = live_series_row (λ s. series_row db s) (find_series id db)

pub record IsCurrent (db : Db) : Type 0 where
  pub events_current : (id : String) → find_event id db ≡ expected_event id db
  pub series_current : (id : String) → find_row id db ≡ expected_series id db
  pub events_keyed : Keyed event_key db.events

-- All but the row of one series.
pub record CurrentBut (s : Option String) (db : Db) : Type 0 where
  pub events_current : (id : String) → find_event id db ≡ expected_event id db
  pub others_current : (id : String) → is_text id s ≡ false → find_row id db ≡ expected_series id db
  pub events_keyed : Keyed event_key db.events

-- All but the row of one event, which is published in no series but `s`, and the row of `s`.
pub record CurrentExcept (e : String) (s : Option String) (db : Db) : Type 0 where
  pub events_others : (id : String) → str_eq e id ≡ false → find_event id db ≡ expected_event id db
  pub mine :
      (r : EventRow) (j : String)
      → find_event e db ≡ some r
      → is_text j s ≡ false
      → is_published_in j r ≡ false
  pub others_current : (id : String) → is_text id s ≡ false → find_row id db ≡ expected_series id db
  pub events_keyed : Keyed event_key db.events

pub IsCurrent-CurrentBut : {db : Db} (s : Option String) → IsCurrent db → CurrentBut s db
IsCurrent-CurrentBut s c = record {
  events_current = c.events_current;
  others_current = λ id h. c.series_current id;
  events_keyed = c.events_keyed;
}

pub refresh_rows :
    (o : Option Series) (id : String) (db : Db)
    → find_series id db ≡ o
    → (rows : List SeriesRow) × (refresh_series id db ≡ record db { series_rows = rows })
      × ((j : String)
          → find_by row_key j rows
            ≡ (if str_eq id j then live_series_row (λ s. series_row db s) o else find_row j db))
unfolding refresh_series put_series_row series_row_of
refresh_rows none id db f =
    rw f (drop_by row_key id db.series_rows, refl, λ j. find_by-drop_by row_key j id db.series_rows)
refresh_rows (some s) id db f = elim (Bool-cases (is_some s.deleted_at)) [
  | inl gone ↦ rw f (
      rw gone
        (drop_by row_key id db.series_rows, refl, λ j. find_by-drop_by row_key j id db.series_rows))
  | inr live ↦ rw f (
      rw live (
        put_by row_key (series_row db s) db.series_rows,
        refl,
        λ j.
            rw (← find_by-key series_key id db.series s f)
              (find_by-put_by row_key j (series_row db s) db.series_rows),
      ))
]

-- The row is derived last.
pub refresh_series_of-IsCurrent :
    (s : Option String) (db : Db) → CurrentBut s db → IsCurrent (refresh_series_of s db)
refresh_series_of-IsCurrent none db c = record {
  events_current = c.events_current;
  series_current = λ id. c.others_current id refl;
  events_keyed = c.events_keyed;
}
refresh_series_of-IsCurrent (some s) db c =
    let (rows, e, found) = refresh_rows (find_series s db) s db refl in
    rw e (record {
      events_current = c.events_current;
      series_current = λ id. found id ∙ (elim (Bool-cases (str_eq s id)) [
        | inl same ↦ rw same (rw ((eq_iff s id).0 same))
        | inr other ↦ rw other (c.others_current id other)
      ]);
      events_keyed = c.events_keyed;
    })

pub expected_series-events :
    (j : String) (db : Db) (evs : List EventRow)
    → keep (is_published_in j) evs ≡ keep (is_published_in j) db.events
    → expected_series j db ≡ expected_series j (record db { events = evs })
expected_series-events j db evs same = elim (Option-cases (find_series j db)) [
  | inl gone ↦ rw gone
  | inr (s, f) ↦ rw f (rw (find_by-key series_key j db.series s f) (rw same))
]

pub expected_event-cong :
    (i : String) (db db' : Db)
    → find_package i db ≡ find_package i db'
    → ((mp : Package) → mp.id ≡ i → event_row db mp ≡ event_row db' mp)
    → expected_event i db ≡ expected_event i db'
expected_event-cong i db db' same rows = elim (Option-cases (find_package i db)) [
  | inl f ↦ rw (← same) (rw f)
  | inr (mp, f) ↦ rw (← same) (rw f (rw (rows mp (find_by-key package_key i db.packages mp f))))
]

pub expected_series-cong :
    (j : String) (db db' : Db)
    → find_series j db ≡ find_series j db'
    → ((s : Series) → s.id ≡ j → series_row db s ≡ series_row db' s)
    → expected_series j db ≡ expected_series j db'
expected_series-cong j db db' same rows = elim (Option-cases (find_series j db)) [
  | inl f ↦ rw (← same) (rw f)
  | inr (s, f) ↦ rw (← same) (rw f (rw (rows s (find_by-key series_key j db.series s f))))
]

-- A current row is of its event's series.
pub current-series :
    (id : String) (mp : Package) (r : EventRow) (db : Db)
    → IsCurrent db
    → find_package id db ≡ some mp
    → find_event id db ≡ some r
    → r.series_id ≡ mp.series_id
unfolding event_row_of
current-series id mp r db c f g =
    let e : live_row (λ p. event_row db p) (some mp) ≡ some r =
      ap (live_row (λ p. event_row db p)) (sym f) ∙ sym (c.events_current id) ∙ g in
    elim (Bool-cases (is_some mp.deleted_at)) [
      | inl gone ↦ absurd (ground arith)
      | inr live ↦ ground arith
    ]

pub unpublished_in :
    (j : String) (s : Option String) (o : EventRow)
    → is_text j s ≡ false
    → o.series_id ≡ s
    → is_published_in j o ≡ false
unpublished_in j s o h e = rw e (rw h)

drop-CurrentBut :
    (id : String) (mp : Package) (db : Db)
    → find_package id db ≡ some mp
    → is_some mp.deleted_at ≡ true
    → CurrentExcept id mp.series_id db
    → CurrentBut mp.series_id (record db { events = drop_by event_key id db.events })
drop-CurrentBut id mp db f gone c = record {
  events_current = λ i.
      find_by-drop_by event_key i id db.events ∙ (elim (Bool-cases (str_eq id i)) [
        | inl same ↦ rw same (rw (← (eq_iff id i).0 same) (rw f (rw gone)))
        | inr other ↦ rw other (c.events_others i other)
      ]);
  others_current = λ j h.
      c.others_current j h
      ∙ expected_series-events j db (drop_by event_key id db.events) (
          keep-drop_by event_key (is_published_in j) id db.events c.events_keyed
            (λ o g. c.mine o j g h));
  events_keyed = Keyed-drop_by event_key id db.events c.events_keyed;
}

put-CurrentBut :
    (mp : Package) (db : Db)
    → find_package mp.id db ≡ some mp
    → is_some mp.deleted_at ≡ false
    → CurrentExcept mp.id mp.series_id db
    → CurrentBut mp.series_id (put_event (some mp) db)
unfolding put_event event_row_of
put-CurrentBut mp db f live c =
    let row : EventRow = event_row db mp in
    record {
      events_current = λ i.
          find_by-put_by event_key i row db.events ∙ (elim (Bool-cases (str_eq mp.id i)) [
            | inl same ↦ rw same (rw (← (eq_iff mp.id i).0 same) (rw f (rw live)))
            | inr other ↦ rw other (c.events_others i other)
          ]);
      others_current = λ j h.
          c.others_current j h
          ∙ expected_series-events j db (put_by event_key row db.events) (
              keep-put_by event_key (is_published_in j) row db.events
                (unpublished_in j mp.series_id row h refl) (λ o g. c.mine o j g h));
      events_keyed = Keyed-put_by event_key row db.events c.events_keyed;
    }

project_package-IsCurrent :
    (mp : Package) (db : Db)
    → find_package mp.id db ≡ some mp
    → CurrentExcept mp.id mp.series_id db
    → (after : Db) × (project_package mp.id (some mp) db ≡ ok after) × IsCurrent after
unfolding project_package
project_package-IsCurrent mp db f c = elim (Bool-cases (is_some mp.deleted_at)) [
  | inl gone ↦
      rw gone
        (_, refl, refresh_series_of-IsCurrent mp.series_id _ (drop-CurrentBut mp.id mp db f gone c))
  | inr live ↦
      rw (live, f)
        (_, refl, refresh_series_of-IsCurrent mp.series_id _ (put-CurrentBut mp db f live c))
]

-- `ProjectEvent` repairs what a write to one event has left behind.
pub project_event-IsCurrent :
    (id : String) (mp : Package) (db : Db)
    → find_package id db ≡ some mp
    → CurrentExcept id mp.series_id db
    → (after : Db) × (project_event id db ≡ ok after) × IsCurrent after
unfolding project_event
project_event-IsCurrent id mp db f c =
    let named : mp.id ≡ id = find_by-key package_key id db.packages mp f in
    rw f (
      subst
        (λ (i : String).
          find_package i db ≡ some mp
          → CurrentExcept i mp.series_id db
          → (after : Db) × (project_package i (some mp) db ≡ ok after) × IsCurrent after)
        named (project_package-IsCurrent mp db) f c)
