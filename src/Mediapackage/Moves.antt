-- ===== src/Mediapackage/Moves.antt =====
-- `SetMetadata` of internal/mediapackage/metadata.go on an event that changes its series.
use mathlib.Core.Bool.{false≢true}
use gophercast.Prelude.{
  String, ◌≡◌, refl, sym, ap, ◌∙◌, Bool, true, false, not, ◌&&◌, none, some, List, ok, arith, inl,
  inr, str_eq, str_eq_sym, if◌then◌else◌, Bool-cases, Option-cases, any,
}
use gophercast.Prelude.Table.{
  find_by, find_by-key, put_by, Keyed, find_by-put_by, Keyed-put_by, found_of_any, any_of_find,
  update_where,
}
use gophercast.Search.Rows.{
  Package, Series, EventRow, SeriesRow, Db, event_key, package_key, metadata_key, series_key,
}
use gophercast.Search.Project.{
  is_some, find_package, find_series, find_event, find_row, event_row, event_row_of, series_row,
  series_row_of, put_event, is_published_in, refresh_series, project_package, project_event,
}
use gophercast.Search.Current.{live_series_row, IsCurrent, refresh_rows}
use gophercast.Search.Agreement.{is_nonempty-keep}
use gophercast.Mediapackage.Metadata.{
  Metadata, nullif, metadata_row, put_metadata, set_series_id, set_metadata_body, set_metadata,
}
use gophercast.Mediapackage.Refresh.{found_updated}
use gophercast.Mediapackage.Edits.{has_id-always}

passing-row :
    (q : EventRow → Bool) (r x : EventRow) (es : List EventRow)
    → (if str_eq (event_key r) (event_key x) then some r else find_by event_key (event_key x) es)
      ≡ some x
    → q x ≡ true
    → q r ≡ false
    → any (λ e. q e && not (str_eq e.mediapackage_id (event_key r))) es ≡ true
passing-row q r x es g k new = elim (Bool-cases (str_eq (event_key r) (event_key x))) [
  | inl same ↦
      let e : some r ≡ some x = rw same at g in
      let e' : r ≡ x = ground arith in absurd (false≢true (sym new ∙ ap q e' ∙ k))
  | inr other ↦
      any_of_find event_key (λ e. q e && not (str_eq e.mediapackage_id (event_key r))) (event_key x)
        es x (rw other at g) (rw (k, str_eq_sym (event_key r) (event_key x) other))
]

-- After one row is put, the test fails everywhere if it fails on that row and on all others.
fails-put_by :
    (q : EventRow → Bool) (r : EventRow) (es : List EventRow)
    → Keyed event_key es
    → q r ≡ false
    → any (λ e. q e && not (str_eq e.mediapackage_id (event_key r))) es ≡ false
    → any q (put_by event_key r es) ≡ false
fails-put_by q r es keyed new others = elim (Bool-cases (any q (put_by event_key r es))) [
  | inr e ↦ e
  | inl h ↦
      let (x, f, k) =
        found_of_any event_key q (put_by event_key r es) (Keyed-put_by event_key r es keyed) h in
      absurd (
        false≢true (
          sym others
          ∙ passing-row q r x es (sym (find_by-put_by event_key (event_key x) r es) ∙ f) k new))
]

refresh_series-others :
    (s t : String) (db : Db)
    → str_eq s t ≡ false
    → (find_row t (refresh_series s db) ≡ find_row t db)
      × ((refresh_series s db).events ≡ db.events)
refresh_series-others s t db h =
    let (rows, e, found) = refresh_rows (find_series s db) s db refl in rw e (found t ∙ rw h, refl)

published_row :
    (id t : String) (e : EventRow) (row : SeriesRow) (db : Db)
    → IsCurrent db
    → find_event id db ≡ some e
    → is_published_in t e ≡ true
    → find_row t db ≡ some row
    → row.has_published ≡ true
unfolding series_row_of
published_row id t e row db c f k g = elim (Option-cases (find_series t db)) [
  | inl none_found ↦
      let h : live_series_row (λ s. series_row db s) none ≡ some row =
        ap (live_series_row (λ s. series_row db s)) (sym none_found)
        ∙ sym (c.series_current t)
        ∙ g in
      absurd (cc)
  | inr (s, found) ↦
      let h : live_series_row (λ s. series_row db s) (some s) ≡ some row =
        ap (live_series_row (λ s. series_row db s)) (sym found) ∙ sym (c.series_current t) ∙ g in
      let named : s.id ≡ t = find_by-key series_key t db.series s found in
      let any_published : any (is_published_in s.id) db.events ≡ true =
        rw named (any_of_find event_key (is_published_in t) id db.events e f k) in
      elim (Bool-cases (is_some s.deleted_at)) [
        | inl gone ↦ absurd (ground arith)
        | inr live ↦
            let same : series_row db s ≡ row = ground arith in
            rw (← same) (is_nonempty-keep (is_published_in s.id) db.events ∙ any_published)
      ]
]

-- The move of an event that is the only one published in its old series leaves that series' row of
-- the projection as it was: it says that the series has a published event, and there is none.
pub set_metadata-stale :
    (id s t : String) (md : Metadata) (mp : Package) (e : EventRow) (new : Series) (row : SeriesRow)
    (db : Db)
    → IsCurrent db
    → find_package id db ≡ some mp
    → is_some mp.deleted_at ≡ false
    → nullif md.series_id ≡ some s
    → find_series s db ≡ some new
    → str_eq s t ≡ false
    → find_row t db ≡ some row
    → find_event id db ≡ some e
    → is_published_in t e ≡ true
    → any (λ e. is_published_in t e && not (str_eq e.mediapackage_id id)) db.events ≡ false
    → let (r, after) = set_metadata id md db in
      (r ≡ ok tt)
      × (find_row t after ≡ some row)
      × (row.has_published ≡ true)
      × (any (is_published_in t) after.events ≡ false)
unfolding set_metadata set_metadata_body put_metadata set_series_id project_event project_package
    put_event event_row_of
set_metadata-stale id s t md mp e new row db c found live to exists apart stale f k only =
    let move = λ (p : Package). let q : Package = record p { series_id = some s } in q in
    let ps = update_where package_key (λ p. str_eq p.id id && true) move db.packages in
    let ms = put_by metadata_key (metadata_row id md) db.metadata in
    let moved = found_updated id (λ p. true) move mp db.packages (λ p. refl) found in
    let edited : Db = record db { packages = ps; metadata = ms } in
    let r : EventRow = event_row edited (move mp) in
    let after : Db = record edited { events = put_by event_key r db.events } in
    let (kept, same) = refresh_series-others s t after apart in
    let named : mp.id ≡ id = find_by-key package_key id db.packages mp found in
    rw found (
      rw (to, exists)
        (rw (← has_id-always id) (
          rw moved (
            rw live (
              rw moved (
                refl,
                kept ∙ stale,
                published_row id t e row db c f k stale,
                ap (any (is_published_in t)) same
                    ∙ fails-put_by (is_published_in t) r db.events c.events_keyed (rw apart)
                        (rw named only),
              ))))))
