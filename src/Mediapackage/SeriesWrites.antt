-- ===== src/Mediapackage/SeriesWrites.antt =====
-- `PutSeries` and `TombstoneSeries` of internal/mediapackage keep the projection current.
use gophercast.Prelude.{
  ℕ, String, ◌≡◌, refl, sym, ◌∙◌, false, Option, none, some, List, arith, inl, inr, str_eq,
  str_eq_sym, Bool-cases, Option-cases, any,
}
use gophercast.Prelude.Table.{
  find_by, update_where, find_by-update_where, Keyed-update_where, put_by, find_by-put_by,
  find_by-key, Keyed-put_by,
}
use gophercast.Prelude.Derived.{passes}
use gophercast.Search.Rows.{Package, Series, Db, series_key}
use gophercast.Search.Project.{
  is_some, is_text, find_package, find_series, joined_series, event_row, is_live_member,
}
use gophercast.Search.Current.{live_row, IsCurrent, expected_series-cong}
use gophercast.Search.Members.{IsKeyed, CurrentOutside, current-member, project_series-IsCurrent}
use gophercast.Mediapackage.Metadata.{SeriesMetadata, kept_deleted, series_of, put_series}
use gophercast.Mediapackage.Write.{is_live_series_id, tombstone_series}

-- A write to one series.
module _ (id : String) (db : Db) (rows : List Series)
    (others : (j : String)
      → str_eq id j ≡ false
      → find_by series_key j db.series ≡ find_by series_key j rows) where
  same_title :
      (o : Option String) → is_text id o ≡ false → joined_series o db.series ≡ joined_series o rows
  same_title none h = refl
  same_title (some t) h = others t (str_eq_sym t id h)

  -- An event that is no live member is deleted, or of another series.
  outside :
      (o : Option Package)
      → passes (is_live_member id) o ≡ false
      → live_row (λ mp. event_row db mp) o
        ≡ live_row (λ mp. event_row (record db { series = rows }) mp) o
  outside none h = refl
  outside (some mp) h = elim (Bool-cases (is_some mp.deleted_at)) [
    | inl gone ↦ rw gone
    | inr live ↦ rw live (rw (same_title mp.series_id (ground arith)))
  ]

  pub series-CurrentOutside : IsCurrent db → CurrentOutside id (record db { series = rows })
  series-CurrentOutside c = record {
    events_others = λ i h. c.events_current i ∙ outside (find_package i db) h;
    members = λ i r m g. current-member id i r db c m g;
    others_current = λ j h.
        c.series_current j
        ∙ expected_series-cong j db (record db { series = rows }) (others j h) (λ s n. refl);
    events_keyed = c.events_keyed;
  }

-- Writing a series leaves the projection current, its members' rows included.
pub put_series-IsCurrent :
    (id : String) (md : SeriesMetadata) (db : Db)
    → IsKeyed db
    → IsCurrent db
    → IsCurrent (put_series id md db).1
unfolding put_series series_of
put_series-IsCurrent id md db keys c =
    let row : Series = series_of id md (kept_deleted (find_series id db)) in
    let rows = put_by series_key row db.series in
    project_series-IsCurrent id (record db { series = rows })
      (record {
        packages = keys.packages;
        series = Keyed-put_by series_key row db.series keys.series;
      })
      (series-CurrentOutside id db rows
        (λ j h. sym (find_by-put_by series_key j row db.series ∙ rw h)) c)

-- Deleting a series leaves the projection current.
pub tombstone_series-IsCurrent :
    (now : ℕ) (id : String) (db : Db)
    → IsKeyed db
    → IsCurrent db
    → IsCurrent (tombstone_series now id db).1
unfolding tombstone_series
tombstone_series-IsCurrent now id db keys c =
    elim (Bool-cases (any (is_live_series_id id) db.series)) [
      | inr gone ↦ rw gone c
      | inl there ↦
          let mark = λ (s : Series). let t : Series = record s { deleted_at = some now } in t in
          let rows = update_where series_key (is_live_series_id id) mark db.series in
          rw there (
            project_series-IsCurrent id (record db { series = rows })
              (record {
                packages = keys.packages;
                series =
                    Keyed-update_where series_key (is_live_series_id id) mark (λ s. refl) db.series
                      keys.series;
              })
              (series-CurrentOutside id db rows
                (λ j h. sym (
                  find_by-update_where series_key (is_live_series_id id) mark (λ s. refl) j
                    db.series
                  ∙ (elim (Option-cases (find_by series_key j db.series)) [
                    | inl e ↦ rw e
                    | inr (s, e) ↦
                        rw e (rw (find_by-key series_key j db.series s e) (rw (str_eq_sym id j h)))
                  ])))
                c))
    ]
