-- ===== src/Mediapackage/Edits.antt =====
-- `SetMetadata` and `SetEventDC` of internal/mediapackage keep the projection current, for an event
-- that leaves no series in which it is published.
use mathlib.Core.Path.{subst, fun_ext}
use gophercast.Prelude.{
  ℕ, String, ◌≡◌, refl, sym, ap, ◌∙◌, Bool, true, false, not, ◌&&◌, ◌||◌, Option, none, some, List,
  Result, ok, err, arith, inl, inr, str_eq, eq_iff, if◌then◌else◌, Bool-cases, Option-cases, any,
}
use gophercast.Prelude.Table.{find_by, update_where, put_by, find_by-put_by}
use gophercast.Search.Rows.{Package, MetadataRow, EventRow, Db, package_key, metadata_key}
use gophercast.Search.Project.{
  Error, foreign_key, is_some, is_text, find_package, find_event, is_published_in, project_event,
  begin_func, ◌>>=◌,
}
use gophercast.Search.Current.{IsCurrent, project_event-IsCurrent}
use gophercast.Mediapackage.Metadata.{
  Metadata, nullif, refers, metadata_row, put_metadata, has_id, set_series_id, set_metadata_body,
  set_metadata,
}
use gophercast.Mediapackage.Write.{is_live_id, with_dc, update_dc, set_event_dc_body, set_event_dc}
use gophercast.Mediapackage.Refresh.{
  written, written-CurrentExcept, found_updated, others_updated, missing_updated, own_series,
}

abbrev pub other_series : Option String → Option String → Bool
other_series none s = false
other_series (some t) s = not (is_text t s)

-- The event's row counts as published in a series that is not the new one.
abbrev pub row_leaves : Option EventRow → Option String → Bool
row_leaves none s = false
row_leaves (some r) s = r.published && other_series r.series_id s

abbrev pub leaves_series : String → Option String → Db → Bool
leaves_series id s db = row_leaves (find_event id db) s

stays_out :
    (o s : Option String) (published : Bool) (j : String)
    → (published && other_series o s) ≡ false
    → is_text j s ≡ false
    → (is_text j o && published) ≡ false
stays_out none s published j h k = refl
stays_out (some t) s false j h k = ground arith
stays_out (some t) s true j h k = elim (Bool-cases (str_eq t j)) [
  | inl e ↦ let k' : is_text t s ≡ false = rw ((eq_iff t j).0 e) k in absurd (ground arith)
  | inr e ↦ rw e
]

row_stays :
    (id : String) (s : Option String) (db : Db)
    → leaves_series id s db ≡ false
    → (r : EventRow) (j : String) → find_event id db ≡ some r
    → is_text j s ≡ false
    → is_published_in j r ≡ false
row_stays id s db h r j f k =
    stays_out r.series_id s r.published j (ap (λ o. row_leaves o s) (sym f) ∙ h) k

-- A check in a transaction: its failure rolls back.
checked :
    (b : Bool) (e : Error) (db before : Db) (f : Db → Result Error Db)
    → IsCurrent before
    → IsCurrent (begin_func (f db) before).1
    → IsCurrent (begin_func ((if b then ok db else err e) >>= f) before).1
checked true e db before f c d = d
checked false e db before f c d = c

pub other_metadata :
    (id i : String) (md : Metadata) (ms : List MetadataRow)
    → str_eq id i ≡ false
    → find_by metadata_key i ms
      ≡ find_by metadata_key i (put_by metadata_key (metadata_row id md) ms)
unfolding metadata_row
other_metadata id i md ms h = sym (find_by-put_by metadata_key i (metadata_row id md) ms ∙ rw h)

-- The transaction's last step, on an event that is there, from the two tables written before it.
edited :
    (id : String) (s : Option String) (md : Metadata) (g : Package → Bool) (f : Package → Package)
    (mp : Package) (db : Db)
    → IsCurrent db
    → ((p : Package) → (f p).id ≡ p.id)
    → find_package id db ≡ some mp
    → (if g mp then f mp else mp).series_id ≡ s
    → ((r : EventRow) (j : String)
        → find_event id db ≡ some r
        → is_text j s ≡ false
        → is_published_in j r ≡ false)
    → IsCurrent
        (begin_func
          (project_event id (record db {
            packages = update_where package_key (λ p. str_eq p.id id && g p) f db.packages;
            metadata = put_by metadata_key (metadata_row id md) db.metadata;
          }))
          db).1
edited id s md g f mp db c same found series mine =
    let ps = update_where package_key (λ p. str_eq p.id id && g p) f db.packages in
    let ms = put_by metadata_key (metadata_row id md) db.metadata in
    let (after, e, d) =
      project_event-IsCurrent id (if g mp then f mp else mp)
        (written db ps ms db.publications db.elements db.element_tags db.snapshots)
        (found_updated id g f mp db.packages same found)
        (written-CurrentExcept db ps ms db.publications db.elements db.element_tags db.snapshots id
          (if g mp then f mp else mp).series_id c
          (λ i h. (
            others_updated id i g f db.packages same h,
            other_metadata id i md db.metadata h,
            refl,
          ))
          (rw series mine)) in
    rw e d

pub has_id-always : (id : String) → (λ p. str_eq p.id id && true) ≡ has_id id
has_id-always id = fun_ext (λ p. ground arith)

-- `SetMetadata` leaves the projection current, unless it moves an event out of a series in which
-- the event is published.
pub set_metadata-IsCurrent :
    (id : String) (md : Metadata) (db : Db)
    → IsCurrent db
    → leaves_series id (nullif md.series_id) db ≡ false
    → IsCurrent (set_metadata id md db).1
unfolding set_metadata set_metadata_body put_metadata set_series_id
set_metadata-IsCurrent id md db c stays = elim (Option-cases (find_package id db)) [
  | inl f ↦ rw f c
  | inr (mp, f) ↦ rw f (
      checked
        (refers (nullif md.series_id)
            (record db { metadata = put_by metadata_key (metadata_row id md) db.metadata })
          || not (is_some (find_package id db)))
        foreign_key _ db (project_event id) c
        (subst
          (λ (q : Package → Bool).
            IsCurrent
              (begin_func
                (project_event id (record db {
                  packages =
                      update_where package_key q (λ p. record p { series_id = nullif md.series_id })
                        db.packages;
                  metadata = put_by metadata_key (metadata_row id md) db.metadata;
                }))
                db).1)
          (has_id-always id)
          (edited id (nullif md.series_id) md (λ p. true)
            (λ p. record p { series_id = nullif md.series_id }) mp db c (λ p. refl) f refl
            (row_stays id (nullif md.series_id) db stays))))
]

-- `SetEventDC` leaves the projection current, under the same condition.
pub set_event_dc-IsCurrent :
    (id title : String) (start : Option ℕ) (md : Metadata) (db : Db)
    → IsCurrent db
    → leaves_series id (nullif md.series_id) db ≡ false
    → IsCurrent (set_event_dc id title start md db).1
unfolding set_event_dc set_event_dc_body update_dc put_metadata
set_event_dc-IsCurrent id title start md db c stays =
    let s = nullif md.series_id in
    let live = λ (p : Package). not (is_some p.deleted_at) in
    let dc = with_dc title start s in
    let ps = update_where package_key (is_live_id id) dc db.packages in
    checked (refers s db || not (any (is_live_id id) db.packages)) foreign_key
      (record db { packages = ps }) db _ c
      (elim (Option-cases (find_package id db)) [
        | inl f ↦ rw (missing_updated id (is_live_id id) dc db.packages (λ p. refl) f) c
        | inr (mp, f) ↦
            rw (found_updated id live dc mp db.packages (λ p. refl) f)
              (elim (Bool-cases (live mp)) [
                | inl h ↦
                    edited id s md live dc mp db c (λ p. refl) f (rw h) (row_stays id s db stays)
                | inr h ↦
                    edited id mp.series_id md live dc mp db c (λ p. refl) f (rw h)
                      (own_series id mp db c f)
              ])
      ])
