-- ===== src/Mediapackage/Recorded.antt =====
-- The first transaction of `Materialise`, and an inspection's, keep the projection current:
-- internal/mediapackage/mediapackage.go and tech.go.
use gophercast.Prelude.{
  ℕ, String, ◌≡◌, refl, sym, ap, ◌∙◌, Bool, true, false, not, Option, none, some, List, inl, inr,
  str_eq, str_eq_refl, if◌then◌else◌, Option-cases,
}
use gophercast.Prelude.Table.{find_by, or_else, insert_by, find_by-insert_by, update_where}
use gophercast.Search.Rows.{Package, EventRow, Db, package_key}
use gophercast.Search.Project.{
  is_some, is_text, find_package, find_event, event_row, is_published_in,
}
use gophercast.Search.Current.{live_row, IsCurrent, CurrentExcept, project_event-IsCurrent}
use gophercast.Mediapackage.Materialise.{
  Manifest, new_package, record_package, lacks_duration, set_duration_if_null, record_duration,
}
use gophercast.Mediapackage.Refresh.{
  written-CurrentExcept, refreshed, own_series, others_updated, found_updated, missing_updated,
}

-- The other packages are found as before beside a new one.
others_inserted :
    (p : Package) (i : String) (ps : List Package)
    → str_eq p.id i ≡ false
    → find_by package_key i ps ≡ find_by package_key i (insert_by package_key p ps)
others_inserted p i ps h = sym (find_by-insert_by package_key i p ps ∙ rw h)

-- An event that has no package yet has no row.
no_row :
    (id : String) (r : EventRow) (db : Db)
    → IsCurrent db
    → find_package id db ≡ none
    → find_event id db ≡ some r
    → ⊥
no_row id r db c f g =
    let e : live_row (λ mp. event_row db mp) none ≡ some r =
      ap (live_row (λ mp. event_row db mp)) (sym f) ∙ sym (c.events_current id) ∙ g in
    cc

record_package-CurrentExcept :
    (m : Manifest) (db : Db) (o : Option Package) (mp : Package)
    → IsCurrent db
    → find_package m.id db ≡ o
    → or_else package_key o (new_package m) ≡ mp
    → CurrentExcept m.id mp.series_id
        (record db { packages = insert_by package_key (new_package m) db.packages })
unfolding new_package
record_package-CurrentExcept m db o mp c f e =
    written-CurrentExcept db (insert_by package_key (new_package m) db.packages) db.metadata
      db.publications db.elements db.element_tags db.snapshots m.id mp.series_id c
      (λ i h. (others_inserted (new_package m) i db.packages h, refl, refl)) (mine o f e)
  where
    mine :
        (x : Option Package)
        → find_package m.id db ≡ x
        → or_else package_key x (new_package m) ≡ mp
        → (r : EventRow) (j : String) → find_event m.id db ≡ some r
        → is_text j mp.series_id ≡ false
        → is_published_in j r ≡ false
    mine none f e r j g h = absurd (no_row m.id r db c f g)
    mine (some p) f e r j g h =
        own_series m.id p db c f r j g (rw (ap (λ (q : Package). q.series_id) e) h)

-- A mediapackage that is materialised is projected with its first transaction.
pub record_package-IsCurrent :
    (m : Manifest) (db : Db) → IsCurrent db → IsCurrent (record_package m db).1
unfolding record_package new_package
record_package-IsCurrent m db c =
    let mp = or_else package_key (find_package m.id db) (new_package m) in
    let (after, e, d) =
      project_event-IsCurrent m.id mp
        (record db { packages = insert_by package_key (new_package m) db.packages })
        (find_by-insert_by package_key m.id (new_package m) db.packages ∙ rw (str_eq_refl m.id))
        (record_package-CurrentExcept m db (find_package m.id db) mp c refl refl) in
    rw e d

none_found :
    (id : String) (ps : List Package) (mp : Package)
    → find_by package_key id ps ≡ none
    → find_by package_key id ps ≡ some mp
    → ⊥
none_found id ps mp f g = let e : none ≡ some mp = sym f ∙ g in cc

same_series :
    (b : Bool) (ms : ℕ) (mp : Package) (j : String)
    → is_text j (if b then record mp { duration_ms = some ms } else mp).series_id ≡ false
    → is_text j mp.series_id ≡ false
same_series true ms mp j h = h
same_series false ms mp j h = h

-- So is the duration that an inspection finds.
pub record_duration-IsCurrent :
    (id : String) (ms : ℕ) (db : Db) → IsCurrent db → IsCurrent (record_duration id ms db).1
unfolding record_duration set_duration_if_null
record_duration-IsCurrent id ms db c =
    let lacks = λ (p : Package). not (is_some p.duration_ms) in
    let fill = λ (p : Package). let t : Package = record p { duration_ms = some ms } in t in
    let ps = update_where package_key (lacks_duration id) fill db.packages in
    elim (Option-cases (find_package id db)) [
      | inl f ↦
          refreshed id none (record db { packages = ps }) db
            (missing_updated id (lacks_duration id) fill db.packages (λ p. refl) f)
            (λ mp g. absurd (
              none_found id ps mp
                (missing_updated id (lacks_duration id) fill db.packages (λ p. refl) f) g))
            c
      | inr (mp, f) ↦
          let mp' = if lacks mp then fill mp else mp in
          let (after, e, d) =
            project_event-IsCurrent id mp' (record db { packages = ps })
              (found_updated id lacks fill mp db.packages (λ p. refl) f)
              (written-CurrentExcept db ps db.metadata db.publications db.elements db.element_tags
                db.snapshots id mp'.series_id c
                (λ i h. (others_updated id i lacks fill db.packages (λ p. refl) h, refl, refl))
                (λ r j g h. own_series id mp db c f r j g (same_series (lacks mp) ms mp j h))) in
          rw e d
    ]
