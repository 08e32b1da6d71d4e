-- ===== src/Mediapackage/Refresh.antt =====
-- The writes of internal/mediapackage to one event keep the projection current.
use gophercast.Prelude.{
  ℕ, String, ◌≡◌, refl, sym, ap, ◌∙◌, Bool, false, not, ◌&&◌, Option, none, some, List, [], ◌∷◌,
  arith, inl, inr, str_eq, str_eq_refl, str_eq_sym, eq_iff, if◌then◌else◌, Bool-cases, Option-cases,
  any, keep,
}
use gophercast.Prelude.Table.{
  find_by, update_where, updated, find_by-update_where, find_by-key, found_of_any,
}
use gophercast.Search.Rows.{
  Package, MetadataRow, Publication, Element, Snapshot, EventRow, Db, package_key, metadata_key,
}
use gophercast.Search.Project.{
  is_some, is_text, find_package, find_event, event_row, publications_of, is_published_in,
  project_event, project_package, begin_func,
}
use gophercast.Search.Current.{
  IsCurrent, CurrentExcept, expected_event-cong, current-series, unpublished_in,
  project_event-IsCurrent,
}
use gophercast.Search.Members.{IsKeyed}
use gophercast.Mediapackage.Metadata.{is_pin, put_publication, pin, publish_tx, publish}
use gophercast.Mediapackage.Write.{
  is_live_id, drop_archive, mark_deleted, tombstone_event, holds_tag, of_package,
}

-- A write to the tables that events are derived from, but for the series and the policies.
module _ (db : Db) (packages : List Package) (metadata : List MetadataRow)
    (publications : List Publication) (elements : List Element) (tags : List (String × String))
    (snapshots : List Snapshot) where
  abbrev pub written : Db
  written = record db {
    packages = packages;
    metadata = metadata;
    publications = publications;
    elements = elements;
    element_tags = tags;
    snapshots = snapshots;
  }

  event_row-written :
      (mp : Package)
      → find_by metadata_key mp.id db.metadata ≡ find_by metadata_key mp.id metadata
      → publications_of mp.id db.publications ≡ publications_of mp.id publications
      → event_row db mp ≡ event_row written mp
  event_row-written mp m p = rw m (rw p)

  -- One that concerns a single event.
  pub written-CurrentExcept :
      (id : String) (s : Option String)
      → IsCurrent db
      → ((i : String)
          → str_eq id i ≡ false
          → (find_by package_key i db.packages ≡ find_by package_key i packages)
            × (find_by metadata_key i db.metadata ≡ find_by metadata_key i metadata)
            × (publications_of i db.publications ≡ publications_of i publications))
      → ((r : EventRow) (j : String)
          → find_event id db ≡ some r
          → is_text j s ≡ false
          → is_published_in j r ≡ false)
      → CurrentExcept id s written
  written-CurrentExcept id s c others mine = record {
    events_others = λ i h.
        let (p, m, b) = others i h in
        c.events_current i
        ∙ expected_event-cong i db written p (λ mp n. event_row-written mp (rw n m) (rw n b));
    mine = mine;
    others_current = λ j h. c.series_current j;
    events_keyed = c.events_keyed;
  }

keep-put_publication :
    (n : Publication) (ps : List Publication) (i : String)
    → str_eq n.mediapackage_id i ≡ false
    → publications_of i ps ≡ publications_of i (put_publication n ps)
unfolding put_publication
keep-put_publication n [] i h = rw h
keep-put_publication n (p ∷ ps) i h = elim (Bool-cases (is_pin n.mediapackage_id n.channel p)) [
  | inl e ↦ rw e (
      ground (
        arith,
        eq_iff p.mediapackage_id n.mediapackage_id,
        eq_iff p.mediapackage_id i,
        eq_iff n.mediapackage_id i,
      ))
  | inr e ↦ rw e (ground (arith, keep-put_publication n ps i))
]

-- What `ProjectEvent` needs of the rest of the transaction.
pub refreshed :
    (id : String) (o : Option Package) (db before : Db)
    → find_package id db ≡ o
    → ((mp : Package) → find_package id db ≡ some mp → CurrentExcept id mp.series_id db)
    → IsCurrent before
    → IsCurrent (begin_func (project_event id db) before).1
unfolding project_event project_package
refreshed id none db before f c b = rw f b
refreshed id (some mp) db before f c b =
    let (after, e, d) = project_event-IsCurrent id mp db f (c mp f) in rw e d

pub own_series :
    (id : String) (mp : Package) (db : Db)
    → IsCurrent db
    → find_package id db ≡ some mp
    → (r : EventRow) (j : String) → find_event id db ≡ some r
    → is_text j mp.series_id ≡ false
    → is_published_in j r ≡ false
own_series id mp db c f r j g h =
    unpublished_in j mp.series_id r h (current-series id mp r db c f g)

-- Publishing pins the policy and leaves the projection current.
pub publish-IsCurrent :
    (fresh id channel : String) (db : Db) → IsCurrent db → IsCurrent (publish fresh id channel db).1
unfolding publish publish_tx pin
publish-IsCurrent fresh id channel db c = elim (Bool-cases (is_some (find_package id db))) [
  | inr gone ↦ rw gone c
  | inl there ↦ rw there (
      let pubs = put_publication (pin fresh id channel db) db.publications in
      refreshed id (find_package id db) (record db { publications = pubs }) db refl
        (λ mp f.
          written-CurrentExcept db db.packages db.metadata pubs db.elements db.element_tags
            db.snapshots id mp.series_id c
            (λ i h.
              (refl, refl, keep-put_publication (pin fresh id channel db) db.publications i h))
            (own_series id mp db c f))
        c)
]

-- An update of the packages with an id changes the one that is found under it, and no other.
pub found_updated :
    (id : String) (g : Package → Bool) (f : Package → Package) (mp : Package) (ps : List Package)
    → ((p : Package) → (f p).id ≡ p.id)
    → find_by package_key id ps ≡ some mp
    → find_by package_key id (update_where package_key (λ p. str_eq p.id id && g p) f ps)
      ≡ some (if g mp then f mp else mp)
found_updated id g f mp ps same h =
    let named : mp.id ≡ id = find_by-key package_key id ps mp h in
    find_by-update_where package_key (λ p. str_eq p.id id && g p) f same id ps
    ∙ rw h (rw named (rw (str_eq_refl id)))

pub others_updated :
    (id i : String) (g : Package → Bool) (f : Package → Package) (ps : List Package)
    → ((p : Package) → (f p).id ≡ p.id)
    → str_eq id i ≡ false
    → find_by package_key i ps
      ≡ find_by package_key i (update_where package_key (λ p. str_eq p.id id && g p) f ps)
others_updated id i g f ps same h = sym (
    find_by-update_where package_key (λ p. str_eq p.id id && g p) f same i ps
    ∙ (elim (Option-cases (find_by package_key i ps)) [
      | inl e ↦ rw e
      | inr (p, e) ↦ rw e (rw (find_by-key package_key i ps p e) (rw (str_eq_sym id i h)))
    ]))

kept_publications :
    (id i : String) (ps : List Publication)
    → str_eq id i ≡ false
    → publications_of i ps ≡ publications_of i (keep (λ p. not (str_eq p.mediapackage_id id)) ps)
kept_publications id i [] h = refl
kept_publications id i (p ∷ ps) h = elim (Bool-cases (str_eq p.mediapackage_id id)) [
  | inl e ↦ rw e (rw ((eq_iff p.mediapackage_id id).0 e) (rw h (kept_publications id i ps h)))
  | inr e ↦ rw e (rw (kept_publications id i ps h))
]

tombstoned :
    (now : ℕ) (id : String) (mp : Package) (db : Db)
    → IsCurrent db
    → find_package id db ≡ some mp
    → is_some mp.deleted_at ≡ false
    → CurrentExcept id mp.series_id (
        drop_archive id (record db {
          packages = update_where package_key (is_live_id id) (mark_deleted now) db.packages;
        }))
unfolding drop_archive
tombstoned now id mp db c f live =
    written-CurrentExcept db
      (update_where package_key (is_live_id id) (mark_deleted now) db.packages) db.metadata
      (keep (λ p. not (str_eq p.mediapackage_id id)) db.publications)
      (keep (λ e. not (str_eq e.mediapackage_id id)) db.elements)
      (keep (λ t. not (holds_tag (of_package id db.elements) t)) db.element_tags)
      (keep (λ s. not (str_eq s.mediapackage_id id)) db.snapshots) id mp.series_id c
      (λ i h. (
        others_updated id i (λ p. not (is_some p.deleted_at)) (mark_deleted now) db.packages
            (λ p. refl) h,
        refl,
        kept_publications id i db.publications h,
      ))
      (own_series id mp db c f)

-- Deleting an event leaves the projection current.
pub tombstone_event-IsCurrent :
    (now : ℕ) (id : String) (db : Db)
    → IsKeyed db
    → IsCurrent db
    → IsCurrent (tombstone_event now id db).1
unfolding tombstone_event
tombstone_event-IsCurrent now id db keys c = elim (Bool-cases (any (is_live_id id) db.packages)) [
  | inr gone ↦ rw gone c
  | inl there ↦ rw there (
      let (mp, f, l) = found_of_any package_key (is_live_id id) db.packages keys.packages there in
      let named : mp.id ≡ id = (eq_iff mp.id id).0 (ground arith) in
      let live : is_some mp.deleted_at ≡ false = ground arith in
      let found : find_package id db ≡ some mp =
        ap (λ (i : String). find_by package_key i db.packages) (sym named) ∙ f in
      let (after, e, d) =
        project_event-IsCurrent id (mark_deleted now mp) _
          (unfold drop_archive in
            (found_updated id (λ p. not (is_some p.deleted_at)) (mark_deleted now) mp db.packages
                (λ p. refl) found
              ∙ rw live))
          (tombstoned now id mp db c found live) in
      rw e d)
]

pub missing_updated :
    (id : String) (q : Package → Bool) (f : Package → Package) (ps : List Package)
    → ((p : Package) → (f p).id ≡ p.id)
    → find_by package_key id ps ≡ none
    → find_by package_key id (update_where package_key q f ps) ≡ none
missing_updated id q f ps same h =
    find_by-update_where package_key q f same id ps ∙ ap (updated package_key q f) h
