-- ===== src/Search/Agreement.antt =====
-- `Rebuild` against the projection as it is maintained: internal/search/project.go.
use gophercast.Prelude.{
  String, ◌≡◌, refl, sym, ◌∙◌, Bool, ◌&&◌, ◌||◌, Option, none, some, List, [], ◌∷◌, ◌++◌, arith,
  inl, inr, eq_iff, Bool-cases, any, keep,
}
use gophercast.Prelude.Table.{find_by, any-same}
use gophercast.Search.Rows.{Series, EventRow, SeriesRow, Db, event_key}
use gophercast.Search.Project.{
  is_some, find_series, find_event, find_row, is_published_in, series_row, series_row_of, holds,
  distinct, union_roles, is_nonempty, rebuild,
}
use gophercast.Search.Current.{live_series_row, IsCurrent}
use gophercast.Search.Members.{IsKeyed, rebuild_lem}

pub holds-distinct : (r : String) (rs : List String) → holds r (distinct rs) ≡ holds r rs
unfolding distinct
holds-distinct r [] = refl
holds-distinct r (s ∷ rs) = elim (Bool-cases (holds s (distinct rs))) [
  | inl dup ↦ rw dup (ground (arith, holds-distinct r rs, eq_iff r s))
  | inr new ↦ rw new (ground (arith, holds-distinct r rs))
]

holds-append : (r : String) (xs ys : List String) → holds r (xs ++ ys) ≡ (holds r xs || holds r ys)
holds-append r [] ys = refl
holds-append r (x ∷ xs) ys = ground (arith, holds-append r xs ys)

holds-union_roles :
    (r : String) (p : EventRow → Bool) (es : List EventRow)
    → holds r (union_roles (keep p es)) ≡ any (λ e. p e && holds r e.pub_read) es
unfolding union_roles
holds-union_roles r p [] = refl
holds-union_roles r p (e ∷ es) = elim (Bool-cases (p e)) [
  | inl h ↦ rw h (
      holds-distinct r (e.pub_read ++ union_roles (keep p es))
      ∙ holds-append r e.pub_read (union_roles (keep p es))
      ∙ rw (holds-union_roles r p es))
  | inr h ↦ rw h (holds-union_roles r p es)
]

pub is_nonempty-keep :
    (p : EventRow → Bool) (es : List EventRow) → is_nonempty (keep p es) ≡ any p es
is_nonempty-keep p [] = refl
is_nonempty-keep p (e ∷ es) = ground (arith, is_nonempty-keep p es)

-- The rows are equal but for the order in which `pub_read` lists its roles.
abbrev pub SameRow : Option SeriesRow → Option SeriesRow → Type 0
SameRow none none = Unit {0}
SameRow (some a) (some b) =
    (record a { pub_read = [] } ≡ record b { pub_read = [] })
    × ((r : String) → holds r a.pub_read ≡ holds r b.pub_read)
SameRow _ _ = ⊥

module _ (db : Db) (evs : List EventRow) (rows : List SeriesRow) where
  same-members :
      (s : Series)
      → ((q : EventRow → Bool) → any q evs ≡ any q db.events)
      → SameRow
          (some (series_row (record db { events = evs; series_rows = rows }) s))
          (some (series_row db s))
  unfolding series_row_of
  same-members s same = (
    rw (
        is_nonempty-keep (is_published_in s.id) evs
        ∙ same (is_published_in s.id)
        ∙ sym (is_nonempty-keep (is_published_in s.id) db.events)),
    λ r.
        holds-union_roles r (is_published_in s.id) evs
        ∙ same _
        ∙ sym (holds-union_roles r (is_published_in s.id) db.events),
  )

  same-series :
      (o : Option Series)
      → ((q : EventRow → Bool) → any q evs ≡ any q db.events)
      → SameRow
          (live_series_row (λ s. series_row (record db { events = evs; series_rows = rows }) s) o)
          (live_series_row (λ s. series_row db s) o)
  same-series none same = tt
  same-series (some s) same = elim (Bool-cases (is_some s.deleted_at)) [
    | inl gone ↦ rw gone tt
    | inr live ↦ rw live (same-members s same)
  ]

-- What is maintained write by write is what a rebuild derives.
pub rebuild_agrees :
    (db : Db)
    → IsKeyed db
    → IsCurrent db
    → (id : String)
    → (find_event id (rebuild db) ≡ find_event id db)
      × SameRow (find_row id (rebuild db)) (find_row id db)
rebuild_agrees db keys c id =
    let (evs, rows, e, d) = rebuild_lem db keys in
    let same = λ (i : String).
      let t : find_by event_key i evs ≡ find_event i db =
        d.events_current i ∙ sym (c.events_current i) in
      t in
    rw e (
      same id,
      rw (d.series_current id, c.series_current id)
          (same-series db evs rows (find_series id db)
            (λ q. any-same event_key q evs db.events d.events_keyed c.events_keyed same)),
    )
