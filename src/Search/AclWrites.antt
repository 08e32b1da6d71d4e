-- ===== src/Search/AclWrites.antt =====
-- `SetACL` and `SetSeriesACL` of internal/search/project.go keep the projection current.
use gophercast.Prelude.{
  String, ◌≡◌, refl, sym, ◌∙◌, Bool, true, false, Option, none, some, List, [], ◌∷◌, Result, ok,
  err, arith, str_eq, str_eq_sym, eq_iff, if◌then◌else◌, any, keep,
}
use gophercast.Prelude.Derived.{passes, is_in, is_in-keep}
use gophercast.Acl.Policy as Policy
use gophercast.Acl.Policy.{Scope, event, series, Entry, in_scope, policy_of, set_tx}
use gophercast.Acl.Apart.{set_tx-other}
use gophercast.Search.Rows.{Package, Series, Db, package_key}
use gophercast.Search.Project.{
  Error, find_package, event_row, series_row, is_live_member, live_members, project_event,
  project_package, project_series, begin_func, acl_result, set_acl_tx, ◌>>=◌, project_scope,
  set_acl_body, set_acl, set_events_acl, set_series_acl_body, set_series_acl,
}
use gophercast.Search.Current.{
  expected_event, expected_series, IsCurrent, CurrentExcept, expected_event-cong,
  expected_series-cong, current-series, unpublished_in, project_event-IsCurrent,
}
use gophercast.Search.Members.{IsKeyed, CurrentOutside, current-member, project_series-IsCurrent}

-- The policies that two databases share.
abbrev pub SamePolicy : Scope → String → Policy.Tables → Policy.Tables → Type 0
SamePolicy scope id t u =
    (any (policy_of scope id) t.policies ≡ any (policy_of scope id) u.policies)
    × (keep (in_scope scope id) t.entries ≡ keep (in_scope scope id) u.entries)

module _ (db : Db) (t : Policy.Tables) where
  event_row-acl :
      (mp : Package)
      → SamePolicy event mp.id db.acl t
      → event_row db mp ≡ event_row (record db { acl = t }) mp
  event_row-acl mp (p, e) = rw p (rw e)

  series_row-acl :
      (s : Series)
      → SamePolicy series s.id db.acl t
      → series_row db s ≡ series_row (record db { acl = t }) s
  series_row-acl s (p, e) = rw p (rw e)

  expected_event-acl :
      (i : String)
      → SamePolicy event i db.acl t
      → expected_event i db ≡ expected_event i (record db { acl = t })
  expected_event-acl i same =
      expected_event-cong i db (record db { acl = t }) refl (λ mp n. event_row-acl mp (rw n same))

  expected_series-acl :
      (j : String)
      → SamePolicy series j db.acl t
      → expected_series j db ≡ expected_series j (record db { acl = t })
  expected_series-acl j same =
      expected_series-cong j db (record db { acl = t }) refl (λ s n. series_row-acl s (rw n same))

  -- A change of one event's policy concerns its row only.
  pub event-CurrentExcept :
      (id : String) (mp : Package)
      → IsCurrent db
      → find_package id db ≡ some mp
      → ((i : String) → str_eq id i ≡ false → SamePolicy event i db.acl t)
      → ((j : String) → SamePolicy series j db.acl t)
      → CurrentExcept id mp.series_id (record db { acl = t })
  event-CurrentExcept id mp c f events serieses = record {
    events_others = λ i h. c.events_current i ∙ expected_event-acl i (events i h);
    mine = λ r j g h. unpublished_in j mp.series_id r h (current-series id mp r db c f g);
    others_current = λ j h. c.series_current j ∙ expected_series-acl j (serieses j);
    events_keyed = c.events_keyed;
  }

  -- A change of a series' policy and its members' concerns their rows only.
  pub series-CurrentOutside :
      (s : String)
      → IsCurrent db
      → ((i : String)
          → passes (is_live_member s) (find_package i db) ≡ false
          → SamePolicy event i db.acl t)
      → ((j : String) → str_eq s j ≡ false → SamePolicy series j db.acl t)
      → CurrentOutside s (record db { acl = t })
  series-CurrentOutside s c events serieses = record {
    events_others = λ i h. c.events_current i ∙ expected_event-acl i (events i h);
    members = λ i r m g. current-member s i r db c m g;
    others_current = λ j h. c.series_current j ∙ expected_series-acl j (serieses j h);
    events_keyed = c.events_keyed;
  }

-- `acl.SetTx` writes one policy.
abbrev WritesPolicy : Scope → String → Policy.Tables → Policy.Tables → Type 0
WritesPolicy scope id t u =
    (other : Scope) (i : String) → policy_of scope id (other, i) ≡ false → SamePolicy other i t u

set_tx-WritesPolicy :
    (scope : Scope) (id : String) (es : List Entry) (t : Policy.Tables)
    → WritesPolicy scope id t (set_tx scope id es t).1
set_tx-WritesPolicy scope id es t other i h =
    let (p, e) = set_tx-other scope other id i es t h in (sym p, sym e)

projected_event :
    (id : String) (o : Option Package) (db : Db) (t : Policy.Tables)
    → find_package id db ≡ o
    → IsCurrent db
    → WritesPolicy event id db.acl t
    → IsCurrent (begin_func (project_event id (record db { acl = t })) db).1
unfolding project_event project_package
projected_event id none db t f c w = rw f c
projected_event id (some mp) db t f c w =
    let (after, e, d) =
      project_event-IsCurrent id mp (record db { acl = t }) f
        (event-CurrentExcept db t id mp c f (λ i h. w event i (str_eq_sym id i h))
          (λ j. w series j refl)) in
    rw e d

policy_written :
    (scope : Scope) (id : String) (r : Result Policy.Error (Unit {0})) (t : Policy.Tables) (db : Db)
    → IsKeyed db
    → IsCurrent db
    → WritesPolicy scope id db.acl t
    → IsCurrent (begin_func (acl_result (r, t) db >>= project_scope scope id) db).1
policy_written scope id (err e) t db keys c w = c
policy_written event id (ok done) t db keys c w =
    projected_event id (find_package id db) db t refl c w
policy_written series id (ok done) t db keys c w =
    project_series-IsCurrent id (record db { acl = t })
      (record { packages = keys.packages; series = keys.series })
      (series-CurrentOutside db t id c (λ i h. w event i refl)
        (λ j h. w series j (str_eq_sym id j h)))

-- The one write of a policy leaves the projection current, whether it succeeds or fails.
pub set_acl-IsCurrent :
    (scope : Scope) (id : String) (entries : List Entry) (db : Db)
    → IsKeyed db
    → IsCurrent db
    → IsCurrent (set_acl scope id entries db).1
unfolding set_acl set_acl_body set_acl_tx
set_acl-IsCurrent scope id entries db keys c =
    let (r, t) = set_tx scope id entries db.acl in
    policy_written scope id r t db keys c (set_tx-WritesPolicy scope id entries db.acl)

-- What the loop over the member events may have done to the database.
abbrev OnlyPolicies : List String → Db → Result Error Db → Type 0
OnlyPolicies ids db (err e) = Unit {0}
OnlyPolicies ids db (ok after) =
    (t : Policy.Tables) × (after ≡ record db { acl = t })
    × ((i : String) → is_in i ids ≡ false → SamePolicy event i db.acl t)
    × ((j : String) → SamePolicy series j db.acl t)

SamePolicy-trans :
    (scope : Scope) (i : String) (t u v : Policy.Tables)
    → SamePolicy scope i t u
    → SamePolicy scope i u v
    → SamePolicy scope i t v
SamePolicy-trans scope i t u v (p, e) (q, f) = (p ∙ q, e ∙ f)

OnlyPolicies-next :
    (id : String) (ids : List String) (db : Db) (t : Policy.Tables) (r : Result Error Db)
    → WritesPolicy event id db.acl t
    → OnlyPolicies ids (record db { acl = t }) r
    → OnlyPolicies (id ∷ ids) db r
OnlyPolicies-next id ids db t (err e) w o = tt
OnlyPolicies-next id ids db t (ok after) w (u, e, events, serieses) = (
  u,
  e,
  λ i h.
      SamePolicy-trans event i db.acl t u (w event i (ground (arith, eq_iff i id, eq_iff id i)))
        (events i (ground arith)),
  λ j. SamePolicy-trans series j db.acl t u (w series j refl) (serieses j),
)

member_written :
    (id : String) (ids : List String) (entries : List Entry) (r : Result Policy.Error (Unit {0}))
    (t : Policy.Tables) (db : Db)
    → ((db' : Db) → OnlyPolicies ids db' (set_events_acl ids entries db'))
    → WritesPolicy event id db.acl t
    → OnlyPolicies (id ∷ ids) db (acl_result (r, t) db >>= set_events_acl ids entries)
member_written id ids entries (err e) t db rest w = tt
member_written id ids entries (ok done) t db rest w =
    OnlyPolicies-next id ids db t (set_events_acl ids entries (record db { acl = t })) w
      (rest (record db { acl = t }))

set_events_acl-OnlyPolicies :
    (ids : List String) (entries : List Entry) (db : Db)
    → OnlyPolicies ids db (set_events_acl ids entries db)
unfolding set_events_acl set_acl_tx
set_events_acl-OnlyPolicies [] entries db = (db.acl, refl, λ i h. (refl, refl), λ j. (refl, refl))
set_events_acl-OnlyPolicies (id ∷ ids) entries db =
    let (r, t) = set_tx event id entries db.acl in
    member_written id ids entries r t db (set_events_acl-OnlyPolicies ids entries)
      (set_tx-WritesPolicy event id entries db.acl)

overridden :
    (id : String) (t : Policy.Tables) (r : Result Error Db) (db : Db)
    → IsKeyed db
    → IsCurrent db
    → WritesPolicy series id db.acl t
    → OnlyPolicies (live_members id db) (record db { acl = t }) r
    → IsCurrent (begin_func (r >>= λ after. ok (project_series id after)) db).1
unfolding live_members
overridden id t (err e) db keys c w o = c
overridden id t (ok after) db keys c w (u, e, events, serieses) = rw e (
    project_series-IsCurrent id (record db { acl = u })
      (record { packages = keys.packages; series = keys.series })
      (series-CurrentOutside db u id c
        (λ i h.
          SamePolicy-trans event i db.acl t u (w event i refl)
            (events i (is_in-keep package_key (is_live_member id) i db.packages keys.packages ∙ h)))
        (λ j h.
          SamePolicy-trans series j db.acl t u (w series j (str_eq_sym id j h)) (serieses j))))

series_policy_written :
    (id : String) (override : Bool) (entries : List Entry) (r : Result Policy.Error (Unit {0}))
    (t : Policy.Tables) (db : Db)
    → IsKeyed db
    → IsCurrent db
    → WritesPolicy series id db.acl t
    → IsCurrent
        (begin_func
          (acl_result (r, t) db >>= λ written.
            ((if override
                then set_events_acl (live_members id written) entries written
                else ok written)
              >>= λ after. ok (project_series id after)))
          db).1
unfolding live_members
series_policy_written id override entries (err e) t db keys c w = c
series_policy_written id true entries (ok done) t db keys c w =
    overridden id t (set_events_acl (live_members id db) entries (record db { acl = t })) db keys c
      w (set_events_acl-OnlyPolicies (live_members id db) entries (record db { acl = t }))
series_policy_written id false entries (ok done) t db keys c w =
    overridden id t (ok (record db { acl = t })) db keys c w
      (t, refl, λ i h. (refl, refl), λ j. (refl, refl))

-- The write of a series' policy, on its members or not, leaves the projection current.
pub set_series_acl-IsCurrent :
    (id : String) (entries : List Entry) (override : Bool) (db : Db)
    → IsKeyed db
    → IsCurrent db
    → IsCurrent (set_series_acl id entries override db).1
unfolding set_series_acl set_series_acl_body set_acl_tx
set_series_acl-IsCurrent id entries override db keys c =
    let (r, t) = set_tx series id entries db.acl in
    series_policy_written id override entries r t db keys c
      (set_tx-WritesPolicy series id entries db.acl)
