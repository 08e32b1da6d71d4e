-- ===== src/Search/Query/Clauses.antt =====
-- internal/search/query.go: the roles of a principal and the clauses of what it may see.
use gophercast.Prelude.{
  String, Bool, true, false, not, ◌&&◌, ◌||◌, Option, none, some, List, [], ◌∷◌, map, ok, err,
  Result, if◌then◌else◌, ◌==◌, any, keep,
}
use gophercast.Text.{Codes, codes, eq_codes, is_nil, cut_prefix}
use gophercast.Acl.Policy.{EntryRow}
use gophercast.Search.Rows.{EventRow, SeriesRow, Db}
use gophercast.Search.Project.{distinct, holds}
use gophercast.Serve.Authz.{Principal, is_admin}

pub data Surface : Type 0 where
  admin_events api_events admin_series api_series engage_episode engage_series : Surface

-- `strings.HasSuffix`, and what stands before the suffix.
unfoldable pub cut_suffix : Codes → Codes → Option Codes
cut_suffix suffix [] = if is_nil suffix then some [] else none
cut_suffix suffix (c ∷ s) =
    let rest = cut_suffix suffix s in
    if eq_codes suffix (c ∷ s)
    then some []
    else (elim rest [ none ↦ none | some before ↦ some (c ∷ before) ])

-- `.+`: at least one character, and no line feed.
abbrev pub is_dots : Codes → Bool
is_dots s = not (is_nil s) && not (any (λ c. c == 10) s)

abbrev pub dots : Option Codes → Option Codes
dots none = none
dots (some s) = if is_dots s then some s else none

abbrev pub after_prefix : Option Codes → Codes → Option Codes
after_prefix none suffix = none
after_prefix (some s) suffix = dots (cut_suffix suffix s)

-- `^ROLE_EPISODE_(.+)_(READ|WRITE)$`, for one of the two.
unfoldable pub episode_grant : String → String → Option Codes
unfolding cut_suffix
episode_grant suffix role =
    after_prefix (cut_prefix (codes "ROLE_EPISODE_") (codes role)) (codes suffix)

pub record Roles : Type 0 where
  pub plain : List String
  pub episode_read : List Codes
  pub episode_write : List Codes

abbrev pub place : String → Option Codes → Option Codes → Roles → Roles
place r (some id) w rest = record rest { episode_read = id ∷ rest.episode_read }
place r none (some id) rest = record rest { episode_write = id ∷ rest.episode_write }
place r none none rest = record rest { plain = r ∷ rest.plain }

unfoldable pub split_roles : List String → Roles
unfolding episode_grant
split_roles [] = record { plain = []; episode_read = []; episode_write = [] }
split_roles (r ∷ rs) = place r (episode_grant "_READ" r) (episode_grant "_WRITE" r) (split_roles rs)

-- `select distinct role from acl_entry where role = any($1)`
unfoldable pub prune : List EntryRow → List String → List String
unfolding distinct
prune entries [] = []
prune entries (r ∷ rs) =
    distinct (map (λ e. e.entry.role) (keep (λ e. holds e.entry.role (r ∷ rs)) entries))

-- `a && b`, on arrays.
abbrev pub overlap : List String → List String → Bool
overlap a b = any (λ r. holds r b) a

abbrev pub granted : String → List Codes → Bool
granted id ids = any (eq_codes (codes id)) ids

pub data QueryError : Type 0 where
  not_an_event_surface not_a_series_surface bad_start_date : QueryError
  unknown_filter unsortable : String → QueryError

-- The visibility clauses of a principal that is no administrator.
unfoldable pub event_clause : Surface → List String → Roles → Result QueryError (EventRow → Bool)
event_clause admin_events pruned r = ok (λ e.
    (overlap e.acl_read pruned || granted e.mediapackage_id r.episode_read)
    && (overlap e.acl_write pruned || granted e.mediapackage_id r.episode_write))
event_clause api_events pruned r =
    ok (λ e. overlap e.acl_read pruned || granted e.mediapackage_id r.episode_read)
event_clause engage_episode pruned r =
    ok (λ e. overlap e.pub_read pruned || granted e.mediapackage_id r.episode_read)
event_clause _ pruned r = err not_an_event_surface

unfoldable pub series_clause : Surface → List String → Result QueryError (SeriesRow → Bool)
series_clause admin_series pruned =
    ok (λ s. overlap s.acl_read pruned && overlap s.acl_write pruned)
series_clause api_series pruned = ok (λ s. overlap s.acl_read pruned)
series_clause engage_series pruned = ok (λ s. overlap s.pub_read pruned)
series_clause _ pruned = err not_a_series_surface

unfoldable pub event_visibility : Db → Principal → Surface → Result QueryError (EventRow → Bool)
unfolding split_roles prune event_clause
event_visibility db p surface =
    if is_admin p
    then ok (λ e. true)
    else (let r = split_roles p.roles in event_clause surface (prune db.acl.entries r.plain) r)

unfoldable pub series_visibility : Db → Principal → Surface → Result QueryError (SeriesRow → Bool)
unfolding split_roles prune series_clause
series_visibility db p surface =
    if is_admin p
    then ok (λ s. true)
    else series_clause surface (prune db.acl.entries (split_roles p.roles).plain)

abbrev pub is_engage_episode : Surface → Bool
is_engage_episode engage_episode = true
is_engage_episode _ = false

abbrev pub is_engage_series : Surface → Bool
is_engage_series engage_series = true
is_engage_series _ = false
