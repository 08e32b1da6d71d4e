-- ===== src/Search/Query.antt =====
-- internal/search/query.go.
mod Clauses
unfoldable pub use Clauses.*
use gophercast.Prelude.{
  ℕ, String, Bool, true, false, not, ◌&&◌, ◌||◌, Option, none, some, List, [], ◌∷◌, ◌++◌, map, ok,
  err, Result, str_eq, if◌then◌else◌, ◌==◌, leb, any, all, keep, length,
}
use gophercast.Text.{Codes, codes, eq_codes, is_nil, is_space, trim_space, cut, cut_prefix}
use gophercast.Acl.Policy.{EntryRow}
use gophercast.Search.Rows.{EventRow, SeriesRow, Db}
use gophercast.Search.Project.{coalesce, distinct, holds, is_text}
use gophercast.Serve.Authz.{Principal, is_admin}

-- A column of `order by`, with its direction; a title by its collation.
pub record SortKey : Type 0 where
  pub field : String
  pub desc : Bool

pub data Column : Type 0 where
  title_icu title_c start_date_column created_column : Column

pub record OrderKey : Type 0 where
  pub column : Column
  pub desc : Bool

unfoldable pub sort_column : Bool → String → Option Column
sort_column engage field =
    if str_eq field "title"
    then some (if engage then title_c else title_icu)
    else if str_eq field "start_date" || str_eq field "date"
    then some start_date_column
    else if str_eq field "created"
    then some created_column
    else none

abbrev pub with_key :
    SortKey → Option Column → Result QueryError (List OrderKey) → Result QueryError (List OrderKey)
with_key k none rest = err (unsortable k.field)
with_key k (some c) (err e) = err e
with_key k (some c) (ok keys) = ok (record { column = c; desc = k.desc } ∷ keys)

unfoldable pub sort_keys : Bool → List SortKey → Result QueryError (List OrderKey)
unfolding sort_column
sort_keys engage [] = ok []
sort_keys engage (k ∷ ks) = with_key k (sort_column engage k.field) (sort_keys engage ks)

-- `order by start_date desc, mediapackage_id`, or the keys and the id. Without keys: the default.
abbrev pub default_order : List OrderKey → List OrderKey
default_order [] = record { column = start_date_column; desc = true } ∷ []
default_order ks = ks

pub record Query : Type 0 where
  pub surface : Surface
  pub filters : List (String × String)
  pub text : String
  pub sort : List SortKey
  pub limit : ℕ
  pub offset : ℕ
  pub by_id : String

pub record Item : Type 0 where
  pub id : String
  pub title : String

pub record Page : Type 0 where
  pub items : List Item
  pub total : ℕ

-- What Postgres and Go's `time` do: full text, similarity, `ilike`, the parse of an instant and the
-- sorting of rows, which ends with the id.
pub record Postgres : Type 0 where
  pub matches : Codes → List String → Bool
  pub similar : Codes → String → Bool
  pub ilike : String → String → Bool
  pub parse_time : Codes → Option ℕ
  pub order_events : List OrderKey → List EventRow → List EventRow
  pub order_series : Column → List SeriesRow → List SeriesRow

-- `strings.Fields`
abbrev pub add_code : ℕ → List Codes → List Codes
add_code c [] = (c ∷ []) ∷ []
add_code c (w ∷ ws) = (c ∷ w) ∷ ws

-- The words, and whether the text starts inside the first of them.
unfoldable pub fields_in : Codes → Bool × List Codes
fields_in [] = (false, [])
fields_in (c ∷ s) =
    let (inside, ws) = fields_in s in
    if is_space c
    then (false, ws)
    else if inside
    then (true, add_code c ws)
    else (true, (c ∷ []) ∷ ws)

unfoldable pub fields : Codes → List Codes
unfolding fields_in
fields s = (fields_in s).1

-- `'` is doubled and `\` dropped.
unfoldable pub quote_term : Codes → Codes
quote_term [] = []
quote_term (c ∷ s) =
    if c == b'\''
    then b'\'' ∷ b'\'' ∷ quote_term s
    else if c == b'\\'
    then quote_term s
    else c ∷ quote_term s

-- The terms joined by ` & `, with a prefix match on the last.
unfoldable pub tsquery : List Codes → Codes
unfolding quote_term
tsquery [] = []
tsquery (t ∷ []) = b'\'' ∷ (quote_term t ++ codes "':*")
tsquery (t ∷ u ∷ ts) = b'\'' ∷ (quote_term t ++ (codes "' & " ++ tsquery (u ∷ ts)))

abbrev pub bind_query {ℓ κ} :
    {A : Type ℓ} {B : Type κ}
    → Result QueryError A
    → (A → Result QueryError B)
    → Result QueryError B
bind_query (ok a) f = f a
bind_query (err e) f = err e

infixl 5 ◌>>=◌
abbrev pub ◌>>=◌ {ℓ κ} :
    {A : Type ℓ} {B : Type κ}
    → Result QueryError A
    → (A → Result QueryError B)
    → Result QueryError B
m >>= f = bind_query m f

abbrev pub between : Option ℕ → ℕ → ℕ → Bool
between none a b = false
between (some t) a b = leb a t && leb t b

unfoldable pub drop_items {ℓ} : {A : Type ℓ} → ℕ → List A → List A
drop_items ℕ.zero xs = xs
drop_items (ℕ.suc n) [] = []
drop_items (ℕ.suc n) (x ∷ xs) = drop_items n xs

unfoldable pub take_items {ℓ} : {A : Type ℓ} → ℕ → List A → List A
take_items ℕ.zero xs = []
take_items (ℕ.suc n) [] = []
take_items (ℕ.suc n) (x ∷ xs) = x ∷ take_items n xs

unfoldable pub limit_or : ℕ → ℕ → ℕ
limit_or default limit = if leb limit 0 then default else limit

abbrev pub event_item : EventRow → Item
event_item e = record { id = e.mediapackage_id; title = coalesce e.title "" }

abbrev pub series_item : SeriesRow → Item
series_item s = record { id = s.series_id; title = coalesce s.title "" }

module _ (pg : Postgres) where
  abbrev pub time_range : Option ℕ → Option ℕ → Result QueryError (EventRow → Bool)
  time_range (some a) (some b) = ok (λ e. between e.start_date a b)
  time_range _ _ = err bad_start_date

  abbrev pub start_date_clause : Option (Codes × Codes) → Result QueryError (EventRow → Bool)
  start_date_clause none = err bad_start_date
  start_date_clause (some (from, to)) = time_range (pg.parse_time from) (pg.parse_time to)

  unfoldable pub filter_clause : String → String → Result QueryError (EventRow → Bool)
  filter_clause name val =
      if str_eq name "series"
      then ok (λ e. is_text val e.series_id)
      else if str_eq name "status"
      then ok (λ e. is_text val e.status)
      else if str_eq name "location"
      then ok (λ e. is_text val e.location)
      else if str_eq name "language"
      then ok (λ e. is_text val e.language)
      else if str_eq name "presentersBibliographic" || str_eq name "presenters"
      then ok (λ e. holds val e.presenters)
      else if str_eq name "startDate"
      then start_date_clause (cut b'/' (codes val))
      else err (unknown_filter name)

  unfoldable pub filter_clauses : List (String × String) → Result QueryError (EventRow → Bool)
  unfolding filter_clause
  filter_clauses [] = ok (λ e. true)
  filter_clauses ((name, val) ∷ rest) = do
    clause ← filter_clause name val
    clauses ← filter_clauses rest
    ok (λ e. clause e && clauses e)

  -- The text predicate, by what the query matches in the whole table.
  unfoldable pub fulltext_clause : List (List String) → String → List String → String → Bool
  unfolding fields tsquery
  fulltext_clause table text fts title =
      let terms = fields (trim_space (codes text)) in
      if is_nil (trim_space (codes text))
      then true
      else if any (pg.matches (tsquery terms)) table
      then pg.matches (tsquery terms) fts
      else all (λ t. pg.similar t title) terms

  abbrev pub event_text : Db → String → EventRow → Bool
  event_text db text e =
      fulltext_clause (map (λ (r : EventRow). r.fts) db.events) text e.fts (coalesce e.title "")

  abbrev pub series_text : Db → String → SeriesRow → Bool
  series_text db text s =
      fulltext_clause (map (λ (r : SeriesRow). r.fts) db.series_rows) text s.fts
        (coalesce s.title "")

  abbrev pub by_id_clause : String → EventRow → Bool
  by_id_clause id e = str_eq id "" || str_eq e.mediapackage_id id

  -- The whole condition, joined by `and`.
  unfoldable pub event_condition : Db → Principal → Query → Result QueryError (EventRow → Bool)
  unfolding event_visibility filter_clauses fulltext_clause
  event_condition db p q = do
    visible ← event_visibility db p q.surface
    filtered ← filter_clauses q.filters
    ok (λ e.
        visible e
        && ((not (is_engage_episode q.surface) || e.published)
            && (by_id_clause q.by_id e && (filtered e && event_text db q.text e))))

  abbrev pub page_of {ℓ} : {A : Type ℓ} → (A → Item) → ℕ → ℕ → List A → List A → Page
  page_of item limit offset found ordered = record {
    items = map item (take_items limit (drop_items offset ordered));
    total = length found;
  }

  unfoldable pub events : Db → Principal → Query → Result QueryError Page
  unfolding event_condition sort_keys limit_or
  events db p q = do
    cond ← event_condition db p q
    keys ← sort_keys (is_engage_episode q.surface) q.sort
    let found = keep cond db.events
    ok (
        page_of event_item (limit_or 100 q.limit) q.offset found
          (pg.order_events (default_order keys) found))

  unfoldable pub series_condition : Db → Principal → Query → Result QueryError (SeriesRow → Bool)
  unfolding series_visibility fulltext_clause
  series_condition db p q = do
    visible ← series_visibility db p q.surface
    ok (λ s.
        visible s
        && ((not (is_engage_series q.surface) || s.has_published) && series_text db q.text s))

  unfoldable pub series : Db → Principal → Query → Result QueryError Page
  unfolding series_condition limit_or
  series db p q = do
    cond ← series_condition db p q
    let found = keep cond db.series_rows
    let column = if is_engage_series q.surface then title_c else title_icu
    ok (page_of series_item (limit_or 100 q.limit) q.offset found (pg.order_series column found))

  -- `title ilike '%' || $1 || '%'`: a title that is null matches nothing.
  abbrev pub title_matches : String → Option String → Bool
  title_matches text none = false
  title_matches text (some title) = pg.ilike text title

  unfoldable pub substring_condition : Db → Principal → String → SeriesRow → Bool
  unfolding split_roles prune
  substring_condition db p text s =
      s.has_published
      && (title_matches text s.title
          && (is_admin p || overlap s.pub_read (prune db.acl.entries (split_roles p.roles).plain)))

  unfoldable pub series_substring : Db → Principal → String → ℕ → ℕ → Page
  unfolding substring_condition limit_or
  series_substring db p text limit offset =
      let found = keep (substring_condition db p text) db.series_rows in
      page_of series_item (limit_or 20 limit) offset found (pg.order_series title_c found)
