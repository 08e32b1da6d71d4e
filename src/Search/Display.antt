-- ===== src/Search/Display.antt =====
-- The readers of internal/search/display.go and `FilterOptions` of query.go.
use gophercast.Prelude.{
  ℕ, String, Bool, Option, none, some, List, [], ◌∷◌, map, ok, err, Result, keep,
}
use gophercast.Search.Rows.{EventRow, SeriesRow, Db}
use gophercast.Search.Project.{Error, no_rows, coalesce, distinct, holds, find_row}

pub record EventDisplay : Type 0 where
  pub id : String
  pub title : String
  pub series_id : String
  pub series_title : String
  pub status : String
  pub presenters : List String
  pub contributors : List String
  pub location : String
  pub language : String
  pub description : String
  pub subjects : List String
  pub license : String
  pub start_date : Option ℕ
  pub created : Option ℕ
  pub duration_ms : Option ℕ
  pub published : Bool

abbrev pub or_empty : Option String → String
or_empty s = coalesce s ""

unfoldable pub event_display : EventRow → EventDisplay
event_display e = record {
  id = e.mediapackage_id;
  title = or_empty e.title;
  series_id = or_empty e.series_id;
  series_title = or_empty e.series_title;
  status = or_empty e.status;
  presenters = e.presenters;
  contributors = e.contributors;
  location = or_empty e.location;
  language = or_empty e.language;
  description = or_empty e.description;
  subjects = e.subjects;
  license = or_empty e.license;
  start_date = e.start_date;
  created = e.created;
  duration_ms = e.duration_ms;
  published = e.published;
}

-- The Go map by id, as the list of its values.
unfoldable pub events_display : List String → Db → List EventDisplay
unfolding event_display
events_display ids db = map event_display (keep (λ e. holds e.mediapackage_id ids) db.events)

abbrev pub one_display : List EventDisplay → Result Error EventDisplay
one_display [] = err no_rows
one_display (e ∷ es) = ok e

unfoldable pub event_display_by_id : String → Db → Result Error EventDisplay
unfolding events_display
event_display_by_id id db = one_display (events_display (id ∷ []) db)

pub record SeriesDisplay : Type 0 where
  pub id : String
  pub title : String
  pub contributors : List String
  pub organizers : List String
  pub language : String
  pub description : String
  pub subjects : List String
  pub created : Option ℕ

unfoldable pub series_display : SeriesRow → SeriesDisplay
series_display s = record {
  id = s.series_id;
  title = or_empty s.title;
  contributors = s.contributors;
  organizers = s.organizers;
  language = or_empty s.language;
  description = or_empty s.description;
  subjects = s.subjects;
  created = s.created;
}

abbrev pub shown : Option SeriesRow → Result Error SeriesDisplay
shown none = err no_rows
shown (some s) = ok (series_display s)

unfoldable pub series_display_by_id : String → Db → Result Error SeriesDisplay
unfolding series_display
series_display_by_id id db = shown (find_row id db)

-- The values of a filter: its options with their labels, or a period.
pub data FilterValue : Type 0 where
  options : List (String × String) → FilterValue
  period : FilterValue

abbrev pub present : List (Option String) → List String
present [] = []
present (none ∷ vs) = present vs
present (some v ∷ vs) = v ∷ present vs

abbrev pub to_options : List String → List (String × String)
to_options vals = map (λ v. (v, v)) vals

-- `select distinct col … where col is not null`
unfoldable pub distinct_column : (EventRow → Option String) → Db → List String
unfolding distinct
distinct_column col db = distinct (present (map col db.events))

unfoldable pub filter_options : Db → List (String × FilterValue)
unfolding distinct_column
filter_options db =
    ("agent", options [])
    ∷ ("comments", options (to_options ("NONE" ∷ "OPEN" ∷ "RESOLVED" ∷ [])))
    ∷ ("isPublished", options (("true", "YES") ∷ ("false", "NO") ∷ []))
    ∷ ("language", options (to_options (distinct_column (λ e. e.language) db)))
    ∷ ("location", options (to_options (distinct_column (λ e. e.location) db)))
    ∷ ("needsCutting", options (("true", "YES") ∷ ("false", "NO") ∷ []))
    ∷ ("readAccess", options [])
    ∷ ("series", options (map (λ (s : SeriesRow). (s.series_id, or_empty s.title)) db.series_rows))
    ∷ ("startDate", period)
    ∷ ("status", options (to_options (distinct_column (λ e. e.status) db)))
    ∷ ("writeAccess", options [])
    ∷ []
