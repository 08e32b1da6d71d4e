-- ===== src/Search/Rows.antt =====
-- The tables that the projection is derived from and the projection's own: internal/mediapackage/
-- schema.sql and internal/search/schema.sql. Texts that may be null are options, instants numbers.
use gophercast.Prelude.{ℕ, String, Bool, Option, List}
use gophercast.Acl.Policy as Policy

pub record Package : Type 0 where
  pub id : String
  pub title : Option String
  pub start_time : Option ℕ
  pub duration_ms : Option ℕ
  pub series_id : Option String
  pub deleted_at : Option ℕ

pub record MetadataRow : Type 0 where
  pub mediapackage_id : String
  pub creators : List String
  pub contributors : List String
  pub language : Option String
  pub description : Option String
  pub subjects : List String
  pub location : Option String
  pub license : Option String
  pub created : Option ℕ
  pub status : Option String

pub record Series : Type 0 where
  pub id : String
  pub title : Option String
  pub contributors : List String
  pub organizers : List String
  pub language : Option String
  pub description : Option String
  pub subjects : List String
  pub created : Option ℕ
  pub deleted_at : Option ℕ

pub record Publication : Type 0 where
  pub id : String
  pub mediapackage_id : String
  pub channel : String
  pub acl_read : List String
  pub acl_state : Policy.State

pub record Element : Type 0 where
  pub id : String
  pub mediapackage_id : String
  pub kind : String
  pub flavor : String
  pub mimetype : Option String
  pub sha256 : String
  pub size_bytes : ℕ
  pub source_url : Option String

pub record Snapshot : Type 0 where
  pub mediapackage_id : String
  pub version : ℕ
  pub manifest_sha256 : String

-- `search_event`. `fts` holds the parts of the text that `to_tsvector` indexes.
pub record EventRow : Type 0 where
  pub mediapackage_id : String
  pub title : Option String
  pub series_id : Option String
  pub series_title : Option String
  pub status : Option String
  pub presenters : List String
  pub contributors : List String
  pub location : Option String
  pub language : Option String
  pub description : Option String
  pub subjects : List String
  pub license : Option String
  pub start_date : Option ℕ
  pub created : Option ℕ
  pub duration_ms : Option ℕ
  pub acl_state : Policy.State
  pub acl_read : List String
  pub acl_write : List String
  pub published : Bool
  pub pub_read : List String
  pub fts : List String

-- `search_series`
pub record SeriesRow : Type 0 where
  pub series_id : String
  pub title : Option String
  pub contributors : List String
  pub organizers : List String
  pub language : Option String
  pub description : Option String
  pub subjects : List String
  pub created : Option ℕ
  pub acl_state : Policy.State
  pub acl_read : List String
  pub acl_write : List String
  pub pub_read : List String
  pub has_published : Bool
  pub fts : List String

pub record Db : Type 0 where
  pub packages : List Package
  pub metadata : List MetadataRow
  pub series : List Series
  pub acl : Policy.Tables
  pub publications : List Publication
  pub elements : List Element
  pub element_tags : List (String × String)
  pub snapshots : List Snapshot
  pub events : List EventRow
  pub series_rows : List SeriesRow

abbrev pub package_key : Package → String
package_key p = p.id

abbrev pub metadata_key : MetadataRow → String
metadata_key m = m.mediapackage_id

abbrev pub series_key : Series → String
series_key s = s.id

abbrev pub event_key : EventRow → String
event_key e = e.mediapackage_id

abbrev pub row_key : SeriesRow → String
row_key r = r.series_id
