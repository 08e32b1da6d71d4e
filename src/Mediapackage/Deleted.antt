-- ===== src/Mediapackage/Deleted.antt =====
-- What `TombstoneEvent` of internal/mediapackage/write.go leaves of an event.
use gophercast.Prelude.{String, ◌≡◌, false, none, str_eq, any}
use gophercast.Search.Rows.{Publication, Element, Snapshot, Db}
use gophercast.Search.Project.{find_event}
use gophercast.Mediapackage.Write.{of_package, holds_tag}

-- Nothing of the archive belongs to the event, and no tag to one of the elements that it had.
pub record IsRetracted (id : String) (before after : Db) : Type 0 where
  pub no_publication :
      any (λ (p : Publication). str_eq p.mediapackage_id id) after.publications ≡ false
  pub no_element : any (λ (e : Element). str_eq e.mediapackage_id id) after.elements ≡ false
  pub no_tag : any (holds_tag (of_package id before.elements)) after.element_tags ≡ false
  pub no_snapshot : any (λ (s : Snapshot). str_eq s.mediapackage_id id) after.snapshots ≡ false
  pub no_row : find_event id after ≡ none
