-- ===== src/Serve/Listing.antt =====
-- internal/serve/serve.go: `servePublications`, over the rows of its query.
use gophercast.Prelude.{
  String, ◌≡◌, refl, ap, ◌∙◌, sym, not, List, [], ◌∷◌, ◌++◌, map, inl, inr, if◌then◌else◌, str_eq,
  keep, Bool-cases, eq_iff,
}
use mathlib.Core.List.{append_assoc, append-nil}
use gophercast.Serve.Authz.{Principal, PublicationPin, authorized}

pub record Publication : Type 0 where
  pub channel : String
  pub element_ids : List String

-- One row: the columns of publication and one element of it.
pub record ListingRow : Type 0 where
  pub channel : String
  pub acl_read : List String
  pub acl_state : String
  pub element_id : String

abbrev pub pin_of : String → ListingRow → PublicationPin
pin_of mp row = record {
  mediapackage_id = mp;
  channel = row.channel;
  acl_read = row.acl_read;
  acl_state = row.acl_state;
}

abbrev alone : ListingRow → Publication
alone row = record { channel = row.channel; element_ids = row.element_id ∷ [] }

-- The element joins the last publication, or begins another where the channel changes.
unfoldable pub add_row : List Publication → ListingRow → List Publication
add_row [] row = alone row ∷ []
add_row (b ∷ []) row =
    if str_eq b.channel row.channel
    then record b { element_ids = b.element_ids ++ row.element_id ∷ [] } ∷ []
    else b ∷ alone row ∷ []
add_row (b ∷ c ∷ bs) row = b ∷ add_row (c ∷ bs) row

unfoldable pub list_loop :
    String → Principal → List Publication → List ListingRow → List Publication
list_loop mp p pubs [] = pubs
list_loop mp p pubs (row ∷ rows) =
    let next = add_row pubs row in
    let listed = list_loop mp p next rows in
    let skipped = list_loop mp p pubs rows in
    if not (authorized (pin_of mp row ∷ []) p) then skipped else listed

unfoldable pub serve_publications : String → Principal → List ListingRow → List Publication
unfolding list_loop
serve_publications mp p rows = list_loop mp p [] rows

-- The listing, read as pairs of a channel and an element.
abbrev pub labelled : String → List String → List (String × String)
labelled channel [] = []
labelled channel (e ∷ es) = (channel, e) ∷ labelled channel es

abbrev pub entries : List Publication → List (String × String)
entries [] = []
entries (b ∷ bs) = labelled b.channel b.element_ids ++ entries bs

abbrev pub entry_of : ListingRow → String × String
entry_of row = (row.channel, row.element_id)

labelled-append :
    (c : String) (xs ys : List String) → labelled c (xs ++ ys) ≡ labelled c xs ++ labelled c ys
labelled-append c [] ys = refl
labelled-append c (x ∷ xs) ys = ap (◌∷◌ (c, x)) (labelled-append c xs ys)

entries-add_row :
    (pubs : List Publication) (row : ListingRow)
    → entries (add_row pubs row) ≡ entries pubs ++ entry_of row ∷ []
unfolding add_row
entries-add_row [] row = refl
entries-add_row (b ∷ []) row = elim (Bool-cases (str_eq b.channel row.channel)) [
  | inl same ↦
      rw (same, labelled-append b.channel b.element_ids (row.element_id ∷ []))
        (rw ((eq_iff b.channel row.channel).0 same) (
          rw (append-nil (labelled row.channel b.element_ids))
            (append-nil (labelled row.channel b.element_ids ++ entry_of row ∷ []))))
  | inr other ↦ rw (other, append-nil (labelled b.channel b.element_ids)) refl
]
entries-add_row (b ∷ c ∷ bs) row =
    ap (◌++◌ (labelled b.channel b.element_ids)) (entries-add_row (c ∷ bs) row)
    ∙ sym (append_assoc (labelled b.channel b.element_ids) (entries (c ∷ bs)) (entry_of row ∷ []))

list_loop-entries :
    (mp : String) (p : Principal) (pubs : List Publication) (rows : List ListingRow)
    → entries (list_loop mp p pubs rows)
      ≡ entries pubs ++ map entry_of (keep (λ row. authorized (pin_of mp row ∷ []) p) rows)
unfolding list_loop
list_loop-entries mp p pubs [] = sym (append-nil (entries pubs))
list_loop-entries mp p pubs (row ∷ rows) = elim (Bool-cases (authorized (pin_of mp row ∷ []) p)) [
  | inl y ↦ rw (y) (
      list_loop-entries mp p (add_row pubs row) rows
      ∙ rw (entries-add_row pubs row) (
          append_assoc (entries pubs) (entry_of row ∷ [])
            (map entry_of (keep (λ r. authorized (pin_of mp r ∷ []) p) rows))))
  | inr n ↦ rw (n) (list_loop-entries mp p pubs rows)
]

-- The listing of a mediapackage has, channel by channel, the elements of exactly those rows whose pin
-- lets the principal in, in the order of the rows.
pub serve_publications-entries :
    (mp : String) (p : Principal) (rows : List ListingRow)
    → entries (serve_publications mp p rows)
      ≡ map entry_of (keep (λ row. authorized (pin_of mp row ∷ []) p) rows)
unfolding serve_publications
serve_publications-entries mp p rows = list_loop-entries mp p [] rows
