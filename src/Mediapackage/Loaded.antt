-- ===== src/Mediapackage/Loaded.antt =====
-- The loop over the elements of `Materialise`, internal/mediapackage/mediapackage.go: what it keeps, and
-- what it leaves.
use gophercast.Prelude.{
  String, ◌≡◌, refl, ap, ◌∙◌, true, false, not, ◌&&◌, some, List, [], ◌∷◌, ok, str_eq, any, All,
}
use gophercast.Prelude.Table.{find_by, insert_by_present, insert_by-keeps, insert_by-finds}
use gophercast.Text.{Codes}
use gophercast.Search.Rows.{Element, Db}
use gophercast.Search.Project.{is_some, find_package}
use gophercast.Mediapackage.Tags.{
  HasTags, insert_tags-keeps, insert_tags-HasTags, insert_tags_present,
}
use gophercast.Mediapackage.Materialise.{
  ManifestElement, World, Files, element_key, object_key, is_tag, element_of, materialise_element,
  materialise_elements,
}
use gophercast.Mediapackage.Resolved.{mismatched, with_element, with_object, resolved-ok}

-- Nothing is lost from one state to another, and only objects, elements and tags are new.
pub record Extends (w w' : World) : Type 0 where
  pub same : w'.db ≡ record w.db { elements = w'.db.elements; element_tags = w'.db.element_tags }
  pub objects :
      (k : String) (o : String × Codes)
      → find_by object_key k w.objects ≡ some o
      → find_by object_key k w'.objects ≡ some o
  pub elements :
      (k : String) (e : Element)
      → find_by element_key k w.db.elements ≡ some e
      → find_by element_key k w'.db.elements ≡ some e
  pub tags :
      (e t : String)
      → any (is_tag e t) w.db.element_tags ≡ true
      → any (is_tag e t) w'.db.element_tags ≡ true

pub Extends-refl : (w : World) → Extends w w
Extends-refl w = record {
  same = refl;
  objects = λ k o h. h;
  elements = λ k e h. h;
  tags = λ e t h. h;
}

pub Extends-trans : (u v w : World) → Extends u v → Extends v w → Extends u w
Extends-trans u v w a b = record {
  same =
      b.same
      ∙ ap
          (λ (d : Db).
            let x : Db = record d { elements = w.db.elements; element_tags = w.db.element_tags } in
            x)
          a.same;
  objects = λ k o h. b.objects k o (a.objects k o h);
  elements = λ k e h. b.elements k e (a.elements k e h);
  tags = λ e t h. b.tags e t (a.tags e t h);
}

module _ (files : Files) (mp : String) where
  -- The bytes of an element were verified and stored, and it has its row and its tags.
  pub record IsLoaded (el : ManifestElement) (w : World) : Type 0 where
    pub bytes : Codes
    pub found : files.resolve el.url ≡ some bytes
    pub verified : (not (str_eq el.md5 "") && not (str_eq (files.md5 bytes) el.md5)) ≡ false
    pub object : String × Codes
    pub is_stored : find_by object_key (files.sha256 bytes) w.objects ≡ some object
    pub row : Element
    pub has_row : find_by element_key el.id w.db.elements ≡ some row
    pub has_tags : HasTags el.id el.tags w.db.element_tags

  HasTags-Extends :
      (e : String) (ts : List String) (w w' : World)
      → Extends w w'
      → HasTags e ts w.db.element_tags
      → HasTags e ts w'.db.element_tags
  HasTags-Extends e [] w w' x h = tt
  HasTags-Extends e (t ∷ ts) w w' x h = (x.tags e t h.0, HasTags-Extends e ts w w' x h.1)

  pub IsLoaded-Extends :
      (el : ManifestElement) (w w' : World) → Extends w w' → IsLoaded el w → IsLoaded el w'
  IsLoaded-Extends el w w' x l = record {
    bytes = l.bytes;
    found = l.found;
    verified = l.verified;
    object = l.object;
    is_stored = x.objects _ _ l.is_stored;
    row = l.row;
    has_row = x.elements _ _ l.has_row;
    has_tags = HasTags-Extends el.id el.tags w w' x l.has_tags;
  }

  pub Extends-with_element :
      (el : ManifestElement) (bytes : Codes) (w : World)
      → Extends w (with_element files mp el bytes w)
  Extends-with_element el bytes w = record {
    same = refl;
    objects = λ k o h. insert_by-keeps object_key k (files.sha256 bytes, bytes) o w.objects h;
    elements = λ k e h.
        insert_by-keeps element_key k (element_of files mp el bytes (files.sha256 bytes)) e
          w.db.elements h;
    tags = λ e t h. insert_tags-keeps (is_tag e t) el.id el.tags w.db.element_tags h;
  }

  pub Extends-with_object : (bytes : Codes) (w : World) → Extends w (with_object files mp bytes w)
  Extends-with_object bytes w = record {
    same = refl;
    objects = λ k o h. insert_by-keeps object_key k (files.sha256 bytes, bytes) o w.objects h;
    elements = λ k e h. h;
    tags = λ e t h. h;
  }

  pub IsLoaded-with_element :
      (el : ManifestElement) (bytes : Codes) (w : World)
      → files.resolve el.url ≡ some bytes
      → mismatched files mp el bytes ≡ false
      → IsLoaded el (with_element files mp el bytes w)
  IsLoaded-with_element el bytes w found good =
      let (o, stored_now) = insert_by-finds object_key (files.sha256 bytes, bytes) w.objects in
      let (e, row_now) =
        insert_by-finds element_key (element_of files mp el bytes (files.sha256 bytes))
          w.db.elements in
      record {
        bytes = bytes;
        found = found;
        verified = good;
        object = o;
        is_stored = stored_now;
        row = e;
        has_row = row_now;
        has_tags = insert_tags-HasTags el.id el.tags w.db.element_tags;
      }

  materialise_element-again :
      (el : ManifestElement) (w : World)
      → IsLoaded el w
      → is_some (find_package mp w.db) ≡ true
      → materialise_element files mp el w ≡ (ok tt, w)
  unfolding materialise_element
  materialise_element-again el w l known = rw (l.found) (
      resolved-ok files mp el l.bytes w l.verified (rw (l.is_stored)) known
      ∙ rw (
        insert_by_present object_key (files.sha256 l.bytes, l.bytes) l.object w.objects l.is_stored,
        insert_by_present element_key (element_of files mp el l.bytes (files.sha256 l.bytes)) l.row
            w.db.elements l.has_row,
        insert_tags_present el.id el.tags w.db.element_tags l.has_tags,
      ))

  pub materialise_elements-again :
      (els : List ManifestElement) (w : World)
      → All (λ el. IsLoaded el w) els
      → is_some (find_package mp w.db) ≡ true
      → materialise_elements files mp els w ≡ (ok tt, w)
  unfolding materialise_elements
  materialise_elements-again [] w l known = refl
  materialise_elements-again (el ∷ els) w l known =
      rw (materialise_element-again el w l.0 known) (materialise_elements-again els w l.1 known)
