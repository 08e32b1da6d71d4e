-- ===== src/Mediapackage/Resolved.antt =====
-- How `materialiseElement` of internal/mediapackage/mediapackage.go ends.
use gophercast.Prelude.{
  Result, String, ◌≡◌, refl, sym, ap, Bool, true, false, not, ◌&&◌, Option, none, some, ok, err,
  inl, inr, str_eq, Bool-cases,
}
use gophercast.Prelude.Table.{find_by, insert_by}
use gophercast.Text.{Codes}
use gophercast.Search.Project.{foreign_key, is_some, find_package}
use gophercast.Mediapackage.Materialise.{
  ManifestElement, World, Files, Failure, checksum, not_stored, database, element_key, object_key,
  insert_tags, insert_element, element_of, put_file, is_refused, resolved,
}

module _ (files : Files) (mp : String) where
  abbrev pub mismatched : ManifestElement → Codes → Bool
  mismatched el bytes = not (str_eq el.md5 "") && not (str_eq (files.md5 bytes) el.md5)

  -- The bytes stored, and the row and the tags of the element.
  abbrev pub with_element : ManifestElement → Codes → World → World
  with_element el bytes w = record w {
    db = record w.db {
      elements =
          insert_by element_key (element_of files mp el bytes (files.sha256 bytes)) w.db.elements;
      element_tags = insert_tags el.id el.tags w.db.element_tags;
    };
    objects = insert_by object_key (files.sha256 bytes, bytes) w.objects;
  }

  pub resolved-ok :
      (el : ManifestElement) (bytes : Codes) (w : World)
      → mismatched el bytes ≡ false
      → is_refused files bytes w.objects ≡ false
      → is_some (find_package mp w.db) ≡ true
      → resolved files mp el (some bytes) w ≡ (ok tt, with_element el bytes w)
  unfolding resolved insert_element put_file
  resolved-ok el bytes w good accepted known =
      elim (Bool-cases (is_some (find_by element_key el.id w.db.elements))) [
        | inl e ↦ rw good (rw accepted (rw known (rw e)))
        | inr e ↦ rw good (rw accepted (rw known (rw e)))
      ]

  pub resolved-bad :
      (el : ManifestElement) (bytes : Codes) (w : World)
      → mismatched el bytes ≡ true
      → resolved files mp el (some bytes) w ≡ (err checksum, w)
  unfolding resolved
  resolved-bad el bytes w bad = rw bad

  pub resolved-refused :
      (el : ManifestElement) (bytes : Codes) (w : World)
      → mismatched el bytes ≡ false
      → is_refused files bytes w.objects ≡ true
      → resolved files mp el (some bytes) w ≡ (err not_stored, w)
  unfolding resolved put_file
  resolved-refused el bytes w good refused = rw good (rw refused)

  abbrev pub with_object : Codes → World → World
  with_object bytes w = record w {
    objects = insert_by object_key (files.sha256 bytes, bytes) w.objects;
  }

  pub resolved-orphan :
      (el : ManifestElement) (bytes : Codes) (w : World)
      → mismatched el bytes ≡ false
      → is_refused files bytes w.objects ≡ false
      → is_some (find_package mp w.db) ≡ false
      → resolved files mp el (some bytes) w ≡ (err (database foreign_key), with_object bytes w)
  unfolding resolved insert_element put_file
  resolved-orphan el bytes w good accepted gone = rw good (rw accepted (rw gone))

  -- The ways in which an element with its bytes ends.
  pub data Ending (el : ManifestElement) (bytes : Codes) (w : World)
      : Result Failure (Unit {0}) × World → Type 0 where
    is_bad : Ending el bytes w (err checksum, w)
    is_refused_there : Ending el bytes w (err not_stored, w)
    is_orphan : Ending el bytes w (err (database foreign_key), with_object bytes w)
    is_done : mismatched el bytes ≡ false → Ending el bytes w (ok tt, with_element el bytes w)

  pub resolved-Ending :
      (el : ManifestElement) (bytes : Codes) (w : World)
      → Ending el bytes w (resolved files mp el (some bytes) w)
  resolved-Ending el bytes w = elim (Bool-cases (mismatched el bytes)) [
    | inl bad ↦ rw (resolved-bad el bytes w bad) is_bad
    | inr good ↦ elim (Bool-cases (is_refused files bytes w.objects)) [
      | inl refused ↦ rw (resolved-refused el bytes w good refused) is_refused_there
      | inr accepted ↦ elim (Bool-cases (is_some (find_package mp w.db))) [
        | inl known ↦ rw (resolved-ok el bytes w good accepted known) (is_done good)
        | inr gone ↦ rw (resolved-orphan el bytes w good accepted gone) is_orphan
      ]
    ]
  ]

  pub resolved-inv :
      (el : ManifestElement) (o : Option Codes) (w w' : World)
      → resolved files mp el o w ≡ (ok tt, w')
      → (bytes : Codes) × (o ≡ some bytes)
        × (mismatched el bytes ≡ false)
        × (w' ≡ with_element el bytes w)
  unfolding resolved
  resolved-inv el none w w' h = absurd (cc)
  resolved-inv el (some bytes) w w' h =
      done (resolved files mp el (some bytes) w) (resolved-Ending el bytes w) h
    where
      done :
          (r : Result Failure (Unit {0}) × World)
          → Ending el bytes w r
          → r ≡ (ok tt, w')
          → (b : Codes) × (some bytes ≡ some b)
            × (mismatched el b ≡ false)
            × (w' ≡ with_element el b w)
      done _ is_bad h = absurd (cc)
      done _ is_refused_there h = absurd (cc)
      done _ is_orphan h = absurd (cc)
      done _ (is_done good) h = (bytes, refl, good, ap (λ p. p.1) (sym h))
