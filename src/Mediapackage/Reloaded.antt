-- ===== src/Mediapackage/Reloaded.antt =====
-- `Materialise` and `Load` of internal/mediapackage/mediapackage.go, run once and again.
use mathlib.Core.Path.{subst}
use gophercast.Prelude.{
  String, ◌≡◌, refl, sym, ap, ◌∙◌, true, false, Option, none, some, List, [], ◌∷◌, Result, ok, err,
  arith, inl, inr, str_eq, str_eq_refl, Bool-cases, All,
}
use gophercast.Prelude.Table.{find_by, or_else, insert_by, find_by-insert_by, insert_by_present}
use gophercast.Text.{Codes}
use gophercast.Search.Rows.{Element, Db, package_key}
use gophercast.Search.Project.{is_some, find_package}
use gophercast.Search.Settled.{projected_again}
use gophercast.Mediapackage.Materialise.{
  ManifestElement, Manifest, World, Files, Failure, no_mediapackage_id, new_package, record_package,
  resolved, materialise_element, and_then, materialise_elements, materialise,
}
use gophercast.Mediapackage.Manifest.{
  LoadError, Reader, parse_manifest, materialised, parsed, contents, load,
}
use gophercast.Mediapackage.Resolved.{
  Ending, is_bad, is_refused_there, is_orphan, is_done, resolved-Ending, resolved-inv,
}
use gophercast.Mediapackage.Loaded.{
  Extends, Extends-refl, Extends-trans, IsLoaded, IsLoaded-Extends, IsLoaded-with_element,
  Extends-with_element, Extends-with_object, materialise_elements-again,
}

module _ (files : Files) (mp : String) where
  resolved-Extends :
      (el : ManifestElement) (o : Option Codes) (w : World) → Extends w (resolved files mp el o w).1
  unfolding resolved
  resolved-Extends el none w = Extends-refl w
  resolved-Extends el (some bytes) w =
      kept (resolved files mp el (some bytes) w) (resolved-Ending files mp el bytes w)
    where
      kept : (r : Result Failure (Unit {0}) × World) → Ending files mp el bytes w r → Extends w r.1
      kept _ is_bad = Extends-refl w
      kept _ is_refused_there = Extends-refl w
      kept _ is_orphan = Extends-with_object files mp bytes w
      kept _ (is_done good) = Extends-with_element files mp el bytes w

  after_one :
      (w : World) (p : Result Failure (Unit {0}) × World)
      (f : World → Result Failure (Unit {0}) × World)
      → Extends w p.1
      → ((v : World) → Extends v (f v).1)
      → Extends w (and_then files p f).1
  after_one w (ok done, v) f h k = Extends-trans w v (f v).1 h (k v)
  after_one w (err e, v) f h k = h

  -- Whatever the result.
  pub materialise_elements-Extends :
      (els : List ManifestElement) (w : World) → Extends w (materialise_elements files mp els w).1
  unfolding materialise_elements materialise_element
  materialise_elements-Extends [] w = Extends-refl w
  materialise_elements-Extends (el ∷ els) w =
      after_one w (materialise_element files mp el w) (materialise_elements files mp els)
        (resolved-Extends el (files.resolve el.url) w) (materialise_elements-Extends els)

  IsLoaded-one :
      (el : ManifestElement) (w : World) (p : Result Failure (Unit {0}) × World)
      (f : World → Result Failure (Unit {0}) × World) (w' : World)
      → materialise_element files mp el w ≡ p
      → and_then files p f ≡ (ok tt, w')
      → (v : World) × IsLoaded files mp el v × (f v ≡ (ok tt, w'))
  unfolding materialise_element
  IsLoaded-one el w (err e, v) f w' h k = absurd (cc)
  IsLoaded-one el w (ok done, v) f w' h k =
      let (bytes, found, good, e) = resolved-inv files mp el (files.resolve el.url) w v h in
      (v, rw e (IsLoaded-with_element files mp el bytes w found good), k)

  -- After a success, all of them are.
  materialise_elements-IsLoaded :
      (els : List ManifestElement) (w w' : World)
      → materialise_elements files mp els w ≡ (ok tt, w')
      → All (λ el. IsLoaded files mp el w') els
  unfolding materialise_elements
  materialise_elements-IsLoaded [] w w' h = tt
  materialise_elements-IsLoaded (el ∷ els) w w' h =
      let (v, l, k) =
        IsLoaded-one el w (materialise_element files mp el w) (materialise_elements files mp els) w'
          refl h in
      (
        IsLoaded-Extends files mp el v w'
            (subst (Extends v) (ap (λ p. p.1) k) (materialise_elements-Extends els v)) l,
        materialise_elements-IsLoaded els v w' k,
      )

-- The first transaction succeeds, and does so again without effect, whatever elements are written.
record_package-settled :
    (m : Manifest) (db : Db)
    → (after : Db) × (record_package m db ≡ (ok tt, after))
      × ((els : List Element) (tags : List (String × String))
          → let now : Db = record after { elements = els; element_tags = tags } in
            (is_some (find_package m.id now) ≡ true) × (record_package m now ≡ (ok tt, now)))
unfolding record_package new_package
record_package-settled m db =
    let mp = or_else package_key (find_package m.id db) (new_package m) in
    let written : Db = record db { packages = insert_by package_key (new_package m) db.packages } in
    let found : find_package m.id written ≡ some mp =
      find_by-insert_by package_key m.id (new_package m) db.packages ∙ rw (str_eq_refl m.id) in
    let (evs, rows, e, again) = projected_again mp m.id written found in
    let after : Db = record written { events = evs; series_rows = rows } in
    let still : find_by package_key m.id after.packages ≡ some mp = found in
    (
      after,
      rw e,
      λ els tags. (
        rw still,
        rw (insert_by_present package_key (new_package m) mp after.packages still)
            (rw (again els tags)),
      ),
    )

module _ (files : Files) where
  materialise-once :
      (m : Manifest) (w w' : World)
      → materialise files m w ≡ (ok tt, w')
      → (after : Db) × (record_package m w.db ≡ (ok tt, after))
        × (materialise_elements files m.id m.elements (record w { db = after }) ≡ (ok tt, w'))
        × (str_eq m.id "" ≡ false)
        × ((els : List Element) (tags : List (String × String))
            → let now : Db = record after { elements = els; element_tags = tags } in
              (is_some (find_package m.id now) ≡ true) × (record_package m now ≡ (ok tt, now)))
  unfolding materialise
  materialise-once m w w' h = elim (Bool-cases (str_eq m.id "")) [
    | inl none_given ↦
        let e : (err no_mediapackage_id, w) ≡ (ok tt, w') = rw none_given at h in absurd (cc)
    | inr given ↦
        let (after, e, again) = record_package-settled m w.db in
        (after, e, rw (given, e) at h, given, again)
  ]

  -- Where a manifest was materialised, every element of it is loaded, and to materialise it again
  -- succeeds and changes nothing.
  pub materialise_again :
      (m : Manifest) (w w' : World)
      → materialise files m w ≡ (ok tt, w')
      → All (λ el. IsLoaded files m.id el w') m.elements × (materialise files m w' ≡ (ok tt, w'))
  unfolding materialise
  materialise_again m w w' h =
      let (after, e, loop, given, again) = materialise-once m w w' h in
      let first : World = record w { db = after } in
      let grown : Extends first w' =
        subst (Extends first) (ap (λ p. p.1) loop)
          (materialise_elements-Extends files m.id m.elements first) in
      let loaded = materialise_elements-IsLoaded files m.id m.elements first w' loop in
      let (known, settled) =
        subst (λ d. (is_some (find_package m.id d) ≡ true) × (record_package m d ≡ (ok tt, d)))
          (sym grown.same) (again w'.db.elements w'.db.element_tags) in
      (
        loaded,
        rw (given, settled) (materialise_elements-again files m.id m.elements w' loaded known),
      )

module _ (reader : Reader) (files : Files) where
  materialised_again :
      (m : Manifest) (p : Result Failure (Unit {0}) × World) (w w' : World) (id : String)
      → materialise files m w ≡ p
      → materialised reader files m.id p ≡ (ok id, w')
      → (m.id ≡ id)
        × All (λ el. IsLoaded files m.id el w') m.elements
        × (materialised reader files m.id (materialise files m w') ≡ (ok id, w'))
  materialised_again m (err e, v) w w' id h k = absurd (cc)
  materialised_again m (ok done, v) w w' id h k =
      let same : v ≡ w' = ap (λ p. p.1) k in
      let (loaded, again) = materialise_again files m w w' (h ∙ rw same) in
      (ground arith, loaded, rw again (rw same at k))

  parsed_again :
      (r : Result LoadError Manifest) (w w' : World) (id : String)
      → parsed reader files r w ≡ (ok id, w')
      → (m : Manifest) × (r ≡ ok m)
        × (m.id ≡ id)
        × All (λ el. IsLoaded files m.id el w') m.elements
        × (parsed reader files r w' ≡ (ok id, w'))
  unfolding materialise
  parsed_again (err e) w w' id h = absurd (cc)
  parsed_again (ok m) w w' id h =
      let (named, loaded, again) = materialised_again m (materialise files m w) w w' id refl h in
      (m, refl, named, loaded, again)

  -- Where `Load` succeeds, the file parses, the answer is the manifest's id, every element of the
  -- manifest is loaded (the bytes behind its URL match the checksum, if it has one, an object is
  -- stored under their digest, and it has a row and its tags), and to load the same file again, with the
  -- same bytes behind the URLs, succeeds with the same answer and changes nothing.
  pub load_again :
      (path id : String) (w w' : World)
      → load reader files path w ≡ (ok id, w')
      → (raw : Codes) × (reader.read_file path ≡ some raw)
        × (m : Manifest) × (parse_manifest reader raw ≡ ok m)
        × (m.id ≡ id)
        × All (λ el. IsLoaded files m.id el w') m.elements
        × (load reader files path w' ≡ (ok id, w'))
  unfolding load
  load_again path id w w' h = with_contents (reader.read_file path) h
    where
      with_contents :
          (o : Option Codes)
          → contents reader files o w ≡ (ok id, w')
          → (raw : Codes) × (o ≡ some raw)
            × (m : Manifest) × (parse_manifest reader raw ≡ ok m)
            × (m.id ≡ id)
            × All (λ el. IsLoaded files m.id el w') m.elements
            × (contents reader files o w' ≡ (ok id, w'))
      with_contents none k = absurd (cc)
      with_contents (some raw) k =
          let (m, parses, named, loaded, again) =
            parsed_again (parse_manifest reader raw) w w' id k in
          (raw, refl, m, parses, named, loaded, again)
