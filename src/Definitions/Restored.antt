-- ===== src/Definitions/Restored.antt =====
-- internal/definitions/loader.go: a file that is taken away, replaced under another name and brought back.
use gophercast.Prelude.{
  ◌≡◌, String, true, false, Option, none, some, List, [], ◌∷◌, ok, str_eq, str_eq_refl,
}
use gophercast.Prelude.Table.{find_by, put_by, drop_by}
use gophercast.Engine.Store.{Definition}
use gophercast.Definitions.Parse.{Texts, parse}
use gophercast.Definitions.Registry.{DefRow, def_id}
use gophercast.Definitions.Loader.{
  File, hash_at, clear_error, mark_applied, Parsed, Loader, judge, parse_pass, apply_pass, upsert,
  load,
}

abbrev start : Loader × List DefRow
start = (record { applied = []; errored = [] }, [])

abbrev directory : String → String → Option (List File)
directory name raw = some (record { name = name; raw = some raw } ∷ [])

abbrev pub load_all :
    Texts → List (Option (List File)) → Loader × List DefRow → Loader × List DefRow
load_all t [] st = st
load_all t (d ∷ ds) st = load_all t ds (load t (λ id. true) false d st).1

module _ (t : Texts) (name raw id : String) (d : Definition)
    (parses : parse t raw ≡ ok (id, d)) where
  abbrev parsed : Parsed
  parsed = record { file = name; id = id; raw = raw; hash = t.hash raw }

  load_new :
      (l : Loader) (rows : List DefRow)
      → str_eq (hash_at name l.applied) (t.hash raw) ≡ false
      → load t (λ i. true) false (directory name raw) (l, rows)
        ≡ (none, (mark_applied parsed (clear_error name l), upsert parsed rows))
  unfolding load parse_pass apply_pass judge
  load_new l rows h = rw (parses, h)

  load_same :
      (l : Loader) (rows : List DefRow)
      → str_eq (hash_at name l.applied) (t.hash raw) ≡ true
      → load t (λ i. true) false (directory name raw) (l, rows) ≡ (none, (clear_error name l, rows))
  unfolding load parse_pass apply_pass judge
  load_same l rows h = rw (parses, h)

-- Two contents of one definition under the names a.yaml and b.yaml: after loading the first, then
-- the second in its place, then the first again, the table holds the second.
pub restored_file-stale :
    (t : Texts) (first second id : String) (d e : Definition)
    → parse t first ≡ ok (id, d)
    → parse t second ≡ ok (id, e)
    → str_eq (t.hash first) (t.hash second) ≡ false
    → str_eq "" (t.hash first) ≡ false
    → str_eq "" (t.hash second) ≡ false
    → find_by def_id id
        (load_all t
          (directory "a.yaml" first ∷ directory "b.yaml" second ∷ directory "a.yaml" first ∷ [])
          start).1
      ≡ some (record { id = id; yaml = second; hash = t.hash second })
unfolding upsert find_by put_by drop_by
restored_file-stale t first second id d e p q differ filled filled' =
    let a = parsed t "a.yaml" first id d p in
    let l1 = mark_applied a (clear_error "a.yaml" start.0) in
    let l2 = mark_applied (parsed t "b.yaml" second id e q) (clear_error "b.yaml" l1) in
    rw
      (
        load_all,
        load_new t "a.yaml" first id d p start.0 [] filled,
        load_new t "b.yaml" second id e q l1 (upsert a []) filled',
        load_same t "a.yaml" first id d p l2
            (upsert (parsed t "b.yaml" second id e q) (upsert a [])) (str_eq_refl (t.hash first)),
      )
      (rw (str_eq_refl id, differ) (rw (str_eq_refl id) (rw (str_eq_refl id))))
