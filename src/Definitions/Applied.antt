-- ===== src/Definitions/Applied.antt =====
-- internal/definitions/loader.go: what the second loop of a pass stores.
use gophercast.Prelude.{
  ◌≡◌, ◌≢◌, refl, sym, ap, ◌∙◌, String, Bool, true, false, not, ◌&&◌, Option, none, some, List, [],
  ◌∷◌, str_eq, str_eq_refl, arith, all, inl, inr, Bool-cases,
}
use gophercast.Prelude.Table.{find_by, put_by, find_by-put_by}
use gophercast.Definitions.Registry.{DefRow, def_id}
use gophercast.Definitions.Loader.{
  Loader, LoadError, not_stored, Parsed, seen, upsert, upsert_over, mark_applied, apply_pass,
}

-- The row of a definition, if there is one, has its hash.
abbrev pub has_hash : String → Option DefRow → Bool
has_hash hash none = false
has_hash hash (some r) = str_eq r.hash hash

abbrev pub is_stored : List DefRow → Parsed → Bool
is_stored rows p = has_hash p.hash (find_by def_id p.id rows)

upsert-stored : (p : Parsed) (rows : List DefRow) → is_stored (upsert p rows) p ≡ true
unfolding upsert
upsert-stored p rows = by_old (find_by def_id p.id rows) refl
  where
    row : DefRow
    row = record { id = p.id; yaml = p.raw; hash = p.hash }

    put : is_stored (put_by def_id row rows) p ≡ true
    put = rw (find_by-put_by def_id p.id row rows) (rw (str_eq_refl p.id) (str_eq_refl p.hash))

    by_old :
        (o : Option DefRow)
        → find_by def_id p.id rows ≡ o
        → is_stored (upsert_over o p rows) p ≡ true
    by_old none e = put
    by_old (some old) e = elim (Bool-cases (str_eq old.hash p.hash)) [
      | inl y ↦ rw (y) (rw (e) y)
      | inr n ↦ rw (n) put
    ]

upsert-other :
    (k : String) (p : Parsed) (rows : List DefRow)
    → str_eq p.id k ≡ false
    → find_by def_id k (upsert p rows) ≡ find_by def_id k rows
unfolding upsert
upsert-other k p rows d = by_old (find_by def_id p.id rows)
  where
    row : DefRow
    row = record { id = p.id; yaml = p.raw; hash = p.hash }

    put : find_by def_id k (put_by def_id row rows) ≡ find_by def_id k rows
    put = rw (find_by-put_by def_id k row rows) (rw (d))

    by_old : (o : Option DefRow) → find_by def_id k (upsert_over o p rows) ≡ find_by def_id k rows
    by_old none = put
    by_old (some old) = elim (Bool-cases (str_eq old.hash p.hash)) [
      | inl y ↦ rw (y)
      | inr n ↦ rw (n) put
    ]

abbrev pub ids_of : List Parsed → List String
ids_of [] = []
ids_of (p ∷ ps) = p.id ∷ ids_of ps

-- No id comes twice.
abbrev pub are_apart : List Parsed → Bool
are_apart [] = true
are_apart (p ∷ ps) = not (seen p.id (ids_of ps)) && are_apart ps

module _ (stores : String → Bool) where
  apply_pass-other :
      (k : String) (ps : List Parsed) (l : Loader) (rows : List DefRow)
      → seen k (ids_of ps) ≡ false
      → find_by def_id k (apply_pass stores true ps (l, rows)).1.1 ≡ find_by def_id k rows
  unfolding apply_pass
  apply_pass-other k [] l rows h = refl
  apply_pass-other k (p ∷ ps) l rows h = elim (Bool-cases (stores p.id)) [
    | inl y ↦ rw (y) (
        apply_pass-other k ps (mark_applied p l) (upsert p rows) (ground arith)
        ∙ upsert-other k p rows (ground arith))
    | inr n ↦ rw (n)
  ]

  apply_pass-step :
      (p : Parsed) (ps : List Parsed) (l : Loader) (rows : List DefRow)
      → stores p.id ≡ true
      → apply_pass stores true (p ∷ ps) (l, rows)
        ≡ apply_pass stores true ps (mark_applied p l, upsert p rows)
  unfolding apply_pass
  apply_pass-step p ps l rows y = rw (y)

  apply_pass-stops :
      (p : Parsed) (ps : List Parsed) (l : Loader) (rows : List DefRow)
      → stores p.id ≡ false
      → (apply_pass stores true (p ∷ ps) (l, rows)).0 ≢ none
  unfolding apply_pass
  apply_pass-stops p ps l rows n h =
      let stopped : Path (Option LoadError) (some (not_stored p.id)) none = rw n at h in absurd (cc)

  pub apply_pass-stored :
      (ps : List Parsed) (l : Loader) (rows : List DefRow)
      → are_apart ps ≡ true
      → (apply_pass stores true ps (l, rows)).0 ≡ none
      → all (is_stored (apply_pass stores true ps (l, rows)).1.1) ps ≡ true
  apply_pass-stored [] l rows a h = refl
  apply_pass-stored (p ∷ ps) l rows a h = elim (Bool-cases (stores p.id)) [
    | inl y ↦
        let step = apply_pass-step p ps l rows y in
        let after = (apply_pass stores true ps (mark_applied p l, upsert p rows)).1.1 in
        let first : is_stored after p ≡ true =
          ap (has_hash p.hash)
            (apply_pass-other p.id ps (mark_applied p l) (upsert p rows) (ground arith))
          ∙ upsert-stored p rows in
        let rest : all (is_stored after) ps ≡ true =
          apply_pass-stored ps (mark_applied p l) (upsert p rows) (ground arith)
            (sym (ap (λ x. x.0) step) ∙ h) in
        ap (λ x. all (is_stored x.1.1) (p ∷ ps)) step ∙ rw (first) rest
    | inr n ↦ absurd (apply_pass-stops p ps l rows n h)
  ]
