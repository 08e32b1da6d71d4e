-- ===== src/Definitions/Boot.antt =====
-- internal/definitions/loader.go: what the table holds after the load at boot.
use gophercast.Prelude.{
  ◌≡◌, refl, ◌∙◌, String, Bool, true, false, not, Option, none, some, List, [], ◌∷◌, Result, ok,
  err, str_eq, str_eq_sym, arith, all, inl, inr, Bool-cases,
}
use gophercast.Prelude.Table.{find_by}
use gophercast.Engine.Store.{Definition}
use gophercast.Definitions.Parse.{ParseError, Texts, parse}
use gophercast.Definitions.Registry.{DefRow, def_id}
use gophercast.Definitions.Loader.{
  File, Loader, LoadError, Parsed, Verdict, rejected, unchanged, to_apply, seen, judge,
  judge_parsed, ids_after, loader_after, cons_parsed, with_verdict, parse_pass, apply_pass,
  then_apply, load,
}
use gophercast.Definitions.Applied.{has_hash, is_stored, ids_of, are_apart, apply_pass-stored}

-- What a file declares: an id and the hash of its content, if it can be read and parsed.
abbrev pub declared : Texts → Option String → Option (String × String)
declared t none = none
declared t (some raw) = elim (parse t raw) [ err e ↦ none | ok (id, def) ↦ some (id, t.hash raw) ]

abbrev pub holds : List DefRow → Option (String × String) → Bool
holds rows none = false
holds rows (some (id, hash)) = has_hash hash (find_by def_id id rows)

-- Every file is there, with its content.
abbrev pub are_held : Texts → List File → List DefRow → Bool
are_held t files rows = all (λ f. holds rows (declared t f.raw)) files

apart_from :
    (i : String) (ids : List String) (qs : List Parsed)
    → all (λ q. not (seen q.id (i ∷ ids))) qs ≡ true
    → (seen i (ids_of qs) ≡ false) × (all (λ q. not (seen q.id ids)) qs ≡ true)
apart_from i ids [] h = (refl, refl)
apart_from i ids (q ∷ qs) h =
    let (a, b) = apart_from i ids qs (ground arith) in
    let d = str_eq_sym i q.id (ground arith) in (rw (d) a, ground arith)

cons_parsed-ok :
    (p : Parsed) (r : Result LoadError (List Parsed)) (ps : List Parsed)
    → cons_parsed p r ≡ ok ps
    → (qs : List Parsed) × (r ≡ ok qs) × (ps ≡ p ∷ qs)
cons_parsed-ok p (err e) ps h = absurd (cc)
cons_parsed-ok p (ok qs) ps h = (qs, refl, cc)

module _ (t : Texts) (hashes : (raw : String) → str_eq "" (t.hash raw) ≡ false) where
  -- With nothing applied before, a file is rejected or applied.
  IsJudged : List String → Option String → Verdict → Type 0
  IsJudged ids raw (rejected hash e) = Unit
  IsJudged ids raw (unchanged id) = ⊥
  IsJudged ids raw (to_apply p) = (declared t raw ≡ some (p.id, p.hash)) × (seen p.id ids ≡ false)

  judge_parsed-IsJudged :
      (ids : List String) (l : Loader) (name raw : String)
      (r : Result ParseError (String × Definition))
      → l.applied ≡ []
      → parse t raw ≡ r
      → IsJudged ids (some raw) (judge_parsed t ids l name raw r)
  unfolding IsJudged find_by
  judge_parsed-IsJudged ids l name raw (err e) none_applied h = tt
  judge_parsed-IsJudged ids l name raw (ok (id, def)) none_applied h =
      elim (Bool-cases (seen id ids)) [
        | inl y ↦ rw (y) tt
        | inr n ↦ rw (n, none_applied, hashes raw) (rw (h, declared), n)
      ]

  judge-IsJudged :
      (ids : List String) (l : Loader) (name : String) (raw : Option String)
      → l.applied ≡ []
      → IsJudged ids raw (judge t ids l (record { name = name; raw = raw }))
  unfolding IsJudged judge
  judge-IsJudged ids l name none none_applied = tt
  judge-IsJudged ids l name (some raw) none_applied =
      judge_parsed-IsJudged ids l name raw (parse t raw) none_applied refl

  abbrev Covers : List String → List File → Result LoadError (List Parsed) → Type 0
  Covers ids fs r =
      (ps : List Parsed)
      → r ≡ ok ps
      → (are_apart ps ≡ true)
        × (all (λ p. not (seen p.id ids)) ps ≡ true)
        × ((rows : List DefRow) → all (is_stored rows) ps ≡ true → are_held t fs rows ≡ true)

  by_verdict :
      (ids : List String) (f : File) (fs : List File) (v : Verdict) (l : Loader)
      (rest : Result LoadError (List Parsed) × Loader)
      → IsJudged ids f.raw v
      → Covers (ids_after v ids) fs rest.0
      → Covers ids (f ∷ fs) (with_verdict true v l rest).0
  unfolding IsJudged
  by_verdict ids f fs (rejected hash e) l rest j c ps h = absurd (cc)
  by_verdict ids f fs (unchanged id) l rest j c ps h = absurd j
  by_verdict ids f fs (to_apply p) l rest j c ps h =
      let (qs, e, same) = cons_parsed-ok p rest.0 ps h in
      let (apart, fresh, held) = c qs e in
      let (other, unseen) = apart_from p.id ids qs fresh in
      rw (same) (
        rw (other) apart,
        rw (j.1) unseen,
        λ rows s. rw (j.0) (ground (arith, held rows (ground arith))),
      )

  empty_pass : (ids : List String) → Covers ids [] (ok [])
  empty_pass ids [] h = (refl, refl, (λ rows s. refl))
  empty_pass ids (p ∷ ps) h = absurd (cc)

  applied_same :
      (name : String) (v : Verdict) (l : Loader) → (loader_after true name v l).applied ≡ l.applied
  applied_same name (rejected hash e) l = refl
  applied_same name (unchanged id) l = refl
  applied_same name (to_apply p) l = refl

  parse_pass-Covers :
      (ids : List String) (l : Loader) (fs : List File)
      → l.applied ≡ []
      → Covers ids fs (parse_pass t true ids l fs).0
  unfolding parse_pass
  parse_pass-Covers ids l [] none_applied = empty_pass ids
  parse_pass-Covers ids l (f ∷ fs) none_applied =
      let v = judge t ids l f in
      let after = loader_after true f.name v l in
      by_verdict ids f fs v after (parse_pass t true (ids_after v ids) after fs)
        (judge-IsJudged ids l f.name f.raw none_applied)
        (parse_pass-Covers (ids_after v ids) after fs (applied_same f.name v l ∙ none_applied))

  module _ (stores : String → Bool) where
    then_apply-held :
        (fs : List File) (r : Result LoadError (List Parsed)) (l : Loader) (rows : List DefRow)
        → Covers [] fs r
        → (then_apply t stores true (r, l) rows).0 ≡ none
        → are_held t fs (then_apply t stores true (r, l) rows).1.1 ≡ true
    then_apply-held fs (err e) l rows c h = absurd (cc)
    then_apply-held fs (ok ps) l rows c h =
        let (apart, unseen, held) = c ps refl in
        held (apply_pass stores true ps (l, rows)).1.1 (apply_pass-stored stores ps l rows apart h)

    -- Where a load at boot ends without error, every file of the directory is a definition whose row
    -- has the hash of the file, whatever the table held before.
    pub load-are_held :
        (fs : List File) (l : Loader) (rows : List DefRow)
        → l.applied ≡ []
        → (load t stores true (some fs) (l, rows)).0 ≡ none
        → are_held t fs (load t stores true (some fs) (l, rows)).1.1 ≡ true
    unfolding load
    load-are_held fs l rows none_applied h =
        then_apply-held fs (parse_pass t true [] l fs).0 (parse_pass t true [] l fs).1 rows
          (parse_pass-Covers [] l fs none_applied) h
