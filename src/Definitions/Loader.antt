-- ===== src/Definitions/Loader.antt =====
-- internal/definitions/loader.go: one pass over the directory of definitions.
use gophercast.Prelude.{
  String, Bool, true, false, not, ◌&&◌, Option, none, some, List, [], ◌∷◌, if◌then◌else◌, Result,
  ok, err, str_eq,
}
use gophercast.Prelude.Table.{find_by, put_by, drop_by}
use gophercast.Engine.Store.{Definition}
use gophercast.Definitions.Parse.{ParseError, Texts, parse}
use gophercast.Definitions.Registry.{DefRow, def_id}

-- A definition file of the directory, in the order of names; `none` cannot be read.
pub record File : Type 0 where
  pub name : String
  pub raw : Option String

pub record FileHash : Type 0 where
  pub file : String
  pub hash : String

abbrev pub file_of : FileHash → String
file_of f = f.file

abbrev pub recorded : Option FileHash → String
recorded none = ""
recorded (some f) = f.hash

-- `m[name]`, empty where there is none.
abbrev pub hash_at : String → List FileHash → String
hash_at name m = recorded (find_by file_of name m)

-- What is applied, and for what an error was logged.
pub record Loader : Type 0 where
  pub applied : List FileHash
  pub errored : List FileHash

pub data LoadError : Type 0 where
  no_directory unreadable duplicate_id : LoadError
  bad_file : ParseError → LoadError
  not_stored : String → LoadError

pub record Parsed : Type 0 where
  pub file : String
  pub id : String
  pub raw : String
  pub hash : String

-- What a file comes to: an error, a definition that is applied already, or one to apply.
pub data Verdict : Type 0 where
  rejected : String → LoadError → Verdict
  unchanged : String → Verdict
  to_apply : Parsed → Verdict

unfoldable pub note_error : String → String → Loader → Loader
note_error name hash l =
    if str_eq (hash_at name l.errored) hash && not (str_eq hash "")
    then l
    else record l { errored = put_by file_of (record { file = name; hash = hash }) l.errored }

abbrev pub seen : String → List String → Bool
seen id [] = false
seen id (i ∷ ids) = if str_eq i id then true else seen id ids

abbrev pub judge_parsed :
    Texts
    → List String
    → Loader
    → String
    → String
    → Result ParseError (String × Definition)
    → Verdict
judge_parsed t ids l name raw (err e) = rejected (t.hash raw) (bad_file e)
judge_parsed t ids l name raw (ok (id, def)) =
    if seen id ids
    then rejected (t.hash raw) duplicate_id
    else if str_eq (hash_at name l.applied) (t.hash raw)
    then unchanged id
    else to_apply (record { file = name; id = id; raw = raw; hash = t.hash raw })

unfoldable pub judge : Texts → List String → Loader → File → Verdict
unfolding parse
judge t ids l f = elim f.raw [
  | none ↦ rejected "" unreadable
  | some raw ↦ judge_parsed t ids l f.name raw (parse t raw)
]

abbrev pub clear_error : String → Loader → Loader
clear_error name l = record l { errored = drop_by file_of name l.errored }

-- The ids of this pass, and the loader, behind a file.
abbrev pub ids_after : Verdict → List String → List String
ids_after (rejected hash e) ids = ids
ids_after (unchanged id) ids = id ∷ ids
ids_after (to_apply p) ids = p.id ∷ ids

abbrev pub loader_after : Bool → String → Verdict → Loader → Loader
loader_after true name (rejected hash e) l = l
loader_after false name (rejected hash e) l = note_error name hash l
loader_after strict name (unchanged id) l = clear_error name l
loader_after strict name (to_apply p) l = clear_error name l

abbrev pub cons_parsed : Parsed → Result LoadError (List Parsed) → Result LoadError (List Parsed)
cons_parsed p (err e) = err e
cons_parsed p (ok ps) = ok (p ∷ ps)

abbrev pub with_verdict :
    Bool
    → Verdict
    → Loader
    → Result LoadError (List Parsed) × Loader
    → Result LoadError (List Parsed) × Loader
with_verdict true (rejected hash e) l (rest, after) = (err e, l)
with_verdict false (rejected hash e) l (rest, after) = (rest, after)
with_verdict strict (unchanged id) l (rest, after) = (rest, after)
with_verdict strict (to_apply p) l (rest, after) = (cons_parsed p rest, after)

module _ (t : Texts) (strict : Bool) where
  -- The first loop, over the files.
  unfoldable pub parse_pass :
      List String → Loader → List File → Result LoadError (List Parsed) × Loader
  unfolding judge note_error
  parse_pass ids l [] = (ok [], l)
  parse_pass ids l (f ∷ fs) =
      let v = judge t ids l f in
      let after = loader_after strict f.name v l in
      with_verdict strict v after (parse_pass (ids_after v ids) after fs)

-- `insert … on conflict (id) do update … where hash is distinct from excluded.hash`
abbrev pub upsert_over : Option DefRow → Parsed → List DefRow → List DefRow
upsert_over none p rows = put_by def_id (record { id = p.id; yaml = p.raw; hash = p.hash }) rows
upsert_over (some old) p rows =
    if str_eq old.hash p.hash
    then rows
    else put_by def_id (record { id = p.id; yaml = p.raw; hash = p.hash }) rows

unfoldable pub upsert : Parsed → List DefRow → List DefRow
upsert p rows = upsert_over (find_by def_id p.id rows) p rows

abbrev pub mark_applied : Parsed → Loader → Loader
mark_applied p l = record l {
  applied = put_by file_of (record { file = p.file; hash = p.hash }) l.applied;
}

abbrev pub apply_one : Bool → Parsed → Loader × List DefRow → Loader × List DefRow
apply_one true p (l, rows) = (mark_applied p l, upsert p rows)
apply_one false p (l, rows) = (l, rows)

-- `stores` says for which ids the database takes the statement.
module _ (stores : String → Bool) (strict : Bool) where
  unfoldable pub apply_pass :
      List Parsed → Loader × List DefRow → Option LoadError × (Loader × List DefRow)
  unfolding upsert
  apply_pass [] st = (none, st)
  apply_pass (p ∷ ps) st =
      let rest = apply_pass ps (apply_one (stores p.id) p st) in
      if strict && not (stores p.id) then (some (not_stored p.id), st) else rest

module _ (t : Texts) (stores : String → Bool) (strict : Bool) where
  abbrev pub then_apply :
      Result LoadError (List Parsed) × Loader
      → List DefRow
      → Option LoadError × (Loader × List DefRow)
  then_apply (err e, l) rows = (some e, (l, rows))
  then_apply (ok ps, l) rows = apply_pass stores strict ps (l, rows)

  -- The directory is `none` where it cannot be read.
  unfoldable pub load :
      Option (List File) → Loader × List DefRow → Option LoadError × (Loader × List DefRow)
  unfolding parse_pass apply_pass
  load none st = (some no_directory, st)
  load (some files) (l, rows) = then_apply (parse_pass t strict [] l files) rows
