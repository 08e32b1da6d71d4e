-- ===== src/Definitions/Tests.antt =====
-- Two definition files, and the theorems about internal/definitions at them.
use gophercast.Prelude.{
  ◌≡◌, refl, String, true, false, none, some, List, [], ◌∷◌, ok, err, str_eq, if◌then◌else◌, inl,
  inr, Bool-cases,
}
use gophercast.Prelude.Int.{negsuc}
use gophercast.Prelude.Table.{find_by}
use gophercast.Engine.Store.{Definition}
use gophercast.Definitions.Parse.{FileDoc, Texts, parse, include_refused}
use gophercast.Definitions.Registry.{DefRow, def_id, Asking, definition}
use gophercast.Definitions.Loader.{File, Loader, load}
use gophercast.Definitions.Boot.{are_held, load-are_held}
use gophercast.Definitions.Restored.{load_all, restored_file-stale}

abbrev doc : String → FileDoc
doc operation = record {
  id = "fast";
  operations = record { operation = operation; config = none; spec = none } ∷ [];
}

-- A text is the name of its only operation.
abbrev texts : Texts
texts = record { decode = λ s. some (doc s); hash = λ s. if str_eq s "inspect" then "h2" else "h1" }

abbrev def : String → Definition
def operation = record { operation = operation; config = []; spec = none } ∷ []

encoded : parse texts "encode" ≡ ok ("fast", def "encode")
unfolding parse
encoded = refl

inspected : parse texts "inspect" ≡ ok ("fast", def "inspect")
unfolding parse
inspected = refl

included : parse texts "include" ≡ err include_refused
unfolding parse
included = refl

restored_file-stale_example :
    find_by def_id "fast"
      (load_all texts
        (some (record { name = "a.yaml"; raw = some "encode" } ∷ [])
          ∷ some (record { name = "b.yaml"; raw = some "inspect" } ∷ [])
          ∷ some (record { name = "a.yaml"; raw = some "encode" } ∷ [])
          ∷ [])
        (record { applied = []; errored = [] }, [])).1
    ≡ some (record { id = "fast"; yaml = "inspect"; hash = "h2" })
restored_file-stale_example =
    restored_file-stale texts "encode" "inspect" "fast" (def "encode") (def "inspect") encoded
      inspected refl refl refl

abbrev files : List File
files = record { name = "a.yaml"; raw = some "encode" } ∷ []

abbrev unloaded : Loader
unloaded = record { applied = []; errored = [] }

abbrev old : List DefRow
old = record { id = "fast"; yaml = "inspect"; hash = "h2" } ∷ []

loaded : (load texts (λ id. true) true (some files) (unloaded, old)).0 ≡ none
unfolding load find_by
loaded = refl

hashes : (raw : String) → str_eq "" (texts.hash raw) ≡ false
hashes raw = elim (Bool-cases (str_eq raw "inspect")) [ inl e ↦ rw e | inr e ↦ rw e ]

load-are_held_example :
    are_held texts files (load texts (λ id. true) true (some files) (unloaded, old)).1.1 ≡ true
load-are_held_example = load-are_held texts hashes (λ id. true) files unloaded old refl loaded

-- A lookup that finds an answer of the last two seconds does not ask the table.
abbrev asking : Asking
asking = record { now = 10; rows = some []; others = λ c. c; later = 11 }

cached :
    (definition texts
      (negsuc 0)
      asking
      "fast"
      (record { id = "fast"; answer = some (def "encode", "h1"); at = 9 } ∷ [])).0
    ≡ ok (some (def "encode"))
unfolding definition find_by
cached = refl
