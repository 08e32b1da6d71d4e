-- ===== src/Gc/Tests.antt =====
-- Small stores, and the theorems about internal/gc at them.
use gophercast.Prelude.{ℕ, String, ◌≡◌, refl, true, false, none, some, List, [], ◌∷◌}
use gophercast.Gc.Sweep.{
  Refs, Pass, Visit, mark_exists, mark_set, visit, sweep, expired?, note_candidate, drop_candidate,
  remove_object, no_report,
}
use gophercast.Gc.Safety.{is_stored, sweep-keeps}
use gophercast.Gc.Grace.{Run, sweeps, sweeps-grace}

abbrev refs : Refs
refs = record {
  mp_element = some ("aa" ∷ []);
  mp_snapshot = some (record { manifest_sha256 = "bb"; source_manifest_sha256 = some "cc" } ∷ []);
  migration_url_map = none;
}

abbrev mark : List String
mark = "aa" ∷ "bb" ∷ "cc" ∷ []

abbrev seen : String → ℕ → Visit
seen sha t = record { sha = sha; inserted = t; asked = t; refs = refs; deletes = true }

abbrev start : Pass
start = record { store = "aa" ∷ "dd" ∷ []; ledger = []; report = no_report }

abbrev listing : ℕ → List Visit
listing t = seen "aa" t ∷ seen "dd" t ∷ []

two_sweeps : (sweep 10 refs (listing 5) true start).0.store ≡ "aa" ∷ "dd" ∷ []
unfolding sweep mark_set visit expired? note_candidate drop_candidate
two_sweeps = refl

collected :
    (sweep 10 refs (listing 15) true (sweep 10 refs (listing 5) true start).0).0.store ≡ "aa" ∷ []
unfolding sweep mark_set visit expired? note_candidate drop_candidate mark_exists remove_object
collected = refl

sweep-keeps_example : is_stored "aa" (sweep 0 refs (listing 5) true start).0 ≡ true
unfolding mark_set mark_exists
sweep-keeps_example = sweep-keeps 0 refs (listing 5) true start mark false "aa" refl refl refl

abbrev runs : List Run
runs =
    record { refs = refs; listing = listing 5; complete = true }
    ∷ record { refs = refs; listing = listing 14; complete = true }
    ∷ []

sweeps-grace_example : is_stored "dd" (sweeps 10 runs start) ≡ true
sweeps-grace_example = sweeps-grace 5 10 "dd" runs start refl refl refl
