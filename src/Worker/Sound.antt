-- ===== src/Worker/Sound.antt =====
-- The completions of internal/ops and internal/worker on the tables of internal/mediapackage and
-- internal/search.
use gophercast.Prelude.{
  ℕ, ◌≡◌, refl, ◌<◌, String, Bool, false, not, ◌&&◌, List, [], ◌∷◌, ◌++◌, Result, ok, err, arith,
  inl, inr, str_eq, Bool-cases, any, all, ◌==◌,
}
use gophercast.Prelude.Table.{find_by}
use gophercast.Search.Rows.{Element, Snapshot, Db}
use gophercast.Search.Project.{Error, is_some, find_package, begin_func, project_event}
use gophercast.Search.Current.{IsCurrent}
use gophercast.Search.Settled.{project_event-snapshots}
use gophercast.Search.Members.{IsKeyed}
use gophercast.Mediapackage.Metadata.{put_publication, pin, publish_tx, publish}
use gophercast.Mediapackage.Materialise.{
  insert_element, element_key, record_duration, set_duration_if_null,
}
use gophercast.Mediapackage.Refresh.{publish-IsCurrent}
use gophercast.Mediapackage.Recorded.{record_duration-IsCurrent}
use gophercast.Mediapackage.Keys.{publish-IsKeyed, record_duration-IsKeyed}
use gophercast.Worker.Completions.{
  max_version, next_snapshot, snapshot_tx, publish_completion, inspect_completion, Completion,
  archived, referenced, inspected, produced, completion_tx,
}

-- The unique index of the snapshots.
abbrev pub same_version : Snapshot → Snapshot → Bool
same_version s t = str_eq s.mediapackage_id t.mediapackage_id && s.version == t.version

abbrev pub IsNumbered : List Snapshot → Type 0
IsNumbered [] = Unit
IsNumbered (s ∷ ss) = (any (same_version s) ss ≡ false) × IsNumbered ss

pub record IsSound (db : Db) : Type 0 where
  pub keyed : IsKeyed db
  pub current : IsCurrent db
  pub numbered : IsNumbered db.snapshots

any-last :
    (q : Snapshot → Bool) (ss : List Snapshot) (n : Snapshot)
    → any q ss ≡ false
    → q n ≡ false
    → any q (ss ++ n ∷ []) ≡ false
any-last q [] n h k = rw k
any-last q (s ∷ ss) n h k = ground (arith, any-last q ss n)

-- A version above the greatest is taken by no snapshot of the event.
above-IsNumbered :
    (mp : String) (n : Snapshot) (ss : List Snapshot)
    → n.mediapackage_id ≡ mp
    → max_version mp ss < n.version
    → IsNumbered ss
    → IsNumbered (ss ++ n ∷ [])
unfolding max_version
above-IsNumbered mp n [] e h k = (refl, tt)
above-IsNumbered mp n (s ∷ ss) e h k = (
  any-last (same_version s) ss n k.0 (rw e (ground (arith, h))),
  above-IsNumbered mp n ss e (ground (arith, h)) k.1,
)

-- A mutation that is one statement, or several in a row.
abbrev pub Sound : Result Error Db → Type 0
Sound (ok after) = IsSound after
Sound (err e) = Unit {0}

snapshot_tx-Sound : (mp sha : String) (db : Db) → IsSound db → Sound (snapshot_tx mp sha db)
unfolding snapshot_tx
snapshot_tx-Sound mp sha db s = elim (Bool-cases (is_some (find_package mp db))) [
  | inr gone ↦ rw gone tt
  | inl there ↦ rw there (record {
    keyed = record { packages = s.keyed.packages; series = s.keyed.series };
    current = record {
      events_current = s.current.events_current;
      series_current = s.current.series_current;
      events_keyed = s.current.events_keyed;
    };
    numbered =
        above-IsNumbered mp (next_snapshot mp sha db) db.snapshots refl (omega arith) s.numbered;
  })
]

insert_element-Sound :
    (el : Element) (tags : List String) (db : Db)
    → IsSound db
    → Sound (insert_element false el tags db)
unfolding insert_element
insert_element-Sound el tags db s =
    elim (Bool-cases (not (is_some (find_package el.mediapackage_id db)))) [
      | inl gone ↦ rw gone tt
      | inr there ↦
          elim (Bool-cases (is_some (find_by element_key el.id db.elements) && not false)) [
            | inl taken ↦ rw there (rw taken tt)
            | inr free ↦ rw there (
                rw free (record {
                  keyed = record { packages = s.keyed.packages; series = s.keyed.series };
                  current = record {
                    events_current = s.current.events_current;
                    series_current = s.current.series_current;
                    events_keyed = s.current.events_keyed;
                  };
                  numbered = s.numbered;
                }))
          ]
    ]

-- A transaction that keeps keys and projection, and does not write snapshots.
committed-Sound :
    (r : Result Error Db) (db : Db)
    → IsKeyed (begin_func r db).1
    → IsCurrent (begin_func r db).1
    → ((after : Db) → r ≡ ok after → after.snapshots ≡ db.snapshots)
    → IsNumbered db.snapshots
    → Sound r
committed-Sound (err e) db k c h n = tt
committed-Sound (ok after) db k c h n = record {
  keyed = k;
  current = c;
  numbered = rw (h after refl) n;
}

inspect_completion-Sound :
    (mp : String) (ms : ℕ) (db : Db) → IsSound db → Sound (inspect_completion mp ms db)
unfolding inspect_completion record_duration set_duration_if_null
inspect_completion-Sound mp ms db s =
    committed-Sound (project_event mp (set_duration_if_null mp ms db)) db
      (record_duration-IsKeyed mp ms db s.keyed) (record_duration-IsCurrent mp ms db s.current)
      (λ after e. project_event-snapshots mp (set_duration_if_null mp ms db) after e) s.numbered

publish_completion-Sound :
    (fresh mp channel : String) (ids : List String) (db : Db)
    → IsSound db
    → Sound (publish_completion fresh mp channel ids db)
unfolding publish_completion publish_tx publish
publish_completion-Sound fresh mp channel ids db s =
    elim (Bool-cases (is_some (find_package mp db))) [
      | inr gone ↦ rw gone tt
      | inl there ↦
          elim (Bool-cases (all (λ id. is_some (find_by element_key id db.elements)) ids)) [
            | inr missing ↦ rw there (rw missing tt)
            | inl present ↦
                let written : Db = record db {
                  publications = put_publication (pin fresh mp channel db) db.publications;
                } in
                rw there (
                  rw present (
                    committed-Sound (project_event mp written) db
                      (rw there at (publish-IsKeyed fresh mp channel db s.keyed))
                      (rw there at (publish-IsCurrent fresh mp channel db s.current))
                      (λ after e. project_event-snapshots mp written after e) s.numbered))
          ]
    ]

pub completion_tx-Sound : (k : Completion) (db : Db) → IsSound db → Sound (completion_tx k db)
unfolding completion_tx
completion_tx-Sound (archived mp sha) db s = snapshot_tx-Sound mp sha db s
completion_tx-Sound (referenced fresh mp channel ids) db s =
    publish_completion-Sound fresh mp channel ids db s
completion_tx-Sound (inspected mp ms) db s = inspect_completion-Sound mp ms db s
completion_tx-Sound (produced el tags) db s = insert_element-Sound el tags db s
