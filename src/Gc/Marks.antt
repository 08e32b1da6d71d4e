-- ===== src/Gc/Marks.antt =====
-- internal/gc/gc.go: the mark set and the recheck of one digest, which ask the same tables.
use gophercast.Prelude.{
  String, ◌≡◌, refl, Bool, ◌||◌, Option, none, some, List, [], ◌∷◌, ◌++◌, arith, str_eq, any, ok,
}
use gophercast.Gc.Sweep.{
  Snapshot, Refs, in_snapshot, names_source, exists_in_map, exists_in, mark_exists, manifests,
  source_of, sources, urls_of, mark_of, mark_set,
}

any-append :
    {A : Type 0} (p : A → Bool) (xs ys : List A) → any p (xs ++ ys) ≡ (any p xs || any p ys)
any-append p [] ys = refl
any-append p (x ∷ xs) ys = ground (arith, any-append p xs ys)

any-source_of :
    (sha : String) (s : Option String) → any (str_eq sha) (source_of s) ≡ names_source sha s
any-source_of sha none = refl
any-source_of sha (some s) = ground arith

snapshots_marked :
    (sha : String) (snaps : List Snapshot)
    → any (in_snapshot sha) snaps
      ≡ (any (str_eq sha) (manifests snaps) || any (str_eq sha) (sources snaps))
snapshots_marked sha [] = refl
snapshots_marked sha (s ∷ ss) = ground (
  arith,
  snapshots_marked sha ss,
  any-source_of sha s.source_manifest_sha256,
  any-append (str_eq sha) (source_of s.source_manifest_sha256) (sources ss),
)

exists_in_map-urls_of :
    (sha : String) (u : Option (List String))
    → exists_in_map (urls_of u).1 u sha ≡ some (any (str_eq sha) (urls_of u).0)
exists_in_map-urls_of sha none = refl
exists_in_map-urls_of sha (some urls) = refl

all_marked :
    (sha : String) (els : List String) (snaps : List Snapshot) (urls : List String)
    → any (str_eq sha) (els ++ (manifests snaps ++ (sources snaps ++ urls)))
      ≡ ((any (str_eq sha) els || any (in_snapshot sha) snaps) || any (str_eq sha) urls)
all_marked sha els snaps urls = ground (
  arith,
  any-append (str_eq sha) els (manifests snaps ++ (sources snaps ++ urls)),
  any-append (str_eq sha) (manifests snaps) (sources snaps ++ urls),
  any-append (str_eq sha) (sources snaps) urls,
  snapshots_marked sha snaps,
)

mark_of-exists_in :
    (els : Option (List String)) (snaps : Option (List Snapshot)) (u : Option (List String))
    (mark : List String) (m : Bool)
    → mark_of els snaps u ≡ ok (mark, m)
    → (sha : String) → exists_in m els snaps u sha ≡ some (any (str_eq sha) mark)
mark_of-exists_in none snaps u mark m h sha = ground arith
mark_of-exists_in (some els) none u mark m h sha = ground arith
mark_of-exists_in (some els) (some snaps) u mark m h sha =
    ground (arith, exists_in_map-urls_of sha u, all_marked sha els snaps (urls_of u).0)

-- Where the mark set can be read, a digest is in it exactly if the recheck, run against the same
-- tables, finds the digest referenced.
pub mark_set-mark_exists :
    (refs : Refs) (mark : List String) (m : Bool)
    → mark_set refs ≡ ok (mark, m)
    → (sha : String) → mark_exists m refs sha ≡ some (any (str_eq sha) mark)
unfolding mark_set mark_exists
mark_set-mark_exists refs mark m h sha =
    mark_of-exists_in refs.mp_element refs.mp_snapshot refs.migration_url_map mark m h sha
