-- ===== src/Search/Listing.antt =====
-- The queries of internal/search/query.go against the authorization decision of internal/acl and
-- the delivery of internal/serve.
use mathlib.Core.Bool.{false≢true}
use gophercast.Prelude.{
  String, ◌≡◌, refl, sym, ap, ◌∙◌, Bool, true, false, ◌&&◌, ◌||◌, Option, none, some, List, [], ◌∷◌,
  map, Result, ok, err, arith, inl, inr, str_eq, eq_iff, Bool-cases, Option-cases, any, keep, Memᴰ,
}
use gophercast.Prelude.Table.{find_by-key}
use gophercast.Text.{Codes}
use gophercast.Acl.Policy as Policy
use gophercast.Acl.Policy.{Entry, EntryRow, State, populated, event, in_scope, evaluate}
use gophercast.Acl.Decision.{grants, vetoes, permitted}
use gophercast.Acl.Storage.{evaluate-get}
use gophercast.Search.Rows.{Package, EventRow, Db, package_key}
use gophercast.Search.Project.{
  is_some, holds, is_allow, is_deny, find_package, find_event, event_row, event_row_of,
}
use gophercast.Search.Current.{live_row, IsCurrent}
use gophercast.Search.Query.{
  admin_events, api_events, engage_episode, Roles, split_roles, prune, overlap, granted, QueryError,
  event_clause, event_visibility, place, episode_grant,
}
use gophercast.Search.Visibility.{
  any_witness, any_of_mem, any-map, holds-mem, role_may, is_known, holds-prune, allowed_overlap,
}
use gophercast.Serve.Authz.{Principal, is_admin, PublicationPin, authorized, authorized-admits}

-- The entries of an event's policy.
abbrev pub policy_of_event : String → Db → List EntryRow
policy_of_event id db = keep (in_scope event id) db.acl.entries

current_row :
    (id : String) (r : EventRow) (db : Db)
    → IsCurrent db
    → find_event id db ≡ some r
    → (mp : Package) × (find_package id db ≡ some mp) × (r ≡ event_row db mp)
current_row id r db c g = elim (Option-cases (find_package id db)) [
  | inl f ↦
      let e : live_row (λ mp. event_row db mp) none ≡ some r =
        ap (live_row (λ mp. event_row db mp)) (sym f) ∙ sym (c.events_current id) ∙ g in
      absurd (cc)
  | inr (mp, f) ↦
      let e : live_row (λ p. event_row db p) (some mp) ≡ some r =
        ap (live_row (λ p. event_row db p)) (sym f) ∙ sym (c.events_current id) ∙ g in
      (
        mp,
        f,
        elim (Bool-cases (is_some mp.deleted_at)) [
          | inl gone ↦ absurd (ground arith)
          | inr live ↦ ground arith
        ],
      )
]

-- Some of the roles is allowed the action by the event's policy and is not denied it.
abbrev pub some_role_may : String → String → Db → List String → Bool
some_role_may action id db = any (role_may action (policy_of_event id db))

abbrev pub sees : EventRow → Result QueryError (EventRow → Bool) → Result QueryError Bool
sees r (ok f) = ok (f r)
sees r (err e) = err e

array-policy :
    (id : String) (r : EventRow) (roles : List String) (db : Db)
    → IsCurrent db
    → find_event id db ≡ some r
    → (r.mediapackage_id ≡ id)
      × (overlap r.acl_read (prune db.acl.entries roles) ≡ some_role_may "read" id db roles)
      × (overlap r.acl_write (prune db.acl.entries roles) ≡ some_role_may "write" id db roles)
unfolding event_row_of
array-policy id r roles db c g =
    let (mp, f, e) = current_row id r db c g in
    let named : mp.id ≡ id = find_by-key package_key id db.packages mp f in
    rw e (
      rw named (
        refl,
        allowed_overlap "read" id roles db.acl.entries,
        allowed_overlap "write" id roles db.acl.entries,
      ))

-- For a principal that is no administrator, with the projection current, an event is listed on the
-- API surface exactly where one of the plain roles may read by the event's policy, or its read
-- grant is held; on the admin surface exactly where that holds for reading and for writing.
-- Pruning the roles hides nothing there.
pub visibility-policy :
    (id : String) (r : EventRow) (p : Principal) (db : Db)
    → IsCurrent db
    → find_event id db ≡ some r
    → is_admin p ≡ false
    → let held = split_roles p.roles in
      let reads = some_role_may "read" id db held.plain || granted id held.episode_read in
      let writes = some_role_may "write" id db held.plain || granted id held.episode_write in
      (sees r (event_visibility db p api_events) ≡ ok reads)
      × (sees r (event_visibility db p admin_events) ≡ ok (reads && writes))
unfolding event_visibility event_clause
visibility-policy id r p db c g plain_user =
    let (n, reads, writes) = array-policy id r (split_roles p.roles).plain db c g in
    rw plain_user (rw (n, reads, writes) (refl, refl))

-- What `Get` and `Evaluate` of internal/acl decide about an event.
abbrev pub decision : (Entry → Entry → Bool) → String → String → Db → List String → Bool
decision le action id db roles =
    let (es, state) = Policy.get le event id db.acl in evaluate es state roles action

unvetoed-role :
    (roles : List String) (action r : String) (rows : List EntryRow)
    → Memᴰ r roles
    → any (λ (a : EntryRow). vetoes roles action a.entry) rows ≡ false
    → any (is_deny r action) rows ≡ false
unvetoed-role roles action r rows m h = elim (Bool-cases (any (is_deny r action) rows)) [
  | inr none_denies ↦ none_denies
  | inl denied ↦
      let (d, n, k) = any_witness (is_deny r action) rows denied in
      let same : d.entry.role ≡ r = (eq_iff d.entry.role r).0 (ground arith) in
      let held : Policy.holds roles d.entry.role ≡ true = rw same (holds-mem r roles m) in
      absurd (
        false≢true (
          sym h ∙ any_of_mem (λ (a : EntryRow). vetoes roles action a.entry) rows n (ground arith)))
]

granting-role :
    (roles : List String) (action : String) (rows : List EntryRow)
    → permitted roles action (map (λ r. r.entry) rows) ≡ true
    → any (role_may action rows) roles ≡ true
granting-role roles action rows h =
    let entry = λ (r : EntryRow). r.entry in
    let allowed : any (λ (a : EntryRow). grants roles action a.entry) rows ≡ true =
      sym (any-map (grants roles action) entry rows) ∙ (ground arith) in
    let unvetoed : any (λ (a : EntryRow). vetoes roles action a.entry) rows ≡ false =
      sym (any-map (vetoes roles action) entry rows) ∙ (ground arith) in
    let (a, m, k) = any_witness (λ (a : EntryRow). grants roles action a.entry) rows allowed in
    let (r, n, e) = any_witness (str_eq a.entry.role) roles (ground arith) in
    let same : a.entry.role ≡ r = (eq_iff a.entry.role r).0 e in
    let matched : str_eq a.entry.role r ≡ true = e in
    let grant : any (λ (b : EntryRow). str_eq b.entry.role r && is_allow action b.entry) rows
        ≡ true =
      any_of_mem (λ (b : EntryRow). str_eq b.entry.role r && is_allow action b.entry) rows m
        (ground arith) in
    any_of_mem (role_may action rows) roles n
      (rw (grant, unvetoed-role roles action r rows n unvetoed))

-- The listing hides nothing from whom the decision admits: for a principal with no episode role
-- and no administrator's, an event that `Evaluate` lets it read is listed on the API surface.
pub evaluate-listed :
    (le : Entry → Entry → Bool) (id : String) (r : EventRow) (p : Principal) (db : Db)
    → IsCurrent db
    → find_event id db ≡ some r
    → is_admin p ≡ false
    → (split_roles p.roles).plain ≡ p.roles
    → decision le "read" id db p.roles ≡ true
    → sees r (event_visibility db p api_events) ≡ ok true
evaluate-listed le id r p db c g user plain h =
    let permits : permitted p.roles "read" (map (λ a. a.entry) (policy_of_event id db)) ≡ true =
      let e = evaluate-get le event id db.acl p.roles "read" in ground arith in
    let may : some_role_may "read" id db (split_roles p.roles).plain ≡ true =
      rw plain (granting-role p.roles "read" (policy_of_event id db) permits) in
    (visibility-policy id r p db c g user).0 ∙ rw may

-- The listing is wider than the decision: where one held role may read an event and an entry denies
-- it to another held role, `Evaluate` refuses, and the API surface lists the event.
pub listed-not-evaluate :
    (le : Entry → Entry → Bool) (id a b : String) (r : EventRow) (p : Principal) (db : Db)
    → IsCurrent db
    → find_event id db ≡ some r
    → is_admin p ≡ false
    → (split_roles p.roles).plain ≡ p.roles
    → Memᴰ a p.roles
    → Memᴰ b p.roles
    → role_may "read" (policy_of_event id db) a ≡ true
    → any (is_deny b "read") (policy_of_event id db) ≡ true
    → (decision le "read" id db p.roles ≡ false)
      × (sees r (event_visibility db p api_events) ≡ ok true)
listed-not-evaluate le id a b r p db c g user plain ma mb may denied =
    let rows = policy_of_event id db in
    let (d, n, k) = any_witness (is_deny b "read") rows denied in
    let same : d.entry.role ≡ b = (eq_iff d.entry.role b).0 (ground arith) in
    let held : Policy.holds p.roles d.entry.role ≡ true = rw same (holds-mem b p.roles mb) in
    let veto : any (λ (e : EntryRow). vetoes p.roles "read" e.entry) rows ≡ true =
      any_of_mem (λ (e : EntryRow). vetoes p.roles "read" e.entry) rows n (ground arith) in
    let vetoed = any-map (vetoes p.roles "read") (λ (e : EntryRow). e.entry) rows ∙ veto in
    let refused = evaluate-get le event id db.acl p.roles "read" in
    let listed : some_role_may "read" id db (split_roles p.roles).plain ≡ true =
      rw plain (any_of_mem (role_may "read" rows) p.roles ma may) in
    (refused ∙ rw vetoed (ground arith), (visibility-policy id r p db c g user).0 ∙ rw listed)

plain-place :
    (x r : String) (a b : Option Codes) (rest : Roles)
    → holds x (place r a b rest).plain ≡ true
    → (holds x (r ∷ rest.plain)) ≡ true
plain-place x r (some id) w rest h = ground arith
plain-place x r none (some id) rest h = ground arith
plain-place x r none none rest h = h

plain-held :
    (x : String) (rs : List String) → holds x (split_roles rs).plain ≡ true → holds x rs ≡ true
unfolding split_roles
plain-held x [] h = h
plain-held x (r ∷ rs) h =
    let here : holds x (r ∷ (split_roles rs).plain) ≡ true =
      plain-place x r (episode_grant "_READ" r) (episode_grant "_WRITE" r) (split_roles rs) h in
    ground (arith, plain-held x rs)

-- An array of roles that no policy names is met by nobody.
unmet :
    (array roles : List String) (entries : List EntryRow)
    → any (is_known entries) roles ≡ false
    → overlap array (prune entries (split_roles roles).plain) ≡ false
unmet array roles entries unknown =
    elim (Bool-cases (overlap array (prune entries (split_roles roles).plain))) [
      | inr e ↦ e
      | inl met ↦
          let (x, m, k) =
            any_witness (λ x. holds x (prune entries (split_roles roles).plain)) array met in
          let both : (holds x (split_roles roles).plain && is_known entries x) ≡ true =
            sym (holds-prune x entries (split_roles roles).plain) ∙ k in
          let (y, n, e) = any_witness (str_eq x) roles (plain-held x roles (ground arith)) in
          let known : is_known entries y ≡ true = rw (← (eq_iff x y).0 e) (ground arith) in
          absurd (false≢true (sym unknown ∙ any_of_mem (is_known entries) roles n known))
    ]

-- The pins are pruned as well: where no entry of any policy names a role that the principal holds,
-- an episode is not listed on the engage surface, though a publication whose pin is the row's is
-- delivered to it.
pub pin_hidden :
    (r : EventRow) (p : Principal) (db : Db) (state : String)
    → is_admin p ≡ false
    → any (is_known db.acl.entries) p.roles ≡ false
    → granted r.mediapackage_id (split_roles p.roles).episode_read ≡ false
    → any (Policy.holds p.roles) r.pub_read ≡ true
    → let pin : PublicationPin = record {
      mediapackage_id = r.mediapackage_id;
      channel = "engage-player";
      acl_read = r.pub_read;
      acl_state = state;
    } in
      (sees r (event_visibility db p engage_episode) ≡ ok false) × (authorized (pin ∷ []) p ≡ true)
unfolding event_visibility event_clause
pin_hidden r p db state user unknown ungranted pinned = (
  rw user (rw (unmet r.pub_read p.roles db.acl.entries unknown) (rw ungranted)),
  authorized-admits _ p ∙ rw pinned (ground arith),
)
