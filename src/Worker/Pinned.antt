-- ===== src/Worker/Pinned.antt =====
-- From a publication of internal/ops to the delivery of internal/serve.
use gophercast.Prelude.{
  String, ◌≡◌, refl, ap, ◌∙◌, true, false, ◌||◌, some, List, [], ◌∷◌, ok, err, arith, inl, inr,
  str_eq, str_eq_refl, eq_iff, Bool-cases, any, all, find?,
}
use gophercast.Prelude.Table.{find_by}
use gophercast.Acl.Policy as Policy
use gophercast.Acl.Policy.{event, in_scope, absent, empty, populated}
use gophercast.Serve.Authz.{
  Principal, PublicationPin, is_admin, episode_role, authorized, authorized-plain,
}
use gophercast.Search.Rows.{Publication, Db}
use gophercast.Search.Project.{holds, is_some, allowed_roles, find_package, foreign_key}
use gophercast.Search.Settled.{project_event-tables}
use gophercast.Search.Visibility.{
  any_witness, any_of_mem, true_iff, holds-mem, role_may, holds-allowed_roles,
}
use gophercast.Search.Listing.{some_role_may, policy_of_event}
use gophercast.Mediapackage.Metadata.{is_pin, put_publication, pin, publish_tx}
use gophercast.Mediapackage.Materialise.{element_key}
use gophercast.Worker.Completions.{publish_completion}

-- Some of the ones is among the others.
meets : (xs ys : List String) → any (λ a. holds a ys) xs ≡ true → any (λ b. holds b xs) ys ≡ true
meets xs ys h =
    let (a, m, k) = any_witness (λ a. holds a ys) xs h in
    let (b, n, e) = any_witness (str_eq a) ys k in
    any_of_mem (λ b. holds b xs) ys n (rw (← (eq_iff a b).0 e) (holds-mem a xs m))

any-allowed_roles :
    (action : String) (es : List Policy.EntryRow) (roles : List String)
    → any (λ r. holds r (allowed_roles action es)) roles ≡ any (role_may action es) roles
any-allowed_roles action es [] = refl
any-allowed_roles action es (r ∷ roles) =
    rw (holds-allowed_roles r action es, any-allowed_roles action es roles)

-- A pin that was put is found, with the id of the row that it replaced, if any.
pinned :
    (n : Publication) (ps : List Publication)
    → (id : String) × (find? (is_pin n.mediapackage_id n.channel) (put_publication n ps)
        ≡ some (record n { id = id }))
unfolding put_publication
pinned n [] = (n.id, rw (str_eq_refl n.mediapackage_id, str_eq_refl n.channel))
pinned n (p ∷ ps) = elim (Bool-cases (is_pin n.mediapackage_id n.channel p)) [
  | inl e ↦ (p.id, rw e (rw (str_eq_refl n.mediapackage_id, str_eq_refl n.channel)))
  | inr e ↦ let (id, f) = pinned n ps in (id, rw e (rw e f))
]

-- The text of the column `acl_state`.
abbrev state_text : Policy.State → String
state_text absent = "ABSENT"
state_text empty = "EMPTY"
state_text populated = "POPULATED"

-- The publication as delivery reads it.
abbrev pub delivered_pin : Publication → PublicationPin
delivered_pin p = record {
  mediapackage_id = p.mediapackage_id;
  channel = p.channel;
  acl_read = p.acl_read;
  acl_state = state_text p.acl_state;
}

published_db :
    (fresh mp channel : String) (ids : List String) (db after : Db)
    → publish_completion fresh mp channel ids db ≡ ok after
    → after.publications ≡ put_publication (pin fresh mp channel db) db.publications
unfolding publish_completion publish_tx
published_db fresh mp channel ids db after h = elim (Bool-cases (is_some (find_package mp db))) [
  | inr gone ↦ let e : err foreign_key ≡ ok after = rw gone at h in absurd (cc)
  | inl there ↦ elim (Bool-cases (all (λ id. is_some (find_by element_key id db.elements)) ids)) [
    | inr missing ↦ let e : err foreign_key ≡ ok after = rw (there, missing) at h in absurd (cc)
    | inl present ↦
        let (evs, rows, e) = project_event-tables mp _ after (rw (there, present) at h) in
        ap (λ d. d.publications) e
  ]
]

-- A publication that commits pins the policy as it is then: by the pin of its row, delivery admits a
-- principal that is no administrator exactly if one of its roles may read by the event's policy at
-- the commit, or it holds the read role of the event.
pub publish_completion-authorized :
    (fresh mp channel : String) (ids : List String) (db after : Db) (p : Principal)
    → publish_completion fresh mp channel ids db ≡ ok after
    → is_admin p ≡ false
    → (row : Publication) × (find? (is_pin mp channel) after.publications ≡ some row)
      × (authorized (delivered_pin row ∷ []) p
          ≡ (some_role_may "read" mp db p.roles || Policy.holds p.roles (episode_role mp)))
unfolding pin
publish_completion-authorized fresh mp channel ids db after p h plain =
    let (id, f) = pinned (pin fresh mp channel db) db.publications in
    let row : Publication = record (pin fresh mp channel db) { id = id } in
    let roles = allowed_roles "read" (policy_of_event mp db) in
    let same : any (Policy.holds p.roles) roles ≡ some_role_may "read" mp db p.roles =
      true_iff (any (λ a. holds a p.roles) roles) (any (λ b. holds b roles) p.roles)
        (meets roles p.roles) (meets p.roles roles)
      ∙ any-allowed_roles "read" (policy_of_event mp db) p.roles in
    (
      row,
      rw (published_db fresh mp channel ids db after h) f,
      authorized-plain (delivered_pin row ∷ []) p plain ∙ rw same (ground arith),
    )
