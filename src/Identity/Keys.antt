-- ===== src/Identity/Keys.antt =====
-- internal/jose/fetch.go: the signing keys that a URL publishes, and their cache.
use gophercast.Prelude.{
  ℕ, ◌-◌, ◌==◌, ltb, ◌≡◌, refl, sym, ap, ◌∙◌, String, Bool, false, Option, none, some, List, [],
  ◌∷◌, if◌then◌else◌, str_eq, eq_iff, inl, inr, Bool-cases, Option-cases,
}
use gophercast.Prelude.Table.{find_by, put_by, find_by-put_by}
use gophercast.Text.{Codes}
use gophercast.Identity.Jws.{PublicKey, Keys, Jwk, parse_jwks}

pub record CachedSet : Type 0 where
  pub url : String
  pub keys : Keys
  pub fetched : ℕ

abbrev pub Cache : Type 0
Cache = List CachedSet

abbrev pub set_url : CachedSet → String
set_url c = c.url

-- One call of `Key`: when it reads the cache, what the URL answers (a document, or any failure), what
-- other calls make of the cache meanwhile, and when the answer is stored.
pub record Fetching : Type 0 where
  pub now : ℕ
  pub answer : Option (List Jwk)
  pub others : Cache → Cache
  pub later : ℕ

-- `keys[kid]`
unfoldable pub key_at : String → Keys → Option PublicKey
key_at kid [] = none
key_at kid ((k, key) ∷ keys) = if str_eq k kid then some key else key_at kid keys

abbrev pub cached_key : String → Option CachedSet → Option PublicKey
cached_key kid none = none
cached_key kid (some set) = key_at kid set.keys

-- Five minutes by default, in nanoseconds.
abbrev pub cache_ttl : ℕ → ℕ
cache_ttl ttl = if ttl == 0 then 300000000000 else ttl

abbrev pub is_fresh : ℕ → ℕ → Option CachedSet → Bool
is_fresh now ttl none = false
is_fresh now ttl (some set) = ltb (now - set.fetched) (cache_ttl ttl)

module _ (decode : Codes → Option Codes) (ttl : ℕ) (f : Fetching) (url kid : String) where
  abbrev pub refetch : Cache → Option PublicKey → Option (List Jwk) → Option PublicKey × Cache
  refetch cache cached none = (cached, f.others cache)
  refetch cache cached (some doc) =
      let keys = parse_jwks decode doc [] in
      (
        key_at kid keys,
        put_by set_url (record { url = url; keys = keys; fetched = f.later }) (f.others cache),
      )

  abbrev pub or_refetch : Cache → Option PublicKey → Option PublicKey → Option PublicKey × Cache
  or_refetch cache (some key) cached = (some key, cache)
  or_refetch cache none cached = refetch cache cached f.answer

  unfoldable pub fetch_key : Cache → Option PublicKey × Cache
  unfolding key_at
  fetch_key cache =
      let set = find_by set_url url cache in
      let cached = cached_key kid set in
      or_refetch cache (if is_fresh f.now ttl set then cached else none) cached

-- What is cached was published, for any record `P` of which URL published which key under which kid.
abbrev pub Published : (String → String → PublicKey → Type 0) → Cache → Type 0
Published P cache =
    (url kid : String) (key : PublicKey)
    → cached_key kid (find_by set_url url cache) ≡ some key
    → P url kid key

none_is_not {ℓ} : {A : Type ℓ} {a : A} → none ≡ some a → ⊥
none_is_not h = cc

-- The documents that the URL answers with.
abbrev pub Answers :
    (String → String → PublicKey → Type 0) → (Codes → Option Codes) → String → Fetching → Type 0
Answers P decode url f =
    (kid : String) (doc : List Jwk) (key : PublicKey)
    → f.answer ≡ some doc
    → key_at kid (parse_jwks decode doc []) ≡ some key
    → P url kid key

module _ (P : String → String → PublicKey → Type 0) (decode : Codes → Option Codes) (ttl : ℕ)
    (f : Fetching) (url kid : String) (key : PublicKey) (cache : Cache) (known : Published P cache)
    (answers : Answers P decode url f) where
  refetch-Published :
      (refetch decode ttl f url kid cache (cached_key kid (find_by set_url url cache)) f.answer).0
        ≡ some key
      → P url kid key
  refetch-Published h = elim (Option-cases f.answer) [
    | inl e ↦ known url kid key (rw e at h)
    | inr (doc, e) ↦ answers kid doc key e (rw e at h)
  ]

  fresh-Published :
      (o : Option PublicKey)
      → ((k : PublicKey) → o ≡ some k → cached_key kid (find_by set_url url cache) ≡ some k)
      → (or_refetch decode ttl f url kid cache o (cached_key kid (find_by set_url url cache))).0
        ≡ some key
      → P url kid key
  fresh-Published none sound h = refetch-Published h
  fresh-Published (some k) sound h = known url kid key (sound k refl ∙ h)

  -- A key that is returned was published at the URL under the kid: it is in the answer of this call, or
  -- was in the cache.
  pub fetch_key-Published : (fetch_key decode ttl f url kid cache).0 ≡ some key → P url kid key
  unfolding fetch_key
  fetch_key-Published h =
      fresh-Published
        (if is_fresh f.now ttl (find_by set_url url cache)
          then cached_key kid (find_by set_url url cache)
          else none)
        (λ k e. elim (Bool-cases (is_fresh f.now ttl (find_by set_url url cache))) [
          | inl y ↦ rw y at e
          | inr n ↦ absurd (none_is_not (rw n at e))
        ])
        h

-- The cache still holds published keys, if the other calls keep it so.
pub fetch_key-cache :
    (P : String → String → PublicKey → Type 0) (decode : Codes → Option Codes) (ttl : ℕ)
    (f : Fetching) (url kid : String) (cache : Cache)
    → Published P cache
    → Answers P decode url f
    → Published P (f.others cache)
    → Published P (fetch_key decode ttl f url kid cache).1
unfolding fetch_key
fetch_key-cache P decode ttl f url kid cache known answers kept =
    elim (Option-cases (
      if is_fresh f.now ttl (find_by set_url url cache)
      then cached_key kid (find_by set_url url cache)
      else none)) [
        | inr (k, e) ↦ rw e known
        | inl e ↦ rw e (elim (Option-cases f.answer) [
          | inl n ↦ rw n kept
          | inr (doc, a) ↦ rw a (stored doc a)
        ])
      ]
  where
    stored :
        (doc : List Jwk)
        → f.answer ≡ some doc
        → Published P (
            put_by set_url
              (record { url = url; keys = parse_jwks decode doc []; fetched = f.later })
              (f.others cache))
    stored doc a u i k h =
        let row : CachedSet = record {
          url = url;
          keys = parse_jwks decode doc [];
          fetched = f.later;
        } in
        let found = ap (cached_key i) (sym (find_by-put_by set_url u row (f.others cache))) ∙ h in
        elim (Bool-cases (str_eq url u)) [
          | inl e ↦ rw (← (eq_iff url u).0 e) (answers i doc k a (rw e at found))
          | inr e ↦ kept u i k (rw e at found)
        ]
