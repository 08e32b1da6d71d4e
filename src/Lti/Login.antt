-- ===== src/Lti/Login.antt =====
-- `Login` of internal/lti/launch.go.
use gophercast.Prelude.{
  ℕ, String, Bool, ◌||◌, Option, none, some, List, [], ◌∷◌, if◌then◌else◌, Result, ok, err, str_eq,
}
use Prim.Native.String.{◌++◌}
use gophercast.Lti.Registry.{Platform, LookupError, lookup}
use gophercast.Lti.Store.{Kind, state_value, nonce_value, StoreError, FlowStore, Op, run_ops}

-- The parameters of the request; absent ones are empty.
pub record LoginForm : Type 0 where
  pub iss : String
  pub login_hint : String
  pub client_id : String
  pub message_hint : String

-- How the request came in.
pub record Origin : Type 0 where
  pub tls : Bool
  pub forwarded_proto : String
  pub host : String

-- The fresh values, the order in which they are minted, which Go leaves open, when, and what other
-- sessions do in between.
pub record Minting : Type 0 where
  pub state : String
  pub nonce : String
  pub nonce_first : Bool
  pub first_at : ℕ
  pub others : List Op
  pub second_at : ℕ

-- The cookie with the state; it lives as long as the values and is for the path of the tool.
pub record StateCookie : Type 0 where
  pub value : String
  pub max_age : ℕ
  pub secure : Bool

-- An error's status, or a redirect to an endpoint with a query.
pub data Answer : Type 0 where
  refused : ℕ → Answer
  redirect : String → List (String × String) → StateCookie → Answer

abbrev pub is_https : Origin → Bool
is_https r = r.tls || str_eq r.forwarded_proto "https"

unfoldable pub redirect_uri : String → Origin → String
redirect_uri path r =
    (if is_https r then "https" else "http")
    ++ ("://" ++ (r.host ++ (if str_eq path "" then "/lti/launch" else path)))

-- `flowTTL`, ten minutes, in nanoseconds and in seconds.
abbrev pub flow_ttl : ℕ
flow_ttl = 600000000000

abbrev pub flow_seconds : ℕ
flow_seconds = 600

-- The query in the order of its names, as it is encoded.
abbrev pub hint : String → List (String × String) → List (String × String)
hint h rest = if str_eq h "" then rest else ("lti_message_hint", h) ∷ rest

unfoldable pub query : String → LoginForm → Origin → Minting → Platform → List (String × String)
unfolding redirect_uri
query path f r m p =
    ("client_id", p.client_id)
    ∷ ("login_hint", f.login_hint)
    ∷ hint f.message_hint (
        ("nonce", m.nonce)
        ∷ ("prompt", "none")
        ∷ ("redirect_uri", redirect_uri path r)
        ∷ ("response_mode", "form_post")
        ∷ ("response_type", "id_token")
        ∷ ("scope", "openid")
        ∷ ("state", m.state)
        ∷ [])

module _ {S : Type 0} (registry : List Platform) (store : FlowStore S) (path : String) where
  abbrev pub mint_second : Minting → Kind → String → Option StoreError × S → Option StoreError × S
  mint_second m k v (some e, st) = (some e, st)
  mint_second m k v (none, st) = store.mint m.second_at k v flow_ttl (run_ops store m.others st)

  abbrev pub mint_both : Minting → S → Option StoreError × S
  mint_both m st =
      if m.nonce_first
      then mint_second m state_value m.state (store.mint m.first_at nonce_value m.nonce flow_ttl st)
      else mint_second m nonce_value m.nonce (store.mint m.first_at state_value m.state flow_ttl st)

  abbrev pub answer_minted :
      LoginForm → Origin → Minting → Platform → Option StoreError × S → Answer × S
  answer_minted f r m p (some e, st) = (refused 500, st)
  answer_minted f r m p (none, st) = (
    redirect p.auth_endpoint (query path f r m p)
        (record { value = m.state; max_age = flow_seconds; secure = is_https r }),
    st,
  )

  abbrev pub login_at : LoginForm → Origin → Minting → Result LookupError Platform → S → Answer × S
  login_at f r m (err e) st = (refused 403, st)
  login_at f r m (ok p) st = answer_minted f r m p (mint_both m st)

  -- The form is `none` where it cannot be parsed.
  unfoldable pub login : Option LoginForm → Origin → Minting → S → Answer × S
  unfolding query
  login none r m st = (refused 400, st)
  login (some f) r m st =
      if str_eq f.iss "" || str_eq f.login_hint ""
      then (refused 400, st)
      else login_at f r m (lookup registry f.iss f.client_id) st
