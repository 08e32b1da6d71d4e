-- ===== src/Lti/Session.antt =====
-- The handler `Launch` of internal/lti/launch.go with the hook `LTISessionOnLaunch` of
-- internal/authn/session.go.
use Prim.Native.String.{◌++◌}
use gophercast.Prelude.{
  ℕ, String, Bool, not, Option, none, some, List, map, if◌then◌else◌, Result, ok, err, str_eq,
}
use gophercast.Text.{Codes, text_of}
use gophercast.Identity.Roles.{Launch, map_roles}
use gophercast.Identity.Session.{SessionCodec, SessionError, lifetime, mint}
use gophercast.Identity.Keys.{Cache}
use gophercast.Lti.Login.{Origin, is_https}
use gophercast.Lti.Launch.{Refusal, Service, Course, Posted, validate}

-- A status, or the session cookie with a redirect.
pub data Response : Type 0 where
  status : ℕ → Response
  session : Codes → ℕ → Bool → String → Response

-- Path and query of a URL, as `url.Parse` reads them.
abbrev pub UrlParser : Type 0
UrlParser = String → Option (String × String)

abbrev pub target_of : Option (String × String) → String
target_of none = "/"
target_of (some (path, query)) =
    if str_eq path "" then "/" else (if str_eq query "" then path else path ++ ("?" ++ query))

-- The roles of the launch, as texts.
unfoldable pub launch_roles : Launch → List String
launch_roles l = map text_of (map_roles l)

abbrev pub answer_minted :
    SessionCodec → UrlParser → Origin → Launch → Result SessionError Codes → Response
answer_minted c parse r l (err e) = status 500
answer_minted c parse r l (ok value) =
    session value (lifetime c.ttl) (is_https r) (target_of (parse l.target_link_uri))

unfoldable pub on_launch : SessionCodec → UrlParser → Origin → Launch → Response
unfolding launch_roles
on_launch c parse r l = answer_minted c parse r l (mint c l.subject (launch_roles l))

-- A launch request: whether it is a POST, what it posts if that can be parsed, and its origin.
pub record LaunchRequest : Type 0 where
  pub is_post : Bool
  pub posted : Option Posted
  pub origin : Origin

module _ {S : Type 0} (s : Service S) (c : Course)
    (hook : Option (Origin → Launch → Response)) where
  abbrev pub run_hook : Option (Origin → Launch → Response) → Origin → Launch → Response
  run_hook none r l = status 200
  run_hook (some h) r l = h r l

  abbrev pub answer_launch : Origin → Result Refusal Launch × (S × Cache) → Response × (S × Cache)
  answer_launch r (err e, after) = (status 401, after)
  answer_launch r (ok l, after) = (run_hook hook r l, after)

  abbrev pub launch_posted : Origin → Option Posted → S → Cache → Response × (S × Cache)
  launch_posted r none st cache = (status 400, (st, cache))
  launch_posted r (some p) st cache = answer_launch r (validate s c p st cache)

  unfoldable pub launch : LaunchRequest → S → Cache → Response × (S × Cache)
  launch r st cache =
      if not r.is_post then (status 405, (st, cache)) else launch_posted r.origin r.posted st cache
