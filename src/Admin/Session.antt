-- ===== src/Admin/Session.antt =====
-- internal/admin/admin.go: login, logout, authed and auth. The random source and the clock are
-- arguments.
pub mod Granted
pub mod Stepwise
use doevoe.Base.{
  ℕ, ◌+◌, ◌*◌, ltb, Text, Bool, true, false, ◌&&◌, ◌||◌, not, Option, none, some, List, [], ◌∷◌,
  codes, text_eq, if◌then◌else◌, find?, select, Option-cases,
}
use doevoe.Store.{Store, hour}
use doevoe.Delivery.Message.{hex}
use doevoe.Admin.{Site, Reply, redirect, hx_redirect, page, Handler}

-- 7 * 24 * time.Hour
abbrev pub session_time : ℕ
session_time = 7 * (24 * hour)

-- a.sessions[token], delete(a.sessions, token) and a.sessions[token] = expiry
unfoldable pub session_of : Text → List (Text × ℕ) → Option ℕ
session_of token [] = none
session_of token ((t, expiry) ∷ rest) =
    if text_eq t token then some expiry else session_of token rest

unfoldable pub drop_session : Text → List (Text × ℕ) → List (Text × ℕ)
drop_session token [] = []
drop_session token ((t, expiry) ∷ rest) =
    let others = drop_session token rest in if text_eq t token then others else (t, expiry) ∷ others

unfoldable pub put_session : Text → ℕ → List (Text × ℕ) → List (Text × ℕ)
unfolding drop_session
put_session token expiry sessions = (token, expiry) ∷ drop_session token sessions

-- newSession
unfoldable pub new_session : List ℕ → ℕ → List (Text × ℕ) → List (Text × ℕ)
unfolding put_session
new_session bytes at sessions = put_session (hex bytes) (at + session_time) sessions

-- login: `password` is the form value, `expected` the configured one.
unfoldable pub login : Text → Text → List ℕ → ℕ → List (Text × ℕ) → Reply Text × List (Text × ℕ)
unfolding new_session
login expected password bytes at sessions =
    if not (text_eq password expected)
    then (page 401 (codes "Wrong password"), sessions)
    else (redirect (codes "/admin/emails"), new_session bytes at sessions)

-- logout; `none` is a request without the cookie.
unfoldable pub logout : Option Text → List (Text × ℕ) → Reply Text × List (Text × ℕ)
logout none sessions = (redirect (codes "/admin/login"), sessions)
logout (some token) sessions = (redirect (codes "/admin/login"), drop_session token sessions)

authed_until : Text → ℕ → List (Text × ℕ) → Option ℕ → Bool × List (Text × ℕ)
authed_until token at sessions none = (false, drop_session token sessions)
authed_until token at sessions (some expiry) =
    if ltb expiry at then (false, drop_session token sessions) else (true, sessions)

-- authed
unfoldable pub authed : Option Text → ℕ → List (Text × ℕ) → Bool × List (Text × ℕ)
unfolding authed_until session_of
authed none at sessions = (false, sessions)
authed (some token) at sessions = authed_until token at sessions (session_of token sessions)

guarded {ℓ} :
    {Page : Type ℓ} → Bool → Handler Page → Bool × List (Text × ℕ) → Store → Reply Page × Site
guarded htmx handler (true, sessions) s =
    let (reply, s') = handler s in (reply, record { store = s'; sessions = sessions })
guarded htmx handler (false, sessions) s = (
  if htmx then hx_redirect (codes "/admin/login") else redirect (codes "/admin/login"),
  record { store = s; sessions = sessions },
)

-- auth; `htmx` is whether the header HX-Request is "true".
unfoldable pub auth {ℓ} :
    {Page : Type ℓ} → Option Text → Bool → ℕ → Handler Page → Site → Reply Page × Site
unfolding guarded
auth cookie htmx at handler site = guarded htmx handler (authed cookie at site.sessions) site.store
