-- ===== src/Admin/Session/Granted.antt =====
-- Who is let in: a session goes back to a login.
use doevoe.Base.{
  ℕ, ◌+◌, ◌≤◌, ◌≡◌, refl, ◌∙◌, sym, subst, inl, inr, Text, Bool, true, false, Option, none, some,
  List, [], ◌∷◌, arith, text_eq, text_eq_sound, text_eq_refl, text_eq_comm, if◌then◌else◌, ltb,
  Bool-cases,
}
use doevoe.Delivery.Message.{hex}
use doevoe.Admin.{Site, Handler}
use doevoe.Admin.Session.{
  session_time, session_of, drop_session, put_session, new_session, login, logout, authed, auth,
  guarded, authed_until,
}

-- What changes the sessions: a login attempt with its password, the random bytes and the time; a
-- logout; a request to a guarded page.
pub data Event : Type 0 where
  tried : Text → List ℕ → ℕ → Event
  left : Option Text → Event
  visited : Option Text → ℕ → Event

-- The sessions after a history, the latest event first.
unfoldable pub sessions_after : Text → List Event → List (Text × ℕ)
sessions_after expected [] = []
sessions_after expected (tried password bytes at ∷ h) =
    (login expected password bytes at (sessions_after expected h)).1
sessions_after expected (left cookie ∷ h) = (logout cookie (sessions_after expected h)).1
sessions_after expected (visited cookie at ∷ h) = (authed cookie at (sessions_after expected h)).1

-- The token was given out by a login with the right password, for a time until `expiry`, and no
-- logout with it came later.
pub data Granted (expected token : Text) (expiry : ℕ) : List Event → Type 0 where
  by_login :
      {bytes : List ℕ} {at : ℕ} {h : List Event}
      → hex bytes ≡ token
      → expiry ≡ at + session_time
      → Granted expected token expiry (tried expected bytes at ∷ h)
  after_try :
      {password : Text} {bytes : List ℕ} {at : ℕ} {h : List Event}
      → Granted expected token expiry h
      → Granted expected token expiry (tried password bytes at ∷ h)
  after_leave :
      {cookie : Option Text} {h : List Event}
      → (cookie ≡ some token → ⊥)
      → Granted expected token expiry h
      → Granted expected token expiry (left cookie ∷ h)
  after_visit :
      {cookie : Option Text} {at : ℕ} {h : List Event}
      → Granted expected token expiry h
      → Granted expected token expiry (visited cookie at ∷ h)

session_of-drop_session :
    (t token : Text) (ss : List (Text × ℕ))
    → session_of t (drop_session token ss) ≡ (if text_eq token t then none else session_of t ss)
unfolding session_of drop_session
session_of-drop_session t token [] = ground arith
session_of-drop_session t token ((k, e) ∷ ss) = elim (Bool-cases (text_eq k token)) [
  | inl dropped ↦
      rw (dropped, text_eq_sound k token dropped, session_of-drop_session t token ss) (ground arith)
  | inr stays ↦ elim (Bool-cases (text_eq k t)) [
    | inl here ↦ rw (stays, here) (rw (← text_eq_sound k t here, text_eq_comm token k, stays))
    | inr elsewhere ↦ rw (stays, elsewhere, session_of-drop_session t token ss)
  ]
]

kept_elsewhere :
    (t token : Text) (ss : List (Text × ℕ)) (expiry : ℕ)
    → session_of t (drop_session token ss) ≡ some expiry
    → (text_eq token t ≡ false) × (session_of t ss ≡ some expiry)
kept_elsewhere t token ss expiry h =
    let e = sym (session_of-drop_session t token ss) ∙ h in ground arith

module _ (expected token : Text) (expiry : ℕ) where
  other_token : (cookie : Text) → text_eq cookie token ≡ false → some cookie ≡ some token → ⊥
  other_token cookie other same =
      let e : cookie ≡ token = cc in cc (rw (e, text_eq_refl token) at other)

  login-Granted :
      (password : Text) (bytes : List ℕ) (at : ℕ) (h : List Event) (ss : List (Text × ℕ))
      → (session_of token ss ≡ some expiry → Granted expected token expiry h)
      → session_of token (login expected password bytes at ss).1 ≡ some expiry
      → Granted expected token expiry (tried password bytes at ∷ h)
  unfolding login new_session put_session session_of
  login-Granted password bytes at h ss before found =
      elim (Bool-cases (text_eq password expected)) [
        | inr wrong ↦ after_try (before (rw wrong at found))
        | inl right ↦
            let found' = rw right at found in
            elim (Bool-cases (text_eq (hex bytes) token)) [
              | inl own ↦
                  let found'' = rw own at found' in
                  subst (λ (p : Text). Granted expected token expiry (tried p bytes at ∷ h))
                    (sym (text_eq_sound password expected right))
                    (by_login (text_eq_sound (hex bytes) token own) (cc))
              | inr other ↦
                  after_try
                    (before (kept_elsewhere token (hex bytes) ss expiry (rw other at found')).1)
            ]
      ]

  logout-Granted :
      (cookie : Option Text) (h : List Event) (ss : List (Text × ℕ))
      → (session_of token ss ≡ some expiry → Granted expected token expiry h)
      → session_of token (logout cookie ss).1 ≡ some expiry
      → Granted expected token expiry (left cookie ∷ h)
  unfolding logout
  logout-Granted none h ss before found = after_leave (λ e. cc) (before found)
  logout-Granted (some c) h ss before found =
      let (other, still) = kept_elsewhere token c ss expiry found in
      after_leave (other_token c other) (before still)

  authed_until-kept :
      (c : Text) (at : ℕ) (ss : List (Text × ℕ)) (o : Option ℕ)
      → session_of token (authed_until c at ss o).1 ≡ some expiry
      → session_of token ss ≡ some expiry
  unfolding authed_until
  authed_until-kept c at ss none found = (kept_elsewhere token c ss expiry found).1
  authed_until-kept c at ss (some e) found = elim (Bool-cases (ltb e at)) [
    | inl over ↦ (kept_elsewhere token c ss expiry (rw over at found)).1
    | inr fresh ↦ rw fresh at found
  ]

  authed-kept :
      (cookie : Option Text) (at : ℕ) (ss : List (Text × ℕ))
      → session_of token (authed cookie at ss).1 ≡ some expiry
      → session_of token ss ≡ some expiry
  unfolding authed
  authed-kept none at ss found = found
  authed-kept (some c) at ss found = authed_until-kept c at ss (session_of c ss) found

  session-Granted :
      (h : List Event)
      → session_of token (sessions_after expected h) ≡ some expiry
      → Granted expected token expiry h
  unfolding sessions_after
  session-Granted [] found = unfold session_of in cc
  session-Granted (tried password bytes at ∷ h) found =
      login-Granted password bytes at h (sessions_after expected h) (session-Granted h) found
  session-Granted (left cookie ∷ h) found =
      logout-Granted cookie h (sessions_after expected h) (session-Granted h) found
  session-Granted (visited cookie at ∷ h) found =
      after_visit (session-Granted h (authed-kept cookie at (sessions_after expected h) found))

-- After any history of logins, logouts and requests from no sessions, a request is let in only with
-- a token that a login with the right password gave out, at most seven days before, and with which
-- nobody logged out since.
pub authed-Granted :
    (expected : Text) (h : List Event) (token : Text) (at : ℕ)
    → (authed (some token) at (sessions_after expected h)).0 ≡ true
    → (expiry : ℕ) × Granted expected token expiry h × (at ≤ expiry)
unfolding authed
authed-Granted expected h token at let_in =
    of_session (session_of token (sessions_after expected h)) refl let_in
  where
    of_session :
        (o : Option ℕ)
        → session_of token (sessions_after expected h) ≡ o
        → (authed_until token at (sessions_after expected h) o).0 ≡ true
        → (expiry : ℕ) × Granted expected token expiry h × (at ≤ expiry)
    of_session none e i = unfold authed_until in cc
    of_session (some expiry) e i =
        (expiry, session-Granted expected token expiry h e, unfold authed_until in ground arith)

-- A request that is not let in leaves the store as it is.
pub authed-refused :
    {Page : Type 0} (cookie : Option Text) (htmx : Bool) (at : ℕ) (handler : Handler Page)
    (site : Site)
    → (authed cookie at site.sessions).0 ≡ false
    → (auth cookie htmx at handler site).1.store ≡ site.store
unfolding auth
authed-refused {Page} cookie htmx at handler site = of_authed (authed cookie at site.sessions)
  where
    of_authed :
        (r : Bool × List (Text × ℕ))
        → r.0 ≡ false
        → (guarded htmx handler r site.store).1.store ≡ site.store
    of_authed (true, sessions) h = cc
    of_authed (false, sessions) h = unfold guarded in refl
