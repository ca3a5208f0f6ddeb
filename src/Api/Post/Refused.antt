-- ===== src/Api/Post/Refused.antt =====
-- postEmail without an API key.
use doevoe.Base.{◌≡◌, none, some}
use doevoe.Store.{Store}
use doevoe.Api.Requests.{Env, Request, Authed, auth}
use doevoe.Api.Requests.Auth.{auth-refused}
use doevoe.Api.Post.{post_authed, post_email}

-- It changes no table.
pub post_email-refused :
    (env : Env) (r : Request) (s : Store)
    → (auth env r.authorization s).0 ≡ none
    → (post_email env r s).1.db ≡ s.db
unfolding post_email
post_email-refused env r s h =
    let (a, s') = auth env r.authorization s in
    of_authed a s' h (auth-refused env r.authorization s h)
  where
    of_authed :
        (a : Authed) (s' : Store)
        → a ≡ none
        → s'.db ≡ s.db
        → (post_authed env r (a, s')).1.db ≡ s.db
    of_authed none s' h same = unfold post_authed in same
    of_authed (some k) s' h same = cc
