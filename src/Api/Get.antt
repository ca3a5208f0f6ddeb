-- ===== src/Api/Get.antt =====
-- internal/api/api.go: getEmail. `id` is what strconv.ParseInt makes of the path: none is an error,
-- and a negative number, which no row has, stands as 0.
pub mod Owned
use doevoe.Base.{ℕ, Option, none, some, ◌==◌, codes, if◌then◌else◌}
use doevoe.Store.{Email, ApiKey, Store, Result, ok, err}
use doevoe.Store.Emails.{get_email}
use doevoe.Api.Requests.{
  Env, Request, Response, email_details, json_error, Authed, auth, unauthorized,
}

unfoldable pub details : Email → Response
details e = record {
  code = 200;
  body = email_details e.id e.status e.attempts e.last_error e.created_at e.sent_at;
}

show_if_owned : ApiKey → Result Email → Response
unfolding details
show_if_owned k (err e) = json_error 404 (codes "not found")
show_if_owned k (ok e) =
    if e.domain_id == k.domain_id then details e else json_error 404 (codes "not found")

get_authed : Request → Option ℕ → Authed × Store → Response × Store
unfolding show_if_owned
get_authed r id (none, s) = (unauthorized r.authorization, s)
get_authed r none (some k, s) = (json_error 400 (codes "bad id"), s)
get_authed r (some id) (some k, s) = let (e, s') = get_email id s in (show_if_owned k e, s')

-- GET /api/v1/emails/{id}
unfoldable pub get_email_handler : Env → Request → Option ℕ → Store → Response × Store
unfolding get_authed
get_email_handler env r id s = get_authed r id (auth env r.authorization s)
