-- ===== src/Server/Serve/Closed.antt =====
-- What the server does for requests that nobody has signed in for.
use doevoe.Base.{ℕ, ◌≡◌, refl, ap, false, none, some, Option, Text, find?}
use doevoe.Store.{Store}
use doevoe.DkimKeys.{Crypto}
use doevoe.Api.Requests
use doevoe.Api.Post.Refused.{post_email-refused}
use doevoe.Api.Get.Owned.{get_email_handler-refused}
use doevoe.Admin.{Site, Handler}
use doevoe.Admin.Session.{auth, authed}
use doevoe.Admin.Session.Granted.{authed-refused}
use doevoe.Server.Routes.{
  Route, api_post, api_get, static_files, login_page, login_form, logout_form, dashboard_page,
  emails_list, email_page, email_retry, email_cancel, domains_list, domain_create, domain_page,
  domain_verify, keys_list, key_create, key_revoke, healthz, front_page, Pattern, routes, matches,
  path_value,
}
use doevoe.Server.Serve.Stepwise.{guarded_logout-store}
use doevoe.Server.Serve.{HttpRequest, Web, handle, dispatched, serve}

module _ (c : Crypto) (w : Web) (q : HttpRequest) (at : ℕ) (site : Site)
    (no_session : (authed q.cookie at site.sessions).0 ≡ false)
    (no_key : (Requests.auth w.env q.api.authorization site.store).0 ≡ none) where
  turned_away :
      {Page : Type 0} (handler : Handler Page)
      → (auth q.cookie q.htmx at handler site).1.store.db ≡ site.store.db
  turned_away handler =
      ap (λ (s : Store). s.db) (authed-refused q.cookie q.htmx at handler site no_session)

  handle-db :
      (id : Text) (route : Route) → (handle c w q at id route site).1.store.db ≡ site.store.db
  unfolding handle
  handle-db id api_post = post_email-refused w.env q.api site.store no_key
  handle-db id api_get = get_email_handler-refused w.env q.api (w.parse_api_id id) site.store no_key
  handle-db id static_files = refl
  handle-db id login_page = refl
  handle-db id login_form = refl
  handle-db id logout_form = ap (λ (s : Store). s.db) (guarded_logout-store c w q at site)
  handle-db id dashboard_page = turned_away _
  handle-db id emails_list = turned_away _
  handle-db id email_page = turned_away _
  handle-db id email_retry = turned_away _
  handle-db id email_cancel = turned_away _
  handle-db id domains_list = turned_away _
  handle-db id domain_create = turned_away _
  handle-db id domain_page = turned_away _
  handle-db id domain_verify = turned_away _
  handle-db id keys_list = turned_away _
  handle-db id key_create = turned_away _
  handle-db id key_revoke = turned_away _
  handle-db id healthz = refl
  handle-db id front_page = refl

  -- If a request has no session that is still valid, and authentication by its Authorization header
  -- gives no API key, then whatever its method and path are, no table of the store is changed by
  -- the server's response to it.
  pub serve-db : (serve c w q at site).1.store.db ≡ site.store.db
  unfolding serve
  serve-db = of_pattern (find? (matches q.method q.path) routes)
    where
      of_pattern : (o : Option Pattern) → (dispatched c w q at o site).1.store.db ≡ site.store.db
      of_pattern none = unfold dispatched in refl
      of_pattern (some p) = unfold dispatched in handle-db (path_value p.segments q.path) p.route
