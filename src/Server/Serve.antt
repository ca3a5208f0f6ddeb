-- ===== src/Server/Serve.antt =====
-- cmd/doevoe/main.go: the mux with the routes of the API and of the operator's pages, and how each
-- route comes to its handler: those of admin.go but login stand behind auth, those of api.go ask for
-- an API key themselves. A response is seen as its status code.
pub mod Closed
pub mod Stepwise
use doevoe.Base.{
  ℕ, Text, Bool, Option, none, some, List, [], ◌∷◌, Fallible, find?, codes, ◌++◌, true, false,
  if◌then◌else◌,
}
use doevoe.Store.{Domain, Store}
use doevoe.DnsCheck
use doevoe.DkimKeys.{Crypto}
use doevoe.Api.Requests.{Env, Request, Response, Address}
use doevoe.Api.Post.{post_email}
use doevoe.Api.Get.{get_email_handler}
use doevoe.Admin.{Site, Reply, status_code, Handler}
use doevoe.Admin.Session.{login, logout, authed, auth}
use doevoe.Admin.Emails.{show_email, retry_email, cancel_email_handler}
use doevoe.Admin.Periods.{Parsing, Query, get}
use doevoe.Admin.Listing.{list_emails_handler}
use doevoe.Admin.Domains.{list_domains_handler, create_domain_handler, show_domain, verify_domain}
use doevoe.Admin.Keys.{KeysPage, Hook, OnKeyCreated, render_keys, create_key, revoke_key}
use doevoe.Admin.Dashboard.{dashboard}
use doevoe.Server.Routes.{
  Method, Route, api_post, api_get, static_files, login_page, login_form, logout_form,
  dashboard_page, emails_list, email_page, email_retry, email_cancel, domains_list, domain_create,
  domain_page, domain_verify, keys_list, key_create, key_revoke, healthz, front_page, Pattern,
  routes, matches, path_value,
}

pub record HttpRequest : Type 0 where
  pub method : Method
  pub path : List Text
  pub api : Request  -- what the API reads of it
  pub cookie : Option Text  -- doevoe_session
  pub htmx : Bool
  pub query : Query
  pub field : Text → Text  -- r.FormValue
  pub random : List ℕ  -- what the random source gives to newSession
  pub key_bytes : Fallible (List ℕ)  -- and to GenerateAPIKey
  pub meanwhile : Store → Store  -- what others do between two statements of retry or cancel

-- The configuration, and the code outside of the repository that the handlers call.
pub record Web : Type 0 where
  pub env : Env
  pub parsing : Parsing
  pub parse_api_id : Text → Option ℕ  -- strconv.ParseInt
  pub parse_id : Text → ℕ  -- likewise, without its error
  pub trim_space : Text → Text
  pub sha256 : Text → Text
  pub domain_location : ℕ → Text
  pub password : Text
  pub egress_ip : Text
  pub admin_email : Text
  pub check_domain : Option (Domain → DnsCheck.Result)
  pub on_key_created : OnKeyCreated
  pub on_key_revoked : Text × Text → Store → Store
  pub static_status : List Text → ℕ  -- http.FileServer
  pub unrouted : Method → List Text → ℕ  -- of ServeMux, where no pattern matches

-- The handler calls a hook that is set.
abbrev pub call_key_hook :
    (Text × Text → Store → Store) → (Reply KeysPage × Store) × Hook → Reply KeysPage × Store
call_key_hook on_key ((reply, s), none) = (reply, s)
call_key_hook on_key ((reply, s), some names) = (reply, on_key names s)

module _ (c : Crypto) (w : Web) (q : HttpRequest) (at : ℕ) where
  abbrev behind_auth : {Page : Type 0} → Handler Page → Site → ℕ × Site
  behind_auth handler site =
      let (reply, site') = auth q.cookie q.htmx at handler site in (status_code reply, site')

  abbrev of_api : Response × Store → Site → ℕ × Site
  of_api (res, s) site = (res.code, record site { store = s })

  abbrev with_sessions : Reply Text × List (Text × ℕ) → Site → ℕ × Site
  with_sessions (reply, sessions) site = (status_code reply, record site { sessions = sessions })

  on_session : Bool × List (Text × ℕ) → Site → ℕ × Site
  on_session (true, sessions) site = with_sessions (logout q.cookie sessions) site
  on_session (false, sessions) site =
      (if q.htmx then 200 else 303, record site { sessions = sessions })

  -- logout behind auth; it works on the sessions.
  unfoldable pub guarded_logout : Site → ℕ × Site
  unfolding on_session
  guarded_logout site = on_session (authed q.cookie at site.sessions) site

  -- The handler of a route; `id` is the value of {id}.
  unfoldable pub handle : Text → Route → Site → ℕ × Site
  unfolding guarded_logout
  handle id api_post site = of_api (post_email w.env q.api site.store) site
  handle id api_get site =
      of_api (get_email_handler w.env q.api (w.parse_api_id id) site.store) site
  handle id static_files site = (w.static_status q.path, site)
  handle id login_page site = (200, site)
  handle id login_form site =
      with_sessions (login w.password (q.field (codes "password")) q.random at site.sessions) site
  handle id logout_form site = guarded_logout site
  handle id dashboard_page site = behind_auth (dashboard (get (codes "range") q.query) at) site
  handle id emails_list site = behind_auth (list_emails_handler w.parsing q.query at) site
  handle id email_page site = behind_auth (show_email w.env.formats (w.parse_id id)) site
  handle id email_retry site =
      behind_auth
        (retry_email w.env.parse_address (w.parse_id id) (codes "/admin/emails/" ++ id)
          (w.trim_space (q.field (codes "to"))) q.meanwhile)
        site
  handle id email_cancel site =
      behind_auth (cancel_email_handler (w.parse_id id) (codes "/admin/emails/" ++ id) q.meanwhile)
        site
  handle id domains_list site = behind_auth list_domains_handler site
  handle id domain_create site =
      behind_auth (create_domain_handler c w.trim_space w.domain_location (q.field (codes "name")))
        site
  handle id domain_page site =
      behind_auth (show_domain c w.egress_ip w.admin_email (w.parse_id id)) site
  handle id domain_verify site =
      behind_auth (verify_domain w.domain_location w.check_domain (w.parse_id id)) site
  handle id keys_list site = behind_auth (render_keys []) site
  handle id key_create site =
      behind_auth
        (λ s.
          (create_key w.on_key_created w.sha256 w.trim_space q.key_bytes (q.field (codes "name"))
            (w.parse_id (q.field (codes "domain_id"))) s).0)
        site
  handle id key_revoke site =
      behind_auth (λ s. call_key_hook w.on_key_revoked (revoke_key (w.parse_id id) s)) site
  handle id healthz site = (200, site)
  handle id front_page site = (303, site)

  dispatched : Option Pattern → Site → ℕ × Site
  unfolding handle
  dispatched none site = (w.unrouted q.method q.path, site)
  dispatched (some p) site = handle (path_value p.segments q.path) p.route site

  -- The mux of main.
  unfoldable pub serve : Site → ℕ × Site
  unfolding dispatched
  serve site = dispatched (find? (matches q.method q.path) routes) site
