-- ===== src/Server/Serve/Stepwise.antt =====
-- Each response of the server is a sequence of calls of the store.
use doevoe.Base.{
  ℕ, ◌≡◌, refl, ap, Text, Bool, true, false, Option, none, some, List, [], find?, codes, ◌++◌,
}
use doevoe.Store.{Store}
use doevoe.Store.Calls.{Calls, still, both}
use doevoe.DkimKeys.{Crypto}
use doevoe.Api.Post.Stepwise.{post_email-Calls}
use doevoe.Api.Get.Owned.{get_email_handler-Read}
use doevoe.Admin.{Site, Reply}
use doevoe.Admin.Session.{authed}
use doevoe.Admin.Session.Stepwise.{auth-Calls}
use doevoe.Admin.Emails.Stepwise.{show_email-Calls, retry_email-Calls, cancel_email_handler-Calls}
use doevoe.Admin.Domains.Stepwise.{
  list_domains_handler-Calls, create_domain_handler-Calls, show_domain-Calls, verify_domain-Calls,
}
use doevoe.Admin.Keys.{KeysPage, Hook, revoke_key}
use doevoe.Admin.Keys.Stepwise.{render_keys-Calls, create_key-Calls, revoke_key-Calls}
use doevoe.Admin.Dashboard.Stepwise.{dashboard-Calls}
use doevoe.Admin.Listing.Stepwise.{list_emails_handler-Calls}
use doevoe.Server.Routes.{
  Route, api_post, api_get, static_files, login_page, login_form, logout_form, dashboard_page,
  emails_list, email_page, email_retry, email_cancel, domains_list, domain_create, domain_page,
  domain_verify, keys_list, key_create, key_revoke, healthz, front_page, Pattern, routes, matches,
  path_value,
}
use doevoe.Server.Serve.{
  HttpRequest, Web, call_key_hook, on_session, guarded_logout, handle, dispatched, serve,
}

-- The hooks on keys, and the others between two statements of a handler, call the store as well.
pub record AreCalls (w : Web) (q : HttpRequest) : Type 0 where
  pub created :
      (name domain_name : Text) (s : Store) → Calls s (w.on_key_created name domain_name s)
  pub revoked : (names : Text × Text) (s : Store) → Calls s (w.on_key_revoked names s)
  pub meanwhile : (s : Store) → Calls s (q.meanwhile s)

call_key_hook-Calls :
    (on_key : Text × Text → Store → Store)
    → ((names : Text × Text) (s : Store) → Calls s (on_key names s))
    → (before : Store) (r : Reply KeysPage × Store) (hook : Hook) → Calls before r.1
    → Calls before (call_key_hook on_key (r, hook)).1
call_key_hook-Calls on_key calls before (reply, s) none h = h
call_key_hook-Calls on_key calls before (reply, s) (some names) h = both h (calls names s)

module _ (c : Crypto) (w : Web) (q : HttpRequest) (at : ℕ) where
  pub guarded_logout-store : (site : Site) → (guarded_logout c w q at site).1.store ≡ site.store
  unfolding guarded_logout
  guarded_logout-store site = of_session (authed q.cookie at site.sessions)
    where
      of_session : (r : Bool × List (Text × ℕ)) → (on_session c w q at r site).1.store ≡ site.store
      of_session (true, sessions) = unfold on_session in refl
      of_session (false, sessions) = unfold on_session in refl

  module _ (h : AreCalls w q) (site : Site) where
    handle-Calls :
        (id : Text) (route : Route) → Calls site.store (handle c w q at id route site).1.store
    unfolding handle
    handle-Calls id api_post = post_email-Calls w.env q.api site.store
    handle-Calls id api_get =
        still (get_email_handler-Read w.env q.api site.store (w.parse_api_id id)).0
    handle-Calls id static_files = still refl
    handle-Calls id login_page = still refl
    handle-Calls id login_form = still refl
    handle-Calls id logout_form = still (ap (λ (s : Store). s.emails) (guarded_logout-store site))
    handle-Calls id dashboard_page = auth-Calls _ _ _ _ site (λ s. dashboard-Calls _ at s)
    handle-Calls id emails_list =
        auth-Calls _ _ _ _ site (λ s. list_emails_handler-Calls w.parsing q.query at s)
    handle-Calls id email_page =
        auth-Calls _ _ _ _ site (λ s. show_email-Calls w.env.formats (w.parse_id id) s)
    handle-Calls id email_retry = auth-Calls _ _ _ _ site (λ s.
        retry_email-Calls (w.parse_id id) (codes "/admin/emails/" ++ id) q.meanwhile h.meanwhile
          w.env.parse_address (w.trim_space (q.field (codes "to"))) s)
    handle-Calls id email_cancel = auth-Calls _ _ _ _ site (
        cancel_email_handler-Calls (w.parse_id id) (codes "/admin/emails/" ++ id) q.meanwhile
          h.meanwhile)
    handle-Calls id domains_list = auth-Calls _ _ _ _ site list_domains_handler-Calls
    handle-Calls id domain_create =
        auth-Calls _ _ _ _ site
          (create_domain_handler-Calls c w.trim_space w.domain_location (q.field (codes "name")))
    handle-Calls id domain_page =
        auth-Calls _ _ _ _ site (show_domain-Calls c w.egress_ip w.admin_email (w.parse_id id))
    handle-Calls id domain_verify =
        auth-Calls _ _ _ _ site
          (verify_domain-Calls w.domain_location w.check_domain (w.parse_id id))
    handle-Calls id keys_list = auth-Calls _ _ _ _ site (render_keys-Calls [])
    handle-Calls id key_create = auth-Calls _ _ _ _ site (
        create_key-Calls w.on_key_created h.created w.sha256 w.trim_space q.key_bytes
          (q.field (codes "name")) (w.parse_id (q.field (codes "domain_id"))))
    handle-Calls id key_revoke = auth-Calls _ _ _ _ site (λ s.
        call_key_hook-Calls w.on_key_revoked h.revoked s (revoke_key (w.parse_id id) s).0
          (revoke_key (w.parse_id id) s).1 (revoke_key-Calls (w.parse_id id) s))
    handle-Calls id healthz = still refl
    handle-Calls id front_page = still refl

    pub serve-Calls : Calls site.store (serve c w q at site).1.store
    unfolding serve
    serve-Calls = of_pattern (find? (matches q.method q.path) routes)
      where
        of_pattern : (o : Option Pattern) → Calls site.store (dispatched c w q at o site).1.store
        of_pattern none = unfold dispatched in still refl
        of_pattern (some p) =
            unfold dispatched in handle-Calls (path_value p.segments q.path) p.route
