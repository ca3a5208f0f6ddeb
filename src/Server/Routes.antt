-- ===== src/Server/Routes.antt =====
-- The patterns that api.Routes, admin.Routes and cmd/doevoe/main.go register with http.ServeMux, and
-- what such a pattern matches: a literal segment itself, {id} any segment that is not empty, a GET
-- also HEAD, and a pattern that ends in a slash every longer path. A path is the list of its segments,
-- of which the last is empty for a path that ends in a slash.
pub mod Apart
use doevoe.Base.{
  ℕ, zero, suc, ◌≤◌, ◌≡◌, refl, sym, ap, ◌∙◌, arith, Text, Bool, true, false, ◌&&◌, ◌||◌, not,
  Option, none, some, List, [], ◌∷◌, codes, text_eq, text_eq_sound, text_eq_refl, is_empty,
  if◌then◌else◌, select, length, All, Pairwise, Bool-cases, inl, inr, ◌++◌,
}

pub data Method : Type 0 where
  get head post other_method : Method

pub data Segment : Type 0 where
  literal : Text → Segment
  id_param : Segment

-- The handlers, in the order in which they are registered.
pub data Route : Type 0 where
  api_post api_get : Route
  static_files login_page login_form logout_form dashboard_page : Route
  emails_list email_page email_retry email_cancel : Route
  domains_list domain_create domain_page domain_verify : Route
  keys_list key_create key_revoke : Route
  healthz front_page : Route

pub record Pattern : Type 0 where
  pub method : Method
  pub segments : List Segment
  pub is_subtree : Bool
  pub route : Route

abbrev exact : Method → List Segment → Route → Pattern
exact m segments route = record {
  method = m;
  segments = segments;
  is_subtree = false;
  route = route;
}

-- /api/v1/emails and below /admin
abbrev api_emails : List Segment → List Segment
api_emails rest = literal (codes "api") ∷ literal (codes "v1") ∷ literal (codes "emails") ∷ rest

abbrev in_admin : Text → List Segment → List Segment
in_admin part rest = literal (codes "admin") ∷ literal part ∷ rest

-- Routes of api.go
abbrev pub api_routes : List Pattern
api_routes =
    exact post (api_emails []) api_post ∷ exact get (api_emails (id_param ∷ [])) api_get ∷ []

-- Routes of admin.go
abbrev pub admin_routes : List Pattern → List Pattern
admin_routes rest =
    record {
      method = get;
      segments = in_admin (codes "static") [];
      is_subtree = true;
      route = static_files;
    }
    ∷ exact get (in_admin (codes "login") []) login_page
    ∷ exact post (in_admin (codes "login") []) login_form
    ∷ exact post (in_admin (codes "logout") []) logout_form
    ∷ exact get (in_admin [] []) dashboard_page
    ∷ exact get (in_admin (codes "emails") []) emails_list
    ∷ exact get (in_admin (codes "emails") (id_param ∷ [])) email_page
    ∷ exact post (in_admin (codes "emails") (id_param ∷ literal (codes "retry") ∷ [])) email_retry
    ∷ exact post (in_admin (codes "emails") (id_param ∷ literal (codes "cancel") ∷ [])) email_cancel
    ∷ exact get (in_admin (codes "domains") []) domains_list
    ∷ exact post (in_admin (codes "domains") []) domain_create
    ∷ exact get (in_admin (codes "domains") (id_param ∷ [])) domain_page
    ∷ exact post (in_admin (codes "domains") (id_param ∷ literal (codes "verify") ∷ []))
        domain_verify
    ∷ exact get (in_admin (codes "keys") []) keys_list
    ∷ exact post (in_admin (codes "keys") []) key_create
    ∷ exact post (in_admin (codes "keys") (id_param ∷ literal (codes "revoke") ∷ [])) key_revoke
    ∷ rest

-- The patterns of the mux of main.
abbrev pub routes : List Pattern
routes =
    api_routes
    ++ admin_routes (
        exact get (literal (codes "healthz") ∷ []) healthz
        ∷ exact get (literal [] ∷ []) front_page
        ∷ [])

abbrev pub accepts : Method → Method → Bool
accepts get get = true
accepts get head = true
accepts post post = true
accepts _ _ = false

abbrev pub fits : Segment → Text → Bool
fits (literal t) s = text_eq s t
fits id_param s = not (is_empty s)

unfoldable pub fits_all : Bool → List Segment → List Text → Bool
fits_all subtree [] [] = not subtree
fits_all subtree [] (s ∷ ss) = subtree
fits_all subtree (p ∷ ps) [] = false
fits_all subtree (p ∷ ps) (s ∷ ss) = let rest = fits_all subtree ps ss in fits p s && rest

unfoldable pub matches : Method → List Text → Pattern → Bool
unfolding fits_all
matches m path p = accepts p.method m && fits_all p.is_subtree p.segments path

-- The value of {id} in a path that a pattern matches.
unfoldable pub path_value : List Segment → List Text → Text
path_value (id_param ∷ ps) (s ∷ ss) = s
path_value (literal t ∷ ps) (s ∷ ss) = path_value ps ss
path_value _ _ = []
