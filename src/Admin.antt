-- ===== src/Admin.antt =====
-- internal/admin/admin.go: the operator's pages. A handler takes the site, which is the store and the
-- sessions in memory, to its reply and the next site. html/template, net/url and net/mail are not
-- modelled: a page is the data that its template is given.
pub mod Session
pub mod Emails
pub mod Periods
pub mod Listing
pub mod Domains
pub mod Keys
pub mod Dashboard
use doevoe.Base.{ℕ, Text, Bool, List, codes, ◌++◌}
use doevoe.Store.{Email, Attempt, Domain, ApiKey, Store}

pub record Site : Type 0 where
  pub store : Store
  pub sessions : List (Text × ℕ)  -- the map of tokens to their expiry

-- A redirect is a 303, but for HX-Redirect, which is a 200.
pub data Reply {ℓ} (Page : Type ℓ) : Type ℓ where
  redirect : Text → Reply Page
  hx_redirect : Text → Reply Page
  not_found : Reply Page
  http_error : ℕ → Text → Reply Page
  page : ℕ → Page → Reply Page

-- w.WriteHeader's code
abbrev pub status_code {ℓ} : {Page : Type ℓ} → Reply Page → ℕ
status_code (redirect location) = 303
status_code (hx_redirect location) = 200
status_code not_found = 404
status_code (http_error code message) = code
status_code (page code shown) = code

-- A handler of `a.auth(h)` works on the store alone.
abbrev pub Handler {ℓ} : Type ℓ → Type ℓ
Handler Page = Store → Reply Page × Store
