-- ===== src/Admin/Domains.antt =====
-- internal/admin/admin.go: listDomains, createDomain, showDomain and verifyDomain.
-- strings.TrimSpace is a parameter; text is folded as ASCII.
pub mod Stepwise
use doevoe.Base.{
  ℕ, ◌==◌, Text, Bool, false, ◌||◌, Option, none, some, List, [], ◌∷◌, codes, is_empty, to_lower,
  if◌then◌else◌, Fallible, value, failure,
}
use doevoe.Store.{Domain, Store, Result, ok, err, error_text}
use doevoe.Store.Domains.{create_domain, get_domain, list_domains}
use doevoe.DkimKeys.{Crypto, DnsRecord, generate, public_b64_from_private_pem, records}
use doevoe.DnsCheck
use doevoe.Server.{store_verdict}
use doevoe.Admin.{Reply, redirect, not_found, http_error, page, Handler}
use doevoe.Admin.Emails.{list_or_nil}

-- listDomains
unfoldable pub list_domains_handler : Handler (List Domain)
list_domains_handler s = let (domains, s') = list_domains s in (page 200 (list_or_nil domains), s')

-- strings.ContainsAny(name, " /@")
contains_any : Text → Bool
contains_any [] = false
contains_any (c ∷ cs) = c == 32 || c == 47 || c == 64 || contains_any cs

-- The redirect to the page of a domain; its URL is made of the id by `location`.
created : (ℕ → Text) → Result Domain × Store → Reply DnsRecord × Store
created location (err e, s) = (http_error 500 (error_text e), s)
created location (ok d, s) = (redirect (location d.id), s)

with_keys : (ℕ → Text) → Text → Fallible (Text × Text) → Store → Reply DnsRecord × Store
unfolding created
with_keys location name (failure e) s = (http_error 500 e, s)
with_keys location name (value (private_key, public_key)) s =
    created location (create_domain name (codes "mail1") private_key s)

-- createDomain
unfoldable pub create_domain_handler :
    Crypto → (Text → Text) → (ℕ → Text) → Text → Handler DnsRecord
unfolding contains_any with_keys
create_domain_handler c trim_space location form s =
    let name = to_lower (trim_space form) in
    if is_empty name || contains_any name
    then (http_error 422 (codes "invalid domain name"), s)
    else with_keys location name (generate c) s

-- The data of the page "domain".
pub record DomainPage : Type 0 where
  pub domain : Domain
  pub records : List DnsRecord

with_public : Text → Text → Domain → Fallible Text → Reply DomainPage
with_public egress_ip admin_email d (failure e) = http_error 500 e
with_public egress_ip admin_email d (value key) =
    page 200
      (record { domain = d; records = records d.name d.dkim_selector key egress_ip admin_email })

show_row : Crypto → Text → Text → Result Domain × Store → Reply DomainPage × Store
unfolding with_public
show_row c egress_ip admin_email (err e, s) = (not_found, s)
show_row c egress_ip admin_email (ok d, s) =
    (with_public egress_ip admin_email d (public_b64_from_private_pem c d.dkim_private_key), s)

-- showDomain
unfoldable pub show_domain : Crypto → Text → Text → ℕ → Handler DomainPage
unfolding show_row
show_domain c egress_ip admin_email id s = show_row c egress_ip admin_email (get_domain id s)

verify_row :
    (ℕ → Text)
    → Option (Domain → DnsCheck.Result)
    → Result Domain × Store
    → Reply DomainPage × Store
verify_row location run_check (err e, s) = (not_found, s)
verify_row location none (ok d, s) = (http_error 500 (codes "verification not configured"), s)
verify_row location (some run_check) (ok d, s) =
    (redirect (location d.id), store_verdict d (run_check d) s)

-- verifyDomain; `none` is a hook that is not set.
unfoldable pub verify_domain :
    (ℕ → Text) → Option (Domain → DnsCheck.Result) → ℕ → Handler DomainPage
unfolding verify_row
verify_domain location run_check id s = verify_row location run_check (get_domain id s)
