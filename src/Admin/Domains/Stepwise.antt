-- ===== src/Admin/Domains/Stepwise.antt =====
-- The handlers of the domains are sequences of calls of the store.
use doevoe.Base.{
  ℕ, refl, Text, Option, none, some, ◌||◌, Bool-cases, inl, inr, is_empty, to_lower, Fallible,
  value, failure, codes,
}
use doevoe.Store.{Domain, Store, Result, ok, err}
use doevoe.Store.Domains.{create_domain, get_domain}
use doevoe.Store.Calls.{
  Calls, still, both, get_domain-Calls, list_domains-Calls, create_domain-Calls,
}
use doevoe.DkimKeys.{Crypto, generate}
use doevoe.DnsCheck
use doevoe.Server.Stepwise.{store_verdict-Calls}
use doevoe.Admin.Domains.{
  list_domains_handler, contains_any, created, with_keys, create_domain_handler, show_row,
  show_domain, verify_row, verify_domain,
}

pub list_domains_handler-Calls : (s : Store) → Calls s (list_domains_handler s).1
unfolding list_domains_handler
list_domains_handler-Calls s = list_domains-Calls s

pub create_domain_handler-Calls :
    (c : Crypto) (trim_space : Text → Text) (location : ℕ → Text) (form : Text) (s : Store)
    → Calls s (create_domain_handler c trim_space location form s).1
unfolding create_domain_handler
create_domain_handler-Calls c trim_space location form s =
    let name = to_lower (trim_space form) in
    elim (Bool-cases (is_empty name || contains_any name)) [
      | inl bad ↦ rw bad (still refl)
      | inr good ↦ rw good (of_keys name (generate c))
    ]
  where
    of_created : (r : Result Domain) (s' : Store) → Calls s' (created location (r, s')).1
    of_created (ok d) s' = unfold created in still refl
    of_created (err e) s' = unfold created in still refl

    of_keys : (name : Text) (k : Fallible (Text × Text)) → Calls s (with_keys location name k s).1
    of_keys name (failure e) = unfold with_keys in still refl
    of_keys name (value (private_key, public_key)) =
        unfold with_keys in
        both (create_domain-Calls name (codes "mail1") private_key s) (
          of_created (create_domain name (codes "mail1") private_key s).0
            (create_domain name (codes "mail1") private_key s).1)

pub show_domain-Calls :
    (c : Crypto) (egress_ip admin_email : Text) (id : ℕ) (s : Store)
    → Calls s (show_domain c egress_ip admin_email id s).1
unfolding show_domain
show_domain-Calls c egress_ip admin_email id s =
    let (r, s') = get_domain id s in both (get_domain-Calls id s) (of_row r s')
  where
    of_row :
        (r : Result Domain) (s' : Store) → Calls s' (show_row c egress_ip admin_email (r, s')).1
    of_row (err e) s' = unfold show_row in still refl
    of_row (ok d) s' = unfold show_row in still refl

pub verify_domain-Calls :
    (location : ℕ → Text) (run_check : Option (Domain → DnsCheck.Result)) (id : ℕ) (s : Store)
    → Calls s (verify_domain location run_check id s).1
unfolding verify_domain
verify_domain-Calls location run_check id s =
    let (r, s') = get_domain id s in both (get_domain-Calls id s) (of_row run_check r s')
  where
    of_row :
        (check : Option (Domain → DnsCheck.Result)) (r : Result Domain) (s' : Store)
        → Calls s' (verify_row location check (r, s')).1
    of_row check (err e) s' = unfold verify_row in still refl
    of_row none (ok d) s' = unfold verify_row in still refl
    of_row (some check) (ok d) s' = unfold verify_row in store_verdict-Calls d (check d) s'
