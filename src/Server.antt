-- ===== src/Server.antt =====
-- cmd/doevoe/main.go: how the parts are put together, and the hourly recheck of the DNS records. The
-- resolver and the keys are parameters.
pub mod Recheck
pub mod Stepwise
pub mod Shutdown
pub mod Routes
pub mod Serve
use doevoe.Base.{
  ℕ, Text, Bool, true, false, List, [], ◌∷◌, Fallible, value, failure, if◌then◌else◌, is_empty,
  codes, ◌++◌,
}
use doevoe.Store.{Domain, Store, Result, ok, err, now}
use doevoe.Store.Domains.{list_domains, set_domain_verification}
use doevoe.DkimKeys.{Crypto, public_b64_from_private_pem}
use doevoe.DnsCheck
use doevoe.DnsCheck.{Lookup, RecordResult, check}

-- A zero RecordResult
abbrev pub no_record : RecordResult
no_record = record { ok = false; found = []; expected = [] }

abbrev pub unknown : DnsCheck.Result
unknown = record { spf = no_record; dkim = no_record; dmarc = no_record; indeterminate = true }

check_with_key : (Text → Lookup) → Text → Domain → Fallible Text → DnsCheck.Result
check_with_key lookup_txt egress_ip d (failure e) = unknown
check_with_key lookup_txt egress_ip d (value key) =
    check lookup_txt d.name d.dkim_selector key egress_ip

-- checkDomain
unfoldable pub check_domain : Crypto → (Text → Lookup) → Text → Domain → DnsCheck.Result
unfolding check_with_key
check_domain c lookup_txt egress_ip d =
    check_with_key lookup_txt egress_ip d (public_b64_from_private_pem c d.dkim_private_key)

-- What both the recheck and the operator's verification do with a result; an error of the store is
-- dropped.
unfoldable pub store_verdict : Domain → DnsCheck.Result → Store → Store
store_verdict d r s =
    if r.indeterminate
    then s
    else (set_domain_verification d.id r.spf.ok r.dkim.ok r.dmarc.ok (now s) s).1

-- The loop over the domains; a check sees the resolver at its time.
unfoldable pub recheck_all : (Domain → Store → DnsCheck.Result) → List Domain → Store → Store
unfolding store_verdict
recheck_all run_check [] s = s
recheck_all run_check (d ∷ ds) s = recheck_all run_check ds (store_verdict d (run_check d s) s)

on_domains : (Domain → Store → DnsCheck.Result) → Result (List Domain) × Store → Store
on_domains run_check (err e, s) = s
on_domains run_check (ok ds, s) = recheck_all run_check ds s

-- One round of recheckDNSLoop.
unfoldable pub recheck : (Domain → Store → DnsCheck.Result) → Store → Store
unfolding on_domains
recheck run_check s = on_domains run_check (list_domains s)
