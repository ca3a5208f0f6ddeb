-- ===== src/Server/Stepwise.antt =====
-- Storing a verdict is a sequence of calls of the store.
use doevoe.Base.{refl, Bool-cases, inl, inr}
use doevoe.Store.{Domain, Store, now}
use doevoe.Store.Calls.{Calls, still, set_domain_verification-Calls}
use doevoe.DnsCheck
use doevoe.Server.{store_verdict}

pub store_verdict-Calls :
    (d : Domain) (r : DnsCheck.Result) (s : Store) → Calls s (store_verdict d r s)
unfolding store_verdict
store_verdict-Calls d r s = elim (Bool-cases r.indeterminate) [
  | inl unknown ↦ rw unknown (still refl)
  | inr known ↦
      rw known (set_domain_verification-Calls d.id r.spf.ok r.dkim.ok r.dmarc.ok (now s) s)
]
