-- ===== src/Admin/Dashboard/Stepwise.antt =====
-- The dashboard only reads.
use doevoe.Base.{ℕ, refl, Text}
use doevoe.Store.{Store, Result, ok, err}
use doevoe.Store.Stats.{Summary, daily_volume, domain_volume}
use doevoe.Store.Calls.{
  Calls, still, both, daily_volume-Calls, summary_stats-Calls, domain_volume-Calls,
  failure_reasons-Calls,
}
use doevoe.Admin.Dashboard.{with_summary, dashboard}

with_summary-Calls :
    (days first from to : ℕ) (r : Result Summary) (s : Store)
    → Calls s (with_summary days first from to (r, s)).1
unfolding with_summary
with_summary-Calls days first from to (err e) s = still refl
with_summary-Calls days first from to (ok summary) s =
    let s1 = (daily_volume from to s).1 in
    let s2 = (domain_volume from to s1).1 in
    both (daily_volume-Calls from to s)
      (both (domain_volume-Calls from to s1) (failure_reasons-Calls from to 8 s2))

pub dashboard-Calls : (range : Text) (at : ℕ) (s : Store) → Calls s (dashboard range at s).1
unfolding dashboard
dashboard-Calls range at s = both (summary_stats-Calls _ _ s) (with_summary-Calls _ _ _ _ _ _)
