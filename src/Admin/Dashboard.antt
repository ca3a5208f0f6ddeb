-- ===== src/Admin/Dashboard.antt =====
-- internal/admin/admin.go: dashboard. A day is its number since 1970.
pub mod Days
pub mod Totals
pub mod Stepwise
use doevoe.Base.{
  ℕ, zero, suc, ◌+◌, ◌-◌, ◌*◌, ◌/◌, ◌==◌, leb, Text, Option, none, some, List, [], ◌∷◌, codes,
  text_eq, if◌then◌else◌, find?,
}
use doevoe.Store.{Store, Result, ok, err, error_text, fmt_time}
use doevoe.Store.Stats.{
  DayCount, Summary, DomainStats, ReasonCount, daily_volume, domain_volume, failure_reasons,
  summary_stats,
}
use doevoe.Admin.{Reply, http_error, page}
use doevoe.Admin.Emails.{list_or_nil}
use doevoe.Admin.Periods.{day}

abbrev pub days_of : Text → ℕ
days_of range =
    if text_eq range (codes "7") then 7 else if text_eq range (codes "90") then 90 else 30

-- now.Truncate(24 * time.Hour).AddDate(0, 0, -(days - 1)), as a number of days.
abbrev pub start_day : ℕ → ℕ → ℕ
start_day days at = at / day - (days - 1)

-- byDay[date], of which a missing one is zero.
abbrev pub count_or_zero : ℕ → Option DayCount → DayCount
count_or_zero date none = record { date = date; sent = 0; failed = 0 }
count_or_zero date (some d) = record { date = date; sent = d.sent; failed = d.failed }

-- The days from `first` on, with the gaps filled.
unfoldable pub fill : List DayCount → ℕ → ℕ → List DayCount
fill daily first zero = []
fill daily first (suc n) =
    count_or_zero first (find? (λ (d : DayCount). d.date == first) daily) ∷ fill daily (suc first) n

-- sort.SliceStable, the most emails first.
insert_busy : DomainStats → List DomainStats → List DomainStats
insert_busy d [] = d ∷ []
insert_busy d (x ∷ xs) =
    let rest = insert_busy d xs in
    if leb (x.sent + x.failed) (d.sent + d.failed) then d ∷ x ∷ xs else x ∷ rest

busiest_first : List DomainStats → List DomainStats
unfolding insert_busy
busiest_first [] = []
busiest_first (d ∷ ds) = insert_busy d (busiest_first ds)

-- dashboardData, with the days and the summary of the page.
pub record DashboardPage : Type 0 where
  pub days : ℕ
  pub summary : Summary
  pub daily : List DayCount
  pub domains : List DomainStats
  pub reasons : List ReasonCount

unfoldable pub with_summary : ℕ → ℕ → ℕ → ℕ → Result Summary × Store → Reply DashboardPage × Store
unfolding fill busiest_first
with_summary days first from to (err e, s) = (http_error 500 (error_text e), s)
with_summary days first from to (ok summary, s) =
    let (daily, s1) = daily_volume from to s in
    let (domains, s2) = domain_volume from to s1 in
    let (reasons, s3) = failure_reasons from to 8 s2 in
    (
      page 200 (record {
        days = days;
        summary = summary;
        daily = fill (list_or_nil daily) first days;
        domains = busiest_first (list_or_nil domains);
        reasons = list_or_nil reasons;
      }),
      s3,
    )

-- dashboard
unfoldable pub dashboard : Text → ℕ → Store → Reply DashboardPage × Store
unfolding with_summary
dashboard range at s =
    let days = days_of range in
    let first = start_day days at in
    let from = fmt_time (first * day) in
    let to = fmt_time ((first + days) * day) in
    with_summary days first from to (summary_stats from to s)
