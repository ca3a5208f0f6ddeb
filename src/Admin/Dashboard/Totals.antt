-- ===== src/Admin/Dashboard/Totals.antt =====
-- The days of the dashboard against its summary.
use doevoe.Base.{
  ℕ, ◌≤◌, ◌<◌, ◌+◌, ◌*◌, leb, ltb, ◌≡◌, refl, ap, ◌∙◌, Text, true, ◌&&◌, List, [], ◌∷◌, arith,
  affected, select, All, All-map, All-select,
}
use doevoe.Store.{Email, Store, ok, exec_reliable, fmt_time}
use doevoe.Store.Stats.{
  DayCount, by_day, day_of, daily_volume, in_range, is_failed, is_sent, summary_of, summary_stats,
}
use doevoe.Admin.{Reply, page}
use doevoe.Admin.Periods.{day}
use doevoe.Admin.Dashboard.{DashboardPage, dashboard, days_of, fill, with_summary, start_day}
use doevoe.Admin.Dashboard.Days.{total, fill-by_day}

-- A time in the range of some days is on one of them.
seconds : (n : ℕ) → fmt_time (n * day) ≡ n * 86400 + 1
unfolding fmt_time
seconds n = omega arith

on_days :
    (t first n : ℕ)
    → (leb (first * 86400 + 1) t && ltb t ((first + n) * 86400 + 1)) ≡ true
    → (leb first (day_of t) && ltb (day_of t) (first + n)) ≡ true
on_days t first n h =
    let from : first * 86400 + 1 ≤ t = ground (arith, h) in
    let to : t < (first + n) * 86400 + 1 = ground (arith, h) in
    let after : first ≤ day_of t = omega (arith, from) in
    let before : day_of t < first + n = omega (arith, from, to) in ground (arith, after, before)

in_range-on_days :
    (first n : ℕ) (e : Email)
    → in_range (fmt_time (first * day)) (fmt_time ((first + n) * day)) e ≡ true
    → (leb first (day_of e.created_at) && ltb (day_of e.created_at) (first + n)) ≡ true
in_range-on_days first n e h =
    on_days e.created_at first n (rw (seconds first, seconds (first + n)) at h)

abbrev pub sent_total : List DayCount → ℕ
sent_total [] = 0
sent_total (d ∷ ds) = d.sent + sent_total ds

abbrev pub failed_total : List DayCount → ℕ
failed_total [] = 0
failed_total (d ∷ ds) = d.failed + failed_total ds

-- The page is shown, and its days add up to its summary.
abbrev pub IsBalanced : Reply DashboardPage → Type 0
IsBalanced (page code shown) =
    (sent_total shown.daily ≡ shown.summary.sent)
    × (failed_total shown.daily ≡ shown.summary.failed)
IsBalanced _ = ⊥

in_days :
    (es : List Email) (first n : ℕ)
    → All
        (λ (e : Email).
          (leb first (day_of e.created_at) && ltb (day_of e.created_at) (first + n)) ≡ true)
        (select (in_range (fmt_time (first * day)) (fmt_time ((first + n) * day))) es)
in_days es first n =
    All-map _ _
      (λ (e : Email)
          (both : Unit {0}
            × (in_range (fmt_time (first * day)) (fmt_time ((first + n) * day)) e ≡ true)).
        in_range-on_days first n e both.1)
      _ (All-select (λ e. Unit {0}) _ es (all_units es))
  where
    all_units : (es : List Email) → All (λ (e : Email). Unit {0}) es
    all_units [] = tt
    all_units (e ∷ es) = (tt, all_units es)

daily-Balanced :
    (es : List Email) (first n : ℕ)
    → let rows = select (in_range (fmt_time (first * day)) (fmt_time ((first + n) * day))) es in
      (sent_total (fill (by_day rows) first n) ≡ affected is_sent rows)
      × (failed_total (fill (by_day rows) first n) ≡ affected is_failed rows)
daily-Balanced es first n =
    let rows = select (in_range (fmt_time (first * day)) (fmt_time ((first + n) * day))) es in
    let within = in_days es first n in
    (
      sent_as_total (fill (by_day rows) first n)
          ∙ fill-by_day (λ d. d.sent) is_sent (λ x. refl) (λ x e. refl) (λ e d. refl) (λ x d. refl)
              rows first n within,
      failed_as_total (fill (by_day rows) first n)
          ∙ fill-by_day (λ d. d.failed) is_failed (λ x. refl) (λ x e. refl) (λ e d. refl)
              (λ x d. refl) rows first n within,
    )
  where
    sent_as_total :
        (ds : List DayCount)
        → sent_total ds
          ≡ total (λ d. d.sent) is_sent (λ x. refl) (λ x e. refl) (λ e d. refl) (λ x d. refl) ds
    sent_as_total [] = refl
    sent_as_total (d ∷ ds) = ap (λ (n : ℕ). d.sent + n) (sent_as_total ds)

    failed_as_total :
        (ds : List DayCount)
        → failed_total ds
          ≡ total (λ d. d.failed) is_failed (λ x. refl) (λ x e. refl) (λ e d. refl) (λ x d. refl) ds
    failed_as_total [] = refl
    failed_as_total (d ∷ ds) = ap (λ (n : ℕ). d.failed + n) (failed_as_total ds)

-- If the driver refuses nothing, then the dashboard shows a page, and the counts of sent and of
-- failed emails of its days, with the gaps filled, add up to those of its summary.
pub dashboard-IsBalanced :
    (range : Text) (at : ℕ) (s : Store) → s.faults ≡ [] → IsBalanced (dashboard range at s).0
unfolding dashboard with_summary summary_stats summary_of daily_volume
dashboard-IsBalanced range at s h =
    let days = days_of range in
    let first = start_day days at in
    let rows = select (in_range (fmt_time (first * day)) (fmt_time ((first + days) * day))) in
    rw
      (
        exec_reliable (λ db. (ok (summary_of (rows db.emails)), db)) s h,
        exec_reliable (λ db. (ok (by_day (rows db.emails)), db)) s h,
      )
      (daily-Balanced s.emails first days)
