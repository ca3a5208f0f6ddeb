-- ===== src/Store/Stats.antt =====
-- internal/store/stats.go, and the queries of internal/store/notify.go: counts of emails for the
-- dashboard and the monthly mail. A day is its number since 1970; months are parameters. A rate is the
-- two numbers that are divided. Reasons that are equally frequent come in the order of their texts.
use doevoe.Base.{
  ℕ, suc, ◌+◌, ◌-◌, ◌/◌, ◌==◌, ltb, leb, Text, Bool, true, false, not, ◌&&◌, ◌||◌, Option, none,
  some, List, [], ◌∷◌, text_eq, is_empty, if◌then◌else◌, select, take, find?, affected,
}
use doevoe.Store.{queued, sending, sent, failed, canceled, Email, Attempt, Domain, Action, ok, exec}
use doevoe.Store.Emails.{has_id}
use doevoe.Store.Domains.{order_by_name, text_le}

abbrev pub is_sent : Email → Bool
is_sent e = elim e.status [
  | queued ↦ false
  | sending ↦ false
  | sent ↦ true
  | failed ↦ false
  | canceled ↦ false
]

abbrev pub is_failed : Email → Bool
is_failed e = elim e.status [
  | queued ↦ false
  | sending ↦ false
  | sent ↦ false
  | failed ↦ true
  | canceled ↦ false
]

abbrev pub is_canceled : Email → Bool
is_canceled e = elim e.status [
  | queued ↦ false
  | sending ↦ false
  | sent ↦ false
  | failed ↦ false
  | canceled ↦ true
]

abbrev pub is_under_way : Email → Bool
is_under_way e = elim e.status [
  | queued ↦ true
  | sending ↦ true
  | sent ↦ false
  | failed ↦ false
  | canceled ↦ false
]

-- created_at >= ? AND created_at < ?
abbrev pub in_range : ℕ → ℕ → Email → Bool
in_range from to e = leb from e.created_at && ltb e.created_at to

-- DayCount
pub record DayCount : Type 0 where
  pub date : ℕ
  pub sent : ℕ
  pub failed : ℕ

-- substr(created_at,1,10), of a stored time, which is one more than its seconds.
abbrev pub day_of : ℕ → ℕ
day_of t = (t - 1) / 86400

abbrev pub one_if : Bool → ℕ
one_if b = if b then 1 else 0

-- A row of the table counted in its group; the groups are in the order of their days.
unfoldable pub count_day : Email → List DayCount → List DayCount
count_day e [] =
    record { date = day_of e.created_at; sent = one_if (is_sent e); failed = one_if (is_failed e) }
    ∷ []
count_day e (d ∷ ds) =
    let rest = count_day e ds in
    if day_of e.created_at == d.date
    then record {
      date = d.date;
      sent = one_if (is_sent e) + d.sent;
      failed = one_if (is_failed e) + d.failed;
    }
      ∷ ds
    else if ltb (day_of e.created_at) d.date
    then record {
      date = day_of e.created_at;
      sent = one_if (is_sent e);
      failed = one_if (is_failed e);
    }
      ∷ d
      ∷ ds
    else d ∷ rest

unfoldable pub by_day : List Email → List DayCount
unfolding count_day
by_day [] = []
by_day (e ∷ es) = count_day e (by_day es)

-- DailyVolume
unfoldable pub daily_volume : ℕ → ℕ → Action (List DayCount)
unfolding by_day
daily_volume from to = exec (λ db. (ok (by_day (select (in_range from to) db.emails)), db))

-- Summary
pub record Summary : Type 0 where
  pub sent : ℕ
  pub failed : ℕ
  pub queued : ℕ
  pub canceled : ℕ
  pub total : ℕ
  pub success_rate : Option (ℕ × ℕ)

unfoldable pub summary_of : List Email → Summary
summary_of es =
    let rated = affected (λ (e : Email). true) es - affected is_canceled es in
    record {
      sent = affected is_sent es;
      failed = affected is_failed es;
      queued = affected is_under_way es;
      canceled = affected is_canceled es;
      total = affected (λ (e : Email). true) es;
      success_rate = if ltb 0 rated then some (affected is_sent es, rated) else none;
    }

-- SummaryStats
unfoldable pub summary_stats : ℕ → ℕ → Action Summary
unfolding summary_of
summary_stats from to = exec (λ db. (ok (summary_of (select (in_range from to) db.emails)), db))

-- DomainStats
pub record DomainStats : Type 0 where
  pub domain_name : Text
  pub sent : ℕ
  pub failed : ℕ

-- The groups of the joined rows; a domain without an email in the range has no group.
abbrev pub add_domain : Domain → List Email → List DomainStats → List DomainStats
add_domain d [] rest = rest
add_domain d (e ∷ es) rest =
    record {
      domain_name = d.name;
      sent = affected is_sent (e ∷ es);
      failed = affected is_failed (e ∷ es);
    }
    ∷ rest

unfoldable pub by_domain : List Domain → List Email → List DomainStats
by_domain [] es = []
by_domain (d ∷ ds) es =
    add_domain d (select (λ (e : Email). e.domain_id == d.id) es) (by_domain ds es)

-- DomainVolume
unfoldable pub domain_volume : ℕ → ℕ → Action (List DomainStats)
unfolding by_domain
domain_volume from to =
    exec
      (λ db. (ok (by_domain (order_by_name db.domains) (select (in_range from to) db.emails)), db))

-- ReasonCount
pub record ReasonCount : Type 0 where
  pub reason : Text
  pub count : ℕ

count_reason : Text → List ReasonCount → List ReasonCount
count_reason reason [] = record { reason = reason; count = 1 } ∷ []
count_reason reason (r ∷ rs) =
    let rest = count_reason reason rs in
    if text_eq reason r.reason
    then record { reason = r.reason; count = suc r.count } ∷ rs
    else if text_le reason r.reason
    then record { reason = reason; count = 1 } ∷ r ∷ rs
    else r ∷ rest

by_reason : List Email → List ReasonCount
unfolding count_reason
by_reason [] = []
by_reason (e ∷ es) = count_reason e.last_error (by_reason es)

-- ORDER BY COUNT(*) DESC
insert_reason : ReasonCount → List ReasonCount → List ReasonCount
insert_reason r [] = r ∷ []
insert_reason r (x ∷ xs) =
    let rest = insert_reason r xs in if leb x.count r.count then r ∷ x ∷ xs else x ∷ rest

most_frequent : List ReasonCount → List ReasonCount
unfolding insert_reason
most_frequent [] = []
most_frequent (r ∷ rs) = insert_reason r (most_frequent rs)

-- FailureReasons
unfoldable pub failure_reasons : ℕ → ℕ → ℕ → Action (List ReasonCount)
unfolding by_reason most_frequent
failure_reasons from to limit = exec (λ db. (
  ok (
      take limit (
        most_frequent (
          by_reason (
            select (λ (e : Email). is_failed e && in_range from to e && not (is_empty e.last_error))
              db.emails)))),
  db,
))

-- MonthlyStats and TopFailureReasons, with the range that monthRange gives for the month.
unfoldable pub monthly_stats : (Text → ℕ × ℕ) → Text → Action (List DomainStats)
unfolding domain_volume
monthly_stats month_range month = let (from, to) = month_range month in domain_volume from to

unfoldable pub top_failure_reasons : (Text → ℕ × ℕ) → Text → ℕ → Action (List ReasonCount)
unfolding failure_reasons
top_failure_reasons month_range month limit =
    let (from, to) = month_range month in failure_reasons from to limit

-- FailureRate: the failed attempts and all attempts on emails of a domain, since a time.
unfoldable pub failure_rate : ℕ → ℕ → Action (ℕ × ℕ)
failure_rate domain_id since = exec (λ db.
    let of_domain : Attempt → Bool = λ a. of_email a (find? (has_id a.email_id) db.emails) in
    (
      ok (
        affected (λ (a : Attempt). of_domain a && (leb 400 a.smtp_code || a.smtp_code == 0))
            db.delivery_attempts,
        affected of_domain db.delivery_attempts,
      ),
      db,
    ))
  where
    of_email : Attempt → Option Email → Bool
    of_email a none = false
    of_email a (some e) = e.domain_id == domain_id && leb since a.created_at
