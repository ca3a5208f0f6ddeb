-- ===== src/Notify/Monthly.antt =====
-- internal/notify/notifier.go: StatsTick, the mail on the last month, and one round of Run. Calendar arithmetic and the
-- printing of quotients are parameters.
pub mod Skipped
pub mod Kept
use doevoe.Base.{
  ℕ, ◌+◌, ◌==◌, Text, Bool, true, false, not, ◌&&◌, Option, none, some, List, [], ◌∷◌, ◌++◌, codes,
  text_eq, is_empty, if◌then◌else◌, find?,
}
use doevoe.Store.{Domain, Store, Result, ok, err}
use doevoe.Store.Domains.{list_domains, verified}
use doevoe.Store.Notify.{get_state, set_state}
use doevoe.Store.Stats.{DomainStats, ReasonCount, monthly_stats, top_failure_reasons}
use doevoe.Notify.{Notifier, digest_tick, enqueue, value_or_empty}
use doevoe.Notify.Rates.{Rates, rate_tick}

pub record Calendar : Type 0 where
  pub month : ℕ → Text  -- the month of a time, as "2006-01"
  pub months_before : ℕ → ℕ → Text  -- that some months before a time
  pub month_range : Text → ℕ × ℕ  -- monthRange
  pub percent : ℕ → ℕ → Text  -- %.1f of a hundred times a quotient; 0 by 0 is 0
  pub difference : ℕ → ℕ → ℕ → ℕ → Text  -- %+.1f of the difference of two such

-- " — ", of which the dash is three bytes.
abbrev dash : Text
dash = 32 ∷ 226 ∷ 128 ∷ 148 ∷ 32 ∷ []

abbrev stats_key : Text
stats_key = codes "last_stats_sent"

-- fmtCounts
unfoldable pub fmt_counts : Notifier → Calendar → DomainStats → Text
fmt_counts n c st =
    n.printing.decimal st.sent
    ++ codes " sent, "
    ++ n.printing.decimal st.failed
    ++ codes " failed ("
    ++ c.percent st.sent (st.sent + st.failed)
    ++ codes "% delivered)"

-- deliveryRate's ok
abbrev pub has_rate : DomainStats → Bool
has_rate st = not (st.sent + st.failed == 0)

-- fmtComparison
unfoldable pub fmt_comparison : Notifier → Calendar → DomainStats → Option DomainStats → Text
unfolding fmt_counts
fmt_comparison n c st none = dash ++ codes "prev month: no activity"
fmt_comparison n c st (some p) =
    dash
    ++ codes "prev month: "
    ++ fmt_counts n c p
    ++ (if has_rate st && has_rate p
        then codes ", "
          ++ c.difference st.sent (st.sent + st.failed) p.sent (p.sent + p.failed)
          ++ codes "pt"
        else [])

abbrev pub of_name : Text → List DomainStats → Option DomainStats
of_name name = find? (λ (st : DomainStats). text_eq st.domain_name name)

active_lines : Notifier → Calendar → List DomainStats → List DomainStats → Text
unfolding fmt_counts fmt_comparison
active_lines n c before [] = []
active_lines n c before (st ∷ sts) =
    codes "- "
    ++ st.domain_name
    ++ codes ": "
    ++ fmt_counts n c st
    ++ fmt_comparison n c st (of_name st.domain_name before)
    ++ 10 ∷ active_lines n c before sts

-- The domains of the month before that are not among those of the month.
silent_line : Notifier → Calendar → DomainStats → Option DomainStats → Text
silent_line n c p (some st) = []
silent_line n c p none =
    codes "- "
    ++ p.domain_name
    ++ codes ": no activity"
    ++ dash
    ++ codes "prev month: "
    ++ fmt_counts n c p
    ++ 10 ∷ []

silent_lines : Notifier → Calendar → List DomainStats → List DomainStats → Text
unfolding silent_line
silent_lines n c stats [] = []
silent_lines n c stats (p ∷ ps) =
    silent_line n c p (of_name p.domain_name stats) ++ silent_lines n c stats ps

no_activity : List DomainStats → List DomainStats → Text
no_activity [] [] = codes "- no email activity\n"
no_activity _ _ = []

reason_lines : Notifier → List ReasonCount → Text
reason_lines n [] = []
reason_lines n (r ∷ rs) =
    codes "- " ++ n.printing.decimal r.count ++ codes "x " ++ r.reason ++ 10 ∷ reason_lines n rs

reason_part : Notifier → List ReasonCount → Text
unfolding reason_lines
reason_part n [] = []
reason_part n (r ∷ rs) = codes "\nTop failure reasons:\n" ++ reason_lines n (r ∷ rs)

domain_lines : List Domain → Text
domain_lines [] = []
domain_lines (d ∷ ds) =
    codes "- "
    ++ d.name
    ++ codes ": "
    ++ (if verified d then codes "OK" else codes "NOT VERIFIED" ++ dash ++ codes "sending blocked")
    ++ 10 ∷ domain_lines ds

-- The body, built by b.
unfoldable pub stats_body :
    Notifier
    → Calendar
    → Text
    → List DomainStats
    → List DomainStats
    → List ReasonCount
    → List Domain
    → Text
unfolding active_lines silent_lines no_activity reason_part domain_lines
stats_body n c month stats before reasons domains =
    codes "doevoe stats for "
    ++ month
    ++ codes "\n\nPer domain:\n"
    ++ active_lines n c before stats
    ++ silent_lines n c stats before
    ++ no_activity stats before
    ++ reason_part n reasons
    ++ codes "\nDNS verification status:\n"
    ++ domain_lines domains

abbrev rows_or_nil : {A : Type 0} → Result (List A) → List A
rows_or_nil (ok l) = l
rows_or_nil (err e) = []

note_sent : Text → Result Bool × Store → Result (Unit {0}) × Store
note_sent current (err e, s) = (err e, s)
note_sent current (ok false, s) = (ok tt, s)
note_sent current (ok true, s) = set_state stats_key current s

with_stats : Notifier → Calendar → ℕ → Result (List DomainStats) × Store → Result (Unit {0}) × Store
unfolding note_sent stats_body
with_stats n c at (err e, s) = (err e, s)
with_stats n c at (ok stats, s) =
    let month = c.months_before 1 at in
    let (before, s1) = monthly_stats c.month_range (c.months_before 2 at) s in
    let (reasons, s2) = top_failure_reasons c.month_range month 5 s1 in
    let (domains, s3) = list_domains s2 in
    note_sent (c.month at) (
      enqueue n (codes "doevoe: monthly stats " ++ month)
        (stats_body n c month stats (rows_or_nil before) (rows_or_nil reasons)
          (rows_or_nil domains))
        s3)

-- StatsTick; an error of GetState is dropped.
unfoldable pub stats_tick : Notifier → Calendar → ℕ → Store → Result (Unit {0}) × Store
unfolding with_stats
stats_tick n c at s =
    let (last, s1) = get_state stats_key s in
    if is_empty (value_or_empty last)
    then set_state stats_key (c.month at) s1
    else if text_eq (value_or_empty last) (c.month at)
    then (ok tt, s1)
    else with_stats n c at (monthly_stats c.month_range (c.months_before 1 at) s1)

-- The ticks of one round of Run, in their order; an error of one is logged, and the next is called.
-- `others` is what the other goroutines do within DigestTick.
unfoldable pub run_round : Notifier → Rates → Calendar → ℕ → (Store → Store) → Store → Store
run_round n rates c at others s =
    let s1 = (digest_tick n at others s).1 in
    let s2 = (rate_tick n rates at s1).1 in (stats_tick n c at s2).1
