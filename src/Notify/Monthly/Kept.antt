-- ===== src/Notify/Monthly/Kept.antt =====
-- StatsTick leaves the time of the last digest alone, so a round of Run leaves that of its DigestTick.
use doevoe.Base.{
  ℕ, ◌∙◌, refl, Text, Bool, true, false, List, ◌++◌, codes, is_empty, text_eq, Bool-cases, inl, inr,
}
use doevoe.Store.{Store, Result, ok, err}
use doevoe.Store.Domains.{list_domains}
use doevoe.Store.Notify.{get_state}
use doevoe.Store.Stats.{
  DomainStats, domain_volume, failure_reasons, monthly_stats, top_failure_reasons,
}
use doevoe.Notify.{Notifier, digest_tick, enqueue, value_or_empty}
use doevoe.Notify.Digest.Kept.{
  KeepsDigest, exec-KeepsDigest, get_state-KeepsDigest, set_state-KeepsDigest,
  list_domains-KeepsDigest, enqueue-KeepsDigest,
}
use doevoe.Notify.Rates.{Rates, rate_tick}
use doevoe.Notify.Rates.Kept.{rate_tick-KeepsDigest}
use doevoe.Notify.Monthly.{
  Calendar, stats_key, rows_or_nil, stats_body, note_sent, with_stats, stats_tick, run_round,
}

monthly_stats-KeepsDigest :
    (range : Text → ℕ × ℕ) (month : Text) (s : Store)
    → KeepsDigest s (monthly_stats range month s).1
unfolding monthly_stats domain_volume
monthly_stats-KeepsDigest range month s = exec-KeepsDigest _ s refl

top_failure_reasons-KeepsDigest :
    (range : Text → ℕ × ℕ) (month : Text) (limit : ℕ) (s : Store)
    → KeepsDigest s (top_failure_reasons range month limit s).1
unfolding top_failure_reasons failure_reasons
top_failure_reasons-KeepsDigest range month limit s = exec-KeepsDigest _ s refl

module _ (n : Notifier) (c : Calendar) (at : ℕ) where
  note_sent-KeepsDigest :
      (current : Text) (r : Result Bool) (s : Store) → KeepsDigest s (note_sent current (r, s)).1
  unfolding note_sent
  note_sent-KeepsDigest current (err e) s = refl
  note_sent-KeepsDigest current (ok false) s = refl
  note_sent-KeepsDigest current (ok true) s = set_state-KeepsDigest stats_key current s refl

  with_stats-KeepsDigest :
      (r : Result (List DomainStats)) (s : Store) → KeepsDigest s (with_stats n c at (r, s)).1
  unfolding with_stats
  with_stats-KeepsDigest (err e) s = refl
  with_stats-KeepsDigest (ok stats) s =
      let month = c.months_before 1 at in
      let (before, s1) = monthly_stats c.month_range (c.months_before 2 at) s in
      let (reasons, s2) = top_failure_reasons c.month_range month 5 s1 in
      let (domains, s3) = list_domains s2 in
      let subject = codes "doevoe: monthly stats " ++ month in
      let body =
        stats_body n c month stats (rows_or_nil before) (rows_or_nil reasons)
          (rows_or_nil domains) in
      let (r, s4) = enqueue n subject body s3 in
      note_sent-KeepsDigest (c.month at) r s4
      ∙ (enqueue-KeepsDigest n subject body s3
          ∙ (list_domains-KeepsDigest s2
              ∙ (top_failure_reasons-KeepsDigest c.month_range month 5 s1
                  ∙ monthly_stats-KeepsDigest c.month_range (c.months_before 2 at) s)))

  stats_tick-KeepsDigest : (s : Store) → KeepsDigest s (stats_tick n c at s).1
  unfolding stats_tick
  stats_tick-KeepsDigest s =
      let (last, s1) = get_state stats_key s in
      let read = get_state-KeepsDigest stats_key s in
      let (r, s2) = monthly_stats c.month_range (c.months_before 1 at) s1 in
      elim (Bool-cases (is_empty (value_or_empty last))) [
        | inl new ↦ rw new (set_state-KeepsDigest stats_key (c.month at) s1 refl ∙ read)
        | inr old ↦ elim (Bool-cases (text_eq (value_or_empty last) (c.month at))) [
          | inl same ↦ rw (old, same) read
          | inr later ↦
              rw (old, later)
                (with_stats-KeepsDigest r s2
                  ∙ (monthly_stats-KeepsDigest c.month_range (c.months_before 1 at) s1 ∙ read))
        ]
      ]

  pub run_round-KeepsDigest :
      (rates : Rates) (others : Store → Store) (s : Store)
      → KeepsDigest (digest_tick n at others s).1 (run_round n rates c at others s)
  unfolding run_round
  run_round-KeepsDigest rates others s =
      let s1 = (digest_tick n at others s).1 in
      stats_tick-KeepsDigest (rate_tick n rates at s1).1 ∙ rate_tick-KeepsDigest n rates at s1
