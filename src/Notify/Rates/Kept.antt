-- ===== src/Notify/Rates/Kept.antt =====
-- RateTick leaves the time of the last digest alone.
use doevoe.Base.{
  ℕ, ◌-◌, ◌∙◌, refl, leb, Text, Bool, true, false, not, ◌&&◌, Option, none, List, [], ◌∷◌, ◌++◌,
  codes, text_eq, Bool-cases, inl, inr,
}
use doevoe.Store.{Domain, Store, Result, ok, err, Error, fmt_time, hour}
use doevoe.Store.Domains.{list_domains}
use doevoe.Store.Notify.{get_state, set_state}
use doevoe.Store.Stats.{failure_rate}
use doevoe.Notify.{Notifier, enqueue, value_or_empty}
use doevoe.Notify.Digest.Kept.{
  KeepsDigest, exec-KeepsDigest, get_state-KeepsDigest, set_state-KeepsDigest,
  list_domains-KeepsDigest, enqueue-KeepsDigest,
}
use doevoe.Notify.Rates.{
  Rates, rate_key, rate_body, after_set, after_alert, on_rate, rate_all, on_domains, rate_tick,
}

after_set-KeepsDigest :
    (errors : Option Error) (r : Result (Unit {0})) (s : Store)
    → KeepsDigest s (after_set errors (r, s)).1
unfolding after_set
after_set-KeepsDigest errors (err e) s = refl
after_set-KeepsDigest errors (ok u) s = refl

noted :
    (errors : Option Error) (d : Domain) (value : Text) (s : Store)
    → KeepsDigest s (after_set errors (set_state (rate_key d) value s)).1
noted errors d value s =
    let (r, s') = set_state (rate_key d) value s in
    after_set-KeepsDigest errors r s' ∙ set_state-KeepsDigest (rate_key d) value s refl

after_alert-KeepsDigest :
    (d : Domain) (errors : Option Error) (r : Result Bool) (s : Store)
    → KeepsDigest s (after_alert d errors (r, s)).1
unfolding after_alert
after_alert-KeepsDigest d errors (err e) s = refl
after_alert-KeepsDigest d errors (ok false) s = refl
after_alert-KeepsDigest d errors (ok true) s = noted errors d (codes "fired") s

module _ (n : Notifier) (rates : Rates) where
  on_rate-KeepsDigest :
      (d : Domain) (errors : Option Error) (r : Result (ℕ × ℕ)) (s : Store)
      → KeepsDigest s (on_rate n rates d errors (r, s)).1
  unfolding on_rate
  on_rate-KeepsDigest d errors (err e) s = refl
  on_rate-KeepsDigest d errors (ok (failed, total)) s =
      let (state, s1) = get_state (rate_key d) s in
      let read = get_state-KeepsDigest (rate_key d) s in
      let fired = text_eq (value_or_empty state) (codes "fired") in
      elim (Bool-cases (leb rates.min_volume total && rates.reaches failed total && not fired)) [
        | inl alarm ↦ rw alarm (
            let subject = codes "doevoe: elevated failure rate for " ++ d.name in
            let body = rate_body n rates d failed total in
            let (r, s2) = enqueue n subject body s1 in
            after_alert-KeepsDigest d errors r s2 ∙ (enqueue-KeepsDigest n subject body s1 ∙ read))
        | inr calm ↦ elim (Bool-cases (not (rates.reaches failed total) && fired)) [
          | inl fallen ↦ rw (calm, fallen) (noted errors d [] s1 ∙ read)
          | inr same ↦ rw (calm, same) read
        ]
      ]

  rate_all-KeepsDigest :
      (since : ℕ) (ds : List Domain) (errors : Option Error) (s : Store)
      → KeepsDigest s (rate_all n rates since ds errors s).1
  unfolding rate_all failure_rate
  rate_all-KeepsDigest since [] errors s = refl
  rate_all-KeepsDigest since (d ∷ ds) errors s =
      let (r, s1) = failure_rate d.id since s in
      let (errors', s2) = on_rate n rates d errors (r, s1) in
      rate_all-KeepsDigest since ds errors' s2
      ∙ (on_rate-KeepsDigest d errors r s1 ∙ exec-KeepsDigest _ s refl)

  pub rate_tick-KeepsDigest : (at : ℕ) (s : Store) → KeepsDigest s (rate_tick n rates at s).1
  unfolding rate_tick
  rate_tick-KeepsDigest at s =
      let (r, s') = list_domains s in
      of_domains (fmt_time (at - hour)) r s' ∙ list_domains-KeepsDigest s
    where
      of_domains :
          (since : ℕ) (r : Result (List Domain)) (s' : Store)
          → KeepsDigest s' (on_domains n rates since (r, s')).1
      of_domains since (err e) s' = unfold on_domains in refl
      of_domains since (ok ds) s' = unfold on_domains in rate_all-KeepsDigest since ds none s'
