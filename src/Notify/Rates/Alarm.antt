-- ===== src/Notify/Rates/Alarm.antt =====
-- RateTick for one domain is an alarm that goes off once, and is armed again when the rate falls.
use doevoe.Base.{
  ℕ, ◌≡◌, refl, ap, leb, Text, Bool, true, false, ◌&&◌, ◌||◌, not, Option, none, some, [], ◌∷◌,
  ◌++◌, codes, text_eq, after_last_at, if◌then◌else◌, find?,
}
use doevoe.Store.{Email, Domain, Db, Store, Result, ok, exec, reliable, now, Error}
use doevoe.Store.Emails.{
  next_id, may_insert, some_row, inserted_row, with_defaults, insert_email, enqueue_email,
}
use doevoe.Store.Domains.{is_named, verified, get_domain_by_name, select_domain_by_name}
use doevoe.Store.Notify.{state_value, put_value, state_value-put_value, get_state, set_state}
use doevoe.Store.Reads.{found_by_id, unkeyed}
use doevoe.Store.Stats.{failure_rate}
use doevoe.Notify.{Notifier, notification, enqueue_from, enqueue}
use doevoe.Notify.Rates.{Rates, rate_key, rate_body, on_rate}

-- What is kept of a domain is whether its alarm is off.
abbrev pub is_fired : Domain → Db → Bool
is_fired d db = text_eq (state_value (rate_key d) db.notify_state) (codes "fired")

-- The alarm: `enough` attempts, of which the rate of failures `reaches` the threshold.
abbrev pub goes_off : Bool → Bool → Bool → Bool
goes_off enough reaches fired = enough && reaches && not fired

abbrev pub fired_after : Bool → Bool → Bool → Bool
fired_after enough reaches fired = (enough && reaches) || (reaches && fired)

module _ (n : Notifier) (db : Db) (clock : ℕ) (system : Domain)
    (found : find? (is_named (after_last_at n.system_from)) db.domains ≡ some system)
    (is_verified : verified system ≡ true) where
  abbrev pub notified : Text → Text → Db
  notified subject body = record db {
    emails =
        db.emails
        ++ inserted_row (next_id (λ (r : Email). r.id) db.emails)
            (with_defaults (now (reliable db clock)) (notification n system subject body))
          ∷ [];
  }

  enqueue_ok :
      (subject body : Text)
      → enqueue n subject body (reliable db clock)
        ≡ (ok true, reliable (notified subject body) clock)
  unfolding enqueue enqueue_from get_domain_by_name select_domain_by_name exec enqueue_email
      insert_email
  enqueue_ok subject body = rw (found, is_verified, may) refl
    where
      may :
          may_insert
            (with_defaults (now (reliable db clock)) (notification n system subject body))
            db
          ≡ true
      may =
          unfold may_insert with_defaults notification in
          rw
            (
              found_by_id (λ (x : Domain). x.id) (is_named (after_last_at n.system_from)) db.domains
                  found,
              unkeyed 0 db.emails,
            )
            (unfold some_row in refl)

  set_ok :
      (key value : Text) (t : Db)
      → set_state key value (reliable t clock)
        ≡ (ok tt, reliable (record t { notify_state = put_value key value t.notify_state }) clock)
  unfolding set_state exec
  set_ok key value t = refl

  -- What a tick does for the domain, with `failed` of `total` attempts.
  abbrev pub Ticked : Rates → Domain → ℕ → ℕ → Option Error × Store → Type 0
  Ticked rates d failed total (e, s') =
      let enough = leb rates.min_volume total in
      let reaches = rates.reaches failed total in
      (e ≡ none)
      × (is_fired d s'.db ≡ fired_after enough reaches (is_fired d db))
      × (s'.emails ≡ (
          if goes_off enough reaches (is_fired d db)
          then (notified (codes "doevoe: elevated failure rate for " ++ d.name)
              (rate_body n rates d failed total)).emails
          else db.emails))

  on_counts :
      (rates : Rates) (d : Domain) (failed total : ℕ) (enough reaches fired : Bool)
      → leb rates.min_volume total ≡ enough
      → rates.reaches failed total ≡ reaches
      → is_fired d db ≡ fired
      → Ticked rates d failed total (on_rate n rates d none (ok (failed, total), reliable db clock))
  unfolding on_rate get_state exec
  on_counts rates d failed total true true false h k f =
      let subject = codes "doevoe: elevated failure rate for " ++ d.name in
      let body = rate_body n rates d failed total in
      rw
        (
          h,
          k,
          f,
          enqueue_ok subject body,
          set_ok (rate_key d) (codes "fired") (notified subject body),
        )
        (refl, rw (state_value-put_value (rate_key d) (codes "fired") db.notify_state) refl, refl)
  on_counts rates d failed total true true true h k f = rw (h, k, f) (refl, f, refl)
  on_counts rates d failed total true false true h k f =
      rw (h, k, f, set_ok (rate_key d) [] db)
        (refl, rw (state_value-put_value (rate_key d) [] db.notify_state) refl, refl)
  on_counts rates d failed total true false false h k f = rw (h, k, f) (refl, f, refl)
  on_counts rates d failed total false true true h k f = rw (h, k, f) (refl, refl, refl)
  on_counts rates d failed total false true false h k f = rw (h, k, f) (refl, refl, refl)
  on_counts rates d failed total false false true h k f =
      rw (h, k, f, set_ok (rate_key d) [] db)
        (refl, rw (state_value-put_value (rate_key d) [] db.notify_state) refl, refl)
  on_counts rates d failed total false false false h k f = rw (h, k, f) (refl, f, refl)

  -- If the driver refuses nothing and the domain of the notifier's address is there and verified,
  -- then RateTick works on a domain as an alarm: with the counted attempts it gives no error,
  -- queues one alert exactly if the volume and the rate reach their bounds and the alarm is not off
  -- yet, and afterwards the alarm is off exactly if it just went off, or was off and the rate still
  -- reaches the threshold.
  pub on_rate-Ticked :
      (rates : Rates) (d : Domain) (since failed total : ℕ)
      → (failure_rate d.id since (reliable db clock)).0 ≡ ok (failed, total)
      → Ticked rates d failed total
          (on_rate n rates d none (failure_rate d.id since (reliable db clock)))
  unfolding failure_rate exec
  on_rate-Ticked rates d since failed total counted =
      let read : failure_rate d.id since (reliable db clock)
          ≡ (ok (failed, total), reliable db clock) =
        ap (λ (r : Result (ℕ × ℕ)). (r, reliable db clock)) counted in
      rw read (
        on_counts rates d failed total (leb rates.min_volume total) (rates.reaches failed total)
          (is_fired d db) refl refl refl)
