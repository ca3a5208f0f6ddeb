-- ===== src/Delivery/Worker/Invariant.antt =====
-- A tick of the worker keeps the invariant of the table of emails.
use doevoe.Base.{
  ℕ, ◌+◌, ◌-◌, ◌≤◌, ◌≡◌, refl, sym, subst, ◌∙◌, ◌≢◌, true, List, [], ◌∷◌, arith, ◌==◌, ==_iff, All,
  All-map, All-zip, All-select, Pairwise, Pairwise-select, update, set_if, select, Bool-cases, inl,
  inr, if◌then◌else◌, Text,
}
use doevoe.Store.{sending, Email, Store, Result, ok, err, fmt_time}
use doevoe.Store.Emails.{has_id, sent_row, retry_row, failed_row, claim_due, requeue_stale_sending}
use doevoe.Store.Emails.Invariant.{IsRow, InOrder, IsTable, KeepsKeys, update-IsTable}
use doevoe.Store.Emails.Preserved.{same_keys, claim_due-IsTable, requeue_stale_sending-IsTable}
use doevoe.Store.Emails.Claim.{IsOnly, rows_unique}
use doevoe.Store.Emails.Claim.Contract.{Claimed, claim_due-Claimed}
use doevoe.Delivery.Backoff.{next_attempt_range}
use doevoe.Delivery.Worker.{Worker, process, process_all, on_claimed, tick, stale_sending_window}
use doevoe.Delivery.Worker.Effect.{
  KeepsEmails, Processed, kept, was_sent, will_retry, has_failed, process-Processed,
}

-- The row of a claimed email is being sent, at the attempts that it was claimed with.
abbrev pub InFlight : List Email → Email → Type 0
InFlight rows e =
    All (λ (x : Email). x.id ≡ e.id → (x.status ≡ sending) × (x.attempts ≡ e.attempts)) rows

sent_row-IsRow : (at : ℕ) (x : Email) → x.status ≡ sending → IsRow x → IsRow (sent_row at x)
unfolding sent_row
sent_row-IsRow at x s r = ground arith

failed_row-IsRow :
    (message : Text) (x : Email) → x.status ≡ sending → IsRow x → IsRow (failed_row message x)
unfolding failed_row
failed_row-IsRow message x s r = ground arith

retry_row-IsRow :
    (at : ℕ) (message : Text) (x : Email)
    → x.attempts + 1 ≤ 7
    → x.status ≡ sending
    → IsRow x
    → IsRow (retry_row at message x)
unfolding retry_row
retry_row-IsRow at message x few s r = ground arith

-- The changes of `Processed` as updates of rows that are in flight.
module _ (e : Email) (rows : List Email) (flight : InFlight rows e) (h : IsTable rows) where
  on_own_row :
      (f : Email → Email)
      → KeepsKeys f
      → ((x : Email) → x.status ≡ sending → x.attempts ≡ e.attempts → IsRow x → IsRow (f x))
      → IsTable (update (has_id e.id) f rows)
  on_own_row f keys fits =
      update-IsTable (has_id e.id) f keys rows
        (All-map _ _ (λ x same met r. let (s, a) = same ((==_iff x.id e.id).0 met) in fits x s a r)
          rows flight)
        h

  pub Processed-IsTable : (at : ℕ) (after : List Email) → Processed e at rows after → IsTable after
  Processed-IsTable at after (kept same) = subst IsTable (sym same) h
  Processed-IsTable at after (was_sent sent_at eq) = subst IsTable (sym eq) (
      on_own_row (sent_row (fmt_time sent_at))
        (unfold sent_row in same_keys _ (λ x. (refl, refl, refl)))
        (λ x s a r. sent_row-IsRow (fmt_time sent_at) x s r))
  Processed-IsTable at after (will_retry next message more eq) = subst IsTable (sym eq) (
      on_own_row (retry_row (fmt_time next) message)
        (unfold retry_row in same_keys _ (λ x. (refl, refl, refl)))
        (λ x s a r.
          retry_row-IsRow (fmt_time next) message x
            (omega (arith, next_attempt_range (e.attempts + 1) at next more)) s r))
  Processed-IsTable at after (has_failed message eq) = subst IsTable (sym eq) (
      on_own_row (failed_row message) (unfold failed_row in same_keys _ (λ x. (refl, refl, refl)))
        (λ x s a r. failed_row-IsRow message x s r))

-- A change of the row of `e` alone leaves other emails in flight.
flight_elsewhere :
    (e : Email) (f : Email → Email)
    → KeepsKeys f
    → (rows : List Email) → (other : Email) → e.id ≢ other.id
    → InFlight rows other
    → InFlight (update (has_id e.id) f rows) other
flight_elsewhere e f keys [] other ne h = tt
flight_elsewhere e f keys (x ∷ xs) other ne h =
    (one x h.0, flight_elsewhere e f keys xs other ne h.1)
  where
    one :
        (x : Email)
        → (x.id ≡ other.id → (x.status ≡ sending) × (x.attempts ≡ other.attempts))
        → (set_if (has_id e.id) f x).id ≡ other.id
        → ((set_if (has_id e.id) f x).status ≡ sending)
          × ((set_if (has_id e.id) f x).attempts ≡ other.attempts)
    one x g same = elim (Bool-cases (x.id == e.id)) [
      | inl own ↦ absurd (ne (sym ((==_iff x.id e.id).0 own) ∙ (sym (keys.id x) ∙ shown own)))
      | inr foreign ↦ rw foreign (g (rw foreign at same))
    ]
      where
        shown : (x.id == e.id) ≡ true → (f x).id ≡ other.id
        shown own = rw own at same

pub Processed-InFlight :
    (e : Email) (at : ℕ) (rows after : List Email) (other : Email)
    → e.id ≢ other.id
    → InFlight rows other
    → Processed e at rows after
    → InFlight after other
Processed-InFlight e at rows after other ne h (kept same) =
    subst (λ l. InFlight l other) (sym same) h
Processed-InFlight e at rows after other ne h (was_sent sent_at eq) =
    subst (λ l. InFlight l other) (sym eq)
      (flight_elsewhere e (sent_row (fmt_time sent_at))
        (unfold sent_row in same_keys _ (λ x. (refl, refl, refl))) rows other ne h)
Processed-InFlight e at rows after other ne h (will_retry next message more eq) =
    subst (λ l. InFlight l other) (sym eq)
      (flight_elsewhere e (retry_row (fmt_time next) message)
        (unfold retry_row in same_keys _ (λ x. (refl, refl, refl))) rows other ne h)
Processed-InFlight e at rows after other ne h (has_failed message eq) =
    subst (λ l. InFlight l other) (sym eq)
      (flight_elsewhere e (failed_row message)
        (unfold failed_row in same_keys _ (λ x. (refl, refl, refl))) rows other ne h)

-- What a batch is claimed from is sorted, and its emails are in flight.
module _ (limit since : ℕ) (before claimed : List Email) (s : Store) (h : IsTable s.emails)
    (c : Claimed limit since before (ok claimed) s.emails) where
  pub claimed_order : Pairwise InOrder claimed
  claimed_order =
      subst (Pairwise InOrder) (sym c.returned) (Pairwise-select InOrder c.chosen s.emails h.pairs)

  pub claimed_flight : All (InFlight s.emails) claimed
  claimed_flight =
      All-map (λ e. IsOnly s.emails e × ((e.status ≡ sending) × (e.next_attempt_at ≡ since)))
        (InFlight s.emails)
        (λ e both.
          All-map _ _ (λ x only same. let own = only same in (rw own both.1.0, rw own)) s.emails
            both.0)
        claimed
        (All-zip (IsOnly s.emails) _ claimed
          (subst (All (IsOnly s.emails)) (sym c.returned) (
            All-map _ _ (λ e both. both.0) (select c.chosen s.emails)
              (All-select (IsOnly s.emails) c.chosen s.emails (rows_unique s.emails h.pairs))))
          c.in_flight)

module _ (w : Worker) (hook : KeepsEmails w.on_permanent_failure) (at : ℕ) where
  -- A batch of emails in flight, with growing ids, is processed and the table stays valid.
  process_all-IsTable :
      (batch : List Email) (s : Store)
      → Pairwise InOrder batch
      → All (InFlight s.emails) batch
      → IsTable s.emails
      → IsTable (process_all w at batch s).emails
  unfolding process_all
  process_all-IsTable [] s order flight h = h
  process_all-IsTable (e ∷ es) s order flight h =
      let done = process-Processed w hook e at s in
      process_all-IsTable es (process w e at s) order.1
        (All-map (λ other. InOrder e other × InFlight s.emails other) _
          (λ other both.
            Processed-InFlight e at s.emails (process w e at s).emails other
              (λ same. absurd (omega (arith, both.0.grows, same))) both.1 done)
          es (All-zip (InOrder e) (InFlight s.emails) es order.0 flight.1))
        (Processed-IsTable e s.emails flight.0 h at (process w e at s).emails done)

  on_claimed-IsTable :
      (limit since : ℕ) (before : List Email) (r : Result (List Email)) (s : Store)
      → IsTable s.emails
      → Claimed limit since before r s.emails
      → IsTable (on_claimed w at (r, s)).1.emails
  unfolding on_claimed
  on_claimed-IsTable limit since before (err e) s h c = h
  on_claimed-IsTable limit since before (ok claimed) s h c =
      process_all-IsTable claimed s (claimed_order limit since before claimed s h c)
        (claimed_flight limit since before claimed s h c) h

  -- If the failure hook leaves the emails alone and the table of emails is valid, then it is valid
  -- after a tick of the worker, whatever the sends come to and whichever statements the driver
  -- refuses. In a valid table ids grow along the table, no two emails of one API key share an
  -- idempotency key, a queued, sending or canceled email has had at most seven attempts, a sent or
  -- failed one between one and eight, and only a sent one has a time of sending.
  pub tick-IsTable : (s : Store) → IsTable s.emails → IsTable (tick w at s).1.emails
  unfolding tick
  tick-IsTable s h =
      let requeued = (requeue_stale_sending (fmt_time (at - stale_sending_window)) s).1 in
      let batch = if w.batch_size == 0 then 10 else w.batch_size in
      let h' = requeue_stale_sending-IsTable (fmt_time (at - stale_sending_window)) s h in
      let (r, claimed) = claim_due batch (fmt_time at) requeued in
      on_claimed-IsTable batch (fmt_time at) requeued.emails r claimed
        (claim_due-IsTable batch (fmt_time at) requeued h')
        (claim_due-Claimed batch (fmt_time at) requeued h')
