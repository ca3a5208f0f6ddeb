-- ===== src/Delivery/Worker/Schedule/Recovered.antt =====
-- What a tick, by any schedule of its goroutines, does to each row of the table of emails.
use doevoe.Base.{
  ℕ, ◌-◌, ◌≤◌, ◌<◌, ◌≡◌, ◌⊎◌, refl, sym, subst, inl, inr, true, false, List, [], ◌∷◌, arith, ◌==◌,
  if◌then◌else◌, Related, Related-refl, update, Bool-cases,
}
use doevoe.Store.{queued, sending, Email, Store, Result, ok, err, exec-ends, fmt_time}
use doevoe.Store.Emails.{is_due, is_stale, claim_due, update_emails, requeue_stale_sending}
use doevoe.Store.Emails.Invariant.{IsTable}
use doevoe.Store.Emails.Preserved.{claim_due-IsTable, requeue_stale_sending-IsTable}
use doevoe.Store.Emails.Claim.Contract.{Claimed, claim_due-Claimed}
use doevoe.Delivery.Worker.{Worker, stale_sending_window}
use doevoe.Delivery.Worker.Effect.{KeepsEmails}
use doevoe.Delivery.Worker.Invariant.{claimed_order, claimed_flight}
use doevoe.Delivery.Worker.Schedule.{start, limit_of, on_claimed_by, tick_by}
use doevoe.Delivery.Worker.Schedule.Flights.{start-Flies, start-Distinct}
use doevoe.Delivery.Worker.Schedule.Rows.{Stands, carried, Touched, untouched, tried, Follows}
use doevoe.Delivery.Worker.Schedule.Batches.{
  run-Follows, claimed-Follows, claimed-WasDue, start-Chosen,
}

-- What becomes of a row in a tick at `at`: a row that no worker can still be sending is put back, a
-- row that is due then may be tried, and any other row stays as it is.
pub data Ticked (at : ℕ) (x y : Email) : Type 0 where
  stayed :
      (x.status ≡ sending → fmt_time (at - stale_sending_window) < x.next_attempt_at)
      → y ≡ x
      → Ticked at x y
  rescued :
      x.status ≡ sending
      → x.next_attempt_at ≤ fmt_time (at - stale_sending_window)
      → y ≡ record x { status = queued }
      → Ticked at x y
  attempted :
      (x.status ≡ queued)
        ⊎ ((x.status ≡ sending) × (x.next_attempt_at ≤ fmt_time (at - stale_sending_window)))
      → x.next_attempt_at ≤ fmt_time at
      → y ≡ carried x y
      → Stands y.status (fmt_time at) x.attempts y
      → Ticked at x y

-- The two statements before the goroutines, row by row.
module _ (at : ℕ) where
  stale_row :
      (x y : Email)
      → is_stale (fmt_time (at - stale_sending_window)) x ≡ true
      → Touched (fmt_time at) (record x { status = queued }) y
      → Ticked at x y
  unfolding is_stale is_due
  stale_row x y stale (untouched same) = rescued (ground arith) (ground arith) same
  stale_row x y stale (tried due same stands) =
      attempted (inr (ground arith, ground arith)) (ground arith) same stands

  fresh_row :
      (x y : Email)
      → is_stale (fmt_time (at - stale_sending_window)) x ≡ false
      → Touched (fmt_time at) x y
      → Ticked at x y
  unfolding is_stale is_due
  fresh_row x y fresh (untouched same) = stayed (λ now_sending. ground (arith, now_sending)) same
  fresh_row x y fresh (tried due same stands) =
      attempted (inl (ground arith)) (ground arith) same stands

  rows-Ticked :
      (xs ys : List Email)
      → Related
          (Follows (fmt_time at))
          (update
            (is_stale (fmt_time (at - stale_sending_window)))
            (λ (e : Email). record e { status = queued })
            xs)
          ys
      → Related (Ticked at) xs ys
  rows-Ticked [] [] h = tt
  rows-Ticked [] (y ∷ ys) h = absurd h
  rows-Ticked (x ∷ xs) [] h = absurd h
  rows-Ticked (x ∷ xs) (y ∷ ys) h = (
    elim (Bool-cases (is_stale (fmt_time (at - stale_sending_window)) x)) [
      | inl stale ↦ stale_row x y stale (rw stale at h.0.1)
      | inr fresh ↦ fresh_row x y fresh (rw fresh at h.0.1)
    ],
    rows-Ticked xs ys h.1,
  )

  -- Where RequeueStaleSending gives no error, it has put back the stale rows.
  requeued_rows :
      (s : Store) (n : ℕ)
      → (requeue_stale_sending (fmt_time (at - stale_sending_window)) s).0 ≡ ok n
      → (requeue_stale_sending (fmt_time (at - stale_sending_window)) s).1.emails
        ≡ update
            (is_stale (fmt_time (at - stale_sending_window)))
            (λ (e : Email). record e { status = queued })
            s.emails
  unfolding requeue_stale_sending update_emails
  requeued_rows s n =
      exec-ends
        (λ r db.
          r ≡ ok n
          → db.emails
            ≡ update (is_stale (fmt_time (at - stale_sending_window)))
                (λ (e : Email). record e { status = queued }) s.emails)
        (update_emails (is_stale (fmt_time (at - stale_sending_window)))
          (λ e. record e { status = queued }))
        s (λ m e. cc) (λ e. refl)

Follows-refl : (since : ℕ) (xs : List Email) → Related (Follows since) xs xs
Follows-refl since = Related-refl (Follows since) (λ x. (refl, untouched refl))

on_claimed_by-Follows :
    (w : Worker) (hook : KeepsEmails w.on_permanent_failure) (at since limit batch : ℕ)
    (schedule : List ℕ) (before : List Email) (r : Result (List Email)) (s : Store)
    → IsTable s.emails
    → Claimed batch since before r s.emails
    → Related (Follows since) before (on_claimed_by w at limit schedule (r, s)).emails
unfolding on_claimed_by start
on_claimed_by-Follows w hook at since limit batch schedule before (err e) s h c =
    subst (Related (Follows since) before) (sym c) (Follows-refl since before)
on_claimed_by-Follows w hook at since limit batch schedule before (ok claimed) s h c =
    run-Follows w hook at since before limit schedule (start claimed s) h
      (start-Flies s.emails claimed (claimed_flight batch since before claimed s h c))
      (start-Distinct claimed (claimed_order batch since before claimed s h c))
      (start-Chosen since before claimed (claimed-WasDue batch since before claimed s.emails h c))
      (claimed-Follows batch since before claimed s.emails h c)

-- If the failure hook leaves the emails alone, the table of emails is valid and the driver does not
-- refuse RequeueStaleSending, then at every moment of a tick, by any schedule of its goroutines
-- with nothing else on the store, whatever the sends come to and whatever else the driver refuses,
-- the rows of the table are those from before, each in its place. A row that is being sent, and was
-- claimed 45 minutes before the tick or earlier, in whole seconds, is queued again or tried. A row
-- is tried only if it was queued, or was such a stale one, and its next attempt is not later than
-- the tick; then it is being sent, stamped with the time of the tick, with its attempts as they
-- were, or it is sent, failed or queued with one attempt more, and at most its status, attempts,
-- last error and the times of its next attempt and of sending have changed. Every other row is as
-- it was, also one that is being sent and was claimed later.
pub tick_by-Ticked :
    (w : Worker) (hook : KeepsEmails w.on_permanent_failure) (limit at : ℕ) (schedule : List ℕ)
    (s : Store) (n : ℕ)
    → IsTable s.emails
    → (requeue_stale_sending (fmt_time (at - stale_sending_window)) s).0 ≡ ok n
    → Related (Ticked at) s.emails (tick_by w limit at schedule s).emails
unfolding tick_by
tick_by-Ticked w hook limit at schedule s n h passed =
    let cutoff = fmt_time (at - stale_sending_window) in
    let requeued = (requeue_stale_sending cutoff s).1 in
    let batch = if w.batch_size == 0 then 10 else w.batch_size in
    let h' = requeue_stale_sending-IsTable cutoff s h in
    let (r, claimed) = claim_due batch (fmt_time at) requeued in
    let after = (on_claimed_by w at (limit_of limit) schedule (r, claimed)).emails in
    rows-Ticked at s.emails after (
      subst (λ rows. Related (Follows (fmt_time at)) rows after) (requeued_rows at s n passed)
        (on_claimed_by-Follows w hook at (fmt_time at) (limit_of limit) batch schedule
          requeued.emails r claimed (claim_due-IsTable batch (fmt_time at) requeued h')
          (claim_due-Claimed batch (fmt_time at) requeued h')))
