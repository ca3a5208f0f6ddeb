-- ===== src/Delivery/Worker/Schedule/Safe.antt =====
-- Every order of the goroutines' steps keeps the invariant of the table of emails.
use doevoe.Base.{ℕ, ◌-◌, ◌==◌, ltb, List, [], ◌∷◌, if◌then◌else◌, All, Pairwise}
use doevoe.Store.{Email, Store, Result, ok, err, fmt_time}
use doevoe.Store.Emails.{claim_due, requeue_stale_sending}
use doevoe.Store.Emails.Invariant.{IsTable}
use doevoe.Store.Emails.Preserved.{claim_due-IsTable, requeue_stale_sending-IsTable}
use doevoe.Store.Emails.Claim.Contract.{Claimed, claim_due-Claimed}
use doevoe.Delivery.Worker.{Worker, stale_sending_window}
use doevoe.Delivery.Worker.Effect.{KeepsEmails}
use doevoe.Delivery.Worker.Invariant.{claimed_order, claimed_flight}
use doevoe.Delivery.Worker.Schedule.{
  Batch, holders, step, run, start, limit_of, on_claimed_by, tick_by,
}
use doevoe.Delivery.Worker.Schedule.Flights.{
  Flies, Distinct, move_nth-Kept, start-Flies, start-Distinct,
}

module _ (w : Worker) (hook : KeepsEmails w.on_permanent_failure) (at : ℕ) where
  run-IsTable :
      (limit : ℕ) (schedule : List ℕ) (b : Batch)
      → IsTable b.store.emails
      → All (Flies b.store.emails) b.threads
      → Pairwise Distinct b.threads
      → IsTable (run w at limit schedule b).store.emails
  unfolding run step
  run-IsTable limit [] b h flight far = h
  run-IsTable limit (i ∷ is) b h flight far =
      let k =
        move_nth-Kept w hook at (λ domain. ltb (holders domain b.threads) limit) i b.threads b.store
          h flight far in
      run-IsTable limit is (step w at limit i b) k.table k.flights k.distinct

  -- If the failure hook leaves the emails alone and the table of emails is valid, then it is valid
  -- at every moment of a tick, in whichever order the goroutines of the batch load, send, record
  -- and mark their emails, whatever the sends come to and whichever statements the driver refuses.
  pub tick_by-IsTable :
      (limit : ℕ) (schedule : List ℕ) (s : Store)
      → IsTable s.emails
      → IsTable (tick_by w limit at schedule s).emails
  unfolding tick_by on_claimed_by start
  tick_by-IsTable limit schedule s h =
      let requeued = (requeue_stale_sending (fmt_time (at - stale_sending_window)) s).1 in
      let batch = if w.batch_size == 0 then 10 else w.batch_size in
      let h' = requeue_stale_sending-IsTable (fmt_time (at - stale_sending_window)) s h in
      let (r, claimed) = claim_due batch (fmt_time at) requeued in
      of_claim batch requeued.emails r claimed (claim_due-IsTable batch (fmt_time at) requeued h')
        (claim_due-Claimed batch (fmt_time at) requeued h')
    where
      of_claim :
          (batch : ℕ) (before : List Email) (r : Result (List Email)) (s : Store)
          → IsTable s.emails
          → Claimed batch (fmt_time at) before r s.emails
          → IsTable (on_claimed_by w at (limit_of limit) schedule (r, s)).emails
      of_claim batch before (err e) s h c = h
      of_claim batch before (ok claimed) s h c =
          run-IsTable (limit_of limit) schedule (start claimed s) h
            (start-Flies s.emails claimed (claimed_flight batch (fmt_time at) before claimed s h c))
            (start-Distinct claimed (claimed_order batch (fmt_time at) before claimed s h c))
