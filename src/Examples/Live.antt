-- ===== src/Examples/Live.antt =====
-- A tick whose first goroutine has begun when the operator cancels and a request is accepted.
use doevoe.Base.{arith, ◌≡◌, refl, [], ◌∷◌, codes}
use doevoe.Store.{Status, queued, sent, Email, Store, exec, reliable}
use doevoe.Store.Emails.{same_idempotency, may_insert, next_id, enqueue_email, claim_due}
use doevoe.Store.Operator.{cancel_email}
use doevoe.Store.Emails.Invariant.{IsTable}
use doevoe.Delivery.Worker.Schedule.{Batch, step, limit_of}
use doevoe.Notify.Failures.{permanent_failure-emails}
use doevoe.System.Live.{claim_batch, claim, go, cancel, Reach, here, next}
use doevoe.System.Live.Growth.{Grown}
use doevoe.System.Live.Invariant.{Sound}
use doevoe.System.Live.Repeated.{Reach-replay}
use doevoe.Api.Post.{fresh, replay, enqueue_or_replay}
use doevoe.System.Live.Lifecycle.{idle, Reach-Sound, Move-Grown}
use doevoe.Examples.Data.{a_time, row_of, waiting_email, a_db, a_worker}

abbrev sent_email : Email
sent_email = record (row_of 2 sent) { attempts = 1; sent_at = 5 }

abbrev live_store : Store
live_store = reliable (record a_db { emails = waiting_email ∷ sent_email ∷ [] }) a_time

live_store-IsTable : IsTable live_store.emails
unfolding same_idempotency
live_store-IsTable = record {
  each = (
    record { counts = omega arith; sent_at = refl },
    (record { counts = (omega arith, omega arith); sent_at = tt }, tt),
  );
  pairs = ((record { grows = omega arith; differs = refl }, tt), (tt, tt));
}

abbrev claimed_one : Batch
claimed_one = claim_batch a_worker a_time live_store

abbrev gone_one : Batch
gone_one = step a_worker a_time (limit_of 0) 0 claimed_one

abbrev to_gone : Reach a_worker 0 (idle live_store) gone_one
to_gone = next (next here (claim a_time tt)) (go a_time 0)

Reach-Sound_example : Sound gone_one
Reach-Sound_example = Reach-Sound a_worker 0 permanent_failure-emails to_gone live_store-IsTable

abbrev after_cancel : Batch
after_cancel = record gone_one { store = (cancel_email 1 gone_one.store).1 }

Move-Grown_example : Grown gone_one.store.emails after_cancel.store.emails
Move-Grown_example =
    Move-Grown a_worker 0 permanent_failure-emails to_gone (cancel 1) live_store-IsTable

abbrev keyed_email : Email
keyed_email = record (row_of 0 queued) { idempotency_key = codes "k1" }

abbrev posted : Batch
posted = record (idle live_store) { store = (enqueue_or_replay keyed_email live_store).1 }

abbrev claimed_posted : Batch
claimed_posted = claim_batch a_worker a_time posted.store

posted_fresh : (enqueue_or_replay keyed_email live_store).0 ≡ fresh 3
unfolding enqueue_or_replay enqueue_email exec may_insert same_idempotency next_id
posted_fresh = refl

no_faults : claimed_posted.store.faults ≡ []
unfolding enqueue_or_replay enqueue_email exec claim_batch claim_due may_insert same_idempotency
no_faults = refl

Reach-replay_example :
    (status : Status) × (enqueue_or_replay keyed_email claimed_posted.store
      ≡ (replay 3 status, claimed_posted.store))
Reach-replay_example =
    Reach-replay a_worker 0 permanent_failure-emails {s = live_store} {b = idle live_store}
      {c = claimed_posted} keyed_email keyed_email 3 here live_store-IsTable refl refl posted_fresh
      (next here (claim a_time tt)) no_faults refl refl
