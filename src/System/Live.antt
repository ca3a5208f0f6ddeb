-- ===== src/System/Live.antt =====
-- The program as it runs: the goroutines of the worker's tick take their steps between the
-- statements of the requests (api.go), of the operator (admin.go) and of the notifier (notifier.go),
-- on one store. Run (worker.go) calls Tick again only when Tick has returned, that is when the
-- goroutines of the batch have ended (wg.Wait).
pub mod Growth
pub mod Quiet
pub mod Invariant
pub mod Lifecycle
pub mod Repeated
pub mod Served
use doevoe.Base.{ℕ, ◌-◌, ◌==◌, ◌≡◌, Text, Bool, true, false, List, [], if◌then◌else◌, All}
use doevoe.Store.{Email, Store, Result, ok, err, fmt_time}
use doevoe.Store.Emails.{enqueue_email, claim_due, requeue_stale_sending}
use doevoe.Store.Operator.{cancel_email, requeue_email}
use doevoe.Delivery.Worker.{Worker, stale_sending_window}
use doevoe.Delivery.Worker.Schedule.{Phase, finished, Thread, Batch, step, start, limit_of}

abbrev pub is_finished : Phase → Bool
is_finished finished = true
is_finished _ = false

-- wg.Wait() has returned.
abbrev pub Ended : List Thread → Type 0
Ended = All (λ t. is_finished t.phase ≡ true)

abbrev pub start_claimed : Result (List Email) × Store → Batch
start_claimed (err error, s) = record { threads = []; store = s }
start_claimed (ok emails, s) = start emails s

-- The batch that Tick claims.
unfoldable pub claim_batch : Worker → ℕ → Store → Batch
unfolding start
claim_batch w at s =
    let batch = if w.batch_size == 0 then 10 else w.batch_size in
    start_claimed (claim_due batch (fmt_time at) s)

-- A step of the program, where the worker's limit for one domain is PerDomainLimit.
pub data Move (w : Worker) (limit : ℕ) : Batch → Batch → Type 0 where
  -- time passes, the driver gets into or out of trouble, other tables are written or read
  elsewhere :
      {b : Batch} {s : Store} → s.emails ≡ b.store.emails → Move w limit b (record b { store = s })
  -- of a post or a notification
  enqueue :
      {b : Batch} (e : Email) → Move w limit b (record b { store = (enqueue_email e b.store).1 })
  -- the beginning of a tick
  requeue_stale :
      {b : Batch} (at : ℕ)
      → Ended b.threads
      → Move w limit b (record b {
        store = (requeue_stale_sending (fmt_time (at - stale_sending_window)) b.store).1;
      })
  claim : {b : Batch} (at : ℕ) → Ended b.threads → Move w limit b (claim_batch w at b.store)
  -- of the goroutine at a place
  go : {b : Batch} (at i : ℕ) → Move w limit b (step w at (limit_of limit) i b)
  cancel : {b : Batch} (id : ℕ) → Move w limit b (record b { store = (cancel_email id b.store).1 })
  retry :
      {b : Batch} (id : ℕ) (new_to new_to_name : Text)
      → Move w limit b (record b { store = (requeue_email id new_to new_to_name b.store).1 })

pub data Reach (w : Worker) (limit : ℕ) (b : Batch) : Batch → Type 0 where
  here : Reach w limit b b
  next : {c d : Batch} → Reach w limit b c → Move w limit c d → Reach w limit b d
