-- ===== src/Delivery/Worker/Schedule.antt =====
-- internal/delivery/worker.go: the goroutines of one tick, interleaved. A step of a goroutine is one
-- statement of the store, one call of Send, or one operation on the semaphore of its domain; the
-- marking of an email as failed is one step with its hook. What `process` does to a result is as in
-- Worker.antt.
pub mod Limit
pub mod Progress
pub mod Ends
pub mod Alone
pub mod Flights
pub mod Safe
pub mod Rows
pub mod Batches
pub mod Recovered
use doevoe.Base.{
  ℕ, zero, suc, ◌+◌, ◌-◌, ◌/◌, ◌==◌, ltb, Text, Bool, true, false, ◌&&◌, List, [], ◌∷◌, ◌++◌, codes,
  text_eq, to_lower, after_last_at, if◌then◌else◌, map, select, length,
}
use doevoe.Store.{Email, Domain, Store, Result, ok, err, error_text, fmt_time}
use doevoe.Store.Emails.{claim_due, requeue_stale_sending}
use doevoe.Store.Domains.{get_domain}
use doevoe.Delivery.Worker.{
  Worker, SendResult, SendOutcome, returned, panicked, record_attempt_of, retry_or_fail, after_send,
  wait_for, millisecond, stale_sending_window,
}

-- Where a goroutine stands: at the semaphore, at a statement of `process`, at the deferred release,
-- or at its end. `broken` is an email whose domain did not load, or whose Send panicked.
pub data Phase : Type 0 where
  waiting : Phase
  loading : Phase
  loaded : Domain → Phase
  answered : SendResult → Phase
  recorded : SendResult → Phase
  broken : Text → Phase
  broken_recorded : Text → Phase
  leaving : Phase
  finished : Phase

pub record Thread : Type 0 where
  pub email : Email
  pub phase : Phase

-- The batch of a tick.
pub record Batch : Type 0 where
  pub threads : List Thread
  pub store : Store

-- rcptDomain
abbrev pub rcpt_domain : Email → Text
rcpt_domain e = to_lower (after_last_at e.to)

-- Between `s <- struct{}{}` and `<-s`
abbrev pub is_holding : Phase → Bool
is_holding waiting = false
is_holding finished = false
is_holding _ = true

abbrev pub holds : Text → Thread → Bool
holds domain t = is_holding t.phase && text_eq (rcpt_domain t.email) domain

-- The length of the buffer of a domain's semaphore.
abbrev pub holders : Text → List Thread → ℕ
holders domain [] = 0
holders domain (t ∷ ts) = let rest = holders domain ts in if holds domain t then suc rest else rest

-- The limit of Tick, whose field is PerDomainLimit.
abbrev pub limit_of : ℕ → ℕ
limit_of zero = 2
limit_of (suc n) = suc n

after_load : Result Domain × Store → Phase × Store
after_load (ok d, s) = (loaded d, s)
after_load (err error, s) = (broken (error_text error), s)

after_call : SendOutcome → Store → Phase × Store
after_call (returned res) s = (answered res, wait_for res.duration s)
after_call (panicked value) s = (broken (codes "panic: " ++ value), s)

-- The next step of a goroutine that holds its semaphore.
unfoldable pub advance : Worker → ℕ → Email → Phase → Store → Phase × Store
unfolding after_load after_call
advance w at e waiting s = (waiting, s)
advance w at e loading s = after_load (get_domain e.domain_id s)
advance w at e (loaded d) s = after_call (w.send e d) s
advance w at e (answered res) s = (
  recorded res,
  record_attempt_of e res.code res.mx_host res.response (res.duration / millisecond) s,
)
advance w at e (recorded res) s = (leaving, after_send w e at res.error s)
advance w at e (broken message) s = (broken_recorded message, record_attempt_of e 0 [] message 0 s)
advance w at e (broken_recorded message) s = (leaving, retry_or_fail w e at message s)
advance w at e leaving s = (finished, s)
advance w at e finished s = (finished, s)

-- The step of a goroutine, where its semaphore has room or not.
unfoldable pub move : Worker → ℕ → Bool → Email → Phase → Store → Phase × Store
unfolding advance
move w at room e waiting s = (if room then loading else waiting, s)
move w at room e phase s = advance w at e phase s

-- The step of the goroutine at a place, where `room` tells which semaphores have room.
unfoldable pub move_nth : Worker → ℕ → (Text → Bool) → ℕ → List Thread → Store → List Thread × Store
unfolding move
move_nth w at room i [] s = ([], s)
move_nth w at room zero (t ∷ ts) s =
    let (phase, s') = move w at (room (rcpt_domain t.email)) t.email t.phase s in
    (record t { phase = phase } ∷ ts, s')
move_nth w at room (suc i) (t ∷ ts) s = let (ts', s') = move_nth w at room i ts s in (t ∷ ts', s')

unfoldable pub step : Worker → ℕ → ℕ → ℕ → Batch → Batch
unfolding move_nth
step w at limit i b =
    let (ts, s) =
      move_nth w at (λ domain. ltb (holders domain b.threads) limit) i b.threads b.store in
    record { threads = ts; store = s }

-- The goroutines of a batch, run by a schedule: the places of those that take the steps.
unfoldable pub run : Worker → ℕ → ℕ → List ℕ → Batch → Batch
unfolding step
run w at limit [] b = b
run w at limit (i ∷ is) b = run w at limit is (step w at limit i b)

-- What Tick starts.
unfoldable pub start : List Email → Store → Batch
start es s = record {
  threads = map (λ (e : Email). record { email = e; phase = waiting }) es;
  store = s;
}

unfoldable pub on_claimed_by : Worker → ℕ → ℕ → List ℕ → Result (List Email) × Store → Store
unfolding run start
on_claimed_by w at limit schedule (err error, s) = s
on_claimed_by w at limit schedule (ok emails, s) = (run w at limit schedule (start emails s)).store

-- Tick, as far as a schedule has run its goroutines.
unfoldable pub tick_by : Worker → ℕ → ℕ → List ℕ → Store → Store
unfolding on_claimed_by
tick_by w limit at schedule s =
    let requeued = (requeue_stale_sending (fmt_time (at - stale_sending_window)) s).1 in
    let batch = if w.batch_size == 0 then 10 else w.batch_size in
    on_claimed_by w at (limit_of limit) schedule (claim_due batch (fmt_time at) requeued)
