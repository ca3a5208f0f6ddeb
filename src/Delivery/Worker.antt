-- ===== src/Delivery/Worker.antt =====
-- internal/delivery/worker.go: one tick of the worker, which requeues stale emails, claims a batch
-- and processes each email of it. `Send` and `OnPermanentFailure` are the worker's function fields,
-- here parameters. `process_all` runs the goroutines of a batch one after the other, in the order of
-- the batch; Schedule has their interleavings.
pub mod Effect
pub mod Invariant
pub mod Verdict
pub mod Schedule
use doevoe.Base.{
  ℕ, ◌+◌, ◌-◌, ◌*◌, ◌/◌, Text, Bool, Option, none, some, List, [], ◌∷◌, ◌++◌, ◌==◌, codes,
  if◌then◌else◌,
}
use doevoe.Store.{Email, Domain, Store, Result, ok, err, error_text, minute, fmt_time, now}
use doevoe.Store.Emails.{claim_due, requeue_stale_sending, mark_sent, mark_retry, mark_failed}
use doevoe.Store.Attempts.{record_attempt}
use doevoe.Store.Domains.{get_domain}
use doevoe.Delivery.Backoff.{next_attempt}
use doevoe.Delivery.Classify.{SendError, Class, temp, perm, classify, send_error_text}

-- Result of sender.go; durations are in nanoseconds.
pub record SendResult : Type 0 where
  pub mx_host : Text
  pub code : ℕ
  pub response : Text
  pub duration : ℕ
  pub error : Option SendError
  pub tls : Bool

-- What a call of `Send` comes to: its result, or a panic with the text of its value.
pub data SendOutcome : Type 0 where
  returned : SendResult → SendOutcome
  panicked : Text → SendOutcome

pub record Worker : Type 0 where
  pub send : Email → Domain → SendOutcome
  pub batch_size : ℕ
  pub on_permanent_failure : Option (ℕ → Store → Store)

-- staleSendingWindow
abbrev pub stale_sending_window : ℕ
stale_sending_window = 45 * minute

abbrev pub millisecond : ℕ
millisecond = 1000000

-- recordAttempt logs an error of the store, and goes on.
unfoldable pub record_attempt_of : Email → ℕ → Text → Text → ℕ → Store → Store
record_attempt_of e code mx_host response duration_ms s =
    (record_attempt e.id (e.attempts + 1) code mx_host response duration_ms s).1

pub call_hook : Option (ℕ → Store → Store) → ℕ → Store → Store
call_hook none id s = s
call_hook (some hook) id s = hook id s

-- markFailed calls the hook also where MarkFailed was refused.
unfoldable pub mark_failed_of : Worker → Email → Text → Store → Store
unfolding call_hook
mark_failed_of w e message s = call_hook w.on_permanent_failure e.id (mark_failed e.id message s).1

-- retryOrFail
retry_at : Worker → Email → Text → Option ℕ → Store → Store
retry_at w e message none s = mark_failed_of w e (codes "retries exhausted: " ++ message) s
retry_at w e message (some next) s = (mark_retry e.id (fmt_time next) message s).1

unfoldable pub retry_or_fail : Worker → Email → ℕ → Text → Store → Store
unfolding retry_at
retry_or_fail w e at message s = retry_at w e message (next_attempt (e.attempts + 1) at) s

-- The clock has moved on by the time that the send took.
abbrev pub wait_for : ℕ → Store → Store
wait_for duration s = record s { clock = s.clock + duration }

by_class : Worker → Email → ℕ → Text → Class → Store → Store
by_class w e at message perm s = mark_failed_of w e message s
by_class w e at message temp s = retry_or_fail w e at message s

-- The end of `process`, once the attempt is recorded.
unfoldable pub after_send : Worker → Email → ℕ → Option SendError → Store → Store
unfolding by_class
after_send w e at none s = (mark_sent e.id (now s) s).1
after_send w e at (some error) s = by_class w e at (send_error_text error) (classify error) s

unfoldable pub on_outcome : Worker → Email → ℕ → SendOutcome → Store → Store
unfolding after_send
on_outcome w e at (returned res) s = after_send w e at res.error (
    record_attempt_of e res.code res.mx_host res.response (res.duration / millisecond)
      (wait_for res.duration s))
on_outcome w e at (panicked value) s =
    let message = codes "panic: " ++ value in
    retry_or_fail w e at message (record_attempt_of e 0 [] message 0 s)

unfoldable pub with_domain : Worker → Email → ℕ → Result Domain × Store → Store
unfolding on_outcome
with_domain w e at (err error, s) =
    retry_or_fail w e at (error_text error) (record_attempt_of e 0 [] (error_text error) 0 s)
with_domain w e at (ok d, s) = on_outcome w e at (w.send e d) s

unfoldable pub process : Worker → Email → ℕ → Store → Store
unfolding with_domain
process w e at s = with_domain w e at (get_domain e.domain_id s)

-- The goroutines that Tick starts and waits for.
unfoldable pub process_all : Worker → ℕ → List Email → Store → Store
process_all w at [] s = s
process_all w at (e ∷ es) s = process_all w at es (process w e at s)

on_claimed : Worker → ℕ → Result (List Email) × Store → Result (Unit {0}) × Store
on_claimed w at (err error, s) = (err error, s)
on_claimed w at (ok emails, s) = (ok tt, process_all w at emails s)

-- An error of RequeueStaleSending is logged; one of ClaimDue ends the tick.
unfoldable pub tick : Worker → ℕ → Store → Result (Unit {0}) × Store
unfolding on_claimed
tick w at s =
    let requeued = (requeue_stale_sending (fmt_time (at - stale_sending_window)) s).1 in
    let batch = if w.batch_size == 0 then 10 else w.batch_size in
    on_claimed w at (claim_due batch (fmt_time at) requeued)
