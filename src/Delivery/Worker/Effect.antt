-- ===== src/Delivery/Worker/Effect.antt =====
-- What processing one email does to the table of emails, whatever the send comes to and whichever
-- statements the driver refuses.
use doevoe.Base.{
  ℕ, ◌+◌, ◌≡◌, refl, ◌∙◌, subst, ◌⊎◌, inl, inr, Text, Bool, Option, none, some, List, [], codes,
  ◌++◌, ◌/◌, arith, update,
}
use doevoe.Store.{
  Email, Domain, Db, Store, Result, ok, err, fmt_time, now, exec, exec-ends, error_text,
}
use doevoe.Store.Emails.{
  has_id, update_emails, sent_row, retry_row, failed_row, mark_sent, mark_retry, mark_failed,
}
use doevoe.Store.Attempts.{record_attempt, insert_attempt}
use doevoe.Store.Domains.{get_domain, select_domain}
use doevoe.Delivery.Backoff.{next_attempt}
use doevoe.Delivery.Classify.{temp, perm, classify, Class, SendError, send_error_text}
use doevoe.Delivery.Worker.{
  SendOutcome, returned, panicked, Worker, record_attempt_of, call_hook, mark_failed_of, retry_at,
  retry_or_fail, by_class, after_send, on_outcome, with_domain, process, wait_for, millisecond,
}

-- The hook leaves the emails alone.
abbrev pub KeepsEmails : Option (ℕ → Store → Store) → Type 0
KeepsEmails none = Unit
KeepsEmails (some hook) = (id : ℕ) (s : Store) → (hook id s).emails ≡ s.emails

-- Nothing is written where the statement is refused. Else the row of the email is marked sent, or
-- due again if its number of attempts allows for one more, or failed.
pub data Processed (e : Email) (at : ℕ) (before after : List Email) : Type 0 where
  kept : after ≡ before → Processed e at before after
  was_sent :
      (sent_at : ℕ)
      → after ≡ update (has_id e.id) (sent_row (fmt_time sent_at)) before
      → Processed e at before after
  will_retry :
      (next : ℕ) (message : Text)
      → next_attempt (e.attempts + 1) at ≡ some next
      → after ≡ update (has_id e.id) (retry_row (fmt_time next) message) before
      → Processed e at before after
  has_failed :
      (message : Text)
      → after ≡ update (has_id e.id) (failed_row message) before
      → Processed e at before after

abbrev Updated : (Email → Bool) → (Email → Email) → List Email → List Email → Type 0
Updated p f before after = (after ≡ before) ⊎ (after ≡ update p f before)

exec_update :
    (p : Email → Bool) (f : Email → Email) (s : Store)
    → Updated p f s.emails (exec (update_emails p f) s).1.emails
unfolding update_emails
exec_update p f s =
    exec-ends (λ r db. Updated p f s.emails db.emails) (update_emails p f) s (λ m. inl refl)
      (inr refl)

pub get_domain-emails : (id : ℕ) (s : Store) → (get_domain id s).1.emails ≡ s.emails
unfolding get_domain
get_domain-emails id s =
    exec-ends (λ r db. db.emails ≡ s.emails) (select_domain id) s (λ m. refl) refl

insert_attempt-emails :
    (id n code : ℕ) (host response : Text) (ms at : ℕ) (db : Db)
    → (insert_attempt id n code host response ms at db).1.emails ≡ db.emails
unfolding insert_attempt
insert_attempt-emails id n code host response ms at db = ground arith

pub record_attempt_of-emails :
    (e : Email) (code : ℕ) (host response : Text) (ms : ℕ) (s : Store)
    → (record_attempt_of e code host response ms s).emails ≡ s.emails
unfolding record_attempt_of record_attempt
record_attempt_of-emails e code host response ms s =
    exec-ends (λ r db. db.emails ≡ s.emails)
      (insert_attempt e.id (e.attempts + 1) code host response ms (now s)) s (λ m. refl)
      (insert_attempt-emails e.id (e.attempts + 1) code host response ms (now s) s.db)

pub call_hook-emails :
    (hook : Option (ℕ → Store → Store))
    → KeepsEmails hook
    → (id : ℕ) (s : Store) → (call_hook hook id s).emails ≡ s.emails
unfolding call_hook
call_hook-emails none h id s = refl
call_hook-emails (some hook) h id s = h id s

-- From an equal table.
starting :
    {e : Email} {at : ℕ} {rows before after : List Email}
    → before ≡ rows
    → Processed e at before after
    → Processed e at rows after
starting {e} {at} {after} same p = subst (λ (l : List Email). Processed e at l after) same p

module _ (w : Worker) (hook : KeepsEmails w.on_permanent_failure) (e : Email) (at : ℕ) where
  mark_failed_of-Processed :
      (message : Text) (s : Store) → Processed e at s.emails (mark_failed_of w e message s).emails
  unfolding mark_failed_of mark_failed
  mark_failed_of-Processed message s =
      let s' = (mark_failed e.id message s).1 in
      let same : (call_hook w.on_permanent_failure e.id s').emails ≡ s'.emails =
        call_hook-emails w.on_permanent_failure hook e.id s' in
      elim (exec_update (has_id e.id) (failed_row message) s) [
        | inl kept_rows ↦ kept (same ∙ kept_rows)
        | inr changed ↦ has_failed message (same ∙ changed)
      ]

  retry_at-Processed :
      (message : Text) (next : Option ℕ) (s : Store)
      → next_attempt (e.attempts + 1) at ≡ next
      → Processed e at s.emails (retry_at w e message next s).emails
  unfolding retry_at mark_retry
  retry_at-Processed message none s h =
      mark_failed_of-Processed (codes "retries exhausted: " ++ message) s
  retry_at-Processed message (some next) s h =
      elim (exec_update (has_id e.id) (retry_row (fmt_time next) message) s) [
        | inl kept_rows ↦ kept kept_rows
        | inr changed ↦ will_retry next message h changed
      ]

  pub retry_or_fail-Processed :
      (message : Text) (s : Store) → Processed e at s.emails (retry_or_fail w e at message s).emails
  unfolding retry_or_fail
  retry_or_fail-Processed message s =
      retry_at-Processed message (next_attempt (e.attempts + 1) at) s refl

  by_class-Processed :
      (message : Text) (c : Class) (s : Store)
      → Processed e at s.emails (by_class w e at message c s).emails
  unfolding by_class
  by_class-Processed message perm s = mark_failed_of-Processed message s
  by_class-Processed message temp s = retry_or_fail-Processed message s

  pub after_send-Processed :
      (error : Option SendError) (s : Store)
      → Processed e at s.emails (after_send w e at error s).emails
  unfolding after_send mark_sent now
  after_send-Processed none s = elim (exec_update (has_id e.id) (sent_row (fmt_time s.clock)) s) [
    | inl kept_rows ↦ kept kept_rows
    | inr changed ↦ was_sent s.clock changed
  ]
  after_send-Processed (some error) s =
      by_class-Processed (send_error_text error) (classify error) s

  on_outcome-Processed :
      (outcome : SendOutcome) (s : Store)
      → Processed e at s.emails (on_outcome w e at outcome s).emails
  unfolding on_outcome
  on_outcome-Processed (returned res) s =
      let s' = wait_for res.duration s in
      starting
        (record_attempt_of-emails e res.code res.mx_host res.response (res.duration / millisecond)
          s')
        (after_send-Processed res.error
          (record_attempt_of e res.code res.mx_host res.response (res.duration / millisecond) s'))
  on_outcome-Processed (panicked value) s =
      let message = codes "panic: " ++ value in
      starting (record_attempt_of-emails e 0 [] message 0 s)
        (retry_or_fail-Processed message (record_attempt_of e 0 [] message 0 s))

  with_domain-Processed :
      (r : Result Domain) (s : Store) → Processed e at s.emails (with_domain w e at (r, s)).emails
  unfolding with_domain
  with_domain-Processed (err error) s =
      starting (record_attempt_of-emails e 0 [] (error_text error) 0 s) (
        retry_or_fail-Processed (error_text error)
          (record_attempt_of e 0 [] (error_text error) 0 s))
  with_domain-Processed (ok d) s = on_outcome-Processed (w.send e d) s

  -- If the failure hook leaves the emails alone, then processing an email leaves the table as it
  -- was, or changes the rows of its id alone, in one of three ways: sent; queued again at the next
  -- attempt that the schedule gives, only if it gives one; or failed.
  pub process-Processed : (s : Store) → Processed e at s.emails (process w e at s).emails
  unfolding process
  process-Processed s =
      let (r, s') = get_domain e.domain_id s in
      starting (get_domain-emails e.domain_id s) (with_domain-Processed r s')
