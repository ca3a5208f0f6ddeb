-- ===== src/Delivery/Worker/Verdict.antt =====
-- The verdict on a processed email, where the driver refuses nothing and the email's domain is there.
use doevoe.Base.{
  ℕ, ◌+◌, ◌≡◌, refl, subst, ap, ◌∙◌, Text, Bool, true, false, Option, none, some, List, [], codes,
  ◌++◌, ◌/◌, arith, update, find?, leb, if◌then◌else◌,
}
use doevoe.Store.{
  Status, queued, sent, failed, Email, Domain, Store, Result, fmt_time, now, exec, exec_reliable,
}
use doevoe.Store.Emails.{
  has_id, update_emails, sent_row, retry_row, failed_row, mark_sent, mark_retry, mark_failed,
}
use doevoe.Store.Attempts.{record_attempt, insert_attempt}
use doevoe.Store.Domains.{get_domain, select_domain, is_domain}
use doevoe.Delivery.Backoff.{next_attempt, delay_after}
use doevoe.Delivery.Classify.{temp, perm, classify, Class, SendError, send_error_text}
use doevoe.Delivery.Worker.{
  SendOutcome, returned, panicked, Worker, record_attempt_of, mark_failed_of, retry_at,
  retry_or_fail, by_class, after_send, on_outcome, with_domain, process, wait_for, millisecond,
}
use doevoe.Delivery.Worker.Effect.{KeepsEmails, call_hook-emails, record_attempt_of-emails}

-- What is to become of an email with so many attempts before this one: seven retries at most.
abbrev pub after_failure : Class → ℕ → Status
after_failure perm attempts = failed
after_failure temp attempts = if leb attempts 6 then queued else failed

abbrev pub verdict : SendOutcome → ℕ → Status
verdict (panicked value) attempts = after_failure temp attempts
verdict (returned res) attempts = elim res.error [
  | none ↦ sent
  | some error ↦ after_failure (classify error) attempts
]

-- The rows of the email take the status, and count one attempt more.
pub record Settled (status : Status) (e : Email) (before after : List Email) : Type 0 where
  pub change : Email → Email
  pub rows : after ≡ update (has_id e.id) change before
  pub decided : (x : Email) → (change x).status ≡ status
  pub counted : (x : Email) → (change x).attempts ≡ x.attempts + 1

next_attempt-none :
    (attempts at : ℕ) → next_attempt (attempts + 1) at ≡ none → leb attempts 6 ≡ false
unfolding next_attempt delay_after
next_attempt-none attempts at h = ground arith

next_attempt-some :
    (attempts at next : ℕ) → next_attempt (attempts + 1) at ≡ some next → leb attempts 6 ≡ true
unfolding next_attempt delay_after
next_attempt-some attempts at next h = ground arith

quiet_update :
    (p : Email → Bool) (f : Email → Email) (s : Store)
    → s.faults ≡ []
    → (exec (update_emails p f) s).1.emails ≡ update p f s.emails
unfolding update_emails
quiet_update p f s quiet =
    ap (λ (q : Result ℕ × Store). q.1.emails) (exec_reliable (update_emails p f) s quiet)

quiet_record :
    (e : Email) (code : ℕ) (host response : Text) (ms : ℕ) (s : Store)
    → s.faults ≡ []
    → (record_attempt_of e code host response ms s).faults ≡ []
unfolding record_attempt_of record_attempt
quiet_record e code host response ms s quiet =
    ap (λ (q : Result (Unit {0}) × Store). q.1.faults)
      (exec_reliable (insert_attempt e.id (e.attempts + 1) code host response ms (now s)) s quiet)
    ∙ quiet

from_same :
    {v : Status} {e : Email} {rows before after : List Email}
    → before ≡ rows
    → Settled v e before after
    → Settled v e rows after
from_same {v} {e} {after = after} same h = subst (λ (l : List Email). Settled v e l after) same h

module _ (w : Worker) (hook : KeepsEmails w.on_permanent_failure) (e : Email) (at : ℕ) where
  mark_failed_of-Settled :
      (message : Text) (s : Store)
      → s.faults ≡ []
      → Settled failed e s.emails (mark_failed_of w e message s).emails
  unfolding mark_failed_of mark_failed failed_row
  mark_failed_of-Settled message s quiet = record {
    change = failed_row message;
    rows =
        call_hook-emails w.on_permanent_failure hook e.id (mark_failed e.id message s).1
        ∙ quiet_update (has_id e.id) (failed_row message) s quiet;
    decided = λ x. refl;
    counted = λ x. refl;
  }

  retry_at-Settled :
      (message : Text) (next : Option ℕ) (s : Store)
      → s.faults ≡ []
      → next_attempt (e.attempts + 1) at ≡ next
      → Settled (after_failure temp e.attempts) e s.emails (retry_at w e message next s).emails
  unfolding retry_at mark_retry retry_row
  retry_at-Settled message none s quiet h =
      rw (next_attempt-none e.attempts at h)
        (mark_failed_of-Settled (codes "retries exhausted: " ++ message) s quiet)
  retry_at-Settled message (some next) s quiet h =
      rw (next_attempt-some e.attempts at next h) (record {
        change = retry_row (fmt_time next) message;
        rows = quiet_update (has_id e.id) (retry_row (fmt_time next) message) s quiet;
        decided = λ x. refl;
        counted = λ x. refl;
      })

  by_class-Settled :
      (message : Text) (c : Class) (s : Store)
      → s.faults ≡ []
      → Settled (after_failure c e.attempts) e s.emails (by_class w e at message c s).emails
  unfolding by_class retry_or_fail
  by_class-Settled message perm s quiet = mark_failed_of-Settled message s quiet
  by_class-Settled message temp s quiet =
      retry_at-Settled message (next_attempt (e.attempts + 1) at) s quiet refl

  after_send-Settled :
      (error : Option SendError) (s : Store)
      → s.faults ≡ []
      → Settled
          (elim error [ none ↦ sent | some x ↦ after_failure (classify x) e.attempts ])
          e
          s.emails
          (after_send w e at error s).emails
  unfolding after_send mark_sent sent_row
  after_send-Settled none s quiet = record {
    change = sent_row (now s);
    rows = quiet_update (has_id e.id) (sent_row (now s)) s quiet;
    decided = λ x. refl;
    counted = λ x. refl;
  }
  after_send-Settled (some error) s quiet =
      by_class-Settled (send_error_text error) (classify error) s quiet

  on_outcome-Settled :
      (o : SendOutcome) (s : Store)
      → s.faults ≡ []
      → Settled (verdict o e.attempts) e s.emails (on_outcome w e at o s).emails
  unfolding on_outcome retry_or_fail
  on_outcome-Settled (returned res) s quiet =
      let s' = wait_for res.duration s in
      from_same
        (record_attempt_of-emails e res.code res.mx_host res.response (res.duration / millisecond)
          s')
        (after_send-Settled res.error
          (record_attempt_of e res.code res.mx_host res.response (res.duration / millisecond) s')
          (quiet_record e res.code res.mx_host res.response (res.duration / millisecond) s' quiet))
  on_outcome-Settled (panicked value) s quiet =
      let message = codes "panic: " ++ value in
      from_same (record_attempt_of-emails e 0 [] message 0 s) (
        retry_at-Settled message (next_attempt (e.attempts + 1) at)
          (record_attempt_of e 0 [] message 0 s) (quiet_record e 0 [] message 0 s quiet) refl)

  -- If the failure hook leaves the emails alone, the driver refuses nothing and the domain of an
  -- email is found, then processing the email changes exactly the rows of its id, counts one
  -- attempt more on them, and gives them this status: sent, if Send returns no error; failed, for a
  -- permanent error; for a temporary error or a panic, queued if the email has had at most six
  -- attempts before, else failed.
  pub process-Settled :
      (d : Domain) (s : Store)
      → s.faults ≡ []
      → find? (is_domain e.domain_id) s.domains ≡ some d
      → Settled (verdict (w.send e d) e.attempts) e s.emails (process w e at s).emails
  unfolding process get_domain with_domain select_domain
  process-Settled d s quiet found =
      rw (exec_reliable (select_domain e.domain_id) s quiet, found)
        (on_outcome-Settled (w.send e d) s quiet)
