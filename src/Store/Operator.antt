-- ===== src/Store/Operator.antt =====
-- internal/store/emails.go: CancelEmail and RequeueEmail, whose status guards stand in the UPDATE.
pub mod Guards
pub mod Preserved
pub mod Addresses
use doevoe.Base.{ℕ, zero, suc, Text, Bool, ◌&&◌, not, [], if◌then◌else◌, text_eq, is_empty}
use doevoe.Store.{
  queued, canceled, Email, Store, ok, err, Error, not_cancelable, not_requeueable, Result, Action,
  exec, now,
}
use doevoe.Store.Emails.{is_queued, is_requeueable, has_id, update_emails}

-- RowsAffected() == 0
abbrev pub guard_affected : Error → Result ℕ → Result (Unit {0})
guard_affected refusal (ok zero) = err refusal
guard_affected refusal (ok (suc n)) = ok tt
guard_affected refusal (err e) = err e

unfoldable pub is_cancelable_row : ℕ → Email → Bool
is_cancelable_row id e = has_id id e && is_queued e.status

unfoldable pub canceled_row : Email → Email
canceled_row e = record e { status = canceled }

unfoldable pub cancel_email : ℕ → Action (Unit {0})
unfolding update_emails is_cancelable_row canceled_row
cancel_email id s =
    let (r, s') = exec (update_emails (is_cancelable_row id) canceled_row) s in
    (guard_affected not_cancelable r, s')

unfoldable pub is_requeueable_row : ℕ → Email → Bool
is_requeueable_row id e = has_id id e && is_requeueable e.status

unfoldable pub requeued_row : ℕ → Email → Email
requeued_row at e = record e {
  status = queued;
  attempts = 0;
  next_attempt_at = at;
  last_error = [];
}

-- CASE WHEN original_to='' AND to_addr<>? THEN to_addr ELSE original_to END; the right sides of
-- one UPDATE read the row as it was.
unfoldable pub readdressed_row : Text → Text → ℕ → Email → Email
unfolding requeued_row
readdressed_row new_to new_to_name at e = record (requeued_row at e) {
  original_to = if is_empty e.original_to && not (text_eq e.to new_to) then e.to else e.original_to;
  to = new_to;
  to_name = new_to_name;
}

-- The row change of RequeueEmail: an empty `new_to` keeps the address and the display name.
unfoldable pub requeue_change : Text → Text → ℕ → Email → Email
unfolding requeued_row readdressed_row
requeue_change new_to new_to_name at e =
    if is_empty new_to then requeued_row at e else readdressed_row new_to new_to_name at e

unfoldable pub requeue_email : ℕ → Text → Text → Action (Unit {0})
unfolding update_emails is_requeueable_row requeue_change now
requeue_email id new_to new_to_name s =
    let change = requeue_change new_to new_to_name (now s) in
    let (r, s') = exec (update_emails (is_requeueable_row id) change) s in
    (guard_affected not_requeueable r, s')
