-- ===== src/Admin/Emails/Actions.antt =====
-- What the operator's retry and cancel come to, also when a worker comes in between.
use doevoe.Base.{
  ℕ, ◌≡◌, ◌≢◌, refl, ap, inl, inr, Text, Bool, true, Option, none, some, arith, find?, update,
  affected, codes, Bool-cases, ◌≤◌,
}
use doevoe.Store.{
  Email, Db, Store, Result, ok, err, Error, fault, no_rows, constraint, not_cancelable,
  not_requeueable, now,
}
use doevoe.Store.Emails.{has_id, get_email}
use doevoe.Store.Operator.{
  is_cancelable_row, canceled_row, cancel_email, is_requeueable_row, requeue_change, requeue_email,
}
use doevoe.Store.Operator.Guards.{Guarded, cancel_email-Guarded, requeue_email-Guarded}
use doevoe.Api.Requests.{Address}
use doevoe.Api.Requests.Auth.{get_email_lem}
use doevoe.Admin.{status_code}
use doevoe.Admin.Emails.{
  retryable, cancelable, new_recipient, email_action_error, after_action, requeue_to, retry_row,
  retry_email, cancel_row, cancel_email_handler,
}

-- An action that did nothing, with the reply of an error; one whose statement was refused, after what
-- the others did; or one that took place, with the reply 303: the email was read in a status that
-- allows it, and of the rows that still allow it exactly those were changed, as planned.
pub data Acted (allowed : Email → Bool) (Plan : Email → (ℕ → Email → Email) → Type 0)
    (p : Email → Bool) (id : ℕ) (others : Store → Store) (before after : Store) (code : ℕ)
    : Type 0 where
  refused :
      code ≢ 303 → after.emails ≡ before.emails → Acted allowed Plan p id others before after code
  too_late :
      (s : Store)
      → s.db ≡ before.db
      → code ≢ 303
      → after.emails ≡ (others s).emails
      → Acted allowed Plan p id others before after code
  done :
      (s : Store) (e : Email) (change : ℕ → Email → Email)
      → code ≡ 303
      → s.db ≡ before.db
      → find? (has_id id) before.emails ≡ some e
      → allowed e ≡ true
      → Plan e change
      → 1 ≤ affected p (others s).emails
      → after.emails ≡ update p (change (now (others s))) (others s).emails
      → Acted allowed Plan p id others before after code

action_code :
    (verb : Text) (e : Error) → status_code (email_action_error {Page = Unit {0}} verb e) ≢ 303
unfolding email_action_error
action_code verb (fault m) = omega arith
action_code verb no_rows = omega arith
action_code verb constraint = omega arith
action_code verb not_cancelable = omega arith
action_code verb not_requeueable = omega arith

module _ (id : ℕ) (location : Text) (others : Store → Store) (before : Store) where
  acted :
      (allowed : Email → Bool) (Plan : Email → (ℕ → Email → Email) → Type 0) (p : Email → Bool)
      (verb : Text) (e : Email) (change : ℕ → Email → Email) (s : Store)
      → s.db ≡ before.db
      → find? (has_id id) before.emails ≡ some e
      → allowed e ≡ true
      → Plan e change
      → (r : Result (Unit {0})) (s' : Store)
      → Guarded p (change (now (others s))) (others s).emails r s'.emails
      → let (reply, after) = after_action verb location (r, s') in
        Acted allowed Plan p id others before after (status_code reply)
  unfolding after_action
  acted allowed Plan p verb e change s same found may plan (err x) s' g =
      too_late s same (action_code verb x) g
  acted allowed Plan p verb e change s same found may plan (ok _) s' g =
      done s e change refl same found may plan g.0 g.1

  module _ (parse_address : Text → Option Address) (form : Text) where
    -- The change of a requeue to the recipient of the form.
    abbrev pub Readdress : Email → (ℕ → Email → Email) → Type 0
    Readdress e change =
        (a : Text × Text) × (new_recipient parse_address e form ≡ some a)
        × (change ≡ (λ (at : ℕ). requeue_change a.0 a.1 at))

    requeue_to-Acted :
        (e : Email) (s : Store) (a : Option (Text × Text))
        → s.db ≡ before.db
        → find? (has_id id) before.emails ≡ some e
        → retryable e.status ≡ true
        → new_recipient parse_address e form ≡ a
        → let (reply, after) = requeue_to id location others a s in
          Acted
            (λ x. retryable x.status)
            Readdress
            (is_requeueable_row id)
            id
            others
            before
            after
            (status_code reply)
    unfolding requeue_to
    requeue_to-Acted e s none same found may to =
        refused (omega arith) (ap (λ (d : Db). d.emails) same)
    requeue_to-Acted e s (some (new_to, name)) same found may to =
        let (r, s') = requeue_email id new_to name (others s) in
        acted (λ x. retryable x.status) Readdress (is_requeueable_row id) (codes "retried") e
          (λ (at : ℕ). requeue_change new_to name at) s same found may ((new_to, name), to, refl) r
          s' (requeue_email-Guarded id new_to name (others s))

    retry_email-Acted :
        let (reply, after) = retry_email parse_address id location form others before in
        Acted
          (λ x. retryable x.status)
          Readdress
          (is_requeueable_row id)
          id
          others
          before
          after
          (status_code reply)
    unfolding retry_email
    retry_email-Acted =
        let (r, s) = get_email id before in
        let (same, found) = get_email_lem id before in of_row r s same found
      where
        of_row :
            (r : Result Email) (s : Store)
            → s.db ≡ before.db
            → ((e : Email) → r ≡ ok e → find? (has_id id) before.emails ≡ some e)
            → let (reply, after) = retry_row parse_address id location form others (r, s) in
              Acted
                (λ x. retryable x.status)
                Readdress
                (is_requeueable_row id)
                id
                others
                before
                after
                (status_code reply)
        of_row (err x) s same found =
            unfold retry_row in refused (omega arith) (ap (λ (d : Db). d.emails) same)
        of_row (ok e) s same found =
            unfold retry_row in
            (elim (Bool-cases (retryable e.status)) [
              | inr never ↦ rw never (refused (omega arith) (ap (λ (d : Db). d.emails) same))
              | inl may ↦ rw may (
                  requeue_to-Acted e s (new_recipient parse_address e form) same (found e refl) may
                    refl)
            ])

  -- The change of a cancel.
  abbrev pub Cancel : Email → (ℕ → Email → Email) → Type 0
  Cancel e change = change ≡ (λ (at : ℕ). canceled_row)

  cancel_email_handler-Acted :
      let (reply, after) = cancel_email_handler id location others before in
      Acted
        (λ x. cancelable x.status)
        Cancel
        (is_cancelable_row id)
        id
        others
        before
        after
        (status_code reply)
  unfolding cancel_email_handler
  cancel_email_handler-Acted =
      let (r, s) = get_email id before in
      let (same, found) = get_email_lem id before in of_row r s same found
    where
      of_row :
          (r : Result Email) (s : Store)
          → s.db ≡ before.db
          → ((e : Email) → r ≡ ok e → find? (has_id id) before.emails ≡ some e)
          → let (reply, after) = cancel_row id location others (r, s) in
            Acted
              (λ x. cancelable x.status)
              Cancel
              (is_cancelable_row id)
              id
              others
              before
              after
              (status_code reply)
      of_row (err x) s same found =
          unfold cancel_row in refused (omega arith) (ap (λ (d : Db). d.emails) same)
      of_row (ok e) s same found =
          unfold cancel_row in
          (elim (Bool-cases (cancelable e.status)) [
            | inr never ↦ rw never (refused (omega arith) (ap (λ (d : Db). d.emails) same))
            | inl may ↦ rw may (
                let (r, s') = cancel_email id (others s) in
                acted (λ x. cancelable x.status) Cancel (is_cancelable_row id) (codes "canceled") e
                  (λ (at : ℕ). canceled_row) s same (found e refl) may refl r s'
                  (cancel_email-Guarded id (others s)))
          ])

  -- The operator's retry and cancel either have another reply than 303 and change no email, beside
  -- what other goroutines did between the two statements; or reply 303, and then the email was read
  -- in a status that allows the action, at least one row of its id still allowed it at the time of
  -- the write, and exactly those rows took the change: for a retry the requeue to the recipient of
  -- the form.
  pub actions-Acted :
      (parse_address : Text → Option Address) (form : Text)
      → (let (reply, after) = retry_email parse_address id location form others before in
          Acted
            (λ x. retryable x.status)
            (Readdress parse_address form)
            (is_requeueable_row id)
            id
            others
            before
            after
            (status_code reply))
        × (let (reply, after) = cancel_email_handler id location others before in
            Acted
              (λ x. cancelable x.status)
              Cancel
              (is_cancelable_row id)
              id
              others
              before
              after
              (status_code reply))
  actions-Acted parse_address form =
      (retry_email-Acted parse_address form, cancel_email_handler-Acted)
