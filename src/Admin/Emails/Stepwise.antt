-- ===== src/Admin/Emails/Stepwise.antt =====
-- The handlers of an email are sequences of calls of the store.
use doevoe.Base.{codes, ℕ, refl, Text, Option, none, some, Bool-cases, inl, inr}
use doevoe.Store.{Email, Store, Result, ok, err}
use doevoe.Store.Emails.{get_email}
use doevoe.Store.Operator.{cancel_email, requeue_email}
use doevoe.Store.Attempts.{list_attempts}
use doevoe.Store.Calls.{
  Calls, still, cancels, requeues, both, get_email-Calls, get_domain-Calls, list_attempts-Calls,
}
use doevoe.Delivery.Message.{Formats}
use doevoe.Api.Requests.{Address}
use doevoe.Admin.Emails.{
  retryable, cancelable, show_row, show_email, after_action, new_recipient, requeue_to, retry_row,
  retry_email, cancel_row, cancel_email_handler,
}

pub show_email-Calls : (fm : Formats) (id : ℕ) (s : Store) → Calls s (show_email fm id s).1
unfolding show_email
show_email-Calls fm id s = let (r, s') = get_email id s in both (get_email-Calls id s) (of_row r s')
  where
    of_row : (r : Result Email) (s' : Store) → Calls s' (show_row fm id (r, s')).1
    of_row (err e) s' = unfold show_row in still refl
    of_row (ok e) s' =
        unfold show_row in
        both (list_attempts-Calls id s') (get_domain-Calls e.domain_id (list_attempts id s').1)

module _ (id : ℕ) (location : Text) (others : Store → Store)
    (meanwhile : (s : Store) → Calls s (others s)) where
  after_action-Calls :
      (verb : Text) (r : Result (Unit {0})) (s : Store)
      → Calls s (after_action verb location (r, s)).1
  unfolding after_action
  after_action-Calls verb (ok u) s = still refl
  after_action-Calls verb (err e) s = still refl

  requeue_to-Calls :
      (to : Option (Text × Text)) (s : Store) → Calls s (requeue_to id location others to s).1
  unfolding requeue_to
  requeue_to-Calls none s = still refl
  requeue_to-Calls (some (new_to, name)) s = both (meanwhile s) (
      both (requeues id new_to name) (
        after_action-Calls (codes "retried") (requeue_email id new_to name (others s)).0
          (requeue_email id new_to name (others s)).1))

  pub retry_email-Calls :
      (parse_address : Text → Option Address) (form : Text) (s : Store)
      → Calls s (retry_email parse_address id location form others s).1
  unfolding retry_email
  retry_email-Calls parse_address form s =
      let (r, s') = get_email id s in both (get_email-Calls id s) (of_row r s')
    where
      of_row :
          (r : Result Email) (s' : Store)
          → Calls s' (retry_row parse_address id location form others (r, s')).1
      of_row (err e) s' = unfold retry_row in still refl
      of_row (ok e) s' =
          unfold retry_row in
          elim (Bool-cases (retryable e.status)) [
            | inl may ↦ rw may (requeue_to-Calls (new_recipient parse_address e form) s')
            | inr never ↦ rw never (still refl)
          ]

  pub cancel_email_handler-Calls :
      (s : Store) → Calls s (cancel_email_handler id location others s).1
  unfolding cancel_email_handler
  cancel_email_handler-Calls s =
      let (r, s') = get_email id s in both (get_email-Calls id s) (of_row r s')
    where
      of_row : (r : Result Email) (s' : Store) → Calls s' (cancel_row id location others (r, s')).1
      of_row (err e) s' = unfold cancel_row in still refl
      of_row (ok e) s' =
          unfold cancel_row in
          elim (Bool-cases (cancelable e.status)) [
            | inl may ↦ rw may (
                both (meanwhile s') (
                  both (cancels id) (
                    after_action-Calls (codes "canceled") (cancel_email id (others s')).0
                      (cancel_email id (others s')).1)))
            | inr never ↦ rw never (still refl)
          ]
