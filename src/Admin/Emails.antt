-- ===== src/Admin/Emails.antt =====
-- internal/admin/admin.go: showEmail, retryEmail and cancelEmail. mail.ParseAddress and
-- strings.TrimSpace are parameters. `others` is what the other goroutines do between the statement
-- that reads the email and the one that changes it.
pub mod Actions
pub mod Stepwise
use doevoe.Base.{
  ℕ, Text, Bool, true, false, not, ◌&&◌, ◌||◌, Option, none, some, List, [], ◌∷◌, ◌++◌, codes,
  text_eq, is_empty, if◌then◌else◌,
}
use doevoe.Store.{
  Status, queued, sending, sent, failed, canceled, Email, Attempt, Domain, Store, Result, ok, err,
  Error, not_cancelable, not_requeueable, error_text,
}
use doevoe.Store.Emails.{get_email, is_queued, is_requeueable}
use doevoe.Store.Operator.{cancel_email, requeue_email}
use doevoe.Store.Attempts.{list_attempts}
use doevoe.Store.Domains.{get_domain}
use doevoe.Store.Listing.{status_text}
use doevoe.Delivery.Message.{Formats, format_address}
use doevoe.Api.Requests.{Address}
use doevoe.Admin.{Reply, redirect, not_found, http_error, page}

-- retryable and cancelable
unfoldable pub retryable : Status → Bool
retryable queued = true
retryable failed = true
retryable canceled = true
retryable sending = false
retryable sent = false

unfoldable pub cancelable : Status → Bool
cancelable queued = true
cancelable _ = false

-- The data of the page "email".
pub record EmailPage : Type 0 where
  pub email : Email
  pub attempts : List Attempt
  pub domain : Option Domain
  pub can_retry : Bool
  pub can_cancel : Bool
  pub recipient : Text

-- An error that the handler drops: a nil slice or pointer.
abbrev pub list_or_nil : {A : Type 0} → Result (List A) → List A
list_or_nil (ok l) = l
list_or_nil (err e) = []

abbrev pub value_or_nil : {A : Type 0} → Result A → Option A
value_or_nil (ok a) = some a
value_or_nil (err e) = none

show_row : Formats → ℕ → Result Email × Store → Reply EmailPage × Store
unfolding retryable cancelable
show_row fm id (err e, s) = (not_found, s)
show_row fm id (ok e, s) =
    let (attempts, s1) = list_attempts id s in
    let (domain, s2) = get_domain e.domain_id s1 in
    (
      page 200 (record {
        email = e;
        attempts = list_or_nil attempts;
        domain = value_or_nil domain;
        can_retry = retryable e.status;
        can_cancel = cancelable e.status;
        recipient = format_address fm e.to_name e.to;
      }),
      s2,
    )

-- showEmail; a path that is no number stands as the id 0.
unfoldable pub show_email : Formats → ℕ → Store → Reply EmailPage × Store
unfolding show_row
show_email fm id s = show_row fm id (get_email id s)

abbrev pub claimed_meanwhile : Text → Text
claimed_meanwhile verb =
    codes "the email was picked up for delivery a moment ago and cannot be "
    ++ verb
    ++ codes " while it is sending; try again shortly"

-- emailActionError: a refusal of the guard is a 409, any other error a 500.
unfoldable pub email_action_error : {Page : Type 0} → Text → Error → Reply Page
email_action_error verb not_cancelable = http_error 409 (claimed_meanwhile verb)
email_action_error verb not_requeueable = http_error 409 (claimed_meanwhile verb)
email_action_error verb e = http_error 500 (error_text e)

abbrev Done : Type 0
Done = Reply (Unit {0}) × Store

after_action : Text → Text → Result (Unit {0}) × Store → Done
unfolding email_action_error
after_action verb location (err e, s) = (email_action_error verb e, s)
after_action verb location (ok _, s) = (redirect location, s)

-- The recipient of the form: none is one that does not parse; an empty address keeps the old one.
of_address : Email → Option Address → Option (Text × Text)
of_address e none = none
of_address e (some a) =
    if not (text_eq a.address e.to) || not (text_eq a.name e.to_name)
    then some (a.address, a.name)
    else some ([], [])

unfoldable pub new_recipient : (Text → Option Address) → Email → Text → Option (Text × Text)
unfolding of_address
new_recipient parse_address e v =
    if is_empty v then some ([], []) else of_address e (parse_address v)

requeue_to : ℕ → Text → (Store → Store) → Option (Text × Text) → Store → Done
unfolding after_action
requeue_to id location others none s = (http_error 422 (codes "invalid address"), s)
requeue_to id location others (some (new_to, name)) s =
    after_action (codes "retried") location (requeue_email id new_to name (others s))

retry_row :
    (Text → Option Address) → ℕ → Text → Text → (Store → Store) → Result Email × Store → Done
unfolding requeue_to retryable
retry_row parse_address id location form others (err e, s) = (not_found, s)
retry_row parse_address id location form others (ok e, s) =
    if not (retryable e.status)
    then (
      http_error 409 (codes "a " ++ status_text e.status ++ codes " email cannot be retried"),
      s,
    )
    else requeue_to id location others (new_recipient parse_address e form) s

-- retryEmail; `form` is the trimmed value of the field "to", and `location` the page of the email.
unfoldable pub retry_email :
    (Text → Option Address) → ℕ → Text → Text → (Store → Store) → Store → Done
unfolding retry_row
retry_email parse_address id location form others s =
    retry_row parse_address id location form others (get_email id s)

cancel_row : ℕ → Text → (Store → Store) → Result Email × Store → Done
unfolding after_action cancelable
cancel_row id location others (err e, s) = (not_found, s)
cancel_row id location others (ok e, s) =
    if not (cancelable e.status)
    then (
      http_error 409
          (codes "only a queued email can be canceled; this one is " ++ status_text e.status),
      s,
    )
    else after_action (codes "canceled") location (cancel_email id (others s))

-- cancelEmail
unfoldable pub cancel_email_handler : ℕ → Text → (Store → Store) → Store → Done
unfolding cancel_row
cancel_email_handler id location others s = cancel_row id location others (get_email id s)
