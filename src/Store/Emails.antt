-- ===== src/Store/Emails.antt =====
-- internal/store/emails.go: the queue of emails. Each method is one SQL statement.
pub mod Invariant
pub mod Claim
pub mod Preserved
pub mod Inserted
use doevoe.Base.{
  ℕ, suc, ◌+◌, Text, Bool, true, false, ◌&&◌, ◌||◌, not, Option, none, some, List, [], ◌∷◌, ◌++◌,
  if◌then◌else◌, leb, ◌==◌, text_eq, is_empty, codes, find?, select, update, affected, take,
}
use doevoe.Store.{
  Status, queued, sending, sent, failed, canceled, Email, Domain, ApiKey, Db, Store, ok, err,
  no_rows, constraint, Result, Statement, Action, exec, now,
}

-- status='queued' and so on
abbrev pub is_queued : Status → Bool
is_queued queued = true
is_queued _ = false

abbrev pub is_sending : Status → Bool
is_sending sending = true
is_sending _ = false

-- requeueGuard
abbrev pub is_requeueable : Status → Bool
is_requeueable queued = true
is_requeueable failed = true
is_requeueable canceled = true
is_requeueable _ = false

abbrev pub has_id : ℕ → Email → Bool
has_id id e = e.id == id

-- The row that QueryRow scans.
abbrev pub row_or_error {ℓ} : {A : Type ℓ} → Option A → Result A
row_or_error none = err no_rows
row_or_error (some a) = ok a

-- A missing row is no error, `nil, nil`.
abbrev pub missing_is_nil {ℓ} : {A : Type ℓ} → Result A → Result (Option A)
missing_is_nil (ok a) = ok (some a)
missing_is_nil (err no_rows) = ok none
missing_is_nil (err e) = err e

-- An INTEGER PRIMARY KEY is one more than the largest in the table.
unfoldable pub next_id {ℓ} : {A : Type ℓ} → (A → ℕ) → List A → ℕ
next_id key [] = 1
next_id key (x ∷ xs) = let rest = next_id key xs in if leb rest (key x) then suc (key x) else rest

-- The partial unique index idx_emails_idem, which NULLs do not enter.
unfoldable pub same_idempotency : ℕ → Text → Email → Bool
same_idempotency api_key_id key e =
    not (is_empty key)
    && not (api_key_id == 0)
    && e.api_key_id == api_key_id
    && text_eq e.idempotency_key key

unfoldable pub some_row {ℓ} : {A : Type ℓ} → Option A → Bool
some_row none = false
some_row (some a) = true

-- REFERENCES domains(id), REFERENCES api_keys(id) and the unique index
unfoldable pub may_insert : Email → Db → Bool
unfolding some_row
may_insert e db =
    some_row (find? (λ (d : Domain). d.id == e.domain_id) db.domains)
    && (e.api_key_id == 0 || some_row (find? (λ (k : ApiKey). k.id == e.api_key_id) db.api_keys))
    && not (some_row (find? (same_idempotency e.api_key_id e.idempotency_key) db.emails))

-- The columns that the INSERT leaves out have their defaults.
unfoldable pub inserted_row : ℕ → Email → Email
inserted_row id e = record e {
  id = id;
  original_to = [];
  status = queued;
  attempts = 0;
  last_error = [];
  sent_at = 0;
}

unfoldable pub insert_email : Email → Statement ℕ
insert_email e db =
    let id = next_id (λ (r : Email). r.id) db.emails in
    if may_insert e db
    then (ok id, record db { emails = db.emails ++ inserted_row id e ∷ [] })
    else (err constraint, db)

unfoldable pub with_defaults : ℕ → Email → Email
with_defaults at e = record e {
  next_attempt_at = if e.next_attempt_at == 0 then at else e.next_attempt_at;
  created_at = if e.created_at == 0 then at else e.created_at;
  headers_json = if is_empty e.headers_json then codes "{}" else e.headers_json;
}

unfoldable pub enqueue_email : Email → Action ℕ
unfolding insert_email with_defaults now
enqueue_email e s = exec (insert_email (with_defaults (now s) e)) s

unfoldable pub select_email : ℕ → Statement Email
select_email id db = (row_or_error (find? (has_id id) db.emails), db)

unfoldable pub get_email : ℕ → Action Email
unfolding select_email
get_email id = exec (select_email id)

unfoldable pub select_by_idempotency_key : ℕ → Text → Statement Email
select_by_idempotency_key api_key_id key db = (
  row_or_error (
      find?
        (λ e.
          e.api_key_id == api_key_id
          && not (api_key_id == 0)
          && not (is_empty e.idempotency_key)
          && text_eq e.idempotency_key key)
        db.emails),
  db,
)

unfoldable pub find_by_idempotency_key : ℕ → Text → Action (Option Email)
unfolding select_by_idempotency_key
find_by_idempotency_key api_key_id key s =
    let (r, s') = exec (select_by_idempotency_key api_key_id key) s in (missing_is_nil r, s')

-- WHERE status='queued' AND next_attempt_at<=?
unfoldable pub is_due : ℕ → Email → Bool
is_due at e = is_queued e.status && leb e.next_attempt_at at

-- ORDER BY next_attempt_at, equal times in the order of the table
unfoldable pub insert_by_time : Email → List Email → List Email
insert_by_time e [] = e ∷ []
insert_by_time e (x ∷ xs) =
    let rest = insert_by_time e xs in
    if leb e.next_attempt_at x.next_attempt_at then e ∷ x ∷ xs else x ∷ rest

unfoldable pub order_by_time : List Email → List Email
unfolding insert_by_time
order_by_time [] = []
order_by_time (e ∷ es) = insert_by_time e (order_by_time es)

-- The subselect of ClaimDue.
unfoldable pub due_first : ℕ → ℕ → List Email → List Email
unfolding is_due order_by_time
due_first limit at rows = take limit (order_by_time (select (is_due at) rows))

-- id IN (...)
unfoldable pub id_in : List Email → Email → Bool
id_in [] e = false
id_in (x ∷ xs) e = let rest = id_in xs e in e.id == x.id || rest

unfoldable pub claimed_row : ℕ → Email → Email
claimed_row at e = record e { status = sending; next_attempt_at = at }

-- RETURNING gives the rows as they are after the update, here in the order of the table.
unfoldable pub claim_rows : ℕ → ℕ → Statement (List Email)
unfolding due_first id_in claimed_row
claim_rows limit at db =
    let due = due_first limit at db.emails in
    let rows = update (id_in due) (claimed_row at) db.emails in
    (ok (select (id_in due) rows), record db { emails = rows })

unfoldable pub claim_due : ℕ → ℕ → Action (List Email)
unfolding claim_rows
claim_due limit at = exec (claim_rows limit at)

-- UPDATE emails SET f WHERE p, and the number of rows that it met.
unfoldable pub update_emails : (Email → Bool) → (Email → Email) → Statement ℕ
update_emails p f db = (ok (affected p db.emails), record db { emails = update p f db.emails })

unfoldable pub is_stale : ℕ → Email → Bool
is_stale older_than e = is_sending e.status && leb e.next_attempt_at older_than

unfoldable pub requeue_stale_sending : ℕ → Action ℕ
unfolding update_emails is_stale
requeue_stale_sending older_than =
    exec (update_emails (is_stale older_than) (λ e. record e { status = queued }))

-- The result of Exec is dropped, its error returned.
abbrev pub no_result {ℓ} : {A : Type ℓ} → Result A → Result (Unit {0})
no_result (ok _) = ok tt
no_result (err e) = err e

unfoldable pub sent_row : ℕ → Email → Email
sent_row at e = record e { status = sent; attempts = e.attempts + 1; sent_at = at; last_error = [] }

unfoldable pub mark_sent : ℕ → ℕ → Action (Unit {0})
unfolding update_emails sent_row
mark_sent id at s =
    let (r, s') = exec (update_emails (has_id id) (sent_row at)) s in (no_result r, s')

unfoldable pub retry_row : ℕ → Text → Email → Email
retry_row next_at message e = record e {
  status = queued;
  attempts = e.attempts + 1;
  next_attempt_at = next_at;
  last_error = message;
}

unfoldable pub mark_retry : ℕ → ℕ → Text → Action (Unit {0})
unfolding update_emails retry_row
mark_retry id next_at message s =
    let (r, s') = exec (update_emails (has_id id) (retry_row next_at message)) s in
    (no_result r, s')

unfoldable pub failed_row : Text → Email → Email
failed_row message e = record e { status = failed; attempts = e.attempts + 1; last_error = message }

unfoldable pub mark_failed : ℕ → Text → Action (Unit {0})
unfolding update_emails failed_row
mark_failed id message s =
    let (r, s') = exec (update_emails (has_id id) (failed_row message)) s in (no_result r, s')
