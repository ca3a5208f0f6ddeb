-- ===== src/Store/Attempts.antt =====
-- internal/store/attempts.go: the log of delivery attempts.
use doevoe.Base.{ℕ, Text, some, ◌==◌, ◌∷◌, [], ◌++◌, List, find?, select, Option, none}
use doevoe.Store.{Attempt, Db, ok, err, constraint, Statement, Action, exec, now}
use doevoe.Store.Emails.{next_id, has_id}

attempt_row : ℕ → ℕ → ℕ → ℕ → Text → Text → ℕ → ℕ → Attempt
attempt_row id email_id attempt_no code mx_host response duration_ms at = record {
  id = id;
  email_id = email_id;
  attempt_no = attempt_no;
  smtp_code = code;
  mx_host = mx_host;
  response = response;
  duration_ms = duration_ms;
  created_at = at;
}

abbrev insert_if_found {ℓ} : {A : Type ℓ} → Option A → Attempt → Statement (Unit {0})
insert_if_found none a db = (err constraint, db)
insert_if_found (some _) a db =
    (ok tt, record db { delivery_attempts = db.delivery_attempts ++ a ∷ [] })

-- The INSERT; email_id REFERENCES emails(id).
unfoldable pub insert_attempt : ℕ → ℕ → ℕ → Text → Text → ℕ → ℕ → Statement (Unit {0})
unfolding next_id attempt_row
insert_attempt email_id attempt_no code mx_host response duration_ms at db =
    let id = next_id (λ (a : Attempt). a.id) db.delivery_attempts in
    insert_if_found (find? (has_id email_id) db.emails)
      (attempt_row id email_id attempt_no code mx_host response duration_ms at) db

unfoldable pub record_attempt : ℕ → ℕ → ℕ → Text → Text → ℕ → Action (Unit {0})
unfolding insert_attempt now
record_attempt email_id attempt_no code mx_host response duration_ms s =
    exec (insert_attempt email_id attempt_no code mx_host response duration_ms (now s)) s

unfoldable pub attempts_of : ℕ → Db → List Attempt
attempts_of email_id db = select (λ (a : Attempt). a.email_id == email_id) db.delivery_attempts

-- Rows are only ever added with a larger id, so the table is in the order of ORDER BY id.
unfoldable pub list_attempts : ℕ → Action (List Attempt)
unfolding attempts_of
list_attempts email_id = exec (λ db. (ok (attempts_of email_id db), db))
