-- ===== src/Store/Notify.antt =====
-- internal/store/notify.go: the notifier's own state and the failures that wait for a digest.
use doevoe.Base.{
  ℕ, Text, Bool, false, ◌||◌, Option, none, some, List, [], ◌∷◌, ◌++◌, ◌==◌, text_eq, find?, select,
  if◌then◌else◌, ◌≡◌, refl, text_eq_refl, Bool-cases, inl, inr,
}
use doevoe.Store.{Email, PendingFailure, Db, ok, err, constraint, Statement, Action, exec, now}
use doevoe.Store.Emails.{has_id}

-- SELECT value FROM notify_state WHERE key=?; an unset key reads as the empty text.
unfoldable pub state_value : Text → List (Text × Text) → Text
state_value key [] = []
state_value key ((k, v) ∷ rest) = if text_eq k key then v else state_value key rest

unfoldable pub get_state : Text → Action Text
unfolding state_value
get_state key = exec (λ db. (ok (state_value key db.notify_state), db))

-- INSERT ... ON CONFLICT(key) DO UPDATE
unfoldable pub put_value : Text → Text → List (Text × Text) → List (Text × Text)
put_value key value [] = (key, value) ∷ []
put_value key value ((k, v) ∷ rest) =
    let later = put_value key value rest in
    if text_eq k key then (k, value) ∷ rest else (k, v) ∷ later

-- A key that was written reads as its last value.
pub state_value-put_value :
    (key value : Text) (rows : List (Text × Text))
    → state_value key (put_value key value rows) ≡ value
unfolding state_value put_value
state_value-put_value key value [] = rw (text_eq_refl key) refl
state_value-put_value key value ((k, v) ∷ rest) = elim (Bool-cases (text_eq k key)) [
  | inl same ↦ rw (same, same) refl
  | inr other ↦ rw (other, other) (state_value-put_value key value rest)
]

unfoldable pub set_state : Text → Text → Action (Unit {0})
unfolding put_value
set_state key value =
    exec (λ db. (ok tt, record db { notify_state = put_value key value db.notify_state }))

unfoldable pub is_pending : ℕ → List PendingFailure → Bool
is_pending id [] = false
is_pending id (p ∷ ps) = let rest = is_pending id ps in p.email_id == id || rest

-- INSERT OR IGNORE: a row that is there stays; email_id REFERENCES emails(id).
abbrev insert_pending : Option Email → ℕ → ℕ → Statement (Unit {0})
insert_pending none id at db = (err constraint, db)
insert_pending (some _) id at db = (
  ok tt,
  record db {
    pending_failures =
        if is_pending id db.pending_failures
        then db.pending_failures
        else db.pending_failures ++ record { email_id = id; created_at = at } ∷ [];
  },
)

unfoldable pub add_pending : ℕ → ℕ → Statement (Unit {0})
unfolding is_pending
add_pending id at db = insert_pending (find? (has_id id) db.emails) id at db

unfoldable pub add_pending_failure : ℕ → Action (Unit {0})
unfolding add_pending now
add_pending_failure id s = exec (add_pending id (now s)) s

-- emails whose id is pending; the table of emails is in the order of ORDER BY id
unfoldable pub pending_emails : Db → List Email
unfolding is_pending
pending_emails db = select (λ (e : Email). is_pending e.id db.pending_failures) db.emails

unfoldable pub list_pending_failures : Action (List Email)
unfolding pending_emails
list_pending_failures = exec (λ db. (ok (pending_emails db), db))

unfoldable pub clear_pending_failures : Action (Unit {0})
clear_pending_failures = exec (λ db. (ok tt, record db { pending_failures = [] }))
