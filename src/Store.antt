-- ===== src/Store.antt =====
-- internal/store: the rows of the SQLite tables, the database, and the execution of one statement.
-- A time is a number of nanoseconds since Go's zero time; a stored timestamp is a number too, in
-- whole seconds, of which 0 is the empty string (store.go: FmtTime, ParseTime).
use doevoe.Base.{
  ℕ, ◌+◌, ◌-◌, ◌*◌, ◌/◌, ◌≡◌, refl, Text, Bool, Option, none, some, List, [], ◌∷◌, codes,
}
pub mod Reads
pub mod Stats
pub mod Emails
pub mod Operator
pub mod Attempts
pub mod Domains
pub mod ApiKeys
pub mod Notify
pub mod Listing
pub mod Calls
pub mod Open

pub data Status : Type 0 where
  queued sending sent failed canceled : Status

-- emails
pub record Email : Type 0 where
  pub id : ℕ
  pub api_key_id : ℕ  -- 0 is NULL
  pub domain_id : ℕ
  pub from : Text
  pub to : Text
  pub from_name : Text
  pub to_name : Text
  pub original_to : Text
  pub reply_to : Text
  pub subject : Text
  pub body_html : Text
  pub body_text : Text
  pub headers_json : Text
  pub status : Status
  pub attempts : ℕ
  pub next_attempt_at : ℕ
  pub last_error : Text
  pub idempotency_key : Text  -- the empty text is NULL
  pub is_system : Bool
  pub created_at : ℕ
  pub sent_at : ℕ

-- delivery_attempts
pub record Attempt : Type 0 where
  pub id : ℕ
  pub email_id : ℕ
  pub attempt_no : ℕ
  pub smtp_code : ℕ
  pub mx_host : Text
  pub response : Text
  pub duration_ms : ℕ
  pub created_at : ℕ

-- domains
pub record Domain : Type 0 where
  pub id : ℕ
  pub name : Text
  pub dkim_selector : Text
  pub dkim_private_key : Text
  pub spf_verified : Bool
  pub dkim_verified : Bool
  pub dmarc_verified : Bool
  pub last_checked_at : ℕ
  pub created_at : ℕ

-- api_keys
pub record ApiKey : Type 0 where
  pub id : ℕ
  pub name : Text
  pub key_hash : Text
  pub domain_id : ℕ
  pub revoked : Bool
  pub last_used_at : ℕ
  pub created_at : ℕ

-- notify_pending_failures
pub record PendingFailure : Type 0 where
  pub email_id : ℕ
  pub created_at : ℕ

pub record Db : Type 0 where
  pub emails : List Email
  pub delivery_attempts : List Attempt
  pub domains : List Domain
  pub api_keys : List ApiKey
  pub notify_state : List (Text × Text)
  pub pending_failures : List PendingFailure

abbrev pub empty_db : Db
empty_db = record {
  emails = [];
  delivery_attempts = [];
  domains = [];
  api_keys = [];
  notify_state = [];
  pending_failures = [];
}

-- Beside the tables, the reading of the clock, and the environment: for each statement to come,
-- whether the driver refuses it, and with which message. After the end of the list none is refused.
pub record Store : Type 0 where
  pub db : Db
  pub open db use *
  pub clock : ℕ
  pub faults : List (Option Text)

-- `fault` is an error of the driver, `constraint` a violated UNIQUE or REFERENCES.
pub data Error : Type 0 where
  fault : Text → Error
  no_rows constraint not_cancelable not_requeueable : Error

-- err.Error(); the text of a violated constraint is SQLite's, of which no behaviour depends.
unfoldable pub error_text : Error → Text
error_text (fault m) = m
error_text no_rows = codes "sql: no rows in result set"
error_text constraint = codes "constraint failed"
error_text not_cancelable = codes "only a queued email can be canceled"
error_text not_requeueable = codes "email cannot be requeued in its current status"

pub data Result {ℓ} (A : Type ℓ) : Type ℓ where
  ok : A → Result A
  err : Error → Result A

-- What one SQL statement does, and what a method of the store does.
abbrev pub Statement : Type 0 → Type 0
Statement A = Db → Result A × Db

abbrev pub Action : Type 0 → Type 0
Action A = Store → Result A × Store

module _ {A : Type 0} where
  -- A refused statement changes nothing: SQLite runs a statement whole or not at all.
  exec_at : List (Option Text) → Statement A → Action A
  exec_at [] run s = let (r, db') = run s.db in (r, record s { db = db' })
  exec_at (none ∷ rest) run s = let (r, db') = run s.db in (r, record s { db = db'; faults = rest })
  exec_at (some m ∷ rest) run s = (err (fault m), record s { faults = rest })

  unfoldable pub exec : Statement A → Action A
  unfolding exec_at
  exec run s = exec_at s.faults run s

  exec_at-ends :
      (Q : Result A → Db → Type 0) (fs : List (Option Text)) (run : Statement A) (s : Store)
      → ((m : Text) → Q (err (fault m)) s.db)
      → Q (run s.db).0 (run s.db).1
      → Q (exec_at fs run s).0 (exec_at fs run s).1.db
  unfolding exec_at
  exec_at-ends Q [] run s refused ran = ran
  exec_at-ends Q (none ∷ rest) run s refused ran = ran
  exec_at-ends Q (some m ∷ rest) run s refused ran = refused m

  -- A statement is refused and changes no table, or it runs.
  pub exec-ends :
      (Q : Result A → Db → Type 0) (run : Statement A) (s : Store)
      → ((m : Text) → Q (err (fault m)) s.db)
      → Q (run s.db).0 (run s.db).1
      → Q (exec run s).0 (exec run s).1.db
  unfolding exec
  exec-ends Q run s = exec_at-ends Q s.faults run s

  -- Where no statement is refused, `exec` is the statement.
  pub exec_reliable :
      (run : Statement A) (s : Store)
      → s.faults ≡ []
      → exec run s ≡ (let (r, db') = run s.db in (r, record s { db = db' }))
  unfolding exec exec_at
  exec_reliable run s h = rw (h, exec_at)

-- A store whose driver refuses nothing.
abbrev pub reliable : Db → ℕ → Store
reliable db clock = record { db = db; clock = clock; faults = [] }

-- time.Duration
abbrev pub second : ℕ
second = 1000000000

abbrev pub minute : ℕ
minute = 60 * second

abbrev pub hour : ℕ
hour = 60 * minute

-- FmtTime drops the fraction of a second; ParseTime of the empty string is the zero time.
unfoldable pub fmt_time : ℕ → ℕ
fmt_time t = t / second + 1

unfoldable pub parse_time : ℕ → ℕ
parse_time at = (at - 1) * second

-- Now()
unfoldable pub now : Store → ℕ
unfolding fmt_time
now s = fmt_time s.clock
