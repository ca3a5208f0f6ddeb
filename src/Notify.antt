-- ===== src/Notify.antt =====
-- internal/notify/notifier.go: the queueing of notifications, the failures that wait for a digest and
-- the digest. What the program calls of fmt and time is a parameter, the record `Printing`.
pub mod Failures
pub mod Digest
pub mod Rates
pub mod Monthly
pub mod Stepwise
use doevoe.Base.{
  ℕ, ◌-◌, Text, Bool, true, false, ◌&&◌, not, Option, none, some, List, [], ◌∷◌, ◌++◌, codes, ltb,
  is_empty, if◌then◌else◌, after_last_at, length,
}
use doevoe.Store.{Email, Domain, Store, Result, ok, err, queued, hour}
use doevoe.Store.Emails.{get_email, enqueue_email}
use doevoe.Store.Domains.{get_domain_by_name, verified}
use doevoe.Store.Notify.{
  add_pending_failure, list_pending_failures, clear_pending_failures, get_state, set_state,
}

pub record Printing : Type 0 where
  pub decimal : ℕ → Text  -- %d
  pub quote : Text → Text  -- %q
  pub show_time : ℕ → Text  -- FmtTime, of a time
  pub read_time : Text → ℕ  -- ParseTime

pub record Notifier : Type 0 where
  pub admin_email : Text
  pub system_from : Text
  pub base_url : Text
  pub printing : Printing

-- The email of a notification; the fields that enqueue leaves out have Go's zero values.
unfoldable pub notification : Notifier → Domain → Text → Text → Email
notification n d subject body = record {
  id = 0;
  api_key_id = 0;
  domain_id = d.id;
  from = n.system_from;
  to = n.admin_email;
  from_name = [];
  to_name = [];
  original_to = [];
  reply_to = [];
  subject = subject;
  body_html = [];
  body_text = body;
  headers_json = [];
  status = queued;
  attempts = 0;
  next_attempt_at = 0;
  last_error = [];
  idempotency_key = [];
  is_system = true;
  created_at = 0;
  sent_at = 0;
}

abbrev sent_of : Result ℕ → Result Bool
sent_of (ok id) = ok true
sent_of (err e) = err e

enqueue_from : Notifier → Text → Text → Result (Option Domain) × Store → Result Bool × Store
enqueue_from n subject body (err e, s) = (err e, s)
enqueue_from n subject body (ok none, s) = (ok false, s)
enqueue_from n subject body (ok (some d), s) =
    if not (verified d)
    then (ok false, s)
    else (let (r, s') = enqueue_email (notification n d subject body) s in (sent_of r, s'))

-- enqueue: false, and no error, where the system domain is missing or not verified.
unfoldable pub enqueue : Notifier → Text → Text → Store → Result Bool × Store
unfolding enqueue_from
enqueue n subject body s =
    enqueue_from n subject body (get_domain_by_name (after_last_at n.system_from) s)

remember : ℕ → Result Email × Store → Store
remember id (err e, s) = s
remember id (ok e, s) = if e.is_system then s else (add_pending_failure id s).1

-- PermanentFailure
unfoldable pub permanent_failure : ℕ → Store → Store
unfolding remember
permanent_failure id s = remember id (get_email id s)

-- One entry of the digest; the dash is three bytes.
unfoldable pub digest_entry : Notifier → Email → Text
digest_entry n e =
    codes "- To "
    ++ e.to
    ++ codes " "
    ++ (226 ∷ 128 ∷ 148 ∷ [])
    ++ codes " "
    ++ n.printing.quote e.subject
    ++ 10 ∷ []
    ++ codes "  Error: "
    ++ e.last_error
    ++ 10 ∷ []
    ++ codes "  "
    ++ n.base_url
    ++ codes "/admin/emails/"
    ++ n.printing.decimal e.id
    ++ 10 ∷ 10 ∷ []

unfoldable pub digest_entries : Notifier → List Email → Text
unfolding digest_entry
digest_entries n [] = []
digest_entries n (e ∷ es) = digest_entry n e ++ digest_entries n es

unfoldable pub digest_body : Notifier → List Email → Text
unfolding digest_entries
digest_body n pending =
    n.printing.decimal (length pending)
    ++ codes " email(s) permanently failed:"
    ++ 10 ∷ 10 ∷ []
    ++ digest_entries n pending
    ++ codes "Open the links to retry or fix the recipient address."
    ++ 10 ∷ []

unfoldable pub digest_subject : Notifier → List Email → Text
digest_subject n pending =
    codes "doevoe: " ++ n.printing.decimal (length pending) ++ codes " failed email(s)"

abbrev pub value_or_empty : Result Text → Text
value_or_empty (ok v) = v
value_or_empty (err e) = []

abbrev pub digest_key : Text
digest_key = codes "digest_last_sent"

unfoldable pub cooling_down : Notifier → ℕ → Text → Bool
cooling_down n at last = not (is_empty last) && ltb (at - n.printing.read_time last) hour

note_sent : Notifier → ℕ → Result (Unit {0}) × Store → Result (Unit {0}) × Store
note_sent n at (err e, s) = (err e, s)
note_sent n at (ok _, s) = set_state digest_key (n.printing.show_time at) s

-- After the digest is queued. `others` is what the other goroutines do between the listing of the
-- pending failures and their clearing.
clear_sent : Notifier → ℕ → (Store → Store) → Result Bool × Store → Result (Unit {0}) × Store
unfolding note_sent
clear_sent n at others (err e, s) = (err e, s)
clear_sent n at others (ok false, s) = (ok tt, s)
clear_sent n at others (ok true, s) = note_sent n at (clear_pending_failures (others s))

send_digest :
    Notifier → ℕ → (Store → Store) → List Email → Result Text × Store → Result (Unit {0}) × Store
unfolding clear_sent cooling_down
send_digest n at others pending (r, s) =
    if cooling_down n at (value_or_empty r)
    then (ok tt, s)
    else clear_sent n at others (enqueue n (digest_subject n pending) (digest_body n pending) s)

with_pending :
    Notifier → ℕ → (Store → Store) → Result (List Email) × Store → Result (Unit {0}) × Store
unfolding send_digest
with_pending n at others (err e, s) = (err e, s)
with_pending n at others (ok [], s) = (ok tt, s)
with_pending n at others (ok (e ∷ es), s) =
    send_digest n at others (e ∷ es) (get_state digest_key s)

-- DigestTick
unfoldable pub digest_tick : Notifier → ℕ → (Store → Store) → Store → Result (Unit {0}) × Store
unfolding with_pending
digest_tick n at others s = with_pending n at others (list_pending_failures s)
