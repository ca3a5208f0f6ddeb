-- ===== src/Notify/Digest.antt =====
-- What a digest does to the failures that wait, alone and beside the worker.
pub mod Kept
pub mod Spaced
use doevoe.Base.{
  ℕ, ◌≡◌, refl, ◌∙◌, ap, ◌⊎◌, inl, inr, Bool, true, false, Option, none, some, List, [], ◌∷◌, ◌++◌,
  Bool-cases, Text, after_last_at, subst,
}
use doevoe.Store.{
  Db, Domain, Email, Store, Result, ok, err, exec, exec-ends, exec_reliable, reliable, now,
}
use doevoe.Store.Emails.{inserted_row, with_defaults, enqueue_email}
use doevoe.Store.Emails.Inserted.{Inserted, enqueue_email-Inserted, enqueue_email-pending}
use doevoe.Store.Domains.{verified, get_domain_by_name, select_domain_by_name}
use doevoe.Store.Notify.{
  pending_emails, list_pending_failures, clear_pending_failures, get_state, state_value, set_state,
}
use doevoe.Store.Reads.{exec_read}
use doevoe.Notify.{
  Notifier, notification, sent_of, enqueue_from, enqueue, digest_subject, digest_body, cooling_down,
  note_sent, clear_sent, send_digest, with_pending, digest_tick, value_or_empty, digest_key,
}

-- The failures wait on, or no failure waits and an email that lists them all is queued.
pub data Digested (n : Notifier) (before after : Db) : Type 0 where
  waiting : after.pending_failures ≡ before.pending_failures → Digested n before after
  reported :
      (d : Domain) (id at : ℕ)
      → verified d ≡ true
      → after.pending_failures ≡ []
      → after.emails
        ≡ before.emails
          ++ inserted_row id (
              with_defaults at (
                notification n d
                  (digest_subject n (pending_emails before))
                  (digest_body n (pending_emails before))))
            ∷ []
      → Digested n before after

-- What `enqueue` may come to.
data Queued (n : Notifier) (subject body : Text) (before : Db) : Result Bool → Db → Type 0 where
  skipped :
      {r : Result Bool} {after : Db}
      → (r ≡ ok true → ⊥)
      → after.pending_failures ≡ before.pending_failures
      → Queued n subject body before r after
  queued_email :
      {r : Result Bool} {after : Db} (d : Domain) (id at : ℕ)
      → verified d ≡ true
      → after.pending_failures ≡ before.pending_failures
      → after.emails
        ≡ before.emails ++ inserted_row id (with_defaults at (notification n d subject body)) ∷ []
      → Queued n subject body before r after

get_domain_by_name-db : (name : Text) (s : Store) → (get_domain_by_name name s).1.db ≡ s.db
unfolding get_domain_by_name select_domain_by_name
get_domain_by_name-db name s = exec-ends (λ r db. db ≡ s.db) _ s (λ m. refl) refl

enqueue-Queued :
    (n : Notifier) (subject body : Text) (s : Store)
    → let (r, s') = enqueue n subject body s in Queued n subject body s.db r s'.db
unfolding enqueue enqueue_from
enqueue-Queued n subject body s =
    let (r, s1) = get_domain_by_name (after_last_at n.system_from) s in
    of_domain r s1 (get_domain_by_name-db (after_last_at n.system_from) s)
  where
    of_insert :
        (d : Domain)
        → verified d ≡ true
        → (q : Result ℕ) (s1 s' : Store) → s1.db ≡ s.db
        → Inserted (notification n d subject body) (now s1) s1.emails q s'.emails
        → s'.pending_failures ≡ s1.pending_failures
        → Queued n subject body s.db (sent_of q) s'.db
    of_insert d v (ok id) s1 s' same row kept =
        queued_email d id (now s1) v (kept ∙ ap (λ (t : Db). t.pending_failures) same)
          (rw (← ap (λ (t : Db). t.emails) same) row.0)
    of_insert d v (err x) s1 s' same row kept =
        skipped (λ e. cc) (kept ∙ ap (λ (t : Db). t.pending_failures) same)

    of_domain :
        (r : Result (Option Domain)) (s1 : Store)
        → s1.db ≡ s.db
        → let (q, s') = enqueue_from n subject body (r, s1) in Queued n subject body s.db q s'.db
    of_domain (err x) s1 same = skipped (λ e. cc) (ap (λ (t : Db). t.pending_failures) same)
    of_domain (ok none) s1 same = skipped (λ e. cc) (ap (λ (t : Db). t.pending_failures) same)
    of_domain (ok (some d)) s1 same = elim (Bool-cases (verified d)) [
      | inr pending ↦ rw pending (skipped (λ e. cc) (ap (λ (t : Db). t.pending_failures) same))
      | inl v ↦ rw v (
          let e = notification n d subject body in
          let (q, s') = enqueue_email e s1 in
          of_insert d v q s1 s' same (enqueue_email-Inserted e s1) (enqueue_email-pending e s1))
    ]

clear_pending :
    (s : Store)
    → let s' = (clear_pending_failures s).1 in
      (s'.db ≡ s.db) ⊎ ((s'.pending_failures ≡ []) × (s'.emails ≡ s.emails))
unfolding clear_pending_failures
clear_pending s =
    exec-ends (λ r db. (db ≡ s.db) ⊎ ((db.pending_failures ≡ []) × (db.emails ≡ s.emails))) _ s
      (λ m. inl refl) (inr (refl, refl))

set_state_tables :
    (key value : Text) (s : Store)
    → let s' = (set_state key value s).1 in
      (s'.pending_failures ≡ s.pending_failures) × (s'.emails ≡ s.emails)
unfolding set_state
set_state_tables key value s =
    exec-ends (λ r db. (db.pending_failures ≡ s.pending_failures) × (db.emails ≡ s.emails)) _ s
      (λ m. (refl, refl)) (refl, refl)

get_state_db : (key : Text) (s : Store) → (get_state key s).1.db ≡ s.db
unfolding get_state
get_state_db key s = exec-ends (λ r db. db ≡ s.db) _ s (λ m. refl) refl

module _ (n : Notifier) (at : ℕ) (s : Store) where
  note_sent_tables :
      (r : Result (Unit {0})) (s1 : Store)
      → let s' = (note_sent n at (r, s1)).1 in
        (s'.pending_failures ≡ s1.pending_failures) × (s'.emails ≡ s1.emails)
  unfolding note_sent
  note_sent_tables (err x) s1 = (refl, refl)
  note_sent_tables (ok _) s1 = set_state_tables digest_key (n.printing.show_time at) s1

  cleared :
      (r : Result Bool) (s1 : Store)
      → Queued n
          (digest_subject n (pending_emails s.db))
          (digest_body n (pending_emails s.db))
          s.db
          r
          s1.db
      → Digested n s.db (clear_sent n at (λ t. t) (r, s1)).1.db
  unfolding clear_sent
  cleared (err x) s1 (skipped _ kept) = waiting kept
  cleared (err x) s1 (queued_email d id since v kept row) = waiting kept
  cleared (ok false) s1 (skipped _ kept) = waiting kept
  cleared (ok false) s1 (queued_email d id since v kept row) = waiting kept
  cleared (ok true) s1 (skipped never kept) = absurd (never refl)
  cleared (ok true) s1 (queued_email d id since v kept row) =
      let (r, s2) = clear_pending_failures s1 in
      let (pending, emails) = note_sent_tables r s2 in
      elim (clear_pending s1) [
        | inl same ↦ waiting (pending ∙ ap (λ (t : Db). t.pending_failures) same ∙ kept)
        | inr (gone, still) ↦ reported d id since v (pending ∙ gone) (emails ∙ still ∙ row)
      ]

  sent_or_not :
      (r : Result Text) (s1 : Store)
      → s1.db ≡ s.db
      → Digested n s.db (send_digest n at (λ t. t) (pending_emails s.db) (r, s1)).1.db
  unfolding send_digest
  sent_or_not r s1 same = elim (Bool-cases (cooling_down n at (value_or_empty r))) [
    | inl cool ↦ rw cool (waiting (ap (λ (t : Db). t.pending_failures) same))
    | inr due ↦ rw due (
        let subject = digest_subject n (pending_emails s.db) in
        let body = digest_body n (pending_emails s.db) in
        let (q, s2) = enqueue n subject body s1 in
        cleared q s2 (
          subst (λ (t : Db). Queued n subject body t q s2.db) same
            (enqueue-Queued n subject body s1)))
  ]

  listed :
      (r : Result (List Email)) (s1 : Store)
      → s1.db ≡ s.db
      → ((l : List Email) → r ≡ ok l → pending_emails s.db ≡ l)
      → Digested n s.db (with_pending n at (λ t. t) (r, s1)).1.db
  unfolding with_pending
  listed (err x) s1 same read = waiting (ap (λ (t : Db). t.pending_failures) same)
  listed (ok []) s1 same read = waiting (ap (λ (t : Db). t.pending_failures) same)
  listed (ok (e ∷ es)) s1 same read =
      let (r, s2) = get_state digest_key s1 in
      rw (← read (e ∷ es) refl) (sent_or_not r s2 (get_state_db digest_key s1 ∙ same))

  -- If nothing runs between its statements, DigestTick leaves the failures that wait as they are,
  -- or clears them and queues one email, from a verified domain, with the subject and the body of
  -- exactly those failures.
  pub digest_tick-Digested : Digested n s.db (digest_tick n at (λ t. t) s).1.db
  unfolding digest_tick list_pending_failures
  digest_tick-Digested =
      let (r, s1) = list_pending_failures s in
      let (same, read) = exec_read (λ db. ok (pending_emails db)) s in
      listed r s1 same (λ l e. plain (read l e))
    where
      plain : {a b : List Email} → ◌≡◌ {A = Result (List Email)} (ok a) (ok b) → a ≡ b
      plain p = cc

tail_clears :
    (n : Notifier) (at : ℕ) (s : Store)
    → s.faults ≡ []
    → (note_sent n at (clear_pending_failures s)).1.pending_failures ≡ []
unfolding clear_pending_failures
tail_clears n at s quiet =
    let (r, s') = clear_pending_failures s in
    (note_sent_tables n at s r s').0
    ∙ ap (λ (p : Result (Unit {0}) × Store). p.1.pending_failures) (exec_reliable _ s quiet)

-- Whatever failures the other goroutines add after the list was read, a digest that is sent removes.
pub digest_tick_drops :
    (n : Notifier) (at clock : ℕ) (db : Db) (others : Store → Store) (e : Email) (es : List Email)
    → pending_emails db ≡ e ∷ es
    → cooling_down n at (state_value digest_key db.notify_state) ≡ false
    → let (r, s') =
        enqueue n (digest_subject n (e ∷ es)) (digest_body n (e ∷ es)) (reliable db clock) in
      r ≡ ok true
      → (others s').faults ≡ []
      → (digest_tick n at others (reliable db clock)).1.pending_failures ≡ []
unfolding digest_tick list_pending_failures exec get_state with_pending send_digest clear_sent
digest_tick_drops n at clock db others e es listed_now due sent quiet =
    let s' =
      (enqueue n (digest_subject n (e ∷ es)) (digest_body n (e ∷ es)) (reliable db clock)).1 in
    rw listed_now (rw due (rw (sent, clear_sent) (tail_clears n at (others s') quiet)))
