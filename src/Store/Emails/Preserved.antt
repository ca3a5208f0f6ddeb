-- ===== src/Store/Emails/Preserved.antt =====
-- Each statement that writes emails keeps the invariant of their table.
use doevoe.Base.{
  ℕ, ◌<◌, ◌≡◌, refl, Bool, true, false, List, [], ◌∷◌, ◌++◌, arith, Bool-cases, Option-cases, inl,
  inr, All, All-map, All-zip, Pairwise-append, find?, none, All-append,
}
use doevoe.Store.{queued, Email, Db, Store, Statement, exec, exec-ends, now}
use doevoe.Store.Emails.{
  next_id, same_idempotency, may_insert, some_row, inserted_row, insert_email, enqueue_email,
  with_defaults, update_emails, is_stale, requeue_stale_sending, claim_due, claim_rows, claimed_row,
  is_due, id_in, due_first,
}
use doevoe.Store.Emails.Claim.{claimed-is_due}
use doevoe.Store.Emails.Invariant.{
  IsRow, InOrder, IsTable, KeepsKeys, update-IsTable, All-any, next_id-lt, not_found,
}

module _ {A : Type 0} where
  -- Whatever becomes of a statement, a property of the emails that it keeps is kept.
  pub exec-keeps :
      (P : List Email → Type 0) (run : Statement A) (s : Store)
      → P (run s.db).1.emails
      → P s.emails
      → P (exec run s).1.emails
  exec-keeps P run s after before = exec-ends (λ r db. P db.emails) run s (λ m. before) after

fresh :
    (q : Email → Bool) (rows : List Email) → some_row (find? q rows) ≡ false → find? q rows ≡ none
unfolding some_row
fresh q rows h = elim (Option-cases (find? q rows)) [
  | inl missing ↦ missing
  | inr (x, found) ↦ cc (rw (found, some_row) at h)
]

-- The index lets no second email of a key in.
insert_row-IsTable :
    (e : Email) (db : Db)
    → may_insert e db ≡ true
    → IsTable db.emails
    → IsTable (db.emails ++ inserted_row (next_id (λ (r : Email). r.id) db.emails) e ∷ [])
unfolding inserted_row
insert_row-IsTable e db may h =
    let id = next_id (λ (r : Email). r.id) db.emails in
    let new = inserted_row id e in
    record {
      each =
          All-append IsRow db.emails (new ∷ []) h.each
            (record { counts = omega arith; sent_at = refl }, tt);
      pairs = Pairwise-append InOrder db.emails new h.pairs (
          All-map
            (λ (x : Email).
              (x.id < id) × (same_idempotency e.api_key_id e.idempotency_key x ≡ false))
            (λ (x : Email). InOrder x new) (λ x p. record { grows = p.0; differs = p.1 }) db.emails
            (All-zip (λ (x : Email). x.id < id)
              (λ (x : Email). same_idempotency e.api_key_id e.idempotency_key x ≡ false) db.emails
              (next_id-lt db.emails)
              (not_found (same_idempotency e.api_key_id e.idempotency_key) db.emails (
                fresh (same_idempotency e.api_key_id e.idempotency_key) db.emails
                  (unfold may_insert in ground arith)))));
    }

pub insert_email-IsTable :
    (e : Email) (db : Db) → IsTable db.emails → IsTable (insert_email e db).1.emails
unfolding insert_email
insert_email-IsTable e db h = elim (Bool-cases (may_insert e db)) [
  | inl may ↦ rw may (insert_row-IsTable e db may h)
  | inr not_so ↦ rw not_so h
]

-- EnqueueEmail keeps the invariant, accepted or not.
pub enqueue_email-IsTable :
    (e : Email) (s : Store) → IsTable s.emails → IsTable (enqueue_email e s).1.emails
unfolding enqueue_email
enqueue_email-IsTable e s h =
    exec-keeps IsTable (insert_email (with_defaults (now s) e)) s
      (insert_email-IsTable (with_defaults (now s) e) s.db h) h

module _ (p : Email → Bool) (f : Email → Email) (keys : KeepsKeys f) (s : Store) where
  pub update_emails-IsTable :
      All (λ e. p e ≡ true → IsRow e → IsRow (f e)) s.emails
      → IsTable s.emails
      → IsTable (exec (update_emails p f) s).1.emails
  unfolding update_emails
  update_emails-IsTable fits h =
      exec-keeps IsTable (update_emails p f) s (update-IsTable p f keys s.emails fits h) h

pub same_keys :
    (f : Email → Email)
    → ((e : Email)
        → ((f e).id ≡ e.id)
          × ((f e).api_key_id ≡ e.api_key_id)
          × ((f e).idempotency_key ≡ e.idempotency_key))
    → KeepsKeys f
same_keys f h = record { id = λ e. (h e).0; api_key = λ e. (h e).1; idempotency = λ e. (h e).2 }

stale-IsRow :
    (older_than : ℕ) (e : Email)
    → is_stale older_than e ≡ true
    → IsRow e
    → IsRow (record e { status = queued })
unfolding is_stale
stale-IsRow older_than e h r = ground arith

-- RequeueStaleSending keeps the invariant.
pub requeue_stale_sending-IsTable :
    (older_than : ℕ) (s : Store)
    → IsTable s.emails
    → IsTable (requeue_stale_sending older_than s).1.emails
unfolding requeue_stale_sending
requeue_stale_sending-IsTable older_than s =
    update_emails-IsTable (is_stale older_than) (λ e. record e { status = queued })
      (same_keys (λ e. record e { status = queued }) (λ e. (refl, refl, refl))) s
      (All-any _ (stale-IsRow older_than) s.emails)

claim_due-IsRow : (at : ℕ) (e : Email) → is_due at e ≡ true → IsRow e → IsRow (claimed_row at e)
unfolding is_due claimed_row
claim_due-IsRow at e due r = ground arith

pub claimed_row-KeepsKeys : (at : ℕ) → KeepsKeys (claimed_row at)
unfolding claimed_row
claimed_row-KeepsKeys at = same_keys (claimed_row at) (λ e. (refl, refl, refl))

pub claim_rows-IsTable :
    (limit at : ℕ) (db : Db) → IsTable db.emails → IsTable (claim_rows limit at db).1.emails
unfolding claim_rows
claim_rows-IsTable limit at db h =
    let taken = due_first limit at db.emails in
    update-IsTable (id_in taken) (claimed_row at) (claimed_row-KeepsKeys at) db.emails
      (All-map (λ e. id_in taken e ≡ true → is_due at e ≡ true) _
        (λ e due met r. claim_due-IsRow at e (due met) r) db.emails
        (claimed-is_due limit at db.emails h.pairs))
      h

-- ClaimDue keeps the invariant.
pub claim_due-IsTable :
    (limit at : ℕ) (s : Store) → IsTable s.emails → IsTable (claim_due limit at s).1.emails
unfolding claim_due
claim_due-IsTable limit at s h =
    exec-keeps IsTable (claim_rows limit at) s (claim_rows-IsTable limit at s.db h) h
