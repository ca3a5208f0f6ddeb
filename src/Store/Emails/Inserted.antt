-- ===== src/Store/Emails/Inserted.antt =====
-- What EnqueueEmail does to the tables.
use doevoe.Base.{ℕ, ◌≡◌, refl, List, [], ◌∷◌, ◌++◌, Bool-cases, inl, inr}
use doevoe.Store.{Db, Email, Store, Result, ok, err, exec-ends, now}
use doevoe.Store.Emails.{enqueue_email, insert_email, inserted_row, with_defaults, may_insert}
use doevoe.Store.Emails.Invariant.{IsTable}
use doevoe.Store.Emails.Preserved.{insert_email-IsTable}

abbrev pub Inserted : Email → ℕ → List Email → Result ℕ → List Email → Type 0
Inserted e at before (ok id) after =
    (after ≡ before ++ inserted_row id (with_defaults at e) ∷ []) × (IsTable before → IsTable after)
Inserted e at before (err x) after = after ≡ before

insert_email-Inserted :
    (e : Email) (at : ℕ) (db : Db)
    → let (r, db') = insert_email (with_defaults at e) db in Inserted e at db.emails r db'.emails
unfolding insert_email
insert_email-Inserted e at db = elim (Bool-cases (may_insert (with_defaults at e) db)) [
  | inl may ↦
      let keeps = insert_email-IsTable (with_defaults at e) db in
      rw may (refl, λ h. rw may at (keeps h))
  | inr never ↦ rw never refl
]

-- An accepted INSERT appends the row with its defaults; a refused one changes no email.
pub enqueue_email-Inserted :
    (e : Email) (s : Store)
    → let (r, s') = enqueue_email e s in Inserted e (now s) s.emails r s'.emails
unfolding enqueue_email
enqueue_email-Inserted e s =
    exec-ends (λ r db. Inserted e (now s) s.emails r db.emails)
      (insert_email (with_defaults (now s) e)) s (λ m. refl) (insert_email-Inserted e (now s) s.db)

insert_email-pending :
    (e : Email) (db : Db) → (insert_email e db).1.pending_failures ≡ db.pending_failures
unfolding insert_email
insert_email-pending e db = elim (Bool-cases (may_insert e db)) [
  | inl may ↦ rw may refl
  | inr never ↦ rw never refl
]

pub enqueue_email-pending :
    (e : Email) (s : Store) → (enqueue_email e s).1.pending_failures ≡ s.pending_failures
unfolding enqueue_email
enqueue_email-pending e s =
    exec-ends (λ r db. db.pending_failures ≡ s.pending_failures)
      (insert_email (with_defaults (now s) e)) s (λ m. refl)
      (insert_email-pending (with_defaults (now s) e) s.db)
